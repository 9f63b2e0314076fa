-- ===== src/Stats/Socket/Client.antt =====
-- What the statistics socket sends (`acceptLoop` and `handleConn` of stats/server.go) and what the
-- client prints (`runStats` of main.go). The encoder of JSON is a parameter.
use dns_cache.Prelude.{
  ℕ, zero, suc, ◌≤◌, ◌≡◌, ◌↔◌, refl, sym, ap, ◌∙◌, arith, List, [], ◌∷◌, ◌++◌, Option, none, some,
  All, get_elem?, length, length-take, take, min,
}
use dns_cache.Prelude.Decimal.{Bytes}
use dns_cache.Prelude.Int.{ℤ}
use dns_cache.Time.{Instant, Duration}
use dns_cache.Entry.{Entry}
use dns_cache.Cache.{Cache}
use dns_cache.Refresher.{SortSlice}
use dns_cache.Stats.{DomainStat}
use dns_cache.Stats.Ratios.{Floats}
use dns_cache.Stats.Snapshot.{StatsSnapshot, SnapshotClock, stats_snapshot}

-- What a connection is handled with: the readings of the clock, the cache, and the order in which
-- `ForEach` meets its entries
pub record Visit (RR : Type 0) : Type 0 where
  pub clock : SnapshotClock
  pub order : List (Instant × Entry RR)
  pub store : Cache RR

-- What `Accept` returns: an error, as after `Stop`, or a connection, with the moment at which it is
-- handled and what `Write` reports
pub data Accepted (RR Err : Type 0) : Type 0 where
  fails : Err → Accepted RR Err
  connects : Visit RR → Option Err → Accepted RR Err

-- `runStats` ends the program with an error, or prints.
pub data Printed (Err : Type 0) : Type 0 where
  fatal : Err → Printed Err
  prints : Bytes → Printed Err

-- What the client's calls report, and how many bytes the answer has when `Read` returns
pub record Reading (Err : Type 0) : Type 0 where
  pub dial_err : Option Err
  pub read_err : Option Err
  pub arrived : ℕ

-- `make([]byte, 65536)`
abbrev pub buffer_size : ℕ
buffer_size = 65536

module _ {RR F : Type 0} (fl : Floats F) (rounded_seconds : Duration → Bytes) (zone : Instant → ℤ)
    (sorting : SortSlice DomainStat) (marshal_indent : StatsSnapshot F → Bytes)
    (started_at : Instant) where
  -- The text that `handleConn` writes: the snapshot of the moment, and a line's end
  unfoldable pub answer_text : Visit RR → Bytes
  unfolding stats_snapshot
  answer_text v =
      marshal_indent
        (stats_snapshot fl rounded_seconds zone sorting started_at v.clock v.order v.store)
      ++ (10 ∷ [])

  -- `handleConn`: the connection gets the text, unless the write fails.
  unfoldable pub handle_conn : {Err : Type 0} → Visit RR → Option Err → Option Bytes
  unfolding answer_text
  handle_conn v none = some (answer_text v)
  handle_conn v (some err) = none

  -- `acceptLoop`: what each connection gets
  unfoldable pub accept_loop : {Err : Type 0} → List (Accepted RR Err) → List (Option Bytes)
  unfolding handle_conn
  accept_loop [] = []
  accept_loop (fails err ∷ later) = []
  accept_loop (connects v write_err ∷ later) = handle_conn v write_err ∷ accept_loop later

-- `runStats`, against the bytes that the server sends
unfoldable pub run_stats : {Err : Type 0} → Reading Err → Bytes → Printed Err
run_stats r sent = elim (Reading.dial_err r) [
  | some err ↦ fatal err
  | none ↦ elim (Reading.read_err r) [
    | some err ↦ fatal err
    | none ↦ prints (take (min buffer_size (Reading.arrived r)) sent)
  ]
]

take_all : {A : Type 0} (n : ℕ) (l : List A) → length l ≤ n → take n l ≡ l
take_all zero [] le = refl
take_all (suc n) [] le = refl
take_all zero (x ∷ l) le = absurd (omega arith)
take_all (suc n) (x ∷ l) le = ap (λ r. x ∷ r) (take_all n l (omega arith))

prints_inj : {Err : Type 0} (a b : Bytes) → ◌≡◌ {A = Printed Err} (prints a) (prints b) → a ≡ b
prints_inj a b e = cc

-- `runStats` reads once: where no call fails, it prints the whole answer exactly if all of it has
-- arrived when `Read` returns and it is at most 65536 bytes long.
pub run_stats-whole :
    {Err : Type 0} (r : Reading Err) (sent : Bytes)
    → r.dial_err ≡ none
    → r.read_err ≡ none
    → (run_stats r sent ≡ prints sent) ↔ ((length sent ≤ r.arrived) × (length sent ≤ 65536))
unfolding run_stats
run_stats-whole r sent dialled got = (
  λ e.
      let cut : run_stats r sent ≡ prints (take (min buffer_size r.arrived) sent) =
        rw (run_stats, dialled, got) refl in
      let whole = prints_inj _ _ (sym cut ∙ e) in
      omega (arith, ap length whole, length-take (min buffer_size r.arrived) sent),
  λ h.
      rw (run_stats, dialled, got)
        (ap prints (take_all (min buffer_size r.arrived) sent (omega (arith, h.0, h.1)))),
)

-- A connection
abbrev Connects : {RR Err : Type 0} → Accepted RR Err → Type 0
Connects (fails err) = ⊥
Connects (connects v write_err) = Unit

-- A client that connects before `Accept` fails is sent the snapshot of the cache at its own time,
-- whoever connected before. Where no call fails, it prints it whole exactly if all of the text has
-- arrived when `Read` returns and it is at most 65536 bytes long.
pub run_stats-accept_loop :
    {RR F Err : Type 0} (fl : Floats F) (rounded_seconds : Duration → Bytes) (zone : Instant → ℤ)
    (sorting : SortSlice DomainStat) (marshal_indent : StatsSnapshot F → Bytes)
    (started_at : Instant) (before : List (Accepted RR Err)) (v : Visit RR)
    (later : List (Accepted RR Err)) (r : Reading Err)
    → All Connects before
    → r.dial_err ≡ none
    → r.read_err ≡ none
    → (sent : Bytes) × (sent
        ≡ marshal_indent
            (stats_snapshot fl rounded_seconds zone sorting started_at v.clock v.order v.store)
          ++ (10 ∷ []))
      × (get_elem?
            (accept_loop fl rounded_seconds zone sorting marshal_indent started_at
              (before ++ (connects v none ∷ later)))
            (length before)
          ≡ some (some sent))
      × ((run_stats r sent ≡ prints sent) ↔ ((length sent ≤ r.arrived) × (length sent ≤ 65536)))
unfolding accept_loop
run_stats-accept_loop fl rounded zone sorting marshal started [] v later r all dialled got =
    let text = answer_text fl rounded zone sorting marshal started v in
    (text, refl, refl, run_stats-whole r text dialled got)
run_stats-accept_loop fl rounded zone sorting marshal started (fails err ∷ before) v later r all
      dialled got =
    absurd all.0
run_stats-accept_loop fl rounded zone sorting marshal started (connects other write_err ∷ before) v
      later r all dialled got =
    run_stats-accept_loop fl rounded zone sorting marshal started before v later r all.1 dialled got
