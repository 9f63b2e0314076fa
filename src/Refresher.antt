-- ===== src/Refresher.antt =====
-- The refresher (refresher.go): the backoff of the entries whose refresh failed, the choice of the
-- entries to refresh, and a cycle. The refreshes of a cycle run one after the other here, in the
-- order of the choice; each takes its own result of `Resolve`. `sort.Slice`, whose order among
-- equals is not specified, is a parameter, and so is the product in float64.
pub mod Cycle
pub mod Backoff
pub mod Choice
pub mod Prune
use dns_cache.Prelude.{
  ℕ, ◌+◌, ◌*◌, ◌^◌, ◌%◌, ◌≡◌, ◌↔◌, In, All, length, Bool, true, false, ◌&&◌, not, List, [], ◌∷◌,
  Option, none, some, ◌==◌, ltb, if◌then◌else◌, min, map, take,
}
use mathlib.Core.List.{lookup}
use dns_cache.Prelude.Assoc.{store, remove}
use dns_cache.Prelude.Shuffle.{Shuffle}
use dns_cache.Prelude.Decimal.{Bytes, Bytes-discrete}
use dns_cache.Prelude.Int.{ℤ, pos, ◌*ℤ◌, ltb_ℤ, leb_ℤ, max_ℤ, min_ℤ, wrap64, quot}
use dns_cache.Time.{Instant, Duration, second, add, sub}
use dns_cache.Dns.{Dns, Msg, rcode_success}
use dns_cache.Entry.{Entry, is_expired_at, refresh_threshold}
use dns_cache.CacheConfig.{Config, usual, keep_window}
use dns_cache.Cache.{Cache, delete}
use dns_cache.Cache.Insert.{set, entry_key}

abbrev pub max_refresh_per_cycle : ℕ
max_refresh_per_cycle = 500

-- 30 minutes
abbrev pub refresh_backoff_max : Duration
refresh_backoff_max = pos (1800 * second)

abbrev pub refresh_backoff_shift : ℕ
refresh_backoff_shift = 10

pub record Failure : Type 0 where
  pub count : ℕ
  pub next_try : Instant

abbrev pub Failures : Type 0
Failures = List (Bytes × Failure)

pub record Refresher : Type 0 where
  pub interval : Duration
  pub failures : Failures

-- `NewRefresher`; the cache, the resolver and the channel are arguments elsewhere.
unfoldable pub new_refresher : Duration → Refresher
new_refresher interval = record { interval = interval; failures = [] }

abbrev pub failure_of : Bytes → Failures → Option Failure
failure_of k fs = lookup Bytes-discrete k fs

-- `backingOff`
unfoldable pub backing_off : Failures → Bytes → Instant → Bool
backing_off fs k now = elim (failure_of k fs) [ none ↦ false | some f ↦ ltb_ℤ now f.next_try ]

-- The wait after a number of failures in a row
unfoldable pub backoff_wait : Duration → ℕ → Duration
backoff_wait interval count =
    let wait = wrap64 (interval *ℤ pos (2 ^ min count refresh_backoff_shift)) in
    if ltb_ℤ refresh_backoff_max wait
    then refresh_backoff_max
    else if leb_ℤ wait (pos 0)
    then refresh_backoff_max
    else wait

abbrev pub count_of : Option Failure → ℕ
count_of none = 0
count_of (some f) = f.count

-- `noteFailure` at a reading of the clock
unfoldable pub note_failure : Bytes → ℕ → Refresher → Refresher
unfolding backoff_wait
note_failure k now rf =
    let count = (count_of (failure_of k rf.failures) + 1) % 2 ^ 64 in
    record rf {
      failures =
          store Bytes-discrete k
            (record { count = count; next_try = add (pos now) (backoff_wait rf.interval count) })
            rf.failures;
    }

-- `noteSuccess`
unfoldable pub note_success : Bytes → Refresher → Refresher
note_success k rf = record rf { failures = remove Bytes-discrete k rf.failures }

-- The failures of the keys that the snapshot has
abbrev pub prune_known : {V : Type 0} → List (Bytes × V) → Failures → Failures
prune_known snapshot [] = []
prune_known snapshot ((k, f) ∷ fs) =
    let rest = prune_known snapshot fs in
    elim (lookup Bytes-discrete k snapshot) [ none ↦ rest | some e ↦ (k, f) ∷ rest ]

abbrev pub Snapshot : Type 0 → Type 0
Snapshot RR = List (Bytes × Entry RR)

pub record Candidate (RR : Type 0) : Type 0 where
  pub entry : Entry RR
  pub overdue : Bool

-- What the loop of `selectCandidates` does with an entry
pub data Verdict : Type 0 where
  cold : Verdict
  backs_off : Verdict
  early : Verdict
  due : Bool → Verdict

-- `sort.Slice` with its comparison. It keeps the elements, and where the comparison is a strict
-- weak order no element stands before one that is less.
abbrev pub Sorted : {A : Type 0} → (A → A → Bool) → List A → Type 0
Sorted less [] = Unit
Sorted less (x ∷ xs) = All (λ y. less y x ≡ false) xs × Sorted less xs

pub record SortSlice (A : Type 0) : Type 0 where
  pub sort_slice : (A → A → Bool) → List A → List A
  pub In-sort_slice : (less : A → A → Bool) (x : A) (l : List A) → In x (sort_slice less l) ↔ In x l
  pub length-sort_slice : (less : A → A → Bool) (l : List A) → length (sort_slice less l) ≡ length l
  pub Shuffle-sort_slice : (less : A → A → Bool) (l : List A) → Shuffle l (sort_slice less l)
  pub sort_slice-Sorted :
      (less : A → A → Bool) (l : List A)
      → ((x y : A) → less x y ≡ true → less y x ≡ false)
      → ((x y z : A) → less x y ≡ false → less y z ≡ false → less x z ≡ false)
      → Sorted less (sort_slice less l)

-- `rf.interval * 3 / 2`
abbrev pub min_window : Duration → Duration
min_window interval = quot (wrap64 (interval *ℤ pos 3)) 2

module _ {RR : Type 0} where
  -- `pruneFailures`
  unfoldable pub prune_failures : Snapshot RR → Refresher → Refresher
  prune_failures snapshot rf = record rf { failures = prune_known snapshot rf.failures }

  -- The test of `pruneUnused`
  unfoldable pub unused : Config → Entry RR → Instant → Bool
  unused cfg e now = is_expired_at e now && ltb_ℤ (keep_window cfg) (sub now e.last_hit_at)

  -- The loop of `pruneUnused`
  unfoldable pub prune_unused : Snapshot RR → Instant → Cache RR → Cache RR
  unfolding unused delete
  prune_unused [] now c = c
  prune_unused ((k, e) ∷ rest) now c =
      prune_unused rest now (if unused c.config e now then delete k c else c)

  -- The order of the candidates: those overdue first, then those with more hits
  abbrev pub less : Candidate RR → Candidate RR → Bool
  less a b =
      if a.overdue
      then (if b.overdue then ltb (Entry.hit_count b.entry) (Entry.hit_count a.entry) else true)
      else if b.overdue
      then false
      else ltb (Entry.hit_count b.entry) (Entry.hit_count a.entry)

  module _ (zone : Instant → ℤ) (fraction : Duration → ℕ → Duration) (cfg : Config) where
    -- What is left of the time for which the entry can be served
    abbrev pub remaining : Entry RR → Instant → Duration
    remaining e now = sub (add e.stored_at (max_ℤ e.cached_ttl cfg.max_age)) now

    -- How long before its end an entry is refreshed; `fraction d n` is n hundredths of d.
    abbrev pub threshold : Duration → Entry RR → Duration
    threshold interval e =
        let life = max_ℤ e.cached_ttl cfg.max_age in
        min_ℤ (max_ℤ (fraction life (refresh_threshold e)) (min_window interval)) life

    -- The body of the loop of `selectCandidates`
    unfoldable pub judge : Refresher → Instant → Bytes → Entry RR → Verdict
    unfolding usual backing_off
    judge rf now k e =
        if not (usual zone cfg e now)
        then cold
        else if backing_off rf.failures k now
        then backs_off
        else if leb_ℤ (remaining e now) (pos 0)
        then due true
        else if leb_ℤ (remaining e now) (threshold rf.interval e)
        then due false
        else early

    -- The loop: the candidates, the entries not usual and those that back off
    unfoldable pub candidates : Refresher → Instant → Snapshot RR → List (Candidate RR) × ℕ × ℕ
    unfolding judge
    candidates rf now [] = ([], 0, 0)
    candidates rf now ((k, e) ∷ rest) =
        let (cands, n_cold, n_backoff) = candidates rf now rest in
        elim (judge rf now k e) [
          | cold ↦ (cands, n_cold + 1, n_backoff)
          | backs_off ↦ (cands, n_cold, n_backoff + 1)
          | early ↦ (cands, n_cold, n_backoff)
          | due overdue ↦ (record { entry = e; overdue = overdue } ∷ cands, n_cold, n_backoff)
        ]

    -- The candidates that are left after the cut
    unfoldable pub chosen :
        SortSlice (Candidate RR) → Refresher → Instant → Snapshot RR → List (Candidate RR)
    unfolding candidates
    chosen sorting rf now snapshot =
        take max_refresh_per_cycle
          (SortSlice.sort_slice sorting less (candidates rf now snapshot).0)

    -- `selectCandidates`
    unfoldable pub select_candidates :
        SortSlice (Candidate RR) → Refresher → Instant → Snapshot RR → List (Entry RR) × ℕ × ℕ
    unfolding candidates chosen
    select_candidates sorting rf now snapshot =
        let (cands, n_cold, n_backoff) = candidates rf now snapshot in
        (map (λ c. Candidate.entry c) (chosen sorting rf now snapshot), n_cold, n_backoff)
