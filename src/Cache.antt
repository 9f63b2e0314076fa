-- ===== src/Cache.antt =====
-- The cache's state and the operations that read it (cache/cache.go). A method that changes the
-- state returns the new state beside its result; each runs as one step, and each call of
-- `time.Now` in its body is an argument. An entry that is handed out is its value at that moment:
-- what a caller reads of it afterwards never changes.
pub mod Insert
pub mod Invariant
pub mod Reads
pub mod Run
pub mod Freshness
use dns_cache.Prelude.{
  ℕ, ◌+◌, ◌*◌, Bool, true, false, ◌&&◌, ◌||◌, not, List, [], ◌∷◌, Option, none, some, if◌then◌else◌,
}
use mathlib.Core.List.{lookup}
use dns_cache.Prelude.Assoc.{store, remove}
use dns_cache.Prelude.Decimal.{Bytes, Bytes-discrete}
use dns_cache.Prelude.Int.{ℤ, pos, ltb_ℤ}
use dns_cache.Time.{Instant, Duration, sub, hour, local_day}
use dns_cache.Entry.{Entry, is_expired_at}
use dns_cache.Entry.Days.{mark_used_loop}
use dns_cache.CacheConfig.{Config}
use dns_cache.Window.{Bucket, incr, record_window, empty_window}

pub record Cache (RR : Type 0) : Type 0 where
  pub entries : List (Bytes × Entry RR)
  pub config : Config
  pub hits : ℕ
  pub late_hits : ℕ
  pub misses : ℕ
  pub stale_serves : ℕ
  pub errs : ℕ
  pub total_queries : ℕ
  pub qps_count : ℕ
  pub qps_base : Instant
  pub window : List Bucket

-- `New`
unfoldable pub new : {RR : Type 0} → Config → ℕ → Cache RR
new cfg now = record {
  entries = [];
  config = cfg;
  hits = 0;
  late_hits = 0;
  misses = 0;
  stale_serves = 0;
  errs = 0;
  total_queries = 0;
  qps_count = 0;
  qps_base = pos now;
  window = empty_window;
}

-- `staleMaxAge`
abbrev pub stale_max_age : Duration
stale_max_age = pos (24 * hour)

module _ {RR : Type 0} where
  -- `c.entries[key]`
  abbrev pub find : Bytes → Cache RR → Option (Entry RR)
  find key c = lookup Bytes-discrete key c.entries

  -- `c.entries[key] = e`
  abbrev pub assign : Bytes → Entry RR → Cache RR → Cache RR
  assign key e c = record c { entries = store Bytes-discrete key e c.entries }

  -- A miss that is counted
  abbrev pub count_miss : ℕ → Cache RR → Cache RR
  count_miss wnow c = record c {
    misses = incr c.misses;
    window = record_window wnow false c.window;
  }

  -- `MarkUsed`, with no other goroutine at the word
  unfoldable pub mark_used : (Instant → ℤ) → Instant → Entry RR → Entry RR
  unfolding mark_used_loop
  mark_used zone t e = record e { used_days = mark_used_loop (local_day zone t) e.used_days [] }

  -- What `Get` notes on an entry that is asked for, whether it is served or not
  unfoldable pub asked : (Instant → ℤ) → ℕ → Entry RR → Entry RR
  unfolding mark_used
  asked zone now e = mark_used zone (pos now) (record e { last_hit_at = pos now })

  -- The test of `Get` that makes a stored entry a miss
  unfoldable pub too_old : Config → ℕ → Entry RR → Bool
  too_old cfg now e = is_expired_at e (pos now) && ltb_ℤ cfg.max_age (sub (pos now) e.stored_at)

  -- One more answer served
  abbrev pub served : Entry RR → Entry RR
  served e = record e { hit_count = incr e.hit_count }

  abbrev pub count_hit : ℕ → Bool → Cache RR → Cache RR
  count_hit wnow expired c = record c {
    hits = incr c.hits;
    late_hits = if expired then incr c.late_hits else c.late_hits;
    window = record_window wnow true c.window;
  }

  -- `Get`; `wnow` is the reading of the clock in `recordWindow`.
  unfoldable pub get : (Instant → ℤ) → ℕ → ℕ → Bytes → Cache RR → Cache RR × Option (Entry RR)
  get zone now wnow key c = elim (find key c) [
    | none ↦ (count_miss wnow c, none)
    | some e ↦
        let e' = asked zone now e in
        if too_old c.config now e' then (count_miss wnow (assign key e' c), none) else (
          count_hit wnow (is_expired_at e' (pos now)) (assign key (served e') c),
          some (served e'),
        )
  ]

  -- `GetStale`; the clock is read for the age and once more for the recency.
  unfoldable pub get_stale : ℕ → ℕ → Bytes → Cache RR → Cache RR × Option (Entry RR)
  get_stale now later key c = if not c.config.stale_serving then (c, none) else elim (find key c) [
    | none ↦ (c, none)
    | some e ↦
        if ltb_ℤ stale_max_age (sub (pos now) e.expires_at)
        then (c, none)
        else (let e' = record (served e) { last_hit_at = pos later } in
            (record (assign key e' c) { stale_serves = incr c.stale_serves }, some e'))
  ]

  -- `Delete`
  unfoldable pub delete : Bytes → Cache RR → Cache RR
  delete key c = record c { entries = remove Bytes-discrete key c.entries }

  -- `IncrQueries` and `IncrErrors`
  unfoldable pub incr_queries : Cache RR → Cache RR
  incr_queries c = record c { total_queries = incr c.total_queries; qps_count = incr c.qps_count }

  unfoldable pub incr_errors : Cache RR → Cache RR
  incr_errors c = record c { errs = incr c.errs }
