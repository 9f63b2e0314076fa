-- ===== src/Stats/Snapshot.antt =====
-- The whole of `StatsSnapshot` (stats/stats.go). The print of a duration is a parameter.
use dns_cache.Prelude.{ℕ, ◌+◌, ◌≤◌, ◌≡◌, ap, ◌∙◌, List, length, min}
use mathlib.Core.List.{lookup}
use dns_cache.Prelude.Decimal.{Bytes, Bytes-discrete, codes}
use dns_cache.Prelude.Int.{ℤ}
use dns_cache.Time.{Instant, Duration, sub}
use dns_cache.Entry.{Entry}
use dns_cache.Cache.{Cache}
use dns_cache.Refresher.{SortSlice}
use dns_cache.Stats.{DomainStat, number_of, build_snapshot}
use dns_cache.Stats.Ratios.{Floats, CacheStats, cache_stats}
use dns_cache.Stats.Totals.{of_kind, build_snapshot-counts}

pub record StatsSnapshot (F : Type 0) : Type 0 where
  pub uptime : Bytes
  pub cache : CacheStats F
  pub top_domains : List DomainStat
  pub memory_usage : Bytes
  pub query_type_dist : List (Bytes × ℕ)
  pub active_entries : ℕ
  pub expired_entries : ℕ
  pub usual_entries : ℕ

-- The readings of the clock in `BuildSnapshot`: for the queries per second, the window, the entries
-- and the uptime
pub record SnapshotClock : Type 0 where
  pub qps_now : Instant
  pub window_now : ℕ
  pub now : Instant
  pub up_now : Instant

module _ {RR F : Type 0} (fl : Floats F) (rounded_seconds : Duration → Bytes) (zone : Instant → ℤ)
    (sorting : SortSlice DomainStat) where
  -- `BuildSnapshot` over the cache as the store, whose `ForEach` meets the entries in the order, each
  -- with the reading of the clock in `TTLRemaining`
  unfoldable pub stats_snapshot :
      Instant → SnapshotClock → List (Instant × Entry RR) → Cache RR → StatsSnapshot F
  unfolding build_snapshot cache_stats
  stats_snapshot started_at at order c =
      let f = build_snapshot zone c.config at.now sorting order in
      record {
        uptime = rounded_seconds (sub at.up_now started_at);
        cache = cache_stats fl at.qps_now at.window_now c;
        top_domains = f.top;
        memory_usage = codes "n/a";
        query_type_dist = f.qtype_dist;
        active_entries = f.active;
        expired_entries = f.expired;
        usual_entries = f.usual_entries;
      }

  -- The figures of a snapshot agree with each other: the entries of the cache are the active ones
  -- and the expired ones together, the counts of the types are those of the entries, the usual
  -- ones are among them, and the list has 20 domains, or all if there are fewer. (`ForEach` meets
  -- as many entries as the map has.)
  pub stats_snapshot-agrees :
      (started_at : Instant) (at : SnapshotClock) (order : List (Instant × Entry RR)) (c : Cache RR)
      → length order ≡ length c.entries
      → let s = stats_snapshot started_at at order c in
        (s.active_entries + s.expired_entries ≡ s.cache.entries)
        × (s.usual_entries ≤ s.cache.entries)
        × (length s.top_domains ≡ min 20 s.cache.entries)
        × ((name : Bytes)
            → number_of (lookup Bytes-discrete name s.query_type_dist) ≡ of_kind name order)
  unfolding stats_snapshot
  stats_snapshot-agrees started_at at order c all =
      let counts = build_snapshot-counts zone c.config at.now sorting order in
      (counts.0 ∙ all, rw all at counts.1, counts.2 ∙ ap (λ n. min 20 n) all, counts.3)
