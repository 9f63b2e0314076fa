-- ===== src/Stats.antt =====
-- The figures of the statistics (`BuildSnapshot` and `QtypeName` of stats/stats.go).
pub mod Ratios
pub mod Snapshot
pub mod Socket
pub mod Totals
use dns_cache.Prelude.{
  ℕ, ◌+◌, ◌^◌, ◌%◌, Bool, List, [], ◌∷◌, ◌++◌, Option, none, some, ◌==◌, ltb, if◌then◌else◌, take,
  length, map,
}
use mathlib.Core.List.{lookup}
use dns_cache.Prelude.Assoc.{store}
use dns_cache.Prelude.Decimal.{Bytes, Bytes-discrete, codes, decimal}
use dns_cache.Prelude.Int.{ℤ, pos, quot}
use dns_cache.Time.{Instant, second}
use dns_cache.Entry.{Entry, is_expired_at, ttl_remaining}
use dns_cache.CacheConfig.{Config, usual}
use dns_cache.Cache.{Cache}
use dns_cache.Window
use dns_cache.Window.{window_stats}
use dns_cache.Refresher.{SortSlice}

-- `QtypeName`
unfoldable pub qtype_name : ℕ → Bytes
qtype_name t =
    if t == 1
    then codes "A"
    else if t == 2
    then codes "NS"
    else if t == 5
    then codes "CNAME"
    else if t == 6
    then codes "SOA"
    else if t == 15
    then codes "MX"
    else if t == 16
    then codes "TXT"
    else if t == 28
    then codes "AAAA"
    else if t == 33
    then codes "SRV"
    else if t == 99
    then codes "SPF"
    else if t == 255
    then codes "ANY"
    else codes "TYPE" ++ decimal t

pub record DomainStat : Type 0 where
  pub name : Bytes
  pub kind : Bytes
  pub hit_count : ℕ
  pub ttl : ℤ

-- What the loop of `BuildSnapshot` adds up
pub record Figures : Type 0 where
  pub top : List DomainStat
  pub qtype_dist : List (Bytes × ℕ)
  pub active : ℕ
  pub expired : ℕ
  pub usual_entries : ℕ

abbrev pub no_figures : Figures
no_figures = record { top = []; qtype_dist = []; active = 0; expired = 0; usual_entries = 0 }

abbrev pub number_of : Option ℕ → ℕ
number_of none = 0
number_of (some n) = n

-- `m[name]++`
abbrev pub count_name : Bytes → List (Bytes × ℕ) → List (Bytes × ℕ)
count_name name dist =
    store Bytes-discrete name (number_of (lookup Bytes-discrete name dist) + 1) dist

abbrev pub more_hits : DomainStat → DomainStat → Bool
more_hits a b = ltb b.hit_count a.hit_count

module _ {RR : Type 0} (zone : Instant → ℤ) (cfg : Config) (now : Instant) where
  -- The body of the loop; `ttl_now` is the reading of the clock in `TTLRemaining`.
  unfoldable pub add_entry : Instant → Entry RR → Figures → Figures
  unfolding usual qtype_name ttl_remaining
  add_entry ttl_now e f =
      let over = is_expired_at e now in
      record {
        top =
            f.top
            ++ (record {
              name = e.question_name;
              kind = qtype_name e.question_type;
              hit_count = e.hit_count;
              ttl = quot (ttl_remaining e ttl_now) second;
            })
              ∷ [];
        qtype_dist = count_name (qtype_name e.question_type) f.qtype_dist;
        active = if over then f.active else f.active + 1;
        expired = if over then f.expired + 1 else f.expired;
        usual_entries = if usual zone cfg e now then f.usual_entries + 1 else f.usual_entries;
      }

  -- The loop, over the entries with the readings of the clock
  unfoldable pub add_entries : List (Instant × Entry RR) → Figures → Figures
  unfolding add_entry
  add_entries [] f = f
  add_entries ((ttl_now, e) ∷ rest) f = add_entries rest (add_entry ttl_now e f)

  -- `BuildSnapshot`, for what depends on the entries
  unfoldable pub build_snapshot : SortSlice DomainStat → List (Instant × Entry RR) → Figures
  unfolding add_entries
  build_snapshot sorting entries =
      let f = add_entries entries no_figures in
      record f { top = take 20 (SortSlice.sort_slice sorting more_hits f.top) }
