-- ===== src/Tests/Figures.antt =====
-- The statistics of the small cache, over numbers that are rounded down to thousandths, and their client.
use native.Mathlib.Nat.{zero-div, mul-div_cancel_left, le-div_iff_mul-le, div-mul-le_self}
use dns_cache.Prelude.{
  ℕ, ◌+◌, ◌*◌, ◌/◌, ◌^◌, ◌≤◌, ◌<◌, ◌≡◌, refl, arith, true, [], ◌∷◌, ◌++◌, leb, none, some, take,
  get_elem?, All, length, min, List, ◌↔◌,
}
use dns_cache.Prelude.Decimal.{Bytes, Bytes-discrete, codes}
use dns_cache.Prelude.Int.{ℤ, pos, pos_part, ◌≤ℤ◌}
use dns_cache.Time.{second}
use dns_cache.Cache.{Cache}
use dns_cache.Window.{window_stats, empty_window}
use dns_cache.Stats.Ratios.{Floats, Rounds, IsShare, InRange, cache_stats}
use dns_cache.Stats.{DomainStat, number_of}
use dns_cache.Stats.Totals.{of_kind}
use dns_cache.Stats.Snapshot.{StatsSnapshot, SnapshotClock, stats_snapshot, stats_snapshot-agrees}
use dns_cache.Tests.Sorting.{insertion}
use dns_cache.Time.{Instant}
use dns_cache.Entry.{Entry}
use mathlib.Core.List.{lookup}
use dns_cache.Stats.Socket.Client.{
  Visit, Reading, Accepted, fails, connects, prints, accept_loop, run_stats, run_stats-accept_loop,
}
use dns_cache.Web.Bars.{Bar, dist_bars, fill_width, bars-InRange}
use dns_cache.Tests.Fixtures.{Rr, lower_case, utc, noon, full, entry_a, entry_b}
use dns_cache.Tests.Storing.{full-IsValid}

-- Numbers in thousandths, which stand for those of float64
abbrev thousandths : Floats ℕ
thousandths = record {
  nought = 0;
  one = 1000;
  hundred = 100000;
  of_int = λ z. pos_part z * 1000;
  seconds = λ d. pos_part d * 1000 / second;
  leq = leb;
  divided = λ x y. x * 1000 / y;
  times = λ x y. x * y / 1000;
}

leb_of_le : (a b : ℕ) → a ≤ b → leb a b ≡ true
leb_of_le a b h = ground arith

le_of_leb : (a b : ℕ) → leb a b ≡ true → a ≤ b
le_of_leb a b h = ground arith

div_mono : (x y z : ℕ) → 0 < z → x ≤ y → x / z ≤ y / z
div_mono x y z some_z le = (le-div_iff_mul-le some_z).1 (omega (arith, div-mul-le_self x z, le))

div_exact : (x : ℕ) → 0 < x → (x * 1000) * 1000 / (x * 1000) ≡ 1000
div_exact x some_x = mul-div_cancel_left 1000 (omega arith)

thousandths-Rounds : Rounds thousandths
thousandths-Rounds = record {
  of_int-nought = refl;
  of_int_mono = λ a b le. leb_of_le _ _ (part_mono a b le);
  divided_mono = λ a b n count le most. leb_of_le _ _ (
      div_mono (a * 1000 * 1000) (b * 1000 * 1000) (n * 1000) (omega (arith, count.0))
        (omega arith));
  divided_nought = λ n count. zero-div (n * 1000);
  divided_self = λ n count. div_exact n count.0;
  times_mono = λ x y h.
      leb_of_le _ _
        (div_mono (x * 100000) (y * 100000) 1000 (omega arith) (omega (arith, le_of_leb x y h)));
  times_nought = refl;
  times_one = refl;
  hundred_above = refl;
}
  where
    part_mono : (a b : ℤ) → a ≤ℤ b → pos_part a * 1000 ≤ pos_part b * 1000
    part_mono a b le = ground arith

-- Three hits and a miss in the present minute
abbrev busy : Cache Rr
busy = record full {
  window = (record { minute = 28800720; hits = 3; misses = 1 }) ∷ take 14 empty_window;
}

few :
    (window_stats (noon + second) busy.window).0 + (window_stats (noon + second) busy.window).1
    < 2 ^ 64
unfolding window_stats
few = omega arith

-- Three of four requests
three_quarters : (cache_stats thousandths (pos noon) (noon + second) busy).window_queries ≡ 4
unfolding cache_stats
three_quarters = refl

abbrev both : List (Instant × Entry Rr)
both = (pos noon, entry_a) ∷ (pos noon, entry_b) ∷ []

-- A second after noon
abbrev readings : SnapshotClock
readings = record {
  qps_now = pos noon;
  window_now = noon + second;
  now = pos (noon + second);
  up_now = pos (noon + second);
}

abbrev shown : StatsSnapshot ℕ
shown =
    stats_snapshot thousandths (λ d. codes "1s") utc (insertion DomainStat) (pos noon) readings both
      busy

stats_snapshot-agrees_example :
    (shown.active_entries + shown.expired_entries ≡ shown.cache.entries)
    × (shown.usual_entries ≤ shown.cache.entries)
    × (length shown.top_domains ≡ min 20 shown.cache.entries)
    × ((name : Bytes)
        → number_of (lookup Bytes-discrete name shown.query_type_dist) ≡ of_kind name both)
stats_snapshot-agrees_example =
    stats_snapshot-agrees thousandths (λ d. codes "1s") utc (insertion DomainStat) (pos noon)
      readings both busy refl

-- A stand-in for the encoder of JSON
abbrev in_short : StatsSnapshot ℕ → Bytes
in_short f = codes "{}"

abbrev visit : Visit Rr
visit = record { clock = readings; order = both; store = busy }

abbrev broken : Accepted Rr ℕ
broken = connects visit (some 1)

abbrev all_arrived : Reading ℕ
all_arrived = record { dial_err = none; read_err = none; arrived = 3 }

bars-InRange_example :
    All
      (λ b. InRange thousandths (Bar.width b))
      (dist_bars thousandths ((codes "A", 2) ∷ (codes "MX", 1) ∷ []))
    × InRange thousandths
        (fill_width thousandths (cache_stats thousandths (pos noon) (noon + second) busy))
    × IsShare thousandths 9 (cache_stats thousandths (pos noon) (noon + second) busy).hit_ratio
    × IsShare thousandths
        (cache_stats thousandths (pos noon) (noon + second) busy).window_queries
        (cache_stats thousandths (pos noon) (noon + second) busy).hit_ratio_window
bars-InRange_example =
    bars-InRange thousandths thousandths-Rounds lower_case utc
      ((codes "A", 2) ∷ (codes "MX", 1) ∷ []) 2 busy (pos noon) (noon + second)
      (record {
        valid = record { distinct = full-IsValid.distinct; well = full-IsValid.well; slots = refl };
        configured = refl;
        fits = omega arith;
      })
      (omega arith) (omega arith) (omega arith, (omega arith, tt)) (omega arith) few

-- The second client, after a first whose connection breaks
run_stats-accept_loop_example :
    (sent : Bytes) × (sent ≡ in_short shown ++ (10 ∷ []))
    × (get_elem?
          (accept_loop thousandths
            (λ d. codes "1s")
            utc
            (insertion DomainStat)
            in_short
            (pos noon)
            (broken ∷ connects visit none ∷ fails 2 ∷ []))
          1
        ≡ some (some sent))
    × ((run_stats all_arrived sent ≡ prints sent) ↔ ((length sent ≤ 3) × (length sent ≤ 65536)))
run_stats-accept_loop_example =
    run_stats-accept_loop thousandths (λ d. codes "1s") utc (insertion DomainStat) in_short
      (pos noon) (broken ∷ []) visit (fails 2 ∷ []) all_arrived (tt, tt) refl refl
