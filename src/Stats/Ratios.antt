-- ===== src/Stats/Ratios.antt =====
-- The counters and the ratios that the statistics show (`Stats` of cache/cache.go). The type float64
-- and its operations are parameters.
use dns_cache.Prelude.{
  ℕ, ◌+◌, ◌%◌, ◌^◌, ◌≤◌, ◌<◌, ◌≡◌, refl, arith, Bool, true, ◌⊎◌, inl, inr, List, [], ltb,
  if◌then◌else◌, length, Bool-cases,
}
use dns_cache.Prelude.Int.{ℤ, pos, ◌≤ℤ◌}
use dns_cache.Time.{Instant, Duration, sub}
use dns_cache.Cache.{Cache}
use dns_cache.Window
use dns_cache.Window.{window_stats}

-- What the source uses of float64
pub record Floats (F : Type 0) : Type 0 where
  pub nought : F
  pub one : F
  pub hundred : F
  pub of_int : ℤ → F
  pub seconds : Duration → F
  pub leq : F → F → Bool
  pub divided : F → F → F
  pub times : F → F → F

-- A count of the source by which it divides: an integer of at most 64 bits above nought
abbrev pub IsCount : ℕ → Type 0
IsCount n = (0 < n) × (n < 2 ^ 64)

-- The laws of rounding that IEEE 754 gives: the conversion of integers and the multiplication by 100
-- keep the order, and so does the division of counts by a count, which is a finite number above
-- nought; the quotients nought and one and the products with them are exact. No law speaks of
-- a division by an infinity or by no number.
pub record Rounds {F : Type 0} (fl : Floats F) : Type 0 where
  pub of_int-nought : fl.of_int (pos 0) ≡ fl.nought
  pub of_int_mono : (a b : ℤ) → a ≤ℤ b → fl.leq (fl.of_int a) (fl.of_int b) ≡ true
  pub divided_mono :
      (a b n : ℕ)
      → IsCount n
      → a ≤ b
      → b ≤ n
      → fl.leq
          (fl.divided (fl.of_int (pos a)) (fl.of_int (pos n)))
          (fl.divided (fl.of_int (pos b)) (fl.of_int (pos n)))
        ≡ true
  pub divided_nought :
      (n : ℕ) → IsCount n → fl.divided (fl.of_int (pos 0)) (fl.of_int (pos n)) ≡ fl.nought
  pub divided_self :
      (n : ℕ) → IsCount n → fl.divided (fl.of_int (pos n)) (fl.of_int (pos n)) ≡ fl.one
  pub times_mono :
      (x y : F) → fl.leq x y ≡ true → fl.leq (fl.times x fl.hundred) (fl.times y fl.hundred) ≡ true
  pub times_nought : fl.times fl.nought fl.hundred ≡ fl.nought
  pub times_one : fl.times fl.one fl.hundred ≡ fl.hundred
  pub hundred_above : fl.leq fl.nought fl.hundred ≡ true

pub record CacheStats (F : Type 0) : Type 0 where
  pub entries : ℕ
  pub max_entries : ℤ
  pub hits : ℕ
  pub late_hits : ℕ
  pub misses : ℕ
  pub stale_serves : ℕ
  pub errors : ℕ
  pub hit_ratio : F
  pub hit_ratio_window : F
  pub window_queries : ℕ
  pub window_minutes : ℕ
  pub total_queries : ℕ
  pub qps_history : List ℕ
  pub avg_qps : F

module _ {F : Type 0} (fl : Floats F) where
  -- `float64(a) / float64(b) * 100`
  abbrev pub percent_of : ℤ → ℤ → F
  percent_of a b = fl.times (fl.divided (fl.of_int a) (fl.of_int b)) fl.hundred

  abbrev pub InRange : F → Type 0
  InRange x = (fl.leq fl.nought x ≡ true) × (fl.leq x fl.hundred ≡ true)

  -- A share of `n` requests: in range, and nothing where there are none
  abbrev pub IsShare : ℕ → F → Type 0
  IsShare n x = InRange x × ((0 < n) ⊎ (x ≡ fl.nought))

  -- `Stats`; the readings of the clock are those of `time.Since` and of `windowStats`.
  unfoldable pub cache_stats : {RR : Type 0} → Instant → ℕ → Cache RR → CacheStats F
  unfolding window_stats
  cache_stats qps_now now c =
      let total = (c.hits + c.misses) % 2 ^ 64 in
      let elapsed = fl.seconds (sub qps_now c.qps_base) in
      let (w_hits, w_misses) = window_stats now c.window in
      let w_total = (w_hits + w_misses) % 2 ^ 64 in
      record {
        entries = length c.entries;
        max_entries = c.config.max_entries;
        hits = c.hits;
        late_hits = c.late_hits;
        misses = c.misses;
        stale_serves = c.stale_serves;
        errors = c.errs;
        hit_ratio = if ltb 0 total then percent_of (pos c.hits) (pos total) else fl.nought;
        hit_ratio_window =
            if ltb 0 w_total then percent_of (pos w_hits) (pos w_total) else fl.nought;
        window_queries = w_total;
        window_minutes = Window.window_minutes;
        total_queries = c.total_queries;
        qps_history = [];
        avg_qps =
            if fl.leq elapsed fl.nought
            then fl.nought
            else fl.divided (fl.of_int (pos c.qps_count)) elapsed;
      }

  module _ (laws : Rounds fl) where
    pub nought-InRange : InRange fl.nought
    nought-InRange = (
      rw (← laws.of_int-nought) (laws.of_int_mono (pos 0) (pos 0) (omega arith)),
      laws.hundred_above,
    )

    pub percent_of-InRange : (a b : ℕ) → a ≤ b → IsCount b → InRange (percent_of (pos a) (pos b))
    percent_of-InRange a b le count =
        let low =
          rw (laws.divided_nought b count) at
            (laws.divided_mono 0 a b count (omega arith) (omega arith)) in
        let high =
          rw (laws.divided_self b count) at (laws.divided_mono a b b count le (omega arith)) in
        (
          rw laws.times_nought at (laws.times_mono _ _ low),
          rw laws.times_one at (laws.times_mono _ _ high),
        )

    pub ratio-IsShare :
        (a b : ℕ)
        → a ≤ b
        → b < 2 ^ 64
        → IsShare b (if ltb 0 b then percent_of (pos a) (pos b) else fl.nought)
    ratio-IsShare a b le small = elim (Bool-cases (ltb 0 b)) [
      | inl some_b ↦ rw some_b (percent_of-InRange a b le (ground arith, small), inl (ground arith))
      | inr none_b ↦ rw none_b (nought-InRange, inr refl)
    ]

    -- The two hit ratios that the statistics show lie between 0 and 100, and each is 0 where no
    -- request was counted, rather than no number. (The counters stand for fewer than 2^64
    -- requests.)
    pub cache_stats-IsShare :
        {RR : Type 0} (qps_now : Instant) (now : ℕ) (c : Cache RR)
        → c.hits + c.misses < 2 ^ 64
        → (window_stats now c.window).0 + (window_stats now c.window).1 < 2 ^ 64
        → IsShare (c.hits + c.misses) (cache_stats qps_now now c).hit_ratio
          × IsShare
              (cache_stats qps_now now c).window_queries
              (cache_stats qps_now now c).hit_ratio_window
    unfolding cache_stats
    cache_stats-IsShare qps_now now c few w_few =
        let total : (c.hits + c.misses) % 2 ^ 64 ≡ c.hits + c.misses = omega arith in
        (
          rw total (ratio-IsShare c.hits (c.hits + c.misses) (omega arith) few),
          ratio-IsShare (window_stats now c.window).0 _ (omega arith) (omega arith),
        )
