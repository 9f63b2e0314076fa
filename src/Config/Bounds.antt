-- ===== src/Config/Bounds.antt =====
-- `normalize` brings every value that the cache relies on into its range.
use dns_cache.Prelude.{ℕ, ◌*◌, ◌^◌, ◌≤◌, ◌<◌, ◌≡◌, refl, ap, arith}
use dns_cache.Prelude.Int.{ℤ, pos, negsuc, ◌≤ℤ◌, ◌*ℤ◌, wrap64_id}
use dns_cache.Time.{hour, of_units}
use dns_cache.CacheConfig.{keep_window}
use dns_cache.Config.{
  CacheSection, Config, normalize, normalize_window, normalize_min_days, normalize_max_age,
  cache_config,
}

-- The values that the code can use as they are
pub record IsUsable (cc : CacheSection) : Type 0 where
  pub window_least : pos 1 ≤ℤ cc.keep_window_days
  pub window_most : cc.keep_window_days ≤ℤ pos 32
  pub days_least : pos 1 ≤ℤ cc.keep_min_days
  pub days_most : cc.keep_min_days ≤ℤ cc.keep_window_days
  pub age_least : pos 0 ≤ℤ cc.max_age

window_bounds :
    (cc : CacheSection)
    → (pos 1 ≤ℤ (normalize_window cc).keep_window_days)
      × ((normalize_window cc).keep_window_days ≤ℤ pos 32)
unfolding normalize_window
window_bounds cc = ground arith

min_days_bounds :
    (cc : CacheSection)
    → pos 1 ≤ℤ cc.keep_window_days
    → (pos 1 ≤ℤ (normalize_min_days cc).keep_min_days)
      × ((normalize_min_days cc).keep_min_days ≤ℤ cc.keep_window_days)
      × ((normalize_min_days cc).keep_window_days ≡ cc.keep_window_days)
unfolding normalize_min_days
min_days_bounds cc h = ground arith

max_age_bounds :
    (cc : CacheSection)
    → (pos 0 ≤ℤ (normalize_max_age cc).max_age)
      × ((normalize_max_age cc).keep_min_days ≡ cc.keep_min_days)
      × ((normalize_max_age cc).keep_window_days ≡ cc.keep_window_days)
unfolding normalize_max_age
max_age_bounds cc = ground arith

-- Whatever the file says, after `normalize` the window has 1 to 32 days, the least number of days
-- lies between 1 and the window, and the greatest age is not negative.
pub normalize-IsUsable : (c : Config) → IsUsable (normalize c).cache
unfolding normalize
normalize-IsUsable c =
    let w : CacheSection = normalize_window c.cache in
    let d : CacheSection = normalize_min_days w in
    let (w1, w2) = window_bounds c.cache in
    let (d1, d2, d3) = min_days_bounds w w1 in
    let (a1, a2, a3) = max_age_bounds d in
    record {
      window_least = rw (a3, d3) w1;
      window_most = rw (a3, d3) w2;
      days_least = rw a2 d1;
      days_most = rw (a2, a3, d3) d2;
      age_least = a1;
    }

keeps_window :
    (cc : CacheSection)
    → pos 1 ≤ℤ cc.keep_window_days
    → cc.keep_window_days ≤ℤ pos 32
    → normalize_window cc ≡ cc
unfolding normalize_window
keeps_window cc p q = ground arith

keeps_min_days :
    (cc : CacheSection)
    → pos 1 ≤ℤ cc.keep_min_days
    → cc.keep_min_days ≤ℤ cc.keep_window_days
    → normalize_min_days cc ≡ cc
unfolding normalize_min_days
keeps_min_days cc p q = ground arith

keeps_max_age : (cc : CacheSection) → pos 0 ≤ℤ cc.max_age → normalize_max_age cc ≡ cc
unfolding normalize_max_age
keeps_max_age cc p = ground arith

-- A configuration whose values are in range is left as it is.
pub normalize_usable : (c : Config) → IsUsable c.cache → normalize c ≡ c
unfolding normalize
normalize_usable c u = rw (
  keeps_window c.cache u.window_least u.window_most,
  keeps_min_days c.cache u.days_least u.days_most,
  keeps_max_age c.cache u.age_least,
)

pub of_units-exact : (n unit : ℕ) → n * unit < 2 ^ 63 → of_units (pos n) unit ≡ pos (n * unit)
unfolding of_units ◌*ℤ◌
of_units-exact n unit h =
    let exact : pos n *ℤ pos unit ≡ pos (n * unit) = ground arith in
    rw exact (wrap64_id (pos (n * unit)) (omega arith))

-- `KeepWindow` of the normalized configuration is the window's days as a duration, of at most 32
-- days, with no overflow.
pub keep_window-normalize :
    (c : Config)
    → (days : ℕ) × ((normalize c).cache.keep_window_days ≡ pos days)
      × (days ≤ 32)
      × (keep_window (cache_config (normalize c)) ≡ pos (days * (24 * hour)))
unfolding keep_window cache_config
keep_window-normalize c = from_days (normalize c).cache.keep_window_days refl
  where
    from_days :
        (z : ℤ)
        → (normalize c).cache.keep_window_days ≡ z
        → (days : ℕ) × ((normalize c).cache.keep_window_days ≡ pos days)
          × (days ≤ 32)
          × (keep_window (cache_config (normalize c)) ≡ pos (days * (24 * hour)))
    from_days (pos n) e =
        let u = normalize-IsUsable c in
        let most : pos n ≤ℤ pos 32 = rw e at u.window_most in
        let small : n ≤ 32 = omega arith in
        (
          n,
          e,
          small,
          rw (e, of_units-exact n 24 (omega arith), of_units-exact (n * 24) hour (omega arith))
              (ap pos (omega arith)),
        )
    from_days (negsuc n) e =
        let least : pos 1 ≤ℤ negsuc n = rw e at (normalize-IsUsable c).window_least in
        absurd (omega arith)
