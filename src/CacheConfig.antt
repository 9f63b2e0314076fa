-- ===== src/CacheConfig.antt =====
-- The cache's configuration (`Config` of cache/cache.go) and which domains are usual.
pub mod Usual
use dns_cache.Prelude.{ℕ, Bool}
use dns_cache.Prelude.Int.{ℤ, pos, leb_ℤ}
use dns_cache.Time.{Instant, Duration, of_units, hour, local_day}
use dns_cache.Entry.{Entry}
use dns_cache.Entry.Days.{days_used}

pub record Config : Type 0 where
  pub ttl_min : Duration
  pub ttl_max : Duration
  pub max_entries : ℤ
  pub stale_serving : Bool
  pub max_age : Duration
  pub keep_min_days : ℤ
  pub keep_window_days : ℤ

-- `Usual`
unfoldable pub usual : {RR : Type 0} → (Instant → ℤ) → Config → Entry RR → Instant → Bool
usual zone cfg e now =
    leb_ℤ cfg.keep_min_days (pos (days_used (local_day zone now) cfg.keep_window_days e.used_days))

-- `KeepWindow`
unfoldable pub keep_window : Config → Duration
keep_window cfg = of_units (of_units cfg.keep_window_days 24) hour
