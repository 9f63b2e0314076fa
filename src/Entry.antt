-- ===== src/Entry.antt =====
-- A cached answer (cache/entry.go). Its counters and its word of used days are atomics that
-- clients update; every other field is written once, before the entry is shared.
pub mod Days
pub mod Key
pub mod Message
use dns_cache.Prelude.{ℕ, Bool, leb, if◌then◌else◌}
use dns_cache.Prelude.Decimal.{Bytes}
use dns_cache.Prelude.Int.{ℤ}
use dns_cache.Time.{Instant, Duration, after, sub}
use dns_cache.Dns.{Msg}

pub record Entry (RR : Type 0) : Type 0 where
  pub question_name : Bytes
  pub question_type : ℕ
  pub response : Msg RR
  pub stored_at : Instant
  pub original_ttl : ℕ
  pub cached_ttl : Duration
  pub expires_at : Instant
  pub hit_count : ℕ
  pub last_hit_at : ℤ
  pub used_days : ℕ

module _ {RR : Type 0} where
  -- `IsExpiredAt`; `IsExpired` is this at a reading of the clock.
  abbrev pub is_expired_at : Entry RR → Instant → Bool
  is_expired_at e now = after now e.expires_at

  -- `TTLRemaining` at a reading of the clock
  unfoldable pub ttl_remaining : Entry RR → Instant → Duration
  ttl_remaining e now = sub e.expires_at now

  -- `RefreshThreshold`, in hundredths
  unfoldable pub refresh_threshold : Entry RR → ℕ
  refresh_threshold e =
      if leb 100 e.hit_count
      then 30
      else if leb 20 e.hit_count
      then 20
      else if leb 5 e.hit_count
      then 15
      else 10
