-- ===== src/CacheConfig/Usual.antt =====
-- Which domains are usual, by the history of their requests.
use dns_cache.Prelude.{ℕ, ◌≤◌, ◌≡◌, arith, leb, List, ◌∷◌}
use dns_cache.Prelude.Int.{ℤ, pos}
use dns_cache.Time.{Instant, local_day}
use dns_cache.Entry.{Entry}
use dns_cache.Entry.Days.{pack_used_days}
use dns_cache.Entry.Days.History.{mark_all, days_asked, IsChronicle, latest, days_used-days_asked}
use dns_cache.CacheConfig.{Config, usual}

-- `Usual` decides whether the name was asked for on at least `KeepMinDays` of the last
-- `KeepWindowDays` local days, today included, however long the history is. It is stated where
-- the requests, never back in time, have made the entry's word from nothing. The window has
-- between 0 and 32 days and lies after the epoch.
pub usual-days_asked :
    {RR : Type 0} (zone : Instant → ℤ) (cfg : Config) (e : Entry RR) (now : Instant)
    (today first min_days window : ℕ) (ds : List ℕ)
    → local_day zone now ≡ pos today
    → cfg.keep_min_days ≡ pos min_days
    → cfg.keep_window_days ≡ pos window
    → e.used_days ≡ mark_all (pack_used_days (pos first)) ds
    → IsChronicle first ds
    → latest first ds ≤ today
    → window ≤ 32
    → window ≤ today
    → usual zone cfg e now ≡ leb min_days (days_asked (first ∷ ds) today window)
unfolding usual
usual-days_asked zone cfg e now today first min_days window ds day least wide word h late small
      past =
    rw (day, least, wide, word, days_used-days_asked first today window ds h late small past)
      (ground arith)
