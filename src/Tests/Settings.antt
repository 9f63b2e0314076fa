-- ===== src/Tests/Settings.antt =====
-- The window of a minute's requests.
use dns_cache.Prelude.{◌*◌, ◌≡◌, arith, true, false, List, [], ◌∷◌}
use dns_cache.Time.{second}
use dns_cache.Window.{empty_window, window_stats, minute_of}
use dns_cache.Window.Counts.{Outcome, count, recent, record_all}
use dns_cache.Window.Counts.Totals.{window_stats-record_all}

-- Two requests in minute 100, and one in minute 115, which takes over its slot
abbrev requests : List Outcome
requests = (6000 * second, true) ∷ (6010 * second, false) ∷ (6900 * second, true) ∷ []

window_stats-record_all_example :
    window_stats (6930 * second) (record_all requests empty_window) ≡ (
      count (recent true (minute_of (6930 * second))) requests,
      count (recent false (minute_of (6930 * second))) requests,
    )
window_stats-record_all_example =
    window_stats-record_all (6930 * second) requests (omega arith, (omega arith, (omega arith, tt)))
      (omega arith) (omega arith)
