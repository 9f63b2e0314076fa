-- ===== src/Tests/Days.antt =====
-- The word of used days.
use dns_cache.Prelude.{
  ℕ, ◌+◌, ◌*◌, ◌^◌, ◌≡◌, refl, arith, ◌&&◌, ◌||◌, ◌==◌, ltb, leb, max, [], ◌∷◌, In,
}
use dns_cache.Prelude.Int.{pos}
use dns_cache.Entry.Days.{pack_used_days, mark_used_loop}
use dns_cache.Entry.Days.Word.{last_day}
use dns_cache.Entry.Days.View.{used_on}
use dns_cache.Entry.Days.History.{mark_all, days_asked, latest}
use dns_cache.Entry.Days.Race.{mark_used_loop-used_on}
use dns_cache.Prelude.Int.{◌+ℤ◌, quot, floor_div}
use dns_cache.Time.{local_day, hour}
use dns_cache.CacheConfig.{usual}
use dns_cache.CacheConfig.Usual.{usual-days_asked}
use dns_cache.Tests.Fixtures.{utc, settings, entry_a, noon}

-- Another goroutine marks the same day first: the swap fails, and the word is already right.
mark_used_loop-used_on_example :
    (x : ℕ) × In x ((20000 * 2 ^ 32 + 1) ∷ (20003 * 2 ^ 32 + 9) ∷ [])
    × (used_on
          (mark_used_loop
            (pos 20003)
            (20000 * 2 ^ 32 + 1)
            ((20003 * 2 ^ 32 + 9, 20003 * 2 ^ 32 + 9) ∷ []))
          20000
        ≡ (20000 == max 20003 (last_day x)
            || (used_on x 20000 && ltb (max 20003 (last_day x)) (20000 + 32))))
mark_used_loop-used_on_example =
    mark_used_loop-used_on 20003 (20000 * 2 ^ 32 + 1) 20000
      ((20003 * 2 ^ 32 + 9, 20003 * 2 ^ 32 + 9) ∷ []) (omega arith)

-- A name asked for on days 19990, 20000 and twice on 20003: usual on day 20005, with two of the
-- last seven days.
usual-days_asked_example :
    usual utc settings
      (record entry_a {
        used_days = mark_all (pack_used_days (pos 19990)) (20000 ∷ 20003 ∷ 20003 ∷ []);
      })
      (pos (noon + 5 * 24 * hour))
    ≡ leb 2 (days_asked (19990 ∷ 20000 ∷ 20003 ∷ 20003 ∷ []) 20005 7)
unfolding local_day latest ◌+ℤ◌ quot floor_div
usual-days_asked_example =
    usual-days_asked utc settings
      (record entry_a {
        used_days = mark_all (pack_used_days (pos 19990)) (20000 ∷ 20003 ∷ 20003 ∷ []);
      })
      (pos (noon + 5 * 24 * hour)) 20005 19990 2 7 (20000 ∷ 20003 ∷ 20003 ∷ []) refl refl refl refl
      (omega arith) (omega arith) (omega arith) (omega arith)
