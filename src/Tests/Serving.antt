-- ===== src/Tests/Serving.antt =====
-- `Get` and `GetStale` on a small cache.
use dns_cache.Prelude.{
  ℕ, ◌+◌, ◌*◌, ◌≡◌, refl, arith, ◌&&◌, ◌||◌, ◌==◌, ltb, max, none, some, if◌then◌else◌,
}
use mathlib.Core.List.{lookup}
use dns_cache.Prelude.Decimal.{Bytes-discrete}
use dns_cache.Prelude.Int.{pos, ltb_ℤ, ◌+ℤ◌, quot, floor_div}
use dns_cache.Time.{add, second, local_day}
use dns_cache.Entry.{Entry}
use dns_cache.Entry.Days.Word.{last_day}
use dns_cache.Entry.Days.View.{used_on}
use dns_cache.Cache.{find, get, served, asked}
use dns_cache.Cache.Freshness.{serve_until, get-serve_until}
use dns_cache.Cache.Reads.{get-notes_use}
use dns_cache.Tests.Fixtures.{Rr, utc, noon, entry_a, key_a, full, settings}

-- Twenty minutes after the fetch the TTL of 300 seconds is over, and the answer still served.
abbrev late : ℕ
late = noon + 1200 * second

found_a : find key_a full ≡ some entry_a
unfolding lookup Bytes-discrete
found_a = refl

pub expires_a : entry_a.expires_at ≡ add entry_a.stored_at entry_a.cached_ttl
unfolding ◌+ℤ◌
expires_a = refl

get-serve_until_example : (get utc late late key_a full).1 ≡ (
    if ltb_ℤ (serve_until settings entry_a) (pos late)
    then none
    else some (served (asked utc late entry_a)))
get-serve_until_example =
    get-serve_until utc late late key_a full entry_a found_a expires_a (omega arith)

get-notes_use_example :
    (e : Entry Rr) × (find key_a (get utc late late key_a full).0 ≡ some e)
    × (e.last_hit_at ≡ pos late)
    × (used_on e.used_days 20000 ≡ (
        20000 == max 20000 (last_day entry_a.used_days)
        || (used_on entry_a.used_days 20000
            && ltb (max 20000 (last_day entry_a.used_days)) (20000 + 32))))
unfolding local_day ◌+ℤ◌ quot floor_div
get-notes_use_example =
    get-notes_use utc late late key_a full entry_a 20000 20000 found_a refl (omega arith)
