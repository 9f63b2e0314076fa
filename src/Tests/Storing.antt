-- ===== src/Tests/Storing.antt =====
-- `Set` and the eviction on a small cache that is full.
use dns_cache.Prelude.{ℕ, ◌+◌, ◌*◌, ◌≡◌, refl, arith, List, [], ◌∷◌, some}
use mathlib.Core.List.{lookup}
use dns_cache.Prelude.Decimal.{Bytes, Bytes-discrete, codes, decimal}
use dns_cache.Prelude.Int.{pos, ◌+ℤ◌}
use dns_cache.Time.{second}
use dns_cache.Entry.{Entry}
use dns_cache.Entry.Key.{key}
use dns_cache.Cache.{get}
use dns_cache.Cache.Insert.{set}
use dns_cache.Cache.Insert.Lookup.{set-get}
use dns_cache.Cache.Insert.Ttl.{Stored, set-Stored}
use dns_cache.Cache.Insert.Victim.{IsRange, Evicted, evict_one-Evicted}
use dns_cache.Cache.Invariant.{IsValid}
use dns_cache.Cache.Run.{Reach, here, next, gets, sets, IsBounded, Reach-IsBounded}
use dns_cache.Tests.Fixtures.{
  Rr, lower_case, utc, noon, reply, entry_a, entry_b, key_a, key_b, full,
}

abbrev pub later : ℕ
later = noon + 10 * second

-- The loop meets the second entry first.
abbrev pub reversed : List (Bytes × Entry Rr)
reversed = (key_b, entry_b) ∷ (key_a, entry_a) ∷ []

pub reversed-IsRange : IsRange reversed full.entries
unfolding lookup Bytes-discrete
reversed-IsRange = record { once = (refl, (refl, tt)); found = (refl, (refl, tt)); complete = refl }

pub full-IsValid : IsValid lower_case full
unfolding lookup Bytes-discrete key decimal ◌+ℤ◌
full-IsValid = record {
  distinct = (refl, (refl, tt));
  well = ((refl, refl, omega arith), ((refl, refl, omega arith), tt));
  slots = refl;
}

evict_one-Evicted_example : Evicted (pos later) reversed full.entries
evict_one-Evicted_example =
    evict_one-Evicted (pos later) reversed full.entries full-IsValid.distinct reversed-IsRange
      (λ e. cc e, (λ e. cc e, tt)) (omega arith) (omega arith)

set-Stored_example :
    (e : Entry Rr) × Stored lower_case utc later later reversed (codes "A.it.") 1 reply 300 full e
set-Stored_example =
    set-Stored lower_case utc later later reversed (codes "A.it.") 1 reply 300 full (omega arith)

-- Stored as "C.it.", asked for as "c.IT." half a minute later.
set-get_example :
    (e : Entry Rr) × ((get utc
        (later + 30 * second)
        later
        (key lower_case (codes "c.IT.") 1)
        (set lower_case utc later later reversed (codes "C.it.") 1 reply 300 full)).1
      ≡ some e)
    × (e.response ≡ reply)
unfolding ◌+ℤ◌
set-get_example =
    set-get lower_case utc later later reversed (codes "C.it.") 1 reply 300 full (codes "c.IT.")
      (later + 30 * second) later (omega arith) (omega arith) refl (omega arith)

abbrev soa : Rr
soa = record { ttl = 120; rrtype = 6; minttl = some 86400 }

two_calls :
    Reach lower_case utc full
      (get utc later later key_a
        (set lower_case utc later later reversed (codes "c.it.") 1 reply 300 full)).0
two_calls =
    next
      (next here
        (sets later later reversed (codes "c.it.") 1 reply 300 full (omega arith) reversed-IsRange))
      (gets later later key_a _ (omega arith))

Reach-IsBounded_example :
    IsBounded lower_case utc
      (pos 2)
      (get utc later later key_a
        (set lower_case utc later later reversed (codes "c.it.") 1 reply 300 full)).0
Reach-IsBounded_example =
    Reach-IsBounded lower_case utc
      (record { valid = full-IsValid; configured = refl; fits = omega arith }) two_calls
