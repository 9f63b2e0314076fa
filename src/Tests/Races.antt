-- ===== src/Tests/Races.antt =====
-- Calls of `recordWindow` that interleave, and a usual entry that the refresher keeps.
use mathlib.Core.List.{lookup}
use dns_cache.Prelude.{
  ℕ, ◌*◌, ◌+◌, ◌≡◌, refl, sym, ap, ◌∙◌, ◌⊎◌, arith, true, false, inl, inr, List, [], ◌∷◌, some, In,
  get_elem?,
}
use dns_cache.Prelude.Decimal.{Bytes, Bytes-discrete}
use dns_cache.Prelude.Int.{pos, ◌+ℤ◌, ◌-ℤ◌, quot, floor_div}
use dns_cache.Time.{second, unix, local_day}
use dns_cache.Entry.{Entry}
use dns_cache.Window.{Bucket}
use dns_cache.Window.Race.{Caller, arrives, finished, turns}
use dns_cache.Window.Race.Turns.{turns-finish}
use dns_cache.Cache.{Cache, find}
use dns_cache.Refresher.{prune_unused}
use dns_cache.Refresher.Prune.Keeps.{prune_unused-usual}
use dns_cache.CacheConfig.{usual}
use dns_cache.Entry.Days.{days_used}
use dns_cache.Tests.Fixtures.{Rr, utc, noon, full, entry_a, entry_b, key_a, key_b}
use dns_cache.Tests.Refreshing.{every_day}
use dns_cache.Tests.Storing.{full-IsValid}

abbrev minute_5 : Bucket
minute_5 = record { minute = 5; hits = 3; misses = 1 }

-- A hit and a miss of minute 5, and a late call of minute 20 that takes the bucket over
abbrev mixed : List Caller
mixed =
    record { minute = 20; hit = true; phase = arrives }
    ∷ record { minute = 5; hit = true; phase = arrives }
    ∷ record { minute = 5; hit = false; phase = arrives }
    ∷ []

abbrev schedule : List ℕ
schedule = 0 ∷ 0 ∷ 1 ∷ 1 ∷ 0 ∷ 1 ∷ 0 ∷ 1 ∷ 2 ∷ 0 ∷ 1 ∷ []

turns-finish_example :
    (c : Caller) × (get_elem? (turns schedule mixed minute_5).1 1 ≡ some c) × (c.phase ≡ finished)
turns-finish_example =
    turns-finish schedule 1 mixed minute_5 (record { minute = 5; hit = true; phase = arrives }) refl
      (omega arith)

-- One day of use is enough.
abbrev daily : Cache Rr
daily = record full { config = every_day }

daily_usual : usual utc every_day entry_a (pos (noon + 86400 * second)) ≡ true
unfolding usual days_used local_day ◌+ℤ◌ ◌-ℤ◌ quot floor_div
daily_usual = refl

clock_at_noon : unix (pos (noon + 5)) +ℤ utc (pos (noon + 5)) ≡ pos 1728043200
unfolding floor_div ◌+ℤ◌
clock_at_noon = refl

prune_unused-usual_example :
    find key_a (prune_unused full.entries (pos (noon + 86400 * second)) daily) ≡ some entry_a
unfolding lookup Bytes-discrete
prune_unused-usual_example =
    prune_unused-usual utc daily entry_a (noon + 86400 * second) (noon + 5) 1728043200 7 refl refl
      (omega arith) (omega arith) refl clock_at_noon (omega arith) full.entries key_a
      full-IsValid.distinct (λ j. refl) refl daily_usual

-- An entry of the small cache is one of its two.
pub of_full :
    (k : Bytes) (e : Entry Rr)
    → In (k, e) full.entries
    → ((k ≡ key_a) × (e ≡ entry_a)) ⊎ ((k ≡ key_b) × (e ≡ entry_b))
of_full k e (inl same) =
    inl (ap (λ (p : Bytes × Entry Rr). p.0) same, ap (λ (p : Bytes × Entry Rr). p.1) same)
of_full k e (inr (inl same)) =
    inr (ap (λ (p : Bytes × Entry Rr). p.0) same, ap (λ (p : Bytes × Entry Rr). p.1) same)
of_full k e (inr (inr m)) = absurd m

apart :
    (j k : Bytes) (d e : Entry Rr)
    → In (j, d) full.entries
    → In (k, e) full.entries
    → d.last_hit_at ≡ e.last_hit_at
    → j ≡ k
apart j k d e m n same = elim (of_full j d m) [
  | inl (at, is) ↦ elim (of_full k e n) [
    | inl (at', is') ↦ at ∙ sym at'
    | inr (at', is') ↦
        let clash : entry_a.last_hit_at ≡ entry_b.last_hit_at =
          ap (λ (x : Entry Rr). x.last_hit_at) (sym is)
          ∙ same
          ∙ ap (λ (x : Entry Rr). x.last_hit_at) is' in
        absurd (ground arith)
  ]
  | inr (at, is) ↦ elim (of_full k e n) [
    | inr (at', is') ↦ at ∙ sym at'
    | inl (at', is') ↦
        let clash : entry_b.last_hit_at ≡ entry_a.last_hit_at =
          ap (λ (x : Entry Rr). x.last_hit_at) (sym is)
          ∙ same
          ∙ ap (λ (x : Entry Rr). x.last_hit_at) is' in
        absurd (ground arith)
  ]
]
