-- ===== src/Entry/Days/Race.antt =====
-- `MarkUsed` against other goroutines at the same word.
use dns_cache.Prelude.{
  ℕ, ◌+◌, ◌^◌, ◌<◌, ◌≡◌, refl, ◌&&◌, ◌||◌, ◌==◌, ltb, ==_iff, max, List, [], ◌∷◌, map, In, inl, inr,
  Bool-cases, sym,
}
use dns_cache.Prelude.Int.{ℤ, pos}
use dns_cache.Entry.Days.{mark_used_next, mark_used_loop}
use dns_cache.Entry.Days.Word.{last_day}
use dns_cache.Entry.Days.View.{used_on, used_on-mark_used_next}

loop-reads :
    (today : ℤ) (old : ℕ) (others : List (ℕ × ℕ))
    → (x : ℕ) × In x (old ∷ map (λ p. p.1) others)
      × (mark_used_loop today old others ≡ mark_used_next today x)
unfolding mark_used_loop
loop-reads today old [] = (old, inl refl, refl)
loop-reads today old ((found, loaded) ∷ later) =
    let (x, m, e) = loop-reads today loaded later in
    elim (Bool-cases (mark_used_next today old == old)) [
      | inl same ↦ (old, inl refl, rw same (sym ((==_iff _ _).0 same)))
      | inr moved ↦ elim (Bool-cases (found == old)) [
        | inl swapped ↦ (old, inl refl, rw (moved, swapped))
        | inr lost ↦ (x, inr m, rw (moved, lost) e)
      ]
    ]

-- Whatever other goroutines store into the word while `MarkUsed` runs, it ends with the update of
-- one word that it has read, so that no day that word records is lost but for the ones at least 32
-- days old, and the day of the use is recorded (the last day known, if the clock was set back).
pub mark_used_loop-used_on :
    (day old e : ℕ) (others : List (ℕ × ℕ))
    → day < 2 ^ 32
    → (x : ℕ) × In x (old ∷ map (λ p. p.1) others)
      × (used_on (mark_used_loop (pos day) old others) e
          ≡ (e == max day (last_day x) || (used_on x e && ltb (max day (last_day x)) (e + 32))))
mark_used_loop-used_on day old e others h =
    let (x, m, eq) = loop-reads (pos day) old others in
    (x, m, rw eq (used_on-mark_used_next day x e h))
