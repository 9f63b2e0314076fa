-- ===== src/Window/Counts/Totals.antt =====
-- `windowStats` against the list of all the requests.
use dns_cache.Prelude.{
  ℕ, zero, suc, ◌+◌, ◌%◌, ◌^◌, ◌≤◌, ◌<◌, ◌≡◌, refl, ◌∙◌, arith, Bool, true, false, ◌&&◌, ◌⊎◌, inl,
  inr, ◌==◌, leb, ltb, if◌then◌else◌, List, [], ◌∷◌, All, length, Bool-cases,
}
use dns_cache.Window.{
  Bucket, window_minutes, in_window, empty_window, sum_window, window_stats, minute_of,
  record_window, update_at,
}
use dns_cache.Window.Counts.{Outcome, minute, slot, count, of_minute, recent, record_all}
use dns_cache.Window.Counts.Slots.{NotAfter, HoldsFrom, count-le, HoldsFrom-empty, HoldsFrom-record}

-- Recent outcomes of one slot, and of the `n` slots from `i` on
abbrev recent_in : Bool → ℕ → ℕ → Outcome → Bool
recent_in hit now i o = slot o == i && recent hit now o

abbrev recent_from : Bool → ℕ → ℕ → ℕ → Outcome → Bool
recent_from hit now i n o = leb i (slot o) && ltb (slot o) (i + n) && recent hit now o

-- The bucket's count is that of the slot's recent outcomes, if it is in the window.
count-bucket :
    (hit : Bool) (i now : ℕ) (b : Bucket) (seen : List Outcome)
    → b.minute ≤ now
    → (b.minute % window_minutes ≡ i) ⊎ (b.minute ≡ 0)
    → All (NotAfter i b.minute) seen
    → count (recent_in hit now i) seen
      ≡ (if in_window now b then count (of_minute hit i b.minute) seen else 0)
unfolding count
count-bucket hit i now b [] p a n = ground arith
count-bucket hit i now b (o ∷ seen) p a n = ground (arith, count-bucket hit i now b seen p a n.1)

count-split :
    (hit : Bool) (now i n : ℕ) (seen : List Outcome)
    → count (recent_from hit now i (suc n)) seen
      ≡ count (recent_in hit now i) seen + count (recent_from hit now (suc i) n) seen
unfolding count
count-split hit now i n [] = refl
count-split hit now i n (o ∷ seen) = ground (arith, count-split hit now i n seen)

count-none :
    (hit : Bool) (now i : ℕ) (seen : List Outcome) → count (recent_from hit now i 0) seen ≡ 0
unfolding count
count-none hit now i [] = refl
count-none hit now i (o ∷ seen) = ground (arith, count-none hit now i seen)

count-all_slots :
    (hit : Bool) (now : ℕ) (seen : List Outcome)
    → count (recent_from hit now 0 window_minutes) seen ≡ count (recent hit now) seen
unfolding count
count-all_slots hit now [] = refl
count-all_slots hit now (o ∷ seen) = ground (arith, count-all_slots hit now seen)

-- The sums over the slots from `i` on
sum_from :
    (i at now h m : ℕ) (seen : List Outcome) (w : List Bucket)
    → at ≤ now
    → HoldsFrom i at seen w
    → h + count (recent_from true now i (length w)) seen < 2 ^ 64
    → m + count (recent_from false now i (length w)) seen < 2 ^ 64
    → sum_window now h m w ≡ (
      h + count (recent_from true now i (length w)) seen,
      m + count (recent_from false now i (length w)) seen,
    )
unfolding sum_window
sum_from i at now h m seen [] p s ht mt =
    rw (count-none true now i seen, count-none false now i seen) (ground arith)
sum_from i at now h m seen (b ∷ w) p s ht mt =
    let in_hits = count-bucket true i now b seen (omega (arith, s.0.past)) s.0.aligned s.0.newest in
    let in_misses =
      count-bucket false i now b seen (omega (arith, s.0.past)) s.0.aligned s.0.newest in
    let hits = s.0.hits in
    let misses = s.0.misses in
    let split_hits = count-split true now i (length w) seen in
    let split_misses = count-split false now i (length w) seen in
    elim (Bool-cases (in_window now b)) [
      | inl inside ↦
          let h' : count (recent_in true now i) seen ≡ b.hits = ground arith in
          let m' : count (recent_in false now i) seen ≡ b.misses = ground arith in
          let small_h : (h + b.hits) % 2 ^ 64 ≡ h + b.hits = omega arith in
          let small_m : (m + b.misses) % 2 ^ 64 ≡ m + b.misses = omega arith in
          rw
            (
              inside,
              small_h,
              small_m,
              sum_from (suc i) at now (h + b.hits) (m + b.misses) seen w p s.1 (omega arith)
                  (omega arith),
            )
            (ground arith)
      | inr outside ↦
          let h' : count (recent_in true now i) seen ≡ 0 = ground arith in
          let m' : count (recent_in false now i) seen ≡ 0 = ground arith in
          rw (outside, sum_from (suc i) at now h m seen w p s.1 (omega arith) (omega arith))
            (ground arith)
    ]

-- All outcomes recorded, the newest first
abbrev pile : List Outcome → List Outcome → List Outcome
pile [] seen = seen
pile (o ∷ os) seen = pile os (o ∷ seen)

count-pile :
    (p : Outcome → Bool) (os seen : List Outcome)
    → count p (pile os seen) ≡ count p os + count p seen
unfolding count
count-pile p [] seen = omega arith
count-pile p (o ∷ os) seen = omega (arith, count-pile p os (o ∷ seen))

-- The outcomes come in the order of their minutes, none before `start`.
abbrev pub IsChronological : ℕ → List Outcome → Type 0
IsChronological start [] = Unit
IsChronological start (o ∷ os) = (start ≤ minute o) × IsChronological (minute o) os

abbrev pub last_minute : ℕ → List Outcome → ℕ
last_minute start [] = start
last_minute start (o ∷ os) = last_minute (minute o) os

HoldsFrom-record_all :
    (at : ℕ) (os seen : List Outcome) (w : List Bucket)
    → IsChronological at os
    → length os + length seen < 2 ^ 64
    → HoldsFrom 0 at seen w
    → HoldsFrom 0 (last_minute at os) (pile os seen) (record_all os w)
unfolding record_all
HoldsFrom-record_all at [] seen w c few s = s
HoldsFrom-record_all at (o ∷ os) seen w c few s =
    HoldsFrom-record_all (minute o) os (o ∷ seen) (record_window o.0 o.1 w) c.1 (omega arith)
      (HoldsFrom-record at o seen w c.0 (omega arith) s)

length-update_at :
    (i : ℕ) (f : Bucket → Bucket) (w : List Bucket) → length (update_at i f w) ≡ length w
unfolding update_at
length-update_at i f [] = refl
length-update_at zero f (b ∷ w) = refl
length-update_at (suc i) f (b ∷ w) = omega (arith, length-update_at i f w)

length-record_all : (os : List Outcome) (w : List Bucket) → length (record_all os w) ≡ length w
unfolding record_all record_window
length-record_all [] w = refl
length-record_all (o ∷ os) w =
    length-record_all os (record_window o.0 o.1 w) ∙ length-update_at (slot o) _ w

-- `windowStats` is exact: from an empty window on, after requests in the order of their minutes and
-- fewer than 2^64 of them, it reports the number of hits and the number of misses of the last 15
-- minutes, the present one included, however often the slots were reused.
pub window_stats-record_all :
    (now : ℕ) (os : List Outcome)
    → IsChronological 0 os
    → last_minute 0 os ≤ minute_of now
    → length os < 2 ^ 64
    → window_stats now (record_all os empty_window)
      ≡ (count (recent true (minute_of now)) os, count (recent false (minute_of now)) os)
unfolding window_stats count
window_stats-record_all now os c past few =
    let w = record_all os empty_window in
    let s =
      HoldsFrom-record_all 0 os [] empty_window c (omega arith)
        (HoldsFrom-empty 0 0 window_minutes) in
    let wide : length w ≡ window_minutes = length-record_all os empty_window in
    let h =
      count-all_slots true (minute_of now) (pile os [])
      ∙ count-pile (recent true (minute_of now)) os [] in
    let m =
      count-all_slots false (minute_of now) (pile os [])
      ∙ count-pile (recent false (minute_of now)) os [] in
    let hl = count-le (recent true (minute_of now)) os in
    let ml = count-le (recent false (minute_of now)) os in
    let total =
      sum_from 0 (last_minute 0 os) (minute_of now) 0 0 (pile os []) w past s
        (rw (wide, h) (omega arith)) (rw (wide, m) (omega arith)) in
    total ∙ rw (wide, h, m) (ground arith)
