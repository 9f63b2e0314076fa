-- ===== src/Window/Counts/Slots.antt =====
-- Each slot holds the counts of the latest minute that fell to it.
use dns_cache.Prelude.{
  ℕ, zero, suc, ◌+◌, ◌-◌, ◌%◌, ◌^◌, ◌≤◌, ◌<◌, ◌≡◌, ◌≢◌, refl, sym, arith, Bool, true, false, ◌⊎◌,
  inl, inr, ◌==◌, ==_iff, List, [], ◌∷◌, All, length, ℕ_discrete,
}
use dns_cache.Window.{
  Bucket, window_minutes, current, bump, empty_from, record_bucket, record_window, update_at,
}
use dns_cache.Window.Counts.{Outcome, minute, slot, count, of_minute}

-- An outcome of another slot, or of no later minute than `m`
abbrev pub NotAfter : ℕ → ℕ → Outcome → Type 0
NotAfter i m o = (slot o ≢ i) ⊎ (minute o ≤ m)

-- What slot `i` holds at minute `now`, when the outcomes are `seen`
pub record Holds (i now : ℕ) (seen : List Outcome) (b : Bucket) : Type 0 where
  pub hits : b.hits ≡ count (of_minute true i b.minute) seen
  pub misses : b.misses ≡ count (of_minute false i b.minute) seen
  pub newest : All (NotAfter i b.minute) seen
  pub aligned : (b.minute % window_minutes ≡ i) ⊎ (b.minute ≡ 0)
  pub past : b.minute ≤ now

abbrev pub HoldsFrom : ℕ → ℕ → List Outcome → List Bucket → Type 0
HoldsFrom i now seen [] = Unit
HoldsFrom i now seen (b ∷ w) = Holds i now seen b × HoldsFrom (suc i) now seen w

pub count-le : (p : Outcome → Bool) (os : List Outcome) → count p os ≤ length os
unfolding count
count-le p [] = omega arith
count-le p (o ∷ os) = ground (arith, count-le p os)

pub HoldsFrom-empty : (i now n : ℕ) → HoldsFrom i now [] (empty_from n)
unfolding count
HoldsFrom-empty i now zero = tt
HoldsFrom-empty i now (suc n) = (
  record { hits = refl; misses = refl; newest = tt; aligned = inr refl; past = omega arith },
  HoldsFrom-empty (suc i) now n,
)

-- No outcome lies in a minute after the newest.
count-after :
    (hit : Bool) (i m m' : ℕ) (seen : List Outcome)
    → m < m'
    → All (NotAfter i m) seen
    → count (of_minute hit i m') seen ≡ 0
unfolding count
count-after hit i m m' [] h a = refl
count-after hit i m m' (o ∷ seen) h a = ground (arith, count-after hit i m m' seen h a.1)

later_minute :
    (i m m' : ℕ) (seen : List Outcome) → m ≤ m' → All (NotAfter i m) seen → All (NotAfter i m') seen
later_minute i m m' [] h a = tt
later_minute i m m' (o ∷ seen) h a = (omega arith, later_minute i m m' seen h a.1)

-- An outcome of another slot changes nothing in this one.
Holds-other :
    (i now : ℕ) (o : Outcome) (seen : List Outcome) (b : Bucket)
    → now ≤ minute o
    → slot o ≢ i
    → Holds i now seen b
    → Holds i (minute o) (o ∷ seen) b
unfolding count
Holds-other i now o seen b h ne s = record {
  hits = ground arith;
  misses = ground arith;
  newest = (inl ne, s.newest);
  aligned = s.aligned;
  past = omega arith;
}

Holds-current :
    (i now m : ℕ) (seen : List Outcome) (b : Bucket)
    → now ≤ m
    → m % window_minutes ≡ i
    → Holds i now seen b
    → Holds i m seen (current m b) × ((current m b).minute ≡ m)
unfolding current
Holds-current i now m seen b h own s = elim (ℕ_discrete b.minute m) [
  | yes e ↦ rw ((==_iff b.minute m).1 e) (
    record {
      hits = s.hits;
      misses = s.misses;
      newest = s.newest;
      aligned = s.aligned;
      past = omega arith;
    },
    e,
  )
  | no ne ↦
      let p : b.minute < m = omega (arith, s.past) in
      let other : (b.minute == m) ≡ false = ground arith in
      rw other (
        record {
          hits = sym (count-after true i b.minute m seen p s.newest);
          misses = sym (count-after false i b.minute m seen p s.newest);
          newest = later_minute i b.minute m seen (omega arith) s.newest;
          aligned = inl own;
          past = omega arith;
        },
        refl,
      )
]

Holds-bump :
    (i : ℕ) (o : Outcome) (seen : List Outcome) (b : Bucket)
    → b.minute ≡ minute o
    → slot o ≡ i
    → length seen < 2 ^ 64 - 1
    → Holds i (minute o) seen b
    → Holds i (minute o) (o ∷ seen) (bump o.1 b)
unfolding count
Holds-bump i (t, true) seen b e own few s = record {
  hits = ground (arith, s.hits, count-le (of_minute true i b.minute) seen);
  misses = ground (arith, s.misses);
  newest = (inr (omega arith), s.newest);
  aligned = s.aligned;
  past = s.past;
}
Holds-bump i (t, false) seen b e own few s = record {
  hits = ground (arith, s.hits);
  misses = ground (arith, s.misses, count-le (of_minute false i b.minute) seen);
  newest = (inr (omega arith), s.newest);
  aligned = s.aligned;
  past = s.past;
}

-- The slot of the outcome takes it in.
Holds-own :
    (i now : ℕ) (o : Outcome) (seen : List Outcome) (b : Bucket)
    → now ≤ minute o
    → slot o ≡ i
    → length seen < 2 ^ 64 - 1
    → Holds i now seen b
    → Holds i (minute o) (o ∷ seen) (record_bucket (minute o) o.1 b)
unfolding record_bucket
Holds-own i now o seen b h own few s =
    let (c, e) = Holds-current i now (minute o) seen b h own s in
    Holds-bump i o seen (current (minute o) b) e own few c

-- The slots after that of the outcome
HoldsFrom-others :
    (i now : ℕ) (o : Outcome) (seen : List Outcome) (w : List Bucket)
    → now ≤ minute o
    → slot o < i
    → HoldsFrom i now seen w
    → HoldsFrom i (minute o) (o ∷ seen) w
HoldsFrom-others i now o seen [] h p s = s
HoldsFrom-others i now o seen (b ∷ w) h p s = (
  Holds-other i now o seen b h (omega arith) s.0,
  HoldsFrom-others (suc i) now o seen w h (omega arith) s.1,
)

-- Over all slots: the update at the outcome's slot, `j` slots from here.
HoldsFrom-update :
    (i j now : ℕ) (o : Outcome) (seen : List Outcome) (w : List Bucket)
    → now ≤ minute o
    → slot o ≡ i + j
    → length seen < 2 ^ 64 - 1
    → HoldsFrom i now seen w
    → HoldsFrom i (minute o) (o ∷ seen) (update_at j (record_bucket (minute o) o.1) w)
unfolding update_at
HoldsFrom-update i j now o seen [] h own few s = s
HoldsFrom-update i zero now o seen (b ∷ w) h own few s = (
  Holds-own i now o seen b h (omega arith) few s.0,
  HoldsFrom-others (suc i) now o seen w h (omega arith) s.1,
)
HoldsFrom-update i (suc j) now o seen (b ∷ w) h own few s = (
  Holds-other i now o seen b h (omega arith) s.0,
  HoldsFrom-update (suc i) j now o seen w h (omega arith) few s.1,
)

pub HoldsFrom-record :
    (now : ℕ) (o : Outcome) (seen : List Outcome) (w : List Bucket)
    → now ≤ minute o
    → length seen < 2 ^ 64 - 1
    → HoldsFrom 0 now seen w
    → HoldsFrom 0 (minute o) (o ∷ seen) (record_window o.0 o.1 w)
unfolding record_window
HoldsFrom-record now o seen w h few s =
    HoldsFrom-update 0 (slot o) now o seen w h (omega arith) few s
