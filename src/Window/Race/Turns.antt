-- ===== src/Window/Race/Turns.antt =====
-- A call of `recordWindow` ends after five of its own turns, and alone it does what the sequential
-- model says.
use dns_cache.Prelude.{
  ℕ, zero, suc, ◌+◌, ◌-◌, ◌≤◌, ◌≡◌, refl, ap, arith, Bool, inl, inr, List, [], ◌∷◌, ◌==◌, Option,
  none, some, get_elem?, if◌then◌else◌, Bool-cases,
}
use dns_cache.Window.{Bucket, record_bucket}
use dns_cache.Window.Race.{
  Phase, Caller, arrives, loaded, won, cleared, counting, finished, act, turn, turns,
}

-- How many turns a call still needs at most
abbrev pub left : Phase → ℕ
left arrives = 5
left (loaded got) = 4
left won = 3
left cleared = 2
left counting = 1
left finished = 0

abbrev pub left_of : Option Caller → ℕ
left_of none = 0
left_of (some c) = left c.phase

-- The turns that a schedule gives to a call
abbrev pub given : ℕ → List ℕ → ℕ
given i [] = 0
given i (j ∷ js) = (if j == i then 1 else 0) + given i js

act-left : (c : Caller) (b : Bucket) → left (act c b).1.phase ≤ left c.phase - 1
unfolding act
act-left c b = ground arith

turn-left_own :
    (i : ℕ) (cs : List Caller) (b : Bucket)
    → left_of (get_elem? (turn i cs b).1 i) ≤ left_of (get_elem? cs i) - 1
unfolding turn
turn-left_own i [] b = omega arith
turn-left_own zero (c ∷ cs) b = act-left c b
turn-left_own (suc i) (c ∷ cs) b = turn-left_own i cs b

turn-left :
    (j i : ℕ) (cs : List Caller) (b : Bucket)
    → left_of (get_elem? (turn j cs b).1 i) ≤ left_of (get_elem? cs i)
unfolding turn
turn-left j i [] b = omega arith
turn-left zero zero (c ∷ cs) b = omega (arith, act-left c b)
turn-left zero (suc i) (c ∷ cs) b = omega arith
turn-left (suc j) zero (c ∷ cs) b = omega arith
turn-left (suc j) (suc i) (c ∷ cs) b = turn-left j i cs b

turns-left :
    (schedule : List ℕ) (i : ℕ) (cs : List Caller) (b : Bucket)
    → left_of (get_elem? (turns schedule cs b).1 i) ≤ left_of (get_elem? cs i) - given i schedule
unfolding turns
turns-left [] i cs b = omega arith
turns-left (j ∷ js) i cs b =
    let later = turns-left js i (turn j cs b).1 (turn j cs b).0 in
    elim (Bool-cases (j == i)) [
      | inl own ↦ let mine = turn-left_own i cs b in ground arith
      | inr other ↦ ground (arith, turn-left j i cs b)
    ]

turn-present :
    (j i : ℕ) (cs : List Caller) (b : Bucket) (c : Caller)
    → get_elem? cs i ≡ some c
    → (c' : Caller) × (get_elem? (turn j cs b).1 i ≡ some c')
unfolding turn
turn-present j i [] b c h = (c, h)
turn-present zero zero (x ∷ cs) b c h = ((act x b).1, refl)
turn-present zero (suc i) (x ∷ cs) b c h = (c, h)
turn-present (suc j) zero (x ∷ cs) b c h = (c, h)
turn-present (suc j) (suc i) (x ∷ cs) b c h = turn-present j i cs b c h

turns-present :
    (schedule : List ℕ) (i : ℕ) (cs : List Caller) (b : Bucket) (c : Caller)
    → get_elem? cs i ≡ some c
    → (c' : Caller) × (get_elem? (turns schedule cs b).1 i ≡ some c')
unfolding turns
turns-present [] i cs b c h = (c, h)
turns-present (j ∷ js) i cs b c h =
    let (c', h') = turn-present j i cs b c h in
    turns-present js i (turn j cs b).1 (turn j cs b).0 c' h'

left-finished : (p : Phase) → left p ≡ 0 → p ≡ finished
left-finished p h = ground arith

left-le : (p : Phase) → left p ≤ 5
left-le p = ground arith

-- `recordWindow` waits for nobody: whatever the other calls do, and in whatever order the turns
-- come, a call that has been given five turns is finished.
pub turns-finish :
    (schedule : List ℕ) (i : ℕ) (cs : List Caller) (b : Bucket) (c : Caller)
    → get_elem? cs i ≡ some c
    → 5 ≤ given i schedule
    → (c' : Caller) × (get_elem? (turns schedule cs b).1 i ≡ some c') × (c'.phase ≡ finished)
turns-finish schedule i cs b c h enough =
    let (c', h') = turns-present schedule i cs b c h in
    let nearer : left c'.phase ≤ left c.phase - given i schedule =
      omega (arith, turns-left schedule i cs b, ap left_of h', ap left_of h) in
    (c', h', left-finished c'.phase (omega (arith, nearer, left-le c.phase, enough)))

-- Five turns of a call that nobody disturbs do to the bucket what `record_bucket` does.
pub turns-record_bucket :
    (minute : ℕ) (hit : Bool) (b : Bucket)
    → turns (0 ∷ 0 ∷ 0 ∷ 0 ∷ 0 ∷ []) (record { minute = minute; hit = hit; phase = arrives } ∷ []) b
      ≡ (record_bucket minute hit b, record { minute = minute; hit = hit; phase = finished } ∷ [])
unfolding turns turn act record_bucket
turns-record_bucket minute hit b = elim (Bool-cases (b.minute == minute)) [
  | inl own ↦ ground arith
  | inr other ↦ ground arith
]
