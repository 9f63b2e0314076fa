-- ===== src/Window/Race/Bounds.antt =====
-- What a bucket can count when calls of `recordWindow` interleave.
use dns_cache.Prelude.{ℕ, zero, suc, ◌+◌, ◌≤◌, ◌≡◌, arith, Bool, true, false, List, [], ◌∷◌}
use dns_cache.Window.{Bucket}
use dns_cache.Window.Race.{
  Phase, Caller, arrives, loaded, won, cleared, counting, finished, act, turn, turns, added,
  added_by,
}

-- The counter of an outcome
abbrev pub count_of : Bool → Bucket → ℕ
count_of true b = b.hits
count_of false b = b.misses

act-count :
    (hit : Bool) (c : Caller) (b : Bucket)
    → count_of hit (act c b).0 + added hit c ≤ count_of hit b + added hit (act c b).1
unfolding act
act-count true c b = ground arith
act-count false c b = ground arith

turn-count :
    (hit : Bool) (i : ℕ) (cs : List Caller) (b : Bucket)
    → count_of hit (turn i cs b).0 + added_by hit cs ≤ count_of hit b + added_by hit (turn i cs b).1
unfolding turn
turn-count hit i [] b = omega arith
turn-count hit zero (c ∷ cs) b = omega (arith, act-count hit c b)
turn-count hit (suc i) (c ∷ cs) b = omega (arith, turn-count hit i cs b)

-- In whatever order the atomic accesses of the calls come, a counter grows by no more than the
-- number of calls with its outcome that have added theirs: the race on a bucket can lose counts,
-- and never makes any up.
pub turns-count :
    (hit : Bool) (schedule : List ℕ) (cs : List Caller) (b : Bucket)
    → count_of hit (turns schedule cs b).0 + added_by hit cs
      ≤ count_of hit b + added_by hit (turns schedule cs b).1
unfolding turns
turns-count hit [] cs b = omega arith
turns-count hit (i ∷ is) cs b =
    omega (arith, turn-count hit i cs b, turns-count hit is (turn i cs b).1 (turn i cs b).0)

-- A call in the bucket's own minute never sets out to clear it.
abbrev pub IsSettled : Phase → Type 0
IsSettled arrives = Unit
IsSettled (loaded got) = ⊥
IsSettled won = ⊥
IsSettled cleared = ⊥
IsSettled counting = Unit
IsSettled finished = Unit

abbrev pub IsPunctual : ℕ → Caller → Type 0
IsPunctual minute c = (c.minute ≡ minute) × IsSettled c.phase

-- New calls
abbrev pub callers : ℕ → List Bool → List Caller
callers minute [] = []
callers minute (hit ∷ hits) =
    record { minute = minute; hit = hit; phase = arrives } ∷ callers minute hits
