-- ===== src/Window/Race.antt =====
-- `recordWindow` of cache/cache.go where several goroutines call it for one bucket: each atomic
-- access of a call is one action, and a schedule says whose turn it is.
pub mod Bounds
pub mod Turns
use dns_cache.Prelude.{ℕ, zero, suc, ◌+◌, Bool, true, false, List, [], ◌∷◌, ◌==◌, if◌then◌else◌}
use dns_cache.Window.{Bucket, bump}

-- Where a call stands: before the load, before the compare-and-swap with what it has loaded, before
-- each of the two stores, before the addition, and after it
pub data Phase : Type 0 where
  arrives : Phase
  loaded : ℕ → Phase
  won : Phase
  cleared : Phase
  counting : Phase
  finished : Phase

-- A call of `recordWindow`: the minute that it read off the clock, its outcome and its phase
pub record Caller : Type 0 where
  pub minute : ℕ
  pub hit : Bool
  pub phase : Phase

-- The next action of a call
unfoldable pub act : Caller → Bucket → Bucket × Caller
act c b = elim c.phase [
  | arrives ↦ (b, record c { phase = if b.minute == c.minute then counting else loaded b.minute })
  | loaded got ↦
      if b.minute == got
      then (record b { minute = c.minute }, record c { phase = won })
      else (b, record c { phase = counting })
  | won ↦ (record b { hits = 0 }, record c { phase = cleared })
  | cleared ↦ (record b { misses = 0 }, record c { phase = counting })
  | counting ↦ (bump c.hit b, record c { phase = finished })
  | finished ↦ (b, c)
]

-- The turn of the call with an index
unfoldable pub turn : ℕ → List Caller → Bucket → Bucket × List Caller
unfolding act
turn i [] b = (b, [])
turn zero (c ∷ cs) b = let (b', c') = act c b in (b', c' ∷ cs)
turn (suc i) (c ∷ cs) b = let (b', cs') = turn i cs b in (b', c ∷ cs')

-- The turns of a schedule
unfoldable pub turns : List ℕ → List Caller → Bucket → Bucket × List Caller
unfolding turn
turns [] cs b = (b, cs)
turns (i ∷ is) cs b = let (b', cs') = turn i cs b in turns is cs' b'

-- How many calls with an outcome have added it
abbrev pub is_finished : Phase → Bool
is_finished arrives = false
is_finished (loaded got) = false
is_finished won = false
is_finished cleared = false
is_finished counting = false
is_finished finished = true

abbrev pub added : Bool → Caller → ℕ
added true c = if is_finished c.phase then (if c.hit then 1 else 0) else 0
added false c = if is_finished c.phase then (if c.hit then 0 else 1) else 0

abbrev pub added_by : Bool → List Caller → ℕ
added_by hit [] = 0
added_by hit (c ∷ cs) = added hit c + added_by hit cs
