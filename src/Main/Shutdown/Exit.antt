-- ===== src/Main/Shutdown/Exit.antt =====
-- The loops and `runServer` come to their end.
use dns_cache.Prelude.{
  ℕ, suc, ◌+◌, ◌≤◌, ◌≡◌, refl, arith, Bool, true, false, ◌⊎◌, inl, inr, List, ◌++◌,
}
use dns_cache.Main.Shutdown.{
  Loop, refresher, persister, cleaner, LoopPhase, waits, works, returned, Stage, serving,
  stops_refresher, stops_loops, exited, DbCall, Host, moved_on, round_calls, told_to_stop, ready,
  HostMove, ticks, ends_round, leaves, stops, sees_end, gives_up, closes_db, HostRun, idle, after,
}
use dns_cache.Main.Shutdown.Order.{Stands, HostRun-Stands}

-- A loop begins another round.
abbrev pub is_tick : {h k : Host} → HostMove h k → Bool
is_tick (ticks l at) = true
is_tick (ends_round l at) = false
is_tick (leaves l at told) = false
is_tick (stops at) = false
is_tick (sees_end at done) = false
is_tick (gives_up at) = false
is_tick (closes_db at saved cleaned) = false

-- A run in which no loop begins another round
pub data Winding (h : Host) : ℕ → Host → Type 0 where
  still : Winding h 0 h
  onward :
      {n : ℕ} {k m : Host}
      → Winding h n k
      → (mv : HostMove k m) → is_tick mv ≡ false
      → Winding h (suc n) m

-- `runServer` has returned, and so have the loops of the refresher and of the database.
pub record IsOver (h : Host) : Type 0 where
  pub exits : h.stage ≡ exited
  pub ends : (l : Loop) → h.phase l ≡ returned

-- Someone can move, and it is not the tick of a loop.
abbrev pub CanMove : Host → Type 0
CanMove h = (k : Host) × (mv : HostMove h k) × (is_tick mv ≡ false)

-- How many moves are left, at most
abbrev left_of : LoopPhase → ℕ
left_of waits = 1
left_of works = 2
left_of returned = 0

abbrev left_at : Stage → ℕ
left_at serving = 3
left_at stops_refresher = 2
left_at stops_loops = 1
left_at exited = 0

abbrev left_in : (Loop → LoopPhase) → ℕ
left_in phase = left_of (phase refresher) + left_of (phase persister) + left_of (phase cleaner)

abbrev left : Host → ℕ
left h = left_at h.stage + left_in h.phase

moved_on-left :
    (l : Loop) (ph ph' : LoopPhase) (phase : Loop → LoopPhase)
    → phase l ≡ ph'
    → left_in (moved_on l ph phase) + left_of ph' ≡ left_in phase + left_of ph
moved_on-left refresher ph ph' phase at = rw at (omega arith)
moved_on-left persister ph ph' phase at = rw at (omega arith)
moved_on-left cleaner ph ph' phase at = rw at (omega arith)

HostMove-left : {h k : Host} (mv : HostMove h k) → is_tick mv ≡ false → suc (left k) ≤ left h
HostMove-left (ticks l at) quiet = absurd (ground arith)
HostMove-left {h} (ends_round l at) quiet = omega (arith, moved_on-left l waits works h.phase at)
HostMove-left {h} (leaves l at told) quiet =
    omega (arith, moved_on-left l returned waits h.phase at)
HostMove-left (stops at) quiet = rw at (omega arith)
HostMove-left (sees_end at done) quiet = rw at (omega arith)
HostMove-left (gives_up at) quiet = rw at (omega arith)
HostMove-left (closes_db at saved cleaned) quiet = rw at (omega arith)

Winding-left : {h k : Host} {n : ℕ} → Winding h n k → n + left k ≤ left h
Winding-left still = omega arith
Winding-left (onward w mv quiet) = omega (arith, Winding-left w, HostMove-left mv quiet)

left-most : (h : Host) → left h ≤ 9
left-most h = omega (
  arith,
  stage_most h.stage,
  phase_most (h.phase refresher),
  phase_most (h.phase persister),
  phase_most (h.phase cleaner),
)
  where
    stage_most : (s : Stage) → left_at s ≤ 3
    stage_most serving = omega arith
    stage_most stops_refresher = omega arith
    stage_most stops_loops = omega arith
    stage_most exited = omega arith

    phase_most : (ph : LoopPhase) → left_of ph ≤ 2
    phase_most waits = omega arith
    phase_most works = omega arith
    phase_most returned = omega arith

-- Past the end of the listeners, the refresher's channel is closed, and it stays so.
abbrev IsTold : Host → Stage → Type 0
IsTold h serving = Unit
IsTold h stops_refresher = h.refresher_stop ≡ true
IsTold h stops_loops = h.refresher_stop ≡ true
IsTold h exited = h.refresher_stop ≡ true

IsTold-same :
    (h : Host) (phase : Loop → LoopPhase) (calls : List DbCall) (s : Stage)
    → IsTold h s
    → IsTold (record h { phase = phase; calls = calls }) s
IsTold-same h phase calls serving t = tt
IsTold-same h phase calls stops_refresher t = t
IsTold-same h phase calls stops_loops t = t
IsTold-same h phase calls exited t = t

HostMove-IsTold : {h k : Host} → HostMove h k → IsTold h h.stage → IsTold k k.stage
HostMove-IsTold {h} (ticks l at) t = IsTold-same h (moved_on l works h.phase) h.calls h.stage t
HostMove-IsTold {h} (ends_round l at) t =
    IsTold-same h (moved_on l waits h.phase) (round_calls l ++ h.calls) h.stage t
HostMove-IsTold {h} (leaves l at told) t =
    IsTold-same h (moved_on l returned h.phase) h.calls h.stage t
HostMove-IsTold (stops at) t = refl
HostMove-IsTold (sees_end at done) t = rw at at t
HostMove-IsTold (gives_up at) t = rw at at t
HostMove-IsTold (closes_db at saved cleaned) t = rw at at t

HostRun-IsTold : {h k : Host} {n : ℕ} → HostRun h n k → IsTold h h.stage → IsTold k k.stage
HostRun-IsTold idle t = t
HostRun-IsTold (after r mv) t = HostMove-IsTold mv (HostRun-IsTold r t)

-- A loop that is told to stop has ended, or it can move.
loop-CanMove : (l : Loop) (h : Host) → told_to_stop h l ≡ true → (h.phase l ≡ returned) ⊎ CanMove h
loop-CanMove l h told = by_phase (h.phase l) refl
  where
    by_phase : (ph : LoopPhase) → h.phase l ≡ ph → (h.phase l ≡ returned) ⊎ CanMove h
    by_phase returned at = inl at
    by_phase waits at = inr (_, leaves l at told, refl)
    by_phase works at = inr (_, ends_round l at, refl)

host-CanMove : (h : Host) (s : Stage) → h.stage ≡ s → Stands h s → IsTold h s → IsOver h ⊎ CanMove h
host-CanMove h serving at i told = inr (_, stops at, refl)
host-CanMove h stops_refresher at i told = inr (_, gives_up at, refl)
host-CanMove h stops_loops at i told = elim (loop-CanMove persister h i.1) [
  | inr moves ↦ inr moves
  | inl saved ↦ elim (loop-CanMove cleaner h i.1) [
    | inr moves ↦ inr moves
    | inl cleaned ↦ inr (_, closes_db at saved cleaned, refl)
  ]
]
host-CanMove h exited at (rest, calls, work, saved, cleaned) told =
    elim (loop-CanMove refresher h told) [
      | inr moves ↦ inr moves
      | inl refreshed ↦ inl (record { exits = at; ends = λ l. all_ended refreshed l })
    ]
  where
    all_ended : h.phase refresher ≡ returned → (l : Loop) → h.phase l ≡ returned
    all_ended refreshed refresher = refreshed
    all_ended refreshed persister = saved
    all_ended refreshed cleaner = cleaned

then_run : {h k m : Host} {a b : ℕ} → HostRun h a k → Winding k b m → (c : ℕ) × HostRun h c m
then_run {a = a} r still = (a, r)
then_run r (onward w mv quiet) = let (c, run) = then_run r w in (suc c, after run mv)

-- Wherever the loops and `runServer` stand, once the loops begin no other round they wait for nobody
-- for ever: at most nine moves follow, whatever their order, and until `runServer` has returned and
-- the loops of the refresher, of `persistLoop` and of `cleanupLoop` have all ended, one of them can
-- move.
pub HostRun-exits :
    (cleanup : Bool) {n m : ℕ} {h k : Host}
    → HostRun (ready cleanup) n h
    → Winding h m k
    → (m ≤ 9) × (IsOver k ⊎ CanMove k)
HostRun-exits cleanup {h = h} {k} r w =
    let (c, run) = then_run r w in
    (
      omega (arith, Winding-left w, left-most h),
      host-CanMove k k.stage refl (HostRun-Stands run tt) (HostRun-IsTold run tt),
    )
