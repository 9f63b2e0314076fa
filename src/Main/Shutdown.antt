-- ===== src/Main/Shutdown.antt =====
-- How the loops of the goroutines end (main.go): the loops of the refresher, of `persistLoop` and of
-- `cleanupLoop`, which wait for their tick or for the close of their channel, `Stop` of
-- refresher.go, and the deferred calls of `runServer` where there is a database.
pub mod Order
pub mod Exit
use dns_cache.Prelude.{ℕ, zero, suc, ◌≡◌, Bool, true, false, List, [], ◌∷◌, ◌++◌, if◌then◌else◌}

pub data Loop : Type 0 where
  refresher : Loop
  persister : Loop
  cleaner : Loop

-- Where a loop stands: in its `select`, in a round, or at its end
pub data LoopPhase : Type 0 where
  waits : LoopPhase
  works : LoopPhase
  returned : LoopPhase

-- Where `runServer` stands: before the listeners end, in `Stop` of the refresher, in
-- `persistWg.Wait`, or after `p.Close`
pub data Stage : Type 0 where
  serving : Stage
  stops_refresher : Stage
  stops_loops : Stage
  exited : Stage

-- The calls on the database
pub data DbCall : Type 0 where
  saves : DbCall
  cleans : DbCall
  closes : DbCall

-- The loops, whether `rf.stopCh` and `persistStop` are closed, `runServer`, and the calls on the
-- database, the last one first
pub record Host : Type 0 where
  pub phase : Loop → LoopPhase
  pub refresher_stop : Bool
  pub persist_stop : Bool
  pub stage : Stage
  pub calls : List DbCall

-- One loop moves on.
abbrev pub moved_on : Loop → LoopPhase → (Loop → LoopPhase) → Loop → LoopPhase
moved_on refresher ph phase refresher = ph
moved_on refresher ph phase persister = phase persister
moved_on refresher ph phase cleaner = phase cleaner
moved_on persister ph phase refresher = phase refresher
moved_on persister ph phase persister = ph
moved_on persister ph phase cleaner = phase cleaner
moved_on cleaner ph phase refresher = phase refresher
moved_on cleaner ph phase persister = phase persister
moved_on cleaner ph phase cleaner = ph

-- What a round calls on the database
abbrev pub round_calls : Loop → List DbCall
round_calls refresher = []
round_calls persister = saves ∷ []
round_calls cleaner = cleans ∷ []

-- Whether the loop's channel is closed
abbrev pub told_to_stop : Host → Loop → Bool
told_to_stop h refresher = h.refresher_stop
told_to_stop h persister = h.persist_stop
told_to_stop h cleaner = h.persist_stop

-- The loops when `runServer` is ready, with `cleanupLoop` or without
abbrev pub first_phase : Bool → Loop → LoopPhase
first_phase cleanup refresher = waits
first_phase cleanup persister = waits
first_phase cleanup cleaner = if cleanup then waits else returned

abbrev pub ready : Bool → Host
ready cleanup = record {
  phase = first_phase cleanup;
  refresher_stop = false;
  persist_stop = false;
  stage = serving;
  calls = [];
}

-- A move of a loop or of `runServer`
pub data HostMove (h : Host) : Host → Type 0 where
  -- The `select` takes the tick.
  ticks :
      (l : Loop) → h.phase l ≡ waits → HostMove h (record h { phase = moved_on l works h.phase })
  -- A round is over, and has made its calls.
  ends_round :
      (l : Loop)
      → h.phase l ≡ works
      → HostMove h (record h { phase = moved_on l waits h.phase; calls = round_calls l ++ h.calls })
  -- The `select` takes the closed channel.
  leaves :
      (l : Loop)
      → h.phase l ≡ waits
      → told_to_stop h l ≡ true
      → HostMove h (record h { phase = moved_on l returned h.phase })
  -- The listeners end or a signal comes, and `Stop` closes `stopCh`.
  stops :
      h.stage ≡ serving → HostMove h (record h { stage = stops_refresher; refresher_stop = true })
  -- `Stop` has seen the refresher's loop end, and `persistStop` is closed.
  sees_end :
      h.stage ≡ stops_refresher
      → h.phase refresher ≡ returned
      → HostMove h (record h { stage = stops_loops; persist_stop = true })
  -- The six seconds of `Stop` are over before.
  gives_up :
      h.stage ≡ stops_refresher → HostMove h (record h { stage = stops_loops; persist_stop = true })
  -- `persistWg.Wait` returns, and the database is closed.
  closes_db :
      h.stage ≡ stops_loops
      → h.phase persister ≡ returned
      → h.phase cleaner ≡ returned
      → HostMove h (record h { stage = exited; calls = closes ∷ h.calls })

pub data HostRun (h : Host) : ℕ → Host → Type 0 where
  idle : HostRun h zero h
  after : {n : ℕ} {k m : Host} → HostRun h n k → HostMove k m → HostRun h (suc n) m
