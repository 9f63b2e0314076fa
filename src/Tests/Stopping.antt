-- ===== src/Tests/Stopping.antt =====
-- A signal while `persistLoop` is in a round: the round is saved before the database is closed.
use dns_cache.Prelude.{◌≤◌, ◌≡◌, refl, true, ◌⊎◌, List, [], ◌∷◌, All}
use dns_cache.Main.Shutdown.{
  persister, cleaner, waits, works, returned, stops_loops, exited, DbCall, saves, closes, Host,
  moved_on, first_phase, ready, ticks, ends_round, leaves, stops, gives_up, closes_db, HostRun,
  idle, after,
}
use dns_cache.Main.Shutdown.Order.{IsWork, HostRun-closes_last}
use dns_cache.Main.Shutdown.Exit.{Winding, still, onward, IsOver, CanMove, HostRun-exits}

abbrev in_round : Host
in_round = record {
  phase = moved_on persister works (first_phase true);
  refresher_stop = true;
  persist_stop = true;
  stage = stops_loops;
  calls = [];
}

to_round : HostRun (ready true) 3 in_round
to_round = after (after (after idle (ticks persister refl)) (stops refl)) (gives_up refl)

abbrev stopped : Host
stopped = record in_round {
  phase =
      moved_on cleaner returned
        (moved_on persister returned (moved_on persister waits in_round.phase));
  stage = exited;
  calls = closes ∷ saves ∷ [];
}

to_end : HostRun (ready true) 7 stopped
to_end =
    after
      (after (after (after to_round (ends_round persister refl)) (leaves persister refl refl))
        (leaves cleaner refl refl))
      (closes_db refl refl refl)

HostRun-closes_last_example :
    All IsWork (Host.calls stopped)
    ⊎ ((rest : List DbCall) × (Host.calls stopped ≡ closes ∷ rest)
        × All IsWork rest
        × (stopped.phase persister ≡ returned)
        × (stopped.phase cleaner ≡ returned))
HostRun-closes_last_example = HostRun-closes_last true to_end

-- The rest of that run
winding : Winding in_round 4 stopped
winding =
    onward
      (onward
        (onward (onward still (ends_round persister refl) refl) (leaves persister refl refl) refl)
        (leaves cleaner refl refl) refl)
      (closes_db refl refl refl) refl

-- The refresher's loop has not ended yet.
HostRun-exits_example : (4 ≤ 9) × (IsOver stopped ⊎ CanMove stopped)
HostRun-exits_example = HostRun-exits true to_round winding
