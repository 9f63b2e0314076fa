-- ===== src/Main/Shutdown/Order.antt =====
-- The database is closed last.
use dns_cache.Prelude.{ℕ, ◌≡◌, refl, arith, Bool, true, ◌⊎◌, inl, inr, List, ◌∷◌, ◌++◌, All}
use dns_cache.Main.Shutdown.{
  Loop, refresher, persister, cleaner, LoopPhase, waits, works, returned, Stage, serving,
  stops_refresher, stops_loops, exited, DbCall, saves, cleans, closes, Host, moved_on, round_calls,
  ready, HostMove, ticks, ends_round, leaves, stops, sees_end, gives_up, closes_db, HostRun, idle,
  after,
}

-- A call of a round
abbrev pub IsWork : DbCall → Type 0
IsWork saves = Unit
IsWork cleans = Unit
IsWork closes = ⊥

-- The calls so far, where `runServer` stands, and the channel that it has closed
abbrev pub Stands : Host → Stage → Type 0
Stands h serving = All IsWork h.calls
Stands h stops_refresher = All IsWork h.calls × (h.refresher_stop ≡ true)
Stands h stops_loops = All IsWork h.calls × (h.persist_stop ≡ true)
Stands h exited =
    (rest : List DbCall) × (h.calls ≡ closes ∷ rest)
    × All IsWork rest
    × (h.phase persister ≡ returned)
    × (h.phase cleaner ≡ returned)

round_calls-All :
    (l : Loop) (calls : List DbCall) → All IsWork calls → All IsWork (round_calls l ++ calls)
round_calls-All refresher calls a = a
round_calls-All persister calls a = (tt, a)
round_calls-All cleaner calls a = (tt, a)

-- A loop that has not ended moves on.
moved_on-Stands :
    (h : Host) (l : Loop) (ph : LoopPhase) (s : Stage)
    → ¬ (h.phase l ≡ returned)
    → Stands h s
    → Stands (record h { phase = moved_on l ph h.phase }) s
moved_on-Stands h l ph serving live i = i
moved_on-Stands h l ph stops_refresher live i = i
moved_on-Stands h l ph stops_loops live i = i
moved_on-Stands h refresher ph exited live i = i
moved_on-Stands h persister ph exited live i = absurd (live i.3)
moved_on-Stands h cleaner ph exited live i = absurd (live i.4)

round-Stands :
    (h : Host) (l : Loop) (s : Stage)
    → ¬ (h.phase l ≡ returned)
    → Stands h s
    → Stands (record h { phase = moved_on l waits h.phase; calls = round_calls l ++ h.calls }) s
round-Stands h l serving live i = round_calls-All l h.calls i
round-Stands h l stops_refresher live i = (round_calls-All l h.calls i.0, i.1)
round-Stands h l stops_loops live i = (round_calls-All l h.calls i.0, i.1)
round-Stands h refresher exited live i = i
round-Stands h persister exited live i = absurd (live i.3)
round-Stands h cleaner exited live i = absurd (live i.4)

HostMove-Stands : {h k : Host} → HostMove h k → Stands h h.stage → Stands k k.stage
HostMove-Stands {h} (ticks l at) i =
    moved_on-Stands h l works h.stage (λ e. absurd (ground (arith, e, at))) i
HostMove-Stands {h} (ends_round l at) i =
    round-Stands h l h.stage (λ e. absurd (ground (arith, e, at))) i
HostMove-Stands {h} (leaves l at told) i =
    moved_on-Stands h l returned h.stage (λ e. absurd (ground (arith, e, at))) i
HostMove-Stands (stops at) i = let before = rw at at i in (before, refl)
HostMove-Stands (sees_end at done) i = let before = rw at at i in (before.0, refl)
HostMove-Stands (gives_up at) i = let before = rw at at i in (before.0, refl)
HostMove-Stands {h} (closes_db at saved cleaned) i =
    let before = rw at at i in (h.calls, refl, before.0, saved, cleaned)

pub HostRun-Stands : {h k : Host} {n : ℕ} → HostRun h n k → Stands h h.stage → Stands k k.stage
HostRun-Stands idle i = i
HostRun-Stands (after r m) i = HostMove-Stands m (HostRun-Stands r i)

Stage-cases : (s : Stage) → (s ≡ exited) ⊎ ((h : Host) → Stands h s → All IsWork h.calls)
Stage-cases serving = inr (λ h i. i)
Stage-cases stops_refresher = inr (λ h i. i.0)
Stage-cases stops_loops = inr (λ h i. i.0)
Stage-cases exited = inl refl

-- Whatever turns the loops and `runServer` take: the database is closed at most once, after the last
-- call of `SaveBatch` and `Cleanup`, and then both of its loops have ended, so that none follows.
pub HostRun-closes_last :
    (cleanup : Bool) {n : ℕ} {h : Host}
    → HostRun (ready cleanup) n h
    → All IsWork h.calls
      ⊎ ((rest : List DbCall) × (h.calls ≡ closes ∷ rest)
          × All IsWork rest
          × (h.phase persister ≡ returned)
          × (h.phase cleaner ≡ returned))
HostRun-closes_last cleanup {h = h} r =
    let i = HostRun-Stands r tt in
    elim (Stage-cases h.stage) [ inl at ↦ inr (rw at at i) | inr work ↦ inl (work h i) ]
