-- ===== src/Tests/Pooling.antt =====
-- A cycle of two refreshes, "a.it." and "b.it.", that run at the same time.
use mathlib.Core.List.{lookup}
use dns_cache.Prelude.{
  ℕ, ◌+◌, ◌*◌, ◌≤◌, ◌≡◌, refl, arith, true, false, ◌⊎◌, inl, inr, ap, ◌∙◌, List, [], ◌∷◌, map, ◌++◌,
  some, length,
}
use dns_cache.Prelude.Decimal.{Bytes, Bytes-discrete}
use dns_cache.Cache.{Cache, find}
use dns_cache.Refresher.{Refresher}
use dns_cache.Refresher.Cycle.Reorder.{Refresh, Same, one}
use dns_cache.Refresher.Cycle.Pool.{
  Pool, checks, returned, start_pool, PoolMove, passes, runs_out, launches, finishes, returns,
  PoolRun, begins, then_move,
}
use dns_cache.Refresher.Cycle.Pool.Ends.{PoolRun-ends}
use dns_cache.Cache.Invariant.{IsValid}
use dns_cache.Entry.{Entry}
use dns_cache.Prelude.Assoc.{lookup-In}
use dns_cache.Tests.Storing.{full-IsValid}
use dns_cache.Tests.Races.{of_full}
use dns_cache.Refresher.Cycle.Whole.{IsOrder, selected, before_loop, refresh_cycle-PoolRun}
use dns_cache.Refresher.{
  Candidate, select_candidates, chosen, candidates, judge, prune_failures, unused,
}
use dns_cache.Refresher.Cycle.{refresh_cycle}
use dns_cache.CacheConfig.{usual, keep_window}
use dns_cache.Entry.Days.{days_used}
use dns_cache.Time.{of_units, second, sub, local_day}
use dns_cache.Prelude.Int.{pos, ◌+ℤ◌, ◌-ℤ◌, ◌*ℤ◌, quot, floor_div, wrap64}
use dns_cache.Tests.Sorting.{insertion}
use dns_cache.Tests.Fixtures.{Rr, lower_case, utc, noon, full, entry_a, entry_b}
use dns_cache.Tests.Refreshing.{refresher, attempt, every_day, hundredths}
use dns_cache.Tests.Upstream.{servers}

-- The day after, with one day of use enough, "a.it." and "b.it." are due.
abbrev daily : Cache Rr
daily = record full { config = every_day }

abbrev next_day : ℕ
next_day = noon + 86400 * second

abbrev refresh_a : Refresh Rr ℕ
refresh_a = (attempt, entry_a)

abbrev refresh_b : Refresh Rr ℕ
refresh_b = (attempt, entry_b)

abbrev both_due : List (Refresh Rr ℕ)
both_due = refresh_a ∷ refresh_b ∷ []

abbrev before : Cache Rr × Refresher
before = before_loop next_day full.entries daily refresher

-- Both run, and nobody has looked at the end of the list.
abbrev both_fly : Pool Rr ℕ
both_fly = record {
  dispatcher = checks [];
  flying = refresh_b ∷ refresh_a ∷ [];
  finished = [];
  state = before;
  stopping = false;
}

both_started :
    PoolRun lower_case utc servers (start_pool lower_case utc servers both_due before) 4 both_fly
both_started =
    then_move
      (then_move
        (then_move (then_move begins (passes refresh_a (refresh_b ∷ []) _ refl refl))
          (launches refresh_a (refresh_b ∷ []) _ refl (omega arith)))
        (passes refresh_b [] _ refl refl))
      (launches refresh_b [] _ refl (omega arith))

-- "b.it." ends first.
abbrev both_done : Pool Rr ℕ
both_done = record {
  dispatcher = returned;
  flying = [];
  finished = refresh_b ∷ refresh_a ∷ [];
  state = one lower_case utc servers refresh_a (one lower_case utc servers refresh_b before);
  stopping = false;
}

both_ended :
    PoolRun lower_case utc servers (start_pool lower_case utc servers both_due before) 8 both_done
both_ended =
    then_move
      (then_move
        (then_move (then_move both_started (finishes [] refresh_b (refresh_a ∷ []) _ refl))
          (finishes [] refresh_a [] _ refl))
        (runs_out _ refl))
      (returns _ refl refl)

PoolRun-ends_example :
    (length (Pool.flying both_done) ≤ 5)
    × (8 ≤ 3 * length both_due + 3)
    × (((both_done.dispatcher ≡ returned) × (both_done.flying ≡ []))
        ⊎ ((t : Pool Rr ℕ) × PoolMove lower_case utc servers both_done t))
PoolRun-ends_example = PoolRun-ends lower_case utc servers both_due before both_ended

daily_due :
    map (λ (p : Refresh Rr ℕ). p.1) both_due
    ≡ selected lower_case utc hundredths
        (insertion (Candidate Rr))
        next_day
        full.entries
        full.entries
        daily
        refresher
unfolding select_candidates chosen candidates judge prune_failures usual ◌+ℤ◌ ◌-ℤ◌ sub lookup
    Bytes-discrete days_used local_day quot floor_div ◌*ℤ◌ insertion
daily_due = refl

daily-IsValid : IsValid lower_case daily
daily-IsValid = record {
  distinct = full-IsValid.distinct;
  well = full-IsValid.well;
  slots = full-IsValid.slots;
}

full_entries-IsOrder : IsOrder full.entries daily
full_entries-IsOrder = record { once = full-IsValid.distinct; holds = λ j. refl }

a_used : unused every_day entry_a (pos next_day) ≡ false
unfolding ◌-ℤ◌ sub ◌*ℤ◌ unused keep_window of_units wrap64
a_used = refl

b_used : unused every_day entry_b (pos next_day) ≡ false
unfolding ◌-ℤ◌ sub ◌*ℤ◌ unused keep_window of_units wrap64
b_used = refl

none_unused :
    (k : Bytes) (e : Entry Rr)
    → find k daily ≡ some e
    → usual utc every_day e (pos next_day) ≡ true
    → unused every_day e (pos next_day) ≡ false
none_unused k e found is_usual =
    elim (of_full k e (lookup-In Bytes-discrete k e full.entries found)) [
      | inl (at, same) ↦ ap (λ x. unused every_day x (pos next_day)) same ∙ a_used
      | inr (at, same) ↦ ap (λ x. unused every_day x (pos next_day)) same ∙ b_used
    ]

refresh_cycle-PoolRun_example :
    (begun : List (Refresh Rr ℕ)) × (rest : List (Refresh Rr ℕ)) × (both_due ≡ begun ++ rest)
    × Same
        (refresh_cycle lower_case utc servers hundredths
          (insertion (Candidate Rr))
          next_day
          full.entries
          full.entries
          (map (λ p. p.0) begun)
          daily
          refresher)
        both_done.state
    × ((both_done.stopping ≡ true) ⊎ (rest ≡ []))
refresh_cycle-PoolRun_example =
    refresh_cycle-PoolRun lower_case utc servers hundredths (insertion (Candidate Rr)) next_day
      full.entries full.entries daily refresher both_due daily-IsValid (λ h. absurd (cc))
      full_entries-IsOrder full_entries-IsOrder none_unused daily_due both_ended refl refl
