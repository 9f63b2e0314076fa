-- ===== src/Refresher/Cycle/Pool/Sequential.antt =====
-- What the goroutines of a cycle leave, against the same refreshes one after the other.
use mathlib.Core.List.{append_assoc}
use dns_cache.Prelude.{
  ℕ, ◌≡◌, ◌≢◌, refl, sym, ap, ◌∙◌, Bool, true, ◌⊎◌, inl, inr, List, [], ◌∷◌, ◌++◌, All,
}
use dns_cache.Prelude.Shuffle.{
  Shuffle, as_is, first, swap, then_shuffle, last_first, moved, Pairwise, Shuffle-Pairwise,
  Pairwise-start, All-start,
}
use dns_cache.Prelude.Decimal.{Bytes}
use dns_cache.Prelude.Int.{ℤ}
use dns_cache.Time.{Instant}
use dns_cache.Dns.{Dns}
use dns_cache.Cache.{Cache}
use dns_cache.Cache.Insert.{entry_key}
use dns_cache.Refresher.{Refresher}
use dns_cache.Refresher.Cycle.{refresh_all}
use dns_cache.Refresher.Cycle.Reorder.{
  Refresh, Same, IsThere, Reorder, same_order, keeps_first, swaps, then_reorder, run, one,
  run_reordered-Same,
}
use dns_cache.Refresher.Cycle.Pool.{
  Dispatcher, checks, acquires, drains, returned, Pool, start_pool, PoolMove, passes, quits,
  runs_out, launches, finishes, returns, PoolRun, begins, then_move, then_stop,
}

module _ {RR Err : Type 0} (dns : Dns RR) (zone : Instant → ℤ) (us : List Bytes) where
  abbrev pub Differs : Refresh RR Err → Refresh RR Err → Type 0
  Differs p q = entry_key dns p.1 ≢ entry_key dns q.1

  -- The entries have different keys, as those of a map have.
  abbrev pub AreApart : List (Refresh RR Err) → Type 0
  AreApart = Pairwise Differs

  Differs-flip : (p q : Refresh RR Err) → Differs p q → Differs q p
  Differs-flip p q ne e = ne (sym e)

  Reorder-of_Shuffle :
      {ps qs : List (Refresh RR Err)} → Shuffle ps qs → AreApart ps → Reorder dns zone us ps qs
  Reorder-of_Shuffle (as_is ps) a = same_order ps
  Reorder-of_Shuffle (first p r) a = keeps_first p (Reorder-of_Shuffle r a.1)
  Reorder-of_Shuffle (swap p q ps) a = swaps p q ps a.0.0
  Reorder-of_Shuffle (then_shuffle r s) a =
      then_reorder (Reorder-of_Shuffle r a)
        (Reorder-of_Shuffle s (Shuffle-Pairwise Differs Differs-flip r a))

  run-append :
      (ps : List (Refresh RR Err)) (r : Refresh RR Err) (s : Cache RR × Refresher)
      → run dns zone us (ps ++ (r ∷ [])) s ≡ one dns zone us r (run dns zone us ps s)
  unfolding refresh_all
  run-append [] r s = refl
  run-append (p ∷ ps) r s = run-append ps r (one dns zone us p s)

  -- What is left of the list, where the loop stands
  abbrev Leaves : Dispatcher RR Err → Bool → List (Refresh RR Err) → Type 0
  Leaves (checks rs) off rest = rest ≡ rs
  Leaves (acquires r rs) off rest = rest ≡ r ∷ rs
  Leaves drains off rest = (off ≡ true) ⊎ (rest ≡ [])
  Leaves returned off rest = (off ≡ true) ⊎ (rest ≡ [])

  off_Leaves :
      (rest : List (Refresh RR Err)) (off : Bool) (d : Dispatcher RR Err)
      → Leaves d off rest
      → Leaves d true rest
  off_Leaves rest off (checks rs) h = h
  off_Leaves rest off (acquires r rs) h = h
  off_Leaves rest off drains h = inl refl
  off_Leaves rest off returned h = inl refl

  -- The refreshes that have begun are the first ones of the list; they run or have ended, and those
  -- that have ended have made the state.
  record Tracks (ps : List (Refresh RR Err)) (s : Cache RR × Refresher) (q : Pool RR Err)
      : Type 0 where
    begun : List (Refresh RR Err)
    rest : List (Refresh RR Err)
    split : ps ≡ begun ++ rest
    leaves : Leaves q.dispatcher q.stopping rest
    order : Shuffle begun (q.flying ++ q.finished)
    made : q.state ≡ run dns zone us q.finished s

  module _ (ps : List (Refresh RR Err)) (s : Cache RR × Refresher) where
    PoolMove-Tracks : {q t : Pool RR Err} → PoolMove dns zone us q t → Tracks ps s q → Tracks ps s t
    PoolMove-Tracks (passes r rs q at on) i =
        let left = rw at at i.leaves in
        record {
          begun = i.begun;
          rest = i.rest;
          split = i.split;
          leaves = left;
          order = i.order;
          made = i.made;
        }
    PoolMove-Tracks (quits r rs q at off) i = record {
      begun = i.begun;
      rest = i.rest;
      split = i.split;
      leaves = inl off;
      order = i.order;
      made = i.made;
    }
    PoolMove-Tracks (runs_out q at) i =
        let left = rw at at i.leaves in
        record {
          begun = i.begun;
          rest = i.rest;
          split = i.split;
          leaves = inr left;
          order = i.order;
          made = i.made;
        }
    PoolMove-Tracks (launches r rs q at room) i =
        let left = rw at at i.leaves in
        record {
          begun = i.begun ++ (r ∷ []);
          rest = rs;
          split = i.split ∙ ap (λ l. i.begun ++ l) left ∙ sym (append_assoc i.begun (r ∷ []) rs);
          leaves = refl;
          order = then_shuffle (last_first r i.begun) (first r i.order);
          made = i.made;
        }
    PoolMove-Tracks (finishes before r after q at) i =
        let order = rw at at i.order in
        record {
          begun = i.begun;
          rest = i.rest;
          split = i.split;
          leaves = i.leaves;
          order = then_shuffle order (moved before r after q.finished);
          made = ap (one dns zone us r) i.made ∙ sym (run-append q.finished r s);
        }
    PoolMove-Tracks (returns q at none_left) i =
        let left = rw at at i.leaves in
        record {
          begun = i.begun;
          rest = i.rest;
          split = i.split;
          leaves = left;
          order = i.order;
          made = i.made;
        }

    PoolRun-Tracks :
        {q : Pool RR Err} {n : ℕ}
        → PoolRun dns zone us (start_pool dns zone us ps s) n q
        → Tracks ps s q
    unfolding refresh_all
    PoolRun-Tracks begins = record {
      begun = [];
      rest = ps;
      split = refl;
      leaves = refl;
      order = as_is [];
      made = refl;
    }
    PoolRun-Tracks (then_move r m) = PoolMove-Tracks m (PoolRun-Tracks r)
    PoolRun-Tracks (then_stop {n} {q} r on) =
        let i = PoolRun-Tracks r in
        record {
          begun = i.begun;
          rest = i.rest;
          split = i.split;
          leaves = off_Leaves i.rest q.stopping q.dispatcher i.leaves;
          order = i.order;
          made = i.made;
        }

    -- When the goroutines of a cycle have ended, the cache and the failures cannot be told from
    -- those that the refreshes would leave one after the other, in the order of the list, however
    -- the goroutines took turns: all of them if nobody closed `stopCh`, and otherwise the first
    -- ones. (The entries have different keys, the cache holds them, and nothing else changes it
    -- meanwhile.)
    pub PoolRun-Same :
        {q : Pool RR Err} {n : ℕ}
        → AreApart ps
        → All (IsThere dns zone us s.0) ps
        → PoolRun dns zone us (start_pool dns zone us ps s) n q
        → q.dispatcher ≡ returned
        → q.flying ≡ []
        → (begun : List (Refresh RR Err)) × (rest : List (Refresh RR Err)) × (ps ≡ begun ++ rest)
          × Same (run dns zone us begun s) q.state
          × ((q.stopping ≡ true) ⊎ (rest ≡ []))
    PoolRun-Same {q} apart there r done nobody =
        let i = PoolRun-Tracks r in
        let order : Shuffle i.begun q.finished = rw nobody at i.order in
        let apart' = Pairwise-start Differs i.begun i.rest (rw i.split at apart) in
        let there' = All-start (IsThere dns zone us s.0) i.begun i.rest (rw i.split at there) in
        (
          i.begun,
          i.rest,
          i.split,
          rw i.made (run_reordered-Same dns zone us s (Reorder-of_Shuffle order apart') there'),
          rw done at i.leaves,
        )
