-- ===== src/Refresher/Cycle/Pool.antt =====
-- The goroutines of a cycle (`refreshCycle` of refresher.go): the loop over the entries, which looks
-- at `stopCh` and waits for a place in `sem` before it starts each refresh, at most five refreshes
-- at a time, and the wait for all of them. A refresh takes effect at one moment, its last.
pub mod Ends
pub mod Sequential
use dns_cache.Prelude.{ℕ, zero, suc, ◌<◌, ◌≡◌, Bool, true, false, List, [], ◌∷◌, ◌++◌, length}
use dns_cache.Prelude.Decimal.{Bytes}
use dns_cache.Prelude.Int.{ℤ}
use dns_cache.Time.{Instant}
use dns_cache.Dns.{Dns}
use dns_cache.Cache.{Cache}
use dns_cache.Refresher.{Refresher}
use dns_cache.Refresher.Cycle.Reorder.{Refresh, one}

-- The capacity of `sem`
abbrev pub sem_size : ℕ
sem_size = 5

module _ (RR Err : Type 0) where
  -- Where the loop stands: before the `select` with the entries that are left, before it sends on
  -- `sem` for the first of them, in `wg.Wait`, or at its end
  pub data Dispatcher : Type 0 where
    checks : List (Refresh RR Err) → Dispatcher
    acquires : Refresh RR Err → List (Refresh RR Err) → Dispatcher
    drains : Dispatcher
    returned : Dispatcher

  -- The loop, the refreshes that run, those that have ended in the order of their ends, the cache
  -- with the failures, and whether `stopCh` is closed
  pub record Pool : Type 0 where
    pub dispatcher : Dispatcher
    pub flying : List (Refresh RR Err)
    pub finished : List (Refresh RR Err)
    pub state : Cache RR × Refresher
    pub stopping : Bool

module _ {RR Err : Type 0} (dns : Dns RR) (zone : Instant → ℤ) (us : List Bytes) where
  -- Before the loop
  abbrev pub start_pool : List (Refresh RR Err) → Cache RR × Refresher → Pool RR Err
  start_pool ps s = record {
    dispatcher = checks ps;
    flying = [];
    finished = [];
    state = s;
    stopping = false;
  }

  -- A move of the loop or of a refresh
  pub data PoolMove : Pool RR Err → Pool RR Err → Type 0 where
    -- The `default` of the `select`
    passes :
        (r : Refresh RR Err) (rs : List (Refresh RR Err)) (p : Pool RR Err)
        → p.dispatcher ≡ checks (r ∷ rs)
        → p.stopping ≡ false
        → PoolMove p (record p { dispatcher = acquires r rs })
    -- The case of `stopCh`
    quits :
        (r : Refresh RR Err) (rs : List (Refresh RR Err)) (p : Pool RR Err)
        → p.dispatcher ≡ checks (r ∷ rs)
        → p.stopping ≡ true
        → PoolMove p (record p { dispatcher = drains })
    runs_out :
        (p : Pool RR Err) → p.dispatcher ≡ checks [] → PoolMove p (record p { dispatcher = drains })
    -- `sem` has a place, and the goroutine starts.
    launches :
        (r : Refresh RR Err) (rs : List (Refresh RR Err)) (p : Pool RR Err)
        → p.dispatcher ≡ acquires r rs
        → length p.flying < sem_size
        → PoolMove p (record p { dispatcher = checks rs; flying = r ∷ p.flying })
    -- A refresh that runs takes effect and gives its place back.
    finishes :
        (before : List (Refresh RR Err)) (r : Refresh RR Err) (after : List (Refresh RR Err))
        (p : Pool RR Err)
        → p.flying ≡ before ++ (r ∷ after)
        → PoolMove p (record p {
          flying = before ++ after;
          finished = p.finished ++ (r ∷ []);
          state = one dns zone us r p.state;
        })
    returns :
        (p : Pool RR Err)
        → p.dispatcher ≡ drains
        → p.flying ≡ []
        → PoolMove p (record p { dispatcher = returned })

  -- A run of so many moves, in which `Stop` may close `stopCh` once, at any time
  pub data PoolRun (p : Pool RR Err) : ℕ → Pool RR Err → Type 0 where
    begins : PoolRun p zero p
    then_move : {n : ℕ} {q t : Pool RR Err} → PoolRun p n q → PoolMove q t → PoolRun p (suc n) t
    then_stop :
        {n : ℕ} {q : Pool RR Err}
        → PoolRun p n q
        → q.stopping ≡ false
        → PoolRun p (suc n) (record q { stopping = true })
