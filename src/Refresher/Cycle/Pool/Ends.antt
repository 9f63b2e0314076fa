-- ===== src/Refresher/Cycle/Pool/Ends.antt =====
-- How many refreshes run, and that the cycle comes to its end.
use dns_cache.Prelude.{
  ℕ, suc, ◌+◌, ◌*◌, ◌≤◌, ◌<◌, ◌≡◌, refl, ap, arith, true, ◌⊎◌, inl, inr, List, [], ◌∷◌, ◌++◌,
  length, length-append, Bool-cases, if◌then◌else◌,
}
use dns_cache.Prelude.Decimal.{Bytes}
use dns_cache.Prelude.Int.{ℤ}
use dns_cache.Time.{Instant}
use dns_cache.Dns.{Dns}
use dns_cache.Cache.{Cache}
use dns_cache.Refresher.{Refresher}
use dns_cache.Refresher.Cycle.Reorder.{Refresh}
use dns_cache.Refresher.Cycle.Pool.{
  Dispatcher, checks, acquires, drains, returned, Pool, sem_size, start_pool, PoolMove, passes,
  quits, runs_out, launches, finishes, returns, PoolRun, begins, then_move, then_stop,
}

module _ {RR Err : Type 0} where
  -- The moves that are left for the loop
  abbrev steps_left : Dispatcher RR Err → ℕ
  steps_left (checks rs) = 3 * length rs + 2
  steps_left (acquires r rs) = 3 * length rs + 4
  steps_left drains = 1
  steps_left returned = 0

  -- The moves that are left, with the close of `stopCh`
  abbrev moves_left : Pool RR Err → ℕ
  moves_left p = steps_left p.dispatcher + length p.flying + (if p.stopping then 0 else 1)

  -- Nobody runs when the loop has ended, and at most five run before.
  record IsSane (p : Pool RR Err) : Type 0 where
    within : length p.flying ≤ sem_size
    settled : p.dispatcher ≡ returned → p.flying ≡ []

  -- The refreshes that have been started
  abbrev pub started : Pool RR Err → ℕ
  started p = length p.finished + length p.flying

  length-middle :
      (before : List (Refresh RR Err)) (r : Refresh RR Err) (after : List (Refresh RR Err))
      → length (before ++ (r ∷ after)) ≡ suc (length (before ++ after))
  length-middle before r after =
      omega (arith, length-append before (r ∷ after), length-append before after)

module _ {RR Err : Type 0} (dns : Dns RR) (zone : Instant → ℤ) (us : List Bytes) where
  PoolMove-left : {p q : Pool RR Err} → PoolMove dns zone us p q → moves_left q < moves_left p
  PoolMove-left (passes r rs p at on) = rw at (omega arith)
  PoolMove-left (quits r rs p at off) = rw at (omega arith)
  PoolMove-left (runs_out p at) = rw at (omega arith)
  PoolMove-left (launches r rs p at room) = rw at (omega arith)
  PoolMove-left (finishes before r after p at) = rw at (omega (arith, length-middle before r after))
  PoolMove-left (returns p at none_left) = rw at (omega arith)

  PoolRun-left :
      {p q : Pool RR Err} {n : ℕ} → PoolRun dns zone us p n q → n + moves_left q ≤ moves_left p
  PoolRun-left begins = omega arith
  PoolRun-left (then_move r m) = omega (arith, PoolRun-left r, PoolMove-left m)
  PoolRun-left (then_stop {n} {q} r on) = omega (arith, rw on at (PoolRun-left r))

  PoolMove-IsSane : {p q : Pool RR Err} → PoolMove dns zone us p q → IsSane p → IsSane q
  PoolMove-IsSane (passes r rs p at on) i = record { within = i.within; settled = λ h. cc }
  PoolMove-IsSane (quits r rs p at off) i = record { within = i.within; settled = λ h. cc }
  PoolMove-IsSane (runs_out p at) i = record { within = i.within; settled = λ h. cc }
  PoolMove-IsSane (launches r rs p at room) i = record { within = omega arith; settled = λ h. cc }
  PoolMove-IsSane (finishes before r after p at) i = record {
    within = omega (arith, i.within, ap length at, length-middle before r after);
    settled = λ h.
        absurd (omega (arith, ap length (i.settled h), ap length at, length-middle before r after));
  }
  PoolMove-IsSane (returns p at none_left) i = record {
    within = i.within;
    settled = λ h. none_left;
  }

  PoolRun-IsSane : {p q : Pool RR Err} {n : ℕ} → PoolRun dns zone us p n q → IsSane p → IsSane q
  PoolRun-IsSane begins i = i
  PoolRun-IsSane (then_move r m) i = PoolMove-IsSane m (PoolRun-IsSane r i)
  PoolRun-IsSane (then_stop r on) i =
      let j = PoolRun-IsSane r i in record { within = j.within; settled = j.settled }

  start_pool-IsSane :
      (ps : List (Refresh RR Err)) (s : Cache RR × Refresher) → IsSane (start_pool dns zone us ps s)
  start_pool-IsSane ps s = record { within = omega arith; settled = λ h. cc }

  -- A state that is not the end has a move.
  progress :
      (p : Pool RR Err)
      → IsSane p
      → (p.dispatcher ≡ returned) ⊎ ((q : Pool RR Err) × PoolMove dns zone us p q)
  progress p i = by_dispatcher p.dispatcher refl
    where
      by_flying :
          (fl : List (Refresh RR Err))
          → p.flying ≡ fl
          → (p.flying ≡ []) ⊎ ((q : Pool RR Err) × PoolMove dns zone us p q)
      by_flying [] at = inl at
      by_flying (r ∷ fl) at = inr (_, finishes [] r fl p at)

      by_dispatcher :
          (d : Dispatcher RR Err)
          → p.dispatcher ≡ d
          → (p.dispatcher ≡ returned) ⊎ ((q : Pool RR Err) × PoolMove dns zone us p q)
      by_dispatcher (checks []) at = inr (_, runs_out p at)
      by_dispatcher (checks (r ∷ rs)) at = elim (Bool-cases p.stopping) [
        | inl off ↦ inr (_, quits r rs p at off)
        | inr on ↦ inr (_, passes r rs p at on)
      ]
      by_dispatcher (acquires r rs) at = elim (by_flying p.flying refl) [
        | inl nobody ↦ inr (_, launches r rs p at (rw nobody (omega arith)))
        | inr m ↦ inr m
      ]
      by_dispatcher drains at = elim (by_flying p.flying refl) [
        | inl nobody ↦ inr (_, returns p at nobody)
        | inr m ↦ inr m
      ]
      by_dispatcher returned at = inl at

  -- However the loop, the refreshes and `Stop` take turns, at most five refreshes of a cycle run at
  -- a time; a cycle over `k` entries makes at most `3 k + 3` moves; and where it cannot go on it has
  -- ended and no refresh runs, so that the loop never waits for ever for a place in `sem` nor in
  -- `wg.Wait`.
  pub PoolRun-ends :
      {n : ℕ} {q : Pool RR Err} (ps : List (Refresh RR Err)) (s : Cache RR × Refresher)
      → PoolRun dns zone us (start_pool dns zone us ps s) n q
      → (length q.flying ≤ 5)
        × (n ≤ 3 * length ps + 3)
        × (((q.dispatcher ≡ returned) × (q.flying ≡ []))
            ⊎ ((t : Pool RR Err) × PoolMove dns zone us q t))
  PoolRun-ends ps s r =
      let i = PoolRun-IsSane r (start_pool-IsSane ps s) in
      (
        i.within,
        omega (arith, PoolRun-left r),
        elim (progress _ i) [ inl done ↦ inl (done, i.settled done) | inr m ↦ inr m ],
      )

  -- A refresh that may still start after `stopCh` is closed: the one that waits for its place
  abbrev waiting : Dispatcher RR Err → ℕ
  waiting (checks rs) = 0
  waiting (acquires r rs) = 1
  waiting drains = 0
  waiting returned = 0

  PoolMove-late :
      {q t : Pool RR Err}
      → q.stopping ≡ true
      → PoolMove dns zone us q t
      → (t.stopping ≡ true) × (started t + waiting t.dispatcher ≤ started q + waiting q.dispatcher)
  PoolMove-late h (passes r rs q at on) = absurd (cc)
  PoolMove-late h (quits r rs q at off) = rw at (h, omega arith)
  PoolMove-late h (runs_out q at) = rw at (h, omega arith)
  PoolMove-late h (launches r rs q at room) = rw at (h, omega arith)
  PoolMove-late h (finishes before r after q at) = (
    h,
    omega (arith, ap length at, length-middle before r after, length-append q.finished (r ∷ [])),
  )
  PoolMove-late h (returns q at none_left) = rw at (h, omega arith)

  PoolRun-late :
      {p q : Pool RR Err} {n : ℕ}
      → p.stopping ≡ true
      → PoolRun dns zone us p n q
      → (q.stopping ≡ true) × (started q + waiting q.dispatcher ≤ started p + waiting p.dispatcher)
  PoolRun-late off begins = (off, omega arith)
  PoolRun-late off (then_move r m) =
      let (off', le) = PoolRun-late off r in
      let (still, le') = PoolMove-late off' m in (still, omega (arith, le, le'))
  PoolRun-late off (then_stop r on) = absurd (cc ((PoolRun-late off r).0))

  waiting_most : (d : Dispatcher RR Err) → waiting d ≤ 1
  waiting_most (checks rs) = omega arith
  waiting_most (acquires r rs) = omega arith
  waiting_most drains = omega arith
  waiting_most returned = omega arith
