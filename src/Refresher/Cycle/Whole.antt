-- ===== src/Refresher/Cycle/Whole.antt =====
-- A whole cycle with its goroutines, from the snapshot on, against `refresh_cycle`.
use mathlib.Core.List.{lookup}
use dns_cache.Prelude.{
  ℕ, ◌≡◌, ◌≢◌, refl, sym, ap, ◌∙◌, true, false, ◌⊎◌, inl, inr, List, [], ◌∷◌, ◌++◌, map, some, none,
  All, In, arith,
}
use dns_cache.Prelude.Assoc.{Distinct, In-lookup, All-lookup}
use dns_cache.Prelude.Shuffle.{
  Pairwise, Shuffle-Pairwise, Pairwise-take, Pairwise-map, Pairwise-of_map, All-of_In, All-map,
  All-of_map,
}
use dns_cache.Prelude.Decimal.{Bytes, Bytes-discrete}
use dns_cache.Prelude.Int.{ℤ, pos}
use dns_cache.Time.{Instant, Duration}
use dns_cache.Dns.{Dns}
use dns_cache.Entry.{Entry}
use dns_cache.CacheConfig.{usual}
use dns_cache.Cache.{Cache, find}
use dns_cache.Cache.Insert.{entry_key}
use dns_cache.Cache.Invariant.{IsValid, IsWell}
use dns_cache.Refresher.{
  Refresher, Snapshot, Candidate, SortSlice, less, judge, candidates, chosen, max_refresh_per_cycle,
  select_candidates, prune_failures, prune_unused, unused,
}
use dns_cache.Refresher.Choice.{In-candidates, Verdict-cases, chosen-IsDue}
use dns_cache.Refresher.Prune.{prune_unused-finds}
use dns_cache.Refresher.Cycle.{refresh_all, refresh_cycle}
use dns_cache.Refresher.Cycle.Reorder.{Refresh, Same, run}
use dns_cache.Refresher.Cycle.Pool.{Pool, returned, start_pool, PoolRun}
use dns_cache.Refresher.Cycle.Pool.Sequential.{AreApart, PoolRun-Same}

-- An order in which a loop over the map meets its entries
pub record IsOrder {RR : Type 0} (order : Snapshot RR) (c : Cache RR) : Type 0 where
  pub once : Distinct Bytes-discrete order
  pub holds : (j : Bytes) → lookup Bytes-discrete j order ≡ find j c

module _ {RR : Type 0} (dns : Dns RR) where
  abbrev KeysDiffer : Entry RR → Entry RR → Type 0
  KeysDiffer e f = entry_key dns e ≢ entry_key dns f

  -- Each entry of the order stands under its own key.
  abbrev IsOwn : Bytes × Entry RR → Type 0
  IsOwn p = p.0 ≡ entry_key dns p.1

  IsOrder-IsOwn :
      (order : Snapshot RR) (c : Cache RR)
      → IsValid dns c
      → IsOrder order c
      → (p : Bytes × Entry RR) → In p order
      → (find p.0 c ≡ some p.1) × IsOwn p
  IsOrder-IsOwn order c valid i (k, e) m =
      let found : find k c ≡ some e =
        sym (i.holds k) ∙ In-lookup Bytes-discrete k e order i.once m in
      (found, (All-lookup Bytes-discrete (IsWell dns) k e c.entries valid.well found).0)

  module _ (zone : Instant → ℤ) (fraction : Duration → ℕ → Duration) (c : Cache RR) (rf : Refresher)
      (now : Instant) where
    others-differ :
        (k : Bytes) (e : Entry RR) (rest : Snapshot RR)
        → lookup Bytes-discrete k rest ≡ none
        → Distinct Bytes-discrete rest
        → IsOwn (k, e)
        → ((p : Bytes × Entry RR) → In p rest → IsOwn p)
        → All
            (λ x. KeysDiffer e (Candidate.entry x))
            (candidates zone fraction c.config rf now rest).0
    others-differ k e rest absent once own_e own =
        All-of_In (λ x. KeysDiffer e (Candidate.entry x)) _
          λ x m same.
            let is_due = In-candidates zone fraction c.config rf now rest rest x (λ p n. n) m in
            let there = In-lookup Bytes-discrete is_due.key x.entry rest once is_due.stored in
            let k_same : k ≡ is_due.key =
              own_e ∙ same ∙ sym (own (is_due.key, x.entry) is_due.stored) in
            let clash = sym absent ∙ ap (λ j. lookup Bytes-discrete j rest) k_same ∙ there in
            absurd (ground (arith, clash))

    candidates-apart :
        (order : Snapshot RR)
        → Distinct Bytes-discrete order
        → ((p : Bytes × Entry RR) → In p order → IsOwn p)
        → Pairwise KeysDiffer
            (map (λ x. Candidate.entry x) (candidates zone fraction c.config rf now order).0)
    unfolding candidates
    candidates-apart [] d own = tt
    candidates-apart ((k, e) ∷ rest) d own =
        let later = candidates-apart rest d.1 (λ p m. own p (inr m)) in
        elim (Verdict-cases (judge zone fraction c.config rf now k e)) [
          | inl v ↦ rw (candidates, v) later
          | inr (inl v) ↦ rw (candidates, v) later
          | inr (inr (inl v)) ↦ rw (candidates, v) later
          | inr (inr (inr (o, v))) ↦
              rw (candidates, v)
                (
                  All-map (λ x. Candidate.entry x) (KeysDiffer e)
                      (candidates zone fraction c.config rf now rest).0
                      (others-differ k e rest d.0 d.1 (own (k, e) (inl refl))
                        (λ p m. own p (inr m))),
                  later,
                )
        ]

    chosen-apart :
        (sorting : SortSlice (Candidate RR)) (order : Snapshot RR)
        → Distinct Bytes-discrete order
        → ((p : Bytes × Entry RR) → In p order → IsOwn p)
        → Pairwise KeysDiffer
            (map (λ x. Candidate.entry x) (chosen zone fraction c.config sorting rf now order))
    unfolding chosen
    chosen-apart sorting order d own =
        let differ : Candidate RR → Candidate RR → Type 0 =
          λ x y. KeysDiffer (Candidate.entry x) (Candidate.entry y) in
        let cs = (candidates zone fraction c.config rf now order).0 in
        Pairwise-map (λ x. Candidate.entry x) KeysDiffer _
          (Pairwise-take differ max_refresh_per_cycle _ (
            Shuffle-Pairwise differ (λ x y ne e. ne (sym e))
              (SortSlice.Shuffle-sort_slice sorting less cs)
              (Pairwise-of_map (λ x. Candidate.entry x) KeysDiffer cs
                (candidates-apart order d own))))

-- A loop over what is not empty
non_empty : {A B : Type 0} (l : List A) (a b : B) → l ≢ [] → (elim l [ [] ↦ a | _ ∷ _ ↦ b ]) ≡ b
non_empty [] a b h = absurd (h refl)
non_empty (x ∷ l) a b h = refl

-- The state of the cache and of the failures when the loop begins
abbrev pub before_loop :
    {RR : Type 0} → ℕ → Snapshot RR → Cache RR → Refresher → Cache RR × Refresher
before_loop now prune_order c rf =
    (prune_unused prune_order (pos now) c, prune_failures c.entries rf)

module _ {RR : Type 0} (dns : Dns RR) (zone : Instant → ℤ) (fraction : Duration → ℕ → Duration)
    (sorting : SortSlice (Candidate RR)) (now : ℕ) (prune_order select_order : Snapshot RR)
    (c : Cache RR) (rf : Refresher) where
  -- The entries that the cycle refreshes
  abbrev pub selected : List (Entry RR)
  selected =
      (select_candidates zone fraction c.config sorting (prune_failures c.entries rf) (pos now)
        select_order).0

  selected-apart : IsValid dns c → IsOrder select_order c → Pairwise (KeysDiffer dns) selected
  unfolding select_candidates
  selected-apart valid i =
      chosen-apart dns zone fraction c (prune_failures c.entries rf) (pos now) sorting select_order
        i.once (λ p m. (IsOrder-IsOwn dns select_order c valid i p m).1)

  -- The cache that `pruneUnused` leaves holds what is selected.
  abbrev IsHeld : Entry RR → Type 0
  IsHeld e =
      (old : Entry RR) × (find (entry_key dns e) (prune_unused prune_order (pos now) c) ≡ some old)

  selected-IsHeld :
      IsValid dns c
      → IsOrder prune_order c
      → IsOrder select_order c
      → ((k : Bytes) (e : Entry RR)
          → find k c ≡ some e
          → usual zone c.config e (pos now) ≡ true
          → unused c.config e (pos now) ≡ false)
      → All IsHeld selected
  unfolding select_candidates
  selected-IsHeld valid j i used =
      All-map (λ x. Candidate.entry x) IsHeld _
        (All-of_In (λ x. IsHeld (Candidate.entry x)) _
          λ x m.
            let is_due =
              (chosen-IsDue zone fraction c.config (prune_failures c.entries rf) (pos now) sorting
                  select_order).1
                x m in
            let (found, own) =
              IsOrder-IsOwn dns select_order c valid i (is_due.key, x.entry) is_due.stored in
            let here = used is_due.key x.entry found is_due.is_usual in
            let left = prune_unused-finds prune_order (pos now) c is_due.key j.once j.holds in
            (x.entry, rw (← own) (left ∙ rw (found, here) refl)))

module _ {RR Err : Type 0} (dns : Dns RR) (zone : Instant → ℤ) (us : List Bytes)
    (fraction : Duration → ℕ → Duration) (sorting : SortSlice (Candidate RR)) (now : ℕ)
    (prune_order select_order : Snapshot RR) (c : Cache RR) (rf : Refresher) where
  refresh_all-start :
      (begun rest : List (Refresh RR Err)) (s : Cache RR × Refresher)
      → refresh_all dns zone us (map (λ p. p.0) begun) (map (λ p. p.1) (begun ++ rest)) s.0 s.1
        ≡ run dns zone us begun s
  unfolding refresh_all
  refresh_all-start [] rest s = refl
  refresh_all-start (p ∷ begun) rest s = refresh_all-start begun rest _

  refresh_cycle-run :
      (begun rest : List (Refresh RR Err))
      → c.entries ≢ []
      → map (λ p. p.1) (begun ++ rest)
        ≡ selected dns zone fraction sorting now prune_order select_order c rf
      → refresh_cycle dns zone us fraction sorting now prune_order select_order
          (map (λ p. p.0) begun)
          c
          rf
        ≡ run dns zone us begun (before_loop now prune_order c rf)
  unfolding refresh_cycle
  refresh_cycle-run begun rest some_entry at =
      non_empty c.entries (c, rf)
        (refresh_all dns zone us (map (λ p. p.0) begun)
          (selected dns zone fraction sorting now prune_order select_order c rf)
          (prune_unused prune_order (pos now) c) (prune_failures c.entries rf))
        some_entry
      ∙ rw (← at) (refresh_all-start begun rest _)

  -- A cycle whose goroutines have ended has left a cache and failures that cannot be told from those
  -- of `refresh_cycle`, which refreshes one entry after the other, however the goroutines took
  -- turns and whatever the upstream servers answered: of the whole cycle if nobody closed `stopCh`,
  -- and otherwise of the cycle cut short after the first refreshes. (The cache is valid and not
  -- empty, and nothing else changes it meanwhile; `pruneUnused` and `selectCandidates` meet its
  -- entries each in an order; and no stored entry of a usual domain is unused.)
  pub refresh_cycle-PoolRun :
      {q : Pool RR Err} {n : ℕ} (ps : List (Refresh RR Err))
      → IsValid dns c
      → c.entries ≢ []
      → IsOrder prune_order c
      → IsOrder select_order c
      → ((k : Bytes) (e : Entry RR)
          → find k c ≡ some e
          → usual zone c.config e (pos now) ≡ true
          → unused c.config e (pos now) ≡ false)
      → map (λ p. p.1) ps ≡ selected dns zone fraction sorting now prune_order select_order c rf
      → PoolRun dns zone us (start_pool dns zone us ps (before_loop now prune_order c rf)) n q
      → q.dispatcher ≡ returned
      → q.flying ≡ []
      → (begun : List (Refresh RR Err)) × (rest : List (Refresh RR Err)) × (ps ≡ begun ++ rest)
        × Same
            (refresh_cycle dns zone us fraction sorting now prune_order select_order
              (map (λ p. p.0) begun)
              c
              rf)
            q.state
        × ((q.stopping ≡ true) ⊎ (rest ≡ []))
  refresh_cycle-PoolRun ps valid some_entry j i used at r done nobody =
      let apart : AreApart dns zone us ps =
        Pairwise-of_map (λ p. p.1) (KeysDiffer dns) ps
          (rw at
            (selected-apart dns zone fraction sorting now prune_order select_order c rf valid i)) in
      let there =
        All-of_map (λ p. p.1) (IsHeld dns zone fraction sorting now prune_order select_order c rf)
          ps
          (rw at (
            selected-IsHeld dns zone fraction sorting now prune_order select_order c rf valid j i
              used)) in
      let (begun, rest, split, same, cut) =
        PoolRun-Same dns zone us ps _ apart there r done nobody in
      (begun, rest, split, rw (refresh_cycle-run begun rest some_entry (rw split at at)) same, cut)
