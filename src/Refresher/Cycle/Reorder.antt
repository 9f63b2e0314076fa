-- ===== src/Refresher/Cycle/Reorder.antt =====
-- All the refreshes of a cycle, in any order in which the goroutines may come to take effect.
use mathlib.Core.Path.{subst}
use dns_cache.Prelude.{◌≡◌, ◌≢◌, refl, sym, ◌∙◌, List, [], ◌∷◌, map, some, All}
use dns_cache.Prelude.Decimal.{Bytes, Bytes-discrete}
use dns_cache.Prelude.Int.{ℤ}
use dns_cache.Time.{Instant}
use dns_cache.Dns.{Dns}
use dns_cache.Entry.{Entry}
use dns_cache.Cache.{Cache, find}
use dns_cache.Cache.Insert.{entry_key}
use dns_cache.Refresher.{Refresher, failure_of}
use dns_cache.Refresher.Cycle.{Attempt, refresh_entry, refresh_all}
use dns_cache.Refresher.Cycle.Order.{
  refresh_entry-Effect, refresh_entry-own, refresh_entry-present, both-order,
}

-- Two states that no operation can tell apart: the same configuration, and under every key the same
-- entry and the same failures
pub record Same {RR : Type 0} (s t : Cache RR × Refresher) : Type 0 where
  pub same_config : s.0.config ≡ t.0.config
  pub same_interval : s.1.interval ≡ t.1.interval
  pub same_entry : (j : Bytes) → find j s.0 ≡ find j t.0
  pub same_failure : (j : Bytes) → failure_of j s.1.failures ≡ failure_of j t.1.failures

pub Same-refl : {RR : Type 0} (s : Cache RR × Refresher) → Same s s
Same-refl s = record {
  same_config = refl;
  same_interval = refl;
  same_entry = λ j. refl;
  same_failure = λ j. refl;
}

pub Same-trans : {RR : Type 0} {s t u : Cache RR × Refresher} → Same s t → Same t u → Same s u
Same-trans a b = record {
  same_config = a.same_config ∙ b.same_config;
  same_interval = a.same_interval ∙ b.same_interval;
  same_entry = λ j. a.same_entry j ∙ b.same_entry j;
  same_failure = λ j. a.same_failure j ∙ b.same_failure j;
}

-- A refresh of a cycle: the attempt and the entry
abbrev pub Refresh : Type 0 → Type 0 → Type 0
Refresh RR Err = Attempt RR Err × Entry RR

module _ {RR Err : Type 0} (dns : Dns RR) (zone : Instant → ℤ) (us : List Bytes) where
  -- The refreshes of a list, one after the other
  abbrev pub run : List (Refresh RR Err) → Cache RR × Refresher → Cache RR × Refresher
  run ps (c, rf) = refresh_all dns zone us (map (λ p. p.0) ps) (map (λ p. p.1) ps) c rf

  abbrev pub one : Refresh RR Err → Cache RR × Refresher → Cache RR × Refresher
  one (a, e) (c, rf) = refresh_entry dns zone us a e c rf

  -- The cache holds the entry's key.
  abbrev pub IsThere : Cache RR → Refresh RR Err → Type 0
  IsThere c p = (old : Entry RR) × (find (entry_key dns p.1) c ≡ some old)

  -- An order that comes from another by swaps of neighbours with different keys
  pub data Reorder : List (Refresh RR Err) → List (Refresh RR Err) → Type 0 where
    same_order : (ps : List (Refresh RR Err)) → Reorder ps ps
    keeps_first :
        (p : Refresh RR Err) {ps qs : List (Refresh RR Err)}
        → Reorder ps qs
        → Reorder (p ∷ ps) (p ∷ qs)
    swaps :
        (p q : Refresh RR Err) (ps : List (Refresh RR Err))
        → entry_key dns p.1 ≢ entry_key dns q.1
        → Reorder (p ∷ q ∷ ps) (q ∷ p ∷ ps)
    then_reorder :
        {ps qs rs : List (Refresh RR Err)} → Reorder ps qs → Reorder qs rs → Reorder ps rs

  Reorder-All :
      (P : Refresh RR Err → Type 0) {ps qs : List (Refresh RR Err)}
      → Reorder ps qs
      → All P ps
      → All P qs
  Reorder-All P (same_order ps) a = a
  Reorder-All P (keeps_first p r) a = (a.0, Reorder-All P r a.1)
  Reorder-All P (swaps p q ps ne) a = (a.1.0, (a.0, a.1.1))
  Reorder-All P (then_reorder r s) a = Reorder-All P s (Reorder-All P r a)

  pub one-IsThere :
      (p q : Refresh RR Err) (s : Cache RR × Refresher)
      → IsThere s.0 p
      → IsThere s.0 q
      → IsThere (one p s).0 q
  one-IsThere (a, e) (b, f) (c, rf) (old, there) (other, there') =
      elim (Bytes-discrete (entry_key dns e) (entry_key dns f)) [
        | yes same ↦
            subst (λ k. (x : Entry RR) × (find k (refresh_entry dns zone us a e c rf).0 ≡ some x))
              same (refresh_entry-present dns zone us a e c rf old there)
        | no ne ↦ (
          other,
          (refresh_entry-Effect dns zone us a e c rf old there).others (entry_key dns f) ne
              ∙ there',
        )
      ]

  pub one-All :
      (p : Refresh RR Err) (ps : List (Refresh RR Err)) (s : Cache RR × Refresher)
      → IsThere s.0 p
      → All (IsThere s.0) ps
      → All (IsThere (one p s).0) ps
  one-All p [] s h a = tt
  one-All p (q ∷ ps) s h a = (one-IsThere p q s h a.0, one-All p ps s h a.1)

  pub one-Same :
      (p : Refresh RR Err) (s t : Cache RR × Refresher)
      → IsThere s.0 p
      → Same s t
      → Same (one p s) (one p t)
  one-Same (a, e) (c, rf) (d, rg) (old, there) v =
      let there' = sym (v.same_entry (entry_key dns e)) ∙ there in
      let x = refresh_entry-Effect dns zone us a e c rf old there in
      let y = refresh_entry-Effect dns zone us a e d rg old there' in
      let own =
        refresh_entry-own dns zone us a e c d rf rg old there there' v.same_config v.same_interval
          (v.same_failure (entry_key dns e)) in
      record {
        same_config = x.same_config ∙ v.same_config ∙ sym y.same_config;
        same_interval = x.same_interval ∙ v.same_interval ∙ sym y.same_interval;
        same_entry = λ j. elim (Bytes-discrete (entry_key dns e) j) [
          | yes same ↦ rw (← same) own.0
          | no ne ↦ x.others j ne ∙ v.same_entry j ∙ sym (y.others j ne)
        ];
        same_failure = λ j. elim (Bytes-discrete (entry_key dns e) j) [
          | yes same ↦ rw (← same) own.1
          | no ne ↦ x.other_failures j ne ∙ v.same_failure j ∙ sym (y.other_failures j ne)
        ];
      }

  pub run-Same :
      (ps : List (Refresh RR Err)) (s t : Cache RR × Refresher)
      → All (IsThere s.0) ps
      → Same s t
      → Same (run ps s) (run ps t)
  unfolding refresh_all
  run-Same [] s t a v = v
  run-Same (p ∷ ps) s t a v =
      run-Same ps (one p s) (one p t) (one-All p ps s a.0 a.1) (one-Same p s t a.0 v)

  swap-Same :
      (p q : Refresh RR Err) (s : Cache RR × Refresher)
      → entry_key dns p.1 ≢ entry_key dns q.1
      → IsThere s.0 p
      → IsThere s.0 q
      → Same (one q (one p s)) (one p (one q s))
  swap-Same (a, e) (b, f) (c, rf) ne (old, there) (other, there') =
      let (f_old, f_there) = one-IsThere (a, e) (b, f) (c, rf) (old, there) (other, there') in
      let (e_old, e_there) = one-IsThere (b, f) (a, e) (c, rf) (other, there') (old, there) in
      let x = refresh_entry-Effect dns zone us a e c rf old there in
      let y = refresh_entry-Effect dns zone us b f c rf other there' in
      let xy =
        refresh_entry-Effect dns zone us b f (one (a, e) (c, rf)).0 (one (a, e) (c, rf)).1 f_old
          f_there in
      let yx =
        refresh_entry-Effect dns zone us a e (one (b, f) (c, rf)).0 (one (b, f) (c, rf)).1 e_old
          e_there in
      record {
        same_config = xy.same_config ∙ x.same_config ∙ sym (yx.same_config ∙ y.same_config);
        same_interval =
            xy.same_interval ∙ x.same_interval ∙ sym (yx.same_interval ∙ y.same_interval);
        same_entry = λ j. (both-order dns zone us a b e f c rf old other j ne there there').0;
        same_failure = λ j. (both-order dns zone us a b e f c rf old other j ne there there').1;
      }

  -- The refreshes of a cycle may take effect in any order that swaps refreshes of different keys,
  -- and so, when the entries have different keys, in any order at all: the caches and the failures
  -- that two orders leave cannot be told apart, whatever the upstream servers answer. (The cache
  -- holds the entries when the refreshes begin.)
  pub run_reordered-Same :
      {ps qs : List (Refresh RR Err)} (s : Cache RR × Refresher)
      → Reorder ps qs
      → All (IsThere s.0) ps
      → Same (run ps s) (run qs s)
  unfolding refresh_all
  run_reordered-Same s (same_order ps) a = Same-refl (run ps s)
  run_reordered-Same s (keeps_first p {ps} r) a =
      run_reordered-Same (one p s) r (one-All p ps s a.0 a.1)
  run_reordered-Same s (swaps p q ps ne) a =
      run-Same ps (one q (one p s)) (one p (one q s))
        (one-All q ps (one p s) (one-IsThere p q s a.0 a.1.0) (one-All p ps s a.0 a.1.1))
        (swap-Same p q s ne a.0 a.1.0)
  run_reordered-Same s (then_reorder r u) a =
      Same-trans (run_reordered-Same s r a) (run_reordered-Same s u (Reorder-All (IsThere s.0) r a))
