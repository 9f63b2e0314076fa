-- ===== src/Refresher/Prune.antt =====
-- What `pruneUnused` and `pruneFailures` leave.
pub mod Keeps
use mathlib.Core.List.{lookup}
use mathlib.Core.Logic.{if_pos, if_neg}
use dns_cache.Prelude.{
  ◌≡◌, ◌≢◌, refl, sym, ◌∙◌, arith, inl, inr, [], ◌∷◌, none, some, if◌then◌else◌, Bool-cases,
  Option-cases,
}
use dns_cache.Prelude.Assoc.{Distinct, lookup-remove_self, lookup-remove_ne}
use dns_cache.Prelude.Decimal.{Bytes, Bytes-discrete}
use dns_cache.Time.{Instant}
use dns_cache.Entry.{Entry}
use dns_cache.Cache.{Cache, find, delete}
use dns_cache.Refresher.{
  Refresher, Snapshot, Failures, failure_of, unused, prune_unused, prune_known, prune_failures,
}

module _ {RR : Type 0} where
  -- The cache after the loop's body for one entry of the snapshot
  abbrev pruned_one : Bytes → Entry RR → Instant → Cache RR → Cache RR
  pruned_one k e now c = if unused c.config e now then delete k c else c

  find-pruned_one_self :
      (k : Bytes) (e : Entry RR) (now : Instant) (c : Cache RR)
      → find k (pruned_one k e now c) ≡ (if unused c.config e now then none else find k c)
  unfolding delete
  find-pruned_one_self k e now c = elim (Bool-cases (unused c.config e now)) [
    | inl old ↦ rw old (lookup-remove_self Bytes-discrete k c.entries)
    | inr good ↦ rw good refl
  ]

  find-pruned_one_ne :
      (j k : Bytes) (e : Entry RR) (now : Instant) (c : Cache RR)
      → j ≢ k
      → find k (pruned_one j e now c) ≡ find k c
  unfolding delete
  find-pruned_one_ne j k e now c ne = elim (Bool-cases (unused c.config e now)) [
    | inl old ↦ rw old (lookup-remove_ne Bytes-discrete j k c.entries ne)
    | inr good ↦ rw good refl
  ]

  config-pruned_one :
      (k : Bytes) (e : Entry RR) (now : Instant) (c : Cache RR)
      → (pruned_one k e now c).config ≡ c.config
  unfolding delete
  config-pruned_one k e now c = elim (Bool-cases (unused c.config e now)) [
    | inl old ↦ rw old refl
    | inr good ↦ rw good refl
  ]

  -- A key that is not in the snapshot keeps its entry.
  prune_unused-absent :
      (snapshot : Snapshot RR) (now : Instant) (c : Cache RR) (k : Bytes)
      → lookup Bytes-discrete k snapshot ≡ none
      → find k (prune_unused snapshot now c) ≡ find k c
  unfolding prune_unused lookup
  prune_unused-absent [] now c k h = refl
  prune_unused-absent ((j, e) ∷ rest) now c k h = elim (Bytes-discrete k j) [
    | yes p ↦ absurd (ground arith)
    | no p ↦
        prune_unused-absent rest now (pruned_one j e now c) k (ground arith)
        ∙ find-pruned_one_ne j k e now c (λ same. p (sym same))
  ]

  prune_unused-present :
      (snapshot : Snapshot RR) (now : Instant) (c : Cache RR) (k : Bytes) (e : Entry RR)
      → Distinct Bytes-discrete snapshot
      → lookup Bytes-discrete k snapshot ≡ some e
      → find k (prune_unused snapshot now c) ≡ (if unused c.config e now then none else find k c)
  unfolding prune_unused lookup
  prune_unused-present [] now c k e d h = absurd (ground arith)
  prune_unused-present ((j, w) ∷ rest) now c k e d h = elim (Bytes-discrete k j) [
    | yes p ↦
        let same : w ≡ e = ground arith in
        prune_unused-absent rest now (pruned_one j w now c) k (rw p d.0)
        ∙ rw (p, same) (find-pruned_one_self j e now c)
    | no p ↦
        prune_unused-present rest now (pruned_one j w now c) k e d.1 (ground arith)
        ∙ rw (config-pruned_one j w now c, find-pruned_one_ne j k w now c (λ same. p (sym same)))
            refl
  ]

  -- After `pruneUnused` over a snapshot that holds what the cache holds, exactly the entries are
  -- gone that are expired and were last asked for longer ago than the window of the days of use;
  -- every other entry is found as before.
  pub prune_unused-finds :
      (snapshot : Snapshot RR) (now : Instant) (c : Cache RR) (k : Bytes)
      → Distinct Bytes-discrete snapshot
      → ((j : Bytes) → lookup Bytes-discrete j snapshot ≡ find j c)
      → find k (prune_unused snapshot now c)
        ≡ elim (find k c) [ none ↦ none | some e ↦ if unused c.config e now then none else some e ]
  prune_unused-finds snapshot now c k d held = elim (Option-cases (find k c)) [
    | inl absent ↦ prune_unused-absent snapshot now c k (held k ∙ absent) ∙ rw absent refl
    | inr (e, found) ↦ prune_unused-present snapshot now c k e d (held k ∙ found) ∙ rw found refl
  ]

  prune_known-absent :
      (snapshot : Snapshot RR) (k : Bytes) (fs : Failures)
      → lookup Bytes-discrete k snapshot ≡ none
      → failure_of k (prune_known snapshot fs) ≡ none
  unfolding lookup
  prune_known-absent snapshot k [] h = refl
  prune_known-absent snapshot k ((j, f) ∷ fs) h =
      let rest = prune_known-absent snapshot k fs h in
      elim (Option-cases (lookup Bytes-discrete j snapshot)) [
        | inl absent ↦ rw (prune_known, absent) rest
        | inr (e, found) ↦ elim (Bytes-discrete k j) [
          | yes p ↦ let clash : none ≡ some e = sym (rw p at h) ∙ found in absurd (ground arith)
          | no p ↦ rw (prune_known, found) (if_neg (Bytes-discrete k j) p _ _ ∙ rest)
        ]
      ]

  prune_known-present :
      (snapshot : Snapshot RR) (k : Bytes) (e : Entry RR) (fs : Failures)
      → lookup Bytes-discrete k snapshot ≡ some e
      → failure_of k (prune_known snapshot fs) ≡ failure_of k fs
  unfolding lookup
  prune_known-present snapshot k e [] h = refl
  prune_known-present snapshot k e ((j, f) ∷ fs) h =
      let rest = prune_known-present snapshot k e fs h in
      elim (Bytes-discrete k j) [
        | yes p ↦
            let found = rw p at h in
            rw (prune_known, found)
              (if_pos (Bytes-discrete k j) p _ _ ∙ sym (if_pos (Bytes-discrete k j) p _ _))
        | no p ↦ elim (Option-cases (lookup Bytes-discrete j snapshot)) [
          | inl absent ↦ rw (prune_known, absent) (rest ∙ sym (if_neg (Bytes-discrete k j) p _ _))
          | inr (e', found) ↦
              rw (prune_known, found)
                (if_neg (Bytes-discrete k j) p _ _ ∙ rest ∙ sym (if_neg (Bytes-discrete k j) p _ _))
        ]
      ]

  pub prune_known-none :
      (snapshot : Snapshot RR) (k : Bytes) (fs : Failures)
      → failure_of k fs ≡ none
      → failure_of k (prune_known snapshot fs) ≡ none
  prune_known-none snapshot k fs h = elim (Option-cases (lookup Bytes-discrete k snapshot)) [
    | inl absent ↦ prune_known-absent snapshot k fs absent
    | inr (e, found) ↦ prune_known-present snapshot k e fs found ∙ h
  ]

  -- After `pruneFailures` the failures of the keys in the snapshot are as before, and no other key
  -- has any.
  pub prune_failures-finds :
      (snapshot : Snapshot RR) (rf : Refresher) (k : Bytes)
      → failure_of k (prune_failures snapshot rf).failures
        ≡ elim (lookup Bytes-discrete k snapshot) [
          | none ↦ none
          | some e ↦ failure_of k rf.failures
        ]
  unfolding prune_failures
  prune_failures-finds snapshot rf k = elim (Option-cases (lookup Bytes-discrete k snapshot)) [
    | inl absent ↦ rw absent (prune_known-absent snapshot k rf.failures absent)
    | inr (e, found) ↦ rw found (prune_known-present snapshot k e rf.failures found)
  ]
