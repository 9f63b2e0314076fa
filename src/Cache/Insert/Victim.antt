-- ===== src/Cache/Insert/Victim.antt =====
-- `evictOne` deletes one entry, a dead one or the least recently asked of its sample.
use dns_cache.Prelude.{
  ℕ, zero, suc, ◌+◌, ◌<◌, ◌≡◌, ◌≢◌, arith, true, ◌⊎◌, inl, inr, List, [], ◌∷◌, some, min, length,
  take, All, In, All-take, length-take, ◌∙◌, ap, In-take, All-In,
}
use mathlib.Core.List.{lookup}
use dns_cache.Prelude.Assoc.{Distinct, remove, length-remove}
use dns_cache.Prelude.Decimal.{Bytes, Bytes-discrete}
use dns_cache.Prelude.Int.{◌≤ℤ◌, ◌<ℤ◌}
use dns_cache.Time.{Instant}
use dns_cache.Entry.{Entry}
use dns_cache.Cache.Insert.{long_expired, evict_end, victim, evict_one, max_int64, sample_size}
use dns_cache.Cache.Insert.Evict.{Chosen, dead, kept, least, evict_scan-Chosen, evict_end_named}

-- An order in which a loop over the map may meet its entries: each one once.
pub record IsRange {RR : Type 0} (range entries : List (Bytes × Entry RR)) : Type 0 where
  pub once : Distinct Bytes-discrete range
  pub found : All (λ e. lookup Bytes-discrete e.0 entries ≡ some e.1) range
  pub complete : length range ≡ length entries

-- What `evictOne` does to a map that is not empty.
pub record Evicted {RR : Type 0} (now : Instant) (range entries : List (Bytes × Entry RR))
    : Type 0 where
  pub key : Bytes
  pub entry : Entry RR
  pub chosen : victim now range entries ≡ some key
  pub stored : lookup Bytes-discrete key entries ≡ some entry
  pub removed : evict_one now range entries ≡ remove Bytes-discrete key entries
  pub one_less : length (evict_one now range entries) + 1 ≡ length entries
  pub reason :
      (long_expired now entry ≡ true)
      ⊎ All (λ e. entry.last_hit_at ≤ℤ e.1.last_hit_at) (take sample_size range)

module _ {RR : Type 0} where
  take-min : (n : ℕ) (l : List (Bytes × Entry RR)) → take (min n (length l)) l ≡ take n l
  take-min zero l = let e : min 0 (length l) ≡ 0 = omega arith in rw e
  take-min (suc n) [] = let e : min (suc n) 0 ≡ 0 = omega arith in rw e
  take-min (suc n) (x ∷ l) =
      let e : min (suc n) (suc (length l)) ≡ suc (min n (length l)) = omega arith in
      rw e (ap (◌∷◌ x) (take-min n l))

  Chosen-In :
      {now : Instant} {seen : List (Bytes × Entry RR)} {k : Bytes}
      → All (λ e. e.1.last_hit_at <ℤ max_int64) seen
      → 0 < length seen
      → Chosen now seen [] max_int64 k
      → (v : Entry RR) × In (k, v) seen
        × ((long_expired now v ≡ true) ⊎ All (λ e. v.last_hit_at ≤ℤ e.1.last_hit_at) seen)
  Chosen-In r p (dead v m d) = (v, m, inl d)
  Chosen-In {seen = []} r p (kept e a) = absurd (omega arith)
  Chosen-In {seen = x ∷ seen} r p (kept e a) = absurd (omega arith)
  Chosen-In r p (least v m l a) = (v, m, inr a)

  module _ (now : Instant) (range entries : List (Bytes × Entry RR)) where
    Evicted-of_found :
        (k : Bytes) (v : Entry RR)
        → Distinct Bytes-discrete entries
        → k ≢ []
        → victim now range entries ≡ evict_end k
        → lookup Bytes-discrete k entries ≡ some v
        → (long_expired now v ≡ true)
          ⊎ All (λ e. v.last_hit_at ≤ℤ e.1.last_hit_at) (take sample_size range)
        → Evicted now range entries
    unfolding evict_one
    Evicted-of_found k v d named c found why =
        let chosen : victim now range entries ≡ some k = c ∙ evict_end_named k named in
        record {
          key = k;
          entry = v;
          chosen = chosen;
          stored = found;
          removed = rw (chosen, evict_one);
          one_less = rw (chosen, evict_one) (length-remove Bytes-discrete k v entries d found);
          reason = why;
        }

    -- The loop chooses from the first eight entries that it meets.
    victim-Chosen :
        All (λ e. e.0 ≢ []) range
        → length range ≡ length entries
        → 0 < length entries
        → (k : Bytes) × (victim now range entries ≡ evict_end k)
          × Chosen now (take sample_size range) [] max_int64 k
    unfolding victim
    victim-Chosen named complete p =
        let limit : ℕ = min sample_size (length entries) in
        let same : take limit range ≡ take sample_size range =
          rw (← complete) (take-min sample_size range) in
        let (k, eq, c) =
          evict_scan-Chosen now (length entries) limit range [] max_int64 0 named (omega arith)
            (omega arith) (omega arith) in
        (k, eq, rw same at c)

    -- On a map that is not empty, whose keys are not empty and whose entries were last asked for
    -- before the end of int64, `evictOne` deletes exactly one entry, in whatever order it meets
    -- them: one that expired over 24 hours ago, or one that no entry among the first eight met was
    -- asked for less recently than.
    pub evict_one-Evicted :
        Distinct Bytes-discrete entries
        → IsRange range entries
        → All (λ e. e.0 ≢ []) range
        → All (λ e. e.1.last_hit_at <ℤ max_int64) range
        → 0 < length entries
        → Evicted now range entries
    evict_one-Evicted d r named recent p =
        let (k, eq, c) = victim-Chosen named r.complete p in
        let (v, m, why) =
          Chosen-In (All-take _ sample_size range recent)
            (omega (arith, r.complete, length-take sample_size range)) c in
        let inside : In (k, v) range = In-take sample_size (k, v) range m in
        Evicted-of_found k v d (All-In (λ e. e.0 ≢ []) (k, v) range named inside) eq
          (All-In (λ e. lookup Bytes-discrete e.0 entries ≡ some e.1) (k, v) range r.found inside)
          why
