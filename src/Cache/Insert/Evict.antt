-- ===== src/Cache/Insert/Evict.antt =====
-- Which entry `evictOne` deletes.
use dns_cache.Prelude.{
  ℕ, zero, suc, ◌+◌, ◌≤◌, ◌<◌, ◌≡◌, ◌≢◌, refl, sym, arith, true, false, ◌||◌, inl, inr, List, [],
  ◌∷◌, some, leb, min, length, take, All, In, Bool-cases, ltb→lt, ◌∙◌, ℕ_discrete, if◌then◌else◌,
}
use dns_cache.Prelude.Decimal.{Bytes}
use dns_cache.Prelude.Int.{ℤ, ltb_ℤ, ◌≤ℤ◌, ◌<ℤ◌}
use dns_cache.Time.{Instant}
use dns_cache.Entry.{Entry}
use dns_cache.Cache.Insert.{long_expired, evict_scan, evict_end, sample_size}

pub evict_end_named : (k : Bytes) → k ≢ [] → evict_end k ≡ some k
evict_end_named [] h = absurd (h refl)
evict_end_named (b ∷ k) h = refl

module _ {RR : Type 0} where
  -- The key `k` is the loop's choice from the entries in `seen`, started at `key` and `oldest`.
  pub data Chosen (now : Instant) (seen : List (Bytes × Entry RR)) (key : Bytes) (oldest : ℤ)
      (k : Bytes) : Type 0 where
    dead :
        (v : Entry RR) → In (k, v) seen → long_expired now v ≡ true → Chosen now seen key oldest k
    kept : k ≡ key → All (λ e. oldest ≤ℤ e.1.last_hit_at) seen → Chosen now seen key oldest k
    least :
        (v : Entry RR)
        → In (k, v) seen
        → v.last_hit_at <ℤ oldest
        → All (λ e. v.last_hit_at ≤ℤ e.1.last_hit_at) seen
        → Chosen now seen key oldest k

  -- The choice from the rest extends to the entry before it.
  Chosen-older :
      {now : Instant} {seen : List (Bytes × Entry RR)} {key : Bytes} {oldest : ℤ} {k : Bytes}
      (k0 : Bytes) (v0 : Entry RR)
      → v0.last_hit_at <ℤ oldest
      → Chosen now seen k0 v0.last_hit_at k
      → Chosen now ((k0, v0) ∷ seen) key oldest k
  Chosen-older k0 v0 h (dead v m d) = dead v (inr m) d
  Chosen-older k0 v0 h (kept e a) = least v0 (inl (cc e)) h (omega arith, a)
  Chosen-older k0 v0 h (least v m l a) = least v (inr m) (omega arith) (omega arith, a)

  Chosen-younger :
      {now : Instant} {seen : List (Bytes × Entry RR)} {key : Bytes} {oldest : ℤ} {k : Bytes}
      (k0 : Bytes) (v0 : Entry RR)
      → oldest ≤ℤ v0.last_hit_at
      → Chosen now seen key oldest k
      → Chosen now ((k0, v0) ∷ seen) key oldest k
  Chosen-younger k0 v0 h (dead v m d) = dead v (inr m) d
  Chosen-younger k0 v0 h (kept e a) = kept e (h, a)
  Chosen-younger k0 v0 h (least v m l a) = least v (inr m) l (omega arith, a)

  module _ (now : Instant) (n : ℕ) (k0 : Bytes) (v0 : Entry RR) (key : Bytes) (oldest : ℤ) where
    abbrev key_after : Bytes
    key_after = if ltb_ℤ v0.last_hit_at oldest then k0 else key

    abbrev oldest_after : ℤ
    oldest_after = if ltb_ℤ v0.last_hit_at oldest then v0.last_hit_at else oldest

    Chosen-first : Chosen now ((k0, v0) ∷ []) key oldest key_after
    Chosen-first = elim (Bool-cases (ltb_ℤ v0.last_hit_at oldest)) [
      | inl e ↦ rw e (least v0 (inl refl) (ltb→lt _ _ e) (omega arith, tt))
      | inr e ↦ rw e (kept refl (ground arith, tt))
    ]

    Chosen-step :
        {seen : List (Bytes × Entry RR)} {k : Bytes}
        → Chosen now seen key_after oldest_after k
        → Chosen now ((k0, v0) ∷ seen) key oldest k
    Chosen-step {seen} {k} = elim (Bool-cases (ltb_ℤ v0.last_hit_at oldest)) [
      | inl e ↦ rw e (λ c. Chosen-older k0 v0 (ltb→lt _ _ e) c)
      | inr e ↦ rw e (λ c. Chosen-younger k0 v0 (ground arith) c)
    ]

    module _ (rest : List (Bytes × Entry RR)) (count : ℕ) where
      scan_dead :
          long_expired now v0 ≡ true → evict_scan now n ((k0, v0) ∷ rest) key oldest count ≡ some k0
      unfolding evict_scan
      scan_dead d = rw d

      scan_stop :
          long_expired now v0 ≡ false
          → (leb sample_size (count + 1) || leb n (count + 1)) ≡ true
          → evict_scan now n ((k0, v0) ∷ rest) key oldest count ≡ evict_end key_after
      unfolding evict_scan
      scan_stop d s = rw (d, s)

      scan_more :
          long_expired now v0 ≡ false
          → (leb sample_size (count + 1) || leb n (count + 1)) ≡ false
          → evict_scan now n ((k0, v0) ∷ rest) key oldest count
            ≡ evict_scan now n rest key_after oldest_after (count + 1)
      unfolding evict_scan
      scan_more d s = rw (d, s)

  Chosen-cons :
      (now : Instant) (n left : ℕ) (k0 : Bytes) (v0 : Entry RR) (rest : List (Bytes × Entry RR))
      (key : Bytes) (oldest : ℤ) (count : ℕ)
      → k0 ≢ []
      → suc left + count ≡ min sample_size n
      → (0 < left
          → (k : Bytes) × (evict_scan now n rest
                (key_after now n k0 v0 key oldest)
                (oldest_after now n k0 v0 key oldest)
                (count + 1)
              ≡ evict_end k)
            × Chosen now
                (take left rest)
                (key_after now n k0 v0 key oldest)
                (oldest_after now n k0 v0 key oldest)
                k)
      → (k : Bytes) × (evict_scan now n ((k0, v0) ∷ rest) key oldest count ≡ evict_end k)
        × Chosen now (take (suc left) ((k0, v0) ∷ rest)) key oldest k
  Chosen-cons now n left k0 v0 rest key oldest count named e later =
      elim (Bool-cases (long_expired now v0)) [
        | inl d ↦ (
          k0,
          scan_dead now n k0 v0 key oldest rest count d ∙ sym (evict_end_named k0 named),
          dead v0 (inl refl) d,
        )
        | inr d ↦ elim (ℕ_discrete left 0) [
          | yes stop ↦ (
            key_after now n k0 v0 key oldest,
            scan_stop now n k0 v0 key oldest rest count d (ground arith),
            rw stop (Chosen-first now n k0 v0 key oldest),
          )
          | no more ↦
              let (k, eq, c) = later (omega arith) in
              (
                k,
                scan_more now n k0 v0 key oldest rest count d (ground arith) ∙ eq,
                Chosen-step now n k0 v0 key oldest c,
              )
        ]
      ]

  -- The loop looks at the entries up to its limit and chooses among them.
  pub evict_scan-Chosen :
      (now : Instant) (n left : ℕ) (range : List (Bytes × Entry RR)) (key : Bytes) (oldest : ℤ)
      (count : ℕ)
      → All (λ e. e.0 ≢ []) range
      → left + count ≡ min sample_size n
      → left ≤ length range
      → 0 < left
      → (k : Bytes) × (evict_scan now n range key oldest count ≡ evict_end k)
        × Chosen now (take left range) key oldest k
  evict_scan-Chosen now n zero range key oldest count named e h p = absurd (omega arith)
  evict_scan-Chosen now n (suc left) [] key oldest count named e h p = absurd (omega arith)
  evict_scan-Chosen now n (suc left) ((k0, v0) ∷ rest) key oldest count named e h p =
      Chosen-cons now n left k0 v0 rest key oldest count named.0 e (
        evict_scan-Chosen now n left rest (key_after now n k0 v0 key oldest)
          (oldest_after now n k0 v0 key oldest) (count + 1) named.1 (omega arith) (omega arith))
