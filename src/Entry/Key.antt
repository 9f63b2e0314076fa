-- ===== src/Entry/Key.antt =====
-- The key of the cache's map (`Key` of cache/entry.go): the canonical name, a colon, the type.
use dns_cache.Prelude.{ℕ, ◌≡◌, ◌↔◌, ◌∷◌, ◌++◌}
use dns_cache.Prelude.Decimal.{Bytes, decimal, decimal-Lacks, decimal_injective, cut_unique}
use dns_cache.Dns.{Dns}

module _ {RR : Type 0} (dns : Dns RR) where
  open dns use {canonical_name, canonical_idem}

  unfoldable pub key : Bytes → ℕ → Bytes
  key name qtype = canonical_name name ++ (b':' ∷ decimal qtype)

  pub key_inv :
      (n m : Bytes) (a b : ℕ) → key n a ≡ key m b → (canonical_name n ≡ canonical_name m) × (a ≡ b)
  unfolding key
  key_inv n m a b e =
      let (p, q) =
        cut_unique b':' (canonical_name n) (canonical_name m) (decimal a) (decimal b)
          (decimal-Lacks a) (decimal-Lacks b) e in
      (p, decimal_injective a b q)

  -- Two questions share an entry of the cache exactly when their names have the same canonical
  -- form and their types are equal.
  pub key-eq_iff :
      (n m : Bytes) (a b : ℕ)
      → (key n a ≡ key m b) ↔ ((canonical_name n ≡ canonical_name m) × (a ≡ b))
  key-eq_iff n m a b = (key_inv n m a b, λ h. unfold key in cc (h.0, h.1))

  pub key-canonical_name : (n : Bytes) (a : ℕ) → key (canonical_name n) a ≡ key n a
  unfolding key
  key-canonical_name n a = cc (canonical_idem n)
