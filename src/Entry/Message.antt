-- ===== src/Entry/Message.antt =====
-- `CopyAndSetTTL` of cache/entry.go.
use dns_cache.Prelude.{
  ℕ, ◌≡◌, refl, ap, arith, ◌⊎◌, inl, inr, List, [], ◌∷◌, All, keep, ◌==◌, map, if◌then◌else◌,
  Bool-cases,
}
use dns_cache.Dns.{Dns, Msg, type_opt}

module _ {RR : Type 0} (dns : Dns RR) where
  open dns use {copy, copy_same, ttl, rrtype, set_ttl, ttl-set_ttl, rrtype-set_ttl}

  -- The loop's body for the additional section: an OPT record keeps its flags.
  set_extra_ttl : ℕ → RR → RR
  set_extra_ttl t r = if rrtype r == type_opt then r else set_ttl t r

  unfoldable pub copy_and_set_ttl : Msg RR → ℕ → Msg RR
  unfolding set_extra_ttl
  copy_and_set_ttl msg t =
      let m = copy msg in
      record m {
        answer = map (set_ttl t) m.answer;
        ns = map (set_ttl t) m.ns;
        extra = map (set_extra_ttl t) m.extra;
      }

  -- The record's TTL is the given one, or it is an OPT record and has kept its own.
  abbrev pub HasTtl : ℕ → RR → Type 0
  HasTtl t r = (rrtype r ≡ type_opt) ⊎ (ttl r ≡ t)

  set_ttl-All : (t : ℕ) (rrs : List RR) → All (HasTtl t) (map (set_ttl t) rrs)
  set_ttl-All t [] = tt
  set_ttl-All t (r ∷ rrs) = (inr (ttl-set_ttl t r), set_ttl-All t rrs)

  set_extra_ttl-All :
      (t : ℕ) (rrs : List RR)
      → All (HasTtl t) (map (set_extra_ttl t) rrs)
        × (keep (λ r. rrtype r == type_opt) (map (set_extra_ttl t) rrs)
            ≡ keep (λ r. rrtype r == type_opt) rrs)
  unfolding set_extra_ttl
  set_extra_ttl-All t [] = (tt, refl)
  set_extra_ttl-All t (r ∷ rrs) =
      let (same, kept) = set_extra_ttl-All t rrs in
      elim (Bool-cases (rrtype r == type_opt)) [
        | inl opt ↦ rw (opt, opt) ((inl (ground arith), same), ap (λ l. r ∷ l) kept)
        | inr other ↦ rw (other, rrtype-set_ttl t r, other) ((inr (ttl-set_ttl t r), same), kept)
      ]

  -- `CopyAndSetTTL` gives every record of the three sections the TTL, except that the OPT records
  -- stay as they are, all of them and in order; it keeps the code and the question.
  pub copy_and_set_ttl-All :
      (msg : Msg RR) (t : ℕ)
      → let m = copy_and_set_ttl msg t in
        All (HasTtl t) m.answer
        × All (HasTtl t) m.ns
        × All (HasTtl t) m.extra
        × (keep (λ r. rrtype r == type_opt) m.extra ≡ keep (λ r. rrtype r == type_opt) msg.extra)
        × (m.rcode ≡ msg.rcode)
        × (m.question ≡ msg.question)
  unfolding copy_and_set_ttl
  copy_and_set_ttl-All msg t =
      let (same, kept) = set_extra_ttl-All t msg.extra in
      simp (copy_same msg) (set_ttl-All t msg.answer, set_ttl-All t msg.ns, same, kept, refl, refl)
