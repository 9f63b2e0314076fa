-- ===== src/Cache/Insert/Order.antt =====
-- When the order in which `evictOne` meets the entries does not matter.
use mathlib.Core.List.{lookup}
use mathlib.Core.Option
use mathlib.Core.Path.{subst}
use dns_cache.Prelude.{
  ℕ, zero, suc, ◌≤◌, ◌<◌, ◌≡◌, ◌≢◌, refl, sym, ap, ◌∙◌, arith, false, inl, inr, List, [], ◌∷◌, none,
  some, length, take, All, In, All-In, Option-cases,
}
use dns_cache.Prelude.Assoc.{
  Distinct, remove, remove-Distinct, length-remove, lookup-remove_ne, lookup-In,
}
use dns_cache.Prelude.Decimal.{Bytes, Bytes-discrete}
use dns_cache.Prelude.Int.{ℤ, ◌≤ℤ◌, ◌<ℤ◌}
use dns_cache.Time.{Instant}
use dns_cache.Entry.{Entry}
use dns_cache.Cache.Insert.{evict_one, long_expired, max_int64, sample_size}
use dns_cache.Cache.Insert.Size.{All-range}
use dns_cache.Cache.Insert.Victim.{IsRange, Evicted, evict_one-Evicted}

abbrev Pairs : Type 0 → Type 0
Pairs V = List (Bytes × V)

abbrev AllFound : {V : Type 0} → Pairs V → Pairs V → Type 0
AllFound entries range = All (λ e. lookup Bytes-discrete e.0 entries ≡ some e.1) range

AllFound-remove :
    {V : Type 0} (k : Bytes) (entries range : Pairs V)
    → lookup Bytes-discrete k range ≡ none
    → AllFound entries range
    → AllFound (remove Bytes-discrete k entries) range
unfolding lookup
AllFound-remove k entries [] absent a = tt
AllFound-remove k entries ((j, w) ∷ range) absent a = elim (Bytes-discrete k j) [
  | yes p ↦ absurd (ground arith)
  | no p ↦ (
    lookup-remove_ne Bytes-discrete k j entries p ∙ a.0,
    AllFound-remove k entries range (ground arith) a.1,
  )
]

-- A map has at least as many entries as a list of its entries with different keys.
length-AllFound :
    {V : Type 0} (entries range : Pairs V)
    → Distinct Bytes-discrete entries
    → Distinct Bytes-discrete range
    → AllFound entries range
    → length range ≤ length entries
length-AllFound entries [] d once a = omega arith
length-AllFound entries ((k, v) ∷ range) d once a = omega (
  arith,
  length-remove Bytes-discrete k v entries d a.0,
  length-AllFound (remove Bytes-discrete k entries) range
      (remove-Distinct Bytes-discrete k entries d) once.1
      (AllFound-remove k entries range once.0 a.1),
)

le_antisym_ℤ : (a b : ℤ) → a ≤ℤ b → b ≤ℤ a → a ≡ b
le_antisym_ℤ a b h k = ground arith

take_short : {A : Type 0} (n : ℕ) (l : List A) → length l ≤ n → take n l ≡ l
take_short zero [] h = refl
take_short (suc n) [] h = refl
take_short zero (x ∷ l) h = absurd (omega (arith, h))
take_short (suc n) (x ∷ l) h = ap (λ r. x ∷ r) (take_short n l (omega (arith, h)))

module _ {RR : Type 0} where
  -- A range over all the entries meets every one of them.
  IsRange-meets :
      (range entries : List (Bytes × Entry RR)) (k : Bytes) (e : Entry RR)
      → Distinct Bytes-discrete entries
      → IsRange range entries
      → lookup Bytes-discrete k entries ≡ some e
      → In (k, e) range
  IsRange-meets range entries k e d r found = elim (Option-cases (lookup Bytes-discrete k range)) [
    | inl absent ↦ absurd (
        omega (
          arith,
          r.complete,
          length-AllFound entries ((k, e) ∷ range) d (absent, r.once) (found, r.found),
        ))
    | inr (e', met) ↦
        let inside = lookup-In Bytes-discrete k e' range met in
        let own =
          All-In (λ x. lookup Bytes-discrete x.0 entries ≡ some x.1) (k, e') range r.found inside in
        let same : e' ≡ e = Option.some-injective _ _ (sym own ∙ found) in
        subst (λ x. In (k, x) range) same inside
  ]

  module _ (now : Instant) (entries : List (Bytes × Entry RR))
      (distinct : Distinct Bytes-discrete entries) (named : All (λ e. e.0 ≢ []) entries)
      (recent : All (λ e. e.1.last_hit_at <ℤ max_int64) entries)
      (alive : (k : Bytes) (e : Entry RR) → In (k, e) entries → long_expired now e ≡ false)
      (apart : (j k : Bytes) (d e : Entry RR)
        → In (j, d) entries
        → In (k, e) entries
        → d.last_hit_at ≡ e.last_hit_at
        → j ≡ k)
      (few : length entries ≤ sample_size) (some_entries : 0 < length entries) where
    evicts : (range : List (Bytes × Entry RR)) → IsRange range entries → Evicted now range entries
    evicts range r =
        evict_one-Evicted now range entries distinct r
          (All-range (λ e. e.0 ≢ []) range entries r.found named)
          (All-range (λ e. e.1.last_hit_at <ℤ max_int64) range entries r.found recent) some_entries

    -- The entry that goes is the one asked for least recently of all.
    evicts-oldest :
        (range : List (Bytes × Entry RR)) (r : IsRange range entries) (k : Bytes) (e : Entry RR)
        → lookup Bytes-discrete k entries ≡ some e
        → (evicts range r).entry.last_hit_at ≤ℤ e.last_hit_at
    evicts-oldest range r k e found =
        let gone = evicts range r in
        elim gone.reason [
          | inl dead ↦
              let fresh =
                alive gone.key gone.entry
                  (lookup-In Bytes-discrete gone.key gone.entry entries gone.stored) in
              let clash = sym dead ∙ fresh in absurd (ground arith)
          | inr least ↦
              let whole = take_short sample_size range (omega (arith, few, r.complete)) in
              All-In (λ x. gone.entry.last_hit_at ≤ℤ x.1.last_hit_at) (k, e) range
                (subst (λ l. All (λ x. gone.entry.last_hit_at ≤ℤ x.1.last_hit_at) l) whole least)
                (IsRange-meets range entries k e distinct r found)
        ]

    -- In a cache of at most eight entries, none expired for over 24 hours and no two asked for at
    -- the same moment, `evictOne` does the same in whatever order it meets the entries: it deletes
    -- the one asked for least recently.
    pub evict_one-order :
        (range other : List (Bytes × Entry RR))
        → IsRange range entries
        → IsRange other entries
        → evict_one now range entries ≡ evict_one now other entries
    evict_one-order range other r o =
        let a = evicts range r in
        let b = evicts other o in
        let same =
          apart a.key b.key a.entry b.entry
            (lookup-In Bytes-discrete a.key a.entry entries a.stored)
            (lookup-In Bytes-discrete b.key b.entry entries b.stored)
            (le_antisym_ℤ _ _ (evicts-oldest range r b.key b.entry b.stored)
              (evicts-oldest other o a.key a.entry a.stored)) in
        a.removed ∙ ap (λ k. remove Bytes-discrete k entries) same ∙ sym b.removed
