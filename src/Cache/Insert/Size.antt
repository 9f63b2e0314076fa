-- ===== src/Cache/Insert/Size.antt =====
-- `Set` keeps the invariant and the bound on the number of entries.
use dns_cache.Prelude.{
  ℕ, ◌+◌, ◌-◌, ◌^◌, ◌≤◌, ◌<◌, ◌≡◌, ◌≢◌, refl, sym, arith, Bool, true, false, inl, inr, ◌∙◌, List,
  [], ◌∷◌, ◌++◌, none, some, length, All, Option-cases, if◌then◌else◌, ℕ_discrete,
}
use mathlib.Core.List.{lookup}
use dns_cache.Prelude.Assoc.{
  remove-Distinct, All-remove, All-lookup, lookup-remove-none, length-store_new, length-remove-le,
  length-store_old,
}
use dns_cache.Prelude.Decimal.{Bytes, Bytes-discrete}
use dns_cache.Prelude.Int.{ℤ, pos, ◌<ℤ◌, ◌≤ℤ◌, leb_ℤ, max_ℤ}
use dns_cache.Time.{Instant}
use dns_cache.Dns.{Dns, Msg}
use dns_cache.Entry.{Entry}
use dns_cache.Entry.Key.{key}
use dns_cache.Cache.{Cache, find}
use dns_cache.Cache.Insert.{entry_key, max_int64, fresh_entry, set, victim, evict_one}
use dns_cache.Cache.Insert.Victim.{IsRange, Evicted, evict_one-Evicted}
use dns_cache.Cache.Invariant.{IsWell, IsValid, assign-IsValid}

append-ne-nil : (s t : Bytes) (b : ℕ) → s ++ b ∷ t ≢ []
append-ne-nil [] t b e = cc
append-ne-nil (x ∷ s) t b e = cc

pub All-range :
    {RR : Type 0} (P : Bytes × Entry RR → Type 0) (range m : List (Bytes × Entry RR))
    → All (λ e. lookup Bytes-discrete e.0 m ≡ some e.1) range
    → All P m
    → All P range
All-range P [] m f a = tt
All-range P ((k, v) ∷ range) m f a =
    (All-lookup Bytes-discrete P k v m a f.0, All-range P range m f.1 a)

module _ {RR : Type 0} (dns : Dns RR) where
  key-ne-nil : (n : Bytes) (t : ℕ) → key dns n t ≢ []
  unfolding key
  key-ne-nil n t = append-ne-nil (dns.canonical_name n) _ b':'

  -- What holds of the entries of a map holds of any range over it.
  All-map :
      (P Q : Bytes × Entry RR → Type 0) (l : List (Bytes × Entry RR))
      → ((e : Bytes × Entry RR) → P e → Q e)
      → All P l
      → All Q l
  All-map P Q [] f a = tt
  All-map P Q (x ∷ l) f a = (f x a.0, All-map P Q l f a.1)

  -- In a valid cache that is not empty the eviction takes one entry away.
  pub evict-IsValid :
      (now : Instant) (range : List (Bytes × Entry RR)) (c : Cache RR)
      → IsValid dns c
      → IsRange range c.entries
      → 0 < length c.entries
      → Evicted now range c.entries
  evict-IsValid now range c v r p =
      let well = All-range (IsWell dns) range c.entries r.found v.well in
      evict_one-Evicted now range c.entries v.distinct r
        (All-map (IsWell dns) (λ e. e.0 ≢ []) range
          (λ e w h. key-ne-nil e.1.question_name e.1.question_type (sym w.0 ∙ h)) well)
        (All-map (IsWell dns) (λ e. e.1.last_hit_at <ℤ max_int64) range (λ e w. w.2) well) p

  room-IsValid :
      (now : Instant) (range : List (Bytes × Entry RR)) (b : Bool) (c : Cache RR)
      → IsValid dns c
      → IsValid dns (record c { entries = if b then evict_one now range c.entries else c.entries })
  unfolding evict_one
  room-IsValid now range false c v = record {
    distinct = v.distinct;
    well = v.well;
    slots = v.slots;
  }
  room-IsValid now range true c v = elim (Option-cases (victim now range c.entries)) [
    | inl nothing ↦
        rw (nothing, evict_one) (record { distinct = v.distinct; well = v.well; slots = v.slots })
    | inr (k, some_key) ↦
        rw (some_key, evict_one)
          (record {
            distinct = remove-Distinct Bytes-discrete k c.entries v.distinct;
            well = All-remove Bytes-discrete (IsWell dns) k c.entries v.well;
            slots = v.slots;
          })
  ]

  module _ (now : Instant) (range : List (Bytes × Entry RR)) where
    room-absent :
        (k : Bytes) (c : Cache RR) (b : Bool)
        → find k c ≡ none
        → lookup Bytes-discrete k (if b then evict_one now range c.entries else c.entries) ≡ none
    unfolding evict_one
    room-absent k c false h = h
    room-absent k c true h = elim (Option-cases (victim now range c.entries)) [
      | inl nothing ↦ rw (nothing, evict_one) h
      | inr (j, some_key) ↦
          rw (some_key, evict_one) (lookup-remove-none Bytes-discrete j k c.entries h)
    ]

    length-evict_one-le :
        (entries : List (Bytes × Entry RR)) → length (evict_one now range entries) ≤ length entries
    unfolding evict_one
    length-evict_one-le entries = elim (Option-cases (victim now range entries)) [
      | inl nothing ↦ rw (nothing, evict_one) (omega arith)
      | inr (j, some_key) ↦ rw (some_key, evict_one) (length-remove-le Bytes-discrete j entries)
    ]

    -- The eviction makes room for one entry more.
    room-bound :
        (c : Cache RR)
        → IsValid dns c
        → IsRange range c.entries
        → pos (length c.entries) ≤ℤ max_ℤ (pos 1) c.config.max_entries
        → pos (
            length (
              if leb_ℤ c.config.max_entries (pos (length c.entries))
              then evict_one now range c.entries
              else c.entries)
            + 1)
          ≤ℤ max_ℤ (pos 1) c.config.max_entries
    room-bound c v r h = elim (ℕ_discrete (length c.entries) 0) [
      | yes empty ↦ ground (arith, length-evict_one-le c.entries)
      | no full ↦ ground (arith, (evict-IsValid now range c v r (omega arith)).one_less)
    ]

  module _ (zone : Instant → ℤ) (now enow : ℕ) (range : List (Bytes × Entry RR)) (qname : Bytes)
      (qtype : ℕ) (resp : Msg RR) (ttl : ℕ) (c : Cache RR) where
    pub set-IsValid :
        now < 2 ^ 63 - 1
        → IsValid dns c
        → IsValid dns (set dns zone now enow range qname qtype resp ttl c)
    unfolding set
    set-IsValid h v =
        let e = fresh_entry dns zone c.config now qname qtype resp ttl in
        elim (Option-cases (find (entry_key dns e) c)) [
          | inl new_key ↦
              rw (new_key, set)
                (assign-IsValid dns (entry_key dns e) e _ (refl, refl, omega arith)
                  (room-IsValid (pos enow) range
                    (leb_ℤ c.config.max_entries (pos (length c.entries))) c v))
          | inr (old, found) ↦
              rw (found, set)
                (assign-IsValid dns _ _ c
                  (
                    refl,
                    refl,
                    (All-lookup Bytes-discrete (IsWell dns) _ old c.entries v.well found).2,
                  )
                  v)
        ]

    -- `Set` never grows the cache past its limit, except that one entry always fits: if the map
    -- was within the limit before, it is after, in whatever order the eviction meets the entries.
    pub length-set :
        IsValid dns c
        → IsRange range c.entries
        → pos (length c.entries) ≤ℤ max_ℤ (pos 1) c.config.max_entries
        → pos (length (set dns zone now enow range qname qtype resp ttl c).entries)
          ≤ℤ max_ℤ (pos 1) c.config.max_entries
    unfolding set
    length-set v r h =
        let e = fresh_entry dns zone c.config now qname qtype resp ttl in
        let k : Bytes = entry_key dns e in
        let full : Bool = leb_ℤ c.config.max_entries (pos (length c.entries)) in
        elim (Option-cases (find k c)) [
          | inr (old, found) ↦
              rw (found, set)
                (omega (arith, length-store_old Bytes-discrete k _ old c.entries found))
          | inl new_key ↦
              rw (new_key, set)
                (omega (
                  arith,
                  length-store_new Bytes-discrete k e _
                      (room-absent (pos enow) range k c full new_key),
                  room-bound (pos enow) range c v r h,
                ))
        ]
