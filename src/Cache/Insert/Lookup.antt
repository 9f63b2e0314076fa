-- ===== src/Cache/Insert/Lookup.antt =====
-- What `Get` finds after `Set`, under the question's key and under the others.
use dns_cache.Prelude.{
  ℕ, ◌≡◌, ◌≢◌, refl, sym, ◌∙◌, ap, arith, Bool, true, false, inl, inr, List, some, Option-cases,
  Bool-cases, if◌then◌else◌, length,
}
use mathlib.Core.List.{lookup}
use dns_cache.Prelude.Assoc.{lookup-store_ne, lookup-remove_ne}
use dns_cache.Prelude.Decimal.{Bytes, Bytes-discrete}
use dns_cache.Prelude.Int.{ℤ, pos, ◌≤ℤ◌, leb_ℤ, ltb_ℤ, max_ℤ, +ℤ_parts}
use dns_cache.Time.{Instant, add}
use dns_cache.Dns.{Dns, Msg}
use dns_cache.Entry.{Entry}
use dns_cache.Entry.Key.{key, key-eq_iff, key-canonical_name}
use dns_cache.Cache.{Cache, find, get, served, asked}
use dns_cache.Cache.Freshness.{IsPassable, get-serve_until}
use dns_cache.Cache.Insert.{entry_key, fresh_entry, set, victim, evict_one}
use dns_cache.Cache.Insert.Ttl.{Stored, set-Stored}

pub response-asked :
    {RR : Type 0} (zone : Instant → ℤ) (now : ℕ) (e : Entry RR)
    → (served (asked zone now e)).response ≡ e.response
unfolding asked
response-asked zone now e = refl

pub within : (s c m t d : ℤ) → t ≤ℤ add s d → d ≤ℤ c → ltb_ℤ (add s (max_ℤ c m)) t ≡ false
within s c m t d h k = elim (Bool-cases (ltb_ℤ c m)) [
  | inl e ↦ rw e (ground (arith, +ℤ_parts s d, +ℤ_parts s m))
  | inr e ↦ rw e (ground (arith, +ℤ_parts s d, +ℤ_parts s c))
]

module _ {RR : Type 0} (dns : Dns RR) (zone : Instant → ℤ) (now enow : ℕ)
    (range : List (Bytes × Entry RR)) (qname : Bytes) (qtype : ℕ) (resp : Msg RR) (ttl : ℕ)
    (c : Cache RR) where
  pub config-set : (set dns zone now enow range qname qtype resp ttl c).config ≡ c.config
  unfolding set
  config-set =
      elim (Option-cases
        (find (entry_key dns (fresh_entry dns zone c.config now qname qtype resp ttl)) c)) [
          | inl absent ↦ rw (absent, set)
          | inr (old, present) ↦ rw (present, set)
        ]

  get-Stored :
      (later wnow : ℕ) (e : Entry RR)
      → Stored dns zone now enow range qname qtype resp ttl c e
      → IsPassable c.config.max_age
      → pos later ≤ℤ add (pos now) c.config.ttl_min
      → (get zone later wnow
          (key dns qname qtype)
          (set dns zone now enow range qname qtype resp ttl c)).1
        ≡ some (served (asked zone later e))
  get-Stored later wnow e st passable soon =
      get-serve_until zone later wnow (key dns qname qtype)
        (set dns zone now enow range qname qtype resp ttl c) e st.found
        (rw st.stored_at st.expires_at) (rw config-set passable)
      ∙ rw (
        config-set,
        st.stored_at,
        within (pos now) e.cached_ttl c.config.max_age (pos later) c.config.ttl_min soon
            st.at_least,
      )

  -- For as long as the least TTL after `Set`, `Get` answers a question for the same type and any
  -- spelling of the same name with the response that was stored. (The least TTL is at most the
  -- greatest, and `MaxAge` lies strictly below the largest duration.)
  pub set-get :
      (name : Bytes) (later wnow : ℕ)
      → c.config.ttl_min ≤ℤ c.config.ttl_max
      → IsPassable c.config.max_age
      → dns.canonical_name name ≡ dns.canonical_name qname
      → pos later ≤ℤ add (pos now) c.config.ttl_min
      → (e : Entry RR) × ((get zone later wnow
            (key dns name qtype)
            (set dns zone now enow range qname qtype resp ttl c)).1
          ≡ some e)
        × (e.response ≡ resp)
  set-get name later wnow bounds passable spelled soon =
      let (e, st) = set-Stored dns zone now enow range qname qtype resp ttl c bounds in
      let same : key dns name qtype ≡ key dns qname qtype =
        (key-eq_iff dns name qname qtype qtype).1 (spelled, refl) in
      (
        served (asked zone later e),
        rw same (get-Stored later wnow e st passable soon),
        response-asked zone later e ∙ st.response,
      )

  room-keeps :
      (j : Bytes) (b : Bool)
      → victim (pos enow) range c.entries ≢ some j
      → lookup Bytes-discrete j (if b then evict_one (pos enow) range c.entries else c.entries)
        ≡ find j c
  unfolding evict_one
  room-keeps j false kept = refl
  room-keeps j true kept = elim (Option-cases (victim (pos enow) range c.entries)) [
    | inl nothing ↦ rw (nothing, evict_one)
    | inr (k, chosen) ↦
        rw (chosen, evict_one)
          (lookup-remove_ne Bytes-discrete k j c.entries (λ p. kept (chosen ∙ ap some p)))
  ]

  -- `Set` changes nothing under another key, unless the eviction chose that key.
  pub find-set_ne :
      (j : Bytes)
      → key dns qname qtype ≢ j
      → victim (pos enow) range c.entries ≢ some j
      → find j (set dns zone now enow range qname qtype resp ttl c) ≡ find j c
  unfolding set
  find-set_ne j other kept =
      let e : Entry RR = fresh_entry dns zone c.config now qname qtype resp ttl in
      let k_ne : entry_key dns e ≢ j = λ p. other (sym (key-canonical_name dns qname qtype) ∙ p) in
      elim (Option-cases (find (entry_key dns e) c)) [
        | inr (old, present) ↦
            rw (present, set) (lookup-store_ne Bytes-discrete (entry_key dns e) j _ c.entries k_ne)
        | inl absent ↦
            rw (absent, set)
              (lookup-store_ne Bytes-discrete (entry_key dns e) j e _ k_ne
                ∙ room-keeps j (leb_ℤ c.config.max_entries (pos (length c.entries))) kept)
      ]
