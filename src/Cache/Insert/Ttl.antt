-- ===== src/Cache/Insert/Ttl.antt =====
-- The entry that `Set` stores: its TTL, its answer, and the history that it inherits.
use dns_cache.Prelude.{
  ℕ, ◌*◌, ◌^◌, ◌<◌, ◌≡◌, ◌≢◌, refl, sym, arith, inl, inr, List, [], ◌∷◌, ◌++◌, none, some,
  Option-cases, All, min,
}
use dns_cache.Prelude.Assoc.{lookup-store_self}
use dns_cache.Prelude.Decimal.{Bytes, Bytes-discrete}
use dns_cache.Prelude.Int.{ℤ, pos, ◌≤ℤ◌, ◌*ℤ◌, wrap64_id}
use dns_cache.Time.{Instant, add, second, of_units, local_day}
use dns_cache.Dns.{Dns, Msg}
use dns_cache.Entry.{Entry}
use dns_cache.Entry.Days.{pack_used_days}
use dns_cache.Entry.Key.{key, key-canonical_name}
use dns_cache.CacheConfig.{Config}
use dns_cache.Cache.{Cache, find}
use dns_cache.Cache.Insert.{entry_key, fresh_entry, clamp_ttl, upstream_ttl, soa_ttl, set}

-- A TTL of 32 bits, in seconds, is a duration without overflow.
pub of_units-second : (t : ℕ) → t < 2 ^ 32 → of_units (pos t) second ≡ pos (t * second)
unfolding of_units ◌*ℤ◌
of_units-second t h =
    let exact : pos t *ℤ pos second ≡ pos (t * second) = ground arith in
    rw exact (wrap64_id (pos (t * second)) (omega arith))

-- The history of an entry's use
abbrev pub history : {RR : Type 0} → Entry RR → ℕ × ℤ × ℕ
history e = (e.hit_count, e.last_hit_at, e.used_days)

module _ {RR : Type 0} (dns : Dns RR) where
  -- The TTL is held between the configured bounds.
  pub clamp_ttl_bounds :
      (cfg : Config) (t : ℕ)
      → cfg.ttl_min ≤ℤ cfg.ttl_max
      → (cfg.ttl_min ≤ℤ clamp_ttl dns cfg t) × (clamp_ttl dns cfg t ≤ℤ cfg.ttl_max)
  unfolding clamp_ttl
  clamp_ttl_bounds cfg t h = ground arith

  -- Within the bounds the TTL is the upstream's.
  pub clamp_ttl_within :
      (cfg : Config) (t : ℕ)
      → t < 2 ^ 32
      → cfg.ttl_min ≤ℤ pos (t * second)
      → pos (t * second) ≤ℤ cfg.ttl_max
      → clamp_ttl dns cfg t ≡ pos (t * second)
  unfolding clamp_ttl
  clamp_ttl_within cfg t h lo hi = rw (of_units-second t h) (ground arith)

  -- RFC 2308: for a response without answers the first SOA record of the authority section gives
  -- the TTL, the lesser of its MINIMUM field and of its own TTL, whatever TTL the caller passed.
  pub upstream_ttl-negative :
      (resp : Msg RR) (passed minttl : ℕ) (before after : List RR) (soa : RR)
      → resp.answer ≡ []
      → resp.ns ≡ before ++ (soa ∷ after)
      → All (λ rr. dns.soa_minttl rr ≡ none) before
      → dns.soa_minttl soa ≡ some minttl
      → min minttl (dns.ttl soa) ≢ 0
      → upstream_ttl dns resp passed ≡ min minttl (dns.ttl soa)
  unfolding upstream_ttl
  upstream_ttl-negative resp passed minttl before after soa none_answered ns lacks has pos_ttl =
      rw (none_answered, ns, first_soa before lacks) (ground arith)
    where
      first_soa :
          (pre : List RR)
          → All (λ rr. dns.soa_minttl rr ≡ none) pre
          → soa_ttl dns (pre ++ (soa ∷ after)) ≡ some (min minttl (dns.ttl soa))
      first_soa [] l = rw (has, soa_ttl)
      first_soa (rr ∷ pre) l = rw (l.0, soa_ttl) (first_soa pre l.1)

  module _ (zone : Instant → ℤ) (now enow : ℕ) (range : List (Bytes × Entry RR)) (qname : Bytes)
      (qtype : ℕ) (resp : Msg RR) (ttl : ℕ) (c : Cache RR) where
    -- What is found under the question's key after `Set`
    pub record Stored (e : Entry RR) : Type 0 where
      pub found :
          find (key dns qname qtype) (set dns zone now enow range qname qtype resp ttl c) ≡ some e
      pub response : e.response ≡ resp
      pub stored_at : e.stored_at ≡ pos now
      pub expires_at : e.expires_at ≡ add (pos now) e.cached_ttl
      pub at_least : c.config.ttl_min ≤ℤ e.cached_ttl
      pub at_most : e.cached_ttl ≤ℤ c.config.ttl_max
      pub inherited : history e ≡ elim (find (key dns qname qtype) c) [
        | some old ↦ history old
        | none ↦ (1, pos now, pack_used_days (local_day zone (pos now)))
      ]

    -- `Set` stores the response under the question's key, with the time of the call and a TTL
    -- between the configured bounds from then on. A refresh of a stored name is no access: it
    -- inherits the hit count, the recency and the days of use of the entry that it replaces. A new
    -- name starts with one hit, now. (The least TTL is at most the greatest.)
    pub set-Stored : c.config.ttl_min ≤ℤ c.config.ttl_max → (e : Entry RR) × Stored e
    unfolding set
    set-Stored h =
        let e : Entry RR = fresh_entry dns zone c.config now qname qtype resp ttl in
        let same : key dns qname qtype ≡ entry_key dns e =
          sym (key-canonical_name dns qname qtype) in
        let bounds = clamp_ttl_bounds c.config (upstream_ttl dns resp ttl) h in
        elim (Option-cases (find (entry_key dns e) c)) [
          | inl absent ↦ (
            e,
            record {
              found =
                  rw (same, absent, set) (lookup-store_self Bytes-discrete (entry_key dns e) e _);
              response = dns.copy_same resp;
              stored_at = refl;
              expires_at = refl;
              at_least = bounds.0;
              at_most = bounds.1;
              inherited = rw (same, absent);
            },
          )
          | inr (old, present) ↦
              let e' : Entry RR = record e {
                hit_count = old.hit_count;
                last_hit_at = old.last_hit_at;
                used_days = old.used_days;
              } in
              (
                e',
                record {
                  found =
                      rw (same, present, set)
                        (lookup-store_self Bytes-discrete (entry_key dns e) e' _);
                  response = dns.copy_same resp;
                  stored_at = refl;
                  expires_at = refl;
                  at_least = bounds.0;
                  at_most = bounds.1;
                  inherited = rw (same, present);
                },
              )
        ]
