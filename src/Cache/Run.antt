-- ===== src/Cache/Run.antt =====
-- Every sequence of calls on the cache, in whatever order the goroutines' calls come.
use mathlib.Core.Path.{subst}
use dns_cache.Prelude.{
  ℕ, ◌-◌, ◌^◌, ◌≤◌, ◌<◌, ◌≡◌, refl, sym, arith, inl, inr, List, length, Bool-cases, Option-cases,
}
use dns_cache.Prelude.Assoc.{length-store_old, length-remove-le}
use dns_cache.Prelude.Decimal.{Bytes, Bytes-discrete}
use dns_cache.Prelude.Int.{ℤ, pos, ◌≤ℤ◌, max_ℤ, ltb_ℤ}
use dns_cache.Time.{Instant, sub}
use dns_cache.Dns.{Dns, Msg}
use dns_cache.Entry.{Entry}
use dns_cache.Cache.{
  Cache, find, asked, too_old, get, get_stale, delete, incr_queries, incr_errors, stale_max_age,
}
use dns_cache.Cache.Insert.{set}
use dns_cache.Cache.Insert.Victim.{IsRange}
use dns_cache.Cache.Insert.Size.{set-IsValid, length-set}
use dns_cache.Cache.Insert.Lookup.{config-set}
use dns_cache.Cache.Invariant.{
  IsValid, get-IsValid, get_stale-IsValid, delete-IsValid, incr_queries-IsValid,
  incr_errors-IsValid,
}

-- An operation that keeps the configuration and adds no entry.
pub record AddsNone {RR : Type 0} (c c' : Cache RR) : Type 0 where
  pub same_config : c'.config ≡ c.config
  pub no_more : length c'.entries ≤ length c.entries

module _ {RR : Type 0} where
  pub AddsNone-refl : (c : Cache RR) → AddsNone c c
  AddsNone-refl c = record { same_config = refl; no_more = omega arith }

  pub get-AddsNone :
      (zone : Instant → ℤ) (now wnow : ℕ) (key : Bytes) (c : Cache RR)
      → AddsNone c (get zone now wnow key c).0
  unfolding get
  get-AddsNone zone now wnow key c = elim (Option-cases (find key c)) [
    | inl absent ↦ rw (absent, get) (record { same_config = refl; no_more = omega arith })
    | inr (e, found) ↦ elim (Bool-cases (too_old c.config now (asked zone now e))) [
      | inl old ↦
          rw (found, get, old)
            (record {
              same_config = refl;
              no_more =
                  omega (
                    arith,
                    length-store_old Bytes-discrete key (asked zone now e) e c.entries found,
                  );
            })
      | inr good ↦
          rw (found, get, good)
            (record {
              same_config = refl;
              no_more = omega (arith, length-store_old Bytes-discrete key _ e c.entries found);
            })
    ]
  ]

  pub get_stale-AddsNone :
      (now later : ℕ) (key : Bytes) (c : Cache RR) → AddsNone c (get_stale now later key c).0
  unfolding get_stale
  get_stale-AddsNone now later key c = elim (Bool-cases c.config.stale_serving) [
    | inr off ↦ simp off (record { same_config = refl; no_more = omega arith })
    | inl on ↦ simp on (elim (Option-cases (find key c)) [
      | inl absent ↦ rw absent (record { same_config = refl; no_more = omega arith })
      | inr (e, found) ↦
          rw found (elim (Bool-cases (ltb_ℤ stale_max_age (sub (pos now) e.expires_at))) [
            | inl old ↦ rw old (record { same_config = refl; no_more = omega arith })
            | inr good ↦ rw good (record {
              same_config = refl;
              no_more = omega (arith, length-store_old Bytes-discrete key _ e c.entries found);
            })
          ])
    ])
  ]

  delete-AddsNone : (key : Bytes) (c : Cache RR) → AddsNone c (delete key c)
  unfolding delete
  delete-AddsNone key c = record {
    same_config = refl;
    no_more = length-remove-le Bytes-discrete key c.entries;
  }

  pub incr_queries-AddsNone : (c : Cache RR) → AddsNone c (incr_queries c)
  unfolding incr_queries
  incr_queries-AddsNone c = record { same_config = refl; no_more = omega arith }

  pub incr_errors-AddsNone : (c : Cache RR) → AddsNone c (incr_errors c)
  unfolding incr_errors
  incr_errors-AddsNone c = record { same_config = refl; no_more = omega arith }

module _ {RR : Type 0} (dns : Dns RR) (zone : Instant → ℤ) where
  -- One call. Clocks stay below the end of int64's nanoseconds, and an eviction may meet the
  -- entries in any order.
  pub data Step : Cache RR → Cache RR → Type 0 where
    gets :
        (now wnow : ℕ) (key : Bytes) (c : Cache RR)
        → now < 2 ^ 63 - 1
        → Step c (get zone now wnow key c).0
    gets_stale :
        (now later : ℕ) (key : Bytes) (c : Cache RR)
        → later < 2 ^ 63 - 1
        → Step c (get_stale now later key c).0
    sets :
        (now enow : ℕ) (range : List (Bytes × Entry RR)) (qname : Bytes) (qtype : ℕ) (resp : Msg RR)
        (ttl : ℕ) (c : Cache RR)
        → now < 2 ^ 63 - 1
        → IsRange range c.entries
        → Step c (set dns zone now enow range qname qtype resp ttl c)
    deletes : (key : Bytes) (c : Cache RR) → Step c (delete key c)
    counts_query : (c : Cache RR) → Step c (incr_queries c)
    counts_error : (c : Cache RR) → Step c (incr_errors c)

  pub data Reach (c : Cache RR) : Cache RR → Type 0 where
    here : Reach c c
    next : {d e : Cache RR} → Reach c d → Step d e → Reach c e

  -- The cache is valid and holds no more entries than its limit, or one.
  pub record IsBounded (limit : ℤ) (c : Cache RR) : Type 0 where
    pub valid : IsValid dns c
    pub configured : c.config.max_entries ≡ limit
    pub fits : pos (length c.entries) ≤ℤ max_ℤ (pos 1) limit

  IsBounded-of_AddsNone :
      (limit : ℤ) (c c' : Cache RR)
      → AddsNone c c'
      → IsValid dns c'
      → IsBounded limit c
      → IsBounded limit c'
  IsBounded-of_AddsNone limit c c' a v b = record {
    valid = v;
    configured = rw a.same_config b.configured;
    fits = omega (arith, a.no_more, b.fits);
  }

  Step-IsBounded :
      {limit : ℤ} {c c' : Cache RR} → Step c c' → IsBounded limit c → IsBounded limit c'
  Step-IsBounded {limit} (gets now wnow key c h) b =
      IsBounded-of_AddsNone limit c _ (get-AddsNone zone now wnow key c)
        (get-IsValid dns zone now wnow key c h b.valid) b
  Step-IsBounded {limit} (gets_stale now later key c h) b =
      IsBounded-of_AddsNone limit c _ (get_stale-AddsNone now later key c)
        (get_stale-IsValid dns now later key c h b.valid) b
  Step-IsBounded {limit} (sets now enow range qname qtype resp ttl c h r) b = record {
    valid = set-IsValid dns zone now enow range qname qtype resp ttl c h b.valid;
    configured = rw (config-set dns zone now enow range qname qtype resp ttl c) b.configured;
    fits =
        subst
          (λ z.
            pos (length (set dns zone now enow range qname qtype resp ttl c).entries)
            ≤ℤ max_ℤ (pos 1) z)
          b.configured
          (length-set dns zone now enow range qname qtype resp ttl c b.valid r
            (subst (λ z. pos (length c.entries) ≤ℤ max_ℤ (pos 1) z) (sym b.configured) b.fits));
  }
  Step-IsBounded {limit} (deletes key c) b =
      IsBounded-of_AddsNone limit c _ (delete-AddsNone key c) (delete-IsValid dns key c b.valid) b
  Step-IsBounded {limit} (counts_query c) b =
      IsBounded-of_AddsNone limit c _ (incr_queries-AddsNone c) (incr_queries-IsValid dns c b.valid)
        b
  Step-IsBounded {limit} (counts_error c) b =
      IsBounded-of_AddsNone limit c _ (incr_errors-AddsNone c) (incr_errors-IsValid dns c b.valid) b

  -- From a valid cache within its limit, every sequence of calls of `Get`, `GetStale`, `Set`,
  -- `Delete` and the counters leaves a valid cache within the same limit: each entry stands once,
  -- under its own key, expires one TTL after its fetch, and their number never passes the
  -- configured maximum (or one, if that is lower).
  pub Reach-IsBounded :
      {limit : ℤ} {c c' : Cache RR} → IsBounded limit c → Reach c c' → IsBounded limit c'
  Reach-IsBounded b here = b
  Reach-IsBounded b (next r s) = Step-IsBounded s (Reach-IsBounded b r)
