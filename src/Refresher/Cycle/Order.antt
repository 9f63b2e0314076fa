-- ===== src/Refresher/Cycle/Order.antt =====
-- The refreshes of a cycle run in several goroutines: those of different entries do not depend on
-- the order in which they take effect.
use dns_cache.Prelude.{
  ℕ, ◌+◌, ◌%◌, ◌^◌, ◌≡◌, ◌≢◌, refl, sym, ap, ◌∙◌, inl, inr, List, Option, some, ◌==◌, if◌then◌else◌,
  Bool-cases,
}
use dns_cache.Prelude.Assoc.{
  store, lookup-store_self, lookup-store_ne, lookup-remove_self, lookup-remove_ne,
}
use dns_cache.Prelude.Decimal.{Bytes, Bytes-discrete}
use dns_cache.Prelude.Int.{ℤ, pos}
use dns_cache.Time.{Instant, Duration, add}
use dns_cache.Dns.{Dns, Msg, rcode_success}
use dns_cache.Entry.{Entry}
use dns_cache.Entry.Key.{key, key-canonical_name}
use dns_cache.CacheConfig.{Config}
use dns_cache.Cache.{Cache, find, assign}
use dns_cache.Cache.Insert.{set, fresh_entry, entry_key}
use dns_cache.Resolver.{resolve}
use dns_cache.Handler.{first_ttl}
use dns_cache.Handler.Serve.{Resolution-cases}
use dns_cache.Refresher.{
  Refresher, Failure, failure_of, count_of, backoff_wait, note_failure, note_success,
}
use dns_cache.Refresher.Cycle.{Attempt, query, refresh_entry}

module _ {RR : Type 0} (dns : Dns RR) (zone : Instant → ℤ) (now enow : ℕ)
    (range : List (Bytes × Entry RR)) (qname : Bytes) (qtype : ℕ) (resp : Msg RR) (ttl : ℕ) where
  -- `Set` of a key that is there
  set-present :
      (c : Cache RR) (old : Entry RR)
      → find (key dns qname qtype) c ≡ some old
      → set dns zone now enow range qname qtype resp ttl c
        ≡ assign
            (key dns qname qtype)
            (record (fresh_entry dns zone c.config now qname qtype resp ttl) {
              hit_count = old.hit_count;
              last_hit_at = old.last_hit_at;
              used_days = old.used_days;
            })
            c
  unfolding set
  set-present c old present =
      let same : entry_key dns (fresh_entry dns zone c.config now qname qtype resp ttl)
          ≡ key dns qname qtype =
        key-canonical_name dns qname qtype in
      let there : find (entry_key dns (fresh_entry dns zone c.config now qname qtype resp ttl)) c
          ≡ some old =
        ap (λ k. find k c) same ∙ present in
      rw (there, set, same) refl

  -- The entry that `Set` then puts there
  abbrev renewed : Config → Entry RR → Entry RR
  renewed cfg old = record (fresh_entry dns zone cfg now qname qtype resp ttl) {
    hit_count = old.hit_count;
    last_hit_at = old.last_hit_at;
    used_days = old.used_days;
  }

  find-set_present :
      (c : Cache RR) (old : Entry RR)
      → find (key dns qname qtype) c ≡ some old
      → find (key dns qname qtype) (set dns zone now enow range qname qtype resp ttl c)
        ≡ some (renewed c.config old)
  find-set_present c old present =
      ap (λ x. find (key dns qname qtype) x) (set-present c old present)
      ∙ lookup-store_self Bytes-discrete (key dns qname qtype) (renewed c.config old) c.entries

-- The record of failures after one more
abbrev failure_after : Duration → ℕ → Option Failure → Failure
failure_after interval now o =
    let count = (count_of o + 1) % 2 ^ 64 in
    record { count = count; next_try = add (pos now) (backoff_wait interval count) }

note_failure-own :
    (k : Bytes) (now : ℕ) (rf rg : Refresher)
    → rf.interval ≡ rg.interval
    → failure_of k rf.failures ≡ failure_of k rg.failures
    → failure_of k (note_failure k now rf).failures ≡ failure_of k (note_failure k now rg).failures
unfolding note_failure
note_failure-own k now rf rg intervals failures =
    lookup-store_self Bytes-discrete k (failure_after rf.interval now (failure_of k rf.failures))
      rf.failures
    ∙ ap (λ i. some (failure_after i now (failure_of k rf.failures))) intervals
    ∙ ap (λ o. some (failure_after rg.interval now o)) failures
    ∙ sym (
        lookup-store_self Bytes-discrete k
          (failure_after rg.interval now (failure_of k rg.failures)) rg.failures)

module _ {RR Err : Type 0} (dns : Dns RR) (zone : Instant → ℤ) (us : List Bytes)
    (a : Attempt RR Err) (e : Entry RR) where
  -- What a refresh has done to a cache that holds the entry's key
  pub record Effect (c c' : Cache RR) (rf rf' : Refresher) : Type 0 where
    pub same_config : c'.config ≡ c.config
    pub same_interval : rf'.interval ≡ rf.interval
    pub others : (j : Bytes) → entry_key dns e ≢ j → find j c' ≡ find j c
    pub other_failures :
        (j : Bytes) → entry_key dns e ≢ j → failure_of j rf'.failures ≡ failure_of j rf.failures

  pub refresh_entry-Effect :
      (c : Cache RR) (rf : Refresher) (old : Entry RR)
      → find (entry_key dns e) c ≡ some old
      → Effect c (refresh_entry dns zone us a e c rf).0 rf (refresh_entry dns zone us a e c rf).1
  unfolding refresh_entry note_failure note_success
  refresh_entry-Effect c rf old present =
      let fails : (f : _)
          → Effect c c rf
              (record rf { failures = store Bytes-discrete (entry_key dns e) f rf.failures }) =
        λ f. record {
          same_config = refl;
          same_interval = refl;
          others = λ j ne. refl;
          other_failures =
              λ j ne. lookup-store_ne Bytes-discrete (entry_key dns e) j f rf.failures ne;
        } in
      let nothing : Effect c c rf rf = record {
        same_config = refl;
        same_interval = refl;
        others = λ j ne. refl;
        other_failures = λ j ne. refl;
      } in
      elim (Resolution-cases (resolve dns a.net us (query dns zone us a e))) [
        | inl (resp, u, rtt, got) ↦ elim (Bool-cases (resp.rcode == rcode_success)) [
          | inl good ↦
              let put =
                set-present dns zone a.set_now a.evict_now a.range e.question_name e.question_type
                  resp (if first_ttl dns resp == 0 then 60 else first_ttl dns resp) c old present in
              rw (refresh_entry, got, good, put)
                (record {
                  same_config = refl;
                  same_interval = refl;
                  others =
                      λ j ne. lookup-store_ne Bytes-discrete (entry_key dns e) j _ c.entries ne;
                  other_failures =
                      λ j ne. lookup-remove_ne Bytes-discrete (entry_key dns e) j rf.failures ne;
                })
          | inr bad ↦ rw (refresh_entry, got, bad) (fails _)
        ]
        | inr (inl got) ↦ rw (refresh_entry, got) (fails _)
        | inr (inr (inl (errs, got))) ↦ rw (refresh_entry, got) (fails _)
        | inr (inr (inr got)) ↦ rw (refresh_entry, got) nothing
      ]

  -- What a refresh leaves under the entry's key depends on what was under it, and on nothing else.
  pub refresh_entry-own :
      (c d : Cache RR) (rf rg : Refresher) (old : Entry RR)
      → find (entry_key dns e) c ≡ some old
      → find (entry_key dns e) d ≡ some old
      → c.config ≡ d.config
      → rf.interval ≡ rg.interval
      → failure_of (entry_key dns e) rf.failures ≡ failure_of (entry_key dns e) rg.failures
      → (find (entry_key dns e) (refresh_entry dns zone us a e c rf).0
          ≡ find (entry_key dns e) (refresh_entry dns zone us a e d rg).0)
        × (failure_of (entry_key dns e) (refresh_entry dns zone us a e c rf).1.failures
            ≡ failure_of (entry_key dns e) (refresh_entry dns zone us a e d rg).1.failures)
  unfolding refresh_entry note_success
  refresh_entry-own c d rf rg old in_c in_d configs intervals failures =
      let k = entry_key dns e in
      let fails = note_failure-own k a.failed_now rf rg intervals failures in
      elim (Resolution-cases (resolve dns a.net us (query dns zone us a e))) [
        | inl (resp, u, rtt, got) ↦ elim (Bool-cases (resp.rcode == rcode_success)) [
          | inl good ↦
              let found =
                find-set_present dns zone a.set_now a.evict_now a.range e.question_name
                  e.question_type resp
                  (if first_ttl dns resp == 0 then 60 else first_ttl dns resp) in
              rw (refresh_entry, got, good)
                (
                  found c old in_c
                      ∙ ap
                          (λ cfg. some (
                            renewed dns zone a.set_now a.evict_now a.range e.question_name
                              e.question_type resp
                              (if first_ttl dns resp == 0 then 60 else first_ttl dns resp) cfg old))
                          configs
                      ∙ sym (found d old in_d),
                  lookup-remove_self Bytes-discrete k rf.failures
                      ∙ sym (lookup-remove_self Bytes-discrete k rg.failures),
                )
          | inr bad ↦ rw (refresh_entry, got, bad) (in_c ∙ sym in_d, fails)
        ]
        | inr (inl got) ↦ rw (refresh_entry, got) (in_c ∙ sym in_d, fails)
        | inr (inr (inl (errs, got))) ↦ rw (refresh_entry, got) (in_c ∙ sym in_d, fails)
        | inr (inr (inr got)) ↦ rw (refresh_entry, got) (in_c ∙ sym in_d, failures)
      ]

  -- The key keeps an entry.
  pub refresh_entry-present :
      (c : Cache RR) (rf : Refresher) (old : Entry RR)
      → find (entry_key dns e) c ≡ some old
      → (new : Entry RR) × (find (entry_key dns e) (refresh_entry dns zone us a e c rf).0
          ≡ some new)
  unfolding refresh_entry
  refresh_entry-present c rf old present =
      elim (Resolution-cases (resolve dns a.net us (query dns zone us a e))) [
        | inl (resp, u, rtt, got) ↦ elim (Bool-cases (resp.rcode == rcode_success)) [
          | inl good ↦
              rw (refresh_entry, got, good)
                (
                  _,
                  find-set_present dns zone a.set_now a.evict_now a.range e.question_name
                      e.question_type resp
                      (if first_ttl dns resp == 0 then 60 else first_ttl dns resp) c old present,
                )
          | inr bad ↦ rw (refresh_entry, got, bad) (old, present)
        ]
        | inr (inl got) ↦ rw (refresh_entry, got) (old, present)
        | inr (inr (inl (errs, got))) ↦ rw (refresh_entry, got) (old, present)
        | inr (inr (inr got)) ↦ rw (refresh_entry, got) (old, present)
      ]

module _ {RR Err : Type 0} (dns : Dns RR) (zone : Instant → ℤ) (us : List Bytes) where
  -- Two refreshes, one after the other
  abbrev pub both :
      Attempt RR Err
      → Entry RR
      → Attempt RR Err
      → Entry RR
      → Cache RR
      → Refresher
      → Cache RR × Refresher
  both a e b f c rf =
      let (c', rf') = refresh_entry dns zone us a e c rf in refresh_entry dns zone us b f c' rf'

  -- What the pair leaves under the key of the first entry is what the other order leaves.
  both-first :
      (a b : Attempt RR Err) (e f : Entry RR) (c : Cache RR) (rf : Refresher) (old other : Entry RR)
      → entry_key dns e ≢ entry_key dns f
      → find (entry_key dns e) c ≡ some old
      → find (entry_key dns f) c ≡ some other
      → (find (entry_key dns e) (both a e b f c rf).0
          ≡ find (entry_key dns e) (both b f a e c rf).0)
        × (failure_of (entry_key dns e) (both a e b f c rf).1.failures
            ≡ failure_of (entry_key dns e) (both b f a e c rf).1.failures)
  both-first a b e f c rf old other ne in_e in_f =
      let ne' : entry_key dns f ≢ entry_key dns e = λ p. ne (sym p) in
      let first = refresh_entry-Effect dns zone us a e c rf old in_e in
      let moved = first.others (entry_key dns f) ne ∙ in_f in
      let second =
        refresh_entry-Effect dns zone us b f (refresh_entry dns zone us a e c rf).0
          (refresh_entry dns zone us a e c rf).1 other moved in
      let swapped = refresh_entry-Effect dns zone us b f c rf other in_f in
      let own =
        refresh_entry-own dns zone us a e c (refresh_entry dns zone us b f c rf).0 rf
          (refresh_entry dns zone us b f c rf).1 old in_e
          (swapped.others (entry_key dns e) ne' ∙ in_e) (sym swapped.same_config)
          (sym swapped.same_interval) (sym (swapped.other_failures (entry_key dns e) ne')) in
      (
        second.others (entry_key dns e) ne' ∙ own.0,
        second.other_failures (entry_key dns e) ne' ∙ own.1,
      )

  both-others :
      (a b : Attempt RR Err) (e f : Entry RR) (c : Cache RR) (rf : Refresher) (old other : Entry RR)
      (j : Bytes)
      → entry_key dns e ≢ entry_key dns f
      → find (entry_key dns e) c ≡ some old
      → find (entry_key dns f) c ≡ some other
      → entry_key dns e ≢ j
      → entry_key dns f ≢ j
      → (find j (both a e b f c rf).0 ≡ find j c)
        × (failure_of j (both a e b f c rf).1.failures ≡ failure_of j rf.failures)
  both-others a b e f c rf old other j ne in_e in_f not_e not_f =
      let first = refresh_entry-Effect dns zone us a e c rf old in_e in
      let second =
        refresh_entry-Effect dns zone us b f (refresh_entry dns zone us a e c rf).0
          (refresh_entry dns zone us a e c rf).1 other (first.others (entry_key dns f) ne ∙ in_f) in
      (
        second.others j not_f ∙ first.others j not_e,
        second.other_failures j not_f ∙ first.other_failures j not_e,
      )

  -- The refreshes of two entries that the cache holds under different keys may take effect in
  -- either order: every key has the same entry afterwards, and the same record of failures,
  -- whatever the upstream servers answer.
  pub both-order :
      (a b : Attempt RR Err) (e f : Entry RR) (c : Cache RR) (rf : Refresher) (old other : Entry RR)
      (j : Bytes)
      → entry_key dns e ≢ entry_key dns f
      → find (entry_key dns e) c ≡ some old
      → find (entry_key dns f) c ≡ some other
      → (find j (both a e b f c rf).0 ≡ find j (both b f a e c rf).0)
        × (failure_of j (both a e b f c rf).1.failures
            ≡ failure_of j (both b f a e c rf).1.failures)
  both-order a b e f c rf old other j ne in_e in_f =
      let ne' : entry_key dns f ≢ entry_key dns e = λ p. ne (sym p) in
      elim (Bytes-discrete (entry_key dns e) j) [
        | yes p ↦ rw (← p) (both-first a b e f c rf old other ne in_e in_f)
        | no p ↦ elim (Bytes-discrete (entry_key dns f) j) [
          | yes q ↦
              let back = both-first b a f e c rf other old ne' in_f in_e in
              rw (← q) (sym back.0, sym back.1)
          | no q ↦
              let there = both-others a b e f c rf old other j ne in_e in_f p q in
              let back = both-others b a f e c rf other old j ne' in_f in_e q p in
              (there.0 ∙ sym back.0, there.1 ∙ sym back.1)
        ]
      ]
