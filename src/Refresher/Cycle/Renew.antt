-- ===== src/Refresher/Cycle/Renew.antt =====
-- What one refresh does to the entry and to its backoff.
use dns_cache.Prelude.{
  ℕ, ◌≡◌, ◌≢◌, refl, ap, arith, true, false, inl, inr, List, none, some, ◌==◌, if◌then◌else◌,
  ==_iff,
}
use dns_cache.Prelude.Assoc.{lookup-remove_self}
use dns_cache.Prelude.Decimal.{Bytes, Bytes-discrete}
use dns_cache.Prelude.Int.{ℤ, pos, ◌≤ℤ◌}
use dns_cache.Time.{Instant}
use dns_cache.Dns.{Dns, Msg, rcode_success}
use dns_cache.Entry.{Entry}
use dns_cache.Cache.{Cache, find}
use dns_cache.Cache.Insert.{set, entry_key}
use dns_cache.Cache.Insert.Ttl.{set-Stored, history}
use dns_cache.Resolver.{resolved, out_of_range, resolve}
use dns_cache.Handler.{first_ttl}
use dns_cache.Handler.Serve.{Resolution-cases}
use dns_cache.Refresher.{Refresher, failure_of, note_failure, note_success}
use dns_cache.Refresher.Cycle.{Attempt, query, refresh_entry}

module _ {RR Err : Type 0} (dns : Dns RR) (zone : Instant → ℤ) (us : List Bytes)
    (a : Attempt RR Err) (e : Entry RR) (c : Cache RR) (rf : Refresher) where
  -- The entry as the refresh renews it: a new answer and time, the same history of use
  pub record Renewed (resp : Msg RR) (old e' : Entry RR) : Type 0 where
    pub found : find (entry_key dns e) (refresh_entry dns zone us a e c rf).0 ≡ some e'
    pub response : e'.response ≡ resp
    pub stored_at : e'.stored_at ≡ pos a.set_now
    pub hit_count : e'.hit_count ≡ old.hit_count
    pub last_hit_at : e'.last_hit_at ≡ old.last_hit_at
    pub used_days : e'.used_days ≡ old.used_days
    pub forgiven :
        failure_of (entry_key dns e) (refresh_entry dns zone us a e c rf).1.failures ≡ none

  refreshed :
      (resp : Msg RR) (u : Bytes) (rtt : ℤ)
      → resolve dns a.net us (query dns zone us a e) ≡ resolved resp u rtt
      → resp.rcode ≡ rcode_success
      → refresh_entry dns zone us a e c rf ≡ (
        set dns zone a.set_now a.evict_now a.range e.question_name e.question_type resp
            (if first_ttl dns resp == 0 then 60 else first_ttl dns resp)
            c,
        note_success (entry_key dns e) rf,
      )
  unfolding refresh_entry
  refreshed resp u rtt got ok =
      let good : (resp.rcode == rcode_success) ≡ true = (==_iff resp.rcode rcode_success).1 ok in
      rw (refresh_entry, got, good) refl

  -- A refresh of a stored entry that gets a success stores the new answer under the entry's key,
  -- with the time of the refresh; it counts as no use, so hits, recency and days of use are
  -- those of the stored entry; and it ends the entry's backoff. The answer may be truncated.
  -- (The least TTL is at most the greatest.)
  pub refresh_entry-Renewed :
      (resp : Msg RR) (u : Bytes) (rtt : ℤ) (old : Entry RR)
      → resolve dns a.net us (query dns zone us a e) ≡ resolved resp u rtt
      → resp.rcode ≡ rcode_success
      → c.config.ttl_min ≤ℤ c.config.ttl_max
      → find (entry_key dns e) c ≡ some old
      → (e' : Entry RR) × Renewed resp old e'
  unfolding note_success
  refresh_entry-Renewed resp u rtt old got ok bounds present =
      let t : ℕ = if first_ttl dns resp == 0 then 60 else first_ttl dns resp in
      let (e', st) =
        set-Stored dns zone a.set_now a.evict_now a.range e.question_name e.question_type resp t c
          bounds in
      let step = refreshed resp u rtt got ok in
      let same : history e' ≡ history old = rw present at st.inherited in
      (
        e',
        record {
          found = rw step st.found;
          response = st.response;
          stored_at = st.stored_at;
          hit_count = ap (λ h. h.0) same;
          last_hit_at = ap (λ h. h.1) same;
          used_days = ap (λ h. h.2) same;
          forgiven = rw step (lookup-remove_self Bytes-discrete (entry_key dns e) rf.failures);
        },
      )

  -- A refresh that gets no answer, or one with another code than success, leaves the cache as it
  -- was and notes one more failure of the entry.
  pub refresh_entry-failed :
      ((resp : Msg RR) (u : Bytes) (rtt : ℤ)
        → resolve dns a.net us (query dns zone us a e) ≡ resolved resp u rtt
        → resp.rcode ≢ rcode_success)
      → resolve dns a.net us (query dns zone us a e) ≢ out_of_range
      → refresh_entry dns zone us a e c rf ≡ (c, note_failure (entry_key dns e) a.failed_now rf)
  unfolding refresh_entry
  refresh_entry-failed bad in_range =
      elim (Resolution-cases (resolve dns a.net us (query dns zone us a e))) [
        | inl (resp, u, rtt, got) ↦
            let ne = bad resp u rtt got in
            let other : (resp.rcode == rcode_success) ≡ false = ground arith in
            rw (refresh_entry, got, other) refl
        | inr (inl got) ↦ rw (refresh_entry, got) refl
        | inr (inr (inl (errs, got))) ↦ rw (refresh_entry, got) refl
        | inr (inr (inr got)) ↦ absurd (in_range got)
      ]
