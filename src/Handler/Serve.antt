-- ===== src/Handler/Serve.antt =====
-- What `ServeDNS` answers and what it stores.
pub mod Again
pub mod Answered
pub mod Failed
pub mod Late
pub mod Shared
pub mod Steps
use dns_cache.Prelude.{
  ℕ, ◌+◌, ◌<◌, ◌≡◌, ◌≢◌, refl, sym, ap, ◌∙◌, arith, Bool, true, false, ◌||◌, ◌⊎◌, inl, inr, List,
  [], ◌∷◌, Option, none, some, ◌==◌, if◌then◌else◌, All, length, Bool-cases, Option-cases,
}
use dns_cache.Prelude.Decimal.{Bytes}
use dns_cache.Prelude.Int.{ℤ, pos}
use dns_cache.Time.{Instant}
use dns_cache.Dns.{Dns, Msg, Question, rcode_success, rcode_name_error, rcode_server_failure}
use dns_cache.Entry.{Entry}
use dns_cache.Entry.Key.{key}
use dns_cache.Entry.Message.{copy_and_set_ttl}
use dns_cache.Window.{incr}
use dns_cache.Cache.{Cache, get, get_stale, incr_queries, incr_errors}
use dns_cache.Cache.Insert.{set}
use dns_cache.Resolver.{
  Network, Resolution, resolved, no_upstreams, all_failed, out_of_range, resolve,
}
use dns_cache.Resolver.Search.{resolve-first, complete-resolved}
use dns_cache.Handler.{
  Readings, Served, is_cacheable, first_ttl, resolve_and_cache, do_once, serve_failed, serve_miss,
  serve_dns, server_failure, respond, ttl_for_entry,
}
use dns_cache.Handler.Reply.{respond-rcode}

pub Resolution-cases :
    {RR Err : Type 0} (res : Resolution RR Err)
    → ((resp : Msg RR) × (u : Bytes) × (rtt : ℤ) × (res ≡ resolved resp u rtt))
      ⊎ (res ≡ no_upstreams)
      ⊎ ((errs : _) × (res ≡ all_failed errs))
      ⊎ (res ≡ out_of_range)
Resolution-cases (resolved resp u rtt) = inl (resp, u, rtt, refl)
Resolution-cases no_upstreams = inr (inl refl)
Resolution-cases (all_failed errs) = inr (inr (inl (errs, refl)))
Resolution-cases out_of_range = inr (inr (inr refl))

module _ {RR Err : Type 0} (dns : Dns RR) where
  -- A usable network: no cancellation, and an order of the servers that exist
  pub record IsSound (us : List Bytes) (net : Network RR Err) : Type 0 where
    pub quiet : (n : ℕ) → net.ctx_err n ≡ none
    pub inside : All (λ i. i < length us) net.order

  resolve-in_range :
      (us : List Bytes) (net : Network RR Err) (msg : Msg RR)
      → IsSound us net
      → resolve dns net us msg ≢ out_of_range
  unfolding resolve
  resolve-in_range [] net msg s h = absurd (ground arith)
  resolve-in_range (u ∷ us) net msg s h =
      elim (resolve-first dns net (u ∷ us) msg (omega arith) s.quiet s.inside) [
        | inl f ↦
            let (resp, rtt, e) = complete-resolved net (u ∷ us) _ f.idx f.resp f.upstream f.rtt in
            let clash = sym h ∙ f.completes ∙ e in absurd (ground arith)
        | inr (mute, (errs, e)) ↦ let clash = sym h ∙ e in absurd (ground arith)
      ]

  module _ (zone : Instant → ℤ) (us : List Bytes) (at : Readings RR) (net : Network RR Err) where
    -- `resolveAndCache` leaves the cache as it is, or else the resolver has returned an answer
    -- that is not truncated and has the code of success or of a non-existent name, and the
    -- change is one `Set` of that answer for the question with the TTL of its first record.
    pub resolve_and_cache-stores :
        (q : Question) (msg : Msg RR) (c : Cache RR)
        → ((resolve_and_cache dns zone us at net q msg c).0 ≡ c)
          ⊎ ((resp : Msg RR) × (u : Bytes) × (rtt : ℤ) × (resolve dns net us msg
                ≡ resolved resp u rtt)
              × (resp.truncated ≡ false)
              × ((resp.rcode ≡ rcode_success) ⊎ (resp.rcode ≡ rcode_name_error))
              × ((resolve_and_cache dns zone us at net q msg c).0
                  ≡ set dns zone at.set_now at.evict_now at.range q.name q.qtype resp
                      (first_ttl dns resp)
                      c))
    unfolding resolve_and_cache is_cacheable
    resolve_and_cache-stores q msg c = elim (Resolution-cases (resolve dns net us msg)) [
      | inl (resp, u, rtt, e) ↦ elim (Bool-cases (is_cacheable resp)) [
        | inl good ↦
            inr (resp, u, rtt, e, ground arith, ground arith, rw (resolve_and_cache, e, good) refl)
        | inr bad ↦ inl (rw (resolve_and_cache, e, bad) refl)
      ]
      | inr (inl e) ↦ inl (rw (resolve_and_cache, e) refl)
      | inr (inr (inl (errs, e))) ↦ inl (rw (resolve_and_cache, e) refl)
      | inr (inr (inr e)) ↦ inl (rw (resolve_and_cache, e) refl)
    ]

    pub resolve_and_cache-result :
        (q : Question) (msg : Msg RR) (c : Cache RR)
        → (resolve_and_cache dns zone us at net q msg c).1 ≡ resolve dns net us msg
    unfolding resolve_and_cache
    resolve_and_cache-result q msg c = elim (Resolution-cases (resolve dns net us msg)) [
      | inl (resp, u, rtt, e) ↦ rw (resolve_and_cache, e) refl
      | inr (inl e) ↦ rw (resolve_and_cache, e) refl
      | inr (inr (inl (errs, e))) ↦ rw (resolve_and_cache, e) refl
      | inr (inr (inr e)) ↦ rw (resolve_and_cache, e) refl
    ]

    pub do_once-in_range :
        (joined : Option (Resolution RR Err)) (q : Question) (msg : Msg RR) (c : Cache RR)
        → IsSound us net
        → joined ≢ some out_of_range
        → (do_once dns zone us joined at net q msg c).1 ≢ out_of_range
    unfolding do_once
    do_once-in_range (some res) q msg c s other h = other (ap some h)
    do_once-in_range none q msg c s other h =
        resolve-in_range us net msg s (sym (resolve_and_cache-result q msg c) ∙ h)
