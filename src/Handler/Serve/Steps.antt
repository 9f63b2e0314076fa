-- ===== src/Handler/Serve/Steps.antt =====
-- A request is a sequence of calls on the cache.
use mathlib.Core.Path.{subst}
use dns_cache.Prelude.{
  ◌-◌, ◌^◌, ◌<◌, ◌≡◌, refl, sym, Bool, List, [], ◌∷◌, Option, none, some, inl, inr, Option-cases,
}
use dns_cache.Prelude.Decimal.{Bytes}
use dns_cache.Prelude.Int.{ℤ}
use dns_cache.Time.{Instant}
use dns_cache.Dns.{Dns, Msg, Question}
use dns_cache.Entry.Key.{key}
use dns_cache.Cache.{Cache, get, get_stale, incr_queries, incr_errors}
use dns_cache.Cache.Insert.Victim.{IsRange}
use dns_cache.Cache.Run.{Reach, here, next, gets, gets_stale, sets, counts_query, counts_error}
use dns_cache.Resolver.{Network, Resolution}
use dns_cache.Handler.{Readings, resolve_and_cache, do_once, serve_failed, serve_miss, serve_dns}
use dns_cache.Handler.Serve.{Resolution-cases, resolve_and_cache-stores}

-- The clock's readings lie before the end of int64's nanoseconds.
pub record IsTimely {RR : Type 0} (at : Readings RR) : Type 0 where
  pub get_early : at.get_now < 2 ^ 63 - 1
  pub set_early : at.set_now < 2 ^ 63 - 1
  pub stale_early : at.stale_hit < 2 ^ 63 - 1

module _ {RR : Type 0} (dns : Dns RR) (zone : Instant → ℤ) where
  pub Reach-trans :
      {c d e : Cache RR} → Reach dns zone c d → Reach dns zone d e → Reach dns zone c e
  Reach-trans r here = r
  Reach-trans r (next s t) = next (Reach-trans r s) t

  serve_failed-Reach :
      (is_tcp : Bool) (at : Readings RR) (k : Bytes) (req : Msg RR) (c : Cache RR)
      → IsTimely at
      → Reach dns zone c (serve_failed dns is_tcp at k req c).0
  unfolding serve_failed
  serve_failed-Reach is_tcp at k req c t =
      let steps =
        next (next here (counts_error c))
          (gets_stale at.stale_now at.stale_hit k (incr_errors c) t.stale_early) in
      elim (Option-cases (get_stale at.stale_now at.stale_hit k (incr_errors c)).1) [
        | inl nothing ↦ rw (serve_failed, nothing) steps
        | inr (e, stale) ↦ rw (serve_failed, stale) steps
      ]

module _ {RR Err : Type 0} (dns : Dns RR) (zone : Instant → ℤ) (us : List Bytes) (at : Readings RR)
    (net : Network RR Err) (timely : IsTimely at) where
  resolve_and_cache-Reach :
      (q : Question) (msg : Msg RR) (c : Cache RR)
      → IsRange at.range c.entries
      → Reach dns zone c (resolve_and_cache dns zone us at net q msg c).0
  resolve_and_cache-Reach q msg c r = elim (resolve_and_cache-stores dns zone us at net q msg c) [
    | inl same ↦ subst (λ d. Reach dns zone c d) (sym same) here
    | inr (resp, u, rtt, got, whole, good, stored) ↦
        subst (λ d. Reach dns zone c d) (sym stored)
          (next here
            (sets at.set_now at.evict_now at.range q.name q.qtype resp _ c timely.set_early r))
  ]

  pub do_once-Reach :
      (joined : Option (Resolution RR Err)) (q : Question) (msg : Msg RR) (c : Cache RR)
      → IsRange at.range c.entries
      → Reach dns zone c (do_once dns zone us joined at net q msg c).0
  unfolding do_once
  do_once-Reach none q msg c r = resolve_and_cache-Reach q msg c r
  do_once-Reach (some res) q msg c r = here

  serve_miss-Reach :
      (is_tcp : Bool) (joined : Option (Resolution RR Err)) (q : Question) (req : Msg RR)
      (c : Cache RR)
      → IsRange at.range c.entries
      → Reach dns zone c (serve_miss dns zone us is_tcp at joined net q req c).0
  unfolding serve_miss
  serve_miss-Reach is_tcp joined q req c r =
      let asked = do_once-Reach joined q req c r in
      let failed = serve_failed-Reach dns zone is_tcp at (key dns q.name q.qtype) req _ timely in
      elim (Resolution-cases (do_once dns zone us joined at net q req c).1) [
        | inl (resp, u, rtt, e) ↦ rw (serve_miss, e) asked
        | inr (inl e) ↦ rw (serve_miss, e) (Reach-trans dns zone asked failed)
        | inr (inr (inl (errs, e))) ↦ rw (serve_miss, e) (Reach-trans dns zone asked failed)
        | inr (inr (inr e)) ↦ rw (serve_miss, e) asked
      ]

  pub serve_dns-Reach :
      (is_tcp : Bool) (joined : Option (Resolution RR Err)) (req : Msg RR) (c : Cache RR)
      → ((q : Question) (qs : List Question)
          → req.question ≡ q ∷ qs
          → IsRange at.range
              (get zone at.get_now at.window_now
                (key dns q.name q.qtype)
                (incr_queries c)).0.entries)
      → Reach dns zone c (serve_dns dns zone us is_tcp at joined net req c).0
  unfolding serve_dns
  serve_dns-Reach is_tcp joined req c ranges = serve req.question refl
    where
      serve :
          (qs : List Question)
          → req.question ≡ qs
          → Reach dns zone c (serve_dns dns zone us is_tcp at joined net req c).0
      serve [] asks = simp (serve_dns, asks) here
      serve (q ∷ qs) asks =
          let k = key dns q.name q.qtype in
          let got =
            next (next here (counts_query c))
              (gets at.get_now at.window_now k (incr_queries c) timely.get_early) in
          elim (Option-cases (get zone at.get_now at.window_now k (incr_queries c)).1) [
            | inl absent ↦
                simp (serve_dns, asks, absent)
                  (Reach-trans dns zone got
                    (serve_miss-Reach is_tcp joined q req _ (ranges q qs asks)))
            | inr (e, found) ↦ simp (serve_dns, asks, found) got
          ]
