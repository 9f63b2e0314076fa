-- ===== src/Handler/Serve/Late.antt =====
-- An answer past its TTL: served at once, and renewed in the background.
use dns_cache.Prelude.{ℕ, ◌≡◌, refl, ap, ◌∙◌, Bool, true, false, List, ◌∷◌, Option, none, some}
use dns_cache.Prelude.Decimal.{Bytes}
use dns_cache.Prelude.Int.{ℤ, pos, ◌≤ℤ◌, ltb_ℤ}
use dns_cache.Time.{Instant, add}
use dns_cache.Dns.{Dns, Msg, Question}
use dns_cache.Entry.{Entry, is_expired_at}
use dns_cache.Entry.Key.{key}
use dns_cache.Entry.Message.{copy_and_set_ttl, copy_and_set_ttl-All}
use dns_cache.Cache.{Cache, find, get, incr_queries, served, asked}
use dns_cache.Cache.Freshness.{IsPassable, serve_until, get-serve_until}
use dns_cache.Cache.Insert.Lookup.{set-get}
use dns_cache.Cache.Run.{get-AddsNone}
use dns_cache.Resolver.{Network, Resolution, resolved, resolve}
use dns_cache.Handler.{
  Readings, is_cacheable, first_ttl, serve_dns, background_refresh, respond, ttl_for_entry, do_once,
}
use dns_cache.Handler.Reply.{respond-rcode}
use dns_cache.Handler.Serve.Again.{resolve_and_cache-set}

module _ {RR Err : Type 0} (dns : Dns RR) (zone : Instant → ℤ) (us : List Bytes) (at : Readings RR)
    (net : Network RR Err) (joined : Option (Resolution RR Err)) (is_tcp : Bool) (q : Question)
    (qs : List Question) (req : Msg RR) (c : Cache RR) (e : Entry RR) (asks : req.question ≡ q ∷ qs)
    (stored : find (key dns q.name q.qtype) c ≡ some e)
    (expires : e.expires_at ≡ add e.stored_at e.cached_ttl) (passable : IsPassable c.config.max_age)
    (in_time : ltb_ℤ (serve_until c.config e) (pos at.get_now) ≡ false)
    (late : is_expired_at e (pos at.expired_now) ≡ true) where
  -- What `Get` hands out
  abbrev handed : Entry RR
  handed = served (asked zone at.get_now e)

  handed-found :
      (get zone at.get_now at.window_now (key dns q.name q.qtype) (incr_queries c)).1 ≡ some handed
  unfolding incr_queries
  handed-found =
      get-serve_until zone at.get_now at.window_now (key dns q.name q.qtype) (incr_queries c) e
        stored expires passable
      ∙ rw in_time refl

  response-handed : handed.response ≡ e.response
  unfolding asked
  response-handed = refl

  handed-late : is_expired_at handed (pos at.expired_now) ≡ true
  unfolding asked
  handed-late = late

  served_late : serve_dns dns zone us is_tcp at joined net req c ≡ (
    (get zone at.get_now at.window_now (key dns q.name q.qtype) (incr_queries c)).0,
    record {
      reply = some (
          respond dns is_tcp req
            (copy_and_set_ttl dns handed.response (ttl_for_entry handed (pos at.ttl_now))));
      refresh = some q;
    },
  )
  unfolding serve_dns
  served_late = simp (serve_dns, asks, handed-found, handed-late) refl

  config-handed :
      (get zone at.get_now at.window_now (key dns q.name q.qtype) (incr_queries c)).0.config
      ≡ c.config
  unfolding incr_queries
  config-handed =
      (get-AddsNone zone at.get_now at.window_now (key dns q.name q.qtype)
        (incr_queries c)).same_config

  -- The background refresh of a question that an upstream server answers, on any cache
  background_refresh-get :
      (at' : Readings RR) (net' : Network RR Err) (id : ℕ) (resp : Msg RR) (u : Bytes) (rtt : ℤ)
      (later wnow : ℕ) (d : Cache RR)
      → d.config ≡ c.config
      → resolve dns net' us (dns.set_question id q.name q.qtype) ≡ resolved resp u rtt
      → is_cacheable resp ≡ true
      → c.config.ttl_min ≤ℤ c.config.ttl_max
      → pos later ≤ℤ add (pos at'.set_now) c.config.ttl_min
      → (e' : Entry RR) × ((get zone later wnow
            (key dns q.name q.qtype)
            (background_refresh dns zone us at' id none net' q d)).1
          ≡ some e')
        × (e'.response ≡ resp)
  unfolding background_refresh do_once
  background_refresh-get at' net' id resp u rtt later wnow d same got good bounds soon =
      let put =
        resolve_and_cache-set dns zone us at' net' q (dns.set_question id q.name q.qtype) resp u rtt
          d got good in
      let (e', found, fresh) =
        set-get dns zone at'.set_now at'.evict_now at'.range q.name q.qtype resp
          (first_ttl dns resp) d q.name later wnow (rw same bounds) (rw same passable) refl
          (rw same soon) in
      (e', rw put found, fresh)

  -- An answer past its TTL that may still be served is written at once, with its code and under the
  -- request's identifier, and the refresh of its question is started; and when an upstream server
  -- answers that refresh with a success or a non-existent name, whole, then for as long as the least
  -- TTL `Get` returns the new answer. (The stored entry expires one TTL after its fetch, the least
  -- TTL is at most the greatest, and `MaxAge` lies strictly below the largest duration.)
  pub serve_dns-late :
      (at' : Readings RR) (net' : Network RR Err) (id : ℕ) (resp : Msg RR) (u : Bytes) (rtt : ℤ)
      (later wnow : ℕ)
      → resolve dns net' us (dns.set_question id q.name q.qtype) ≡ resolved resp u rtt
      → is_cacheable resp ≡ true
      → c.config.ttl_min ≤ℤ c.config.ttl_max
      → pos later ≤ℤ add (pos at'.set_now) c.config.ttl_min
      → let out = serve_dns dns zone us is_tcp at joined net req c in
        ((m : Msg RR) × (out.1.reply ≡ some m) × (m.rcode ≡ e.response.rcode) × (m.id ≡ req.id))
        × (out.1.refresh ≡ some q)
        × ((e' : Entry RR) × ((get zone later wnow
                (key dns q.name q.qtype)
                (background_refresh dns zone us at' id none net' q out.0)).1
              ≡ some e')
            × (e'.response ≡ resp))
  serve_dns-late at' net' id resp u rtt later wnow got good bounds soon =
      let aged = copy_and_set_ttl dns handed.response (ttl_for_entry handed (pos at.ttl_now)) in
      let codes =
        copy_and_set_ttl-All dns handed.response (ttl_for_entry handed (pos at.ttl_now)) in
      let written = respond-rcode dns is_tcp req aged in
      rw served_late (
        (
          respond dns is_tcp req aged,
          refl,
          written.0 ∙ codes.4 ∙ ap Msg.rcode response-handed,
          written.1,
        ),
        refl,
        background_refresh-get at' net' id resp u rtt later wnow _ config-handed got good bounds
            soon,
      )
