-- ===== src/Handler.antt =====
-- The handler (handler.go). One request is one step on the cache; the clock's readings, the order
-- of the eviction's range and the network are arguments. `singleflight` is a parameter too: a
-- request may join a query for its key that is in flight, and then takes that query's result and
-- leaves the cache to it. A refresh in the background is a step of its own.
pub mod Reply
pub mod Serve
use dns_cache.Prelude.{
  ℕ, ◌%◌, ◌^◌, Bool, true, false, ◌||◌, List, [], ◌∷◌, Option, none, some, ◌==◌, ltb, if◌then◌else◌,
  max, min,
}
use dns_cache.Prelude.Decimal.{Bytes}
use dns_cache.Prelude.Int.{ℤ, pos, leb_ℤ, quot, to_u64}
use dns_cache.Time.{Instant, Duration, second}
use dns_cache.Dns.{
  Dns, Msg, Question, rcode_success, rcode_server_failure, rcode_name_error, min_msg_size,
  max_msg_size,
}
use dns_cache.Entry.{Entry, is_expired_at, ttl_remaining}
use dns_cache.Entry.Key.{key}
use dns_cache.Entry.Message.{copy_and_set_ttl}
use dns_cache.Cache.{Cache, get, get_stale, incr_queries, incr_errors}
use dns_cache.Cache.Insert.{set}
use dns_cache.Resolver.{
  Network, Resolution, resolved, no_upstreams, all_failed, out_of_range, resolve, strip_opt,
}

abbrev pub max_udp_size : ℕ
max_udp_size = 1232

-- `isCacheable`
unfoldable pub is_cacheable : {RR : Type 0} → Msg RR → Bool
is_cacheable resp =
    if resp.truncated
    then false
    else (resp.rcode == rcode_success || resp.rcode == rcode_name_error)

-- `ttlForEntry` at a reading of the clock
unfoldable pub ttl_for_entry : {RR : Type 0} → Entry RR → Instant → ℕ
unfolding ttl_remaining
ttl_for_entry e now =
    let r = ttl_remaining e now in if leb_ℤ r (pos 0) then 30 else to_u64 (quot r second) % 2 ^ 32

-- The readings of the clock in one request, in the order of the code
pub record Readings (RR : Type 0) : Type 0 where
  pub get_now : ℕ
  pub window_now : ℕ
  pub expired_now : ℕ
  pub ttl_now : ℕ
  pub set_now : ℕ
  pub evict_now : ℕ
  pub stale_now : ℕ
  pub stale_hit : ℕ
  -- The order in which `evictOne` meets the entries
  pub range : List (Bytes × Entry RR)

-- What a request leads to: the message written, and the question whose refresh is started
pub record Served (RR : Type 0) : Type 0 where
  pub reply : Option (Msg RR)
  pub refresh : Option Question

module _ {RR : Type 0} (dns : Dns RR) where
  open dns use {set_reply, is_edns0, set_edns0, udp_size, do_flag, truncate, new_msg, ttl, copy}

  -- The size that a client accepts over UDP
  unfoldable pub client_size : Msg RR → ℕ
  client_size req = elim (is_edns0 req) [
    | none ↦ min_msg_size
    | some opt ↦ min (max (udp_size opt) min_msg_size) max_udp_size
  ]

  -- The reply of `respond` without an OPT record
  unfoldable pub plain_reply : Msg RR → Msg RR → Msg RR
  plain_reply req resp =
      let answer = record (set_reply req resp) { rcode = resp.rcode } in
      elim (is_edns0 answer) [
        | none ↦ answer
        | some opt ↦ record answer { extra = strip_opt dns answer.extra }
      ]

  -- `respond` up to the size: the plain reply, with an OPT record if the client sent one
  unfoldable pub adapt : Msg RR → Msg RR → Msg RR
  unfolding client_size plain_reply
  adapt req resp = elim (is_edns0 req) [
    | none ↦ plain_reply req resp
    | some opt ↦ set_edns0 (client_size req % 2 ^ 16) (do_flag opt) (plain_reply req resp)
  ]

  -- The message that `respond` writes
  unfoldable pub respond : Bool → Msg RR → Msg RR → Msg RR
  unfolding adapt client_size
  respond is_tcp req resp =
      let size = if is_tcp then max_msg_size else client_size req in
      truncate size (record (adapt req resp) { compress = true })

  -- The reply when nothing can be served
  unfoldable pub server_failure : Msg RR → Msg RR
  server_failure req = record (set_reply req new_msg) { rcode = rcode_server_failure }

  -- The TTL of the first answer, which `Set` is given
  unfoldable pub first_ttl : Msg RR → ℕ
  first_ttl resp = elim resp.answer [ [] ↦ 0 | rr ∷ _ ↦ ttl rr ]

  -- `ServeDNS` after an error
  unfoldable pub serve_failed :
      Bool → Readings RR → Bytes → Msg RR → Cache RR → Cache RR × Served RR
  unfolding get_stale incr_errors copy_and_set_ttl respond server_failure
  serve_failed is_tcp at k req c =
      let (c', stale) = get_stale at.stale_now at.stale_hit k (incr_errors c) in
      elim stale [
        | some e ↦ (
          c',
          record {
            reply = some (respond is_tcp req (copy_and_set_ttl dns e.response 30));
            refresh = none;
          },
        )
        | none ↦ (c', record { reply = some (server_failure req); refresh = none })
      ]

  module _ {Err : Type 0} (zone : Instant → ℤ) (upstreams : List Bytes) where
    -- The function that `resolveAndCache` returns, for the message's first question
    unfoldable pub resolve_and_cache :
        Readings RR → Network RR Err → Question → Msg RR → Cache RR → Cache RR × Resolution RR Err
    unfolding resolve is_cacheable first_ttl set
    resolve_and_cache at net q msg c = elim (resolve dns net upstreams msg) [
      | resolved resp upstream rtt ↦ (
        if is_cacheable resp
            then set dns zone at.set_now at.evict_now at.range q.name q.qtype resp (first_ttl resp)
                c
            else c,
        resolved resp upstream rtt,
      )
      | no_upstreams ↦ (c, no_upstreams)
      | all_failed errs ↦ (c, all_failed errs)
      | out_of_range ↦ (c, out_of_range)
    ]

    -- `inflight.Do`: a result that another request shares, or the call
    unfoldable pub do_once :
        Option (Resolution RR Err)
        → Readings RR
        → Network RR Err
        → Question
        → Msg RR
        → Cache RR
        → Cache RR × Resolution RR Err
    unfolding resolve_and_cache
    do_once (some res) at net q msg c = (c, res)
    do_once none at net q msg c = resolve_and_cache at net q msg c

    -- `ServeDNS` on a miss
    unfoldable pub serve_miss :
        Bool
        → Readings RR
        → Option (Resolution RR Err)
        → Network RR Err
        → Question
        → Msg RR
        → Cache RR
        → Cache RR × Served RR
    unfolding do_once serve_failed
    serve_miss is_tcp at joined net q req c =
        let (c', res) = do_once joined at net q req c in
        let k = key dns q.name q.qtype in
        elim res [
          | resolved resp upstream rtt ↦
              (c', record { reply = some (respond is_tcp req (copy resp)); refresh = none })
          | no_upstreams ↦ serve_failed is_tcp at k req c'
          | all_failed errs ↦ serve_failed is_tcp at k req c'
          | out_of_range ↦ (c', record { reply = none; refresh = none })
        ]

    -- `ServeDNS`
    unfoldable pub serve_dns :
        Bool
        → Readings RR
        → Option (Resolution RR Err)
        → Network RR Err
        → Msg RR
        → Cache RR
        → Cache RR × Served RR
    unfolding incr_queries get serve_miss ttl_for_entry
    serve_dns is_tcp at joined net req c = elim req.question [
      | [] ↦ (c, record { reply = none; refresh = none })
      | q ∷ _ ↦
          let (c', found) =
            get zone at.get_now at.window_now (key dns q.name q.qtype) (incr_queries c) in
          elim found [
            | some e ↦ (
              c',
              record {
                reply = some (
                    respond is_tcp req
                      (copy_and_set_ttl dns e.response (ttl_for_entry e (pos at.ttl_now))));
                refresh = if is_expired_at e (pos at.expired_now) then some q else none;
              },
            )
            | none ↦ serve_miss is_tcp at joined net q req c'
          ]
    ]

    -- The background refresh: `DoChan` with a new query for the question
    unfoldable pub background_refresh :
        Readings RR
        → ℕ
        → Option (Resolution RR Err)
        → Network RR Err
        → Question
        → Cache RR
        → Cache RR
    unfolding do_once
    background_refresh at id joined net q c =
        (do_once joined at net q (dns.set_question id q.name q.qtype) c).0
