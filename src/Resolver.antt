-- ===== src/Resolver.antt =====
-- The resolver (resolver.go): it asks the upstream servers in a random order until one answers.
-- The network is a parameter: for each server, by its place in the list, what the UDP client's and
-- the TCP client's `Exchange` return. The text of the last error is the list of its parts.
pub mod Search
pub mod Query
use dns_cache.Prelude.{
  ℕ, zero, suc, Bool, true, List, [], ◌∷◌, ◌++◌, Option, none, some, if◌then◌else◌, get_elem?, keep,
  not, ◌==◌,
}
use dns_cache.Prelude.Decimal.{Bytes, codes}
use dns_cache.Prelude.Int.{◌+ℤ◌, wrap64}
use dns_cache.Time.{Duration}
use dns_cache.Dns.{Dns, Msg, type_opt, default_msg_size}

-- What `Exchange` returns: an error, or no error and perhaps a message, with the time it took.
pub data Exchange (RR Err : Type 0) : Type 0 where
  failed : Err → Exchange RR Err
  silent : Exchange RR Err
  answered : Msg RR → Duration → Exchange RR Err

pub record UpstreamError (Err : Type 0) : Type 0 where
  pub server : Bytes
  pub err : Err

pub data Resolution (RR Err : Type 0) : Type 0 where
  resolved : Msg RR → Bytes → Duration → Resolution RR Err
  no_upstreams : Resolution RR Err
  all_failed : List (UpstreamError Err) → Resolution RR Err
  -- An index outside the list, which stops the program
  out_of_range : Resolution RR Err

-- What one call of `Resolve` meets: `ctx.Err()` before each round, the two clients, `rand.Perm`
pub record Network (RR Err : Type 0) : Type 0 where
  pub ctx_err : ℕ → Option Err
  pub udp : ℕ → Msg RR → Exchange RR Err
  pub tcp : ℕ → Msg RR → Exchange RR Err
  pub order : List ℕ

module _ {RR : Type 0} (dns : Dns RR) where
  open dns use {copy, rrtype, set_edns0}

  -- `stripOPT` of handler.go
  abbrev pub strip_opt : List RR → List RR
  strip_opt rrs = keep (λ rr. not (rrtype rr == type_opt)) rrs

  -- The message that goes to the upstream servers
  unfoldable pub upstream_query : Msg RR → Msg RR
  upstream_query msg =
      let out = copy msg in
      set_edns0 default_msg_size true (record out { extra = strip_opt out.extra })

module _ {RR Err : Type 0} (net : Network RR Err) (upstreams : List Bytes) (out : Msg RR) where
  open net use {ctx_err, udp, tcp}

  -- A truncated answer is asked for again over TCP, and kept if that fails.
  unfoldable pub complete : ℕ → Msg RR → Bytes → Duration → Resolution RR Err
  complete idx resp upstream rtt =
      if resp.truncated
      then elim (tcp idx out) [
        | answered full rtt2 ↦ resolved full upstream (wrap64 (rtt +ℤ rtt2))
        | failed err ↦ resolved resp upstream rtt
        | silent ↦ resolved resp upstream rtt
      ]
      else resolved resp upstream rtt

  -- The loop over the order, at a round, with the errors so far
  unfoldable pub resolve_loop : ℕ → List ℕ → List (UpstreamError Err) → Resolution RR Err
  unfolding complete
  resolve_loop round [] errs = all_failed errs
  resolve_loop round (idx ∷ rest) errs = elim (ctx_err round) [
    | some err ↦ all_failed (errs ++ record { server = codes "context"; err = err } ∷ [])
    | none ↦ elim (get_elem? upstreams idx) [
      | none ↦ out_of_range
      | some upstream ↦ elim (udp idx out) [
        | failed err ↦
            resolve_loop (suc round) rest (errs ++ record { server = upstream; err = err } ∷ [])
        | silent ↦ resolve_loop (suc round) rest errs
        | answered resp rtt ↦ complete idx resp upstream rtt
      ]
    ]
  ]

-- `Resolve`
unfoldable pub resolve :
    {RR Err : Type 0} → Dns RR → Network RR Err → List Bytes → Msg RR → Resolution RR Err
unfolding resolve_loop upstream_query
resolve dns net [] msg = no_upstreams
resolve dns net (u ∷ us) msg = resolve_loop net (u ∷ us) (upstream_query dns msg) 0 net.order []
