-- ===== src/Resolver/Query.antt =====
-- The query that goes to the upstream servers.
use dns_cache.Prelude.{◌≡◌, ◌≢◌, refl, ap, ◌∙◌, arith, true, List, [], ◌∷◌, ◌++◌, All, keep, ◌==◌}
use dns_cache.Dns.{Dns, Msg, type_opt, default_msg_size}
use dns_cache.Resolver.{strip_opt, upstream_query}

module _ {RR : Type 0} (dns : Dns RR) where
  open dns use {copy_same, rrtype, new_opt, rrtype-new_opt, set_edns0-appends}

  -- The OPT records of a section
  abbrev pub opts : List RR → List RR
  opts rrs = keep (λ rr. rrtype rr == type_opt) rrs

  pub opts-strip_opt : (rrs : List RR) → opts (strip_opt dns rrs) ≡ []
  opts-strip_opt [] = refl
  opts-strip_opt (r ∷ rrs) = ground (arith, opts-strip_opt rrs)

  pub strip_opt_idem : (rrs : List RR) → strip_opt dns (strip_opt dns rrs) ≡ strip_opt dns rrs
  strip_opt_idem [] = refl
  strip_opt_idem (r ∷ rrs) = ground (arith, strip_opt_idem rrs)

  pub opts-append_opt :
      (rrs : List RR) (r : RR) → rrtype r ≡ type_opt → opts (rrs ++ r ∷ []) ≡ opts rrs ++ r ∷ []
  opts-append_opt [] r h = ground arith
  opts-append_opt (s ∷ rrs) r h = ground (arith, opts-append_opt rrs r h)

  pub strip_opt-append_opt :
      (rrs : List RR) (r : RR)
      → rrtype r ≡ type_opt
      → strip_opt dns (rrs ++ r ∷ []) ≡ strip_opt dns rrs
  strip_opt-append_opt [] r h = ground arith
  strip_opt-append_opt (s ∷ rrs) r h = ground (arith, strip_opt-append_opt rrs r h)

  pub opts_none : (rrs : List RR) → All (λ r. rrtype r ≢ type_opt) rrs → opts rrs ≡ []
  opts_none [] a = refl
  opts_none (r ∷ rrs) a = ground (arith, opts_none rrs a.1)

  -- The query that goes out asks the message's questions and carries exactly one OPT record, the
  -- server's own with a buffer of 4096 bytes, however many the message has; the other records of
  -- the message go along.
  pub upstream_query-opts :
      (msg : Msg RR)
      → (Msg.question (upstream_query dns msg) ≡ msg.question)
        × (opts (Msg.extra (upstream_query dns msg)) ≡ new_opt default_msg_size true ∷ [])
        × (strip_opt dns (Msg.extra (upstream_query dns msg)) ≡ strip_opt dns msg.extra)
  unfolding upstream_query
  upstream_query-opts msg =
      let own = new_opt default_msg_size true in
      let kind = rrtype-new_opt default_msg_size true in
      simp (copy_same msg, set_edns0-appends)
        (
          refl,
          opts-append_opt (strip_opt dns msg.extra) own kind
              ∙ ap (λ l. l ++ own ∷ []) (opts-strip_opt msg.extra),
          strip_opt-append_opt (strip_opt dns msg.extra) own kind ∙ strip_opt_idem msg.extra,
        )
