-- ===== src/Handler/Reply.antt =====
-- The reply that `respond` writes.
use dns_cache.Prelude.{
  ℕ, ◌^◌, ◌%◌, ◌≤◌, ◌≡◌, refl, sym, ap, ◌∙◌, arith, Bool, true, false, List, [], ◌∷◌, ◌++◌, Option,
  none, some, if◌then◌else◌, inl, inr, Option-cases,
}
use dns_cache.Dns.{Dns, Msg, min_msg_size, max_msg_size}
use dns_cache.Resolver.{strip_opt}
use dns_cache.Resolver.Query.{
  opts, opts-strip_opt, strip_opt_idem, opts-append_opt, strip_opt-append_opt, opts_none,
}
use dns_cache.Handler.{max_udp_size, client_size, plain_reply, adapt, respond}

module _ {RR : Type 0} (dns : Dns RR) where
  open dns use {
    is_edns0, is_edns0-none, new_opt, rrtype-new_opt, set_edns0-appends, do_flag, truncate,
    udp_size, id-set_reply, answer-set_reply, ns-set_reply, extra-set_reply, set_reply,
    rcode-truncate, id-truncate,
  }

  -- A size over UDP lies between 512 and 1232.
  client_size-bounds :
      (req : Msg RR) → (min_msg_size ≤ client_size dns req) × (client_size dns req ≤ max_udp_size)
  unfolding client_size
  client_size-bounds req = elim (Option-cases (is_edns0 req)) [
    | inl absent ↦ rw (client_size, absent) (omega arith)
    | inr (opt, found) ↦ rw (client_size, found) (omega arith)
  ]

  -- The OPT records that the client is to see: one if it sent one
  abbrev pub opt_for : ℕ → Option RR → List RR
  opt_for size none = []
  opt_for size (some opt) = new_opt (size % 2 ^ 16) (do_flag opt) ∷ []

  abbrev pub own_opt : Msg RR → List RR
  own_opt req = opt_for (client_size dns req) (is_edns0 req)

  -- What is written answers the request with the response's content.
  pub record Answers (req resp m : Msg RR) : Type 0 where
    pub rcode : m.rcode ≡ resp.rcode
    pub id : m.id ≡ req.id
    pub answer : m.answer ≡ resp.answer
    pub ns : m.ns ≡ resp.ns
    pub others : strip_opt dns m.extra ≡ strip_opt dns resp.extra
    pub own : opts dns m.extra ≡ own_opt req

  strip_opt_none : (rrs : List RR) → opts dns rrs ≡ [] → strip_opt dns rrs ≡ rrs
  strip_opt_none [] h = refl
  strip_opt_none (r ∷ rrs) h = ground (arith, strip_opt_none rrs)

  abbrev answer_to : Msg RR → Msg RR → Msg RR
  answer_to req resp = record (set_reply req resp) { rcode = resp.rcode }

  plain_reply-eq :
      (req resp : Msg RR)
      → plain_reply dns req resp ≡ record (answer_to req resp) { extra = strip_opt dns resp.extra }
  unfolding plain_reply
  plain_reply-eq req resp = elim (Option-cases (is_edns0 (answer_to req resp))) [
    | inl absent ↦
        let none_there : opts dns (Msg.extra (answer_to req resp)) ≡ [] =
          opts_none dns _ (is_edns0-none (answer_to req resp) absent) in
        let kept : strip_opt dns resp.extra ≡ Msg.extra (answer_to req resp) =
          ap (strip_opt dns) (sym (extra-set_reply req resp)) ∙ strip_opt_none _ none_there in
        rw (plain_reply, absent) (ap (λ l. record (answer_to req resp) { extra = l }) (sym kept))
    | inr (opt, found) ↦
        rw (plain_reply, found)
          (ap (λ l. record (answer_to req resp) { extra = strip_opt dns l })
            (extra-set_reply req resp))
  ]

  adapt-Answers : (req resp : Msg RR) → Answers req resp (adapt dns req resp)
  unfolding adapt
  adapt-Answers req resp = elim (Option-cases (is_edns0 req)) [
    | inl absent ↦
        simp (adapt, absent, plain_reply-eq req resp)
          (record {
            rcode = refl;
            id = id-set_reply req resp;
            answer = answer-set_reply req resp;
            ns = ns-set_reply req resp;
            others = strip_opt_idem dns resp.extra;
            own = opts-strip_opt dns resp.extra ∙ sym (ap (opt_for (client_size dns req)) absent);
          })
    | inr (opt, found) ↦
        let size = client_size dns req % 2 ^ 16 in
        let kind = rrtype-new_opt size (do_flag opt) in
        simp (adapt, found, plain_reply-eq req resp, set_edns0-appends)
          (record {
            rcode = refl;
            id = id-set_reply req resp;
            answer = answer-set_reply req resp;
            ns = ns-set_reply req resp;
            others = strip_opt-append_opt dns _ _ kind ∙ strip_opt_idem dns resp.extra;
            own =
                opts-append_opt dns _ _ kind
                ∙ ap (λ l. l ++ new_opt size (do_flag opt) ∷ []) (opts-strip_opt dns resp.extra)
                ∙ sym (ap (opt_for (client_size dns req)) found);
          })
  ]

  compressed :
      (req resp : Msg RR) → Answers req resp (record (adapt dns req resp) { compress = true })
  compressed req resp =
      let a = adapt-Answers req resp in
      record {
        rcode = a.rcode;
        id = a.id;
        answer = a.answer;
        ns = a.ns;
        others = a.others;
        own = a.own;
      }

  -- `respond` writes the response's code and records under the request's identifier, and exactly
  -- one OPT record if the client sent one, else none, whatever OPT records the response had. It
  -- is cut to a size that is 65535 over TCP and between 512 and 1232 over UDP.
  pub respond-Answers :
      (is_tcp : Bool) (req resp : Msg RR)
      → (m : Msg RR) × (size : ℕ) × (respond dns is_tcp req resp ≡ truncate size m)
        × Answers req resp m
        × (m.compress ≡ true)
        × (if is_tcp then size ≡ max_msg_size else (min_msg_size ≤ size) × (size ≤ max_udp_size))
  unfolding respond
  respond-Answers true req resp = (_, max_msg_size, refl, compressed req resp, refl, refl)
  respond-Answers false req resp =
      (_, client_size dns req, refl, compressed req resp, refl, client_size-bounds req)

  -- The code and the identifier survive the cut, too.
  pub respond-rcode :
      (is_tcp : Bool) (req resp : Msg RR)
      → (Msg.rcode (respond dns is_tcp req resp) ≡ resp.rcode)
        × (Msg.id (respond dns is_tcp req resp) ≡ req.id)
  respond-rcode is_tcp req resp =
      let (m, size, e, a, packed, sized) = respond-Answers is_tcp req resp in
      (ap Msg.rcode e ∙ rcode-truncate size m ∙ a.rcode, ap Msg.id e ∙ id-truncate size m ∙ a.id)
