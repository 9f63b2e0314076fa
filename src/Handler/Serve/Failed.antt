-- ===== src/Handler/Serve/Failed.antt =====
-- What a client gets when the upstream servers fail.
use dns_cache.Prelude.{
  ℕ, ◌≡◌, refl, ap, ◌∙◌, Bool, true, false, ◌||◌, not, List, ◌∷◌, none, some, if◌then◌else◌,
  Bool-cases, inl, inr, Option-cases,
}
use dns_cache.Prelude.Assoc.{lookup-store_self}
use dns_cache.Prelude.Decimal.{Bytes, Bytes-discrete}
use dns_cache.Prelude.Int.{ℤ, pos, ltb_ℤ}
use dns_cache.Time.{Instant, add, sub}
use dns_cache.Dns.{Dns, Msg, Question, rcode_server_failure}
use dns_cache.Entry.{Entry}
use dns_cache.Entry.Key.{key}
use dns_cache.Entry.Message.{copy_and_set_ttl, copy_and_set_ttl-All}
use dns_cache.Window.{incr}
use dns_cache.Cache.{
  Cache, find, assign, count_miss, get, get_stale, too_old, asked, stale_max_age, incr_queries,
  incr_errors,
}
use dns_cache.Cache.Freshness.{get_stale-serves}
use dns_cache.Resolver.{Network, UpstreamError, all_failed, resolve}
use dns_cache.Handler.{
  Readings, Served, serve_failed, serve_miss, serve_dns, do_once, resolve_and_cache, respond,
  server_failure,
}
use dns_cache.Handler.Reply.{respond-rcode}

module _ {RR : Type 0} (dns : Dns RR) (at : Readings RR) where
  -- The reply's code, and the count of errors
  abbrev pub FailsWith : ℕ → ℕ → Cache RR × Served RR → Type 0
  FailsWith code errors out =
      (m : Msg RR) × (out.1.reply ≡ some m) × (m.rcode ≡ code) × (out.0.errs ≡ errors)

  errs-get_stale :
      (now later : ℕ) (k : Bytes) (c : Cache RR) → (get_stale now later k c).0.errs ≡ c.errs
  unfolding get_stale
  errs-get_stale now later k c = elim (Bool-cases c.config.stale_serving) [
    | inr off ↦ simp (get_stale, off) refl
    | inl on ↦ elim (Option-cases (find k c)) [
      | inl absent ↦ simp (get_stale, on, absent) refl
      | inr (e, found) ↦ elim (Bool-cases (ltb_ℤ stale_max_age (sub (pos now) e.expires_at))) [
        | inl gone ↦ simp (get_stale, on, found, gone) refl
        | inr there ↦ simp (get_stale, on, found, there) refl
      ]
    ]
  ]

  serve_failed-FailsWith :
      (is_tcp stale_gone : Bool) (k : Bytes) (req : Msg RR) (c : Cache RR) (e' : Entry RR)
      → (get_stale at.stale_now at.stale_hit k (incr_errors c)).1
        ≡ (if stale_gone then none else some e')
      → FailsWith
          (if stale_gone then rcode_server_failure else Msg.rcode e'.response)
          (incr c.errs)
          (serve_failed dns is_tcp at k req c)
  unfolding serve_failed incr_errors server_failure
  serve_failed-FailsWith is_tcp true k req c e' gone =
      simp (serve_failed, gone)
        (
          server_failure dns req,
          refl,
          refl,
          errs-get_stale at.stale_now at.stale_hit k (incr_errors c),
        )
  serve_failed-FailsWith is_tcp false k req c e' there =
      let reply = copy_and_set_ttl dns e'.response 30 in
      simp (serve_failed, there)
        (
          respond dns is_tcp req reply,
          refl,
          (respond-rcode dns is_tcp req reply).0 ∙ (copy_and_set_ttl-All dns e'.response 30).4,
          errs-get_stale at.stale_now at.stale_hit k (incr_errors c),
        )

module _ {RR Err : Type 0} (dns : Dns RR) (zone : Instant → ℤ) (us : List Bytes) (at : Readings RR)
    (net : Network RR Err) where
  get_old :
      (k : Bytes) (now wnow : ℕ) (c : Cache RR) (e : Entry RR)
      → find k c ≡ some e
      → too_old c.config now (asked zone now e) ≡ true
      → get zone now wnow k c ≡ (count_miss wnow (assign k (asked zone now e) c), none)
  unfolding get
  get_old k now wnow c e found old = rw (get, found, old) refl

  do_once-failed :
      (q : Question) (req : Msg RR) (c : Cache RR) (errs : List (UpstreamError Err))
      → resolve dns net us req ≡ all_failed errs
      → do_once dns zone us none at net q req c ≡ (c, all_failed errs)
  unfolding do_once resolve_and_cache
  do_once-failed q req c errs down = rw (resolve_and_cache, down) refl

  serve_miss-failed :
      (is_tcp : Bool) (q : Question) (req : Msg RR) (c : Cache RR) (errs : List (UpstreamError Err))
      → resolve dns net us req ≡ all_failed errs
      → serve_miss dns zone us is_tcp at none net q req c
        ≡ serve_failed dns is_tcp at (key dns q.name q.qtype) req c
  unfolding serve_miss
  serve_miss-failed is_tcp q req c errs down =
      let both = do_once-failed q req c errs down in
      rw (serve_miss, ap (λ r. r.1) both)
        (ap (λ r. serve_failed dns is_tcp at (key dns q.name q.qtype) req r.0) both)

  -- When a stored answer is too old to be served and no upstream server answers, the client gets
  -- the code of the stored answer, if stale serving is on and at most 24 hours have passed since
  -- the entry expired, and otherwise a server failure. The request counts as one error.
  pub serve_dns-FailsWith :
      (is_tcp : Bool) (q : Question) (qs : List Question) (req : Msg RR) (c : Cache RR)
      (e : Entry RR) (errs : List (UpstreamError Err))
      → req.question ≡ q ∷ qs
      → find (key dns q.name q.qtype) c ≡ some e
      → too_old c.config at.get_now (asked zone at.get_now e) ≡ true
      → resolve dns net us req ≡ all_failed errs
      → FailsWith dns at
          (if not c.config.stale_serving
              || ltb_ℤ (add e.expires_at stale_max_age) (pos at.stale_now)
            then rcode_server_failure
            else Msg.rcode e.response)
          (incr c.errs)
          (serve_dns dns zone us is_tcp at none net req c)
  unfolding serve_dns incr_queries incr_errors asked
  serve_dns-FailsWith is_tcp q qs req c e errs asks found old down =
      let k = key dns q.name q.qtype in
      let e' : Entry RR = asked zone at.get_now e in
      let c' : Cache RR = count_miss at.window_now (assign k e' (incr_queries c)) in
      let missed = get_old k at.get_now at.window_now (incr_queries c) e found old in
      let there : find k (incr_errors c') ≡ some e' =
        lookup-store_self Bytes-discrete k e' c.entries in
      let stale = get_stale-serves at.stale_now at.stale_hit k (incr_errors c') e' there in
      let answered = serve_failed-FailsWith dns at is_tcp _ k req c' _ stale in
      simp (serve_dns, asks, missed, serve_miss-failed is_tcp q req c' errs down) answered
