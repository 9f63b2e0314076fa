-- ===== src/Handler/Serve/Again.antt =====
-- An answer that has been stored serves the next requests without a query.
use mathlib.Core.Option
use mathlib.Core.Path.{subst}
use dns_cache.Prelude.{ℕ, ◌≡◌, ◌≢◌, refl, sym, ap, ◌∙◌, Bool, true, List, ◌∷◌, Option, some}
use dns_cache.Prelude.Assoc.{lookup-remove_ne}
use dns_cache.Prelude.Decimal.{Bytes, Bytes-discrete}
use dns_cache.Prelude.Int.{ℤ, pos, ◌≤ℤ◌}
use dns_cache.Time.{Instant, add}
use dns_cache.Dns.{Dns, Msg, Question}
use dns_cache.Entry.{Entry}
use dns_cache.Entry.Key.{key, key-eq_iff}
use dns_cache.Entry.Message.{copy_and_set_ttl, copy_and_set_ttl-All}
use dns_cache.Cache.{Cache, find, get, get_stale, delete, incr_queries, incr_errors, served, asked}
use dns_cache.Cache.Freshness.{IsPassable, get-serve_until}
use dns_cache.Cache.Reads.{answer, found_before, get-keeps_answers, get_stale-keeps_answers}
use dns_cache.Cache.Run.{get-AddsNone, get_stale-AddsNone}
use dns_cache.Cache.Insert.{set, victim}
use dns_cache.Cache.Insert.Lookup.{config-set, find-set_ne, within, response-asked}
use dns_cache.Cache.Insert.Ttl.{set-Stored}
use dns_cache.Resolver.{Network, Resolution, resolved, resolve}
use dns_cache.Handler.{
  Readings, is_cacheable, first_ttl, resolve_and_cache, serve_dns, respond, ttl_for_entry,
}
use dns_cache.Handler.Reply.{respond-rcode}

module _ {RR : Type 0} (dns : Dns RR) (zone : Instant → ℤ) where
  -- Calls on the cache, in any number and order, none of which stores, drops or evicts the entry of
  -- the key: `Get` and `GetStale` of any key, the counters, `Set` of other keys that evicts another
  -- entry or none, and `Delete` of other keys
  pub data Spares (k : Bytes) (c : Cache RR) : Cache RR → Type 0 where
    rests : Spares k c c
    then_gets :
        {d : Cache RR}
        → Spares k c d
        → (now wnow : ℕ) (j : Bytes) → Spares k c (get zone now wnow j d).0
    then_gets_stale :
        {d : Cache RR}
        → Spares k c d
        → (now later : ℕ) (j : Bytes) → Spares k c (get_stale now later j d).0
    then_counts_query : {d : Cache RR} → Spares k c d → Spares k c (incr_queries d)
    then_counts_error : {d : Cache RR} → Spares k c d → Spares k c (incr_errors d)
    then_sets :
        {d : Cache RR}
        → Spares k c d
        → (now enow : ℕ) (range : List (Bytes × Entry RR)) (qname : Bytes) (qtype : ℕ)
          (resp : Msg RR) (ttl : ℕ)
        → key dns qname qtype ≢ k
        → victim (pos enow) range d.entries ≢ some k
        → Spares k c (set dns zone now enow range qname qtype resp ttl d)
    then_deletes : {d : Cache RR} → Spares k c d → (j : Bytes) → j ≢ k → Spares k c (delete j d)

  -- The entry of the key keeps its answer, and the configuration stays.
  abbrev Same : Bytes → Cache RR → Cache RR → Type 0
  Same k c d = (d.config ≡ c.config) × (Option.map answer (find k d) ≡ Option.map answer (find k c))

  Spares-Same : (k : Bytes) (c : Cache RR) {d : Cache RR} → Spares k c d → Same k c d
  unfolding incr_queries incr_errors delete
  Spares-Same k c rests = (refl, refl)
  Spares-Same k c (then_gets {d} r now wnow j) =
      let before = Spares-Same k c r in
      (
        (get-AddsNone zone now wnow j d).same_config ∙ before.0,
        get-keeps_answers zone now wnow j d k ∙ before.1,
      )
  Spares-Same k c (then_gets_stale {d} r now later j) =
      let before = Spares-Same k c r in
      (
        (get_stale-AddsNone now later j d).same_config ∙ before.0,
        get_stale-keeps_answers now later j k d ∙ before.1,
      )
  Spares-Same k c (then_counts_query r) = Spares-Same k c r
  Spares-Same k c (then_counts_error r) = Spares-Same k c r
  Spares-Same k c (then_sets {d} r now enow range qname qtype resp ttl other spared) =
      let before = Spares-Same k c r in
      (
        config-set dns zone now enow range qname qtype resp ttl d ∙ before.0,
        ap (Option.map answer)
              (find-set_ne dns zone now enow range qname qtype resp ttl d k other spared)
            ∙ before.1,
      )
  Spares-Same k c (then_deletes {d} r j other) =
      let before = Spares-Same k c r in
      (
        before.0,
        ap (Option.map answer) (lookup-remove_ne Bytes-discrete j k d.entries other) ∙ before.1,
      )

  get_within :
      (k : Bytes) (stored later wnow : ℕ) (least : ℤ) (d : Cache RR) (e : Entry RR)
      → find k d ≡ some e
      → e.stored_at ≡ pos stored
      → e.expires_at ≡ add (pos stored) e.cached_ttl
      → least ≤ℤ e.cached_ttl
      → IsPassable d.config.max_age
      → pos later ≤ℤ add (pos stored) least
      → (get zone later wnow k d).1 ≡ some (served (asked zone later e))
  get_within k stored later wnow least d e found since ends at_least passable soon =
      get-serve_until zone later wnow k d e found (rw (since, ends)) passable
      ∙ rw
          (since, within (pos stored) e.cached_ttl d.config.max_age (pos later) least soon at_least)

  -- What `Get` returns for as long as the least TTL after `Set`, if the entry has been spared
  Spares-get :
      (now enow : ℕ) (range : List (Bytes × Entry RR)) (qname : Bytes) (qtype : ℕ) (resp : Msg RR)
      (ttl later wnow : ℕ) (c : Cache RR) {d : Cache RR}
      → c.config.ttl_min ≤ℤ c.config.ttl_max
      → IsPassable c.config.max_age
      → Spares (key dns qname qtype) (set dns zone now enow range qname qtype resp ttl c) d
      → pos later ≤ℤ add (pos now) c.config.ttl_min
      → (e : Entry RR) × ((get zone later wnow (key dns qname qtype) d).1 ≡ some e)
        × (e.response ≡ resp)
  Spares-get now enow range qname qtype resp ttl later wnow c {d} bounds passable spares soon =
      let k = key dns qname qtype in
      let c' = set dns zone now enow range qname qtype resp ttl c in
      let (e, st) = set-Stored dns zone now enow range qname qtype resp ttl c bounds in
      let (configured, same) = Spares-Same k c' spares in
      let config : d.config ≡ c.config =
        configured ∙ config-set dns zone now enow range qname qtype resp ttl c in
      let (e', found, kept) = found_before k d c' e (sym same) st.found in
      let lasts : e'.cached_ttl ≡ e.cached_ttl = ap (λ a. a.5) kept in
      (
        served (asked zone later e'),
        get_within k now later wnow c.config.ttl_min d e' found (ap (λ a. a.3) kept ∙ st.stored_at)
            (ap (λ a. a.6) kept ∙ st.expires_at ∙ ap (add (pos now)) (sym lasts))
            (rw lasts st.at_least) (rw config passable) soon,
        response-asked zone later e' ∙ ap (λ a. a.2) kept ∙ st.response,
      )

module _ {RR Err : Type 0} (dns : Dns RR) (zone : Instant → ℤ) (us : List Bytes) where
  pub resolve_and_cache-set :
      (at : Readings RR) (net : Network RR Err) (q : Question) (msg resp : Msg RR) (u : Bytes)
      (rtt : ℤ) (c : Cache RR)
      → resolve dns net us msg ≡ resolved resp u rtt
      → is_cacheable resp ≡ true
      → (resolve_and_cache dns zone us at net q msg c).0
        ≡ set dns zone at.set_now at.evict_now at.range q.name q.qtype resp (first_ttl dns resp) c
  unfolding resolve_and_cache
  resolve_and_cache-set at net q msg resp u rtt c e good = rw (resolve_and_cache, e, good) refl

  -- When a query was answered with a success or a non-existent name, whole, then for as long as
  -- the least TTL every request for a name with the same canonical form and the same type is
  -- answered with the same code, whatever the upstream servers do then and whatever requests came
  -- between, for this name or for others. (Between, no other answer is stored for this name, and
  -- its entry is neither deleted nor evicted. The least TTL is at most the greatest, and `MaxAge`
  -- lies strictly below the largest duration.)
  pub serve_dns-again :
      (at at' : Readings RR) (net net' : Network RR Err) (joined : Option (Resolution RR Err))
      (is_tcp : Bool) (q q' : Question) (qs : List Question) (msg req resp : Msg RR) (u : Bytes)
      (rtt : ℤ) (c d : Cache RR)
      → resolve dns net us msg ≡ resolved resp u rtt
      → is_cacheable resp ≡ true
      → Spares dns zone (key dns q.name q.qtype) (resolve_and_cache dns zone us at net q msg c).0 d
      → req.question ≡ q' ∷ qs
      → dns.canonical_name q'.name ≡ dns.canonical_name q.name
      → q'.qtype ≡ q.qtype
      → c.config.ttl_min ≤ℤ c.config.ttl_max
      → IsPassable c.config.max_age
      → pos at'.get_now ≤ℤ add (pos at.set_now) c.config.ttl_min
      → (m : Msg RR) × ((serve_dns dns zone us is_tcp at' joined net' req d).1.reply ≡ some m)
        × (m.rcode ≡ resp.rcode)
        × (m.id ≡ req.id)
  unfolding serve_dns
  serve_dns-again at at' net net' joined is_tcp q q' qs msg req resp u rtt c d got good spares asks
        spelled kind bounds passable soon =
      let stored = resolve_and_cache-set at net q msg resp u rtt c got good in
      let spared = subst (λ c'. Spares dns zone (key dns q.name q.qtype) c' d) stored spares in
      let (e, found, same) =
        Spares-get dns zone at.set_now at.evict_now at.range q.name q.qtype resp
          (first_ttl dns resp) at'.get_now at'.window_now c bounds passable
          (then_counts_query spared) soon in
      let same_key : key dns q'.name q'.qtype ≡ key dns q.name q.qtype =
        (key-eq_iff dns q'.name q.name q'.qtype q.qtype).1 (spelled, kind) in
      let found' : (get zone at'.get_now at'.window_now (key dns q'.name q'.qtype)
            (incr_queries d)).1
          ≡ some e =
        rw same_key found in
      let served = copy_and_set_ttl dns e.response (ttl_for_entry e (pos at'.ttl_now)) in
      let codes = copy_and_set_ttl-All dns e.response (ttl_for_entry e (pos at'.ttl_now)) in
      let written = respond-rcode dns is_tcp req served in
      simp (serve_dns, asks, found')
        (respond dns is_tcp req served, refl, written.0 ∙ codes.4 ∙ ap Msg.rcode same, written.1)
