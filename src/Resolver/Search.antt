-- ===== src/Resolver/Search.antt =====
-- Which server's answer `Resolve` returns.
use dns_cache.Prelude.{
  ℕ, zero, suc, ◌<◌, ◌≡◌, ◌≢◌, refl, ap, ◌∙◌, arith, ◌⊎◌, inl, inr, List, [], ◌∷◌, ◌++◌, none, some,
  All, In, All-In, length, get_elem?, Bool-cases,
}
use dns_cache.Prelude.Decimal.{Bytes}
use dns_cache.Time.{Duration}
use dns_cache.Dns.{Dns, Msg}
use dns_cache.Resolver.{
  Exchange, failed, silent, answered, UpstreamError, Resolution, resolved, all_failed, Network,
  complete, resolve_loop, resolve, upstream_query,
}

get_elem-inside :
    {A : Type 0} (l : List A) (i : ℕ) → i < length l → (x : A) × (get_elem? l i ≡ some x) × In x l
get_elem-inside [] i h = absurd (omega arith)
get_elem-inside (x ∷ l) zero h = (x, refl, inl refl)
get_elem-inside (x ∷ l) (suc i) h =
    let (y, e, m) = get_elem-inside l i (omega arith) in (y, e, inr m)

Exchange-cases :
    {RR Err : Type 0} (x : Exchange RR Err)
    → ((err : Err) × (x ≡ failed err))
      ⊎ (x ≡ silent)
      ⊎ ((resp : Msg RR) × (rtt : Duration) × (x ≡ answered resp rtt))
Exchange-cases (failed err) = inl (err, refl)
Exchange-cases silent = inr (inl refl)
Exchange-cases (answered resp rtt) = inr (inr (resp, rtt, refl))

pub complete-resolved :
    {RR Err : Type 0} (net : Network RR Err) (us : List Bytes) (out : Msg RR) (i : ℕ)
    (resp : Msg RR) (u : Bytes) (rtt : Duration)
    → (resp' : Msg RR) × (rtt' : Duration) × (complete net us out i resp u rtt
        ≡ resolved resp' u rtt')
unfolding complete
complete-resolved net us out i resp u rtt = elim (Bool-cases resp.truncated) [
  | inr whole ↦ simp whole (resp, rtt, refl)
  | inl cut ↦ elim (Exchange-cases (net.tcp i out)) [
    | inl (err, e) ↦ simp (cut, e) (resp, rtt, refl)
    | inr (inl e) ↦ simp (cut, e) (resp, rtt, refl)
    | inr (inr (full, rtt2, e)) ↦ simp (cut, e) (full, _, refl)
  ]
]

module _ {RR Err : Type 0} (net : Network RR Err) (us : List Bytes) (out : Msg RR) where
  open net use {ctx_err, udp, tcp}

  -- The server at an index answers no query over UDP.
  abbrev pub IsMute : ℕ → Type 0
  IsMute i = (resp : Msg RR) (rtt : Duration) → udp i out ≢ answered resp rtt

  -- The result comes from the first index of the order whose server answers.
  pub record FromFirst (order : List ℕ) (res : Resolution RR Err) : Type 0 where
    pub before : List ℕ
    pub idx : ℕ
    pub after : List ℕ
    pub upstream : Bytes
    pub resp : Msg RR
    pub rtt : Duration
    pub splits : order ≡ before ++ idx ∷ after
    pub mute_before : All IsMute before
    pub stands : get_elem? us idx ≡ some upstream
    pub answers : udp idx out ≡ answered resp rtt
    pub completes : res ≡ complete net us out idx resp upstream rtt

  later_first :
      (i : ℕ) (order : List ℕ) (res : Resolution RR Err)
      → IsMute i
      → FromFirst order res
      → FromFirst (i ∷ order) res
  later_first i order res mute f = record {
    before = i ∷ f.before;
    idx = f.idx;
    after = f.after;
    upstream = f.upstream;
    resp = f.resp;
    rtt = f.rtt;
    splits = ap (λ l. i ∷ l) f.splits;
    mute_before = (mute, f.mute_before);
    stands = f.stands;
    answers = f.answers;
    completes = f.completes;
  }

  abbrev LoopResult : List ℕ → Resolution RR Err → Type 0
  LoopResult order res =
      FromFirst order res
      ⊎ (All IsMute order × ((errs : List (UpstreamError Err)) × (res ≡ all_failed errs)))

  later_result :
      (i : ℕ) (order : List ℕ) (res : Resolution RR Err)
      → IsMute i
      → LoopResult order res
      → LoopResult (i ∷ order) res
  later_result i order res mute (inl f) = inl (later_first i order res mute f)
  later_result i order res mute (inr (all, e)) = inr ((mute, all), e)

  loop-failed :
      (round i : ℕ) (order : List ℕ) (errs : List (UpstreamError Err)) (u : Bytes) (err : Err)
      → ctx_err round ≡ none
      → get_elem? us i ≡ some u
      → udp i out ≡ failed err
      → resolve_loop net us out round (i ∷ order) errs
        ≡ resolve_loop net us out (suc round) order (errs ++ record { server = u; err = err } ∷ [])
  unfolding resolve_loop
  loop-failed round i order errs u err quiet e x = rw (resolve_loop, quiet, e, x) refl

  loop-silent :
      (round i : ℕ) (order : List ℕ) (errs : List (UpstreamError Err)) (u : Bytes)
      → ctx_err round ≡ none
      → get_elem? us i ≡ some u
      → udp i out ≡ silent
      → resolve_loop net us out round (i ∷ order) errs
        ≡ resolve_loop net us out (suc round) order errs
  unfolding resolve_loop
  loop-silent round i order errs u quiet e x = rw (resolve_loop, quiet, e, x) refl

  loop-answered :
      (round i : ℕ) (order : List ℕ) (errs : List (UpstreamError Err)) (u : Bytes) (resp : Msg RR)
      (rtt : Duration)
      → ctx_err round ≡ none
      → get_elem? us i ≡ some u
      → udp i out ≡ answered resp rtt
      → resolve_loop net us out round (i ∷ order) errs ≡ complete net us out i resp u rtt
  unfolding resolve_loop
  loop-answered round i order errs u resp rtt quiet e x = rw (resolve_loop, quiet, e, x) refl

  resolve_loop-result :
      (round : ℕ) (order : List ℕ) (errs : List (UpstreamError Err))
      → ((n : ℕ) → ctx_err n ≡ none)
      → All (λ i. i < length us) order
      → LoopResult order (resolve_loop net us out round order errs)
  unfolding resolve_loop
  resolve_loop-result round [] errs quiet inside = inr (tt, (errs, refl))
  resolve_loop-result round (i ∷ order) errs quiet inside =
      let (u, e, m) = get_elem-inside us i inside.0 in
      elim (Exchange-cases (udp i out)) [
        | inl (err, x) ↦ rw (loop-failed round i order errs u err (quiet round) e x) (
            later_result i order _ (λ resp rtt h. absurd (ground arith))
              (resolve_loop-result (suc round) order _ quiet inside.1))
        | inr (inl x) ↦ rw (loop-silent round i order errs u (quiet round) e x) (
            later_result i order _ (λ resp rtt h. absurd (ground arith))
              (resolve_loop-result (suc round) order errs quiet inside.1))
        | inr (inr (resp, rtt, x)) ↦ inl (record {
          before = [];
          idx = i;
          after = order;
          upstream = u;
          resp = resp;
          rtt = rtt;
          splits = refl;
          mute_before = tt;
          stands = e;
          answers = x;
          completes = loop-answered round i order errs u resp rtt (quiet round) e x;
        })
      ]

-- `Resolve`, with servers configured, no cancellation and an order of indices that exist: the
-- result is that of the first server in the order that answers over UDP, with the answer made
-- complete over TCP where it is truncated and that works; the servers before it did not answer.
-- Only if none answers is the result the list of the errors. It never stops on a bad index.
pub resolve-first :
    {RR Err : Type 0} (dns : Dns RR) (net : Network RR Err) (us : List Bytes) (msg : Msg RR)
    → 0 < length us
    → ((n : ℕ) → net.ctx_err n ≡ none)
    → All (λ i. i < length us) net.order
    → FromFirst net us (upstream_query dns msg) net.order (resolve dns net us msg)
      ⊎ (All (IsMute net us (upstream_query dns msg)) net.order
          × ((errs : List (UpstreamError Err)) × (resolve dns net us msg ≡ all_failed errs)))
unfolding resolve
resolve-first dns net [] msg some_server quiet inside = absurd (omega arith)
resolve-first dns net (u ∷ us) msg some_server quiet inside =
    resolve_loop-result net (u ∷ us) (upstream_query dns msg) 0 net.order [] quiet inside

-- `Resolve` succeeds as soon as one configured server answers over UDP, wherever it stands in the
-- list and whatever the others do, when the order goes through all the servers and there is no
-- cancellation.
pub resolve-resolved :
    {RR Err : Type 0} (dns : Dns RR) (net : Network RR Err) (us : List Bytes) (msg : Msg RR) (i : ℕ)
    (resp : Msg RR) (rtt : Duration)
    → ((n : ℕ) → net.ctx_err n ≡ none)
    → All (λ j. j < length us) net.order
    → ((j : ℕ) → j < length us → In j net.order)
    → i < length us
    → net.udp i (upstream_query dns msg) ≡ answered resp rtt
    → (resp' : Msg RR) × (u : Bytes) × (rtt' : Duration) × (resolve dns net us msg
        ≡ resolved resp' u rtt')
resolve-resolved dns net us msg i resp rtt quiet inside all there ok =
    let out = upstream_query dns msg in
    elim (resolve-first dns net us msg (omega arith) quiet inside) [
      | inl f ↦
          let (resp', rtt', e) = complete-resolved net us out f.idx f.resp f.upstream f.rtt in
          (resp', f.upstream, rtt', f.completes ∙ e)
      | inr (mute, failed_all) ↦
          absurd (All-In (IsMute net us out) i net.order mute (all i there) resp rtt ok)
    ]
