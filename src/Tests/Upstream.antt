-- ===== src/Tests/Upstream.antt =====
-- The resolver and the handler with two upstream servers, of which the first is down.
use dns_cache.Prelude.{
  ℕ, zero, suc, ◌+◌, ◌*◌, ◌≤◌, ◌≡◌, ◌≢◌, refl, arith, ◌⊎◌, true, false, List, [], ◌∷◌, All, none,
  some, if◌then◌else◌, ◌||◌, not,
}
use dns_cache.Prelude.Decimal.{Bytes, Bytes-discrete, codes, decimal}
use dns_cache.Prelude.Int.{ℤ, pos, ◌+ℤ◌, ◌-ℤ◌, ltb_ℤ}
use dns_cache.Time.{second, add, sub}
use dns_cache.Dns.{
  Msg, Question, rcode_success, rcode_server_failure, rcode_name_error, max_msg_size, min_msg_size,
}
use dns_cache.Cache.{Cache, get, delete, incr_queries, find, too_old, asked, stale_max_age}
use dns_cache.Window.{incr}
use dns_cache.Entry.Key.{key}
use mathlib.Core.List.{lookup}
use dns_cache.Cache.Insert.{set}
use dns_cache.Resolver.{
  Network, Exchange, failed, answered, UpstreamError, resolved, all_failed, resolve, upstream_query,
}
use dns_cache.Resolver.Search.{FromFirst, IsMute, resolve-first}
use dns_cache.Handler.{
  Readings, is_cacheable, first_ttl, resolve_and_cache, serve_dns, respond, max_udp_size,
}
use dns_cache.Handler.Reply.{Answers, respond-Answers}
use dns_cache.Handler.Serve.{resolve_and_cache-stores}
use dns_cache.Handler.Serve.Failed.{FailsWith, serve_dns-FailsWith}
use dns_cache.Handler.Serve.Again.{
  Spares, rests, then_gets, then_counts_query, then_deletes, serve_dns-again,
}
use dns_cache.Tests.Fixtures.{
  Rr, lower_case, utc, noon, reply, full, empty_msg, opt_of, settings, entry_a, key_a,
}

abbrev pub servers : List Bytes
servers = codes "10.0.0.1:53" ∷ codes "10.0.0.2:53" ∷ []

abbrev pub exchange : ℕ → Msg Rr → Exchange Rr ℕ
exchange zero m = failed 7
exchange (suc i) m = answered reply (pos 30)

abbrev pub half_down : Network Rr ℕ
half_down = record { ctx_err = λ n. none; udp = exchange; tcp = exchange; order = 0 ∷ 1 ∷ [] }

abbrev pub all_down : Network Rr ℕ
all_down = record half_down { udp = λ i m. failed 7 }

half_down_quiet : (n : ℕ) → half_down.ctx_err n ≡ none
half_down_quiet n = refl

-- The client asks with an OPT record of its own.
abbrev pub asked_c : Msg Rr
asked_c = record empty_msg {
  id = 77;
  question = record { name = codes "C.it."; qtype = 1 } ∷ [];
  extra = opt_of 4096 false ∷ [];
}

abbrev question_c : Question
question_c = record { name = codes "c.it."; qtype = 1 }

resolve-first_example :
    FromFirst half_down servers
      (upstream_query lower_case asked_c)
      half_down.order
      (resolve lower_case half_down servers asked_c)
    ⊎ (All (IsMute half_down servers (upstream_query lower_case asked_c)) half_down.order
        × ((errs : List (UpstreamError ℕ)) × (resolve lower_case half_down servers asked_c
              ≡ all_failed errs)))
resolve-first_example =
    resolve-first lower_case half_down servers asked_c (omega arith) half_down_quiet
      (omega arith, (omega arith, tt))

respond-Answers_example :
    (m : Msg Rr) × (size : ℕ) × (respond lower_case false asked_c reply
      ≡ lower_case.truncate size m)
    × Answers lower_case asked_c reply m
    × (m.compress ≡ true)
    × (if false then size ≡ max_msg_size else (min_msg_size ≤ size) × (size ≤ max_udp_size))
respond-Answers_example = respond-Answers lower_case false asked_c reply

abbrev pub readings : Readings Rr
readings = record {
  get_now = noon;
  window_now = noon;
  expired_now = noon;
  ttl_now = noon;
  set_now = noon;
  evict_now = noon;
  stale_now = noon;
  stale_hit = noon;
  range = full.entries;
}

second_answers :
    resolve lower_case half_down servers asked_c ≡ resolved reply (codes "10.0.0.2:53") (pos 30)
unfolding resolve
second_answers = refl

pub cacheable : is_cacheable reply ≡ true
unfolding is_cacheable
cacheable = refl

abbrev a_minute_later : Readings Rr
a_minute_later = record readings { get_now = noon + 50 * second }

abbrev cached_c : Cache Rr
cached_c = (resolve_and_cache lower_case utc servers readings half_down question_c asked_c full).0

abbrev key_c : Bytes
key_c = key lower_case (codes "c.it.") 1

-- A request for the name ten seconds later, and the pruning of another name
abbrev between : Cache Rr
between = delete key_a (get utc (noon + 10 * second) noon key_c (incr_queries cached_c)).0

other_name : key_a ≢ key_c
unfolding key decimal
other_name e = absurd (ground arith)

Spares-between : Spares lower_case utc key_c cached_c between
Spares-between =
    then_deletes (then_gets (then_counts_query rests) (noon + 10 * second) noon key_c) key_a
      other_name

-- Asked for in another spelling 50 seconds later, when no server answers
serve_dns-again_example :
    (m : Msg Rr) × ((serve_dns lower_case utc servers true a_minute_later none all_down asked_c
        between).1.reply
      ≡ some m)
    × (m.rcode ≡ reply.rcode)
    × (m.id ≡ asked_c.id)
unfolding ◌+ℤ◌
serve_dns-again_example =
    serve_dns-again lower_case utc servers readings a_minute_later half_down all_down none true
      question_c (record { name = codes "C.it."; qtype = 1 }) [] asked_c asked_c reply
      (codes "10.0.0.2:53") (pos 30) full between second_answers cacheable Spares-between refl refl
      refl (omega arith) (omega arith) (omega arith)

resolve_and_cache-stores_example :
    let c =
      (resolve_and_cache lower_case utc servers readings all_down question_c asked_c full).0 in
    (c ≡ full)
    ⊎ ((resp : Msg Rr) × (u : Bytes) × (rtt : ℤ) × (resolve lower_case all_down servers asked_c
          ≡ resolved resp u rtt)
        × (resp.truncated ≡ false)
        × ((resp.rcode ≡ rcode_success) ⊎ (resp.rcode ≡ rcode_name_error))
        × (c
            ≡ set lower_case utc noon noon full.entries question_c.name question_c.qtype resp
                (first_ttl lower_case resp)
                full))
resolve_and_cache-stores_example =
    resolve_and_cache-stores lower_case utc servers readings all_down question_c asked_c full

-- An hour later nothing answers, and the stored answer is past its greatest age.
abbrev an_hour_later : Readings Rr
an_hour_later = record readings { get_now = noon + 3600 * second; stale_now = noon + 3605 * second }

abbrev pub asked_a : Msg Rr
asked_a = record asked_c { question = record { name = codes "A.it."; qtype = 1 } ∷ [] }

pub found_a : find (key lower_case (codes "A.it.") 1) full ≡ some entry_a
unfolding key decimal lookup Bytes-discrete
found_a = refl

old_a : too_old settings (noon + 3600 * second) (asked utc (noon + 3600 * second) entry_a) ≡ true
unfolding too_old asked sub ◌-ℤ◌
old_a = refl

nobody :
    resolve lower_case all_down servers asked_a
    ≡ all_failed (
        record { server = codes "10.0.0.1:53"; err = 7 }
        ∷ record { server = codes "10.0.0.2:53"; err = 7 }
        ∷ [])
unfolding resolve
nobody = refl

serve_dns-FailsWith_example :
    FailsWith lower_case an_hour_later
      (if not settings.stale_serving
          || ltb_ℤ (add entry_a.expires_at stale_max_age) (pos (noon + 3605 * second))
        then rcode_server_failure
        else Msg.rcode entry_a.response)
      (incr full.errs)
      (serve_dns lower_case utc servers false an_hour_later none all_down asked_a full)
serve_dns-FailsWith_example =
    serve_dns-FailsWith lower_case utc servers an_hour_later all_down false
      (record { name = codes "A.it."; qtype = 1 }) [] asked_a full entry_a _ refl found_a old_a
      nobody
