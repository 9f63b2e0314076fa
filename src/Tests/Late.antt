-- ===== src/Tests/Late.antt =====
-- Twenty minutes after its fetch an answer of five minutes is served once more, and renewed.
use dns_cache.Prelude.{◌+◌, ◌*◌, ◌≡◌, refl, arith, true, false, some, none, []}
use dns_cache.Prelude.Decimal.{codes}
use dns_cache.Prelude.Int.{pos, ◌+ℤ◌, ltb_ℤ}
use dns_cache.Time.{second}
use dns_cache.Dns.{Msg, Question}
use dns_cache.Entry.{Entry, is_expired_at}
use dns_cache.Entry.Key.{key}
use dns_cache.Cache.{get}
use dns_cache.Cache.Freshness.{serve_until}
use dns_cache.Resolver.{resolve, resolved}
use dns_cache.Handler.{Readings, serve_dns, background_refresh}
use dns_cache.Handler.Serve.Late.{serve_dns-late}
use dns_cache.Tests.Fixtures.{Rr, lower_case, utc, noon, reply, full, settings, entry_a}
use dns_cache.Tests.Serving.{expires_a}
use dns_cache.Tests.Upstream.{servers, half_down, all_down, readings, asked_a, found_a, cacheable}

abbrev twenty_minutes_later : Readings Rr
twenty_minutes_later = record readings {
  get_now = noon + 1200 * second;
  expired_now = noon + 1200 * second;
  ttl_now = noon + 1200 * second;
  set_now = noon + 1201 * second;
}

abbrev question_a : Question
question_a = record { name = codes "A.it."; qtype = 1 }

refresh_answered :
    resolve lower_case half_down servers (lower_case.set_question 5 (codes "A.it.") 1)
    ≡ resolved reply (codes "10.0.0.2:53") (pos 30)
unfolding resolve
refresh_answered = refl

in_time : ltb_ℤ (serve_until settings entry_a) (pos (noon + 1200 * second)) ≡ false
unfolding ◌+ℤ◌
in_time = refl

past_ttl : is_expired_at entry_a (pos (noon + 1200 * second)) ≡ true
past_ttl = refl

serve_dns-late_example :
    let out =
      serve_dns lower_case utc servers false twenty_minutes_later none all_down asked_a full in
    ((m : Msg Rr) × (out.1.reply ≡ some m) × (m.rcode ≡ reply.rcode) × (m.id ≡ asked_a.id))
    × (out.1.refresh ≡ some question_a)
    × ((e : Entry Rr) × ((get utc
            (noon + 1250 * second)
            (noon + 1250 * second)
            (key lower_case (codes "A.it.") 1)
            (background_refresh lower_case utc servers twenty_minutes_later 5 none half_down
              question_a out.0)).1
          ≡ some e)
        × (e.response ≡ reply))
unfolding ◌+ℤ◌
serve_dns-late_example =
    serve_dns-late lower_case utc servers twenty_minutes_later all_down none false question_a []
      asked_a full entry_a refl found_a expires_a (omega arith) in_time past_ttl
      twenty_minutes_later half_down 5 reply (codes "10.0.0.2:53") (pos 30) (noon + 1250 * second)
      (noon + 1250 * second) refresh_answered cacheable (omega arith) (omega arith)
