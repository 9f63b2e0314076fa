-- ===== src/Handler/Serve/Answered.antt =====
-- Every request gets a reply: a stored answer, a fresh one, a stale one or a server failure.
use mathlib.Core.Option
use dns_cache.Prelude.{ℕ, ◌≡◌, true, ◌⊎◌, List, Option, none, some}
use dns_cache.Prelude.Decimal.{Bytes}
use dns_cache.Prelude.Int.{ℤ}
use dns_cache.Dns.{Dns, Msg, rcode_server_failure}
use dns_cache.Entry.{Entry}
use dns_cache.Entry.Message.{copy_and_set_ttl}
use dns_cache.Cache.{Cache, find}
use dns_cache.Resolver.{Network, Resolution, resolved, resolve}
use dns_cache.Handler.{Served}
use dns_cache.Handler.Reply.{Answers}

module _ {RR : Type 0} (dns : Dns RR) where
  -- The message `src` is written for the request, cut to some size.
  pub record Carries (req src m : Msg RR) : Type 0 where
    pub whole : Msg RR
    pub size : ℕ
    pub cut : m ≡ dns.truncate size whole
    pub content : Answers dns req src whole
    pub rcode : m.rcode ≡ src.rcode
    pub id : m.id ≡ req.id

module _ {RR Err : Type 0} (dns : Dns RR) where
  -- Whose answer a request gets: that of the entry stored under its key, with some TTL, that of the
  -- query, or that of the entry once more, with 30 seconds, where stale serving is on
  pub data IsSource (c : Cache RR) (k : Bytes) (res : Resolution RR Err) : Msg RR → Type 0 where
    stored :
        (e : Entry RR) (t : ℕ)
        → find k c ≡ some e
        → IsSource c k res (copy_and_set_ttl dns e.response t)
    fresh :
        (resp : Msg RR) (u : Bytes) (rtt : ℤ) → res ≡ resolved resp u rtt → IsSource c k res resp
    stale :
        (e : Entry RR)
        → find k c ≡ some e
        → c.config.stale_serving ≡ true
        → IsSource c k res (copy_and_set_ttl dns e.response 30)

  -- A reply is written, with the content of a source or with the code of a server failure.
  abbrev pub Replies : Cache RR → Bytes → Resolution RR Err → Msg RR → Served RR → Type 0
  Replies c k res req out =
      (m : Msg RR) × (out.reply ≡ some m)
      × (((src : Msg RR) × IsSource c k res src × Carries dns req src m)
          ⊎ ((m.rcode ≡ rcode_server_failure) × (m.id ≡ req.id)))

  -- The result of the query: that of another request's, or the request's own
  abbrev pub result_of :
      List Bytes → Network RR Err → Option (Resolution RR Err) → Msg RR → Resolution RR Err
  result_of us net (some res) msg = res
  result_of us net none msg = resolve dns net us msg
