-- ===== src/Dns.antt =====
-- What the source uses of the package github.com/miekg/dns: the fields of a message that it reads
-- or writes, and the package's functions, which are parameters with their documented behaviour.
use dns_cache.Prelude.{ℕ, ◌≡◌, ◌≢◌, Bool, Option, none, List, [], ◌∷◌, ◌++◌, All}
use dns_cache.Prelude.Decimal.{Bytes}

pub record Question : Type 0 where
  pub name : Bytes
  pub qtype : ℕ

-- The fields of `dns.Msg`, over the type of the resource records.
pub record Msg (RR : Type 0) : Type 0 where
  pub id : ℕ
  pub compress : Bool
  pub rcode : ℕ
  pub truncated : Bool
  pub question : List Question
  pub answer : List RR
  pub ns : List RR
  pub extra : List RR

-- RcodeSuccess, RcodeServerFailure, RcodeNameError and TypeOPT of the protocol.
abbrev pub rcode_success : ℕ
rcode_success = 0

abbrev pub rcode_server_failure : ℕ
rcode_server_failure = 2

abbrev pub rcode_name_error : ℕ
rcode_name_error = 3

abbrev pub type_opt : ℕ
type_opt = 41

-- MinMsgSize, DefaultMsgSize and MaxMsgSize of the package
abbrev pub min_msg_size : ℕ
min_msg_size = 512

abbrev pub default_msg_size : ℕ
default_msg_size = 4096

abbrev pub max_msg_size : ℕ
max_msg_size = 65535

pub record Dns (RR : Type 0) : Type 0 where
  -- `dns.CanonicalName`: the lower-case, fully qualified form of a name
  pub canonical_name : Bytes → Bytes
  pub canonical_idem : (s : Bytes) → canonical_name (canonical_name s) ≡ canonical_name s
  -- `msg.Copy()`: an equal message that shares nothing
  pub copy : Msg RR → Msg RR
  pub copy_same : (m : Msg RR) → copy m ≡ m
  -- `rr.Header().Ttl`, `rr.Header().Rrtype`, and an assignment to the former
  pub ttl : RR → ℕ
  pub rrtype : RR → ℕ
  pub set_ttl : ℕ → RR → RR
  pub ttl-set_ttl : (t : ℕ) (r : RR) → ttl (set_ttl t r) ≡ t
  pub rrtype-set_ttl : (t : ℕ) (r : RR) → rrtype (set_ttl t r) ≡ rrtype r
  -- `rr.(*dns.SOA)` with its field `Minttl`
  pub soa_minttl : RR → Option ℕ
  -- `m.SetQuestion(name, type)` on a new message, with the identifier that it draws
  pub set_question : ℕ → Bytes → ℕ → Msg RR
  pub question-set_question :
      (id : ℕ) (name : Bytes) (qtype : ℕ)
      → Msg.question (set_question id name qtype) ≡ record { name = name; qtype = qtype } ∷ []
  -- `new(dns.Msg)`, and `resp.SetReply(req)`
  pub new_msg : Msg RR
  pub set_reply : Msg RR → Msg RR → Msg RR
  pub rcode-set_reply : (req resp : Msg RR) → Msg.rcode (set_reply req resp) ≡ rcode_success
  pub id-set_reply : (req resp : Msg RR) → Msg.id (set_reply req resp) ≡ Msg.id req
  pub answer-set_reply : (req resp : Msg RR) → Msg.answer (set_reply req resp) ≡ Msg.answer resp
  pub ns-set_reply : (req resp : Msg RR) → Msg.ns (set_reply req resp) ≡ Msg.ns resp
  pub extra-set_reply : (req resp : Msg RR) → Msg.extra (set_reply req resp) ≡ Msg.extra resp
  -- The OPT record that `m.SetEdns0(size, do)` appends to the additional section
  pub new_opt : ℕ → Bool → RR
  pub rrtype-new_opt : (size : ℕ) (do_bit : Bool) → rrtype (new_opt size do_bit) ≡ type_opt
  pub set_edns0 : ℕ → Bool → Msg RR → Msg RR
  pub set_edns0-appends :
      (size : ℕ) (do_bit : Bool) (m : Msg RR)
      → set_edns0 size do_bit m ≡ record m { extra = Msg.extra m ++ new_opt size do_bit ∷ [] }
  -- `m.IsEdns0()`, and `opt.UDPSize()` and `opt.Do()` of what it finds
  pub is_edns0 : Msg RR → Option RR
  pub is_edns0-none :
      (m : Msg RR) → is_edns0 m ≡ none → All (λ r. rrtype r ≢ type_opt) (Msg.extra m)
  pub udp_size : RR → ℕ
  pub do_flag : RR → Bool
  -- `m.Truncate(size)`, which leaves the header's code and identifier alone
  pub truncate : ℕ → Msg RR → Msg RR
  pub rcode-truncate : (size : ℕ) (m : Msg RR) → Msg.rcode (truncate size m) ≡ Msg.rcode m
  pub id-truncate : (size : ℕ) (m : Msg RR) → Msg.id (truncate size m) ≡ Msg.id m
