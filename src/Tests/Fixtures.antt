-- ===== src/Tests/Fixtures.antt =====
-- A stand-in for the DNS package over records of three numbers, and a small cache.
use dns_cache.Prelude.{
  ℕ, ◌+◌, ◌*◌, ◌^◌, ◌≡◌, refl, arith, false, true, ◌&&◌, leb, if◌then◌else◌, [], ◌∷◌, map, Option,
  none, some, List, Bool, ◌≢◌, ◌==◌, ◌++◌, All, take, Bool-cases, inl, inr,
}
use dns_cache.Prelude.Decimal.{Bytes, codes}
use dns_cache.Prelude.Int.{ℤ, pos}
use dns_cache.Time.{Instant, second, hour}
use dns_cache.Dns.{Dns, Msg}
use dns_cache.Entry.{Entry}
use dns_cache.CacheConfig.{Config}
use dns_cache.Window.{empty_window}
use dns_cache.Cache.{Cache}

pub record Rr : Type 0 where
  pub ttl : ℕ
  pub rrtype : ℕ
  pub minttl : Option ℕ

abbrev pub lower : ℕ → ℕ
lower c = if leb b'A' c && leb c b'Z' then c + 32 else c

lower_idem : (c : ℕ) → lower (lower c) ≡ lower c
lower_idem c = ground arith

pub lower_all_idem : (s : Bytes) → map lower (map lower s) ≡ map lower s
lower_all_idem [] = refl
lower_all_idem (c ∷ s) = rw (lower_idem c, lower_all_idem s)

abbrev pub empty_msg : Msg Rr
empty_msg = record {
  id = 0;
  compress = false;
  rcode = 0;
  truncated = false;
  question = [];
  answer = [];
  ns = [];
  extra = [];
}

abbrev pub opt_of : ℕ → Bool → Rr
opt_of size do_bit = record { ttl = size; rrtype = 41; minttl = none }

abbrev pub find_opt : List Rr → Option Rr
find_opt [] = none
find_opt (r ∷ rs) = let rest = find_opt rs in if r.rrtype == 41 then some r else rest

pub find_opt-none : (rs : List Rr) → find_opt rs ≡ none → All (λ (r : Rr). r.rrtype ≢ 41) rs
find_opt-none [] h = tt
find_opt-none (r ∷ rs) h = elim (Bool-cases (r.rrtype == 41)) [
  | inl found ↦ absurd (ground arith)
  | inr other ↦ (ground arith, find_opt-none rs (ground arith))
]

abbrev pub lower_case : Dns Rr
lower_case = record {
  canonical_name = map lower;
  canonical_idem = lower_all_idem;
  copy = λ m. m;
  copy_same = λ m. refl;
  ttl = λ r. r.ttl;
  rrtype = λ r. r.rrtype;
  set_ttl = λ t r. record r { ttl = t };
  ttl-set_ttl = λ t r. refl;
  rrtype-set_ttl = λ t r. refl;
  soa_minttl = λ r. r.minttl;
  set_question = λ id name qtype. record empty_msg {
    id = id;
    question = record { name = name; qtype = qtype } ∷ [];
  };
  question-set_question = λ id name qtype. refl;
  new_msg = empty_msg;
  set_reply =
      λ req resp. record resp { id = Msg.id req; rcode = 0; question = take 1 req.question };
  rcode-set_reply = λ req resp. refl;
  id-set_reply = λ req resp. refl;
  answer-set_reply = λ req resp. refl;
  ns-set_reply = λ req resp. refl;
  extra-set_reply = λ req resp. refl;
  new_opt = λ size do_bit. opt_of size do_bit;
  rrtype-new_opt = λ size do_bit. refl;
  set_edns0 = λ size do_bit m. record m { extra = m.extra ++ opt_of size do_bit ∷ [] };
  set_edns0-appends = λ size do_bit m. refl;
  is_edns0 = λ m. find_opt m.extra;
  is_edns0-none = λ m. find_opt-none m.extra;
  udp_size = λ r. r.ttl;
  do_flag = λ r. false;
  truncate = λ size m. record m { truncated = false };
  rcode-truncate = λ size m. refl;
  id-truncate = λ size m. refl;
}

abbrev pub utc : Instant → ℤ
utc t = pos 0

-- Noon of day 20000
abbrev pub noon : ℕ
noon = 1728043200 * second

abbrev pub reply : Msg Rr
reply = record {
  id = 9;
  compress = false;
  rcode = 0;
  truncated = false;
  question = [];
  answer = record { ttl = 300; rrtype = 1; minttl = none } ∷ [];
  ns = [];
  extra = [];
}

abbrev pub settings : Config
settings = record {
  ttl_min = pos (60 * second);
  ttl_max = pos (24 * hour);
  max_entries = pos 2;
  stale_serving = true;
  max_age = pos (1800 * second);
  keep_min_days = pos 2;
  keep_window_days = pos 7;
}

-- Stored at noon for 300 seconds
abbrev pub entry_of : Bytes → ℕ → Entry Rr
entry_of name last = record {
  question_name = name;
  question_type = 1;
  response = reply;
  stored_at = pos noon;
  original_ttl = 300;
  cached_ttl = pos (300 * second);
  expires_at = pos (noon + 300 * second);
  hit_count = 3;
  last_hit_at = pos last;
  used_days = 20000 * 2 ^ 32 + 1;
}

abbrev pub entry_a : Entry Rr
entry_a = entry_of (codes "a.it.") (noon + 5)

abbrev pub entry_b : Entry Rr
entry_b = entry_of (codes "b.it.") noon

abbrev pub key_a : Bytes
key_a = codes "a.it.:1"

abbrev pub key_b : Bytes
key_b = codes "b.it.:1"

-- A full cache
abbrev pub full : Cache Rr
full = record {
  entries = (key_a, entry_a) ∷ (key_b, entry_b) ∷ [];
  config = settings;
  hits = 7;
  late_hits = 1;
  misses = 2;
  stale_serves = 0;
  errs = 0;
  total_queries = 9;
  qps_count = 9;
  qps_base = pos noon;
  window = empty_window;
}
