-- ===== src/Cache/Reads.antt =====
-- What `Get` and `GetStale` leave alone, and what `Get` notes of the use and counts.
use dns_cache.Prelude.{
  ℕ, ◌+◌, ◌-◌, ◌^◌, ◌≤◌, ◌<◌, ◌≡◌, refl, sym, arith, ◌&&◌, ◌||◌, inl, inr, ap, some, true,
  Bool-cases, Option-cases, ltb, ◌==◌, max,
}
use mathlib.Core.Option
use mathlib.Core.Option.{some_inj}
use dns_cache.Prelude.Assoc.{lookup-store_self, lookup-store_ne}
use dns_cache.Prelude.Decimal.{Bytes, Bytes-discrete}
use dns_cache.Prelude.Int.{ℤ, pos, ltb_ℤ}
use dns_cache.Time.{Instant, Duration, local_day, sub}
use dns_cache.Dns.{Msg}
use dns_cache.Entry.{Entry}
use dns_cache.Entry.Days.Word.{last_day}
use dns_cache.Entry.Days.View.{used_on, used_on-mark_used_next}
use dns_cache.Cache.{Cache, find, assign, asked, too_old, served, get, get_stale, stale_max_age}

module _ {RR : Type 0} where
  -- What an entry says of its question: all that is not the history of its use.
  abbrev pub answer : Entry RR → Bytes × ℕ × Msg RR × Instant × ℕ × Duration × Instant
  answer e = (
    e.question_name, e.question_type, e.response, e.stored_at, e.original_ttl, e.cached_ttl,
    e.expires_at,
  )

  -- An entry that is found has the answer of the one that was found before.
  pub found_before :
      (k : Bytes) (c d : Cache RR) (e : Entry RR)
      → Option.map answer (find k d) ≡ Option.map answer (find k c)
      → find k d ≡ some e
      → (e' : Entry RR) × (find k c ≡ some e') × (answer e' ≡ answer e)
  found_before k c d e same found = elim (Option-cases (find k c)) [
    | inl absent ↦ let no = rw (found, absent) at same in absurd (ground arith)
    | inr (e', there) ↦ let both = rw (found, there) at same in (e', there, sym (some_inj.0 both))
  ]

  answers-assign :
      (key j : Bytes) (e e' : Entry RR) (c : Cache RR)
      → find key c ≡ some e
      → answer e' ≡ answer e
      → Option.map answer (find j (assign key e' c)) ≡ Option.map answer (find j c)
  answers-assign key j e e' c found same = elim (Bytes-discrete key j) [
    | yes p ↦ rw (← p, lookup-store_self Bytes-discrete key e' c.entries, found) (ap some same)
    | no p ↦ rw (lookup-store_ne Bytes-discrete key j e' c.entries p)
  ]

  -- `GetStale` changes no answer that is stored, and stores or drops none.
  pub get_stale-keeps_answers :
      (now later : ℕ) (key j : Bytes) (c : Cache RR)
      → Option.map answer (find j (get_stale now later key c).0) ≡ Option.map answer (find j c)
  unfolding get_stale
  get_stale-keeps_answers now later key j c = elim (Bool-cases c.config.stale_serving) [
    | inr off ↦ simp off refl
    | inl on ↦ simp on (elim (Option-cases (find key c)) [
      | inl absent ↦ rw absent refl
      | inr (e, found) ↦
          rw found (elim (Bool-cases (ltb_ℤ stale_max_age (sub (pos now) e.expires_at))) [
            | inl old ↦ rw old refl
            | inr young ↦ rw young (
                answers-assign key j e (record (served e) { last_hit_at = pos later }) c found refl)
          ])
    ])
  ]

  -- What `Get` returns is the stored answer.
  pub get-returned :
      (zone : Instant → ℤ) (now wnow : ℕ) (key : Bytes) (c : Cache RR) (e' : Entry RR)
      → (get zone now wnow key c).1 ≡ some e'
      → (e : Entry RR) × (find key c ≡ some e) × (e.response ≡ e'.response)
  unfolding get asked
  get-returned zone now wnow key c e' got = elim (Option-cases (find key c)) [
    | inl absent ↦ let no = rw (absent, get) at got in absurd (ground arith)
    | inr (e, found) ↦ elim (Bool-cases (too_old c.config now (asked zone now e))) [
      | inl old ↦ let no = rw (found, get, old) at got in absurd (ground arith)
      | inr good ↦
          let same = rw (found, get, good) at got in (e, found, ap Entry.response (some_inj.0 same))
    ]
  ]

  -- What `GetStale` returns is the stored answer, where stale serving is on.
  pub get_stale-returned :
      (now later : ℕ) (key : Bytes) (c : Cache RR) (e' : Entry RR)
      → (get_stale now later key c).1 ≡ some e'
      → (e : Entry RR) × (find key c ≡ some e)
        × (e.response ≡ e'.response)
        × (c.config.stale_serving ≡ true)
  unfolding get_stale
  get_stale-returned now later key c e' got = elim (Bool-cases c.config.stale_serving) [
    | inr off ↦ let no = simp off at got in absurd (ground arith)
    | inl on ↦ elim (Option-cases (find key c)) [
      | inl absent ↦ let no = simp (on, absent) at got in absurd (ground arith)
      | inr (e, found) ↦ elim (Bool-cases (ltb_ℤ stale_max_age (sub (pos now) e.expires_at))) [
        | inl old ↦ let no = simp (on, found, old) at got in absurd (ground arith)
        | inr young ↦
            let same = simp (on, found, young) at got in
            (e, found, ap Entry.response (some_inj.0 same), on)
      ]
    ]
  ]

  asked-used_on :
      (zone : Instant → ℤ) (now : ℕ) (e : Entry RR) (day d : ℕ)
      → local_day zone (pos now) ≡ pos day
      → day < 2 ^ 32
      → used_on (asked zone now e).used_days d ≡ (
          d == max day (last_day e.used_days)
          || (used_on e.used_days d && ltb (max day (last_day e.used_days)) (d + 32)))
  unfolding asked
  asked-used_on zone now e day d today small =
      rw today (used_on-mark_used_next day e.used_days d small)

  asked-last_hit :
      (zone : Instant → ℤ) (now : ℕ) (e : Entry RR) → (asked zone now e).last_hit_at ≡ pos now
  unfolding asked
  asked-last_hit zone now e = refl

  module _ (zone : Instant → ℤ) (now wnow : ℕ) (key : Bytes) (c : Cache RR) where
    -- `Get` changes no answer that is stored, under any key, and stores or drops none.
    pub get-keeps_answers :
        (j : Bytes)
        → Option.map answer (find j (get zone now wnow key c).0) ≡ Option.map answer (find j c)
    unfolding get asked
    get-keeps_answers j = elim (Option-cases (find key c)) [
      | inl absent ↦ rw (absent, get)
      | inr (e, found) ↦ elim (Bool-cases (too_old c.config now (asked zone now e))) [
        | inl old ↦ rw (found, get, old) (answers-assign key j e (asked zone now e) c found refl)
        | inr good ↦
            rw (found, get, good) (answers-assign key j e (served (asked zone now e)) c found refl)
      ]
    ]

    -- Every request for a stored name is noted, whether it is served or is a miss: the recency is
    -- the time of the request, its local day joins the recorded days (or, when the clock was set
    -- back, the last day known does), and the days at least 32 older than that are forgotten.
    pub get-notes_use :
        (e : Entry RR) (day d : ℕ)
        → find key c ≡ some e
        → local_day zone (pos now) ≡ pos day
        → day < 2 ^ 32
        → (e' : Entry RR) × (find key (get zone now wnow key c).0 ≡ some e')
          × (e'.last_hit_at ≡ pos now)
          × (used_on e'.used_days d ≡ (
              d == max day (last_day e.used_days)
              || (used_on e.used_days d && ltb (max day (last_day e.used_days)) (d + 32))))
    unfolding get
    get-notes_use e day d found today small =
        let e' = asked zone now e in
        let noted = asked-used_on zone now e day d today small in
        elim (Bool-cases (too_old c.config now e')) [
          | inl old ↦ (
            e',
            rw (found, get, old) (lookup-store_self Bytes-discrete key e' c.entries),
            asked-last_hit zone now e,
            noted,
          )
          | inr good ↦ (
            served e',
            rw (found, get, good) (lookup-store_self Bytes-discrete key (served e') c.entries),
            asked-last_hit zone now e,
            noted,
          )
        ]

    -- Each request counts as one hit or one miss, and hits past the TTL stay among the hits, as
    -- long as no counter has reached the end of its 64 bits.
    pub get-counts :
        c.hits < 2 ^ 64 - 1
        → c.misses < 2 ^ 64 - 1
        → c.late_hits ≤ c.hits
        → let c' = (get zone now wnow key c).0 in
          (c'.hits + c'.misses ≡ c.hits + c.misses + 1) × (c'.late_hits ≤ c'.hits)
    unfolding get
    get-counts h m l = elim (Option-cases (find key c)) [
      | inl absent ↦ rw (absent, get) (omega arith)
      | inr (e, found) ↦ elim (Bool-cases (too_old c.config now (asked zone now e))) [
        | inl old ↦ rw (found, get, old) (omega arith)
        | inr good ↦ rw (found, get, good) (ground arith)
      ]
    ]
