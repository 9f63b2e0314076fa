-- ===== src/Cache/Freshness.antt =====
-- What `Get` and `GetStale` serve, and until when.
use dns_cache.Prelude.{
  ℕ, ◌≡◌, refl, arith, Bool, true, false, ◌&&◌, ◌||◌, not, inl, inr, none, some, Bool-cases,
  if◌then◌else◌,
}
use dns_cache.Prelude.Decimal.{Bytes}
use dns_cache.Prelude.Int.{ℤ, pos, ◌≤ℤ◌, ◌<ℤ◌, ltb_ℤ, max_ℤ, +ℤ_parts, -ℤ_parts}
use dns_cache.Time.{Instant, Duration, add, sub, max_duration, min_duration}
use dns_cache.Entry.{Entry}
use dns_cache.CacheConfig.{Config}
use dns_cache.Cache.{Cache, find, asked, too_old, served, get, get_stale, stale_max_age}

-- A duration that a difference of instants can pass.
abbrev pub IsPassable : Duration → Type 0
IsPassable d = (min_duration ≤ℤ d) × (d <ℤ max_duration)

-- The difference of two instants is compared with a duration as the exact difference would be.
pub sub_exceeds :
    (t u : Instant) (d : Duration) → IsPassable d → ltb_ℤ d (sub t u) ≡ ltb_ℤ (add u d) t
unfolding sub
sub_exceeds t u d h = ground (arith, -ℤ_parts t u, +ℤ_parts u d)

past_both : (s c m t : ℤ) → (ltb_ℤ (add s c) t && ltb_ℤ (add s m) t) ≡ ltb_ℤ (add s (max_ℤ c m)) t
past_both s c m t = elim (Bool-cases (ltb_ℤ c m)) [
  | inl e ↦ rw e (ground (arith, +ℤ_parts s c, +ℤ_parts s m))
  | inr e ↦ rw e (ground (arith, +ℤ_parts s c, +ℤ_parts s m))
]

module _ {RR : Type 0} where
  -- The instant until which an entry may be served: its fetch plus the greater of its TTL and
  -- `MaxAge`.
  abbrev pub serve_until : Config → Entry RR → Instant
  serve_until cfg e = add e.stored_at (max_ℤ e.cached_ttl cfg.max_age)

  too_old_lem :
      (cfg : Config) (now : ℕ) (e : Entry RR)
      → e.expires_at ≡ add e.stored_at e.cached_ttl
      → IsPassable cfg.max_age
      → too_old cfg now e ≡ ltb_ℤ (serve_until cfg e) (pos now)
  unfolding too_old
  too_old_lem cfg now e w h =
      rw (sub_exceeds (pos now) e.stored_at cfg.max_age h, w)
        (past_both e.stored_at e.cached_ttl cfg.max_age (pos now))

  module _ (zone : Instant → ℤ) (now wnow : ℕ) (key : Bytes) (c : Cache RR) where
    get_when :
        (e : Entry RR) (b : Bool)
        → find key c ≡ some e
        → too_old c.config now (asked zone now e) ≡ b
        → (get zone now wnow key c).1 ≡ (if b then none else some (served (asked zone now e)))
    unfolding get
    get_when e true found t = rw (found, get, t)
    get_when e false found t = rw (found, get, t)

    -- Whether `Get` serves a stored entry depends on the age of its answer alone. It is a miss if
    -- the answer was fetched longer ago than the greater of its TTL and `MaxAge`, and otherwise
    -- the entry is returned, with the use and the hit noted on it. (The entry expires one TTL
    -- after its fetch, and `MaxAge` lies strictly below the largest duration.)
    pub get-serve_until :
        (e : Entry RR)
        → find key c ≡ some e
        → e.expires_at ≡ add e.stored_at e.cached_ttl
        → IsPassable c.config.max_age
        → (get zone now wnow key c).1 ≡ (
            if ltb_ℤ (serve_until c.config e) (pos now)
            then none
            else some (served (asked zone now e)))
    unfolding asked
    get-serve_until e found w h =
        get_when e _ found (too_old_lem c.config now (asked zone now e) w h)

    -- A name that is not stored is a miss, and nothing is stored.
    pub get_absent :
        find key c ≡ none
        → ((get zone now wnow key c).1 ≡ none) × ((get zone now wnow key c).0.entries ≡ c.entries)
    unfolding get
    get_absent absent = (rw (absent, get), rw (absent, get))

  get_stale_when :
      (now later : ℕ) (key : Bytes) (c : Cache RR) (e : Entry RR) (on old : Bool)
      → find key c ≡ some e
      → c.config.stale_serving ≡ on
      → ltb_ℤ stale_max_age (sub (pos now) e.expires_at) ≡ old
      → (get_stale now later key c).1
        ≡ (if not on || old then none else some (record (served e) { last_hit_at = pos later }))
  unfolding get_stale
  get_stale_when now later key c e false old found s t = simp s
  get_stale_when now later key c e true true found s t = simp s (rw (found, t))
  get_stale_when now later key c e true false found s t = simp s (rw (found, t))

  -- `GetStale` returns a stored entry, with the hit and the recency noted, if stale serving is on
  -- and at most 24 hours have passed since the entry expired, and nothing otherwise.
  pub get_stale-serves :
      (now later : ℕ) (key : Bytes) (c : Cache RR) (e : Entry RR)
      → find key c ≡ some e
      → (get_stale now later key c).1 ≡ (
          if not c.config.stale_serving || ltb_ℤ (add e.expires_at stale_max_age) (pos now)
          then none
          else some (record (served e) { last_hit_at = pos later }))
  get_stale-serves now later key c e found =
      get_stale_when now later key c e _ _ found refl
        (sub_exceeds (pos now) e.expires_at stale_max_age (omega arith))
