-- ===== src/Cache/Insert.antt =====
-- The operations that put entries into the cache (`Set`, `evictOne`, `LoadEntry` of
-- cache/cache.go).
pub mod Ttl
pub mod Evict
pub mod Victim
pub mod Size
pub mod Lookup
pub mod Order
use dns_cache.Prelude.{
  ℕ, ◌+◌, ◌-◌, ◌*◌, ◌^◌, Bool, true, false, ◌&&◌, ◌||◌, List, [], ◌∷◌, Option, none, some, ◌==◌,
  if◌then◌else◌, leb, min, length,
}
use mathlib.Core.List.{lookup}
use dns_cache.Prelude.Assoc.{store, remove}
use dns_cache.Prelude.Decimal.{Bytes, Bytes-discrete}
use dns_cache.Prelude.Int.{ℤ, pos, ltb_ℤ, leb_ℤ}
use dns_cache.Time.{Instant, Duration, add, after, hour, second, of_units, local_day}
use dns_cache.Dns.{Dns, Msg}
use dns_cache.Entry.{Entry}
use dns_cache.Entry.Days.{pack_used_days}
use dns_cache.Entry.Key.{key}
use dns_cache.CacheConfig.{Config}
use dns_cache.Cache.{Cache, find, assign}

abbrev pub max_int64 : ℤ
max_int64 = pos (2 ^ 63 - 1)

abbrev pub sample_size : ℕ
sample_size = 8

-- `if oldestKey != ""`, after the loop of `evictOne`
abbrev pub evict_end : Bytes → Option Bytes
evict_end [] = none
evict_end (b ∷ rest) = some (b ∷ rest)

module _ {RR : Type 0} where
  -- `now.After(v.ExpiresAt) && now.After(v.ExpiresAt.Add(24*time.Hour))`
  abbrev pub long_expired : Instant → Entry RR → Bool
  long_expired now e = after now e.expires_at && after now (add e.expires_at (pos (24 * hour)))

  -- The loop of `evictOne` over the rest of the range, with the oldest key and recency so far and
  -- the number of entries seen, of `n`: the key that it deletes.
  unfoldable pub evict_scan : Instant → ℕ → List (Bytes × Entry RR) → Bytes → ℤ → ℕ → Option Bytes
  evict_scan now n [] oldest_key oldest count = evict_end oldest_key
  evict_scan now n ((k, v) ∷ rest) oldest_key oldest count =
      let older = ltb_ℤ v.last_hit_at oldest in
      let oldest_key' = if older then k else oldest_key in
      let oldest' = if older then v.last_hit_at else oldest in
      let more = evict_scan now n rest oldest_key' oldest' (count + 1) in
      if long_expired now v
      then some k
      else if leb sample_size (count + 1) || leb n (count + 1)
      then evict_end oldest_key'
      else more

  -- The key that `evictOne` deletes. `range` is the order in which the loop meets the entries.
  unfoldable pub victim : Instant → List (Bytes × Entry RR) → List (Bytes × Entry RR) → Option Bytes
  unfolding evict_scan
  victim now range entries = evict_scan now (length entries) range [] max_int64 0

  -- `evictOne`
  unfoldable pub evict_one :
      Instant → List (Bytes × Entry RR) → List (Bytes × Entry RR) → List (Bytes × Entry RR)
  unfolding victim
  evict_one now range entries = elim (victim now range entries) [
    | none ↦ entries
    | some k ↦ remove Bytes-discrete k entries
  ]

module _ {RR : Type 0} (dns : Dns RR) where
  open dns use {canonical_name, copy, ttl, soa_minttl}

  -- The negative TTL of the first SOA record of the authority section, if there is one
  unfoldable pub soa_ttl : List RR → Option ℕ
  soa_ttl [] = none
  soa_ttl (rr ∷ rest) = elim (soa_minttl rr) [
    | some minttl ↦ some (min minttl (ttl rr))
    | none ↦ soa_ttl rest
  ]

  -- The TTL that `Set` starts from
  unfoldable pub upstream_ttl : Msg RR → ℕ → ℕ
  unfolding soa_ttl
  upstream_ttl resp original =
      let chosen : ℕ = elim resp.answer [
        | [] ↦ elim (soa_ttl resp.ns) [ some t ↦ t | none ↦ original ]
        | _ ∷ _ ↦ original
      ] in
      if chosen == 0 then 60 else chosen

  -- The TTL held to the configured bounds
  unfoldable pub clamp_ttl : Config → ℕ → Duration
  clamp_ttl cfg original =
      let wanted = of_units (pos original) second in
      let raised = if ltb_ℤ wanted cfg.ttl_min then cfg.ttl_min else wanted in
      if ltb_ℤ cfg.ttl_max raised then cfg.ttl_max else raised

  -- `Key` of an entry
  abbrev pub entry_key : Entry RR → Bytes
  entry_key e = key dns e.question_name e.question_type

  -- `LoadEntry`
  unfoldable pub load_entry : Entry RR → Cache RR → Cache RR
  load_entry e c = assign (entry_key e) e c

  module _ (zone : Instant → ℤ) where
    -- The entry that `Set` builds
    unfoldable pub fresh_entry : Config → ℕ → Bytes → ℕ → Msg RR → ℕ → Entry RR
    unfolding upstream_ttl clamp_ttl
    fresh_entry cfg now qname qtype resp original_ttl =
        let original = upstream_ttl resp original_ttl in
        let ttl' = clamp_ttl cfg original in
        record {
          question_name = canonical_name qname;
          question_type = qtype;
          response = copy resp;
          stored_at = pos now;
          original_ttl = original;
          cached_ttl = ttl';
          expires_at = add (pos now) ttl';
          hit_count = 1;
          last_hit_at = pos now;
          used_days = pack_used_days (local_day zone (pos now));
        }

    -- `Set`; `enow` is the reading of the clock in `evictOne`, and `range` the order of its loop.
    unfoldable pub set :
        ℕ → ℕ → List (Bytes × Entry RR) → Bytes → ℕ → Msg RR → ℕ → Cache RR → Cache RR
    unfolding fresh_entry evict_one
    set now enow range qname qtype resp original_ttl c =
        let e = fresh_entry c.config now qname qtype resp original_ttl in
        elim (find (entry_key e) c) [
          | some old ↦
              assign (entry_key e)
                (record e {
                  hit_count = old.hit_count;
                  last_hit_at = old.last_hit_at;
                  used_days = old.used_days;
                })
                c
          | none ↦ assign (entry_key e) e (record c {
            entries =
                if leb_ℤ c.config.max_entries (pos (length c.entries))
                then evict_one (pos enow) range c.entries
                else c.entries;
          })
        ]
