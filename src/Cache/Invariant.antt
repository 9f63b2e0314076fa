-- ===== src/Cache/Invariant.antt =====
-- The invariant of the cache's state, and the operations of `Get`'s side that keep it.
use dns_cache.Prelude.{
  ℕ, zero, suc, ◌-◌, ◌%◌, ◌^◌, ◌<◌, ◌≡◌, refl, sym, arith, Bool, true, false, inl, inr, ◌∙◌, ap,
  List, [], ◌∷◌, length, All, All-In, In, Bool-cases, Option-cases,
}
use mathlib.Core.Option
use mathlib.Core.List.{lookup}
use dns_cache.Prelude.Assoc.{
  Distinct, In-lookup, store-Distinct, remove-Distinct, All-store, All-remove, All-lookup,
}
use dns_cache.Prelude.Decimal.{Bytes, Bytes-discrete}
use dns_cache.Prelude.Int.{ℤ, pos, ◌<ℤ◌, ltb_ℤ}
use dns_cache.Time.{Instant, add, sub}
use dns_cache.Dns.{Dns}
use dns_cache.Entry.{Entry}
use dns_cache.CacheConfig.{Config}
use dns_cache.Window.{Bucket, window_minutes, minute_of, record_window, record_bucket, update_at}
use dns_cache.Cache.{
  Cache, new, find, assign, count_miss, count_hit, asked, too_old, served, get, get_stale, delete,
  incr_queries, incr_errors, stale_max_age,
}
use dns_cache.Cache.Insert.{entry_key, max_int64}

length-update_at :
    (i : ℕ) (f : Bucket → Bucket) (w : List Bucket) → length (update_at i f w) ≡ length w
unfolding update_at
length-update_at i f [] = refl
length-update_at zero f (b ∷ w) = refl
length-update_at (suc i) f (b ∷ w) = ap suc (length-update_at i f w)

pub length-record_window :
    (now : ℕ) (hit : Bool) (w : List Bucket) → length (record_window now hit w) ≡ length w
unfolding record_window
length-record_window now hit w =
    length-update_at (minute_of now % window_minutes) (record_bucket (minute_of now) hit) w

module _ {RR : Type 0} (dns : Dns RR) where
  -- An entry stands under its key, expires when its TTL has passed since it was stored, and was
  -- last asked for at an instant of int64's range.
  abbrev pub IsWell : Bytes × Entry RR → Type 0
  IsWell (k, e) =
      (k ≡ entry_key dns e)
      × (e.expires_at ≡ add e.stored_at e.cached_ttl)
      × (e.last_hit_at <ℤ max_int64)

  pub record IsValid (c : Cache RR) : Type 0 where
    pub distinct : Distinct Bytes-discrete c.entries
    pub well : All IsWell c.entries
    pub slots : length c.window ≡ window_minutes

  pub assign-IsValid :
      (k : Bytes) (e : Entry RR) (c : Cache RR) → IsWell (k, e) → IsValid c → IsValid (assign k e c)
  assign-IsValid k e c w v = record {
    distinct = store-Distinct Bytes-discrete k e c.entries v.distinct;
    well = All-store Bytes-discrete IsWell k e c.entries w v.well;
    slots = v.slots;
  }

  count_miss-IsValid : (wnow : ℕ) (c : Cache RR) → IsValid c → IsValid (count_miss wnow c)
  count_miss-IsValid wnow c v = record {
    distinct = v.distinct;
    well = v.well;
    slots = length-record_window wnow false c.window ∙ v.slots;
  }

  count_hit-IsValid :
      (wnow : ℕ) (b : Bool) (c : Cache RR) → IsValid c → IsValid (count_hit wnow b c)
  count_hit-IsValid wnow b c v = record {
    distinct = v.distinct;
    well = v.well;
    slots = length-record_window wnow true c.window ∙ v.slots;
  }

  asked-IsWell :
      (zone : Instant → ℤ) (now : ℕ) (k : Bytes) (e : Entry RR)
      → now < 2 ^ 63 - 1
      → IsWell (k, e)
      → IsWell (k, asked zone now e)
  unfolding asked
  asked-IsWell zone now k e h w = (w.0, w.1, omega arith)

  pub get-IsValid :
      (zone : Instant → ℤ) (now wnow : ℕ) (key : Bytes) (c : Cache RR)
      → now < 2 ^ 63 - 1
      → IsValid c
      → IsValid (get zone now wnow key c).0
  unfolding get
  get-IsValid zone now wnow key c h v = elim (Option-cases (find key c)) [
    | inl absent ↦ rw (absent, get) (count_miss-IsValid wnow c v)
    | inr (e, found) ↦
        let e' = asked zone now e in
        let w : IsWell (key, e') =
          asked-IsWell zone now key e h
            (All-lookup Bytes-discrete IsWell key e c.entries v.well found) in
        elim (Bool-cases (too_old c.config now e')) [
          | inl old ↦ rw (found, get, old) (count_miss-IsValid wnow _ (assign-IsValid key e' c w v))
          | inr good ↦
              rw (found, get, good)
                (count_hit-IsValid wnow _ _ (assign-IsValid key (served e') c w v))
        ]
  ]

  -- A new cache is valid.
  pub new-IsValid : (cfg : Config) (now : ℕ) → IsValid (new cfg now)
  unfolding new
  new-IsValid cfg now = record { distinct = tt; well = tt; slots = refl }

  pub get_stale-IsValid :
      (now later : ℕ) (key : Bytes) (c : Cache RR)
      → later < 2 ^ 63 - 1
      → IsValid c
      → IsValid (get_stale now later key c).0
  unfolding get_stale
  get_stale-IsValid now later key c h v = elim (Bool-cases c.config.stale_serving) [
    | inr off ↦ simp off v
    | inl on ↦ simp on (elim (Option-cases (find key c)) [
      | inl absent ↦ rw absent v
      | inr (e, found) ↦ rw found (
          let w : IsWell (key, e) = All-lookup Bytes-discrete IsWell key e c.entries v.well found in
          elim (Bool-cases (ltb_ℤ stale_max_age (sub (pos now) e.expires_at))) [
            | inl old ↦ rw old v
            | inr good ↦ rw good (
                let moved : IsValid (assign key (record (served e) { last_hit_at = pos later }) c) =
                  assign-IsValid key _ c (w.0, w.1, omega arith) v in
                record { distinct = moved.distinct; well = moved.well; slots = moved.slots })
          ])
    ])
  ]

  pub delete-IsValid : (key : Bytes) (c : Cache RR) → IsValid c → IsValid (delete key c)
  unfolding delete
  delete-IsValid key c v = record {
    distinct = remove-Distinct Bytes-discrete key c.entries v.distinct;
    well = All-remove Bytes-discrete IsWell key c.entries v.well;
    slots = v.slots;
  }

  pub incr_queries-IsValid : (c : Cache RR) → IsValid c → IsValid (incr_queries c)
  unfolding incr_queries
  incr_queries-IsValid c v = record { distinct = v.distinct; well = v.well; slots = v.slots }

  pub incr_errors-IsValid : (c : Cache RR) → IsValid c → IsValid (incr_errors c)
  unfolding incr_errors
  incr_errors-IsValid c v = record { distinct = v.distinct; well = v.well; slots = v.slots }

  -- No two entries of a valid cache have the same key.
  pub IsValid-one :
      (c : Cache RR) (k k' : Bytes) (e e' : Entry RR)
      → IsValid c
      → In (k, e) c.entries
      → In (k', e') c.entries
      → entry_key dns e ≡ entry_key dns e'
      → e ≡ e'
  IsValid-one c k k' e e' v m m' same =
      let own = (All-In IsWell (k, e) c.entries v.well m).0 in
      let own' = (All-In IsWell (k', e') c.entries v.well m').0 in
      let found = In-lookup Bytes-discrete k e c.entries v.distinct m in
      let found' = In-lookup Bytes-discrete k' e' c.entries v.distinct m' in
      let keys = own ∙ same ∙ sym own' in
      Option.some-injective _ _
        (sym found ∙ ap (λ j. lookup Bytes-discrete j c.entries) keys ∙ found')
