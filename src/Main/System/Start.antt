-- ===== src/Main/System/Start.antt =====
-- The running program from its start on.
use dns_cache.Prelude.{
  ℕ, ◌+◌, ◌≤◌, ◌≡◌, refl, arith, inl, inr, List, [], ◌∷◌, length, Option, none, some, In, All,
  Bool-cases, Option-cases,
}
use dns_cache.Prelude.Assoc.{Distinct, length-store_new, length-store_old}
use dns_cache.Prelude.Decimal.{Bytes-discrete}
use dns_cache.Prelude.Int.{ℤ, pos, ltb_ℤ, ◌≤ℤ◌, ◌<ℤ◌, max_ℤ}
use dns_cache.Time.{Instant, Duration, add, sub}
use dns_cache.Dns.{Dns}
use dns_cache.Entry.{Entry}
use dns_cache.CacheConfig.{keep_window}
use dns_cache.Cache.{Cache, find, new}
use dns_cache.Cache.Insert.{entry_key, load_entry, max_int64}
use dns_cache.Cache.Invariant.{IsValid, IsWell, assign-IsValid}
use dns_cache.Cache.Run.{IsBounded}
use dns_cache.Config.{Config, cache_config}
use dns_cache.Refresher.{Candidate, SortSlice, new_refresher}
use dns_cache.Persistence.{
  Row, RowKey-discrete, Wire, Table, QueryResult, loaded, skipped, unreadable, row_last_hit,
  load_row, load_rows,
}
use dns_cache.Persistence.Reload.{In-load_rows}
use dns_cache.Main.{load_entries, start_cache}
use dns_cache.Main.Loading.{start_cache-cases}
use dns_cache.Main.System.{System, start_system, Run}
use dns_cache.Main.System.Sound.{IsOwn, IsSound, Run-IsSound}

module _ {RR : Type 0} (dns : Dns RR) where
  load_entries-IsValid :
      (es : List (Entry RR)) (c : Cache RR)
      → ((e : Entry RR) → In e es → IsWell dns (entry_key dns e, e))
      → IsValid dns c
      → IsValid dns (load_entries dns es c)
  unfolding load_entries load_entry
  load_entries-IsValid [] c well v = v
  load_entries-IsValid (e ∷ es) c well v =
      load_entries-IsValid es _ (λ e' m. well e' (inr m))
        (assign-IsValid dns (entry_key dns e) e c (well e (inl refl)) v)

  config-load_entries :
      (es : List (Entry RR)) (c : Cache RR) → (load_entries dns es c).config ≡ c.config
  unfolding load_entries load_entry
  config-load_entries [] c = refl
  config-load_entries (e ∷ es) c = config-load_entries es (load_entry dns e c)

  length-load_entry :
      (e : Entry RR) (c : Cache RR) → length (load_entry dns e c).entries ≤ length c.entries + 1
  unfolding load_entry
  length-load_entry e c = elim (Option-cases (find (entry_key dns e) c)) [
    | inl absent ↦
        omega (arith, length-store_new Bytes-discrete (entry_key dns e) e c.entries absent)
    | inr (old, found) ↦
        omega (arith, length-store_old Bytes-discrete (entry_key dns e) e old c.entries found)
  ]

  length-load_entries :
      (es : List (Entry RR)) (c : Cache RR)
      → length (load_entries dns es c).entries ≤ length c.entries + length es
  unfolding load_entries
  length-load_entries [] c = omega arith
  length-load_entries (e ∷ es) c =
      omega (arith, length-load_entry e c, length-load_entries es (load_entry dns e c))

module _ {RR Blob : Type 0} (wire : Wire RR Blob) (zone : Instant → ℤ) (now : Instant)
    (window : Duration) where
  load_row-expires :
      (row : Row Blob) (e : Entry RR)
      → load_row wire zone now window row ≡ loaded e
      → (e.expires_at ≡ add e.stored_at e.cached_ttl) × (e.last_hit_at ≡ row_last_hit row)
  unfolding load_row
  load_row-expires row e h = elim (Bool-cases (ltb_ℤ window (sub now (row_last_hit row)))) [
    | inl old ↦ let clash : skipped ≡ loaded e = rw (load_row, old) at h in absurd (ground arith)
    | inr young ↦ elim (Option-cases (Wire.unpack wire row.response_data)) [
      | inl bad ↦
          let clash : unreadable ≡ loaded e = rw (load_row, young, bad) at h in
          absurd (ground arith)
      | inr (msg, good) ↦ let made = rw (load_row, young, good) at h in ground arith
    ]
  ]

  length-load_rows :
      (rows : List (Option (Row Blob))) → length (load_rows wire zone now window rows) ≤ length rows
  unfolding load_rows
  length-load_rows [] = omega arith
  length-load_rows (none ∷ rows) = omega (arith, length-load_rows rows)
  length-load_rows (some row ∷ rows) = ground (arith, length-load_rows rows)

new-IsValid : {RR : Type 0} (dns : Dns RR) (cfg : _) (now : ℕ) → IsValid dns (new {RR = RR} cfg now)
unfolding new
new-IsValid dns cfg now = record { distinct = tt; well = tt; slots = refl }

module _ {RR Blob Err : Type 0} (dns : Dns RR) (wire : Wire RR Blob) (zone : Instant → ℤ)
    (cfg : Config) (new_now load_now save_now : ℕ) (result : QueryResult Blob Err)
    (table : Table Blob) (once : Distinct RowKey-discrete table) (own : All IsOwn table)
    (early : (row : Row Blob) → In (some row) result.rows → row_last_hit row <ℤ max_int64)
    (few : pos (length result.rows) ≤ℤ max_ℤ (pos 1) cfg.cache.max_entries) where
  abbrev entries_read : List (Entry RR)
  entries_read = load_rows wire zone (pos load_now) (keep_window (cache_config cfg)) result.rows

  entries_read-IsWell : (e : Entry RR) → In e entries_read → IsWell dns (entry_key dns e, e)
  entries_read-IsWell e m =
      let (row, there, loads) =
        In-load_rows wire zone (pos load_now) (keep_window (cache_config cfg)) result.rows e m in
      let (expires, hit) =
        load_row-expires wire zone (pos load_now) (keep_window (cache_config cfg)) row e loads in
      (refl, expires, rw hit (early row there))

  loaded-IsBounded :
      IsBounded dns zone cfg.cache.max_entries
        (load_entries dns entries_read (new (cache_config cfg) new_now))
  unfolding new cache_config
  loaded-IsBounded =
      let fresh : Cache RR = new (cache_config cfg) new_now in
      record {
        valid =
            load_entries-IsValid dns entries_read fresh entries_read-IsWell
              (new-IsValid dns (cache_config cfg) new_now);
        configured = rw (config-load_entries dns entries_read fresh) refl;
        fits = omega (
          arith,
          few,
          length-load_entries dns entries_read fresh,
          length-load_rows wire zone (pos load_now) (keep_window (cache_config cfg)) result.rows,
        );
      }

  fresh-IsBounded :
      IsBounded dns zone cfg.cache.max_entries (new {RR = RR} (cache_config cfg) new_now)
  unfolding new cache_config
  fresh-IsBounded = record {
    valid = new-IsValid dns (cache_config cfg) new_now;
    configured = refl;
    fits = omega arith;
  }

  start_cache-IsBounded :
      IsBounded dns zone cfg.cache.max_entries
        (start_cache dns wire zone cfg new_now load_now result)
  start_cache-IsBounded = elim (start_cache-cases dns wire zone cfg new_now load_now result) [
    | inl empty ↦ rw empty fresh-IsBounded
    | inr filled ↦ rw filled loaded-IsBounded
  ]

  start_system-IsSound :
      IsSound dns wire zone cfg cfg.cache.max_entries
        (start_system dns wire zone cfg new_now load_now save_now result table)
  unfolding start_system new_refresher
  start_system-IsSound = record {
    bounded = start_cache-IsBounded;
    once = tt;
    rows_once = once;
    rows_own = own;
  }

  -- From the start of the program on, whatever the goroutines do, in whatever order their moves
  -- come (requests, the refreshes that they start, single calls of those under way, cycles of the
  -- refresher, rounds of saving and of cleaning) and whatever the network and the database answer: the cache stays valid and
  -- within its limit, each key has at most one record of failures, and the table has each row once
  -- and under its own key. (At the start the table is such a table, and the query yields no more rows
  -- than the limit, none of them with a recency at the end of int64's range.)
  pub Run-IsSound_from_start :
      {Fault : Type 0} (fraction : Duration → ℕ → Duration) (sorting : SortSlice (Candidate RR))
      (s : System RR Blob)
      → Run dns wire zone cfg Fault fraction sorting
          (start_system dns wire zone cfg new_now load_now save_now result table)
          s
      → IsSound dns wire zone cfg cfg.cache.max_entries s
  Run-IsSound_from_start fraction sorting s run =
      Run-IsSound dns wire zone cfg fraction sorting start_system-IsSound run
