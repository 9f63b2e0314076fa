-- ===== src/Main.antt =====
-- How main.go starts the cache and saves it: the loaded entries, the time after which old rows are
-- deleted, one round of `persistLoop`, and `runFlush`.
pub mod Commands
pub mod Durable
pub mod Launch
pub mod Loading
pub mod Restart
pub mod Saving
pub mod System
pub mod Shutdown
use dns_cache.Prelude.{ℕ, Bool, ◌||◌, List, [], ◌∷◌, keep, Option, none, some, if◌then◌else◌}
use dns_cache.Prelude.Decimal.{Bytes}
use dns_cache.Prelude.Int.{ℤ, pos, leb_ℤ, ltb_ℤ, max_ℤ, wrap64}
use dns_cache.Time.{Instant, Duration, of_units, hour}
use dns_cache.Dns.{Dns}
use dns_cache.Entry.{Entry}
use dns_cache.CacheConfig.{keep_window}
use dns_cache.Cache.{Cache, new}
use dns_cache.Cache.Insert.{load_entry}
use dns_cache.Config.{Config, cache_config}
use dns_cache.Persistence.{Row, Wire, Table, QueryResult, Outcomes, save_batch, load_all}

module _ {RR : Type 0} (dns : Dns RR) where
  -- The loop that fills the new cache
  unfoldable pub load_entries : List (Entry RR) → Cache RR → Cache RR
  unfolding load_entry
  load_entries [] c = c
  load_entries (e ∷ es) c = load_entries es (load_entry dns e c)

  -- The cache at the start of `runServer`: new, and filled from the database if there is one and
  -- `LoadAll` reports no error. (`NewPersistence` has succeeded; otherwise the program ends.)
  unfoldable pub start_cache :
      {Blob Err : Type 0}
      → Wire RR Blob
      → (Instant → ℤ)
      → Config
      → ℕ
      → ℕ
      → QueryResult Blob Err
      → Cache RR
  unfolding new load_all load_entries keep_window cache_config
  start_cache wire zone cfg new_now load_now result =
      let c = new (cache_config cfg) new_now in
      elim cfg.db_path [
        | [] ↦ c
        | b ∷ path ↦
            let (entries, failed) =
              load_all wire zone (pos load_now) (keep_window (cache_config cfg)) result in
            elim failed [ some err ↦ c | none ↦ load_entries entries c ]
      ]

-- The time after which rows are deleted
unfoldable pub cleanup_after : Config → ℤ → Duration
unfolding keep_window
cleanup_after cfg hours = max_ℤ (of_units hours hour) (keep_window (cache_config cfg))

module _ {RR : Type 0} where
  -- The test of `persistLoop`: stored or asked for since a time
  abbrev pub changed : ℤ → Entry RR → Bool
  changed since e = leb_ℤ since (wrap64 e.stored_at) || leb_ℤ since e.last_hit_at

  -- The entries that a round saves
  unfoldable pub batch_of : ℤ → List (Bytes × Entry RR) → List (Entry RR)
  batch_of since [] = []
  batch_of since ((k, e) ∷ rest) =
      let later = batch_of since rest in if changed since e then e ∷ later else later

  -- One round of `persistLoop` over the cache's entries: the table and the time of the last save
  unfoldable pub persist_round :
      {Blob Err : Type 0}
      → Wire RR Blob
      → Outcomes Err
      → Instant
      → List (Bytes × Entry RR)
      → Table Blob
      → Instant
      → Table Blob × Instant
  unfolding batch_of save_batch
  persist_round wire out start entries table last_save =
      let (table', result) = save_batch wire out (batch_of (wrap64 last_save) entries) table in
      elim result [ some err ↦ (table', last_save) | none ↦ (table', start) ]

-- A tick of `persistLoop`: the cache that it scans, what the database reports, and its start
pub record Round (RR Err : Type 0) : Type 0 where
  pub cache : Cache RR
  pub out : Outcomes Err
  pub start : Instant

module _ {RR Blob Err : Type 0} (wire : Wire RR Blob) where
  abbrev pub save_round : Round RR Err → Table Blob × Instant → Table Blob × Instant
  save_round r (table, last_save) = persist_round wire r.out r.start r.cache.entries table last_save

  -- `persistLoop`: the ticks until it is stopped
  unfoldable pub persist_loop : List (Round RR Err) → Table Blob × Instant → Table Blob × Instant
  unfolding persist_round
  persist_loop [] s = s
  persist_loop (r ∷ rs) s = persist_loop rs (save_round r s)

-- The cache that the last round has scanned
abbrev pub last_scanned : {RR Err : Type 0} → Cache RR → List (Round RR Err) → Cache RR
last_scanned c [] = c
last_scanned c (r ∷ rs) = last_scanned r.cache rs
