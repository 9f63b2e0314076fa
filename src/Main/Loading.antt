-- ===== src/Main/Loading.antt =====
-- What `runServer` loads into the cache before it starts its parts.
use dns_cache.Prelude.{ℕ, ◌≡◌, ◌≢◌, refl, arith, ◌⊎◌, inl, inr, [], ◌∷◌, none, Option-cases}
use dns_cache.Prelude.Decimal.{Bytes}
use dns_cache.Prelude.Int.{ℤ, pos}
use dns_cache.Time.{Instant}
use dns_cache.Dns.{Dns}
use dns_cache.CacheConfig.{keep_window}
use dns_cache.Cache.{new}
use dns_cache.Config.{Config, cache_config}
use dns_cache.Persistence.{Wire, QueryResult, load_all, load_rows}
use dns_cache.Main.{load_entries, start_cache}

module _ {RR Blob Err : Type 0} (dns : Dns RR) (wire : Wire RR Blob) (zone : Instant → ℤ)
    (cfg : Config) (new_now load_now : ℕ) (result : QueryResult Blob Err) where
  -- The rows go into the cache if the query and the rows end without an error.
  pub start_cache-loaded :
      cfg.db_path ≢ []
      → result.query_err ≡ none
      → result.rows_err ≡ none
      → start_cache dns wire zone cfg new_now load_now result
        ≡ load_entries dns
            (load_rows wire zone (pos load_now) (keep_window (cache_config cfg)) result.rows)
            (new (cache_config cfg) new_now)
  unfolding start_cache load_all
  start_cache-loaded some_path asked ended = by_path cfg.db_path refl
    where
      by_path :
          (path : Bytes)
          → cfg.db_path ≡ path
          → start_cache dns wire zone cfg new_now load_now result
            ≡ load_entries dns
                (load_rows wire zone (pos load_now) (keep_window (cache_config cfg)) result.rows)
                (new (cache_config cfg) new_now)
      by_path [] at = absurd (some_path at)
      by_path (b ∷ path) at = simp (start_cache, load_all, at, asked, ended) refl

  -- Without a database, and where `LoadAll` reports an error, the cache starts empty.
  pub start_cache-cases :
      (start_cache dns wire zone cfg new_now load_now result ≡ new (cache_config cfg) new_now)
      ⊎ (start_cache dns wire zone cfg new_now load_now result
          ≡ load_entries dns
              (load_rows wire zone (pos load_now) (keep_window (cache_config cfg)) result.rows)
              (new (cache_config cfg) new_now))
  unfolding start_cache load_all
  start_cache-cases = by_path cfg.db_path refl
    where
      by_path :
          (path : Bytes)
          → cfg.db_path ≡ path
          → (start_cache dns wire zone cfg new_now load_now result ≡ new (cache_config cfg) new_now)
            ⊎ (start_cache dns wire zone cfg new_now load_now result
                ≡ load_entries dns
                    (load_rows wire zone
                      (pos load_now)
                      (keep_window (cache_config cfg))
                      result.rows)
                    (new (cache_config cfg) new_now))
      by_path [] at = inl (simp (start_cache, at) refl)
      by_path (b ∷ path) at = elim (Option-cases result.query_err) [
        | inr (err, bad) ↦ inl (simp (start_cache, load_all, at, bad) refl)
        | inl asked ↦ elim (Option-cases result.rows_err) [
          | inr (err, bad) ↦ inl (simp (start_cache, load_all, at, asked, bad) refl)
          | inl ended ↦ inr (start_cache-loaded (λ e. absurd (ground (arith, at, e))) asked ended)
        ]
      ]
