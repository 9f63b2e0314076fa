-- ===== src/Main/System.antt =====
-- The running program: what main.go starts on the cache, the refresher and the database, each move
-- of a goroutine as one step.
pub mod Sound
pub mod Start
use dns_cache.Prelude.{ℕ, ◌≡◌, ◌≢◌, Bool, List, [], ◌∷◌, Option, some, map}
use dns_cache.Prelude.Decimal.{Bytes}
use dns_cache.Prelude.Int.{ℤ, pos, ◌<ℤ◌}
use dns_cache.Time.{Instant, Duration}
use dns_cache.Dns.{Dns, Msg, Question}
use dns_cache.Entry.{Entry}
use dns_cache.Entry.Key.{key}
use dns_cache.Cache.{Cache, get, incr_queries}
use dns_cache.Cache.Insert.Victim.{IsRange}
use dns_cache.Cache.Run.{Step}
use dns_cache.Config.{Config, cache_refresh_interval}
use dns_cache.Resolver.{Network, Resolution}
use dns_cache.Handler.{Readings, serve_dns, background_refresh}
use dns_cache.Handler.Serve.Steps.{IsTimely}
use dns_cache.Refresher.{
  Refresher, Candidate, Snapshot, SortSlice, new_refresher, note_failure, note_success,
  prune_failures, prune_unused, select_candidates,
}
use dns_cache.Refresher.Cycle.{Attempt, refresh_cycle}
use dns_cache.Refresher.Cycle.Steps.{IsOrderly}
use dns_cache.Persistence.{QueryResult, Wire, Table, Outcomes, cleanup}
use dns_cache.Main.{start_cache, cleanup_after, persist_round}

-- The state that the goroutines share. The persister's time of the last save is its own.
pub record System (RR Blob : Type 0) : Type 0 where
  pub cache : Cache RR
  pub refresher : Refresher
  pub table : Table Blob
  pub last_save : Instant

module _ {RR Blob : Type 0} (dns : Dns RR) (wire : Wire RR Blob) (zone : Instant → ℤ)
    (cfg : Config) where
  -- The state when `runServer` is ready; the query yields the rows of the table in some order.
  unfoldable pub start_system :
      {Err : Type 0} → ℕ → ℕ → ℕ → QueryResult Blob Err → Table Blob → System RR Blob
  unfolding start_cache
  start_system new_now load_now save_now result table = record {
    cache = start_cache dns wire zone cfg new_now load_now result;
    refresher = new_refresher (cache_refresh_interval cfg);
    table = table;
    last_save = pos save_now;
  }

  module _ (Err : Type 0) (fraction : Duration → ℕ → Duration)
      (sorting : SortSlice (Candidate RR)) where
    -- A move of one goroutine. The clock is before the end of int64's nanoseconds, and where an
    -- entry is evicted, the range is over the entries that are there.
    pub data Move : System RR Blob → System RR Blob → Type 0 where
      -- `ServeDNS`
      serves :
          (is_tcp : Bool) (at : Readings RR) (joined : Option (Resolution RR Err))
          (net : Network RR Err) (req : Msg RR) (s : System RR Blob)
          → IsTimely at
          → ((q : Question) (qs : List Question)
              → req.question ≡ q ∷ qs
              → IsRange at.range
                  (get zone at.get_now at.window_now
                    (key dns q.name q.qtype)
                    (incr_queries s.cache)).0.entries)
          → Move s (record s {
            cache = (serve_dns dns zone cfg.upstreams is_tcp at joined net req s.cache).0;
          })
      -- A single call on the cache by a request or a cycle that is under way
      calls :
          (s : System RR Blob) (c : Cache RR)
          → Step dns zone s.cache c
          → Move s (record s { cache = c })
      -- `noteFailure` and `noteSuccess` by a refresh that is under way
      notes_failure :
          (k : Bytes) (now : ℕ) (s : System RR Blob)
          → Move s (record s { refresher = note_failure k now s.refresher })
      notes_success :
          (k : Bytes) (s : System RR Blob)
          → Move s (record s { refresher = note_success k s.refresher })
      -- The refresh that `ServeDNS` starts
      renews :
          (at : Readings RR) (id : ℕ) (joined : Option (Resolution RR Err)) (net : Network RR Err)
          (q : Question) (s : System RR Blob)
          → IsTimely at
          → IsRange at.range s.cache.entries
          → Move s (record s {
            cache = background_refresh dns zone cfg.upstreams at id joined net q s.cache;
          })
      -- The tick of the refresher
      cycles :
          (now : ℕ) (prune_order select_order : Snapshot RR) (attempts : List (Attempt RR Err))
          (s : System RR Blob)
          → IsOrderly dns zone cfg.upstreams attempts
              (select_candidates zone fraction s.cache.config sorting
                (prune_failures s.cache.entries s.refresher)
                (pos now)
                select_order).0
              (prune_unused prune_order (pos now) s.cache)
              (prune_failures s.cache.entries s.refresher)
          → Move s (record s {
            cache =
                (refresh_cycle dns zone cfg.upstreams fraction sorting now prune_order select_order
                  attempts s.cache s.refresher).0;
            refresher =
                (refresh_cycle dns zone cfg.upstreams fraction sorting now prune_order select_order
                  attempts s.cache s.refresher).1;
          })
      -- The tick of `persistLoop`, where there is a database
      saves :
          (out : Outcomes Err) (now : ℕ) (s : System RR Blob)
          → cfg.db_path ≢ []
          → Move s (record s {
            table = (persist_round wire out (pos now) s.cache.entries s.table s.last_save).0;
            last_save = (persist_round wire out (pos now) s.cache.entries s.table s.last_save).1;
          })
      -- The hour of `cleanupLoop`, where the file asks for it
      cleans :
          (exec : Option Err) (now : ℕ) (s : System RR Blob)
          → cfg.db_path ≢ []
          → pos 0 <ℤ cfg.cleanup_after
          → Move s (record s {
            table = (cleanup (cleanup_after cfg cfg.cleanup_after) now exec s.table).0;
          })

    pub data Run (s : System RR Blob) : System RR Blob → Type 0 where
      idle : Run s s
      then_move : {t u : System RR Blob} → Run s t → Move t u → Run s u
