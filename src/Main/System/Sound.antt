-- ===== src/Main/System/Sound.antt =====
-- What holds of the running program at every moment.
use mathlib.Core.List.{lookup}
use dns_cache.Prelude.{
  ℕ, ◌≡◌, refl, arith, inl, inr, List, [], ◌∷◌, none, ◌==◌, All, Bool-cases, Option-cases, some,
}
use dns_cache.Prelude.Assoc.{Distinct, store-Distinct, remove-Distinct, All-store}
use dns_cache.Prelude.Decimal.{Bytes, Bytes-discrete}
use dns_cache.Prelude.Int.{ℤ, pos, ltb_ℤ}
use dns_cache.Time.{Instant, Duration}
use dns_cache.Dns.{Dns, rcode_success}
use dns_cache.Entry.{Entry}
use dns_cache.Cache.{Cache}
use dns_cache.Cache.Insert.{entry_key}
use dns_cache.Cache.Run.{IsBounded, here, next, Reach-IsBounded}
use dns_cache.Config.{Config}
use dns_cache.Resolver.{resolve}
use dns_cache.Handler.{background_refresh}
use dns_cache.Handler.Serve.{Resolution-cases}
use dns_cache.Handler.Serve.Steps.{serve_dns-Reach, do_once-Reach}
use dns_cache.Refresher.{
  Refresher, Candidate, Snapshot, SortSlice, Failures, note_failure, note_success, prune_known,
  prune_unused, select_candidates, prune_failures,
}
use dns_cache.Refresher.Prune.{prune_known-none}
use dns_cache.Refresher.Cycle.{Attempt, query, refresh_entry, refresh_all, refresh_cycle}
use dns_cache.Refresher.Cycle.Steps.{refresh_cycle-Reach}
use dns_cache.Persistence.{
  Row, RowKey, RowKey-discrete, Wire, Table, row_of, row_key, delete_before, cleanup,
}
use dns_cache.Persistence.Batch.{insert_all}
use dns_cache.Main.Saving.{persist_round-saves}
use dns_cache.Main.System.{
  System, Move, serves, calls, notes_failure, notes_success, renews, cycles, saves, cleans, Run,
  idle, then_move,
}

module _ {Blob : Type 0} where
  -- A row stands under its own name and type.
  abbrev pub IsOwn : RowKey × Row Blob → Type 0
  IsOwn (k, row) = k ≡ (row.question_name, row.question_type)

  delete_before-none :
      (cutoff : ℤ) (k : RowKey) (table : Table Blob)
      → lookup RowKey-discrete k table ≡ none
      → lookup RowKey-discrete k (delete_before cutoff table).0 ≡ none
  unfolding delete_before lookup
  delete_before-none cutoff k [] h = refl
  delete_before-none cutoff k ((j, row) ∷ table) h =
      ground (arith, delete_before-none cutoff k table)

  delete_before-Distinct :
      (cutoff : ℤ) (table : Table Blob)
      → Distinct RowKey-discrete table
      → Distinct RowKey-discrete (delete_before cutoff table).0
  unfolding delete_before
  delete_before-Distinct cutoff [] d = tt
  delete_before-Distinct cutoff ((j, row) ∷ table) d =
      ground (arith, delete_before-Distinct cutoff table d.1, delete_before-none cutoff j table d.0)

  delete_before-All :
      (P : RowKey × Row Blob → Type 0) (cutoff : ℤ) (table : Table Blob)
      → All P table
      → All P (delete_before cutoff table).0
  unfolding delete_before
  delete_before-All P cutoff [] a = tt
  delete_before-All P cutoff ((j, row) ∷ table) a = elim (Bool-cases (ltb_ℤ row.stored_at cutoff)) [
    | inl old ↦ rw old (delete_before-All P cutoff table a.1)
    | inr good ↦ rw good (a.0, delete_before-All P cutoff table a.1)
  ]

module _ {RR Blob : Type 0} where
  pub insert_all-Distinct :
      (ps : List (Entry RR × Blob)) (table : Table Blob)
      → Distinct RowKey-discrete table
      → Distinct RowKey-discrete (insert_all ps table)
  insert_all-Distinct [] table d = d
  insert_all-Distinct ((e, b) ∷ ps) table d =
      insert_all-Distinct ps _ (store-Distinct RowKey-discrete (row_key e) (row_of e b) table d)

  pub insert_all-IsOwn :
      (ps : List (Entry RR × Blob)) (table : Table Blob)
      → All IsOwn table
      → All IsOwn (insert_all ps table)
  unfolding row_of
  insert_all-IsOwn [] table a = a
  insert_all-IsOwn ((e, b) ∷ ps) table a =
      insert_all-IsOwn ps _ (All-store RowKey-discrete IsOwn (row_key e) (row_of e b) table refl a)

-- Each key has one record of failures.
abbrev pub IsOnce : Refresher → Type 0
IsOnce rf = Distinct Bytes-discrete rf.failures

prune_failures-IsOnce :
    {RR : Type 0} (snapshot : Snapshot RR) (rf : Refresher)
    → IsOnce rf
    → IsOnce (prune_failures snapshot rf)
unfolding prune_failures
prune_failures-IsOnce {RR} snapshot rf = known rf.failures
  where
    known :
        (fs : Failures)
        → Distinct Bytes-discrete fs
        → Distinct Bytes-discrete (prune_known snapshot fs)
    known [] d = tt
    known ((k, f) ∷ fs) d = elim (Option-cases (lookup Bytes-discrete k snapshot)) [
      | inl absent ↦ rw (prune_known, absent) (known fs d.1)
      | inr (e, found) ↦ rw (prune_known, found) (prune_known-none snapshot k fs d.0, known fs d.1)
    ]

module _ {RR Err : Type 0} (dns : Dns RR) (zone : Instant → ℤ) (us : List Bytes) where
  refresh_entry-IsOnce :
      (a : Attempt RR Err) (e : Entry RR) (c : Cache RR) (rf : Refresher)
      → IsOnce rf
      → IsOnce (refresh_entry dns zone us a e c rf).1
  unfolding refresh_entry note_failure note_success
  refresh_entry-IsOnce a e c rf d =
      let fails = store-Distinct Bytes-discrete (entry_key dns e) _ rf.failures d in
      elim (Resolution-cases (resolve dns a.net us (query dns zone us a e))) [
        | inl (resp, u, rtt, got) ↦ elim (Bool-cases (resp.rcode == rcode_success)) [
          | inl good ↦
              rw (refresh_entry, got, good)
                (remove-Distinct Bytes-discrete (entry_key dns e) rf.failures d)
          | inr bad ↦ rw (refresh_entry, got, bad) fails
        ]
        | inr (inl got) ↦ rw (refresh_entry, got) fails
        | inr (inr (inl (errs, got))) ↦ rw (refresh_entry, got) fails
        | inr (inr (inr got)) ↦ rw (refresh_entry, got) d
      ]

  refresh_all-IsOnce :
      (attempts : List (Attempt RR Err)) (es : List (Entry RR)) (c : Cache RR) (rf : Refresher)
      → IsOnce rf
      → IsOnce (refresh_all dns zone us attempts es c rf).1
  unfolding refresh_all
  refresh_all-IsOnce [] es c rf d = d
  refresh_all-IsOnce (a ∷ later) [] c rf d = d
  refresh_all-IsOnce (a ∷ later) (e ∷ es) c rf d =
      refresh_all-IsOnce later es _ _ (refresh_entry-IsOnce a e c rf d)

  refresh_cycle-IsOnce :
      (fraction : Duration → ℕ → Duration) (sorting : SortSlice (Candidate RR)) (now : ℕ)
      (prune_order select_order : Snapshot RR) (attempts : List (Attempt RR Err)) (c : Cache RR)
      (rf : Refresher)
      → IsOnce rf
      → IsOnce
          (refresh_cycle dns zone us fraction sorting now prune_order select_order attempts c rf).1
  unfolding refresh_cycle
  refresh_cycle-IsOnce fraction sorting now prune_order select_order attempts c rf d =
      cycle c.entries refl
    where
      cycle :
          (l : Snapshot RR)
          → c.entries ≡ l
          → IsOnce
              (refresh_cycle dns zone us fraction sorting now prune_order select_order attempts c
                rf).1
      cycle [] empty = simp (refresh_cycle, empty) d
      cycle (x ∷ l) some_entries =
          let run =
            refresh_all-IsOnce attempts
              (select_candidates zone fraction c.config sorting (prune_failures c.entries rf)
                (pos now) select_order).0
              (prune_unused prune_order (pos now) c) (prune_failures c.entries rf)
              (prune_failures-IsOnce c.entries rf d) in
          simp (refresh_cycle, some_entries) (simp some_entries at run)

module _ {RR Blob : Type 0} (dns : Dns RR) (wire : Wire RR Blob) (zone : Instant → ℤ)
    (cfg : Config) where
  -- The cache is valid and within its limit, each key has one record of failures, and each row of
  -- the table stands once, under its own name and type.
  pub record IsSound (limit : ℤ) (s : System RR Blob) : Type 0 where
    pub bounded : IsBounded dns zone limit s.cache
    pub once : IsOnce s.refresher
    pub rows_once : Distinct RowKey-discrete s.table
    pub rows_own : All IsOwn s.table

  module _ {Err : Type 0} (fraction : Duration → ℕ → Duration)
      (sorting : SortSlice (Candidate RR)) where
    Move-IsSound :
        {limit : ℤ} {s t : System RR Blob}
        → Move dns wire zone cfg Err fraction sorting s t
        → IsSound limit s
        → IsSound limit t
    unfolding background_refresh cleanup note_failure note_success
    Move-IsSound (serves is_tcp at joined net req s timely ranges) i = record {
      bounded =
          Reach-IsBounded dns zone i.bounded
            (serve_dns-Reach dns zone cfg.upstreams at net timely is_tcp joined req s.cache ranges);
      once = i.once;
      rows_once = i.rows_once;
      rows_own = i.rows_own;
    }
    Move-IsSound (calls s c step) i = record {
      bounded = Reach-IsBounded dns zone i.bounded (next here step);
      once = i.once;
      rows_once = i.rows_once;
      rows_own = i.rows_own;
    }
    Move-IsSound (notes_failure k now s) i = record {
      bounded = i.bounded;
      once = store-Distinct Bytes-discrete k _ s.refresher.failures i.once;
      rows_once = i.rows_once;
      rows_own = i.rows_own;
    }
    Move-IsSound (notes_success k s) i = record {
      bounded = i.bounded;
      once = remove-Distinct Bytes-discrete k s.refresher.failures i.once;
      rows_once = i.rows_once;
      rows_own = i.rows_own;
    }
    Move-IsSound (renews at id joined net q s timely range) i = record {
      bounded =
          Reach-IsBounded dns zone i.bounded
            (do_once-Reach dns zone cfg.upstreams at net timely joined q _ s.cache range);
      once = i.once;
      rows_once = i.rows_once;
      rows_own = i.rows_own;
    }
    Move-IsSound (cycles now prune_order select_order attempts s orderly) i = record {
      bounded = Reach-IsBounded dns zone i.bounded (
          refresh_cycle-Reach dns zone cfg.upstreams fraction sorting now prune_order select_order
            attempts s.cache s.refresher orderly);
      once =
          refresh_cycle-IsOnce dns zone cfg.upstreams fraction sorting now prune_order select_order
            attempts s.cache s.refresher i.once;
      rows_once = i.rows_once;
      rows_own = i.rows_own;
    }
    Move-IsSound (saves out now s db) i =
        elim (persist_round-saves wire out (pos now) s.last_save s.cache.entries s.table) [
          | inl same ↦ record {
            bounded = i.bounded;
            once = i.once;
            rows_once = rw same i.rows_once;
            rows_own = rw same i.rows_own;
          }
          | inr (es, ps, packed, written, all_new) ↦ record {
            bounded = i.bounded;
            once = i.once;
            rows_once = rw written (insert_all-Distinct ps s.table i.rows_once);
            rows_own = rw written (insert_all-IsOwn ps s.table i.rows_own);
          }
        ]
    Move-IsSound (cleans (some err) now s db wanted) i = record {
      bounded = i.bounded;
      once = i.once;
      rows_once = i.rows_once;
      rows_own = i.rows_own;
    }
    Move-IsSound (cleans none now s db wanted) i = record {
      bounded = i.bounded;
      once = i.once;
      rows_once = delete_before-Distinct _ s.table i.rows_once;
      rows_own = delete_before-All IsOwn _ s.table i.rows_own;
    }

    -- Whatever the goroutines do, in whatever order their moves come (requests, the refreshes that
    -- they start, single calls of those under way, cycles of the refresher, rounds of saving and
    -- of cleaning) and whatever the network and the database answer: the cache stays valid and within its limit, each key has at
    -- most one record of failures, and the table has each row once and under its own key. (The
    -- program starts in such a state.)
    pub Run-IsSound :
        {limit : ℤ} {s t : System RR Blob}
        → IsSound limit s
        → Run dns wire zone cfg Err fraction sorting s t
        → IsSound limit t
    Run-IsSound i idle = i
    Run-IsSound i (then_move r m) = Move-IsSound m (Run-IsSound i r)
