-- ===== src/Main/Commands.antt =====
-- The command line of main.go: which command runs, and `runFlush`.
use mathlib.Core.List.{lookup}
use mathlib.Core.Path.{subst}
use dns_cache.Prelude.{
  ℕ, ◌≡◌, refl, ap, arith, Bool, true, false, ◌⊎◌, inl, inr, In, List, [], ◌∷◌, Option, none, some,
  Option-cases,
}
use dns_cache.Prelude.Decimal.{Bytes}
use dns_cache.Prelude.Int.{ℤ}
use dns_cache.Time.{Instant}
use dns_cache.Dns.{Dns}
use dns_cache.Cache.{find, new}
use dns_cache.Config.{Config}
use dns_cache.Config.Load.{Files, exits, goes, load_config_or_default, Started-cases}
use dns_cache.Persistence.{Row, Wire, Table, QueryResult, load_rows}
use dns_cache.Main.{load_entries, start_cache}
use dns_cache.Main.Loading.{start_cache-cases}
use dns_cache.Main.Restart.{IsQuery}

-- What `main` runs, by its flags: the first that is set decides.
pub data Command : Type 0 where
  print_version : Command
  show_stats : Command
  flush : Command
  serve : Command

abbrev pub command_of : Bool → Bool → Bool → Command
command_of true stats_cmd flush_cmd = print_version
command_of false true flush_cmd = show_stats
command_of false false true = flush
command_of false false false = serve

-- How `runFlush` ends: with `log.Fatalf`, or with one of its two lines of output
pub data Flushed (Err : Type 0) : Type 0 where
  refused : Err → Flushed Err
  emptied : Flushed Err
  nothing_to_flush : Flushed Err

-- `runFlush`, with what `NewPersistence` and the statement report
unfoldable pub run_flush :
    {Blob Err : Type 0}
    → Files Err
    → (Bytes → Option Err)
    → Option Err
    → Bytes
    → Table Blob
    → Table Blob × Flushed Err
unfolding load_config_or_default
run_flush files open_err exec path table = elim (load_config_or_default files path) [
  | exits err ↦ (table, refused err)
  | goes cfg ↦ elim cfg.db_path [
    | [] ↦ (table, nothing_to_flush)
    | c ∷ rest ↦ elim (open_err (c ∷ rest)) [
      | some err ↦ (table, refused err)
      | none ↦ elim exec [ some err ↦ (table, refused err) | none ↦ ([], emptied) ]
    ]
  ]
]

-- The command has failed, or there is no database to flush.
abbrev pub IsRefusal : {Err : Type 0} → Flushed Err → Type 0
IsRefusal {Err} out = ((err : Err) × (out ≡ refused err)) ⊎ (out ≡ nothing_to_flush)

module _ {RR Blob : Type 0} (wire : Wire RR Blob) (zone : Instant → ℤ) where
  -- Rows that `Scan` refuses load no entry.
  load_rows-nothing :
      (now window : ℤ) (rows : List (Option (Row Blob)))
      → ((row : Row Blob) → ¬ In (some row) rows)
      → load_rows wire zone now window rows ≡ []
  unfolding load_rows
  load_rows-nothing now window [] h = refl
  load_rows-nothing now window (none ∷ rows) h =
      load_rows-nothing now window rows (λ row m. h row (inr m))
  load_rows-nothing now window (some row ∷ rows) h = absurd (h row (inl refl))

  empty_query :
      (rows : List (Option (Row Blob))) → IsQuery [] rows → (row : Row Blob) → ¬ In (some row) rows
  unfolding lookup
  empty_query rows query row m = let found = query.sound row m in absurd (ground arith)

  find-start_cache_empty :
      {Err : Type 0} (dns : Dns RR) (cfg : Config) (new_now load_now : ℕ)
      (result : QueryResult Blob Err) (k : Bytes)
      → IsQuery [] result.rows
      → find k (start_cache dns wire zone cfg new_now load_now result) ≡ none
  unfolding load_entries new lookup
  find-start_cache_empty dns cfg new_now load_now result k query =
      elim (start_cache-cases dns wire zone cfg new_now load_now result) [
        | inl empty ↦ rw empty refl
        | inr filled ↦
            rw (filled, load_rows-nothing _ _ result.rows (empty_query result.rows query)) refl
      ]

  -- `runFlush` either fails, or says that there is no database to flush, and leaves the table as it
  -- was; or else it reports that it has flushed, and then a server that starts on the table it
  -- leaves finds no answer under any key. (Its query yields rows of that table only, and each.)
  pub run_flush-start :
      {Err : Type 0} (dns : Dns RR) (cfg : Config) (files : Files Err)
      (open_err : Bytes → Option Err) (exec : Option Err) (path : Bytes) (table : Table Blob)
      (new_now load_now : ℕ) (result : QueryResult Blob Err) (k : Bytes)
      → IsQuery (run_flush files open_err exec path table).0 result.rows
      → (IsRefusal (run_flush files open_err exec path table).1
          × ((run_flush files open_err exec path table).0 ≡ table))
        ⊎ (((run_flush files open_err exec path table).1 ≡ emptied)
            × (find k (start_cache dns wire zone cfg new_now load_now result) ≡ none))
  unfolding run_flush
  run_flush-start dns cfg files open_err exec path table new_now load_now result k query =
      elim (Started-cases (load_config_or_default files path)) [
        | inl (err, bad) ↦ inl (rw (run_flush, bad) (inl (err, refl), refl))
        | inr (cfg', good) ↦ by_path cfg' cfg'.db_path good refl
      ]
    where
      by_path :
          (cfg' : Config) (db : Bytes)
          → load_config_or_default files path ≡ goes cfg'
          → cfg'.db_path ≡ db
          → (IsRefusal (run_flush files open_err exec path table).1
              × ((run_flush files open_err exec path table).0 ≡ table))
            ⊎ (((run_flush files open_err exec path table).1 ≡ emptied)
                × (find k (start_cache dns wire zone cfg new_now load_now result) ≡ none))
      by_path cfg' [] good at = inl (simp (run_flush, good, at) (inr refl, refl))
      by_path cfg' (c ∷ rest) good at = elim (Option-cases (open_err (c ∷ rest))) [
        | inr (err, bad) ↦ inl (simp (run_flush, good, at, bad) (inl (err, refl), refl))
        | inl opened ↦ elim (Option-cases exec) [
          | inr (err, bad) ↦ inl (simp (run_flush, good, at, opened, bad) (inl (err, refl), refl))
          | inl done ↦
              let made : run_flush files open_err exec path table ≡ ([], emptied) =
                simp (run_flush, good, at, opened, done) refl in
              inr (
                ap (λ (r : Table Blob × Flushed _). r.1) made,
                find-start_cache_empty dns cfg new_now load_now result k
                    (subst (λ (r : Table Blob × Flushed _). IsQuery r.0 result.rows) made query),
              )
        ]
      ]
