-- ===== src/Tests/Restarting.antt =====
-- A restart of the small cache, rounds of saving, and a run of the whole program.
use mathlib.Core.List.{lookup}
use mathlib.Core.Path.{subst}
use dns_cache.Prelude.{
  ℕ, ◌+◌, ◌*◌, ◌≡◌, ◌≢◌, refl, ap, ◌∙◌, arith, true, inl, inr, List, [], ◌∷◌, map, Option, none,
  some, In, All, All-In,
}
use dns_cache.Prelude.Assoc.{Distinct, In-lookup, lookup-In}
use dns_cache.Prelude.Int.{pos, ◌*ℤ◌, quot, wrap64}
use dns_cache.Time.{second, of_units}
use dns_cache.Dns.{Msg}
use dns_cache.Entry.{Entry}
use dns_cache.CacheConfig.{keep_window}
use dns_cache.Cache.{find}
use dns_cache.Config.{default_config, cache_config}
use dns_cache.Persistence.{Row, RowKey, RowKey-discrete, Table, QueryResult, Outcomes, save_batch}
use dns_cache.Persistence.Batch.{insert_all}
use dns_cache.Persistence.Reload.{IsSavable}
use dns_cache.Main.{Round, changed, start_cache, persist_loop}
use dns_cache.Main.Durable.{IsKept, Tracks, persist_loop-IsKept}
use dns_cache.Main.Restart.{IsQuery, entries_of, reloaded, start_cache-reloaded}
use dns_cache.Main.System.Sound.{IsOwn, insert_all-Distinct, insert_all-IsOwn}
use dns_cache.Tests.Fixtures.{Rr, lower_case, utc, noon, reply, entry_a, entry_b, key_a, full}
use dns_cache.Tests.Races.{of_full}
use dns_cache.Tests.Saving.{wire, second_fails}
use dns_cache.Tests.Storing.{full-IsValid}

-- The rows of a table, in its order
abbrev rows_of : {Blob : Type 0} → Table Blob → List (Option (Row Blob))
rows_of table = map (λ p. some p.1) table

In-rows_of :
    {Blob : Type 0} (table : Table Blob) (row : Row Blob)
    → In (some row) (rows_of table)
    → (k : RowKey) × In (k, row) table
In-rows_of [] row m = absurd m
In-rows_of ((k, r) ∷ table) row (inl e) =
    let same : row ≡ r = ground arith in (k, inl (ap (λ y. (k, y)) same))
In-rows_of ((k, r) ∷ table) row (inr m) = let (j, n) = In-rows_of table row m in (j, inr n)

rows_of-In :
    {Blob : Type 0} (table : Table Blob) (k : RowKey) (row : Row Blob)
    → In (k, row) table
    → In (some row) (rows_of table)
rows_of-In [] k row m = absurd m
rows_of-In ((j, r) ∷ table) k row (inl e) = inl (ap (λ (p : RowKey × Row _). some p.1) e)
rows_of-In ((j, r) ∷ table) k row (inr m) = inr (rows_of-In table k row m)

-- A table whose rows stand once, under their own keys, yields its rows.
rows_of-IsQuery :
    {Blob : Type 0} (table : Table Blob)
    → Distinct RowKey-discrete table
    → All IsOwn table
    → IsQuery table (rows_of table)
rows_of-IsQuery table d own = record {
  sound = λ row m.
      let (k, n) = In-rows_of table row m in
      subst (λ j. lookup RowKey-discrete j table ≡ some row) (All-In IsOwn (k, row) table own n)
        (In-lookup RowKey-discrete k row table d n);
  complete = λ k row h. rows_of-In table k row (lookup-In RowKey-discrete k row table h);
}

abbrev pub all_written : Outcomes ℕ
all_written = record { begin = none; prepare = none; pack_err = 1; exec = λ n. none; commit = none }

abbrev packed_entries : List (Entry Rr × Msg Rr)
packed_entries = (entry_a, reply) ∷ (entry_b, reply) ∷ []

abbrev saved_table : Table (Msg Rr)
saved_table = insert_all packed_entries []

full_saved : save_batch wire all_written (entries_of full) [] ≡ (saved_table, none)
unfolding save_batch
full_saved = refl

entry_a-IsSavable : IsSavable wire entry_a
unfolding quot ◌*ℤ◌ wrap64 of_units
entry_a-IsSavable = record {
  packed = (reply, refl);
  lives = omega arith;
  hit = omega arith;
  days_least = omega arith;
  days_most = omega arith;
}

entry_b-IsSavable : IsSavable wire entry_b
unfolding quot ◌*ℤ◌ wrap64 of_units
entry_b-IsSavable = record {
  packed = (reply, refl);
  lives = omega arith;
  hit = omega arith;
  days_least = omega arith;
  days_most = omega arith;
}

saved_table-IsQuery : IsQuery saved_table (rows_of saved_table)
saved_table-IsQuery =
    rows_of-IsQuery saved_table (insert_all-Distinct packed_entries [] tt)
      (insert_all-IsOwn packed_entries [] tt)

-- The query yields every row.
abbrev rows_read : QueryResult (Msg Rr) ℕ
rows_read = record { query_err = none; rows = rows_of saved_table; rows_err = none }

pub has_database : default_config.db_path ≢ []
has_database e = cc e

start_cache-reloaded_example :
    find key_a (
      start_cache lower_case wire utc default_config
        (noon + 60 * second)
        (noon + 60 * second)
        rows_read)
    ≡ reloaded
        (pos (noon + 60 * second))
        (keep_window (cache_config default_config))
        (find key_a full)
start_cache-reloaded_example =
    start_cache-reloaded lower_case wire utc default_config all_written (noon + 60 * second)
      (noon + 60 * second) full saved_table rows_read key_a has_database refl refl full-IsValid
      (entry_a-IsSavable, (entry_b-IsSavable, tt)) full_saved saved_table-IsQuery

-- The first round fails at its second row, the second one succeeds.
abbrev rounds : List (Round Rr ℕ)
rounds =
    record { cache = full; out = second_fails; start = pos (noon + 30 * second) }
    ∷ record { cache = full; out = all_written; start = pos (noon + 60 * second) }
    ∷ []

new_a : changed (wrap64 (pos noon)) entry_a ≡ true
unfolding wrap64
new_a = refl

new_b : changed (wrap64 (pos noon)) entry_b ≡ true
unfolding wrap64
new_b = refl

full-IsKept : IsKept lower_case wire full ([], pos noon)
full-IsKept = record {
  entry_kept = λ k e m. inr (elim (of_full k e m) [
    | inl (at, same) ↦ ap (changed (wrap64 (pos noon))) same ∙ new_a
    | inr (at, same) ↦ ap (changed (wrap64 (pos noon))) same ∙ new_b
  ]);
}

full-Tracks : Tracks lower_case wire rounds full ([], pos noon)
full-Tracks = (full-IsValid, (λ k e m. inl m), (full-IsValid, (λ k e m. inl m), tt))

persist_loop-IsKept_example : IsKept lower_case wire full (persist_loop wire rounds ([], pos noon))
persist_loop-IsKept_example =
    persist_loop-IsKept lower_case wire rounds full ([], pos noon) full-IsKept full-Tracks
