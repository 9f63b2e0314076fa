-- ===== src/Tests/Launching.antt =====
-- The start of the program: the schema, the configuration, the commands and the parts.
use mathlib.Core.List.{lookup}
use mathlib.Core.Path.{subst}
use dns_cache.Prelude.{
  ℕ, ◌≡◌, refl, sym, ap, ◌∙◌, arith, true, ◌⊎◌, inl, inr, List, [], ◌∷◌, ◌++◌, map, Option, none,
  some, In, All,
}
use dns_cache.Prelude.Decimal.{Bytes, Bytes-discrete, codes}
use dns_cache.Cache.{find}
use dns_cache.Config.{default_config}
use dns_cache.Config.Bounds.{IsUsable}
use dns_cache.Config.Load.{
  Files, goes, load_config_or_default, get_socket_path, load_config_or_default-IsUsable,
}
use dns_cache.Main.{start_cache}
use dns_cache.Main.Commands.{IsRefusal, emptied, run_flush, run_flush-start}
use dns_cache.Main.Launch.{World, signalled, orderly, fatal, run_server, running, IsStop}
use dns_cache.Main.Launch.Stops.{run_server-stops}
use dns_cache.Main.Restart.{IsQuery}
use dns_cache.Persistence.{Table, QueryResult, row_key, row_of, dir_of}
use dns_cache.Persistence.Schema.{Engine, Info, new_persistence, created_columns}
use dns_cache.Persistence.Schema.Columns.{Prepared, new_persistence-Prepared}
use dns_cache.Dns.{Msg}
use dns_cache.Tests.Fixtures.{Rr, lower_case, utc, noon, reply, entry_a, key_a}
use dns_cache.Tests.Saving.{wire}

abbrev create_table : List Bytes → List Bytes × Option ℕ
create_table [] = (created_columns, none)
create_table (c ∷ cs) = (c ∷ cs, none)

new_table : (db : List Bytes) → db ≡ [] → (create_table db).0 ≡ created_columns
new_table [] e = refl
new_table (c ∷ cs) e = absurd (ground arith)

old_table : (db : List Bytes) (c : Bytes) (cs : List Bytes) → db ≡ c ∷ cs → (create_table db).0 ≡ db
old_table [] c cs e = absurd (ground arith)
old_table (x ∷ l) c cs e = refl

abbrev info_of : List Bytes → Info ℕ
info_of db = record { rows = map inr db; ends = none }

the_info : (x y : Info ℕ) → ◌≡◌ {A = ℕ ⊎ Info ℕ} (inr x) (inr y) → x ≡ y
the_info x y e = ground arith

In-map_inr : (name : Bytes) (l : List Bytes) → In {A = ℕ ⊎ Bytes} (inr name) (map inr l) → In name l
In-map_inr name [] m = absurd m
In-map_inr name (c ∷ l) (inl e) = inl (ground arith)
In-map_inr name (c ∷ l) (inr m) = inr (In-map_inr name l m)

same_names : (l k : List Bytes) → ◌≡◌ {A = List (ℕ ⊎ Bytes)} (map inr l) (map inr k) → l ≡ k
same_names [] [] e = refl
same_names [] (c ∷ k) e = absurd (ground arith)
same_names (c ∷ l) [] e = absurd (ground arith)
same_names (c ∷ l) (d ∷ k) e =
    let heads : c ≡ d = ground arith in
    let tails : ◌≡◌ {A = List (ℕ ⊎ Bytes)} (map inr l) (map inr k) = ground arith in
    cc (heads, same_names l k tails)

listed :
    (db : List Bytes) (info : Info ℕ) (name : Bytes)
    → ◌≡◌ {A = ℕ ⊎ Info ℕ} (inr (info_of db)) (inr info)
    → In (inr name) info.rows
    → In name db
listed db info name e m =
    In-map_inr name db
      (subst (λ (i : Info ℕ). In (inr name) i.rows) (sym (the_info (info_of db) info e)) m)

complete :
    (db : List Bytes) (info : Info ℕ) (names : List Bytes)
    → ◌≡◌ {A = ℕ ⊎ Info ℕ} (inr (info_of db)) (inr info)
    → info.rows ≡ map inr names
    → names ≡ db
complete db info names e all =
    same_names names db (sym all ∙ ap (λ (i : Info ℕ). i.rows) (sym (the_info (info_of db) info e)))

-- A database that is its columns
abbrev by_columns : Engine (List Bytes) ℕ
by_columns = record {
  mkdir_all = λ dir. none;
  open_err = λ path. none;
  pragma = λ s db. (db, none);
  create = create_table;
  table_info = λ db. inr (info_of db);
  add_column = λ name decl db. (db ++ name ∷ [], none);
  columns = λ db. db;
  columns-pragma = λ s db. refl;
  columns-create_new = λ db e h. new_table db e;
  columns-create_old = old_table;
  table_info-listed = listed;
  table_info-complete = λ db info names e all ends. complete db info names e all;
  columns-add_column = λ name decl db h. refl;
}

-- A table of an older version
abbrev old_columns : List Bytes
old_columns = codes "question_name" ∷ codes "used_days" ∷ []

new_persistence-Prepared_example :
    Prepared by_columns old_columns
      (new_persistence by_columns (codes "/var/cache/a.db") old_columns).0
unfolding new_persistence Bytes-discrete dir_of
new_persistence-Prepared_example =
    new_persistence-Prepared by_columns (codes "/var/cache/a.db") old_columns refl

-- There is no file.
abbrev no_file : Files ℕ
no_file = record {
  read_file = λ path. inl 2;
  is_not_exist = λ err. true;
  unmarshal = λ text cfg. inr cfg;
}

by_default : load_config_or_default no_file (codes "a.yaml") ≡ goes default_config
unfolding load_config_or_default
by_default = refl

load_config_or_default-IsUsable_example :
    IsUsable default_config.cache
    × (get_socket_path no_file (codes "a.yaml") ≡ codes "/var/run/dns-cache.sock")
load_config_or_default-IsUsable_example =
    load_config_or_default-IsUsable no_file (codes "a.yaml") default_config by_default

abbrev one_row : Table (Msg Rr)
one_row = (row_key entry_a, row_of entry_a reply) ∷ []

abbrev no_rows : QueryResult (Msg Rr) ℕ
no_rows = record { query_err = none; rows = []; rows_err = none }

nothing_left : IsQuery (run_flush no_file (λ path. none) none (codes "a.yaml") one_row).0 []
unfolding run_flush lookup
nothing_left = record { sound = λ row m. absurd m; complete = λ k row h. absurd (ground arith) }

run_flush-start_example :
    (IsRefusal (run_flush no_file (λ path. none) none (codes "a.yaml") one_row).1
      × ((run_flush no_file (λ path. none) none (codes "a.yaml") one_row).0 ≡ one_row))
    ⊎ (((run_flush no_file (λ path. none) none (codes "a.yaml") one_row).1 ≡ emptied)
        × (find key_a (start_cache lower_case wire utc default_config noon noon no_rows) ≡ none))
run_flush-start_example =
    run_flush-start wire utc lower_case default_config no_file (λ path. none) none (codes "a.yaml")
      one_row noon noon no_rows key_a nothing_left

abbrev all_well : World ℕ
all_well = record { open_err = λ path. none; stats_err = none; ended = signalled }

run_server-stops_example :
    (((run_server all_well no_file (codes "a.yaml")).1 ≡ orderly)
      × (running (run_server all_well no_file (codes "a.yaml")).0 [] ≡ some []))
    ⊎ ((err : ℕ) × ((run_server all_well no_file (codes "a.yaml")).1 ≡ fatal err)
        × All (λ e. ¬ IsStop e) (run_server all_well no_file (codes "a.yaml")).0)
run_server-stops_example = run_server-stops all_well no_file (codes "a.yaml")
