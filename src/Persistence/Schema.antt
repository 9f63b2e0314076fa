-- ===== src/Persistence/Schema.antt =====
-- `NewPersistence` and `addColumnIfMissing` of persistence.go. The SQL engine is a parameter: what
-- its statements do to the columns of the table, with the errors that they may report.
pub mod Columns
use mathlib.Core.Logic.{ite}
use dns_cache.Prelude.{◌≡◌, ◌⊎◌, inl, inr, List, [], ◌∷◌, ◌++◌, map, In, Option, none, some}
use dns_cache.Prelude.Decimal.{Bytes, Bytes-discrete, codes}
use dns_cache.Persistence.{dir_of}

-- The columns of the statement `CREATE TABLE`
abbrev pub created_columns : List Bytes
created_columns =
    codes "question_name"
    ∷ codes "question_type"
    ∷ codes "response_data"
    ∷ codes "stored_at"
    ∷ codes "original_ttl"
    ∷ codes "cached_ttl"
    ∷ codes "hit_count"
    ∷ codes "last_hit_at"
    ∷ codes "used_days"
    ∷ []

-- What `PRAGMA table_info` yields: the rows, each with the column's name or the error of `Scan`,
-- and what `rows.Err` reports after the last
pub record Info (Err : Type 0) : Type 0 where
  pub rows : List (Err ⊎ Bytes)
  pub ends : Option Err

-- The file system and the SQL engine over a database. A statement that reports an error leaves the
-- columns as they are; `table_info` lists columns of the table, and all of them if it reports none.
pub record Engine (Db Err : Type 0) : Type 0 where
  pub mkdir_all : Bytes → Option Err
  pub open_err : Bytes → Option Err
  pub pragma : Bytes → Db → Db × Option Err
  pub create : Db → Db × Option Err
  pub table_info : Db → Err ⊎ Info Err
  pub add_column : Bytes → Bytes → Db → Db × Option Err
  pub columns : Db → List Bytes
  pub columns-pragma : (s : Bytes) (db : Db) → columns (pragma s db).0 ≡ columns db
  pub columns-create_new :
      (db : Db) → columns db ≡ [] → (create db).1 ≡ none → columns (create db).0 ≡ created_columns
  pub columns-create_old :
      (db : Db) (c : Bytes) (cs : List Bytes)
      → columns db ≡ c ∷ cs
      → columns (create db).0 ≡ columns db
  pub table_info-listed :
      (db : Db) (info : Info Err) (name : Bytes)
      → table_info db ≡ inr info
      → In (inr name) info.rows
      → In name (columns db)
  pub table_info-complete :
      (db : Db) (info : Info Err) (names : List Bytes)
      → table_info db ≡ inr info
      → info.rows ≡ map inr names
      → info.ends ≡ none
      → names ≡ columns db
  pub columns-add_column :
      (name decl : Bytes) (db : Db)
      → (add_column name decl db).1 ≡ none
      → columns (add_column name decl db).0 ≡ columns db ++ name ∷ []

-- What the loop of `addColumnIfMissing` finds out
pub data Look (Err : Type 0) : Type 0 where
  present : Look Err
  missing : Look Err
  fails : Err → Look Err

unfoldable pub look : {Err : Type 0} → Bytes → List (Err ⊎ Bytes) → Option Err → Look Err
unfolding Bytes-discrete
look name [] none = missing
look name [] (some err) = fails err
look name (inl err ∷ rows) ends = fails err
look name (inr column ∷ rows) ends = ite (Bytes-discrete column name) present (look name rows ends)

module _ {Db Err : Type 0} (engine : Engine Db Err) where
  -- `addColumnIfMissing`
  unfoldable pub add_column_if_missing : Bytes → Bytes → Db → Db × Option Err
  unfolding look
  add_column_if_missing name decl db = elim (Engine.table_info engine db) [
    | inl err ↦ (db, some err)
    | inr info ↦ elim (look name info.rows info.ends) [
      | fails err ↦ (db, some err)
      | present ↦ (db, none)
      | missing ↦ Engine.add_column engine name decl db
    ]
  ]

  -- A statement, unless an earlier one has failed
  abbrev pub and_then : Db × Option Err → (Db → Db × Option Err) → Db × Option Err
  and_then (db, none) statement = statement db
  and_then (db, some err) statement = (db, some err)

  abbrev pub column_decl : Bytes
  column_decl = codes "INTEGER NOT NULL DEFAULT 0"

  -- The statements of `NewPersistence`
  unfoldable pub prepare_schema : Db → Db × Option Err
  unfolding add_column_if_missing
  prepare_schema db =
      let wal = Engine.pragma engine (codes "journal_mode=WAL") db in
      let sync = and_then wal (Engine.pragma engine (codes "synchronous=NORMAL")) in
      let created = and_then sync (Engine.create engine) in
      let dated = and_then created (add_column_if_missing (codes "last_hit_at") column_decl) in
      and_then dated (add_column_if_missing (codes "used_days") column_decl)

  -- The directory of the file, made if the path names one
  unfoldable pub make_dir : Bytes → Option Err
  unfolding dir_of
  make_dir path = elim (dir_of path) [ [] ↦ none | c ∷ dir ↦ Engine.mkdir_all engine (c ∷ dir) ]

  -- `NewPersistence`: the database after it, with the error that it returns
  unfoldable pub new_persistence : Bytes → Db → Db × Option Err
  unfolding make_dir prepare_schema
  new_persistence path db = elim (make_dir path) [
    | some err ↦ (db, some err)
    | none ↦ elim (Engine.open_err engine path) [
      | some err ↦ (db, some err)
      | none ↦ prepare_schema db
    ]
  ]
