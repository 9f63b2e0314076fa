-- ===== src/Persistence/Schema/Columns.antt =====
-- The columns of the table after `NewPersistence`.
use mathlib.Core.Logic.{if_pos, if_neg}
use dns_cache.Prelude.{
  ◌≡◌, refl, sym, ap, ◌∙◌, arith, ◌⊎◌, inl, inr, List, [], ◌∷◌, ◌++◌, map, Option, none, some, In,
  Option-cases, sum-cases,
}
use dns_cache.Prelude.Decimal.{Bytes, Bytes-discrete, codes}
use dns_cache.Persistence.Schema.{
  Engine, Look, present, missing, fails, look, created_columns, add_column_if_missing, and_then,
  column_decl, prepare_schema, make_dir, new_persistence,
}

Look-cases :
    {Err : Type 0} (l : Look Err) → (l ≡ present) ⊎ (l ≡ missing) ⊎ ((err : Err) × (l ≡ fails err))
Look-cases present = inl refl
Look-cases missing = inr (inl refl)
Look-cases (fails err) = inr (inr (err, refl))

In-append_l : {A : Type 0} (x : A) (l m : List A) → In x l → In x (l ++ m)
In-append_l x [] m h = absurd h
In-append_l x (y ∷ l) m (inl e) = inl e
In-append_l x (y ∷ l) m (inr h) = inr (In-append_l x l m h)

In-append_r : {A : Type 0} (x : A) (l m : List A) → In x m → In x (l ++ m)
In-append_r x [] m h = h
In-append_r x (y ∷ l) m h = inr (In-append_r x l m h)

look-present :
    {Err : Type 0} (name : Bytes) (rows : List (Err ⊎ Bytes)) (ends : Option Err)
    → look name rows ends ≡ present
    → In (inr name) rows
unfolding look
look-present name [] none h = absurd (ground arith)
look-present name [] (some err) h = absurd (ground arith)
look-present name (inl err ∷ rows) ends h = absurd (ground arith)
look-present name (inr c ∷ rows) ends h = elim (Bytes-discrete c name) [
  | yes p ↦ inl (ap inr (sym p))
  | no p ↦ inr (look-present name rows ends (sym (if_neg (Bytes-discrete c name) p _ _) ∙ h))
]

-- The loop has read all the columns, and met neither the name nor an error.
record Missing {Err : Type 0} (name : Bytes) (rows : List (Err ⊎ Bytes)) (ends : Option Err)
    : Type 0 where
  names : List Bytes
  all : rows ≡ map inr names
  other : ¬ In name names
  ended : ends ≡ none

look-Missing :
    {Err : Type 0} (name : Bytes) (rows : List (Err ⊎ Bytes)) (ends : Option Err)
    → look name rows ends ≡ missing
    → Missing name rows ends
unfolding look
look-Missing name [] none h = record { names = []; all = refl; other = λ m. absurd m; ended = refl }
look-Missing name [] (some err) h = absurd (ground arith)
look-Missing name (inl err ∷ rows) ends h = absurd (ground arith)
look-Missing name (inr c ∷ rows) ends h = elim (Bytes-discrete c name) [
  | yes p ↦
      let clash : present ≡ missing = sym (if_pos (Bytes-discrete c name) p _ _) ∙ h in
      absurd (ground arith)
  | no p ↦
      let m = look-Missing name rows ends (sym (if_neg (Bytes-discrete c name) p _ _) ∙ h) in
      record {
        names = c ∷ m.names;
        all = ap (λ l. inr c ∷ l) m.all;
        other = λ i. elim i [ inl e ↦ p (sym e) | inr n ↦ m.other n ];
        ended = m.ended;
      }
]

module _ {Db Err : Type 0} (engine : Engine Db Err) where
  -- What a statement that reports no error has done to the columns
  record Adds (name : Bytes) (db db' : Db) : Type 0 where
    there : In name (engine.columns db')
    kept : (c : Bytes) → In c (engine.columns db) → In c (engine.columns db')
    again : In name (engine.columns db) → engine.columns db' ≡ engine.columns db

  add_column_if_missing-Adds :
      (name decl : Bytes) (db : Db)
      → (add_column_if_missing engine name decl db).1 ≡ none
      → Adds name db (add_column_if_missing engine name decl db).0
  unfolding add_column_if_missing
  add_column_if_missing-Adds name decl db fine = elim (sum-cases (engine.table_info db)) [
    | inl (err, bad) ↦
        let clash : some err ≡ none = rw (add_column_if_missing, bad) at fine in
        absurd (ground arith)
    | inr (info, good) ↦ elim (Look-cases (look name info.rows info.ends)) [
      | inl found ↦
          let listed = look-present name info.rows info.ends found in
          rw (add_column_if_missing, good, found)
            (record {
              there = engine.table_info-listed db info name good listed;
              kept = λ c m. m;
              again = λ m. refl;
            })
      | inr (inl absent) ↦
          let m = look-Missing name info.rows info.ends absent in
          let all = engine.table_info-complete db info m.names good m.all m.ended in
          let added : (engine.add_column name decl db).1 ≡ none =
            rw (add_column_if_missing, good, absent) at fine in
          let grown = engine.columns-add_column name decl db added in
          rw (add_column_if_missing, good, absent)
            (record {
              there = rw grown (In-append_r name (engine.columns db) (name ∷ []) (inl refl));
              kept = λ c m. rw grown (In-append_l c (engine.columns db) (name ∷ []) m);
              again = λ i. absurd (m.other (rw all i));
            })
      | inr (inr (err, bad)) ↦
          let clash : some err ≡ none = rw (add_column_if_missing, good, bad) at fine in
          absurd (ground arith)
    ]
  ]

  -- A statement that ran without an error came after one without an error.
  and_then-none :
      (P : Db → Db → Type 0) (f : Db → Db × Option Err)
      → ((db : Db) → (f db).1 ≡ none → P db (f db).0)
      → (r : Db × Option Err) → (and_then engine r f).1 ≡ none
      → (r.1 ≡ none) × P r.0 (and_then engine r f).0
  and_then-none P f does (db, none) fine = (refl, does db fine)
  and_then-none P f does (db, some err) fine = absurd (ground arith)

  -- The table before and after `NewPersistence`
  pub record Prepared (db db' : Db) : Type 0 where
    pub dated : In (codes "last_hit_at") (engine.columns db')
    pub used : In (codes "used_days") (engine.columns db')
    pub kept : (c : Bytes) → In c (engine.columns db) → In c (engine.columns db')
    pub fresh : engine.columns db ≡ [] → engine.columns db' ≡ created_columns
    pub again :
        In (codes "last_hit_at") (engine.columns db)
        → In (codes "used_days") (engine.columns db)
        → engine.columns db' ≡ engine.columns db

  -- What `CREATE TABLE IF NOT EXISTS` has done
  record Created (db db' : Db) : Type 0 where
    same : (c : Bytes) → In c (engine.columns db) → engine.columns db' ≡ engine.columns db
    made : engine.columns db ≡ [] → engine.columns db' ≡ created_columns

  create-Created : (db : Db) → (engine.create db).1 ≡ none → Created db (engine.create db).0
  create-Created db fine = by_columns (engine.columns db) refl
    where
      by_columns : (l : List Bytes) → engine.columns db ≡ l → Created db (engine.create db).0
      by_columns [] none_yet = record {
        same = λ c m. absurd (none_in c l_empty m);
        made = λ e. engine.columns-create_new db e fine;
      }
        where
          l_empty : engine.columns db ≡ []
          l_empty = none_yet

          none_in : (c : Bytes) → engine.columns db ≡ [] → ¬ In c (engine.columns db)
          none_in c e m = rw e at m
      by_columns (x ∷ l) some_columns = record {
        same = λ c m. engine.columns-create_old db x l some_columns;
        made = λ e. absurd (let clash = sym e ∙ some_columns in ground arith);
      }

  Prepared-intro :
      (db opened made dated used : Db)
      → engine.columns opened ≡ engine.columns db
      → Created opened made
      → Adds (codes "last_hit_at") made dated
      → Adds (codes "used_days") dated used
      → Prepared db used
  Prepared-intro db opened made dated used before c d u = record {
    dated = u.kept (codes "last_hit_at") d.there;
    used = u.there;
    kept = λ n m.
        let m' : In n (engine.columns opened) = rw before m in
        u.kept n (d.kept n (rw (c.same n m') m'));
    fresh = λ e.
        let all = c.made (before ∙ e) in
        let once = d.again (rw all (inr (inr (inr (inr (inr (inr (inr (inl refl))))))))) ∙ all in
        u.again (rw once (inr (inr (inr (inr (inr (inr (inr (inr (inl refl)))))))))) ∙ once;
    again = λ a b.
        let a' : In (codes "last_hit_at") (engine.columns opened) = rw before a in
        let same = c.same (codes "last_hit_at") a' ∙ before in
        let once = d.again (rw same a) ∙ same in u.again (rw once b) ∙ once;
  }

  prepare_schema-Prepared :
      (db : Db) → (prepare_schema engine db).1 ≡ none → Prepared db (prepare_schema engine db).0
  unfolding prepare_schema
  prepare_schema-Prepared db fine =
      let wal = engine.pragma (codes "journal_mode=WAL") db in
      let synced = and_then engine wal (engine.pragma (codes "synchronous=NORMAL")) in
      let made = and_then engine synced engine.create in
      let last_hit = add_column_if_missing engine (codes "last_hit_at") (column_decl engine) in
      let dated = and_then engine made last_hit in
      let days = add_column_if_missing engine (codes "used_days") (column_decl engine) in
      let (dated_fine, u) =
        and_then-none (Adds (codes "used_days")) days
          (add_column_if_missing-Adds (codes "used_days") (column_decl engine)) dated fine in
      let (made_fine, d) =
        and_then-none (Adds (codes "last_hit_at")) last_hit
          (add_column_if_missing-Adds (codes "last_hit_at") (column_decl engine)) made dated_fine in
      let (synced_fine, c) = and_then-none Created engine.create create-Created synced made_fine in
      let (wal_fine, same) =
        and_then-none (λ db db'. engine.columns db' ≡ engine.columns db)
          (engine.pragma (codes "synchronous=NORMAL"))
          (λ db e. engine.columns-pragma (codes "synchronous=NORMAL") db) wal synced_fine in
      Prepared-intro db synced.0 made.0 dated.0 (prepare_schema engine db).0
        (same ∙ engine.columns-pragma (codes "journal_mode=WAL") db) c d u

  -- If `NewPersistence` returns no error, the table has the columns `last_hit_at` and `used_days`,
  -- and every column that it had before; a table that was not there has the columns of
  -- `CREATE TABLE`, and one that had both columns, such as a table that `NewPersistence` has
  -- already opened, keeps exactly the columns it had.
  pub new_persistence-Prepared :
      (path : Bytes) (db : Db)
      → (new_persistence engine path db).1 ≡ none
      → Prepared db (new_persistence engine path db).0
  unfolding new_persistence
  new_persistence-Prepared path db fine = elim (Option-cases (make_dir engine path)) [
    | inr (err, bad) ↦
        let clash : some err ≡ none = rw (new_persistence, bad) at fine in absurd (ground arith)
    | inl dir ↦ elim (Option-cases (engine.open_err path)) [
      | inr (err, bad) ↦
          let clash : some err ≡ none = rw (new_persistence, dir, bad) at fine in
          absurd (ground arith)
      | inl opened ↦
          rw (new_persistence, dir, opened)
            (prepare_schema-Prepared db (rw (new_persistence, dir, opened) at fine))
    ]
  ]
