-- ===== src/Persistence.antt =====
-- The database of the entries (persistence.go): what a row holds of an entry, how rows are written
-- and how they are read back. The table is a map from name and type to the rest of the row. The
-- wire format is a pair of parameters, and so are the errors that the database may report.
-- `Seconds`, a float, is the whole seconds of a duration, as it is below 100 days.
pub mod Path
pub mod Restart
pub mod Batch
pub mod Reload
pub mod Rows
pub mod Schema
pub mod Sweep
use mathlib.Core.HLevel.{×_discrete}
use dns_cache.Prelude.{
  ℕ, zero, suc, get_elem?, take, length, ℕ_discrete, ◌+◌, ◌^◌, ◌≡◌, Bool, true, false, ◌&&◌, List,
  [], ◌∷◌, Option, none, some, if◌then◌else◌, ◌==◌,
}
use dns_cache.Prelude.Assoc.{store, remove}
use dns_cache.Prelude.Decimal.{Bytes, Bytes-discrete}
use dns_cache.Prelude.Int.{ℤ, pos, ◌-ℤ◌, ◌*ℤ◌, ltb_ℤ, leb_ℤ, quot, to_u64, to_i64, wrap64}
use dns_cache.Time.{Instant, Duration, add, sub, unix, of_unix, of_units, second, local_day}
use dns_cache.Dns.{Msg}
use dns_cache.Entry.{Entry}
use dns_cache.Entry.Days.{pack_used_days}

-- A row of the table, as the columns store it
pub record Row (Blob : Type 0) : Type 0 where
  pub question_name : Bytes
  pub question_type : ℕ
  pub response_data : Blob
  pub stored_at : ℤ
  pub original_ttl : ℕ
  pub cached_ttl : ℤ
  pub hit_count : ℕ
  pub last_hit_at : ℤ
  pub used_days : ℤ

-- `msg.Pack` and `msg.Unpack` into a new message. Whether names are compressed is not on the wire.
pub record Wire (RR Blob : Type 0) : Type 0 where
  pub pack : Msg RR → Option Blob
  pub unpack : Blob → Option (Msg RR)
  pub unpack-pack :
      (m : Msg RR) (b : Blob) → pack m ≡ some b → unpack b ≡ some (record m { compress = false })

pub data Loaded (RR : Type 0) : Type 0 where
  skipped : Loaded RR
  unreadable : Loaded RR
  loaded : Entry RR → Loaded RR

abbrev pub is_zero : ℤ → Bool
is_zero z = leb_ℤ z (pos 0) && leb_ℤ (pos 0) z

module _ {Blob : Type 0} where
  -- The TTL that a row stands for: the column is 0 in the rows of older versions.
  abbrev pub row_ttl : Row Blob → Duration
  row_ttl row =
      let cd = of_units row.cached_ttl second in
      if leb_ℤ cd (pos 0) then of_units (pos row.original_ttl) second else cd

  -- The recency, which older rows do not have
  abbrev pub row_last_hit : Row Blob → ℤ
  row_last_hit row =
      if is_zero row.last_hit_at then wrap64 (of_unix row.stored_at) else row.last_hit_at

  -- The days of use, which older rows do not have
  abbrev pub row_days : (Instant → ℤ) → Row Blob → ℤ
  row_days zone row =
      if is_zero row.used_days
      then to_i64 (pack_used_days (local_day zone (row_last_hit row)))
      else row.used_days

module _ {RR Blob : Type 0} where
  -- The arguments of the `INSERT` statement
  unfoldable pub row_of : Entry RR → Blob → Row Blob
  row_of e data_ = record {
    question_name = e.question_name;
    question_type = e.question_type;
    response_data = data_;
    stored_at = unix e.stored_at;
    original_ttl = e.original_ttl;
    cached_ttl = quot e.cached_ttl second;
    hit_count = e.hit_count;
    last_hit_at = e.last_hit_at;
    used_days = to_i64 e.used_days;
  }

  -- The body of the loop of `LoadAll`
  unfoldable pub load_row : Wire RR Blob → (Instant → ℤ) → Instant → Duration → Row Blob → Loaded RR
  load_row wire zone now keep_window row =
      let stored_time = of_unix row.stored_at in
      let last = row_last_hit row in
      if ltb_ℤ keep_window (sub now last)
      then skipped
      else elim (Wire.unpack wire row.response_data) [
        | none ↦ unreadable
        | some msg ↦ loaded (record {
          question_name = row.question_name;
          question_type = row.question_type;
          response = msg;
          stored_at = stored_time;
          original_ttl = row.original_ttl;
          cached_ttl = row_ttl row;
          expires_at = add stored_time (row_ttl row);
          hit_count = row.hit_count;
          last_hit_at = last;
          used_days = to_u64 (row_days zone row);
        })
      ]

  -- The loop of `LoadAll` over the rows that the query yields; a row that `Scan` refuses is none.
  unfoldable pub load_rows :
      Wire RR Blob → (Instant → ℤ) → Instant → Duration → List (Option (Row Blob)) → List (Entry RR)
  unfolding load_row
  load_rows wire zone now keep_window [] = []
  load_rows wire zone now keep_window (none ∷ rows) = load_rows wire zone now keep_window rows
  load_rows wire zone now keep_window (some row ∷ rows) =
      let rest = load_rows wire zone now keep_window rows in
      elim (load_row wire zone now keep_window row) [
        | skipped ↦ rest
        | unreadable ↦ rest
        | loaded e ↦ e ∷ rest
      ]

-- What the query of `LoadAll` gives: its error, the rows, and the error that ends them
pub record QueryResult (Blob Err : Type 0) : Type 0 where
  pub query_err : Option Err
  pub rows : List (Option (Row Blob))
  pub rows_err : Option Err

-- `LoadAll`: the entries and the error
unfoldable pub load_all :
    {RR Blob Err : Type 0}
    → Wire RR Blob
    → (Instant → ℤ)
    → Instant
    → Duration
    → QueryResult Blob Err
    → List (Entry RR) × Option Err
unfolding load_rows
load_all wire zone now keep_window result = elim (QueryResult.query_err result) [
  | some err ↦ ([], some err)
  | none ↦ (load_rows wire zone now keep_window result.rows, result.rows_err)
]

-- The table, by its primary key
abbrev pub RowKey : Type 0
RowKey = Bytes × ℕ

unfoldable pub RowKey-discrete : Discrete RowKey
unfolding Bytes-discrete
RowKey-discrete = ×_discrete Bytes-discrete ℕ_discrete

abbrev pub Table : Type 0 → Type 0
Table Blob = List (RowKey × Row Blob)

abbrev pub row_key : {RR : Type 0} → Entry RR → RowKey
row_key e = (e.question_name, e.question_type)

-- What the database and the packing of a batch may report, statement by statement
pub record Outcomes (Err : Type 0) : Type 0 where
  pub begin : Option Err
  pub prepare : Option Err
  pub pack_err : Err
  pub exec : ℕ → Option Err
  pub commit : Option Err

-- `INSERT OR REPLACE` of an entry
abbrev pub insert : {RR Blob : Type 0} → Entry RR → Blob → Table Blob → Table Blob
insert e b table = store RowKey-discrete (row_key e) (row_of e b) table

module _ {RR Blob Err : Type 0} (wire : Wire RR Blob) where
  -- `SaveEntry`, where the statement reports `exec`
  unfoldable pub save_entry : Err → Option Err → Entry RR → Table Blob → Table Blob × Option Err
  unfolding row_of
  save_entry pack_err exec e table = elim (Wire.pack wire e.response) [
    | none ↦ (table, some pack_err)
    | some b ↦ elim exec [ some err ↦ (table, some err) | none ↦ (insert e b table, none) ]
  ]

  -- The loop of `SaveBatch`, with the number of statements before: the table that the transaction
  -- sees, or an error
  unfoldable pub save_rows :
      Outcomes Err → ℕ → List (Entry RR) → Table Blob → Table Blob × Option Err
  unfolding row_of
  save_rows out n [] tx = (tx, none)
  save_rows out n (e ∷ es) tx = elim (Wire.pack wire e.response) [
    | none ↦ (tx, some out.pack_err)
    | some b ↦ elim (out.exec n) [
      | some err ↦ (tx, some err)
      | none ↦ save_rows out (n + 1) es (insert e b tx)
    ]
  ]

  -- `SaveBatch`: the transaction is committed after the last row, and rolled back on an error.
  unfoldable pub save_batch : Outcomes Err → List (Entry RR) → Table Blob → Table Blob × Option Err
  unfolding save_rows
  save_batch out [] table = (table, none)
  save_batch out (e ∷ es) table = elim out.begin [
    | some err ↦ (table, some err)
    | none ↦ elim out.prepare [
      | some err ↦ (table, some err)
      | none ↦
          let (tx, result) = save_rows out 0 (e ∷ es) table in
          elim result [
            | some err ↦ (table, some err)
            | none ↦ elim out.commit [ some err ↦ (table, some err) | none ↦ (tx, none) ]
          ]
    ]
  ]

module _ {Blob : Type 0} where
  -- `DeleteEntry` and the `DELETE` of `runFlush`
  unfoldable pub delete_entry : Bytes → ℕ → Table Blob → Table Blob
  delete_entry qname qtype table = remove RowKey-discrete (qname, qtype) table

  -- The rows that `DELETE ... WHERE stored_at < cutoff` leaves, and how many it deletes
  unfoldable pub delete_before : ℤ → Table Blob → Table Blob × ℕ
  delete_before cutoff [] = ([], 0)
  delete_before cutoff ((k, row) ∷ table) =
      let (kept, n) = delete_before cutoff table in
      if ltb_ℤ row.stored_at cutoff then (kept, n + 1) else ((k, row) ∷ kept, n)

  -- `Cleanup` at a reading of the clock, where the statement reports `exec`: the table, the number
  -- of rows deleted, and the error
  unfoldable pub cleanup :
      {Err : Type 0} → Duration → ℕ → Option Err → Table Blob → Table Blob × ℕ × Option Err
  unfolding delete_before
  cleanup after now exec table = elim exec [
    | some err ↦ (table, 0, some err)
    | none ↦
        let (kept, n) = delete_before (unix (add (pos now) (wrap64 (pos 0 -ℤ after)))) table in
        (kept, n, none)
  ]

abbrev is_slash : Option ℕ → Bool
is_slash none = false
is_slash (some b) = b == b'/'

-- The loop of `dirOf`, with `i` bytes still to look at
unfoldable pub dir_loop : Bytes → ℕ → Bytes
dir_loop p zero = []
dir_loop p (suc i) =
    let before = dir_loop p i in if is_slash (get_elem? p i) then take i p else before

-- `dirOf`
unfoldable pub dir_of : Bytes → Bytes
unfolding dir_loop
dir_of p = dir_loop p (length p)
