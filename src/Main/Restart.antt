-- ===== src/Main/Restart.antt =====
-- The cache after a restart against the cache before it.
use mathlib.Core.Option
use mathlib.Core.Path.{subst}
use dns_cache.Prelude.{
  ℕ, ◌≡◌, ◌≢◌, refl, sym, ap, ◌∙◌, arith, true, ◌⊎◌, inl, inr, List, [], ◌∷◌, map, Option, none,
  some, In, All, All-In, if◌then◌else◌, Bool-cases,
}
use mathlib.Core.List.{lookup}
use dns_cache.Prelude.Assoc.{lookup-store_self, lookup-store_ne, In-lookup, lookup-In}
use dns_cache.Prelude.Decimal.{Bytes, Bytes-discrete}
use dns_cache.Prelude.Int.{ℤ, pos}
use dns_cache.Time.{Instant, Duration}
use dns_cache.Dns.{Dns}
use dns_cache.Entry.{Entry}
use dns_cache.Entry.Key.{key}
use dns_cache.CacheConfig.{keep_window}
use dns_cache.Config.{Config, cache_config}
use dns_cache.Cache.{Cache, find, new}
use dns_cache.Cache.Insert.{entry_key, load_entry}
use dns_cache.Cache.Invariant.{IsValid, IsWell, IsValid-one}
use dns_cache.Persistence.{
  Row, RowKey-discrete, Wire, Table, QueryResult, Outcomes, loaded, skipped, row_key, row_of,
  load_row, load_rows, save_batch,
}
use dns_cache.Persistence.Batch.{insert_all, IsPacked, save_batch-all_or_none}
use dns_cache.Persistence.Rows.{lookup-insert_all, insert_all-lookup, In-IsPacked, IsPacked-In}
use dns_cache.Persistence.Reload.{
  IsSavable, reload, recent, load_row-reload, In-load_rows, load_rows-In,
}
use dns_cache.Main.{load_entries, start_cache}
use dns_cache.Main.Loading.{start_cache-loaded}

module _ {RR : Type 0} (dns : Dns RR) where
  find-load_entry_self :
      (e : Entry RR) (c : Cache RR) → find (entry_key dns e) (load_entry dns e c) ≡ some e
  unfolding load_entry
  find-load_entry_self e c = lookup-store_self Bytes-discrete (entry_key dns e) e c.entries

  find-load_entry_ne :
      (e : Entry RR) (k : Bytes) (c : Cache RR)
      → entry_key dns e ≢ k
      → find k (load_entry dns e c) ≡ find k c
  unfolding load_entry
  find-load_entry_ne e k c ne = lookup-store_ne Bytes-discrete (entry_key dns e) k e c.entries ne

  -- What is found under a key after the loop, if only one entry has that key
  load_entries-found :
      (es : List (Entry RR)) (e : Entry RR) (c : Cache RR)
      → ((e' : Entry RR) → In e' es → entry_key dns e' ≡ entry_key dns e → e' ≡ e)
      → In e es ⊎ (find (entry_key dns e) c ≡ some e)
      → find (entry_key dns e) (load_entries dns es c) ≡ some e
  unfolding load_entries
  load_entries-found [] e c one (inl m) = absurd m
  load_entries-found [] e c one (inr there) = there
  load_entries-found (x ∷ es) e c one h =
      load_entries-found es e (load_entry dns x c) (λ e' m same. one e' (inr m) same)
        (elim (Bytes-discrete (entry_key dns x) (entry_key dns e)) [
          | yes p ↦
              let same = one x (inl refl) p in
              inr (
                ap (λ k. find k (load_entry dns x c)) (sym p)
                ∙ find-load_entry_self x c
                ∙ ap some same)
          | no p ↦ elim h [
            | inl (inl here) ↦ absurd (p (ap (entry_key dns) (sym here)))
            | inl (inr later) ↦ inl later
            | inr there ↦ inr (find-load_entry_ne x (entry_key dns e) c p ∙ there)
          ]
        ])

  load_entries-absent :
      (es : List (Entry RR)) (k : Bytes) (c : Cache RR)
      → ((e : Entry RR) → In e es → entry_key dns e ≢ k)
      → find k c ≡ none
      → find k (load_entries dns es c) ≡ none
  unfolding load_entries
  load_entries-absent [] k c other absent = absent
  load_entries-absent (x ∷ es) k c other absent =
      load_entries-absent es k (load_entry dns x c) (λ e m. other e (inr m))
        (find-load_entry_ne x k c (other x (inl refl)) ∙ absent)

-- The rows that the query yields are those of the table, in whatever order.
pub record IsQuery {Blob : Type 0} (table : Table Blob) (rows : List (Option (Row Blob)))
    : Type 0 where
  pub sound :
      (row : Row Blob)
      → In (some row) rows
      → lookup RowKey-discrete (row.question_name, row.question_type) table ≡ some row
  pub complete :
      (k : Bytes × ℕ) (row : Row Blob)
      → lookup RowKey-discrete k table ≡ some row
      → In (some row) rows

In-map_snd :
    {A B : Type 0} (l : List (A × B)) (b : B) → In b (map (λ p. p.1) l) → (a : A) × In (a, b) l
In-map_snd [] b m = absurd m
In-map_snd ((a, b') ∷ l) b (inl e) = (a, inl (ap (λ y. (a, y)) e))
In-map_snd ((a, b') ∷ l) b (inr m) = let (a', n) = In-map_snd l b m in (a', inr n)

map_snd-In :
    {A B : Type 0} (l : List (A × B)) (a : A) (b : B) → In (a, b) l → In b (map (λ p. p.1) l)
map_snd-In [] a b m = absurd m
map_snd-In ((a', b') ∷ l) a b (inl e) = inl (ap (λ (p : _ × _). p.1) e)
map_snd-In ((a', b') ∷ l) a b (inr m) = inr (map_snd-In l a b m)

abbrev pub entries_of : {RR : Type 0} → Cache RR → List (Entry RR)
entries_of c = map (λ p. p.1) c.entries

-- The view of an entry after a restart: there if it was asked for within the window
abbrev pub reloaded : {RR : Type 0} → Instant → Duration → Option (Entry RR) → Option (Entry RR)
reloaded now window none = none
reloaded now window (some e) = if recent now window e then some (reload e) else none

loaded_injective : {RR : Type 0} {e e' : Entry RR} → loaded e ≡ loaded e' → e ≡ e'
loaded_injective h = ground arith

not_loaded : {RR : Type 0} (e : Entry RR) → skipped ≢ loaded e
not_loaded e h = absurd (ground arith)

nothing_there :
    {Blob : Type 0} (k : Bytes × ℕ) (row : Row Blob) → lookup RowKey-discrete k [] ≢ some row
unfolding lookup
nothing_there k row h = absurd (ground arith)

module _ {RR Blob : Type 0} (dns : Dns RR) (wire : Wire RR Blob) (zone : Instant → ℤ)
    (now : Instant) (window : Duration) (c : Cache RR) (ps : List (Entry RR × Blob))
    (rows : List (Option (Row Blob))) (valid : IsValid dns c)
    (savable : All (λ p. IsSavable wire p.1) c.entries) (packed : IsPacked wire (entries_of c) ps)
    (query : IsQuery (insert_all ps []) rows) where
  stored_once :
      (k k' : Bytes) (e e' : Entry RR)
      → In (k, e) c.entries
      → In (k', e') c.entries
      → entry_key dns e ≡ entry_key dns e'
      → e ≡ e'
  stored_once k k' e e' m m' same = IsValid-one dns c k k' e e' valid m m' same

  -- Each entry loaded is a recent entry of the cache, reloaded.
  record Origin (e' : Entry RR) : Type 0 where
    k : Bytes
    e : Entry RR
    stored : In (k, e) c.entries
    is_recent : recent now window e ≡ true
    from : e' ≡ reload e

  origin : (e' : Entry RR) → In e' (load_rows wire zone now window rows) → Origin e'
  origin e' m =
      let (row, there, loads) = In-load_rows wire zone now window rows e' m in
      elim (lookup-insert_all ps [] _ row (query.sound row there)) [
        | inr before ↦ absurd (nothing_there _ row before)
        | inl (e, b, n, same, made) ↦
            let (inside, packs) = In-IsPacked wire (entries_of c) ps e b packed n in
            let (k, stored) = In-map_snd c.entries e inside in
            let fits = All-In (λ p. IsSavable wire p.1) (k, e) c.entries savable stored in
            let result =
              sym (load_row-reload wire zone now window e b fits packs)
              ∙ ap (load_row wire zone now window) (sym made)
              ∙ loads in
            elim (Bool-cases (recent now window e)) [
              | inl young ↦ record {
                k = k;
                e = e;
                stored = stored;
                is_recent = young;
                from = loaded_injective (sym (rw young at result));
              }
              | inr old ↦ absurd (not_loaded e' (rw old at result))
            ]
      ]

  -- An entry asked for within the window is loaded again.
  loads :
      (k : Bytes) (e : Entry RR)
      → In (k, e) c.entries
      → recent now window e ≡ true
      → In (reload e) (load_rows wire zone now window rows)
  loads k e stored young =
      let (b, n, packs) =
        IsPacked-In wire (entries_of c) ps e packed (map_snd-In c.entries k e stored) in
      let fits = All-In (λ p. IsSavable wire p.1) (k, e) c.entries savable stored in
      let written = insert_all-lookup ps [] e b (one_row k e b stored packs) (inl n) in
      let result = load_row-reload wire zone now window e b fits packs in
      load_rows-In wire zone now window rows (row_of e b) (reload e)
        (query.complete (row_key e) (row_of e b) written) (rw young at result)
    where
      one_row :
          (k : Bytes) (e : Entry RR) (b : Blob)
          → In (k, e) c.entries
          → Wire.pack wire e.response ≡ some b
          → (e' : Entry RR) (b' : Blob) → In (e', b') ps
          → row_key e' ≡ row_key e
          → ◌≡◌ {A = Entry RR × Blob} (e', b') (e, b)
      one_row k e b stored packs e' b' n same =
          let (inside, packs') = In-IsPacked wire (entries_of c) ps e' b' packed n in
          let (k', stored') = In-map_snd c.entries e' inside in
          let eq =
            stored_once k' k e' e stored' stored (ap (λ (r : Bytes × ℕ). key dns r.0 r.1) same) in
          let blobs =
            Option.some-injective _ _
              (sym packs' ∙ ap (λ (x : Entry RR). Wire.pack wire x.response) eq ∙ packs) in
          cc (eq, blobs)

  find-nothing : (start : Cache RR) (k : Bytes) → start.entries ≡ [] → find k start ≡ none
  unfolding lookup
  find-nothing start k empty = ap (λ l. lookup Bytes-discrete k l) empty

  restarted_found :
      (start : Cache RR) (k : Bytes) (o : Option (Entry RR))
      → start.entries ≡ []
      → find k c ≡ o
      → find k (load_entries dns (load_rows wire zone now window rows) start)
        ≡ reloaded now window o
  restarted_found start k none empty absent =
      load_entries-absent dns _ k start
        (λ e' m same.
          let o = origin e' m in
          let own = (All-In (IsWell dns) (o.k, o.e) c.entries valid.well o.stored).0 in
          let at = own ∙ ap (entry_key dns) (sym o.from) ∙ same in
          let found = In-lookup Bytes-discrete o.k o.e c.entries valid.distinct o.stored in
          let clash = sym absent ∙ ap (λ j. find j c) (sym at) ∙ found in absurd (ground arith))
        (find-nothing start k empty)
  restarted_found start k (some e) empty found =
      let stored = lookup-In Bytes-discrete k e c.entries found in
      let own = (All-In (IsWell dns) (k, e) c.entries valid.well stored).0 in
      let same_entry : (e' : Entry RR) (m : In e' (load_rows wire zone now window rows))
          → entry_key dns e' ≡ entry_key dns e
          → Origin.e (origin e' m) ≡ e =
        λ e' m same.
          let o = origin e' m in
          stored_once o.k k o.e e o.stored stored (ap (entry_key dns) (sym o.from) ∙ same) in
      elim (Bool-cases (recent now window e)) [
        | inl young ↦
            rw (young, own)
              (load_entries-found dns _ (reload e) start
                (λ e' m same. (origin e' m).from ∙ ap reload (same_entry e' m same))
                (inl (loads k e stored young)))
        | inr old ↦ rw old (
            load_entries-absent dns _ k start
              (λ e' m same.
                let eq = same_entry e' m (same ∙ own) in
                let young = ap (recent now window) (sym eq) ∙ (origin e' m).is_recent in
                let clash = sym old ∙ young in absurd (ground arith))
              (find-nothing start k empty))
      ]

new_empty : {RR : Type 0} (cfg : _) (now : ℕ) → Cache.entries (new {RR = RR} cfg now) ≡ []
unfolding new
new_empty cfg now = refl

-- The whole cache is saved in one batch, to an empty table, and the program starts again from that
-- table, in whatever order the rows come. Then under every key the new cache holds the entry of
-- the old cache, with its fetch and its TTL cut to whole seconds and all else the same, if a
-- client asked for it within the window, and nothing otherwise. (There is a database, its query and
-- its rows end without an error, the old cache is valid, and its entries can be saved.)
pub start_cache-reloaded :
    {RR Blob Err : Type 0} (dns : Dns RR) (wire : Wire RR Blob) (zone : Instant → ℤ) (cfg : Config)
    (out : Outcomes Err) (new_now load_now : ℕ) (c : Cache RR) (table : Table Blob)
    (result : QueryResult Blob Err) (k : Bytes)
    → cfg.db_path ≢ []
    → result.query_err ≡ none
    → result.rows_err ≡ none
    → IsValid dns c
    → All (λ p. IsSavable wire p.1) c.entries
    → save_batch wire out (entries_of c) [] ≡ (table, none)
    → IsQuery table result.rows
    → find k (start_cache dns wire zone cfg new_now load_now result)
      ≡ reloaded (pos load_now) (keep_window (cache_config cfg)) (find k c)
start_cache-reloaded dns wire zone cfg out new_now load_now c table result k some_path asked ended
      valid savable saved query =
    elim (save_batch-all_or_none wire out (entries_of c) []) [
      | inl (err, bad) ↦ let clash = sym saved ∙ bad in absurd (ground arith)
      | inr (ps, packed, good) ↦
          let same : table ≡ insert_all ps [] =
            ap (λ (r : Table _ × Option _). r.0) (sym saved ∙ good) in
          rw (start_cache-loaded dns wire zone cfg new_now load_now result some_path asked ended) (
            restarted_found dns wire zone (pos load_now) (keep_window (cache_config cfg)) c ps
              result.rows valid savable packed (subst (λ t. IsQuery t result.rows) same query)
              (new (cache_config cfg) new_now) k (find k c) (new_empty (cache_config cfg) new_now)
              refl)
    ]
