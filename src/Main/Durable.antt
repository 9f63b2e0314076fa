-- ===== src/Main/Durable.antt =====
-- What the table holds between the rounds of `persistLoop` (main.go).
use mathlib.Core.List.{lookup}
use mathlib.Core.Option
use mathlib.Core.Path.{subst}
use dns_cache.Prelude.{
  ◌≡◌, refl, sym, ap, ◌∙◌, true, ◌⊎◌, inl, inr, List, [], ◌∷◌, some, In, Bool-cases,
}
use dns_cache.Prelude.Decimal.{Bytes}
use dns_cache.Prelude.Int.{ℤ, wrap64}
use dns_cache.Time.{Instant}
use dns_cache.Dns.{Dns}
use dns_cache.Entry.{Entry}
use dns_cache.Entry.Key.{key}
use dns_cache.Cache.{Cache}
use dns_cache.Cache.Invariant.{IsValid, IsValid-one}
use dns_cache.Persistence.{Wire, Table, RowKey-discrete, Outcomes, row_key, row_of}
use dns_cache.Persistence.Batch.{insert_all, IsPacked, save_batch-all_or_none}
use dns_cache.Persistence.Rows.{insert_all-lookup, In-IsPacked, IsPacked-In}
use dns_cache.Main.{Round, changed, batch_of, persist_round, save_round, persist_loop, last_scanned}
use dns_cache.Main.Saving.{In-batch_of}

batch_of-In :
    {RR : Type 0} (since : ℤ) (e : Entry RR) (entries : List (Bytes × Entry RR))
    → In e (batch_of since entries)
    → (k : Bytes) × In (k, e) entries
unfolding batch_of
batch_of-In since e [] m = absurd m
batch_of-In since e ((k, x) ∷ rest) m = elim (Bool-cases (changed since x)) [
  | inl new ↦ elim (rw (batch_of, new) at m) [
    | inl same ↦ (k, inl (ap (λ y. (k, y)) same))
    | inr later ↦ let (j, n) = batch_of-In since e rest later in (j, inr n)
  ]
  | inr old ↦ let (j, n) = batch_of-In since e rest (rw (batch_of, old) at m) in (j, inr n)
]

module _ {RR Blob : Type 0} (dns : Dns RR) (wire : Wire RR Blob) where
  -- The table has the entry's row, as it is written now.
  abbrev pub IsSaved : Table Blob → Entry RR → Type 0
  IsSaved table e =
      (b : Blob) × (Wire.pack wire e.response ≡ some b)
      × (lookup RowKey-discrete (row_key e) table ≡ some (row_of e b))

  -- Every entry has its row, or has changed since the last save.
  pub record IsKept (c : Cache RR) (s : Table Blob × Instant) : Type 0 where
    pub entry_kept :
        (k : Bytes) (e : Entry RR)
        → In (k, e) c.entries
        → IsSaved s.0 e ⊎ (changed (wrap64 s.1) e ≡ true)

  module _ (c : Cache RR) (valid : IsValid dns c) (last_save : Instant) (table : Table Blob)
      (ps : List (Entry RR × Blob))
      (packed : IsPacked wire (batch_of (wrap64 last_save) c.entries) ps) where
    -- A row of the batch that has an entry's key is that entry's row.
    one_row :
        (k : Bytes) (e : Entry RR) (b : Blob)
        → In (k, e) c.entries
        → Wire.pack wire e.response ≡ some b
        → (e' : Entry RR) (b' : Blob) → In (e', b') ps
        → row_key e' ≡ row_key e
        → ◌≡◌ {A = Entry RR × Blob} (e', b') (e, b)
    one_row k e b stored packs e' b' n same =
        let (inside, packs') = In-IsPacked wire _ ps e' b' packed n in
        let (k', stored') = batch_of-In (wrap64 last_save) e' c.entries inside in
        let eq =
          IsValid-one dns c k' k e' e valid stored' stored
            (ap (λ (r : Bytes × _). key dns r.0 r.1) same) in
        let blobs =
          Option.some-injective _ _
            (sym packs' ∙ ap (λ (x : Entry RR). Wire.pack wire x.response) eq ∙ packs) in
        cc (eq, blobs)

    written-IsSaved :
        (k : Bytes) (e : Entry RR)
        → In (k, e) c.entries
        → IsSaved table e ⊎ (changed (wrap64 last_save) e ≡ true)
        → IsSaved (insert_all ps table) e
    written-IsSaved k e m (inl (b, packs, there)) =
        (b, packs, insert_all-lookup ps table e b (one_row k e b m packs) (inr there))
    written-IsSaved k e m (inr new) =
        let inside = In-batch_of (wrap64 last_save) k e c.entries m new in
        let (b, n, packs) = IsPacked-In wire _ ps e packed inside in
        (b, packs, insert_all-lookup ps table e b (one_row k e b m packs) (inl n))

  module _ {Err : Type 0} where
    -- A round that succeeds leaves every entry of the cache with its row in the table, if before it
    -- each had its row or had changed since the last save; one that fails leaves the table and the
    -- time of the last save.
    pub persist_round-IsSaved :
        (out : Outcomes Err) (start last_save : Instant) (c : Cache RR) (table : Table Blob)
        → IsValid dns c
        → IsKept c (table, last_save)
        → (persist_round wire out start c.entries table last_save ≡ (table, last_save))
          ⊎ (((persist_round wire out start c.entries table last_save).1 ≡ start)
              × ((k : Bytes) (e : Entry RR)
                  → In (k, e) c.entries
                  → IsSaved (persist_round wire out start c.entries table last_save).0 e))
    unfolding persist_round
    persist_round-IsSaved out start last_save c table valid kept =
        elim (save_batch-all_or_none wire out (batch_of (wrap64 last_save) c.entries) table) [
          | inl (err, bad) ↦ inl (simp (persist_round, bad) refl)
          | inr (ps, packed, good) ↦
              simp (persist_round, good)
                (inr (
                  refl,
                  λ k e m.
                      written-IsSaved c valid last_save table ps packed k e m
                        (kept.entry_kept k e m),
                ))
        ]

    -- The rounds, each over the cache that it scans. Between two of them an entry is put there or
    -- changed only with a stamp since the last save: the stamps are read off the clock, and the
    -- time of the last save is read before the scan.
    abbrev pub Tracks : List (Round RR Err) → Cache RR → Table Blob × Instant → Type 0
    Tracks [] c s = Unit
    Tracks (r ∷ rs) c s =
        IsValid dns r.cache
        × ((k : Bytes) (e : Entry RR)
            → In (k, e) r.cache.entries
            → In (k, e) c.entries ⊎ (changed (wrap64 s.1) e ≡ true))
        × Tracks rs r.cache (save_round wire r s)

    save_round-IsKept :
        (r : Round RR Err) (s : Table Blob × Instant)
        → IsValid dns r.cache
        → IsKept r.cache s
        → IsKept r.cache (save_round wire r s)
    save_round-IsKept r (table, last_save) valid kept =
        elim (persist_round-IsSaved r.out r.start last_save r.cache table valid kept) [
          | inl same ↦ subst (IsKept r.cache) (sym same) kept
          | inr (moved, saved) ↦ record { entry_kept = λ k e m. inl (saved k e m) }
        ]

    -- After any number of rounds of `persistLoop`, some of which may fail, no entry of the cache
    -- that the last one scanned is lost: each has its row in the table as it is now, or has changed
    -- since the last save, so that the next round takes it. (It is so before the first round, no
    -- rows are deleted meanwhile, and changes between the rounds carry stamps since the last save.)
    pub persist_loop-IsKept :
        (rs : List (Round RR Err)) (c : Cache RR) (s : Table Blob × Instant)
        → IsKept c s
        → Tracks rs c s
        → IsKept (last_scanned c rs) (persist_loop wire rs s)
    unfolding persist_loop
    persist_loop-IsKept [] c s kept t = kept
    persist_loop-IsKept (r ∷ rs) c s kept t =
        let before : IsKept r.cache s = record {
          entry_kept =
              λ k e m. elim (t.1 k e m) [ inl old ↦ kept.entry_kept k e old | inr new ↦ inr new ];
        } in
        persist_loop-IsKept rs r.cache (save_round wire r s) (save_round-IsKept r s t.0 before) t.2
