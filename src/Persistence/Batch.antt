-- ===== src/Persistence/Batch.antt =====
-- A batch is written as a whole or not at all.
use dns_cache.Prelude.{
  ℕ, ◌+◌, ◌≡◌, refl, ap, ◌⊎◌, inl, inr, List, [], ◌∷◌, Option, none, some, Option-cases,
}
use dns_cache.Entry.{Entry}
use dns_cache.Persistence.{Wire, Table, Outcomes, insert, save_rows, save_batch}

module _ {RR Blob : Type 0} where
  -- The rows of all the entries, each over those before it
  abbrev pub insert_all : List (Entry RR × Blob) → Table Blob → Table Blob
  insert_all [] table = table
  insert_all ((e, b) ∷ later) table = insert_all later (insert e b table)

module _ {RR Blob : Type 0} (wire : Wire RR Blob) where
  -- The entries with their packed responses
  abbrev pub IsPacked : List (Entry RR) → List (Entry RR × Blob) → Type 0
  IsPacked [] [] = Unit
  IsPacked [] (p ∷ ps) = ⊥
  IsPacked (e ∷ es) [] = ⊥
  IsPacked (e ∷ es) ((e', b) ∷ ps) =
      (e ≡ e') × (Wire.pack wire e.response ≡ some b) × IsPacked es ps

module _ {RR Blob Err : Type 0} (wire : Wire RR Blob) (out : Outcomes Err) where
  save_rows-all :
      (n : ℕ) (es : List (Entry RR)) (tx : Table Blob)
      → ((err : Err) × ((save_rows wire out n es tx).1 ≡ some err))
        ⊎ ((ps : List (Entry RR × Blob)) × IsPacked wire es ps
            × (save_rows wire out n es tx ≡ (insert_all ps tx, none)))
  unfolding save_rows
  save_rows-all n [] tx = inr ([], tt, refl)
  save_rows-all n (e ∷ es) tx = elim (Option-cases (Wire.pack wire e.response)) [
    | inl bad ↦ inl (out.pack_err, rw (save_rows, bad) refl)
    | inr (b, good) ↦ elim (Option-cases (out.exec n)) [
      | inr (err, bad) ↦ inl (err, rw (save_rows, good, bad) refl)
      | inl fine ↦ elim (save_rows-all (n + 1) es (insert e b tx)) [
        | inl (err, bad) ↦ inl (err, rw (save_rows, good, fine) bad)
        | inr (ps, packed, same) ↦
            inr ((e, b) ∷ ps, (refl, good, packed), rw (save_rows, good, fine) same)
      ]
    ]
  ]

  -- `SaveBatch` either reports an error and leaves the table as it was, or reports none, and then
  -- the row of every entry has been written, in order, and nothing else.
  pub save_batch-all_or_none :
      (es : List (Entry RR)) (table : Table Blob)
      → ((err : Err) × (save_batch wire out es table ≡ (table, some err)))
        ⊎ ((ps : List (Entry RR × Blob)) × IsPacked wire es ps
            × (save_batch wire out es table ≡ (insert_all ps table, none)))
  unfolding save_batch
  save_batch-all_or_none [] table = inr ([], tt, refl)
  save_batch-all_or_none (e ∷ es) table = elim (Option-cases out.begin) [
    | inr (err, bad) ↦ inl (err, rw (save_batch, bad) refl)
    | inl begun ↦ elim (Option-cases out.prepare) [
      | inr (err, bad) ↦ inl (err, rw (save_batch, begun, bad) refl)
      | inl prepared ↦ elim (save_rows-all 0 (e ∷ es) table) [
        | inl (err, bad) ↦ inl (err, rw (save_batch, begun, prepared, bad) refl)
        | inr (ps, packed, same) ↦ elim (Option-cases out.commit) [
          | inr (err, bad) ↦ inl (
            err,
            simp (save_batch, begun, prepared, ap (λ (r : Table Blob × Option Err). r.1) same, bad)
                refl,
          )
          | inl committed ↦
              let written = ap (λ (r : Table Blob × Option Err). r.0) same in
              let no_error = ap (λ (r : Table Blob × Option Err). r.1) same in
              inr (
                ps,
                packed,
                simp (save_batch, begun, prepared, no_error, committed)
                    (ap (λ t. (t, none)) written),
              )
        ]
      ]
    ]
  ]
