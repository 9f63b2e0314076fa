-- ===== src/Persistence/Rows.antt =====
-- The rows that a batch leaves in an empty table.
use dns_cache.Prelude.{◌≡◌, refl, sym, ap, ◌∙◌, ◌⊎◌, inl, inr, List, [], ◌∷◌, some, In}
use mathlib.Core.Option
use mathlib.Core.List.{lookup}
use dns_cache.Prelude.Assoc.{lookup-store_self, lookup-store_ne}
use dns_cache.Entry.{Entry}
use dns_cache.Persistence.{Row, RowKey, RowKey-discrete, Wire, Table, row_key, row_of, insert}
use dns_cache.Persistence.Batch.{insert_all, IsPacked}

module _ {RR Blob : Type 0} where
  -- A row in the table comes from the batch, or was there before.
  pub lookup-insert_all :
      (ps : List (Entry RR × Blob)) (table : Table Blob) (k : RowKey) (row : Row Blob)
      → lookup RowKey-discrete k (insert_all ps table) ≡ some row
      → ((e : Entry RR) × (b : Blob) × In (e, b) ps × (k ≡ row_key e) × (row ≡ row_of e b))
        ⊎ (lookup RowKey-discrete k table ≡ some row)
  lookup-insert_all [] table k row h = inr h
  lookup-insert_all ((e, b) ∷ ps) table k row h = elim (lookup-insert_all ps _ k row h) [
    | inl (e', b', m, same, from) ↦ inl (e', b', inr m, same, from)
    | inr before ↦ elim (RowKey-discrete (row_key e) k) [
      | yes p ↦ inl (
        e,
        b,
        inl refl,
        sym p,
        (let here = lookup-store_self RowKey-discrete (row_key e) (row_of e b) table in
            let moved = ap (λ j. lookup RowKey-discrete j (insert e b table)) (sym p) in
            Option.some-injective _ _ (sym before ∙ moved ∙ here)),
      )
      | no p ↦ inr (sym (lookup-store_ne RowKey-discrete (row_key e) k _ table p) ∙ before)
    ]
  ]

  -- Every entry of the batch has its row in the table, if no other has the same key.
  pub insert_all-lookup :
      (ps : List (Entry RR × Blob)) (table : Table Blob) (e : Entry RR) (b : Blob)
      → ((e' : Entry RR) (b' : Blob)
          → In (e', b') ps
          → row_key e' ≡ row_key e
          → ◌≡◌ {A = Entry RR × Blob} (e', b') (e, b))
      → In (e, b) ps ⊎ (lookup RowKey-discrete (row_key e) table ≡ some (row_of e b))
      → lookup RowKey-discrete (row_key e) (insert_all ps table) ≡ some (row_of e b)
  insert_all-lookup [] table e b one (inl m) = absurd m
  insert_all-lookup [] table e b one (inr there) = there
  insert_all-lookup ((e', b') ∷ ps) table e b one h =
      insert_all-lookup ps _ e b (λ e'' b'' m same. one e'' b'' (inr m) same)
        (elim (RowKey-discrete (row_key e') (row_key e)) [
          | yes p ↦ inr (
              ap (λ j. lookup RowKey-discrete j (insert e' b' table)) (sym p)
              ∙ lookup-store_self RowKey-discrete (row_key e') (row_of e' b') table
              ∙ ap (λ (q : Entry RR × Blob). some (row_of q.0 q.1)) (one e' b' (inl refl) p))
          | no p ↦ elim h [
            | inl (inl here) ↦ absurd (p (ap (λ (q : Entry RR × Blob). row_key q.0) (sym here)))
            | inl (inr later) ↦ inl later
            | inr there ↦
                inr (lookup-store_ne RowKey-discrete (row_key e') (row_key e) _ table p ∙ there)
          ]
        ])

module _ {RR Blob : Type 0} (wire : Wire RR Blob) where
  -- The entries of a packed batch are those of the list, each with its packed response.
  pub In-IsPacked :
      (es : List (Entry RR)) (ps : List (Entry RR × Blob)) (e : Entry RR) (b : Blob)
      → IsPacked wire es ps
      → In (e, b) ps
      → In e es × (Wire.pack wire e.response ≡ some b)
  In-IsPacked [] [] e b p m = absurd m
  In-IsPacked [] (q ∷ ps) e b p m = absurd p
  In-IsPacked (x ∷ es) [] e b p m = absurd p
  In-IsPacked (x ∷ es) ((x', b') ∷ ps) e b p (inl same) =
      let entry = ap (λ (q : Entry RR × Blob). q.0) same ∙ sym p.0 in
      let blob = ap (λ (q : Entry RR × Blob). q.1) same in
      (inl entry, ap (λ (y : Entry RR). Wire.pack wire y.response) entry ∙ p.1 ∙ ap some (sym blob))
  In-IsPacked (x ∷ es) ((x', b') ∷ ps) e b p (inr m) =
      let (there, packed) = In-IsPacked es ps e b p.2 m in (inr there, packed)

  pub IsPacked-In :
      (es : List (Entry RR)) (ps : List (Entry RR × Blob)) (e : Entry RR)
      → IsPacked wire es ps
      → In e es
      → (b : Blob) × In (e, b) ps × (Wire.pack wire e.response ≡ some b)
  IsPacked-In [] ps e p m = absurd m
  IsPacked-In (x ∷ es) [] e p m = absurd p
  IsPacked-In (x ∷ es) ((x', b') ∷ ps) e p (inl same) = (
    b',
    inl (ap (λ y. (y, b')) (same ∙ p.0)),
    ap (λ (y : Entry RR). Wire.pack wire y.response) same ∙ p.1,
  )
  IsPacked-In (x ∷ es) ((x', b') ∷ ps) e p (inr m) =
      let (b, there, packed) = IsPacked-In es ps e p.2 m in (b, inr there, packed)
