-- ===== src/Main/Saving.antt =====
-- No change of an entry is lost between the rounds of `persistLoop`.
use dns_cache.Prelude.{◌≡◌, refl, ap, true, ◌⊎◌, inl, inr, List, [], ◌∷◌, In, Bool-cases}
use dns_cache.Prelude.Decimal.{Bytes}
use dns_cache.Prelude.Int.{ℤ, wrap64}
use dns_cache.Time.{Instant}
use dns_cache.Entry.{Entry}
use dns_cache.Persistence.{Wire, Table, Outcomes}
use dns_cache.Persistence.Batch.{IsPacked, insert_all, save_batch-all_or_none}
use dns_cache.Main.{changed, batch_of, persist_round}

module _ {RR : Type 0} where
  pub In-batch_of :
      (since : ℤ) (k : Bytes) (e : Entry RR) (entries : List (Bytes × Entry RR))
      → In (k, e) entries
      → changed since e ≡ true
      → In e (batch_of since entries)
  unfolding batch_of
  In-batch_of since k e [] m new = absurd m
  In-batch_of since k e ((j, e') ∷ rest) (inl same) new =
      let eq : e ≡ e' = ap (λ (p : Bytes × Entry RR). p.1) same in
      let new' : changed since e' ≡ true = rw (← eq) new in simp (batch_of, new') (inl eq)
  In-batch_of since k e ((j, e') ∷ rest) (inr m) new =
      let later = In-batch_of since k e rest m new in
      elim (Bool-cases (changed since e')) [
        | inl too ↦ simp (batch_of, too) (inr later)
        | inr old ↦ simp (batch_of, old) later
      ]

  -- A round of `persistLoop` either fails, and then neither the table nor the time of the last
  -- save moves, so that the next round takes the same entries again; or it writes a list of
  -- entries in which each one stands that was fetched or asked for since the last save, and only
  -- then does the time move on, to the start of the round.
  pub persist_round-saves :
      {Blob Err : Type 0} (wire : Wire RR Blob) (out : Outcomes Err) (start last_save : Instant)
      (entries : List (Bytes × Entry RR)) (table : Table Blob)
      → (persist_round wire out start entries table last_save ≡ (table, last_save))
        ⊎ ((es : List (Entry RR)) × (ps : List (Entry RR × Blob)) × IsPacked wire es ps
            × (persist_round wire out start entries table last_save ≡ (insert_all ps table, start))
            × ((k : Bytes) (e : Entry RR)
                → In (k, e) entries
                → changed (wrap64 last_save) e ≡ true
                → In e es))
  unfolding persist_round
  persist_round-saves wire out start last_save entries table =
      let es = batch_of (wrap64 last_save) entries in
      elim (save_batch-all_or_none wire out es table) [
        | inl (err, bad) ↦ inl (simp (persist_round, bad) refl)
        | inr (ps, packed, good) ↦ inr (
          es,
          ps,
          packed,
          simp (persist_round, good) refl,
          λ k e m new. In-batch_of (wrap64 last_save) k e entries m new,
        )
      ]
