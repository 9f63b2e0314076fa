-- ===== src/Persistence/Sweep.antt =====
-- What the regular deletion of old rows leaves.
use dns_cache.Prelude.{
  ℕ, ◌+◌, ◌^◌, ◌≤◌, ◌<◌, ◌≡◌, ap, arith, true, false, inl, inr, ◌↔◌, [], ◌∷◌, In, length,
  Bool-cases, Option, none, some,
}
use dns_cache.Prelude.Int.{ℤ, pos, ◌≤ℤ◌, ltb_ℤ, ◌+ℤ◌, ◌-ℤ◌, floor_div, wrap64, to_u64, to_i64}
use dns_cache.Time.{unix, second, add}
use dns_cache.Persistence.{Row, RowKey, Table, delete_before, cleanup}

cutoff-monotone :
    (now w a : ℕ)
    → w ≤ a
    → a < 2 ^ 63
    → unix (add (pos now) (wrap64 (pos 0 -ℤ pos a))) ≤ℤ floor_div (pos now -ℤ pos w) second
unfolding wrap64 to_u64 to_i64 ◌+ℤ◌ ◌-ℤ◌ floor_div
cutoff-monotone now w a h small = ground arith

module _ {Blob : Type 0} where
  delete_before-In :
      (cutoff : ℤ) (p : RowKey × Row Blob) (table : Table Blob)
      → (In p (delete_before cutoff table).0
          → In p table × (ltb_ℤ (Row.stored_at p.1) cutoff ≡ false))
        × (In p table
            → ltb_ℤ (Row.stored_at p.1) cutoff ≡ false
            → In p (delete_before cutoff table).0)
        × (length (delete_before cutoff table).0 + (delete_before cutoff table).1 ≡ length table)
  unfolding delete_before
  delete_before-In cutoff p [] = (λ m. absurd m, λ m k. m, omega arith)
  delete_before-In cutoff p ((k, row) ∷ table) =
      let (only, all, counted) = delete_before-In cutoff p table in
      elim (Bool-cases (ltb_ℤ row.stored_at cutoff)) [
        | inl old ↦
            simp (delete_before, old)
              (
                λ m. let (there, young) = only m in (inr there, young),
                λ m young. elim m [
                  | inl same ↦ absurd (
                      clash row.stored_at (ap (λ (q : RowKey × Row Blob). Row.stored_at q.1) same)
                        old young)
                  | inr later ↦ all later young
                ],
                omega arith,
              )
        | inr young ↦
            simp (delete_before, young)
              (
                λ m. elim m [
                  | inl same ↦ (inl same, rw same young)
                  | inr later ↦ let (there, fresh) = only later in (inr there, fresh)
                ],
                λ m fresh. elim m [ inl same ↦ inl same | inr later ↦ inr (all later fresh) ],
                omega arith,
              )
      ]
    where
      clash :
          (z : ℤ)
          → Row.stored_at p.1 ≡ z
          → ltb_ℤ z cutoff ≡ true
          → ltb_ℤ (Row.stored_at p.1) cutoff ≡ false
          → ⊥
      clash z e old young = ground arith

  -- `Cleanup` after a time that is at least the window deletes only rows that it found, counts
  -- them, and keeps every row that was stored in the window, whether its statement fails or not.
  pub cleanup-keeps :
      {Err : Type 0} (exec : Option Err) (now w a : ℕ) (table : Table Blob) (p : RowKey × Row Blob)
      → w ≤ a
      → a < 2 ^ 63
      → floor_div (pos now -ℤ pos w) second ≤ℤ Row.stored_at p.1
      → ((In p (cleanup (pos a) now exec table).0) ↔ In p table)
        × (length (cleanup (pos a) now exec table).0 + (cleanup (pos a) now exec table).1
            ≡ length table)
  unfolding cleanup
  cleanup-keeps (some err) now w a table p h small recent = ((λ m. m, λ m. m), omega arith)
  cleanup-keeps none now w a table p h small recent =
      let bound = cutoff-monotone now w a h small in
      let (only, all, counted) =
        delete_before-In (unix (add (pos now) (wrap64 (pos 0 -ℤ pos a)))) p table in
      ((λ m. (only m).0, λ m. all m (ground arith)), counted)
