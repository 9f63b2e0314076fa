-- ===== src/Tests/Saving.antt =====
-- The database over the small cache.
use dns_cache.Prelude.{
  ℕ, zero, suc, ◌+◌, ◌*◌, ◌≡◌, ◌↔◌, sym, arith, ◌⊎◌, false, List, [], ◌∷◌, In, length, Option, none,
  some,
}
use dns_cache.Prelude.Int.{pos, ◌-ℤ◌, floor_div}
use dns_cache.Time.{hour}
use dns_cache.Dns.{Msg}
use dns_cache.Entry.{Entry}
use dns_cache.Persistence.{Row, RowKey, Wire, Outcomes, row_of, row_key, save_batch, cleanup}
use dns_cache.Persistence.Batch.{IsPacked, insert_all, save_batch-all_or_none}
use dns_cache.Persistence.Sweep.{cleanup-keeps}
use dns_cache.Tests.Fixtures.{Rr, noon, reply, entry_a, entry_b}

-- The message itself in place of its bytes
abbrev pub wire : Wire Rr (Msg Rr)
wire = record {
  pack = λ m. some (record m { compress = false });
  unpack = λ m. some m;
  unpack-pack = λ m b h. unpack_same m b h;
}
  where
    unpack_same :
        (m b : Msg Rr)
        → some (record m { compress = false }) ≡ some b
        → some b ≡ some (record m { compress = false })
    unpack_same m b h = sym h

-- The second statement fails.
abbrev pub second_fails : Outcomes ℕ
second_fails = record { begin = none; prepare = none; pack_err = 1; exec = exec; commit = none }
  where
    exec : ℕ → Option ℕ
    exec zero = none
    exec (suc n) = some 2

save_batch-all_or_none_example :
    ((err : ℕ) × (save_batch wire second_fails (entry_a ∷ entry_b ∷ []) [] ≡ ([], some err)))
    ⊎ ((ps : List (Entry Rr × Msg Rr)) × IsPacked wire (entry_a ∷ entry_b ∷ []) ps
        × (save_batch wire second_fails (entry_a ∷ entry_b ∷ []) [] ≡ (insert_all ps [], none)))
save_batch-all_or_none_example =
    save_batch-all_or_none wire second_fails (entry_a ∷ entry_b ∷ []) []

abbrev no_error : Option ℕ
no_error = none

abbrev row_a : RowKey × Row (Msg Rr)
row_a = (row_key entry_a, row_of entry_a reply)

cleanup-keeps_example :
    ((In row_a (cleanup (pos (7 * 24 * hour)) (noon + 24 * hour) no_error (row_a ∷ [])).0)
      ↔ In row_a (row_a ∷ []))
    × (length (cleanup (pos (7 * 24 * hour)) (noon + 24 * hour) no_error (row_a ∷ [])).0
          + (cleanup (pos (7 * 24 * hour)) (noon + 24 * hour) no_error (row_a ∷ [])).1
        ≡ 1)
unfolding ◌-ℤ◌ floor_div row_of
cleanup-keeps_example =
    cleanup-keeps no_error (noon + 24 * hour) (2 * 24 * hour) (7 * 24 * hour) (row_a ∷ []) row_a
      (omega arith) (omega arith) (omega arith)
