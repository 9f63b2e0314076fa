-- ===== src/Entry/Days.antt =====
-- The days on which clients asked for a name (`UsedDays` of cache/entry.go): in one 64-bit word,
-- the local day of the last use above, and below a mask whose bit i stands for that day minus i.
pub mod Word
pub mod View
pub mod Count
pub mod History
pub mod Race
use dns_cache.Prelude.{
  ℕ, ◌+◌, ◌-◌, ◌*◌, ◌/◌, ◌%◌, ◌^◌, Bool, List, [], ◌∷◌, ◌==◌, leb, if◌then◌else◌,
}
use Prim.Native.Nat.{bit_and, bit_or}
use dns_cache.Prelude.Bits.{count_ones}
use dns_cache.Prelude.Int.{ℤ, pos, pos_part, ◌-ℤ◌, leb_ℤ, max_ℤ, to_u64}

-- `PackUsedDays`, at the number of the local day
unfoldable pub pack_used_days : ℤ → ℕ
unfolding to_u64
pack_used_days today = bit_or (to_u64 today * 2 ^ 32 % 2 ^ 64) 1

-- The word that one round of `MarkUsed`'s loop computes from the word that it loads.
unfoldable pub mark_used_next : ℤ → ℕ → ℕ
unfolding pack_used_days to_u64
mark_used_next today old =
    let shift = today -ℤ pos (old / 2 ^ 32) in
    if leb_ℤ (pos 32) shift
    then pack_used_days today
    else if leb_ℤ shift (pos 0)
    then bit_or old 1
    else bit_or (to_u64 today * 2 ^ 32 % 2 ^ 64)
        (bit_or (old % 2 ^ 32 * 2 ^ pos_part shift % 2 ^ 32) 1)

-- The loop of `MarkUsed`. What other goroutines do is a list: for each round the word that the
-- compare-and-swap finds, which succeeds where that is still the word loaded before, and the word
-- that is loaded next if it fails. The result is the word that the call leaves.
unfoldable pub mark_used_loop : ℤ → ℕ → List (ℕ × ℕ) → ℕ
unfolding mark_used_next
mark_used_loop today old [] = mark_used_next today old
mark_used_loop today old ((found, loaded) ∷ later) =
    let again = mark_used_loop today loaded later in
    let next = mark_used_next today old in
    if next == old then old else if found == old then next else again

-- `DaysUsed`, with `window` days. The mask is computed in uint32, where `1 << 32` is 0.
unfoldable pub days_used : ℤ → ℤ → ℕ → ℕ
days_used today window word =
    let shift = max_ℤ (today -ℤ pos (word / 2 ^ 32)) (pos 0) in
    if word == 0
    then 0
    else if leb_ℤ window shift
    then 0
    else (let mask = (2 ^ pos_part (window -ℤ shift) % 2 ^ 32 + 2 ^ 32 - 1) % 2 ^ 32 in
        count_ones 32 (bit_and (word % 2 ^ 32) mask))
