-- ===== src/Entry/Days/Word.antt =====
-- The two halves of the word of used days, after each case of `MarkUsed`.
use Prim.Native.Nat.{bit_or}
use dns_cache.Prelude.{ℕ, ◌+◌, ◌-◌, ◌*◌, ◌/◌, ◌%◌, ◌^◌, ◌≤◌, ◌<◌, ◌≡◌, arith}
use dns_cache.Prelude.Bits.{bit_or_fields, bit_or-one}
use dns_cache.Prelude.Int.{pos, ◌-ℤ◌}
use dns_cache.Entry.Days.{pack_used_days, mark_used_next}

-- The day of the last use, and the mask of the days up to it.
abbrev pub last_day : ℕ → ℕ
last_day w = w / 2 ^ 32

abbrev pub day_mask : ℕ → ℕ
day_mask w = w % 2 ^ 32

pub join : ℕ → ℕ → ℕ
join day mask = day * 2 ^ 32 + mask

pub join_parts :
    (day mask : ℕ)
    → mask < 2 ^ 32
    → (last_day (join day mask) ≡ day) × (day_mask (join day mask) ≡ mask)
unfolding join
join_parts day mask h = omega arith

or_fields :
    (day mask : ℕ)
    → day < 2 ^ 32
    → mask < 2 ^ 32
    → bit_or (day % 2 ^ 64 * 2 ^ 32 % 2 ^ 64) mask ≡ join day mask
unfolding join
or_fields day mask p q = ground (arith, bit_or_fields 32 day mask q)

pub pack_used_days_lem : (day : ℕ) → day < 2 ^ 32 → pack_used_days (pos day) ≡ join day 1
unfolding pack_used_days
pack_used_days_lem day h = or_fields day 1 h (omega arith)

-- The clock has moved on by less than 32 days: the mask moves up, and today's bit is set.
pub mark_used_next_forward :
    (day w : ℕ)
    → day < 2 ^ 32
    → last_day w < day
    → day < last_day w + 32
    → mark_used_next (pos day) w
      ≡ join day (day_mask w * 2 ^ (day - last_day w) % 2 ^ 32 / 2 * 2 + 1)
unfolding mark_used_next ◌-ℤ◌
mark_used_next_forward day w h p q =
    let moved : ℕ = day_mask w * 2 ^ (day - last_day w) % 2 ^ 32 in
    ground (arith, bit_or-one moved, or_fields day (moved / 2 * 2 + 1) h (omega arith))

-- The history is older than the mask.
pub mark_used_next_fresh :
    (day w : ℕ) → day < 2 ^ 32 → last_day w + 32 ≤ day → mark_used_next (pos day) w ≡ join day 1
unfolding mark_used_next ◌-ℤ◌
mark_used_next_fresh day w h p = ground (arith, or_fields day 1 h)

-- The same day, or a clock that was set back.
pub mark_used_next_same :
    (day w : ℕ)
    → day ≤ last_day w
    → mark_used_next (pos day) w ≡ join (last_day w) (day_mask w / 2 * 2 + 1)
unfolding mark_used_next ◌-ℤ◌ join
mark_used_next_same day w p = ground (arith, bit_or-one w)
