-- ===== src/Entry/Days/View.antt =====
-- Which days the word of used days records, and what `MarkUsed` and `DaysUsed` do to that set.
use native.Mathlib.Decide.{dec_lt}
use dns_cache.Prelude.{
  ℕ, zero, suc, ◌+◌, ◌-◌, ◌*◌, ◌/◌, ◌%◌, ◌^◌, ◌≤◌, ◌<◌, ◌≡◌, refl, arith, Bool, true, ◌&&◌, ◌||◌,
  ◌==◌, leb, ltb, max,
}
use dns_cache.Prelude.Bits.{bit, bit_zero}
use dns_cache.Prelude.Shifts.{bit_shift_left, bit_truncate, bit_set_lowest}
use dns_cache.Prelude.Int.{pos}
use dns_cache.Entry.Days.{mark_used_next}
use dns_cache.Entry.Days.Word.{
  last_day, day_mask, join, join_parts, mark_used_next_forward, mark_used_next_fresh,
  mark_used_next_same,
}

-- The word records the day: no later than the last day, and its bit is set.
unfoldable pub used_on : ℕ → ℕ → Bool
used_on w day = leb day (last_day w) && (bit (day_mask w) (last_day w - day) == 1)

used_on-join :
    (last mask day : ℕ)
    → mask < 2 ^ 32
    → used_on (join last mask) day ≡ (leb day last && (bit mask (last - day) == 1))
unfolding used_on
used_on-join last mask day h = rw ((join_parts last mask h).0, (join_parts last mask h).1)

bit-one : (i : ℕ) → (bit 1 i == 1) ≡ (i == 0)
bit-one zero = refl
bit-one (suc i) = ground (arith, bit_zero i)

-- bits past the mask are not set
used_on-within : (w day : ℕ) → used_on w day ≡ true → last_day w < day + 32
unfolding used_on
used_on-within w day h = ground (arith, bit_truncate 32 w (last_day w - day))

used_on-fresh :
    (day w e : ℕ)
    → last_day w + 32 ≤ day
    → used_on (join day 1) e ≡ (e == day || (used_on w e && ltb day (e + 32)))
used_on-fresh day w e p =
    rw (used_on-join day 1 e (omega arith))
      (ground (arith, bit-one (day - e), used_on-within w e, e_le))
  where
    e_le : used_on w e ≡ true → e ≤ last_day w
    e_le = unfold used_on in λ h. ground arith

used_on-forward :
    (day w e : ℕ)
    → last_day w < day
    → day < last_day w + 32
    → used_on (join day (day_mask w * 2 ^ (day - last_day w) % 2 ^ 32 / 2 * 2 + 1)) e
      ≡ (e == day || (used_on w e && ltb day (e + 32)))
unfolding used_on
used_on-forward day w e p q =
    let s : ℕ = day - last_day w in
    let moved : ℕ = day_mask w * 2 ^ s in
    rw (used_on-join day (moved % 2 ^ 32 / 2 * 2 + 1) e (omega arith)) (
      ground (
        arith,
        bit_set_lowest (moved % 2 ^ 32) (day - e),
        bit_truncate 32 moved (day - e),
        bit_shift_left s (day_mask w) (day - e),
        shifted,
      ))
  where
    shifted : e ≤ last_day w → day - e - (day - last_day w) ≡ last_day w - e
    shifted h = omega arith

used_on-same :
    (w e : ℕ)
    → used_on (join (last_day w) (day_mask w / 2 * 2 + 1)) e
      ≡ (e == last_day w || (used_on w e && ltb (last_day w) (e + 32)))
unfolding used_on
used_on-same w e = rw (used_on-join (last_day w) (day_mask w / 2 * 2 + 1) e (omega arith)) (
    ground
      (arith, bit_set_lowest (day_mask w) (last_day w - e), bit_truncate 32 w (last_day w - e)))

-- `MarkUsed` adds one day to the recorded ones, today or, when the clock was set back, the last
-- day known; it keeps every other day that is less than 32 days older, and nothing else.
pub used_on-mark_used_next :
    (day w e : ℕ)
    → day < 2 ^ 32
    → used_on (mark_used_next (pos day) w) e
      ≡ (e == max day (last_day w) || (used_on w e && ltb (max day (last_day w)) (e + 32)))
used_on-mark_used_next day w e h = elim (dec_lt (last_day w) day) [
  | no late ↦
      let ref : max day (last_day w) ≡ last_day w = omega arith in
      rw (ref, mark_used_next_same day w (omega arith)) (used_on-same w e)
  | yes ahead ↦
      let ref : max day (last_day w) ≡ day = omega arith in
      rw ref (elim (dec_lt day (last_day w + 32)) [
        | yes near ↦
            rw (mark_used_next_forward day w h ahead near) (used_on-forward day w e ahead near)
        | no far ↦
            rw (mark_used_next_fresh day w h (omega arith)) (used_on-fresh day w e (omega arith))
      ])
]

pub last_day-mark_used_next :
    (day w : ℕ) → day < 2 ^ 32 → last_day (mark_used_next (pos day) w) ≡ max day (last_day w)
last_day-mark_used_next day w h = elim (dec_lt (last_day w) day) [
  | no late ↦
      rw (mark_used_next_same day w (omega arith))
        (omega (arith, join_parts (last_day w) (day_mask w / 2 * 2 + 1) (omega arith)))
  | yes ahead ↦ elim (dec_lt day (last_day w + 32)) [
    | yes near ↦
        let moved : ℕ = day_mask w * 2 ^ (day - last_day w) % 2 ^ 32 in
        rw (mark_used_next_forward day w h ahead near)
          (omega (arith, join_parts day (moved / 2 * 2 + 1) (omega arith)))
    | no far ↦
        rw (mark_used_next_fresh day w h (omega arith))
          (omega (arith, join_parts day 1 (omega arith)))
  ]
]

-- The word of a first use records that day alone.
pub used_on-first : (day e : ℕ) → used_on (join day 1) e ≡ (e == day)
used_on-first day e = rw (used_on-join day 1 e (omega arith)) (ground (arith, bit-one (day - e)))
