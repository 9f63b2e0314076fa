-- ===== src/Entry/Days/Count.antt =====
-- `DaysUsed` counts the recorded days of the window.
use native.Mathlib.Decide.{dec_lt, ℕ_discrete}
use dns_cache.Prelude.{
  ℕ, zero, suc, ◌+◌, ◌-◌, ◌/◌, ◌%◌, ◌^◌, ◌≤◌, ◌<◌, ◌≡◌, refl, sym, arith, ◌==◌, leb, if◌then◌else◌,
  max,
}
use Prim.Native.Nat.{bit_and}
use native.Mathlib.Nat.{one-le-pow, pow-suc, pow-le-pow_right}
use dns_cache.Prelude.Bits.{bit, bit_zero, bit-lt_two, count_ones, bit_and_mask}
use dns_cache.Prelude.Shifts.{count_ones-truncate}
use dns_cache.Prelude.Int.{pos, ◌-ℤ◌, max_ℤ}
use dns_cache.Entry.Days.{days_used}
use dns_cache.Entry.Days.Word.{last_day, day_mask}
use dns_cache.Entry.Days.View.{used_on}

-- How many of the `n` days up to `ref` the word records.
unfoldable pub days_recorded : ℕ → ℕ → ℕ → ℕ
days_recorded w ref zero = 0
days_recorded w ref (suc n) = (if used_on w (ref - n) then 1 else 0) + days_recorded w ref n

pow-lt-pow_32 : (k : ℕ) → k < 32 → 2 ^ k < 2 ^ 32
pow-lt-pow_32 k h = omega (
  arith,
  pow-suc 2 k,
  one-le-pow k 2,
  pow-le-pow_right {n = 2} (omega arith) {i = suc k} {j = 32} h,
)

count_ones-suc : (k m : ℕ) → count_ones (suc k) m ≡ count_ones k m + bit m k
count_ones-suc zero m = omega arith
count_ones-suc (suc k) m = omega (arith, count_ones-suc k (m / 2))

-- The days after the last use are not recorded.
days_recorded-after : (w ref n : ℕ) → n + last_day w ≤ ref → days_recorded w ref n ≡ 0
unfolding days_recorded used_on
days_recorded-after w ref zero h = refl
days_recorded-after w ref (suc n) h = ground (arith, days_recorded-after w ref n)

days_recorded-suc :
    (w shift k : ℕ)
    → k ≤ last_day w
    → days_recorded w (last_day w + shift) (suc (shift + k))
      ≡ bit (day_mask w) k + days_recorded w (last_day w + shift) (shift + k)
unfolding days_recorded used_on
days_recorded-suc w shift k h =
    let index : last_day w - (last_day w + shift - (shift + k)) ≡ k = omega arith in
    ground (arith, bit-lt_two (day_mask w) k)

-- Those before it are counted in the mask.
days_recorded-mask :
    (w shift k : ℕ)
    → k ≤ last_day w + 1
    → days_recorded w (last_day w + shift) (shift + k) ≡ count_ones k (day_mask w)
days_recorded-mask w shift zero h =
    rw (days_recorded-after w (last_day w + shift) (shift + 0) (omega arith))
days_recorded-mask w shift (suc k) h =
    let next : shift + suc k ≡ suc (shift + k) = omega arith in
    rw next (
      omega (
        arith,
        days_recorded-suc w shift k (omega arith),
        days_recorded-mask w shift k (omega arith),
        count_ones-suc k (day_mask w),
      ))

-- `uint32(1) << k - 1` is the mask of `k` low bits, also at 32, where the shift gives 0.
mask_ones : (k : ℕ) → k ≤ 32 → (2 ^ k % 2 ^ 32 + 2 ^ 32 - 1) % 2 ^ 32 ≡ 2 ^ k - 1
mask_ones k h = elim (dec_lt k 32) [
  | no top ↦ let e : k ≡ 32 = omega arith in rw e
  | yes below ↦ omega (arith, one-le-pow k 2, pow-lt-pow_32 k below)
]

ones_below :
    (k m : ℕ)
    → k ≤ 32
    → count_ones 32 (bit_and m ((2 ^ k % 2 ^ 32 + 2 ^ 32 - 1) % 2 ^ 32)) ≡ count_ones k m
ones_below k m h = rw (mask_ones k h, bit_and_mask k m) (count_ones-truncate 32 k m h)

-- What `DaysUsed` returns for a word that is not 0, when the last use was `shift` days ago.
count_since :
    (w shift window : ℕ)
    → window ≤ 32
    → window ≤ last_day w + shift
    → (if leb window shift
        then 0
        else count_ones 32
            (bit_and (day_mask w) ((2 ^ (window - shift) % 2 ^ 32 + 2 ^ 32 - 1) % 2 ^ 32)))
      ≡ days_recorded w (last_day w + shift) window
count_since w shift window h p = elim (dec_lt shift window) [
  | no old ↦ ground (arith, days_recorded-after w (last_day w + shift) window)
  | yes recent ↦
      let k : ℕ = window - shift in
      let e : shift + k ≡ window = omega arith in
      ground
        (arith, ones_below k (day_mask w), rw e at (days_recorded-mask w shift k (omega arith)))
]

days_recorded-zero : (ref n : ℕ) → days_recorded 0 ref n ≡ 0
unfolding days_recorded used_on
days_recorded-zero ref zero = refl
days_recorded-zero ref (suc n) = ground (arith, bit_zero (0 - (ref - n)), days_recorded-zero ref n)

shift_days : (day last : ℕ) → max_ℤ (pos day -ℤ pos last) (pos 0) ≡ pos (day - last)
unfolding ◌-ℤ◌
shift_days day last = ground arith

-- The body of `DaysUsed`, with the signed differences gone.
days_used_lem :
    (day window w : ℕ)
    → days_used (pos day) (pos window) w ≡ (
        if w == 0
        then 0
        else if leb window (day - last_day w)
        then 0
        else count_ones 32 (
            bit_and
              (day_mask w)
              ((2 ^ (window - (day - last_day w)) % 2 ^ 32 + 2 ^ 32 - 1) % 2 ^ 32)))
unfolding days_used
days_used_lem day window w = rw shift_days (unfold ◌-ℤ◌ in ground arith)

-- `DaysUsed` is the number of recorded days among the last `window` days. These are counted from
-- today on, or from the last day known when that is later. At most 32 days, and the clock shows a
-- day past the first window of the epoch.
pub days_used-days_recorded :
    (day window w : ℕ)
    → window ≤ 32
    → window ≤ day
    → days_used (pos day) (pos window) w ≡ days_recorded w (max day (last_day w)) window
days_used-days_recorded day window w h p =
    let ref : max day (last_day w) ≡ last_day w + (day - last_day w) = omega arith in
    rw (ref, days_used_lem day window w)
      (elim (ℕ_discrete w 0) [
        | yes none_used ↦
            rw none_used (sym (days_recorded-zero (last_day 0 + (day - last_day 0)) window))
        | no some_used ↦ ground (arith, count_since w (day - last_day w) window h (omega arith))
      ])
