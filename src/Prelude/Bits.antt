-- ===== src/Prelude/Bits.antt =====
-- Bits of a native number by recursion on their position, and `|`, `&` and shifts as arithmetic.
use Prim.Native.Nat.{
  ℕ, zero, suc, ◌+◌, ◌-◌, ◌*◌, ◌/◌, ◌%◌, ◌^◌, ◌≤◌, ◌<◌, min, max, bit_and, bit_or, digits,
  bit_and-bitwise, bit_or-bitwise,
}
use mathlib.Core.Path.{◌≡◌, refl, ap, ◌∙◌}
use native.Mathlib.Nat.{le_refl, pow-suc, one-le-pow, div-add-mod, div-div-eq-div-mul}
use native.Mathlib.Omega.{arith}

-- Bit `i` of `m`, 0 or 1.
abbrev pub bit : ℕ → ℕ → ℕ
bit m zero = m % 2
bit m (suc i) = bit (m / 2) i

-- How many of the bits below `k` are set.
abbrev pub count_ones : ℕ → ℕ → ℕ
count_ones zero m = 0
count_ones (suc k) m = m % 2 + count_ones k (m / 2)

pub bit-lt_two : (m i : ℕ) → bit m i < 2
bit-lt_two m zero = omega arith
bit-lt_two m (suc i) = bit-lt_two (m / 2) i

pub bit_zero : (i : ℕ) → bit 0 i ≡ 0
bit_zero zero = refl
bit_zero (suc i) = bit_zero i

-- One place more doubles what stands before the places.
pub shift_once : (places hi : ℕ) → hi * 2 ^ suc places ≡ 2 * (hi * 2 ^ places)
shift_once places hi = let power = pow-suc 2 places in omega (arith, ap (λ (x : ℕ). hi * x) power)

-- What `|` computes digit by digit, with any fuel that reaches its first argument.
abbrev or_digits : ℕ → ℕ → ℕ → ℕ
or_digits = digits (λ b. b) max

or_digits-zero : (fuel a : ℕ) → a ≤ fuel → or_digits fuel a 0 ≡ a
or_digits-zero zero zero h = refl
or_digits-zero zero (suc a) h = absurd (omega arith)
or_digits-zero (suc fuel) zero h = refl
or_digits-zero (suc fuel) (suc a) h = omega (arith, or_digits-zero fuel (suc a / 2) (omega arith))

or_digits-one : (fuel a : ℕ) → a ≤ fuel → or_digits fuel a 1 ≡ a / 2 * 2 + 1
or_digits-one zero zero h = refl
or_digits-one zero (suc a) h = absurd (omega arith)
or_digits-one (suc fuel) zero h = refl
or_digits-one (suc fuel) (suc a) h = omega (arith, or_digits-zero fuel (suc a / 2) (omega arith))

or_digits-fields :
    (k q r fuel a : ℕ) → r < 2 ^ k → a ≡ q * 2 ^ k → a ≤ fuel → or_digits fuel a r ≡ a + r
or_digits-fields zero q r fuel a fits e h =
    let none_below : r ≡ 0 = omega arith in rw none_below (omega (arith, or_digits-zero fuel a h))
or_digits-fields (suc k) q r zero zero fits e h = omega arith
or_digits-fields (suc k) q r zero (suc a) fits e h = absurd (omega arith)
or_digits-fields (suc k) q r (suc fuel) zero fits e h = omega arith
or_digits-fields (suc k) q r (suc fuel) (suc a) fits e h =
    let even : suc a ≡ 2 * (q * 2 ^ k) = e ∙ shift_once k q in
    omega (
      arith,
      or_digits-fields k q (r / 2) fuel (suc a / 2) (omega (arith, pow-suc 2 k)) (omega arith)
          (omega arith),
    )

-- `(q << k) | r` is a sum when `r` fits `k` bits.
pub bit_or_fields :
    (places hi lo : ℕ) → lo < 2 ^ places → bit_or (hi * 2 ^ places) lo ≡ hi * 2 ^ places + lo
bit_or_fields places hi lo fits =
    let above : ℕ = hi * 2 ^ places in
    bit_or-bitwise above lo ∙ or_digits-fields places hi lo above above fits refl (le_refl _)

-- Setting the lowest bit.
pub bit_or-one : (a : ℕ) → bit_or a 1 ≡ a / 2 * 2 + 1
bit_or-one a = bit_or-bitwise a 1 ∙ or_digits-one a a (le_refl _)

abbrev and_ones : ℕ → ℕ → ℕ → ℕ
and_ones = digits (λ b. zero) min

pub mod_double : (p x : ℕ) → 0 < p → x % (2 * p) ≡ 2 * (x / 2 % p) + x % 2
mod_double p x h = ground (
  arith,
  div-add-mod x (2 * p),
  div-add-mod (x / 2) p,
  div-div-eq-div-mul x 2 p,
  ap (λ (q : ℕ). p * q) (div-div-eq-div-mul x 2 p),
)

and_ones-none : (fuel a : ℕ) → and_ones fuel a 0 ≡ 0
and_ones-none zero zero = refl
and_ones-none zero (suc a) = refl
and_ones-none (suc fuel) zero = refl
and_ones-none (suc fuel) (suc a) = omega (arith, and_ones-none fuel (suc a / 2))

halve_mask : (p : ℕ) → 0 < p → ((2 * p - 1) / 2 ≡ p - 1) × ((2 * p - 1) % 2 ≡ 1)
halve_mask p h = omega arith

and_ones-mask : (k fuel a : ℕ) → a ≤ fuel → and_ones fuel a (2 ^ k - 1) ≡ a % 2 ^ k
and_ones-mask zero fuel a h = omega (arith, and_ones-none fuel a)
and_ones-mask (suc k) zero zero h = ground (arith, pow-suc 2 k, one-le-pow k 2)
and_ones-mask (suc k) zero (suc a) h = absurd (omega arith)
and_ones-mask (suc k) (suc fuel) zero h = ground (arith, pow-suc 2 k, one-le-pow k 2)
and_ones-mask (suc k) (suc fuel) (suc a) h = ground (
  arith,
  pow-suc 2 k,
  one-le-pow k 2,
  halve_mask (2 ^ k),
  mod_double (2 ^ k) (suc a),
  and_ones-mask k fuel (suc a / 2),
)

-- With a mask of `k` ones, `&` leaves the remainder by `2 ^ k`.
pub bit_and_mask : (k a : ℕ) → bit_and a (2 ^ k - 1) ≡ a % 2 ^ k
bit_and_mask k a = bit_and-bitwise a (2 ^ k - 1) ∙ and_ones-mask k a a (le_refl _)
