-- ===== src/Prelude/Shifts.antt =====
-- What shifts and truncation do to single bits, and to the number of bits that are set.
use native.Mathlib.Nat.{pow-suc, one-le-pow}
use native.Mathlib.Omega.{arith}
use Prim.Native.Nat.{ℕ, zero, suc, ◌+◌, ◌-◌, ◌*◌, ◌/◌, ◌%◌, ◌^◌, ◌≤◌}
use mathlib.Core.Path.{◌≡◌, refl}
use dns_cache.Prelude.Bools.{ltb, ◌==◌, if◌then◌else◌}
use dns_cache.Prelude.Bits.{bit, count_ones, bit_zero, shift_once, mod_double}

-- `m << s`: the bits move up by `s`, and zeros come in.
pub bit_shift_left : (s x i : ℕ) → bit (x * 2 ^ s) i ≡ (if ltb i s then 0 else bit x (i - s))
bit_shift_left zero x i = ground arith
bit_shift_left (suc s) x zero = ground (arith, shift_once s x)
bit_shift_left (suc s) x (suc i) = ground (arith, shift_once s x, bit_shift_left s x i)

pub bit_truncate : (k x i : ℕ) → bit (x % 2 ^ k) i ≡ (if ltb i k then bit x i else 0)
bit_truncate zero x i = ground (arith, bit_zero i)
bit_truncate (suc k) x zero = ground (arith, pow-suc 2 k, one-le-pow k 2, mod_double (2 ^ k) x)
bit_truncate (suc k) x (suc i) =
    ground (arith, pow-suc 2 k, one-le-pow k 2, mod_double (2 ^ k) x, bit_truncate k (x / 2) i)

pub bit_set_lowest : (x i : ℕ) → bit (x / 2 * 2 + 1) i ≡ (if i == 0 then 1 else bit x i)
bit_set_lowest x zero = ground arith
bit_set_lowest x (suc i) = ground arith

pub count_ones-zero : (n : ℕ) → count_ones n 0 ≡ 0
count_ones-zero zero = refl
count_ones-zero (suc n) = omega (arith, count_ones-zero n)

-- Truncated to `k` bits, a number has as many ones as below `k`.
pub count_ones-truncate : (n k x : ℕ) → k ≤ n → count_ones n (x % 2 ^ k) ≡ count_ones k x
count_ones-truncate n zero x h = ground (arith, count_ones-zero n)
count_ones-truncate zero (suc k) x h = absurd (omega arith)
count_ones-truncate (suc n) (suc k) x h =
    ground
      (arith, pow-suc 2 k, one-le-pow k 2, mod_double (2 ^ k) x, count_ones-truncate n k (x / 2))
