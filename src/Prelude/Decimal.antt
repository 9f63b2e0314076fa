-- ===== src/Prelude/Decimal.antt =====
-- Text as the list of its bytes, the decimal print of `fmt`'s `%d`, and what both determine.
use Prim.Native.Char.{code}
use Prim.Native.String.{String}
use Prim.Native.Nat.{ℕ, zero, suc, ◌+◌, ◌-◌, ◌*◌, ◌/◌, ◌%◌, ◌<◌}
use mathlib.Core.List.{List, [], ◌∷◌, ◌++◌}
use mathlib.Core.Logic.{◌≢◌}
use mathlib.Core.Path.{◌≡◌, refl, ap, ◌∙◌, sym}
use native.Mathlib.Decide.{ℕ_discrete}
use native.Mathlib.Omega.{arith}
use dns_cache.Prelude.Bools.{ltb, if◌then◌else◌}
use dns_cache.Prelude.Lists.{All}

abbrev pub Bytes : Type 0
Bytes = List ℕ

unfoldable pub Bytes-discrete : Discrete Bytes
unfolding ℕ_discrete
Bytes-discrete = hlevel ℕ_discrete

-- The bytes of an ASCII text.
abbrev pub codes : String → Bytes
codes String.[] = []
codes (String.◌∷◌ c s) = code c ∷ codes s

-- The digits of `n`, most significant first; the fuel bounds their number.
unfoldable pub print_digits : ℕ → ℕ → Bytes
print_digits zero n = []
print_digits (suc fuel) n =
    let front = print_digits fuel (n / 10) in
    if ltb n 10 then (b'0' + n) ∷ [] else front ++ (b'0' + n % 10) ∷ []

unfoldable pub decimal : ℕ → Bytes
unfolding print_digits
decimal n = print_digits (suc n) n

value_from : ℕ → Bytes → ℕ
value_from acc [] = acc
value_from acc (c ∷ s) = value_from (acc * 10 + (c - b'0')) s

value_from-append :
    (s : Bytes) (acc c : ℕ) → value_from acc (s ++ c ∷ []) ≡ value_from acc s * 10 + (c - b'0')
unfolding value_from
value_from-append [] acc c = refl
value_from-append (x ∷ s) acc c = value_from-append s (acc * 10 + (x - b'0')) c

value_from-print_digits : (fuel n : ℕ) → n < fuel → value_from 0 (print_digits fuel n) ≡ n
unfolding print_digits value_from
value_from-print_digits zero n h = absurd (omega arith)
value_from-print_digits (suc fuel) n h = ground (
  arith,
  value_from-append (print_digits fuel (n / 10)) 0 (b'0' + n % 10),
  value_from-print_digits fuel (n / 10),
)

-- The print of a number determines it.
pub decimal_injective : (a b : ℕ) → decimal a ≡ decimal b → a ≡ b
unfolding decimal
decimal_injective a b h =
    sym (value_from-print_digits (suc a) a (omega arith))
    ∙ ap (value_from 0) h
    ∙ value_from-print_digits (suc b) b (omega arith)

abbrev pub Lacks : ℕ → Bytes → Type 0
Lacks c = All (λ x. x ≢ c)

Lacks-append : (c d : ℕ) (s : Bytes) → Lacks c s → d ≢ c → Lacks c (s ++ d ∷ [])
Lacks-append c d [] h e = (e, tt)
Lacks-append c d (x ∷ s) h e = (h.0, Lacks-append c d s h.1 e)

print_digits-Lacks : (fuel n : ℕ) → Lacks b':' (print_digits fuel n)
unfolding print_digits
print_digits-Lacks zero n = tt
print_digits-Lacks (suc fuel) n = ground (
  arith,
  Lacks-append b':' (b'0' + n % 10) (print_digits fuel (n / 10)) (print_digits-Lacks fuel (n / 10))
      (omega arith),
)

pub decimal-Lacks : (n : ℕ) → Lacks b':' (decimal n)
unfolding decimal
decimal-Lacks n = print_digits-Lacks (suc n) n

not-Lacks-middle : (c : ℕ) (s t : Bytes) → ¬ Lacks c (s ++ c ∷ t)
not-Lacks-middle c [] t h = h.0 refl
not-Lacks-middle c (x ∷ s) t h = not-Lacks-middle c s t h.1

tail_of : Bytes → Bytes
tail_of [] = []
tail_of (x ∷ s) = s

∷-tail : {x y : ℕ} {s t : Bytes} → x ∷ s ≡ y ∷ t → s ≡ t
unfolding tail_of
∷-tail h = ap tail_of h

-- A separator that neither end holds cuts a text in one way only.
pub cut_unique :
    (c : ℕ) (s t u v : Bytes) → Lacks c u → Lacks c v → s ++ c ∷ u ≡ t ++ c ∷ v → (s ≡ t) × (u ≡ v)
cut_unique c [] [] u v hu hv e = (refl, ∷-tail e)
cut_unique c [] (y ∷ t) u v hu hv e = absurd (not-Lacks-middle c t v (rw (∷-tail e) at hu))
cut_unique c (x ∷ s) [] u v hu hv e = absurd (not-Lacks-middle c s u (rw (sym (∷-tail e)) at hv))
cut_unique c (x ∷ s) (y ∷ t) u v hu hv e =
    let (p, q) = cut_unique c s t u v hu hv (∷-tail e) in (cc, q)
