-- ===== src/Prelude/Assoc.antt =====
-- A Go map as an association list: read, assignment, `delete` and `len`. A map holds a key once.
use Prim.Native.Nat.{◌+◌, ◌≤◌}
use mathlib.Core.List.{List, [], ◌∷◌, lookup}
use mathlib.Core.Logic.{◌≢◌, ite, if_pos, if_neg, inl, inr}
use mathlib.Core.Option.{none, some}
use mathlib.Core.Path.{◌≡◌, refl, sym, ap, ◌∙◌}
use native.Mathlib.Omega.{arith}
use dns_cache.Prelude.Lists.{length, All, In}

module _ {ℓ} {K V : Type ℓ} (dec : Discrete K) where
  -- `m[k] = v`
  unfoldable pub store : K → V → List (K × V) → List (K × V)
  store k v [] = (k, v) ∷ []
  store k v ((j, w) ∷ m) = ite (dec k j) ((k, v) ∷ m) ((j, w) ∷ store k v m)

  -- `delete(m, k)`
  unfoldable pub remove : K → List (K × V) → List (K × V)
  remove k [] = []
  remove k ((j, w) ∷ m) = ite (dec k j) (remove k m) ((j, w) ∷ remove k m)

  abbrev pub Distinct : List (K × V) → Type ℓ
  Distinct [] = Unit
  Distinct ((j, w) ∷ m) = (lookup dec j m ≡ none) × Distinct m

  pub lookup-store :
      (k j : K) (v : V) (m : List (K × V))
      → lookup dec j (store k v m) ≡ ite (dec k j) (some v) (lookup dec j m)
  unfolding lookup store
  lookup-store k j v [] = ground arith
  lookup-store k j v ((i, w) ∷ m) = ground (arith, lookup-store k j v m)

  pub lookup-store_self : (k : K) (v : V) (m : List (K × V)) → lookup dec k (store k v m) ≡ some v
  lookup-store_self k v m = rw (lookup-store k k v m) (if_pos (dec k k) refl _ _)

  pub lookup-store_ne :
      (k j : K) (v : V) (m : List (K × V)) → k ≢ j → lookup dec j (store k v m) ≡ lookup dec j m
  lookup-store_ne k j v m h = rw (lookup-store k j v m) (if_neg (dec k j) h _ _)

  pub lookup-remove_self : (k : K) (m : List (K × V)) → lookup dec k (remove k m) ≡ none
  unfolding lookup remove
  lookup-remove_self k [] = refl
  lookup-remove_self k ((i, w) ∷ m) = ground (arith, lookup-remove_self k m)

  pub lookup-remove_ne :
      (k j : K) (m : List (K × V)) → k ≢ j → lookup dec j (remove k m) ≡ lookup dec j m
  unfolding lookup remove
  lookup-remove_ne k j [] h = refl
  lookup-remove_ne k j ((i, w) ∷ m) h = ground (arith, lookup-remove_ne k j m)

  -- Removing a key brings no key in.
  pub lookup-remove-none :
      (k j : K) (m : List (K × V)) → lookup dec j m ≡ none → lookup dec j (remove k m) ≡ none
  unfolding lookup remove
  lookup-remove-none k j [] h = refl
  lookup-remove-none k j ((i, w) ∷ m) h = ground (arith, lookup-remove-none k j m)

  pub remove_absent : (k : K) (m : List (K × V)) → lookup dec k m ≡ none → remove k m ≡ m
  unfolding lookup remove
  remove_absent k [] h = refl
  remove_absent k ((i, w) ∷ m) h = ground (arith, remove_absent k m)

  pub length-store_new :
      (k : K) (v : V) (m : List (K × V))
      → lookup dec k m ≡ none
      → length (store k v m) ≡ length m + 1
  unfolding lookup store
  length-store_new k v [] h = omega arith
  length-store_new k v ((i, w) ∷ m) h = ground (arith, length-store_new k v m)

  pub length-store_old :
      (k : K) (v w : V) (m : List (K × V))
      → lookup dec k m ≡ some w
      → length (store k v m) ≡ length m
  unfolding lookup store
  length-store_old k v w [] h = absurd (ground arith)
  length-store_old k v w ((i, x) ∷ m) h = ground (arith, length-store_old k v w m)

  pub length-remove-le : (k : K) (m : List (K × V)) → length (remove k m) ≤ length m
  unfolding remove
  length-remove-le k [] = omega arith
  length-remove-le k ((i, x) ∷ m) = ground (arith, length-remove-le k m)

  pub length-remove :
      (k : K) (w : V) (m : List (K × V))
      → Distinct m
      → lookup dec k m ≡ some w
      → length (remove k m) + 1 ≡ length m
  unfolding lookup remove
  length-remove k w [] d h = absurd (ground arith)
  length-remove k w ((i, x) ∷ m) d h = ground (arith, length-remove k w m, remove_absent k m)

  pub store-Distinct : (k : K) (v : V) (m : List (K × V)) → Distinct m → Distinct (store k v m)
  unfolding lookup store
  store-Distinct k v [] d = (refl, tt)
  store-Distinct k v ((i, w) ∷ m) d =
      ground (arith, store-Distinct k v m d.1, lookup-store_ne k i v m)

  pub remove-Distinct : (k : K) (m : List (K × V)) → Distinct m → Distinct (remove k m)
  unfolding remove
  remove-Distinct k [] d = tt
  remove-Distinct k ((i, w) ∷ m) d =
      ground (arith, remove-Distinct k m d.1, lookup-remove-none k i m)

  -- A predicate on every value stored survives an assignment of a value that has it.
  pub All-store {κ} :
      (P : K × V → Type κ) (k : K) (v : V) (m : List (K × V))
      → P (k, v)
      → All P m
      → All P (store k v m)
  unfolding store
  All-store P k v [] h a = (h, tt)
  All-store P k v ((i, w) ∷ m) h a = elim (dec k i) [
    | yes p ↦ rw (if_pos _ p) (h, a.1)
    | no p ↦ rw (if_neg _ p) (a.0, All-store P k v m h a.1)
  ]

  pub All-remove {κ} :
      (P : K × V → Type κ) (k : K) (m : List (K × V)) → All P m → All P (remove k m)
  unfolding remove
  All-remove P k [] a = tt
  All-remove P k ((i, w) ∷ m) a = elim (dec k i) [
    | yes p ↦ rw (if_pos _ p) (All-remove P k m a.1)
    | no p ↦ rw (if_neg _ p) (a.0, All-remove P k m a.1)
  ]

-- What holds of every pair of a map holds of a pair that is found.
pub All-lookup {κ} :
    {K V : Type 0} (dec : Discrete K) (P : K × V → Type κ) (k : K) (v : V) (m : List (K × V))
    → All P m
    → lookup dec k m ≡ some v
    → P (k, v)
unfolding lookup
All-lookup dec P k v [] a h = absurd (ground arith)
All-lookup dec P k v ((i, w) ∷ m) a h = elim (dec k i) [
  | yes p ↦ let same : w ≡ v = ground arith in rw (p, ← same) a.0
  | no p ↦ All-lookup dec P k v m a.1 (ground arith)
]

-- What stands in a map is found, and what is found stands in it.
pub In-lookup :
    {K V : Type 0} (dec : Discrete K) (k : K) (v : V) (m : List (K × V))
    → Distinct dec m
    → In (k, v) m
    → lookup dec k m ≡ some v
unfolding lookup
In-lookup dec k v [] d h = absurd h
In-lookup dec k v ((i, w) ∷ m) d (inl e) =
    let same : k ≡ i = ap (λ (p : _ × _). p.0) e in
    let value : v ≡ w = ap (λ (p : _ × _). p.1) e in if_pos (dec k i) same _ _ ∙ ap some (sym value)
In-lookup dec k v ((i, w) ∷ m) d (inr h) =
    let found = In-lookup dec k v m d.1 h in
    elim (dec k i) [
      | yes p ↦ let clash = sym d.0 ∙ rw p at found in absurd (ground arith)
      | no p ↦ if_neg (dec k i) p _ _ ∙ found
    ]

pub lookup-In :
    {K V : Type 0} (dec : Discrete K) (k : K) (v : V) (m : List (K × V))
    → lookup dec k m ≡ some v
    → In (k, v) m
unfolding lookup
lookup-In dec k v [] h = absurd (ground arith)
lookup-In dec k v ((i, w) ∷ m) h = elim (dec k i) [
  | yes p ↦ let same : v ≡ w = ground arith in inl (cc (p, same))
  | no p ↦ inr (lookup-In dec k v m (ground arith))
]
