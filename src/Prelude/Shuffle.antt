-- ===== src/Prelude/Shuffle.antt =====
-- Lists in another order, and properties of each two elements of a list.
use mathlib.Core.List.{append_assoc}
use Prim.Native.Nat.{ℕ, zero, suc}
use mathlib.Core.List.{List, [], ◌∷◌, ◌++◌, map}
use mathlib.Core.Logic.{inl, inr}
use mathlib.Core.Path.{refl}
use dns_cache.Prelude.Lists.{All, In, take, All-take}

-- An order that comes from another by swaps of neighbours
pub data Shuffle {A : Type 0} : List A → List A → Type 0 where
  as_is : (xs : List A) → Shuffle xs xs
  first : (x : A) {xs ys : List A} → Shuffle xs ys → Shuffle (x ∷ xs) (x ∷ ys)
  swap : (x y : A) (xs : List A) → Shuffle (x ∷ y ∷ xs) (y ∷ x ∷ xs)
  then_shuffle : {xs ys zs : List A} → Shuffle xs ys → Shuffle ys zs → Shuffle xs zs

-- A relation between each element and each later one
abbrev pub Pairwise : {A : Type 0} → (A → A → Type 0) → List A → Type 0
Pairwise R [] = Unit
Pairwise R (x ∷ xs) = All (R x) xs × Pairwise R xs

module _ {A : Type 0} where
  -- The last one moves to the front, and back.
  pub last_first : (x : A) (xs : List A) → Shuffle (xs ++ (x ∷ [])) (x ∷ xs)
  last_first x [] = as_is (x ∷ [])
  last_first x (y ∷ xs) = then_shuffle (first y (last_first x xs)) (swap y x xs)

  first_last : (x : A) (xs : List A) → Shuffle (x ∷ xs) (xs ++ (x ∷ []))
  first_last x [] = as_is (x ∷ [])
  first_last x (y ∷ xs) = then_shuffle (swap x y xs) (first y (first_last x xs))

  -- One of the first list moves to the end of the second.
  pub moved :
      (before : List A) (x : A) (after ends : List A)
      → Shuffle ((before ++ (x ∷ after)) ++ ends) ((before ++ after) ++ (ends ++ (x ∷ [])))
  moved [] x after ends = rw (← append_assoc after ends (x ∷ [])) (first_last x (after ++ ends))
  moved (y ∷ before) x after ends = first y (moved before x after ends)

  pub Shuffle-All : (P : A → Type 0) {xs ys : List A} → Shuffle xs ys → All P xs → All P ys
  Shuffle-All P (as_is xs) a = a
  Shuffle-All P (first x r) a = (a.0, Shuffle-All P r a.1)
  Shuffle-All P (swap x y xs) a = (a.1.0, (a.0, a.1.1))
  Shuffle-All P (then_shuffle r s) a = Shuffle-All P s (Shuffle-All P r a)

  pub Shuffle-Pairwise :
      (R : A → A → Type 0)
      → ((x y : A) → R x y → R y x)
      → {xs ys : List A} → Shuffle xs ys
      → Pairwise R xs
      → Pairwise R ys
  Shuffle-Pairwise R flip (as_is xs) a = a
  Shuffle-Pairwise R flip (first x r) a = (Shuffle-All (R x) r a.0, Shuffle-Pairwise R flip r a.1)
  Shuffle-Pairwise R flip (swap x y xs) a = ((flip x y a.0.0, a.1.0), (a.0.1, a.1.1))
  Shuffle-Pairwise R flip (then_shuffle r s) a =
      Shuffle-Pairwise R flip s (Shuffle-Pairwise R flip r a)

  pub All-start : (P : A → Type 0) (xs ys : List A) → All P (xs ++ ys) → All P xs
  All-start P [] ys a = tt
  All-start P (x ∷ xs) ys a = (a.0, All-start P xs ys a.1)

  pub Pairwise-start : (R : A → A → Type 0) (xs ys : List A) → Pairwise R (xs ++ ys) → Pairwise R xs
  Pairwise-start R [] ys a = tt
  Pairwise-start R (x ∷ xs) ys a = (All-start (R x) xs ys a.0, Pairwise-start R xs ys a.1)

  pub Pairwise-take :
      (R : A → A → Type 0) (n : ℕ) (xs : List A) → Pairwise R xs → Pairwise R (take n xs)
  Pairwise-take R zero xs a = tt
  Pairwise-take R (suc n) [] a = tt
  Pairwise-take R (suc n) (x ∷ xs) a = (All-take (R x) n xs a.0, Pairwise-take R n xs a.1)

  pub All-of_In : (P : A → Type 0) (xs : List A) → ((x : A) → In x xs → P x) → All P xs
  All-of_In P [] f = tt
  All-of_In P (x ∷ xs) f = (f x (inl refl), All-of_In P xs (λ y m. f y (inr m)))

module _ {A B : Type 0} (f : A → B) where
  pub All-map : (P : B → Type 0) (xs : List A) → All (λ x. P (f x)) xs → All P (map f xs)
  All-map P [] a = tt
  All-map P (x ∷ xs) a = (a.0, All-map P xs a.1)

  pub All-of_map : (P : B → Type 0) (xs : List A) → All P (map f xs) → All (λ x. P (f x)) xs
  All-of_map P [] a = tt
  All-of_map P (x ∷ xs) a = (a.0, All-of_map P xs a.1)

  pub Pairwise-map :
      (R : B → B → Type 0) (xs : List A)
      → Pairwise (λ x y. R (f x) (f y)) xs
      → Pairwise R (map f xs)
  Pairwise-map R [] a = tt
  Pairwise-map R (x ∷ xs) a = (All-map (R (f x)) xs a.0, Pairwise-map R xs a.1)

  pub Pairwise-of_map :
      (R : B → B → Type 0) (xs : List A)
      → Pairwise R (map f xs)
      → Pairwise (λ x y. R (f x) (f y)) xs
  Pairwise-of_map R [] a = tt
  Pairwise-of_map R (x ∷ xs) a = (All-of_map (R (f x)) xs a.0, Pairwise-of_map R xs a.1)
