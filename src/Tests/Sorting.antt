-- ===== src/Tests/Sorting.antt =====
-- Sorting by insertion, as a stand-in for `sort.Slice`.
use dns_cache.Prelude.{
  ◌+◌, ◌≡◌, refl, arith, ◌↔◌, ◌⊎◌, inl, inr, Bool, true, false, List, [], ◌∷◌, if◌then◌else◌,
  length, In, All, Bool-cases,
}
use dns_cache.Prelude.Shuffle.{Shuffle, as_is, first, swap, then_shuffle}
use dns_cache.Refresher.{Sorted, SortSlice}

module _ {A : Type 0} (lt : A → A → Bool) where
  abbrev pub insert : A → List A → List A
  insert x [] = x ∷ []
  insert x (y ∷ l) = let rest = insert x l in if lt y x then y ∷ rest else x ∷ y ∷ l

  abbrev pub sort : List A → List A
  sort [] = []
  sort (x ∷ l) = insert x (sort l)

  insert-In :
      (x z : A) (l : List A)
      → (In z (insert x l) → (z ≡ x) ⊎ In z l) × ((z ≡ x) ⊎ In z l → In z (insert x l))
  insert-In x z [] = (λ m. m, λ m. m)
  insert-In x z (y ∷ l) =
      let (there, back) = insert-In x z l in
      elim (Bool-cases (lt y x)) [
        | inl before ↦ rw before (
          λ m. elim m [
            | inl e ↦ inr (inl e)
            | inr n ↦ elim (there n) [ inl e ↦ inl e | inr k ↦ inr (inr k) ]
          ],
          λ m. elim m [
            | inl e ↦ inr (back (inl e))
            | inr (inl e) ↦ inl e
            | inr (inr k) ↦ inr (back (inr k))
          ],
        )
        | inr after ↦ rw after (λ m. m, λ m. m)
      ]

  pub sort-In : (z : A) (l : List A) → In z (sort l) ↔ In z l
  sort-In z [] = (λ m. m, λ m. m)
  sort-In z (x ∷ l) =
      let (there, back) = insert-In x z (sort l) in
      let (more, less) = sort-In z l in
      (
        λ m. elim (there m) [ inl e ↦ inl e | inr n ↦ inr (more n) ],
        λ m. back (elim m [ inl e ↦ inl e | inr n ↦ inr (less n) ]),
      )

  insert-length : (x : A) (l : List A) → length (insert x l) ≡ length l + 1
  insert-length x [] = omega arith
  insert-length x (y ∷ l) = ground (arith, insert-length x l)

  insert-Shuffle : (x : A) (l : List A) → Shuffle (x ∷ l) (insert x l)
  insert-Shuffle x [] = as_is (x ∷ [])
  insert-Shuffle x (y ∷ l) = elim (Bool-cases (lt y x)) [
    | inl before ↦ rw before (then_shuffle (swap x y l) (first y (insert-Shuffle x l)))
    | inr after ↦ rw after (as_is (x ∷ y ∷ l))
  ]

  pub sort-Shuffle : (l : List A) → Shuffle l (sort l)
  sort-Shuffle [] = as_is []
  sort-Shuffle (x ∷ l) = then_shuffle (first x (sort-Shuffle l)) (insert-Shuffle x (sort l))

  pub sort-length : (l : List A) → length (sort l) ≡ length l
  sort-length [] = refl
  sort-length (x ∷ l) = omega (arith, insert-length x (sort l), sort-length l)

  module _ (asym : (x y : A) → lt x y ≡ true → lt y x ≡ false)
      (trans : (x y z : A) → lt x y ≡ false → lt y z ≡ false → lt x z ≡ false) where
    All-insert : (P : A → Type 0) (x : A) (l : List A) → P x → All P l → All P (insert x l)
    All-insert P x [] p a = (p, tt)
    All-insert P x (y ∷ l) p a = elim (Bool-cases (lt y x)) [
      | inl before ↦ rw before (a.0, All-insert P x l p a.1)
      | inr after ↦ rw after (p, a)
    ]

    All-after :
        (x y : A) (l : List A)
        → lt y x ≡ false
        → All (λ z. lt z y ≡ false) l
        → All (λ z. lt z x ≡ false) l
    All-after x y [] h a = tt
    All-after x y (z ∷ l) h a = (trans z y x a.0 h, All-after x y l h a.1)

    insert-Sorted : (x : A) (l : List A) → Sorted lt l → Sorted lt (insert x l)
    insert-Sorted x [] s = (tt, tt)
    insert-Sorted x (y ∷ l) s = elim (Bool-cases (lt y x)) [
      | inl before ↦
          rw before
            (All-insert (λ z. lt z y ≡ false) x l (asym y x before) s.0, insert-Sorted x l s.1)
      | inr after ↦ rw after ((after, All-after x y l after s.0), s)
    ]

    pub sort-Sorted : (l : List A) → Sorted lt (sort l)
    sort-Sorted [] = tt
    sort-Sorted (x ∷ l) = insert-Sorted x (sort l) (sort-Sorted l)

unfoldable pub insertion : (A : Type 0) → SortSlice A
insertion A = record {
  sort_slice = sort;
  In-sort_slice = sort-In;
  length-sort_slice = sort-length;
  Shuffle-sort_slice = sort-Shuffle;
  sort_slice-Sorted = λ lt l asym trans. sort-Sorted lt asym trans l;
}
