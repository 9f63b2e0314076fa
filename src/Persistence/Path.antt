-- ===== src/Persistence/Path.antt =====
-- The directory of a path.
use mathlib.Core.Path.{subst}
use dns_cache.Prelude.{
  ℕ, zero, suc, ◌≤◌, ◌<◌, ◌≡◌, ◌≢◌, refl, sym, ap, ◌∙◌, arith, ◌⊎◌, inl, inr, [], ◌∷◌, ◌++◌, some,
  ◌==◌, ==_iff, All, take, length, get_elem?, Bool-cases,
}
use dns_cache.Prelude.Decimal.{Bytes}
use dns_cache.Persistence.{dir_loop, dir_of}

get_elem-inside : (i : ℕ) (p : Bytes) → i < length p → (c : ℕ) × (get_elem? p i ≡ some c)
get_elem-inside i [] h = absurd (omega (arith, h))
get_elem-inside zero (c ∷ p) h = (c, refl)
get_elem-inside (suc i) (c ∷ p) h = get_elem-inside i p (omega (arith, h))

take-suc : (i c : ℕ) (p : Bytes) → get_elem? p i ≡ some c → take (suc i) p ≡ take i p ++ c ∷ []
take-suc i c [] h = absurd (ground arith)
take-suc zero c (b ∷ p) h = ground arith
take-suc (suc i) c (b ∷ p) h = ap (λ l. b ∷ l) (take-suc i c p h)

take_all : (p : Bytes) → take (length p) p ≡ p
take_all [] = refl
take_all (c ∷ p) = ap (λ l. c ∷ l) (take_all p)

append_assoc : (k l m : Bytes) → (k ++ l) ++ m ≡ k ++ (l ++ m)
append_assoc [] l m = refl
append_assoc (c ∷ k) l m = ap (λ x. c ∷ x) (append_assoc k l m)

-- No byte is a slash.
abbrev pub IsPlain : Bytes → Type 0
IsPlain p = All (λ c. c ≢ b'/') p

append-IsPlain : (p : Bytes) (c : ℕ) → IsPlain p → c ≢ b'/' → IsPlain (p ++ c ∷ [])
append-IsPlain [] c a h = (h, tt)
append-IsPlain (b ∷ p) c a h = (a.0, append-IsPlain p c a.1 h)

-- The directory is what stands before the last slash of the path, or empty if there is none.
abbrev pub IsDir : Bytes → Bytes → Type 0
IsDir dir p = ((dir ≡ []) × IsPlain p) ⊎ ((file : Bytes) × (dir ++ b'/' ∷ file ≡ p) × IsPlain file)

IsDir-more : (dir p : Bytes) (c : ℕ) → c ≢ b'/' → IsDir dir p → IsDir dir (p ++ c ∷ [])
IsDir-more dir p c h (inl (e, a)) = inl (e, append-IsPlain p c a h)
IsDir-more dir p c h (inr (file, e, a)) =
    let longer : Bytes = file ++ c ∷ [] in
    let whole : dir ++ b'/' ∷ longer ≡ p ++ c ∷ [] =
      sym (append_assoc dir (b'/' ∷ file) (c ∷ [])) ∙ ap (λ l. l ++ c ∷ []) e in
    inr (longer, whole, append-IsPlain file c a h)

dir_loop-IsDir : (p : Bytes) (i : ℕ) → i ≤ length p → IsDir (dir_loop p i) (take i p)
unfolding dir_loop
dir_loop-IsDir p zero h = inl (refl, tt)
dir_loop-IsDir p (suc i) h =
    let (c, there) = get_elem-inside i p (omega (arith, h)) in
    let earlier = dir_loop-IsDir p i (omega (arith, h)) in
    rw (take-suc i c p there) (elim (Bool-cases (c == b'/')) [
      | inl slash ↦
          rw (there, slash)
            (inr ([], ap (λ x. take i p ++ x ∷ []) (sym ((==_iff _ _).0 slash)), tt))
      | inr other ↦ rw (there, other) (IsDir-more _ _ c (ground arith) earlier)
    ])

-- `dirOf` gives what stands before the last slash of the path, and nothing if there is no slash.
pub dir_of-IsDir : (p : Bytes) → IsDir (dir_of p) p
unfolding dir_of
dir_of-IsDir p =
    subst (λ q. IsDir (dir_loop p (length p)) q) (take_all p)
      (dir_loop-IsDir p (length p) (omega arith))
