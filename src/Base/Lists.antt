-- ===== src/Base/Lists.antt =====
-- Lists measured by native numbers, byte strings and their order of keys, predicates on lists.
use Prim.Native.Nat.{ℕ, zero, suc, ◌+◌}
use mathlib.Core.Path.{◌≡◌, refl, sym, subst}
use mathlib.Core.Logic.{◌≢◌, ◌↔◌, ◌⊎◌, inl, inr}
use mathlib.Core.Bool.{Bool, true, false, ◌&&◌}
use mathlib.Core.List.{List, [], ◌∷◌, ◌++◌}
use native.Mathlib.Omega.{arith}
use nola.Base.Tests.{◌==◌, Bool-cases}

module _ {ℓ} {A : Type ℓ} where
  abbrev pub length : List A → ℕ
  length [] = 0
  length (x ∷ xs) = suc (length xs)

  abbrev pub take : ℕ → List A → List A
  take zero xs = []
  take (suc n) [] = []
  take (suc n) (x ∷ xs) = x ∷ take n xs

  abbrev pub drop : ℕ → List A → List A
  drop zero xs = xs
  drop (suc n) [] = []
  drop (suc n) (x ∷ xs) = drop n xs

  pub length-append : (xs ys : List A) → length (xs ++ ys) ≡ length xs + length ys
  length-append [] ys = omega arith
  length-append (x ∷ xs) ys = omega (arith, length-append xs ys)

-- Every element has the property.
abbrev pub All {ℓ κ} : {A : Type ℓ} → (A → Type κ) → List A → Type κ
All P [] = Unit
All P (x ∷ xs) = P x × All P xs

-- An element stands in a list, at a place that is kept.
abbrev pub Elem : {A : Type 0} → A → List A → Type 0
Elem a [] = ⊥
Elem a (x ∷ xs) = (a ≡ x) ⊎ Elem a xs

-- What holds of all elements holds of one.
pub All-Elem : {A : Type 0} (P : A → Type 0) (e : A) (l : List A) → All P l → Elem e l → P e
All-Elem P e [] a m = absurd m
All-Elem P e (x ∷ l) a (inl same) = subst P (sym same) a.0
All-Elem P e (x ∷ l) a (inr m) = All-Elem P e l a.1 m

-- `[]byte`.
abbrev pub Bytes : Type 0
Bytes = List ℕ

-- `bytes.Equal`.
unfoldable pub bytes_eq : Bytes → Bytes → Bool
bytes_eq [] [] = true
bytes_eq (a ∷ x) (b ∷ y) = a == b && bytes_eq x y
bytes_eq _ _ = false

-- `bytes.HasPrefix(k, p)`.
unfoldable pub has_prefix : Bytes → Bytes → Bool
has_prefix k [] = true
has_prefix [] (b ∷ p) = false
has_prefix (a ∷ k) (b ∷ p) = a == b && has_prefix k p

bytes_eq_sound : (x y : Bytes) → bytes_eq x y ≡ true → x ≡ y
unfolding bytes_eq
bytes_eq_sound [] [] h = refl
bytes_eq_sound [] (b ∷ y) h = ground arith
bytes_eq_sound (a ∷ x) [] h = ground arith
bytes_eq_sound (a ∷ x) (b ∷ y) h = ground (arith, bytes_eq_sound x y)

pub bytes_eq_refl : (x : Bytes) → bytes_eq x x ≡ true
unfolding bytes_eq
bytes_eq_refl [] = refl
bytes_eq_refl (a ∷ x) = ground (arith, bytes_eq_refl x)

pub bytes_eq_iff : (x y : Bytes) → (bytes_eq x y ≡ true) ↔ (x ≡ y)
bytes_eq_iff x y = (bytes_eq_sound x y, λ e. rw e (bytes_eq_refl y))

pub bytes_eq_ne : (x y : Bytes) → x ≢ y → bytes_eq x y ≡ false
bytes_eq_ne x y ne = elim (Bool-cases (bytes_eq x y)) [
  | inl same ↦ absurd (ne (bytes_eq_sound x y same))
  | inr other ↦ other
]

pub has_prefix-append : (p x : Bytes) → has_prefix (p ++ x) p ≡ true
unfolding has_prefix
has_prefix-append [] x = refl
has_prefix-append (b ∷ p) x = ground (arith, has_prefix-append p x)
