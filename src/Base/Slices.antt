-- ===== src/Base/Slices.antt =====
-- `take` and `drop` together: the laws of slices.
use Prim.Native.Nat.{ℕ, zero, suc, ◌+◌, ◌-◌, ◌≤◌}
use mathlib.Core.Path.{◌≡◌, refl, sym, ap, ◌∙◌}
use mathlib.Core.List.{List, [], ◌∷◌, ◌++◌}
use native.Mathlib.Omega.{arith}
use nola.Base.Lists.{length, take, drop}

suc_add : (m n : ℕ) → suc (m + n) ≡ suc m + n
suc_add m n = omega arith

module _ {ℓ} {A : Type ℓ} where
  nil_drop : (n : ℕ) → ◌≡◌ {A = List A} (drop n []) []
  nil_drop zero = refl
  nil_drop (suc n) = refl

  nil_take : (n : ℕ) → ◌≡◌ {A = List A} (take n []) []
  nil_take zero = refl
  nil_take (suc n) = refl

  pub drop-drop : (m n : ℕ) (l : List A) → drop n (drop m l) ≡ drop (m + n) l
  drop-drop zero n l = ap (λ k. drop k l) (omega arith)
  drop-drop (suc m) n [] = nil_drop n ∙ sym (nil_drop (suc m + n))
  drop-drop (suc m) n (x ∷ l) = drop-drop m n l ∙ ap (λ k. drop k (x ∷ l)) (suc_add m n)

  pub take-take : (m n : ℕ) (l : List A) → m ≤ n → take m (take n l) ≡ take m l
  take-take zero n l h = refl
  take-take (suc m) zero l h = absurd (omega (arith, h))
  take-take (suc m) (suc n) [] h = refl
  take-take (suc m) (suc n) (x ∷ l) h = ap (λ t. x ∷ t) (take-take m n l (omega arith))

  pub drop-take : (m n : ℕ) (l : List A) → drop m (take (m + n) l) ≡ take n (drop m l)
  drop-take zero n l = ap (λ k. take k l) (omega arith)
  drop-take (suc m) n [] = ap (λ t. drop (suc m) t) (nil_take (suc m + n)) ∙ sym (nil_take n)
  drop-take (suc m) n (x ∷ l) =
      ap (λ k. drop (suc m) (take k (x ∷ l))) (sym (suc_add m n)) ∙ drop-take m n l

  pub take-append_left : (n : ℕ) (l r : List A) → n ≤ length l → take n (l ++ r) ≡ take n l
  take-append_left zero l r h = refl
  take-append_left (suc n) [] r h = absurd (omega (arith, h))
  take-append_left (suc n) (x ∷ l) r h = ap (λ t. x ∷ t) (take-append_left n l r (omega (arith, h)))

  pub drop-append_left : (n : ℕ) (l r : List A) → n ≤ length l → drop n (l ++ r) ≡ drop n l ++ r
  drop-append_left zero l r h = refl
  drop-append_left (suc n) [] r h = absurd (omega (arith, h))
  drop-append_left (suc n) (x ∷ l) r h = drop-append_left n l r (omega (arith, h))

  pub length-drop : (n : ℕ) (l : List A) → length (drop n l) ≡ length l - n
  length-drop zero l = omega arith
  length-drop (suc n) [] = omega arith
  length-drop (suc n) (x ∷ l) = omega (arith, length-drop n l)

  pub length-take : (n : ℕ) (l : List A) → n ≤ length l → length (take n l) ≡ n
  length-take zero l h = refl
  length-take (suc n) [] h = absurd (omega (arith, h))
  length-take (suc n) (x ∷ l) h = omega (arith, length-take n l (omega (arith, h)))

  pub take_all : (n : ℕ) (l : List A) → length l ≤ n → take n l ≡ l
  take_all zero [] h = refl
  take_all zero (x ∷ l) h = absurd (omega (arith, h))
  take_all (suc n) [] h = refl
  take_all (suc n) (x ∷ l) h = ap (λ t. x ∷ t) (take_all n l (omega (arith, h)))

  -- Two slices that follow on one another.
  pub take-add : (m n : ℕ) (l : List A) → take m l ++ take n (drop m l) ≡ take (m + n) l
  take-add zero n l = ap (λ k. take k l) (omega arith)
  take-add (suc m) n [] = nil_take n ∙ sym (nil_take (suc m + n))
  take-add (suc m) n (x ∷ l) =
      ap (λ t. x ∷ t) (take-add m n l) ∙ ap (λ k. take k (x ∷ l)) (suc_add m n)

  pub take-append-drop : (n : ℕ) (l : List A) → take n l ++ drop n l ≡ l
  take-append-drop zero l = refl
  take-append-drop (suc n) [] = refl
  take-append-drop (suc n) (x ∷ l) = ap (λ t. x ∷ t) (take-append-drop n l)

  pub drop-append_length : (l r : List A) → drop (length l) (l ++ r) ≡ r
  drop-append_length [] r = refl
  drop-append_length (x ∷ l) r = drop-append_length l r

  pub take-append_length : (l r : List A) → take (length l) (l ++ r) ≡ l
  take-append_length [] r = refl
  take-append_length (x ∷ l) r = ap (λ t. x ∷ t) (take-append_length l r)
