-- ===== src/Concrete/Wire.antt =====
-- A plain encoding of texts and byte strings as lists of numbers, with its decoding.
use Prim.Native.Char.{Char, char, code, nul, IsLt, IsScalar}
use Prim.Native.Nat.{compare, Ordering}
use nola.Base.{ℕ, zero, suc, String, ◌≡◌, refl, ap, [], ◌∷◌, ◌++◌, Option, none, some, Bytes}
use text.Mathlib.TextEquality.{Char-path}

-- `IsScalar`, case by case.
abbrev Above : Ordering → Ordering → Type 0
Above Ordering.lt o = IsLt o
Above Ordering.eq _ = ⊥
Above Ordering.gt _ = ⊥

abbrev Scalar : Ordering → Ordering → Ordering → Type 0
Scalar Ordering.lt _ _ = Unit
Scalar Ordering.eq o p = Above o p
Scalar Ordering.gt o p = Above o p

dec_is_lt : (o : Ordering) → Dec (IsLt o)
dec_is_lt Ordering.lt = yes tt
dec_is_lt Ordering.eq = no (λ h. h)
dec_is_lt Ordering.gt = no (λ h. h)

dec_above : (o p : Ordering) → Dec (Above o p)
unfolding dec_is_lt
dec_above Ordering.lt p = dec_is_lt p
dec_above Ordering.eq p = no (λ h. h)
dec_above Ordering.gt p = no (λ h. h)

dec_scalar : (o p q : Ordering) → Dec (Scalar o p q)
unfolding dec_above
dec_scalar Ordering.lt p q = yes tt
dec_scalar Ordering.eq p q = dec_above p q
dec_scalar Ordering.gt p q = dec_above p q

char_if : (n : ℕ) → Dec (IsScalar n) → Char
char_if n (yes p) = char n p
char_if n (no _) = nul

char_of : ℕ → Char
unfolding char_if dec_scalar
char_of n = char_if n (dec_scalar (compare n 55296) (compare 57343 n) (compare n 1114112))

char_if-code : (n : ℕ) (p : IsScalar n) (d : Dec (IsScalar n)) → char_if n d ≡ char n p
unfolding char_if
char_if-code n p (yes q) = Char-path (char n q) (char n p) refl
char_if-code n p (no q) = absurd (q p)

char_of-code : (c : Char) → char_of (code c) ≡ c
unfolding char_of
char_of-code (char n p) = char_if-code n p _

unfoldable pub put_text : String → Bytes → Bytes
put_text String.[] r = 0 ∷ r
put_text (String.◌∷◌ c s) r = suc (code c) ∷ put_text s r

abbrev more_text : Char → Option (String × Bytes) → Option (String × Bytes)
more_text c none = none
more_text c (some (s, r)) = some (String.◌∷◌ c s, r)

unfoldable pub take_text : Bytes → Option (String × Bytes)
unfolding char_of
take_text [] = none
take_text (zero ∷ r) = some (String.[], r)
take_text (suc n ∷ r) = more_text (char_of n) (take_text r)

pub take-put_text : (s : String) (r : Bytes) → take_text (put_text s r) ≡ some (s, r)
unfolding put_text take_text
take-put_text String.[] r = refl
take-put_text (String.◌∷◌ c s) r = rw (char_of-code c, take-put_text s r)

unfoldable pub put_bytes : Bytes → Bytes → Bytes
put_bytes [] r = 0 ∷ r
put_bytes (b ∷ s) r = suc b ∷ put_bytes s r

abbrev more_bytes : ℕ → Option (Bytes × Bytes) → Option (Bytes × Bytes)
more_bytes b none = none
more_bytes b (some (s, r)) = some (b ∷ s, r)

unfoldable pub take_bytes : Bytes → Option (Bytes × Bytes)
take_bytes [] = none
take_bytes (zero ∷ r) = some ([], r)
take_bytes (suc n ∷ r) = more_bytes n (take_bytes r)

pub take-put_bytes : (s : Bytes) (r : Bytes) → take_bytes (put_bytes s r) ≡ some (s, r)
unfolding put_bytes take_bytes
take-put_bytes [] r = refl
take-put_bytes (b ∷ s) r = rw (take-put_bytes s r)

pub put_text-append : (s : String) (r q : Bytes) → put_text s (r ++ q) ≡ put_text s r ++ q
unfolding put_text
put_text-append String.[] r q = refl
put_text-append (String.◌∷◌ c s) r q = ap (◌∷◌ (suc (code c))) (put_text-append s r q)

pub put_bytes-append : (s : Bytes) (r q : Bytes) → put_bytes s (r ++ q) ≡ put_bytes s r ++ q
unfolding put_bytes
put_bytes-append [] r q = refl
put_bytes-append (b ∷ s) r q = ap (◌∷◌ (suc b)) (put_bytes-append s r q)
