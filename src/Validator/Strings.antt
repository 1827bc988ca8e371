-- ===== src/Validator/Strings.antt =====
-- `validateString` of virtual/registry/validator.go, with `strings.TrimSpace`. A Go string is a text;
-- `len` counts its bytes.
use Prim.Native.Char.{Char, code, len_utf8}
use Prim.Native.String.{String}
use text.Mathlib.TextPositions.{len_utf8-pos}
use nola.Base.{
  ℕ, ◌+◌, ◌≤◌, ◌<◌, ◌≡◌, ◌≢◌, ◌↔◌, inl, inr, refl, sym, ap, ◌∙◌, str_eq, str_eq_iff, str_eq_ne,
  Bool, Bool-cases, false, not, ◌||◌, ◌&&◌, ltb, leb, ◌==◌, List, [], ◌∷◌, Result, ok, ◌>>=◌, ◌>>◌,
  fail_if, fail_if-eq-ok, from_bind, if◌then◌else◌, arith,
}
use nola.Types.{Error}

abbrev pub chars : String → List Char
chars String.[] = []
chars (String.◌∷◌ c s) = c ∷ chars s

abbrev pub byte_len : List Char → ℕ
byte_len [] = 0
byte_len (c ∷ l) = len_utf8 c + byte_len l

-- `unicode.IsSpace`.
unfoldable pub is_space : ℕ → Bool
is_space c =
    (leb 9 c && leb c 13)
    || c == 32
    || c == 0x85
    || c == 0xa0
    || c == 0x1680
    || (leb 0x2000 c && leb c 0x200a)
    || c == 0x2028
    || c == 0x2029
    || c == 0x202f
    || c == 0x205f
    || c == 0x3000

unfoldable pub trim_left : List Char → List Char
trim_left [] = []
trim_left (c ∷ l) = let rest = trim_left l in if is_space (code c) then rest else c ∷ l

-- A last character after what is left of the others.
abbrev pub keep_char : Char → List Char → List Char
keep_char c [] = if is_space (code c) then [] else c ∷ []
keep_char c (d ∷ l) = c ∷ d ∷ l

unfoldable pub trim_right : List Char → List Char
trim_right [] = []
trim_right (c ∷ l) = keep_char c (trim_right l)

unfoldable pub trim_space : List Char → List Char
unfolding trim_left trim_right
trim_space l = trim_right (trim_left l)

unfoldable pub validate_string : String → Result Error (Unit {0})
validate_string x = do
  fail_if (str_eq x "") Error.empty_argument
  fail_if (ltb 128 (byte_len (chars x))) Error.argument_too_long
  fail_if (not (byte_len (trim_space (chars x)) == byte_len (chars x)))
      Error.argument_has_whitespace
  ok tt

-- The first and the last character, if there is one, is no space.
abbrev pub StartsInk : List Char → Type 0
StartsInk [] = Unit
StartsInk (c ∷ l) = is_space (code c) ≡ false

abbrev pub EndsInk : List Char → Type 0
EndsInk [] = Unit
EndsInk (c ∷ []) = is_space (code c) ≡ false
EndsInk (c ∷ d ∷ l) = EndsInk (d ∷ l)

char_size : (c : Char) → 0 < len_utf8 c
char_size c = let (k, e) = len_utf8-pos c in omega (arith, e)

trim_left-le : (l : List Char) → byte_len (trim_left l) ≤ byte_len l
unfolding trim_left
trim_left-le [] = omega arith
trim_left-le (c ∷ l) = elim (Bool-cases (is_space (code c))) [
  | inl space ↦ rw space (omega (arith, trim_left-le l))
  | inr ink ↦ rw ink (omega arith)
]

trim_left_kept : (l : List Char) → StartsInk l → trim_left l ≡ l
unfolding trim_left
trim_left_kept [] h = refl
trim_left_kept (c ∷ l) h = rw h refl

trim_left_full : (l : List Char) → byte_len l ≤ byte_len (trim_left l) → StartsInk l
unfolding trim_left
trim_left_full [] h = tt
trim_left_full (c ∷ l) h = elim (Bool-cases (is_space (code c))) [
  | inl space ↦
      let shorter : byte_len (trim_left (c ∷ l)) ≡ byte_len (trim_left l) = rw space refl in
      absurd (omega (arith, char_size c, trim_left-le l, h, shorter))
  | inr ink ↦ ink
]

keep_char-le : (c : Char) (l : List Char) → byte_len (keep_char c l) ≤ len_utf8 c + byte_len l
keep_char-le c [] = elim (Bool-cases (is_space (code c))) [
  | inl space ↦ rw space (omega arith)
  | inr ink ↦ rw ink (omega arith)
]
keep_char-le c (d ∷ l) = omega arith

trim_right-le : (l : List Char) → byte_len (trim_right l) ≤ byte_len l
unfolding trim_right
trim_right-le [] = omega arith
trim_right-le (c ∷ l) = omega (arith, keep_char-le c (trim_right l), trim_right-le l)

trim_right_kept : (l : List Char) → EndsInk l → trim_right l ≡ l
unfolding trim_right
trim_right_kept [] h = refl
trim_right_kept (c ∷ []) h = rw h refl
trim_right_kept (c ∷ d ∷ l) h = rw (trim_right_kept (d ∷ l) h) refl

trim_right_full : (l : List Char) → byte_len l ≤ byte_len (trim_right l) → EndsInk l
unfolding trim_right
trim_right_full [] h = tt
trim_right_full (c ∷ []) h = elim (Bool-cases (is_space (code c))) [
  | inl space ↦
      let gone : byte_len (trim_right (c ∷ [])) ≡ 0 = rw space refl in
      absurd (omega (arith, char_size c, h, gone))
  | inr ink ↦ ink
]
trim_right_full (c ∷ d ∷ l) h =
    trim_right_full (d ∷ l) (omega (arith, h, keep_char-le c (trim_right (d ∷ l))))

trim_space_kept : (l : List Char) → StartsInk l → EndsInk l → trim_space l ≡ l
unfolding trim_space
trim_space_kept l first last = ap trim_right (trim_left_kept l first) ∙ trim_right_kept l last

trim_space_full : (l : List Char) → byte_len (trim_space l) ≡ byte_len l → StartsInk l × EndsInk l
unfolding trim_space
trim_space_full l same =
    let first : StartsInk l = trim_left_full l (omega (arith, trim_right-le (trim_left l), same)) in
    let alone : byte_len (trim_right l) ≡ byte_len l =
      ap (λ k. byte_len (trim_right k)) (sym (trim_left_kept l first)) ∙ same in
    (first, trim_right_full l (omega (arith, alone)))

-- A string that the registry takes: not empty, of at most 128 bytes, with no space at its ends.
pub record IsValid (x : String) : Type 0 where
  pub nonempty : x ≢ ""
  pub short : byte_len (chars x) ≤ 128
  pub first : StartsInk (chars x)
  pub last : EndsInk (chars x)

at_most : (n : ℕ) → ltb 128 n ≡ false → n ≤ 128
at_most n h = ground (arith, h)

not_above : (n : ℕ) → n ≤ 128 → ltb 128 n ≡ false
not_above n h = ground (arith, h)

equal_sizes : (a b : ℕ) → not (a == b) ≡ false → a ≡ b
equal_sizes a b h = ground (arith, h)

not_unequal : (a b : ℕ) → a ≡ b → not (a == b) ≡ false
not_unequal a b h = ground (arith, h)

from_validate : (x : String) → validate_string x ≡ ok tt → IsValid x
unfolding validate_string
from_validate x h = from_bind _ _ h λ _ e1 h1. from_bind _ _ h1 λ _ e2 h2.
    from_bind _ _ h2 λ _ e3 _.
      let (first, last) = trim_space_full (chars x) (equal_sizes _ _ (fail_if-eq-ok _ _ e3)) in
      record {
        nonempty = λ e. cc ((str_eq_iff x "").1 e, fail_if-eq-ok _ _ e1);
        short = at_most _ (fail_if-eq-ok _ _ e2);
        first = first;
        last = last;
      }

to_validate : (x : String) → IsValid x → validate_string x ≡ ok tt
unfolding validate_string ◌>>=◌
to_validate x v =
    rw
      (
        str_eq_ne x "" v.nonempty,
        not_above (byte_len (chars x)) v.short,
        not_unequal _ _ (ap byte_len (trim_space_kept (chars x) v.first v.last)),
      )
      refl

-- `validateString` accepts exactly the strings that are not empty, have at most 128 bytes, and
-- neither begin nor end with a space character.
pub validate_string-eq-ok_iff : (x : String) → (validate_string x ≡ ok tt) ↔ IsValid x
validate_string-eq-ok_iff x = (from_validate x, to_validate x)
