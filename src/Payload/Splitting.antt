-- ===== src/Payload/Splitting.antt =====
-- `ExtractKVFromPutPayload` on any payload (wapcutils/kv.go).
use nola.Base.{
  ℕ, suc, ◌+◌, ◌-◌, ◌*◌, ◌%◌, ◌^◌, ◌≤◌, ◌≡◌, ◌⊎◌, inl, inr, refl, sym, ap, ◌∙◌, ◌==◌, ltb, leb,
  Bool, true, false, Bool-cases, ◌&&◌, ◌||◌, [], ◌∷◌, ◌++◌, Bytes, length, take, drop, Result, ok,
  err, panic, if◌then◌else◌, arith, take-append-drop, drop-drop,
}
use nola.Payload.Encoding.{
  ℤ, pos, negsuc, PayloadError, shift7, uvarint, varint, extract_kv_from_put_payload, extract_at,
  slices, from_zigzag, key_end, lt, is_zero, malformed, key_too_long, illegal_key_end, illegal_end,
  extract_to, extract_for,
}

-- A number of bytes that is negative comes with the value 0.
uvarint-cases :
    (bytes : Bytes) (i x : ℕ)
    → ((v n : ℕ) × (uvarint bytes i x ≡ (v, pos n)))
      ⊎ ((n : ℕ) × (uvarint bytes i x ≡ (0, negsuc n)))
unfolding uvarint
uvarint-cases [] i x = inl (0, 0, refl)
uvarint-cases (b ∷ bytes) i x = elim (Bool-cases (i == 10)) [
  | inl tenth ↦ inr (i, rw tenth refl)
  | inr early ↦ elim (Bool-cases (ltb b 128)) [
    | inl last ↦ elim (Bool-cases (i == 9 && ltb 1 b)) [
      | inl over ↦ inr (i, rw (early, last, over) refl)
      | inr fits ↦ inl (x + b * shift7 i, i + 1, rw (early, last, fits) refl)
    ]
    | inr more ↦ rw (early, more) (uvarint-cases bytes (i + 1) ((x + b % 128 * shift7 i) % 2 ^ 64))
  ]
]

-- A result is a key and a value that stand at the end of the payload, the value behind the key.
abbrev pub Splits : Bytes → Result PayloadError (Bytes × Bytes) → Type 0
Splits payload (ok (key, value)) = (header : Bytes) × (payload ≡ header ++ (key ++ value))
Splits payload (err _) = Unit
Splits payload panic = ⊥

slices-Splits :
    (payload : Bytes) (a b : ℕ)
    → a ≤ b
    → b ≤ length payload
    → Splits payload (slices payload (pos a) (pos b))
slices-Splits payload a b le within =
    let good : (leb a b && leb b (length payload)) ≡ true = ground (arith, le, within) in
    let there : b ≡ a + (b - a) = omega (arith, le) in
    rw good (
      take a payload,
      sym (
          ap (λ k. take a payload ++ (take (b - a) (drop a payload) ++ k))
            (ap (λ n. drop n payload) there ∙ sym (drop-drop a (b - a) payload))
          ∙ ap (λ k. take a payload ++ k) (take-append-drop (b - a) (drop a payload))
          ∙ take-append-drop a payload),
    )

either_false : (a b : Bool) → a ≡ true → (a || b) ≡ false → ⊥
either_false true b e h = cc
either_false false b e h = cc

second_false : (a b c : Bool) → b ≡ true → (a || (b || c)) ≡ false → ⊥
second_false true b c e h = cc
second_false false true c e h = cc
second_false false false c e h = cc

unless_refused :
    (payload : Bytes) (refused : Bool) (e : PayloadError)
    (rest : Result PayloadError (Bytes × Bytes))
    → (refused ≡ false → Splits payload rest)
    → Splits payload (if refused then err e else rest)
unless_refused payload true e rest h = tt
unless_refused payload false e rest h = h refl

-- What the checks leave of the start and the end of the key.
in_bounds :
    (payload : Bytes) (a : ℕ) (key_len : ℤ)
    → illegal_end payload (pos a) (key_end (pos a) key_len) ≡ false
    → Splits payload (slices payload (pos a) (key_end (pos a) key_len))
in_bounds payload a (pos b) h = slices-Splits payload a (a + b) (omega arith) (ground (arith, h))
in_bounds payload a (negsuc b) h = elim (Bool-cases (leb (suc b) a)) [
  | inl smaller ↦
      let before : lt (key_end (pos a) (negsuc b)) (pos a) ≡ true = ground (arith, smaller) in
      absurd (either_false _ _ before h)
  | inr larger ↦
      let before : lt (key_end (pos a) (negsuc b)) (pos a) ≡ true = rw larger refl in
      absurd (either_false _ _ before h)
]

checked_at :
    (payload : Bytes) (key_len : ℤ) (a : ℕ) → Splits payload (extract_at payload (key_len, pos a))
checked_at payload key_len a =
    unless_refused payload (is_zero (pos a)) malformed (extract_for payload key_len (pos a)) λ _.
      unless_refused payload (lt (pos (length payload)) key_len) key_too_long
        (extract_to payload (pos a) (key_end (pos a) key_len))
        λ _.
          unless_refused payload (illegal_end payload (pos a) (key_end (pos a) key_len))
            illegal_key_end (slices payload (pos a) (key_end (pos a) key_len))
            λ h. in_bounds payload a key_len h

overflowed : (payload : Bytes) (n : ℕ) → Splits payload (extract_at payload (pos 0, negsuc n))
overflowed payload n =
    unless_refused payload (lt (pos (length payload)) (pos 0)) key_too_long
      (extract_to payload (negsuc n) (key_end (negsuc n) (pos 0)))
      λ _.
        unless_refused payload (illegal_end payload (negsuc n) (key_end (negsuc n) (pos 0)))
          illegal_key_end panic
          λ h.
            let positive : leb (suc n) 0 ≡ false = ground arith in
            let negative : lt (key_end (negsuc n) (pos 0)) (pos 0) ≡ true = rw positive refl in
            absurd (second_false _ _ _ negative h)

-- Extracting never panics, and a key and a value that it gives stand at the end of the payload.
pub extract-Splits : (payload : Bytes) → Splits payload (extract_kv_from_put_payload payload)
unfolding extract_kv_from_put_payload varint
extract-Splits payload = elim (uvarint-cases payload 0 0) [
  | inl (v, n, e) ↦ rw e (checked_at payload (from_zigzag v) n)
  | inr (n, e) ↦ rw e (overflowed payload n)
]
