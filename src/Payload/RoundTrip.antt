-- ===== src/Payload/RoundTrip.antt =====
-- What `EncodePutPayload` encodes, `ExtractKVFromPutPayload` extracts (wapcutils/kv.go).
use nola.Base.{
  ℕ, zero, suc, ◌+◌, ◌-◌, ◌*◌, ◌/◌, ◌%◌, ◌^◌, ◌<◌, ◌≡◌, inl, inr, refl, sym, ap, subst, ◌∙◌, ◌==◌,
  ltb, leb, true, false, Bool-cases, ◌&&◌, ◌||◌, [], ◌∷◌, ◌++◌, Bytes, length, take, drop, ok,
  ◌>>=◌, arith, length-append, drop-append_length, take-append_length, drop-drop,
}
use nola.Payload.Encoding.{
  pos, shift7, put_uvarint, uvarint, varint, encode_put_payload, extract_kv_from_put_payload,
  extract_at, from_zigzag, is_zero,
}

shift7_pos : (i : ℕ) → 0 < shift7 i
unfolding shift7
shift7_pos zero = omega arith
shift7_pos (suc i) = omega (arith, shift7_pos i)

positive_length : (n : ℕ) → 0 < n → is_zero (pos n) ≡ false
positive_length zero h = absurd (omega (arith, h))
positive_length (suc n) h = refl

first_fits : (x : ℕ) → x < 2 ^ 64 → 0 + x * shift7 0 < 2 ^ 64
unfolding shift7
first_fits x h = omega (arith, h)

shift7-suc : (i : ℕ) → shift7 (suc i) ≡ 128 * shift7 i
unfolding shift7
shift7-suc i = refl

shift7-add-one : (i : ℕ) → shift7 (i + 1) ≡ 128 * shift7 i
shift7-add-one i = ap shift7 (let e : i + 1 ≡ suc i = omega arith in e) ∙ shift7-suc i

-- What is written for a number is read back, with what has been read before it.
record ReadsBack (left i x acc : ℕ) (rest : Bytes) : Type 0 where
  bytes : Bytes
  put : put_uvarint left x ≡ ok bytes
  read : uvarint (bytes ++ rest) i acc ≡ (acc + x * shift7 i, pos (i + length bytes))
  some_bytes : 0 < length bytes

spread : (x S : ℕ) → x / 128 * (128 * S) + x % 128 * S ≡ x * S
spread x S =
    let parts : x ≡ x / 128 * 128 + x % 128 = omega arith in
    let split : (x / 128 * 128 + x % 128) * S ≡ x / 128 * (128 * S) + x % 128 * S = omega arith in
    sym split ∙ ap (λ n. n * S) (sym parts)

-- The tenth byte has one bit.
last_byte : (x acc : ℕ) → acc + x * shift7 9 < 2 ^ 64 → x < 2
unfolding shift7
last_byte x acc fits = omega (arith, fits)

last_bit : (i x acc : ℕ) → acc + x * shift7 i < 2 ^ 64 → (i == 9 && ltb 1 x) ≡ false
last_bit i x acc fits = elim (Bool-cases (i == 9)) [
  | inl nine ↦
      let at_nine : i ≡ 9 = ground (arith, nine) in
      let small = last_byte x acc (subst (λ (k : ℕ). acc + x * shift7 k < 2 ^ 64) at_nine fits) in
      ground (arith, small)
  | inr other ↦ rw other refl
]

one_byte :
    (left i x acc : ℕ) (rest : Bytes)
    → suc left + i ≡ 10
    → acc + x * shift7 i < 2 ^ 64
    → ltb x 128 ≡ true
    → ReadsBack (suc left) i x acc rest
unfolding put_uvarint uvarint
one_byte left i x acc rest places fits last =
    let not_ten : (i == 10) ≡ false = ground (arith, places) in
    record {
      bytes = x ∷ [];
      put = rw last refl;
      read = rw (not_ten, last, last_bit i x acc fits) refl;
      some_bytes = omega arith;
    }

-- The number read so far, after another group.
next_acc :
    (i x acc : ℕ)
    → acc + x * shift7 i < 2 ^ 64
    → (acc + (x % 128 + 128) % 128 * shift7 i) % 2 ^ 64 ≡ acc + x % 128 * shift7 i
next_acc i x acc fits =
    let group : (x % 128 + 128) % 128 ≡ x % 128 = omega arith in
    let whole = spread x (shift7 i) in
    ap (λ n. (acc + n * shift7 i) % 2 ^ 64) group ∙ omega (arith, fits, whole)

next_total :
    (i x acc : ℕ) → acc + x % 128 * shift7 i + x / 128 * shift7 (i + 1) ≡ acc + x * shift7 i
next_total i x acc =
    let next : shift7 (i + 1) ≡ 128 * shift7 i = shift7-add-one i in
    ap (λ n. acc + x % 128 * shift7 i + x / 128 * n) next ∙ omega (arith, spread x (shift7 i))

counted : (i n : ℕ) → i + 1 + n ≡ i + suc n
counted i n = omega arith

more_bytes :
    (left i x acc : ℕ) (rest : Bytes)
    → suc left + i ≡ 10
    → acc + x * shift7 i < 2 ^ 64
    → ltb x 128 ≡ false
    → ReadsBack left (i + 1) (x / 128) (acc + x % 128 * shift7 i) rest
    → ReadsBack (suc left) i x acc rest
unfolding put_uvarint uvarint ◌>>=◌
more_bytes left i x acc rest places fits more later =
    let not_ten : (i == 10) ≡ false = ground (arith, places) in
    let high : ltb (x % 128 + 128) 128 ≡ false = ground arith in
    record {
      bytes = (x % 128 + 128) ∷ later.bytes;
      put = rw (more, later.put) refl;
      read =
          rw (not_ten, high, next_acc i x acc fits, later.read)
            (rw (next_total i x acc, counted i (length later.bytes)) refl);
      some_bytes = omega arith;
    }

-- Where a group is left over, there is a place left.
place_left :
    (left i x acc : ℕ)
    → suc left + i ≡ 10
    → acc + x * shift7 i < 2 ^ 64
    → ltb x 128 ≡ false
    → 0 < left
place_left zero i x acc places fits more =
    let nine : i ≡ 9 = omega (arith, places) in
    let small = last_byte x acc (subst (λ (k : ℕ). acc + x * shift7 k < 2 ^ 64) nine fits) in
    absurd (ground (arith, small, more))
place_left (suc left) i x acc places fits more = omega arith

reads_back :
    (left i x acc : ℕ) (rest : Bytes)
    → left + i ≡ 10
    → acc + x * shift7 i < 2 ^ 64
    → 0 < left
    → ReadsBack left i x acc rest
reads_back zero i x acc rest places fits some_left = absurd (omega (arith, some_left))
reads_back (suc left) i x acc rest places fits some_left = elim (Bool-cases (ltb x 128)) [
  | inl last ↦ one_byte left i x acc rest places fits last
  | inr more ↦ more_bytes left i x acc rest places fits more (
      reads_back left (i + 1) (x / 128) (acc + x % 128 * shift7 i) rest (omega (arith, places))
        (omega (arith, fits, next_total i x acc)) (place_left left i x acc places fits more))
]

extract_split :
    (a key value : Bytes)
    → 0 < length a
    → extract_at (a ++ (key ++ value)) (pos (length key), pos (length a)) ≡ ok (key, value)
extract_split a key value some_bytes =
    let n = length a in
    let L = length key in
    let total : length (a ++ (key ++ value)) ≡ n + (L + length value) =
      length-append a (key ++ value) ∙ ap (λ k. n + k) (length-append key value) in
    let header : is_zero (pos n) ≡ false = positive_length n some_bytes in
    let fits : ltb (length (a ++ (key ++ value))) L ≡ false = ground (arith, total) in
    let forward : (ltb (n + L) n || (ltb (n + L) 0 || ltb (length (a ++ (key ++ value))) (n + L)))
        ≡ false =
      ground (arith, total) in
    let bounds : (leb n (n + L) && leb (n + L) (length (a ++ (key ++ value)))) ≡ true =
      ground (arith, total) in
    let is_key : take (n + L - n) (drop n (a ++ (key ++ value))) ≡ key =
      ap (λ k. take (n + L - n) k) (drop-append_length a (key ++ value))
      ∙ ap (λ k. take k (key ++ value)) (omega arith)
      ∙ take-append_length key value in
    let is_value : drop (n + L) (a ++ (key ++ value)) ≡ value =
      sym (drop-drop n L (a ++ (key ++ value)))
      ∙ ap (drop L) (drop-append_length a (key ++ value))
      ∙ drop-append_length key value in
    rw (header, fits, forward, bounds, is_key, is_value) refl

from_zigzag_even : (x L : ℕ) → x ≡ L * 2 → from_zigzag x ≡ pos L
from_zigzag_even x L e = ground (arith, e)

varint_even :
    (payload : Bytes) (n L x : ℕ)
    → uvarint payload 0 0 ≡ (0 + x * shift7 0, pos (0 + n))
    → x ≡ L * 2
    → varint payload ≡ (pos L, pos n)
unfolding varint shift7
varint_even payload n L x h e =
    let none_before : 0 + n ≡ n = omega arith in
    rw (h, from_zigzag_even (0 + x * 1) L (omega (arith, e)), none_before) refl

-- A key whose length fits an `int64` and any value are encoded without a panic, and extracting from
-- the payload gives them back.
pub extract-encode :
    (key value : Bytes)
    → length key < 2 ^ 63
    → (payload : Bytes) × (encode_put_payload key value ≡ ok payload)
      × (extract_kv_from_put_payload payload ≡ ok (key, value))
unfolding encode_put_payload extract_kv_from_put_payload ◌>>=◌
extract-encode key value small =
    let x = length key * 2 % 2 ^ 64 in
    let same : x ≡ length key * 2 = omega (arith, small) in
    let back = reads_back 10 0 x 0 (key ++ value) refl (first_fits x (omega arith)) (omega arith) in
    let payload = back.bytes ++ (key ++ value) in
    let is_read = varint_even payload (length back.bytes) (length key) x back.read same in
    (
      payload,
      rw back.put refl,
      ap (extract_at payload) is_read ∙ extract_split back.bytes key value back.some_bytes,
    )
