-- ===== src/Payload/Encoding.antt =====
-- `EncodePutPayload` and `ExtractKVFromPutPayload` (wapcutils/kv.go), and `PutVarint` and `Varint` of
-- the package encoding/binary as they use them.
use nola.Base.{
  ℕ, zero, suc, ◌+◌, ◌-◌, ◌*◌, ◌/◌, ◌%◌, ◌^◌, ◌==◌, ltb, leb, Bool, true, false, ◌&&◌, ◌||◌, [],
  ◌∷◌, ◌++◌, Bytes, length, take, drop, Result, ok, err, panic, ◌>>=◌, if◌then◌else◌,
}

-- Go's `int` and `int64`. `negsuc n` is -(n + 1).
pub data ℤ : Type 0 where
  pos : ℕ → ℤ
  negsuc : ℕ → ℤ

pub data PayloadError : Type 0 where
  malformed key_too_long illegal_key_end : PayloadError

-- `1 << (7 * i)`.
unfoldable pub shift7 : ℕ → ℕ
shift7 zero = 1
shift7 (suc i) = 128 * shift7 i

-- `PutUvarint` into a buffer with the places left; past its end the write panics.
unfoldable pub put_uvarint : ℕ → ℕ → Result PayloadError Bytes
put_uvarint zero x = panic
put_uvarint (suc left) x =
    let more = put_uvarint left (x / 128) >>= λ bytes. ok ((x % 128 + 128) ∷ bytes) in
    if ltb x 128 then ok (x ∷ []) else more

-- `Uvarint` from byte `i` on: the value and the number of bytes read, which is 0 if they end too
-- early, and negative if the value overflows. The groups of seven bits do not overlap, so that `|`
-- is a sum.
unfoldable pub uvarint : Bytes → ℕ → ℕ → ℕ × ℤ
uvarint [] i x = (0, pos 0)
uvarint (b ∷ bytes) i x =
    if i == 10
    then (0, negsuc i)
    else if ltb b 128
    then (if i == 9 && ltb 1 b then (0, negsuc i) else (x + b * shift7 i, pos (i + 1)))
    else uvarint bytes (i + 1) ((x + b % 128 * shift7 i) % 2 ^ 64)

-- `Varint`: the last bit is the sign.
abbrev pub from_zigzag : ℕ → ℤ
from_zigzag ux = if ux % 2 == 0 then pos (ux / 2) else negsuc (ux / 2)

abbrev pub signed : ℕ × ℤ → ℤ × ℤ
signed (ux, n) = (from_zigzag ux, n)

unfoldable pub varint : Bytes → ℤ × ℤ
unfolding uvarint
varint bytes = signed (uvarint bytes 0 0)

-- `EncodePutPayload`. The buffer has ten places; what it held before is overwritten.
unfoldable pub encode_put_payload : Bytes → Bytes → Result PayloadError Bytes
encode_put_payload key value = do
  key_len ← put_uvarint 10 (length key * 2 % 2 ^ 64)
  ok (key_len ++ (key ++ value))

-- a - b.
abbrev pub sub_ℕ : ℕ → ℕ → ℤ
sub_ℕ a b = if leb b a then pos (a - b) else negsuc (b - a - 1)

-- The sum of the start and the length of the key. It fits an `int64`: a length that is more than
-- the payload's is refused before, and a negative one is at least -2^63.
abbrev pub key_end : ℤ → ℤ → ℤ
key_end (pos a) (pos b) = pos (a + b)
key_end (pos a) (negsuc b) = sub_ℕ a (suc b)
key_end (negsuc a) (pos b) = sub_ℕ b (suc a)
key_end (negsuc a) (negsuc b) = negsuc (suc (a + b))

abbrev pub lt : ℤ → ℤ → Bool
lt (pos a) (pos b) = ltb a b
lt (pos a) (negsuc b) = false
lt (negsuc a) (pos b) = true
lt (negsuc a) (negsuc b) = ltb b a

-- `payload[start:end], payload[end:]`.
abbrev pub slices : Bytes → ℤ → ℤ → Result PayloadError (Bytes × Bytes)
slices payload (pos start) (pos end) =
    if leb start end && leb end (length payload)
    then ok (take (end - start) (drop start payload), drop end payload)
    else panic
slices payload _ _ = panic

abbrev pub is_zero : ℤ → Bool
is_zero (pos zero) = true
is_zero _ = false

-- The key from `start` to `end`, and the value behind it.
abbrev pub illegal_end : Bytes → ℤ → ℤ → Bool
illegal_end payload start end = lt end start || (lt end (pos 0) || lt (pos (length payload)) end)

abbrev pub extract_to : Bytes → ℤ → ℤ → Result PayloadError (Bytes × Bytes)
extract_to payload start end =
    if illegal_end payload start end then err illegal_key_end else slices payload start end

abbrev pub extract_for : Bytes → ℤ → ℤ → Result PayloadError (Bytes × Bytes)
extract_for payload key_len start =
    if lt (pos (length payload)) key_len
    then err key_too_long
    else extract_to payload start (key_end start key_len)

abbrev pub extract_at : Bytes → ℤ × ℤ → Result PayloadError (Bytes × Bytes)
extract_at payload (key_len, n) = if is_zero n then err malformed else extract_for payload key_len n

unfoldable pub extract_kv_from_put_payload : Bytes → Result PayloadError (Bytes × Bytes)
unfolding varint
extract_kv_from_put_payload payload = extract_at payload (varint payload)
