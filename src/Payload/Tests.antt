-- ===== src/Payload/Tests.antt =====
-- A payload of a key of two bytes and a value of three.
use nola.Base.{◌≡◌, ◌∷◌, [], Bytes, ok, err, ◌>>=◌, refl, arith}
use nola.Payload.Encoding.{
  put_uvarint, shift7, encode_put_payload, extract_kv_from_put_payload, illegal_key_end,
}
use nola.Payload.RoundTrip.{extract-encode}
use nola.Payload.Splitting.{Splits, extract-Splits}

abbrev key : Bytes
key = 7 ∷ 8 ∷ []

abbrev value : Bytes
value = 1 ∷ 2 ∷ 3 ∷ []

encoded : encode_put_payload key value ≡ ok (4 ∷ 7 ∷ 8 ∷ 1 ∷ 2 ∷ 3 ∷ [])
unfolding encode_put_payload put_uvarint ◌>>=◌
encoded = refl

extract-encode_example :
    (payload : Bytes) × (encode_put_payload key value ≡ ok payload)
    × (extract_kv_from_put_payload payload ≡ ok (key, value))
extract-encode_example = extract-encode key value (omega arith)

-- The length of the key is -1.
abbrev negative_length : Bytes
negative_length = 1 ∷ 7 ∷ 8 ∷ []

refused : extract_kv_from_put_payload negative_length ≡ err illegal_key_end
unfolding extract_kv_from_put_payload shift7
refused = refl

extract-Splits_example : Splits negative_length (extract_kv_from_put_payload negative_length)
extract-Splits_example = extract-Splits negative_length
