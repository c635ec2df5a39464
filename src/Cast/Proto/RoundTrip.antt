-- ===== src/Cast/Proto/RoundTrip.antt =====
-- `decode_cast_message` on what `encode_cast_message` wrote.
use cast_app.Common.{
  ℕ, zero, suc, ◌+◌, ◌*◌, ◌/◌, ◌%◌, ◌^◌, ◌≤◌, ◌<◌, bit_and, ◌≡◌, refl, ◌∙◌, some, List, [], ◌∷◌,
  ◌++◌, length, drop, arith, append_assoc, append-nil, length-append, drop-length_append,
  take-length_append, ge→ltb,
}
use cast_app.Common.Bits.{bit_and_mask, shifted_bit_or}
use cast_app.Common.Utf8.{from_utf8_lossy, IsUtf8}
use cast_app.Cast.Proto.{
  max_field_size, WireType, varint, fixed64, length_delimited, fixed32, Result, ok, varint_encode,
  varint_decode, ◌>>=◌,
}
use cast_app.Cast.Proto.Varint.{varint_decode-varint_encode}
use cast_app.Cast.Proto.Message.{
  string, CastMessage, empty, wire_number, from_number, key, encode_cast_message, set_varint,
  set_bytes, read_bytes, decode_field, read_key, decode_one, decode_fields, decode_cast_message,
}
use cast_app.Cast.Proto.Total.{one_Takes}

-- The fields of `s`, read one after the other, take `m` to `m'`.
pub data Decodes : List ℕ → CastMessage → CastMessage → Type 0 where
  done : {m : CastMessage} → Decodes [] m m
  field :
      {s rest : List ℕ} {m m' last : CastMessage}
      → decode_one s m ≡ ok (m', rest)
      → Decodes rest m' last
      → Decodes s m last

fields_step :
    (fuel : ℕ) (s rest : List ℕ) (m m' : CastMessage)
    → decode_one s m ≡ ok (m', rest)
    → decode_fields (suc fuel) s m ≡ decode_fields fuel rest m'
fields_step fuel [] rest m m' e = absurd (omega (arith, rw e at (one_Takes [] m)))
fields_step fuel (b ∷ s) rest m m' e = unfold decode_fields in rw e refl

taken :
    (s rest : List ℕ) (m m' : CastMessage) → decode_one s m ≡ ok (m', rest) → length rest < length s
taken s rest m m' e = rw e at (one_Takes s m)

pub Decodes-decode_fields :
    {s : List ℕ} {m last : CastMessage} (fuel : ℕ)
    → Decodes s m last
    → length s ≤ fuel
    → decode_fields fuel s m ≡ ok last
Decodes-decode_fields fuel done enough = unfold decode_fields in refl
Decodes-decode_fields zero (field {s = s} {rest = rest} {m = m} {m' = m'} e d) enough =
    absurd (omega (arith, taken s rest m m' e))
Decodes-decode_fields (suc fuel) (field {s = s} {rest = rest} {m = m} {m' = m'} e d) enough =
    fields_step fuel s rest m m' e
    ∙ Decodes-decode_fields fuel d (omega (arith, taken s rest m m' e))

wire_number-lt : (wire : WireType) → wire_number wire < 8
wire_number-lt varint = omega arith
wire_number-lt fixed64 = omega arith
wire_number-lt length_delimited = omega arith
wire_number-lt fixed32 = omega arith

key_sum : (number : ℕ) (wire : WireType) → key number wire ≡ number * 8 + wire_number wire
unfolding key
key_sum number wire = shifted_bit_or 3 number (wire_number wire) (wire_number-lt wire)

from_number-wire_number : (wire : WireType) → from_number (wire_number wire) ≡ some wire
unfolding from_number
from_number-wire_number varint = refl
from_number-wire_number fixed64 = refl
from_number-wire_number length_delimited = refl
from_number-wire_number fixed32 = refl

read_key_parts :
    (k n number : ℕ) (wire : WireType)
    → k / 2 ^ 3 % 2 ^ 32 ≡ number
    → bit_and k 0x07 % 256 ≡ n
    → from_number n ≡ some wire
    → 0 < number
    → read_key k ≡ ok (wire, number)
unfolding read_key
read_key_parts k n number wire e f g pos = ground arith

read_key-key :
    (number : ℕ) (wire : WireType)
    → 0 < number
    → number < 2 ^ 29
    → read_key (key number wire) ≡ ok (wire, number)
read_key-key number wire pos small = rw (key_sum number wire) (
    read_key_parts (number * 8 + wire_number wire) (wire_number wire) number wire
      (omega (arith, wire_number-lt wire))
      (omega (arith, bit_and_mask 3 (number * 8 + wire_number wire), wire_number-lt wire))
      (from_number-wire_number wire) pos)

-- What stands behind a varint is read next.
behind_varint {ℓ} :
    {A : Type ℓ} (v : ℕ) (rest : List ℕ) (f : ℕ × ℕ → Result A)
    → v < 2 ^ 64
    → (varint_decode (varint_encode v ++ rest) >>= f) ≡ f (v, length (varint_encode v))
behind_varint v rest f small = rw (varint_decode-varint_encode v rest small) refl

abbrev after_key : List ℕ → CastMessage → ℕ × ℕ → Result (CastMessage × List ℕ)
after_key s m (k, n) = read_key k >>= λ (wire, number). decode_field wire number (drop n s) m

decode_one_round :
    (s : List ℕ) (m : CastMessage) → decode_one s m ≡ (varint_decode s >>= after_key s m)
unfolding decode_one
decode_one_round s m = refl

key-lt : (number : ℕ) (wire : WireType) → number < 2 ^ 29 → key number wire < 2 ^ 64
key-lt number wire small = omega (arith, key_sum number wire, wire_number-lt wire)

-- A key and a value that `decode_field` reads make a field.
one_lem :
    (number : ℕ) (wire : WireType) (value : List ℕ) (m : CastMessage)
    → 0 < number
    → number < 2 ^ 29
    → decode_one (varint_encode (key number wire) ++ value) m ≡ decode_field wire number value m
one_lem number wire value m pos small =
    let s = varint_encode (key number wire) ++ value in
    decode_one_round s m
    ∙ behind_varint (key number wire) value (after_key s m) (key-lt number wire small)
    ∙ rw (read_key-key number wire pos small, drop-length_append) refl

read_bytes_lem :
    (number : ℕ) (bytes rest : List ℕ) (m : CastMessage)
    → length bytes ≤ max_field_size
    → read_bytes number (length bytes) (bytes ++ rest) m ≡ ok (set_bytes number bytes m, rest)
unfolding read_bytes
read_bytes_lem number bytes rest m small =
    rw
      (
        ge→ltb max_field_size (length bytes) small,
        ge→ltb (length (bytes ++ rest)) (length bytes) (omega (arith, length-append bytes rest)),
        take-length_append,
        drop-length_append,
      )
      refl

bytes_round :
    (number : ℕ) (s : List ℕ) (m : CastMessage)
    → decode_field length_delimited number s m
      ≡ (varint_decode s >>= λ (size, n). read_bytes number size (drop n s) m)
unfolding decode_field
bytes_round number s m = refl

bytes_lem :
    (number : ℕ) (bytes rest : List ℕ) (m : CastMessage)
    → length bytes ≤ max_field_size
    → decode_field length_delimited number (varint_encode (length bytes) ++ (bytes ++ rest)) m
      ≡ ok (set_bytes number bytes m, rest)
bytes_lem number bytes rest m small =
    let s = varint_encode (length bytes) ++ (bytes ++ rest) in
    bytes_round number s m
    ∙ behind_varint (length bytes) (bytes ++ rest)
        (λ (size, n). read_bytes number size (drop n s) m) (omega arith)
    ∙ rw drop-length_append (read_bytes_lem number bytes rest m small)

zero_lem :
    (number : ℕ) (rest : List ℕ) (m : CastMessage)
    → decode_field varint number (0 ∷ rest) m ≡ ok (set_varint number 0 m, rest)
unfolding decode_field varint_decode
zero_lem number rest m = refl

-- One length-delimited field in front of further ones.
bytes_field :
    (number : ℕ) (bytes rest : List ℕ) (m last : CastMessage)
    → 0 < number
    → number < 2 ^ 29
    → length bytes ≤ max_field_size
    → Decodes rest (set_bytes number bytes m) last
    → Decodes
        (varint_encode (key number length_delimited)
          ++ (varint_encode (length bytes) ++ (bytes ++ rest)))
        m
        last
bytes_field number bytes rest m last pos small fits d =
    field (one_lem number length_delimited _ m pos small ∙ bytes_lem number bytes rest m fits) d

zero_field :
    (number : ℕ) (rest : List ℕ) (m last : CastMessage)
    → 0 < number
    → number < 2 ^ 29
    → Decodes rest (set_varint number 0 m) last
    → Decodes (varint_encode (key number varint) ++ (0 ∷ rest)) m last
zero_field number rest m last pos small d =
    field (one_lem number varint _ m pos small ∙ zero_lem number rest m) d

-- The encoder's output as one field behind the other.
encoded :
    (source dest namespace payload : List ℕ)
    → encode_cast_message source dest namespace payload
      ≡ varint_encode (key 1 varint)
        ++ (0
            ∷ (varint_encode (key 2 length_delimited)
                ++ (varint_encode (length source)
                    ++ (source
                        ++ (varint_encode (key 3 length_delimited)
                            ++ (varint_encode (length dest)
                                ++ (dest
                                    ++ (varint_encode (key 4 length_delimited)
                                        ++ (varint_encode (length namespace)
                                            ++ (namespace
                                                ++ (varint_encode (key 5 varint)
                                                    ++ (0
                                                        ∷ (varint_encode (key 6 length_delimited)
                                                            ++ (varint_encode (length payload)
                                                            ++ (payload ++ [])))))))))))))))
unfolding encode_cast_message
encoded source dest namespace payload = simp (append_assoc, append-nil)

-- The encoded fields leave this message, whatever was there before.
fields_lem :
    (source dest namespace payload : List ℕ) (m : CastMessage)
    → length source ≤ max_field_size
    → length dest ≤ max_field_size
    → length namespace ≤ max_field_size
    → length payload ≤ max_field_size
    → Decodes (encode_cast_message source dest namespace payload) m (record {
      protocol_version = 0;
      source_id = from_utf8_lossy source;
      destination_id = from_utf8_lossy dest;
      namespace = from_utf8_lossy namespace;
      payload_type = string;
      payload_utf8 = from_utf8_lossy payload;
    })
unfolding set_varint set_bytes
fields_lem source dest namespace payload m ls ld ln lp =
    rw (encoded source dest namespace payload) (
      zero_field 1 _ m _ (omega arith) (omega arith) (
        bytes_field 2 source _ _ _ (omega arith) (omega arith) ls (
          bytes_field 3 dest _ _ _ (omega arith) (omega arith) ld (
            bytes_field 4 namespace _ _ _ (omega arith) (omega arith) ln (
              zero_field 5 _ _ _ (omega arith) (omega arith)
                (bytes_field 6 payload [] _ _ (omega arith) (omega arith) lp done))))))

-- Four well-formed texts, each of at most `max_field_size` bytes, come back from
-- `decode_cast_message` as `encode_cast_message` was given them, with protocol version 0 and
-- payload type STRING.
pub decode-encode_cast_message :
    (source dest namespace payload : List ℕ)
    → IsUtf8 source
    → IsUtf8 dest
    → IsUtf8 namespace
    → IsUtf8 payload
    → length source ≤ max_field_size
    → length dest ≤ max_field_size
    → length namespace ≤ max_field_size
    → length payload ≤ max_field_size
    → decode_cast_message (encode_cast_message source dest namespace payload)
      ≡ ok (record {
        protocol_version = 0;
        source_id = source;
        destination_id = dest;
        namespace = namespace;
        payload_type = string;
        payload_utf8 = payload;
      })
unfolding decode_cast_message
decode-encode_cast_message source dest namespace payload us ud un up ls ld ln lp =
    Decodes-decode_fields (length (encode_cast_message source dest namespace payload))
      (fields_lem source dest namespace payload empty ls ld ln lp) (omega arith)
    ∙ rw (us, ud, un, up) refl
