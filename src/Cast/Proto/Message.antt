-- ===== src/Cast/Proto/Message.antt =====
-- src/cast/proto.rs: `encode_cast_message` and `decode_cast_message`.
use cast_app.Common.{
  ℕ, zero, suc, ◌*◌, ◌/◌, ◌%◌, ◌^◌, bit_and, bit_or, Option, none, some, List, [], ◌∷◌, ◌++◌,
  length, take, drop, ltb, ◌==◌, if◌then◌else◌,
}
use cast_app.Common.Utf8.{from_utf8_lossy}
use cast_app.Cast.Proto.{
  max_field_size, WireType, varint, fixed64, length_delimited, fixed32, unexpected_end,
  unknown_wire_type, missing_field_number, truncated_field, field_too_large, Result, ok, err, stuck,
  ◌>>=◌, varint_encode, varint_decode,
}

pub data PayloadType : Type 0 where
  string binary : PayloadType

pub record CastMessage : Type 0 where
  pub protocol_version : ℕ
  pub source_id : List ℕ
  pub destination_id : List ℕ
  pub namespace : List ℕ
  pub payload_type : PayloadType
  pub payload_utf8 : List ℕ

unfoldable pub empty : CastMessage
empty = record {
  protocol_version = 0;
  source_id = [];
  destination_id = [];
  namespace = [];
  payload_type = string;
  payload_utf8 = [];
}

-- `wire as u64`.
abbrev pub wire_number : WireType → ℕ
wire_number varint = 0
wire_number fixed64 = 1
wire_number length_delimited = 2
wire_number fixed32 = 5

unfoldable pub from_number : ℕ → Option WireType
from_number n =
    if n == 0
    then some varint
    else if n == 1
    then some fixed64
    else if n == 2
    then some length_delimited
    else if n == 5
    then some fixed32
    else none

-- `((field as u64) << 3) | wire as u64`.
unfoldable pub key : ℕ → WireType → ℕ
key field wire = bit_or (field * 2 ^ 3) (wire_number wire)

unfoldable pub write_length_delimited : List ℕ → ℕ → List ℕ → List ℕ
unfolding key
write_length_delimited out field bytes =
    out ++ (varint_encode (key field length_delimited) ++ (varint_encode (length bytes) ++ bytes))

unfoldable pub encode_cast_message : List ℕ → List ℕ → List ℕ → List ℕ → List ℕ
unfolding key write_length_delimited
encode_cast_message source dest namespace payload =
    let out = varint_encode (key 1 varint) ++ (0 ∷ []) in
    let out = write_length_delimited out 2 source in
    let out = write_length_delimited out 3 dest in
    let out = write_length_delimited out 4 namespace in
    let out = out ++ (varint_encode (key 5 varint) ++ (0 ∷ [])) in
    write_length_delimited out 6 payload

-- The `match field` of a varint and of a length-delimited field; other fields are skipped.
unfoldable pub set_varint : ℕ → ℕ → CastMessage → CastMessage
set_varint field value m =
    if field == 1
    then record m { protocol_version = value % 2 ^ 32 }
    else if field == 5
    then record m { payload_type = if value == 1 then binary else string }
    else m

unfoldable pub set_bytes : ℕ → List ℕ → CastMessage → CastMessage
set_bytes field bytes m =
    if field == 2
    then record m { source_id = from_utf8_lossy bytes }
    else if field == 3
    then record m { destination_id = from_utf8_lossy bytes }
    else if field == 4
    then record m { namespace = from_utf8_lossy bytes }
    else if field == 6
    then record m { payload_utf8 = from_utf8_lossy bytes }
    else m

-- `skip_fixed`, with what is left of the payload for `pos` and `len`.
unfoldable pub skip_fixed : ℕ → List ℕ → Result (List ℕ)
skip_fixed width bytes =
    if ltb (length bytes) width then err (unexpected_end (length bytes)) else ok (drop width bytes)

unfoldable pub read_bytes : ℕ → ℕ → List ℕ → CastMessage → Result (CastMessage × List ℕ)
read_bytes field size bytes m =
    if ltb max_field_size size
    then err field_too_large
    else if ltb (length bytes) size
    then err (truncated_field size (length bytes))
    else ok (set_bytes field (take size bytes) m, drop size bytes)

-- The `match wire`: the message and the bytes behind the field.
unfoldable pub decode_field : WireType → ℕ → List ℕ → CastMessage → Result (CastMessage × List ℕ)
unfolding set_varint skip_fixed read_bytes set_bytes
decode_field varint field bytes m = do
  (value, consumed) ← varint_decode bytes
  ok (set_varint field value m, drop consumed bytes)
decode_field length_delimited field bytes m = do
  (size, consumed) ← varint_decode bytes
  read_bytes field size (drop consumed bytes) m
decode_field fixed64 field bytes m = do rest ← skip_fixed 8 bytes; ok (m, rest)
decode_field fixed32 field bytes m = do rest ← skip_fixed 4 bytes; ok (m, rest)

-- The field number and wire type of a key, with the errors that it may hold.
unfoldable pub read_key : ℕ → Result (WireType × ℕ)
read_key key_value =
    let field = key_value / 2 ^ 3 % 2 ^ 32 in
    let number = bit_and key_value 0x07 % 256 in
    elim (from_number number) [
      | none ↦ err (unknown_wire_type number)
      | some wire ↦ if field == 0 then err missing_field_number else ok (wire, field)
    ]

-- One field: its key and its value.
unfoldable pub decode_one : List ℕ → CastMessage → Result (CastMessage × List ℕ)
unfolding read_key decode_field from_number
decode_one bytes m = do
  (key_value, consumed) ← varint_decode bytes
  (wire, field) ← read_key key_value
  decode_field wire field (drop consumed bytes) m

-- `while pos < bytes.len()`.
unfoldable pub decode_fields : ℕ → List ℕ → CastMessage → Result CastMessage
unfolding decode_one
decode_fields fuel [] m = ok m
decode_fields zero (b ∷ bytes) m = stuck
decode_fields (suc fuel) (b ∷ bytes) m = do
  (m', rest) ← decode_one (b ∷ bytes) m
  decode_fields fuel rest m'

-- A field takes a byte at least.
unfoldable pub decode_cast_message : List ℕ → Result CastMessage
unfolding decode_fields empty
decode_cast_message bytes = decode_fields (length bytes) bytes empty
