-- ===== src/Cast/Proto/Examples.antt =====
-- Runs of src/cast/proto.rs, and its theorems at concrete inputs.
use cast_app.Common.{ℕ, ◌^◌, ◌≤◌, ◌<◌, ◌≡◌, ◌≢◌, refl, List, [], ◌∷◌, ◌++◌, length, arith}
use cast_app.Cast.Proto.{
  ok, err, stuck, varint_overflow, field_too_large, unknown_wire_type, missing_field_number,
  varint_encode, varint_decode,
}
use cast_app.Cast.Proto.Varint.{varint_decode-varint_encode}
use cast_app.Cast.Proto.Bounds.{varint_decode_bounds}
use cast_app.Cast.Proto.Message.{string, encode_cast_message, decode_cast_message}
use cast_app.Cast.Proto.RoundTrip.{decode-encode_cast_message}
use cast_app.Cast.Proto.Total.{decode_cast_message-ne-stuck}
use cast_app.Common.Utf8.{IsUtf8, from_utf8_lossy}

encode_128 : varint_encode 128 ≡ 0x80 ∷ 0x01 ∷ []
unfolding varint_encode
encode_128 = refl

encode_max :
    varint_encode 0xffff_ffff_ffff_ffff
    ≡ 0xff ∷ 0xff ∷ 0xff ∷ 0xff ∷ 0xff ∷ 0xff ∷ 0xff ∷ 0xff ∷ 0xff ∷ 0x01 ∷ []
unfolding varint_encode
encode_max = refl

tenth_byte_overflow :
    varint_decode (0xff ∷ 0xff ∷ 0xff ∷ 0xff ∷ 0xff ∷ 0xff ∷ 0xff ∷ 0xff ∷ 0xff ∷ 0x02 ∷ [])
    ≡ err varint_overflow
unfolding varint_decode
tenth_byte_overflow = refl

field_6_too_large :
    decode_cast_message (0x32 ∷ 0xff ∷ 0xff ∷ 0xff ∷ 0x7f ∷ 0x01 ∷ []) ≡ err field_too_large
unfolding decode_cast_message varint_decode
field_6_too_large = refl

group_is_refused : decode_cast_message (0x1b ∷ []) ≡ err (unknown_wire_type 3)
unfolding decode_cast_message varint_decode
group_is_refused = refl

field_zero_is_refused : decode_cast_message (0 ∷ []) ≡ err missing_field_number
unfolding decode_cast_message varint_decode
field_zero_is_refused = refl

varint_decode-varint_encode_example :
    varint_decode (varint_encode 300 ++ (9 ∷ [])) ≡ ok (300, length (varint_encode 300))
varint_decode-varint_encode_example = varint_decode-varint_encode 300 (9 ∷ []) (omega arith)

varint_decode_bounds_example : (1 < 2 ^ 64) × (1 ≤ 2) × (2 ≤ 10) × (2 ≤ 3)
varint_decode_bounds_example =
    varint_decode_bounds (0x81 ∷ 0x00 ∷ 7 ∷ []) 1 2 (unfold varint_decode in refl)

decode_cast_message-ne-stuck_example : decode_cast_message (0x08 ∷ []) ≢ stuck
decode_cast_message-ne-stuck_example = decode_cast_message-ne-stuck (0x08 ∷ [])

abbrev hi : List ℕ
hi = 104 ∷ 105 ∷ []

hi-IsUtf8 : IsUtf8 hi
unfolding from_utf8_lossy
hi-IsUtf8 = refl

nothing-IsUtf8 : IsUtf8 []
unfolding from_utf8_lossy
nothing-IsUtf8 = refl

decode-encode_cast_message_example :
    decode_cast_message (encode_cast_message hi [] hi hi)
    ≡ ok (record {
      protocol_version = 0;
      source_id = hi;
      destination_id = [];
      namespace = hi;
      payload_type = string;
      payload_utf8 = hi;
    })
decode-encode_cast_message_example =
    decode-encode_cast_message hi [] hi hi hi-IsUtf8 nothing-IsUtf8 hi-IsUtf8 hi-IsUtf8
      (omega arith) (omega arith) (omega arith) (omega arith)
