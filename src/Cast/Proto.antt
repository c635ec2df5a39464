-- ===== src/Cast/Proto.antt =====
-- src/cast/proto.rs: varints and the CastMessage codec. A slice `&bytes[pos..]` is the list of the
-- bytes from `pos` on; a `String` is the list of its UTF-8 bytes.
pub mod Varint
pub mod Bounds
pub mod Message
pub mod RoundTrip
pub mod Total
mod Examples
use cast_app.Common.{
  ℕ, zero, suc, ◌+◌, ◌-◌, ◌*◌, ◌/◌, ◌%◌, ◌^◌, ◌<◌, bit_and, bit_or, ◌≡◌, Bool, ◌&&◌, List, [], ◌∷◌,
  ◌++◌, length, take, drop, ltb, leb, ◌==◌, if◌then◌else◌, lt_wf, arith,
}
use cast_app.Common.Utf8.{from_utf8_lossy}
use mathlib.Core.Logic.{dite, ◌≢◌}
use mathlib.Core.WellFounded.{Acc}
use native.Mathlib.Decide.{ℕ_discrete}

-- `MAX_FIELD_SIZE`, 16 MiB.
abbrev pub max_field_size : ℕ
max_field_size = 16 * 1024 * 1024

pub data WireType : Type 0 where
  varint fixed64 length_delimited fixed32 : WireType

pub data ProtoError : Type 0 where
  unexpected_end : ℕ → ProtoError
  varint_overflow : ProtoError
  unknown_wire_type : ℕ → ProtoError
  missing_field_number : ProtoError
  truncated_field : ℕ → ℕ → ProtoError
  field_too_large : ProtoError

-- `Result<A, ProtoError>`; `stuck` is no Rust value: the decoder's loop ran out of fuel.
pub data Result {ℓ} (A : Type ℓ) : Type ℓ where
  ok : A → Result A
  err : ProtoError → Result A
  stuck : Result A

infixl 5 ◌>>=◌
abbrev pub ◌>>=◌ {ℓ κ} : {A : Type ℓ} {B : Type κ} → Result A → (A → Result B) → Result B
ok a >>= f = f a
err e >>= f = err e
stuck >>= f = stuck

pub shift_shrinks : (v : ℕ) → v / 128 ≢ 0 → v / 128 < v
shift_shrinks v h = omega arith

-- The loop of `varint_encode`: `value >>= 7` until it is 0.
unfoldable pub encode_loop : (value : ℕ) → Acc ◌<◌ value → List ℕ → List ℕ
encode_loop value (Acc.intro _ smaller) out =
    let byte = bit_and value 0x7f % 256 in
    dite (ℕ_discrete (value / 128) 0) (λ _. out ++ (byte ∷ []))
      (λ more.
        encode_loop (value / 128) (smaller _ (shift_shrinks value more))
          (out ++ (bit_or byte 0x80 ∷ [])))

unfoldable pub varint_encode : ℕ → List ℕ
unfolding encode_loop lt_wf ℕ_discrete
varint_encode value = encode_loop value (lt_wf.apply value) []

-- `value |= ((byte & 0x7F) as u64) << (7 * index)`.
abbrev pub add_group : ℕ → ℕ → ℕ → ℕ
add_group value byte index = bit_or value (bit_and byte 0x7f * 2 ^ (7 * index) % 2 ^ 64)

-- The loop of `varint_decode`; `total` is `bytes.len()`.
unfoldable pub decode_loop : ℕ → ℕ → ℕ → List ℕ → Result (ℕ × ℕ)
decode_loop total index value [] = err (unexpected_end total)
decode_loop total index value (byte ∷ rest) =
    let value' = add_group value byte index in
    let more = decode_loop total (index + 1) value' rest in
    if leb 10 index
    then err varint_overflow
    else if index == 9 && ltb 1 (bit_and byte 0x7f)
    then err varint_overflow
    else if bit_and byte 0x80 == 0
    then ok (value', index + 1)
    else more

unfoldable pub varint_decode : List ℕ → Result (ℕ × ℕ)
unfolding decode_loop
varint_decode bytes = decode_loop (length bytes) 0 0 bytes
