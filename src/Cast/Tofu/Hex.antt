-- ===== src/Cast/Tofu/Hex.antt =====
-- The hex texts of fingerprints.
use cast_app.Common.{
  ℕ, ◌*◌, ◌/◌, ◌%◌, ◌^◌, ◌<◌, ◌≡◌, refl, bit_or, some, true, [], ◌∷◌, length, All, ◌==◌, arith,
}
use cast_app.Common.Bytes.{IsByte}
use cast_app.Common.Bits.{shifted_bit_or}
use cast_app.Cast.Tofu.{
  Fingerprint, fingerprint_size, hex_digit, fingerprint_to_hex, hex_nibble, decode_digits,
  hex_to_fingerprint,
}

-- A SHA-256 digest.
abbrev pub IsFingerprint : Fingerprint → Type 0
IsFingerprint f = (length f ≡ fingerprint_size) × All IsByte f

hex_nibble-hex_digit : (n : ℕ) → n < 16 → hex_nibble (hex_digit n) ≡ some n
unfolding hex_nibble hex_digit
hex_nibble-hex_digit n small = ground arith

byte_of_nibbles : (b : ℕ) → b < 256 → bit_or (b / 16 * 2 ^ 4) (b % 16) ≡ b
byte_of_nibbles b h = omega (arith, shifted_bit_or 4 (b / 16) (b % 16) (omega arith))

decode_digits-fingerprint_to_hex :
    (f : Fingerprint) → All IsByte f → decode_digits (fingerprint_to_hex f) ≡ some f
unfolding decode_digits fingerprint_to_hex
decode_digits-fingerprint_to_hex [] bytes = refl
decode_digits-fingerprint_to_hex (b ∷ f) (byte, bytes) = rw (
  hex_nibble-hex_digit (b / 16) (omega arith),
  hex_nibble-hex_digit (b % 16) (omega arith),
  decode_digits-fingerprint_to_hex f bytes,
  byte_of_nibbles b byte,
)

length-fingerprint_to_hex : (f : Fingerprint) → length (fingerprint_to_hex f) ≡ 2 * length f
unfolding fingerprint_to_hex
length-fingerprint_to_hex [] = omega arith
length-fingerprint_to_hex (b ∷ f) = omega (arith, length-fingerprint_to_hex f)

pub hex_to_fingerprint-fingerprint_to_hex :
    (f : Fingerprint) → IsFingerprint f → hex_to_fingerprint (fingerprint_to_hex f) ≡ some f
unfolding hex_to_fingerprint
hex_to_fingerprint-fingerprint_to_hex f (size, bytes) =
    let sixty_four : (length (fingerprint_to_hex f) == 64) ≡ true =
      ground (arith, length-fingerprint_to_hex f) in
    rw sixty_four (decode_digits-fingerprint_to_hex f bytes)
