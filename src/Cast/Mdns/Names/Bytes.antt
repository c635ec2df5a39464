-- ===== src/Cast/Mdns/Names/Bytes.antt =====
-- The first byte of a part of a name: its upper bits, and the offset of a pointer.
use cast_app.Common.{
  ℕ, zero, suc, ◌+◌, ◌-◌, ◌*◌, ◌^◌, ◌≤◌, ◌<◌, ◌≡◌, refl, bit_and, bit_or, not, ◌&&◌, some, Bool,
  true, false, List, [], ◌∷◌, length, get_elem?, All, ltb, leb, ◌==◌, if◌then◌else◌, arith,
}
use mathlib.Core.Path.{subst}
use cast_app.Common.Bytes.{IsByte}
use cast_app.Common.Bits.{bit_and_mask, shifted_bit_or}

-- Whether two tests agree on all numbers below a bound.
agrees_below : (p q : ℕ → Bool) → ℕ → Bool
agrees_below p q zero = true
agrees_below p q (suc bound) =
    (if p bound then q bound else not (q bound)) && agrees_below p q bound

agrees_below-≡ :
    (p q : ℕ → Bool) (bound b : ℕ) → agrees_below p q bound ≡ true → b < bound → p b ≡ q b
unfolding agrees_below
agrees_below-≡ p q zero b h lt = absurd (omega arith)
agrees_below-≡ p q (suc bound) b h lt = ground (arith, agrees_below-≡ p q bound b)

-- The two upper bits of a byte: both set, or none.
pub both_bits : (b : ℕ) → IsByte b → (bit_and b 0xc0 == 0xc0) ≡ leb 192 b
unfolding agrees_below
both_bits b h = agrees_below-≡ (λ b. bit_and b 0xc0 == 0xc0) (leb 192) 256 b refl h

pub no_bits : (b : ℕ) → IsByte b → (bit_and b 0xc0 == 0) ≡ ltb b 64
unfolding agrees_below
no_bits b h = agrees_below-≡ (λ b. bit_and b 0xc0 == 0) (λ b. ltb b 64) 256 b refl h

pub is_high : (b : ℕ) → IsByte b → (bit_and b 0xc0 == 0xc0) ≡ true → 192 ≤ b
is_high b byte h = ground (arith, both_bits b byte)

pub is_low : (b : ℕ) → IsByte b → not (bit_and b 0xc0 == 0) ≡ false → b < 64
is_low b byte h = ground (arith, no_bits b byte)

pub offset_lem :
    (b low : ℕ)
    → 192 ≤ b
    → IsByte b
    → IsByte low
    → bit_or (bit_and b 0x3f * 2 ^ 8) low ≡ (b - 192) * 256 + low
offset_lem b low high byte small =
    ground (arith, bit_and_mask 6 b, shifted_bit_or 8 (bit_and b 0x3f) low)

pub elem-lt : (xs : List ℕ) (i : ℕ) {x : ℕ} → get_elem? xs i ≡ some x → i < length xs
elem-lt [] i h = cc
elem-lt (y ∷ xs) zero h = omega arith
elem-lt (y ∷ xs) (suc i) h = omega (arith, elem-lt xs i h)

pub elem-All :
    (P : ℕ → Type 0) (xs : List ℕ) (i : ℕ) {x : ℕ} → All P xs → get_elem? xs i ≡ some x → P x
elem-All P [] i all h = cc
elem-All P (y ∷ xs) zero (p, ps) h = subst P (cc) p
elem-All P (y ∷ xs) (suc i) (p, ps) h = elem-All P xs i ps h

pub some_injective : {b c : ℕ} → some b ≡ some c → b ≡ c
some_injective h = cc
