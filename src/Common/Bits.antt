-- ===== src/Common/Bits.antt =====
-- `|` of disjoint fields and `&` with a low mask are sums and remainders. The native operations
-- stand for a recursion on binary digits, with fuel; one step of it is enough for an induction
-- on the width.
use Prim.Native.Nat.{ℕ, zero, suc, ◌+◌, ◌-◌, ◌*◌, ◌/◌, ◌%◌, ◌^◌, ◌≤◌, ◌<◌, min, max}
use Prim.Native.Nat.{bit_and, bit_or, digits, bitwise, bit_and-bitwise, bit_or-bitwise}
use mathlib.Core.Path.{◌≡◌, refl, ap}
use native.Mathlib.Nat.{pow-suc, one-le-pow, le_refl}
use native.Mathlib.Omega.{arith}
use native.Mathlib.Decide.{dec_le}

-- A round more than the first number asks for.
spare_round :
    (z : ℕ → ℕ) (op : ℕ → ℕ → ℕ) (rounds x y : ℕ)
    → x ≤ rounds
    → digits z op (suc rounds) x y ≡ digits z op rounds x y
spare_round z op zero zero y few = refl
spare_round z op (suc rounds) zero y few = refl
spare_round z op zero (suc x) y few = absurd (omega arith)
spare_round z op (suc rounds) (suc x) y few =
    ap (λ (high : ℕ). high * 2 + op (suc x % 2) (y % 2))
      (spare_round z op rounds (suc x / 2) (y / 2) (omega arith))

spare_rounds :
    (z : ℕ → ℕ) (op : ℕ → ℕ → ℕ) (rounds x y : ℕ)
    → x ≤ rounds
    → digits z op rounds x y ≡ bitwise z op x y
spare_rounds z op zero zero y few = refl
spare_rounds z op zero (suc x) y few = absurd (omega arith)
spare_rounds z op (suc rounds) x y few = elim (dec_le x rounds) [
  | yes fewer ↦ rw (spare_round z op rounds x y fewer) (spare_rounds z op rounds x y fewer)
  | no all ↦ ap (λ (n : ℕ). digits z op n x y) {x = suc rounds} (omega arith)
]

-- The operation on the halves, and on the lowest digits.
halves :
    (z : ℕ → ℕ) (op : ℕ → ℕ → ℕ) (x y : ℕ)
    → bitwise z op (suc x) y ≡ op (suc x % 2) (y % 2) + 2 * bitwise z op (suc x / 2) (y / 2)
halves z op x y = omega (arith, spare_rounds z op x (suc x / 2) (y / 2) (omega arith))

or_digits : (x y : ℕ) → bit_or x y ≡ bitwise (λ y. y) max x y
or_digits x y = bit_or-bitwise x y

and_digits : (x y : ℕ) → bit_and x y ≡ bitwise (λ y. 0) min x y
and_digits x y = bit_and-bitwise x y

zero-bit_or : (y : ℕ) → bit_or 0 y ≡ y
zero-bit_or = or_digits 0

zero-bit_and : (y : ℕ) → bit_and 0 y ≡ 0
zero-bit_and = and_digits 0

or_halves : (x y : ℕ) → bit_or x y ≡ max (x % 2) (y % 2) + 2 * bit_or (x / 2) (y / 2)
or_halves zero y = omega (arith, zero-bit_or y, zero-bit_or (y / 2))
or_halves (suc x) y =
    rw (or_digits (suc x) y) (rw (or_digits (suc x / 2) (y / 2)) (halves _ max x y))

and_halves : (x y : ℕ) → bit_and x y ≡ min (x % 2) (y % 2) + 2 * bit_and (x / 2) (y / 2)
and_halves zero y = omega (arith, zero-bit_and y, zero-bit_and (y / 2))
and_halves (suc x) y =
    rw (and_digits (suc x) y) (rw (and_digits (suc x / 2) (y / 2)) (halves _ min x y))

-- Zero as the second number: every digit of it is 0, in any number of rounds.
or_zero_digits : (rounds x : ℕ) → x ≤ rounds → digits (λ y. y) max rounds x 0 ≡ x
or_zero_digits zero zero few = refl
or_zero_digits zero (suc x) few = absurd (omega arith)
or_zero_digits (suc rounds) zero few = refl
or_zero_digits (suc rounds) (suc x) few =
    omega (arith, or_zero_digits rounds (suc x / 2) (omega arith))

and_zero_digits : (rounds x : ℕ) → digits (λ y. 0) min rounds x 0 ≡ 0
and_zero_digits zero x = refl
and_zero_digits (suc rounds) zero = refl
and_zero_digits (suc rounds) (suc x) = omega (arith, and_zero_digits rounds (suc x / 2))

bit_or-zero : (x : ℕ) → bit_or x 0 ≡ x
bit_or-zero x = rw (or_digits x 0) (or_zero_digits x x (le_refl x))

bit_and-zero : (x : ℕ) → bit_and x 0 ≡ 0
bit_and-zero x = rw (and_digits x 0) (and_zero_digits x x)

two_pow-suc : (q k : ℕ) → q * 2 ^ suc k ≡ 2 * (q * 2 ^ k)
two_pow-suc q k = omega (arith, ap (λ (t : ℕ). q * t) (pow-suc 2 k))

-- `low | (high << k)` is a sum when `low` fits `k` bits.
pub bit_or_shifted : (k low high : ℕ) → low < 2 ^ k → bit_or low (high * 2 ^ k) ≡ low + high * 2 ^ k
bit_or_shifted zero low high h =
    ground (arith, zero-bit_or (high * 2 ^ 0), ap (λ (t : ℕ). bit_or t (high * 2 ^ 0)) zero_low)
  where
    zero_low : low ≡ 0
    zero_low = omega arith
bit_or_shifted (suc k) low high h = ground (
  arith,
  or_halves low (high * 2 ^ suc k),
  two_pow-suc high k,
  pow-suc 2 k,
  bit_or_shifted k (low / 2) high (omega (arith, pow-suc 2 k)),
)

-- `(high << k) | low`, the other way round.
pub shifted_bit_or : (k high low : ℕ) → low < 2 ^ k → bit_or (high * 2 ^ k) low ≡ high * 2 ^ k + low
shifted_bit_or zero high low h =
    ground (arith, bit_or-zero (high * 2 ^ 0), ap (λ (t : ℕ). bit_or (high * 2 ^ 0) t) zero_low)
  where
    zero_low : low ≡ 0
    zero_low = omega arith
shifted_bit_or (suc k) high low h = ground (
  arith,
  or_halves (high * 2 ^ suc k) low,
  two_pow-suc high k,
  pow-suc 2 k,
  shifted_bit_or k high (low / 2) (omega (arith, pow-suc 2 k)),
)

mask_step : (k q r : ℕ) → r < 2 ^ k → bit_and (q * 2 ^ k + r) (2 ^ k - 1) ≡ r
mask_step zero q r h = rw bit_and-zero (omega arith)
mask_step (suc k) q r h = ground (
  arith,
  and_halves (q * 2 ^ suc k + r) (2 ^ suc k - 1),
  two_pow-suc q k,
  pow-suc 2 k,
  mask_step k q (r / 2) (omega (arith, pow-suc 2 k)),
)

-- `a & (2^k - 1)` keeps the low `k` bits.
pub bit_and_mask : (k a : ℕ) → bit_and a (2 ^ k - 1) ≡ a % 2 ^ k
bit_and_mask k a = ground (arith, one-le-pow k 2, mask_step k (a / 2 ^ k) (a % 2 ^ k))

one_bit_step : (k q r : ℕ) → r < 2 ^ k → bit_and (q * 2 ^ k + r) (2 ^ k) ≡ q % 2 * 2 ^ k
one_bit_step zero q r h = omega (arith, and_halves (q * 2 ^ 0 + r) 1, bit_and-zero (q / 2), sum)
  where
    sum : bit_and ((q * 2 ^ 0 + r) / 2) (1 / 2) ≡ bit_and (q / 2) 0
    sum = ap (λ (t : ℕ). bit_and t 0) (omega arith)
one_bit_step (suc k) q r h = ground (
  arith,
  and_halves (q * 2 ^ suc k + r) (2 ^ suc k),
  two_pow-suc q k,
  two_pow-suc (q % 2) k,
  pow-suc 2 k,
  one_bit_step k q (r / 2) (omega (arith, pow-suc 2 k)),
)

-- `a & (1 << k)` is the bit at its place.
pub bit_and_bit : (k a : ℕ) → bit_and a (2 ^ k) ≡ a / 2 ^ k % 2 * 2 ^ k
bit_and_bit k a = ground (arith, one-le-pow k 2, one_bit_step k (a / 2 ^ k) (a % 2 ^ k))
