-- ===== src/Common/Float.antt =====
-- An `f32` or `f64` is its bit pattern (IEEE 754): the conversions between them, `u64 as f64`,
-- `is_finite` and `clamp(0.0, 1.0)`.
use Prim.Native.Nat.{ℕ, zero, suc, ◌+◌, ◌-◌, ◌*◌, ◌/◌, ◌%◌, ◌^◌, min, max}
use mathlib.Core.Path.{◌≡◌, refl}
use mathlib.Core.Bool.{Bool, not, ◌&&◌, ◌||◌}
use cast_app.Common.Tests.{ltb, leb, ◌==◌, if◌then◌else◌}

-- The place of the highest bit, on enough fuel.
log2 : ℕ → ℕ → ℕ
log2 zero n = 0
log2 (suc fuel) n = let rest = log2 fuel (n / 2) in if ltb n 2 then 0 else suc rest

-- `m / 2^k`, rounded to nearest, ties to even.
shift_round : ℕ → ℕ → ℕ
shift_round m k =
    let q = m / 2 ^ k in
    let r = m % 2 ^ k in
    if ltb (2 ^ k) (2 * r) || ((2 * r == 2 ^ k) && (q % 2 == 1)) then q + 1 else q

-- `f64 as f32`.
unfoldable pub narrow : ℕ → ℕ
unfolding shift_round
narrow b =
    let sign = b / 2 ^ 63 * 2 ^ 31 in
    let e = b / 2 ^ 52 % 2 ^ 11 in
    let m = b % 2 ^ 52 in
    if e == 2047
    then sign + 255 * 2 ^ 23 + (if m == 0 then 0 else 2 ^ 22 + m / 2 ^ 29 % 2 ^ 22)
    else if leb 897 e
    then sign + min (255 * 2 ^ 23) ((e - 897) * 2 ^ 23 + shift_round (2 ^ 52 + m) 29)
    else sign + shift_round (if e == 0 then m else 2 ^ 52 + m) (926 - max e 1)

-- `f32 as f64`.
unfoldable pub widen : ℕ → ℕ
unfolding log2
widen x =
    let sign = x / 2 ^ 31 * 2 ^ 63 in
    let e = x / 2 ^ 23 % 2 ^ 8 in
    let m = x % 2 ^ 23 in
    let l = log2 32 m in
    if e == 255
    then sign + 2047 * 2 ^ 52 + (if m == 0 then 0 else 2 ^ 51 + m % 2 ^ 22 * 2 ^ 29)
    else if not (e == 0)
    then sign + (e + 896) * 2 ^ 52 + m * 2 ^ 29
    else if m == 0
    then sign
    else sign + (l + 874) * 2 ^ 52 + (m - 2 ^ l) * 2 ^ (52 - l)

-- `n as f64` of a `u64`.
unfoldable pub f64_of_nat : ℕ → ℕ
unfolding log2 shift_round
f64_of_nat n =
    let l = log2 64 n in
    if n == 0
    then 0
    else if leb l 52
    then (l + 1023) * 2 ^ 52 + (n - 2 ^ l) * 2 ^ (52 - l)
    else (l + 1022) * 2 ^ 52 + shift_round n (l - 52)

abbrev pub f32_one : ℕ
f32_one = 0x3f800000

-- `f32::is_finite`.
unfoldable pub is_finite : ℕ → Bool
is_finite x = not (x / 2 ^ 23 % 2 ^ 8 == 255)

-- `x.clamp(0.0, 1.0)` of a number: only numbers below 0.0 have bits above those of -0.0.
unfoldable pub clamp_unit : ℕ → ℕ
clamp_unit x = if ltb (2 ^ 31) x then 0 else if ltb x (2 ^ 31) && ltb f32_one x then f32_one else x

half_widens : widen 0x3f000000 ≡ 0x3fe0000000000000
unfolding widen
half_widens = refl

half_narrows : narrow 0x3fe0000000000000 ≡ 0x3f000000
unfolding narrow
half_narrows = refl

tenth_narrows : narrow 0x3fb999999999999a ≡ 0x3dcccccd
unfolding narrow
tenth_narrows = refl

smallest_widens : widen 1 ≡ 0x36a0000000000000
unfolding widen
smallest_widens = refl

smallest_narrows : narrow 0x36a0000000000000 ≡ 1
unfolding narrow
smallest_narrows = refl

three_as_float : f64_of_nat 3 ≡ 0x4008000000000000
unfolding f64_of_nat
three_as_float = refl
