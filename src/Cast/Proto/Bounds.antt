-- ===== src/Cast/Proto/Bounds.antt =====
-- `varint_decode` on any bytes: its value and the bytes that it takes.
use cast_app.Common.{
  ℕ, ◌+◌, ◌*◌, ◌%◌, ◌^◌, ◌≤◌, ◌<◌, bit_and, ◌≡◌, ap, ◌∙◌, List, [], ◌∷◌, length, arith, ◌⊎◌, inl,
  inr,
}
use cast_app.Cast.Proto.{ok, add_group, decode_loop, varint_decode}
use cast_app.Cast.Proto.Varint.{low_group, group_added, next_weight, group_bound}
use native.Mathlib.Decide.{ℕ_discrete}
use native.Mathlib.Nat.{pow-le-pow_right}

weight_bound : (index : ℕ) → index ≤ 8 → 2 ^ (7 * index) ≤ 2 ^ 56
weight_bound index h = pow-le-pow_right (omega arith) {j = 56} (omega arith)

added :
    (value byte index : ℕ)
    → bit_and byte 0x7f * 2 ^ (7 * index) < 2 ^ 64
    → value < 2 ^ (7 * index)
    → add_group value byte index ≡ value + byte % 128 * 2 ^ (7 * index)
added value byte index fits low =
    group_added value (bit_and byte 0x7f) index (omega (arith, low_group byte)) low fits
    ∙ ap (λ (g : ℕ). value + g * 2 ^ (7 * index)) (low_group byte)

-- Below the tenth byte the value stays below the next weight.
early_round :
    (value byte index : ℕ)
    → index ≤ 8
    → value < 2 ^ (7 * index)
    → (add_group value byte index < 2 ^ (7 * (index + 1))) × (add_group value byte index < 2 ^ 64)
early_round value byte index near low = omega (
  arith,
  group_bound value (byte % 128) (2 ^ (7 * index)) low,
  weight_bound index near,
  next_weight index,
  added value byte index fits low,
)
  where
    fits : bit_and byte 0x7f * 2 ^ (7 * index) < 2 ^ 64
    fits = omega (
      arith,
      group_bound value (bit_and byte 0x7f) (2 ^ (7 * index)) low,
      weight_bound index near,
      low_group byte,
    )

-- The tenth byte adds bit 63 at most.
tenth_round :
    (value byte : ℕ) → bit_and byte 0x7f ≤ 1 → value < 2 ^ (7 * 9) → add_group value byte 9 < 2 ^ 64
tenth_round value byte bit low = omega (arith, added value byte 9 (omega arith) low, low_group byte)

-- What a successful round shows.
round_lem :
    (byte : ℕ) (rest : List ℕ) (total index value v n : ℕ)
    → decode_loop total index value (byte ∷ rest) ≡ ok (v, n)
    → (index < 10)
      × (index ≡ 9 → bit_and byte 0x7f ≤ 1)
      × ((v ≡ add_group value byte index) × (n ≡ index + 1)
          ⊎ (decode_loop total (index + 1) (add_group value byte index) rest ≡ ok (v, n)))
unfolding decode_loop
round_lem byte rest total index value v n e = ground arith

value_bound :
    (value byte index : ℕ)
    → index < 10
    → (index ≡ 9 → bit_and byte 0x7f ≤ 1)
    → value < 2 ^ (7 * index)
    → (add_group value byte index < 2 ^ 64)
      × (index + 1 ≤ 9 → add_group value byte index < 2 ^ (7 * (index + 1)))
value_bound value byte index near ninth low = elim (ℕ_discrete index 9) [
  | yes e ↦ (
    rw e (tenth_round value byte (ninth e) (omega (arith, low, ap (λ (t : ℕ). 2 ^ (7 * t)) e))),
    λ h. absurd (omega arith),
  )
  | no other ↦
      let (step, whole) = early_round value byte index (omega arith) low in (whole, λ h. step)
]

loop_bounds :
    (bytes : List ℕ) (total index value v n : ℕ)
    → index ≤ 10
    → (index ≤ 9 → value < 2 ^ (7 * index))
    → decode_loop total index value bytes ≡ ok (v, n)
    → (v < 2 ^ 64) × (index < n) × (n ≤ 10) × (n ≤ index + length bytes)
loop_bounds [] total index value v n near low e = unfold decode_loop in absurd (ground (arith, e))
loop_bounds (byte ∷ rest) total index value v n near low e =
    let (below, ninth, next) = round_lem byte rest total index value v n e in
    let (fits, step) = value_bound value byte index below ninth (low (omega arith)) in
    elim next [
      | inl done ↦
          (rw (done.0) fits, omega (arith, done.1), omega (arith, done.1), omega (arith, done.1))
      | inr more ↦ omega (
        arith,
        loop_bounds rest total (index + 1) (add_group value byte index) v n (omega arith) step more,
      )
    ]

-- A successful `varint_decode` returns a u64 and takes 1 to 10 bytes, all of them from its input.
pub varint_decode_bounds :
    (bytes : List ℕ) (v n : ℕ)
    → varint_decode bytes ≡ ok (v, n)
    → (v < 2 ^ 64) × (1 ≤ n) × (n ≤ 10) × (n ≤ length bytes)
unfolding varint_decode
varint_decode_bounds bytes v n e =
    omega (arith, loop_bounds bytes (length bytes) 0 0 v n (omega arith) (λ h. omega arith) e)
