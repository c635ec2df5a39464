-- ===== src/Cast/Proto/Varint.antt =====
-- Varints of src/cast/proto.rs: `varint_decode` on what `varint_encode` wrote.
use cast_app.Common.{
  ℕ, ◌+◌, ◌*◌, ◌/◌, ◌%◌, ◌^◌, ◌≤◌, ◌<◌, bit_and, bit_or, ◌≡◌, ◌≢◌, sym, ap, ◌∙◌, List, [], ◌∷◌,
  ◌++◌, length, lt_wf, arith, append_assoc,
}
use cast_app.Common.Bits.{bit_and_mask, bit_and_bit, bit_or_shifted}
use cast_app.Cast.Proto.{ok, encode_loop, varint_encode, decode_loop, varint_decode, shift_shrinks}
use mathlib.Core.Logic.{dif_neg}
use mathlib.Core.WellFounded.{Acc}
use native.Mathlib.Decide.{ℕ_discrete}
use native.Mathlib.Numerals.{towards_suc}
use mathlib.Core.Path.{ap₂}
use native.Mathlib.Nat.{mod-eq_of_lt, div-add-mod}

pub low_group : (v : ℕ) → bit_and v 0x7f ≡ v % 128
low_group v = bit_and_mask 7 v

-- The top bit of a byte marks that more follow.
top_bit : (b : ℕ) → bit_and b 0x80 ≡ b / 128 % 2 * 128
top_bit b = bit_and_bit 7 b

marked : (b : ℕ) → b < 128 → bit_or b 0x80 ≡ b + 128
marked b h = bit_or_shifted 7 b 1 h

encode_last :
    (v : ℕ) (w : Acc ◌<◌ v) (out : List ℕ) → v < 128 → encode_loop v w out ≡ out ++ (v ∷ [])
unfolding encode_loop
encode_last v (Acc.intro _ smaller) out h = grind (arith, low_group v)

marked_group : (v : ℕ) → bit_or (bit_and v 0x7f % 256) 0x80 ≡ v % 128 + 128
marked_group v = ap (λ (t : ℕ). bit_or t 0x80) small ∙ marked (v % 128) (omega arith)
  where
    small : bit_and v 0x7f % 256 ≡ v % 128
    small = omega (arith, low_group v)

encode_round :
    (v : ℕ) (smaller : (m : ℕ) → m < v → Acc ◌<◌ m) (out : List ℕ) (p : v / 128 ≢ 0)
    → encode_loop v (Acc.intro v smaller) out
      ≡ encode_loop
          (v / 128)
          (smaller (v / 128) (shift_shrinks v p))
          (out ++ (bit_or (bit_and v 0x7f % 256) 0x80 ∷ []))
unfolding encode_loop
encode_round v smaller out p = dif_neg (ℕ_discrete (v / 128) 0) p _ _

encode_more :
    (v : ℕ) (smaller : (m : ℕ) → m < v → Acc ◌<◌ m) (out : List ℕ) (p : v / 128 ≢ 0)
    → encode_loop v (Acc.intro v smaller) out
      ≡ encode_loop
          (v / 128)
          (smaller (v / 128) (shift_shrinks v p))
          (out ++ ((v % 128 + 128) ∷ []))
encode_more v smaller out p =
    encode_round v smaller out p
    ∙ ap
        (λ (b : ℕ). encode_loop (v / 128) (smaller (v / 128) (shift_shrinks v p)) (out ++ (b ∷ [])))
        (marked_group v)

-- A round of `decode_loop` on a last byte, and on a byte that announces more.
pub group_added :
    (value g index : ℕ)
    → g < 128
    → value < 2 ^ (7 * index)
    → g * 2 ^ (7 * index) < 2 ^ 64
    → bit_or value (g * 2 ^ (7 * index) % 2 ^ 64) ≡ value + g * 2 ^ (7 * index)
group_added value g index small low fits =
    ap (bit_or value) (mod-eq_of_lt fits) ∙ bit_or_shifted (7 * index) value g low

decode_last :
    (total index value v : ℕ) (rest : List ℕ)
    → v < 128
    → index ≤ 9
    → (index ≡ 9 → v ≤ 1)
    → value < 2 ^ (7 * index)
    → v * 2 ^ (7 * index) < 2 ^ 64
    → decode_loop total index value (v ∷ rest) ≡ ok (value + v * 2 ^ (7 * index), index + 1)
unfolding decode_loop
decode_last total index value v rest small near ninth low fits =
    ground (arith, low_group v, top_bit v, group_added value v index small low fits)

decode_more :
    (total index value g : ℕ) (rest : List ℕ)
    → g < 128
    → index ≤ 8
    → value < 2 ^ (7 * index)
    → g * 2 ^ (7 * index) < 2 ^ 64
    → decode_loop total index value ((g + 128) ∷ rest)
      ≡ decode_loop total (index + 1) (value + g * 2 ^ (7 * index)) rest
unfolding decode_loop
decode_more total index value g rest small near low fits =
    ground (arith, low_group (g + 128), top_bit (g + 128), group_added value g index small low fits)

-- What is pushed stands behind what was there.
encode_loop-append :
    (v : ℕ) (w : Acc ◌<◌ v) (out : List ℕ) → encode_loop v w out ≡ out ++ encode_loop v w []
encode_loop-append v (Acc.intro _ smaller) out = elim (ℕ_discrete (v / 128) 0) [
  | yes p ↦
      encode_last v (Acc.intro v smaller) out (omega arith)
      ∙ ap (λ (t : List ℕ). out ++ t) (sym (encode_last v (Acc.intro v smaller) [] (omega arith)))
  | no p ↦
      let head : List ℕ = (v % 128 + 128) ∷ [] in
      encode_more v smaller out p
      ∙ encode_loop-append (v / 128) (smaller (v / 128) (shift_shrinks v p)) (out ++ head)
      ∙ append_assoc out head (encode_loop (v / 128) (smaller (v / 128) (shift_shrinks v p)) [])
      ∙ ap (λ (t : List ℕ). out ++ t)
          (sym (
            encode_more v smaller [] p
            ∙ encode_loop-append (v / 128) (smaller (v / 128) (shift_shrinks v p)) head))
]

encode_cons :
    (v : ℕ) (smaller : (m : ℕ) → m < v → Acc ◌<◌ m) (p : v / 128 ≢ 0)
    → encode_loop v (Acc.intro v smaller) []
      ≡ (v % 128 + 128) ∷ encode_loop (v / 128) (smaller (v / 128) (shift_shrinks v p)) []
encode_cons v smaller p =
    encode_more v smaller [] p
    ∙ encode_loop-append (v / 128) (smaller (v / 128) (shift_shrinks v p)) ((v % 128 + 128) ∷ [])

pub next_weight : (index : ℕ) → 2 ^ (7 * (index + 1)) ≡ 128 * 2 ^ (7 * index)
next_weight index = ap (λ (t : ℕ). 2 ^ t) (omega arith) ∙ seven (7 * index)
  where
    seven : (s : ℕ) → 2 ^ (s + 7) ≡ 128 * 2 ^ s
    seven s = simp towards_suc (omega arith)

-- The lowest group and the rest of `v`, at their weights.
split_weight :
    (v index : ℕ)
    → v * 2 ^ (7 * index) ≡ v % 128 * 2 ^ (7 * index) + v / 128 * 2 ^ (7 * (index + 1))
split_weight v index = omega (
  arith,
  ap (λ (t : ℕ). t * 2 ^ (7 * index)) (div-add-mod v 128),
  ap (λ (t : ℕ). v / 128 * t) (next_weight index),
)

ninth_is_bit : (v index : ℕ) → v * 2 ^ (7 * index) < 2 ^ 64 → index ≡ 9 → v ≤ 1
ninth_is_bit v index fits e = omega (arith, ap (λ (t : ℕ). v * 2 ^ (7 * t)) e)

below_ninth : (v index : ℕ) → 128 ≤ v → index ≤ 9 → v * 2 ^ (7 * index) < 2 ^ 64 → index ≤ 8
below_ninth v index big near fits = elim (ℕ_discrete index 9) [
  | yes e ↦ absurd (omega (arith, ninth_is_bit v index fits e))
  | no other ↦ omega arith
]

pub group_bound :
    (value g weight : ℕ) → value < weight → g < 128 → value + g * weight < 128 * weight
group_bound value g weight low small = grind arith

decode-encode_loop :
    (v : ℕ) (w : Acc ◌<◌ v) (total index value : ℕ) (rest : List ℕ)
    → index ≤ 9
    → value < 2 ^ (7 * index)
    → value + v * 2 ^ (7 * index) < 2 ^ 64
    → decode_loop total index value (encode_loop v w [] ++ rest)
      ≡ ok (value + v * 2 ^ (7 * index), index + length (encode_loop v w []))
decode-encode_loop v (Acc.intro _ smaller) total index value rest near low fits =
    elim (ℕ_discrete (v / 128) 0) [
      | yes p ↦ rw (encode_last v (Acc.intro v smaller) [] (omega arith)) (
          decode_last total index value v rest (omega arith) near
            (ninth_is_bit v index (omega arith)) low (omega arith))
      | no p ↦ rw (encode_cons v smaller p) (
          decode_more total index value (v % 128)
            (encode_loop (v / 128) (smaller (v / 128) (shift_shrinks v p)) [] ++ rest) (omega arith)
            (below_ninth v index (omega arith) near (omega arith)) low
            (omega (arith, split_weight v index))
          ∙ decode-encode_loop (v / 128) (smaller (v / 128) (shift_shrinks v p)) total (index + 1)
              (value + v % 128 * 2 ^ (7 * index)) rest
              (omega (arith, below_ninth v index (omega arith) near (omega arith)))
              (omega (arith, next_weight index, group_bound value (v % 128) (2 ^ (7 * index)) low))
              (omega (arith, split_weight v index))
          ∙ ap₂ (λ (a b : ℕ). ok (a, b)) (omega (arith, split_weight v index)) (omega arith))
    ]

-- `varint_decode` reads back the u64 that `varint_encode` wrote, whatever follows, and reports the
-- number of bytes written.
pub varint_decode-varint_encode :
    (v : ℕ) (rest : List ℕ)
    → v < 2 ^ 64
    → varint_decode (varint_encode v ++ rest) ≡ ok (v, length (varint_encode v))
unfolding varint_decode varint_encode
varint_decode-varint_encode v rest h =
    decode-encode_loop v (lt_wf.apply v) (length (varint_encode v ++ rest)) 0 0 rest (omega arith)
      (omega arith) (omega arith)
    ∙ ap₂ (λ (a b : ℕ). ok (a, b)) (omega arith) (omega arith)
