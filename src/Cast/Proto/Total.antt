-- ===== src/Cast/Proto/Total.antt =====
-- The fuel of `decode_cast_message`: a field takes bytes.
use cast_app.Common.{
  ℕ, zero, suc, ◌+◌, ◌≤◌, ◌<◌, ◌≡◌, ◌≢◌, refl, List, [], ◌∷◌, length, drop, arith, length-drop, ltb,
  Bool-cases, inl, inr,
}
use cast_app.Cast.Proto.{
  max_field_size, WireType, varint, fixed64, length_delimited, fixed32, Result, ok, err, stuck,
  varint_decode, ◌>>=◌, decode_loop, add_group,
}
use cast_app.Cast.Proto.Bounds.{varint_decode_bounds}
use cast_app.Cast.Proto.Message.{
  CastMessage, decode_field, read_key, decode_one, decode_fields, decode_cast_message, skip_fixed,
  read_bytes, empty, from_number,
}

-- No `stuck`, and a result that leaves fewer than `n` bytes.
abbrev pub Takes : ℕ → Result (CastMessage × List ℕ) → Type 0
Takes n (ok (m, rest)) = length rest < n
Takes n (err e) = Unit {0}
Takes n stuck = ⊥

decode_loop-ne-stuck :
    (bytes : List ℕ) (total index value : ℕ) → decode_loop total index value bytes ≢ stuck
unfolding decode_loop
decode_loop-ne-stuck [] total index value e = cc
decode_loop-ne-stuck (b ∷ bytes) total index value e =
    ground (arith, decode_loop-ne-stuck bytes total (index + 1) (add_group value b index))

-- What a `varint_decode` hands to the code after it.
after_varint :
    (bytes : List ℕ) (f : ℕ × ℕ → Result (CastMessage × List ℕ)) (bound : ℕ)
    → ((v n : ℕ) → 1 ≤ n → n ≤ length bytes → Takes bound (f (v, n)))
    → Takes bound (varint_decode bytes >>= f)
after_varint bytes f bound h = by_result (varint_decode bytes) refl
  where
    by_result : (r : Result (ℕ × ℕ)) → varint_decode bytes ≡ r → Takes bound (r >>= f)
    by_result (ok (v, n)) e =
        let (fits, some_byte, ten, in_input) = varint_decode_bounds bytes v n e in
        h v n some_byte in_input
    by_result (err x) e = tt
    by_result stuck e = unfold varint_decode in decode_loop-ne-stuck bytes (length bytes) 0 0 e

skip_Takes :
    (width : ℕ) (bytes : List ℕ) (m : CastMessage)
    → Takes (suc (length bytes)) (skip_fixed width bytes >>= λ rest. ok (m, rest))
skip_Takes width bytes m = elim (Bool-cases (ltb (length bytes) width)) [
  | inl short ↦ unfold skip_fixed in rw short tt
  | inr enough ↦ unfold skip_fixed in rw enough (omega (arith, length-drop width bytes))
]

bytes_Takes :
    (field size : ℕ) (bytes : List ℕ) (m : CastMessage)
    → Takes (suc (length bytes)) (read_bytes field size bytes m)
bytes_Takes field size bytes m = elim (Bool-cases (ltb max_field_size size)) [
  | inl large ↦ unfold read_bytes in rw large tt
  | inr small ↦ elim (Bool-cases (ltb (length bytes) size)) [
    | inl short ↦ unfold read_bytes in rw (small, short) tt
    | inr enough ↦ unfold read_bytes in rw (small, enough) (omega (arith, length-drop size bytes))
  ]
]

weaken : {a b : ℕ} (r : Result (CastMessage × List ℕ)) → a ≤ b → Takes a r → Takes b r
weaken (ok (m, rest)) le h = omega arith
weaken (err e) le h = tt
weaken stuck le h = h

field_Takes :
    (wire : WireType) (field : ℕ) (bytes : List ℕ) (m : CastMessage)
    → Takes (suc (length bytes)) (decode_field wire field bytes m)
unfolding decode_field
field_Takes varint field bytes m =
    after_varint bytes _ (suc (length bytes)) (λ v n lo hi. omega (arith, length-drop n bytes))
field_Takes length_delimited field bytes m = after_varint bytes _ (suc (length bytes)) (λ v n lo hi.
    weaken (read_bytes field v (drop n bytes) m) (omega (arith, length-drop n bytes))
      (bytes_Takes field v (drop n bytes) m))
field_Takes fixed64 field bytes m = skip_Takes 8 bytes m
field_Takes fixed32 field bytes m = skip_Takes 4 bytes m

read_key-ne-stuck : (key_value : ℕ) → read_key key_value ≢ stuck
unfolding read_key from_number
read_key-ne-stuck key_value e = ground arith

key_Takes :
    (key_value : ℕ) (rest : List ℕ) (m : CastMessage)
    → Takes
        (suc (length rest))
        (read_key key_value >>= λ (wire, field). decode_field wire field rest m)
key_Takes key_value rest m = by_result (read_key key_value) refl
  where
    by_result :
        (r : Result (WireType × ℕ))
        → read_key key_value ≡ r
        → Takes (suc (length rest)) (r >>= λ (wire, field). decode_field wire field rest m)
    by_result (ok (wire, field)) e = field_Takes wire field rest m
    by_result (err x) e = tt
    by_result stuck e = read_key-ne-stuck key_value e

pub one_Takes : (bytes : List ℕ) (m : CastMessage) → Takes (length bytes) (decode_one bytes m)
unfolding decode_one
one_Takes bytes m = after_varint bytes _ (length bytes) (λ v n lo hi.
    weaken (read_key v >>= λ (wire, field). decode_field wire field (drop n bytes) m)
      (omega (arith, length-drop n bytes)) (key_Takes v (drop n bytes) m))

fields_round :
    (fuel b : ℕ) (bytes : List ℕ) (m : CastMessage)
    → length (b ∷ bytes) ≤ suc fuel
    → Takes (length (b ∷ bytes)) (decode_one (b ∷ bytes) m)
    → ((rest : List ℕ) (m' : CastMessage) → length rest ≤ fuel → decode_fields fuel rest m' ≢ stuck)
    → decode_fields (suc fuel) (b ∷ bytes) m ≢ stuck
fields_round fuel b bytes m enough takes ih =
    unfold decode_fields in by_result (decode_one (b ∷ bytes) m) takes
  where
    by_result :
        (r : Result (CastMessage × List ℕ))
        → Takes (length (b ∷ bytes)) r
        → (r >>= λ (m', rest). decode_fields fuel rest m') ≢ stuck
    by_result (ok (m', rest)) h = ih rest m' (omega arith)
    by_result (err x) h = λ e. cc
    by_result stuck h = absurd h

decode_fields-ne-stuck :
    (fuel : ℕ) (bytes : List ℕ) (m : CastMessage)
    → length bytes ≤ fuel
    → decode_fields fuel bytes m ≢ stuck
decode_fields-ne-stuck fuel [] m enough = unfold decode_fields in (λ e. cc)
decode_fields-ne-stuck zero (b ∷ bytes) m enough = absurd (omega arith)
decode_fields-ne-stuck (suc fuel) (b ∷ bytes) m enough =
    fields_round fuel b bytes m enough (one_Takes (b ∷ bytes) m)
      (λ rest m' le. decode_fields-ne-stuck fuel rest m' le)

-- `decode_cast_message` ends on every payload, with a message or an error.
pub decode_cast_message-ne-stuck : (bytes : List ℕ) → decode_cast_message bytes ≢ stuck
decode_cast_message-ne-stuck bytes =
    unfold decode_cast_message in decode_fields-ne-stuck (length bytes) bytes empty (omega arith)
