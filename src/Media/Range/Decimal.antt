-- ===== src/Media/Range/Decimal.antt =====
-- Reading decimal numbers.
use cast_app.Common.{
  ℕ, zero, suc, ◌+◌, ◌-◌, ◌*◌, ◌/◌, ◌%◌, ◌^◌, ◌≤◌, ◌<◌, ◌≡◌, refl, ap, ◌∙◌, Option, none, some,
  true, false, [], ◌∷◌, ◌++◌, All, All-append, ltb, ◌==◌, Bool-cases, inl, inr, arith,
}
use cast_app.Common.Text.{Text}
use native.Mathlib.Nat.{pow-suc}
use cast_app.Media.Range.{is_nil, is_digit, u64_max, parse_digits, parse_u64}
use cast_app.Common.Text.{digits, decimal}

abbrev pub IsDigit : ℕ → Type 0
IsDigit b = is_digit b ≡ true

digits-IsDigit : (fuel n : ℕ) → All IsDigit (digits fuel n)
unfolding digits
digits-IsDigit zero n = tt
digits-IsDigit (suc fuel) n = elim (Bool-cases (ltb n 10)) [
  | inl e ↦ rw e (ground arith, tt)
  | inr e ↦ rw e (
      All-append IsDigit (digits fuel (n / 10)) _ (digits-IsDigit fuel (n / 10)) (ground arith, tt))
]

abbrev then_digits : Option ℕ → Text → Option ℕ
then_digits none s = none
then_digits (some value) s = parse_digits value s

parse_digits-append :
    (value : ℕ) (s t : Text) → parse_digits value (s ++ t) ≡ then_digits (parse_digits value s) t
unfolding parse_digits
parse_digits-append value [] t = refl
parse_digits-append value (b ∷ s) t = elim (Bool-cases (is_digit b)) [
  | inr e ↦ rw e refl
  | inl e ↦ elim (Bool-cases (ltb u64_max (value * 10 + (b - b'0')))) [
    | inl f ↦ rw (e, f) refl
    | inr f ↦ rw (e, f) (parse_digits-append (value * 10 + (b - b'0')) s t)
  ]
]

last_digit :
    (value d : ℕ)
    → d < 10
    → value * 10 + d ≤ u64_max
    → parse_digits value ((b'0' + d) ∷ []) ≡ some (value * 10 + d)
unfolding parse_digits
last_digit value d h small = ground arith

parse_digits-digits :
    (fuel n : ℕ) → n < 10 ^ fuel → n ≤ u64_max → parse_digits 0 (digits fuel n) ≡ some n
unfolding digits
parse_digits-digits zero n h small = unfold parse_digits in ground arith
parse_digits-digits (suc fuel) n h small = elim (Bool-cases (ltb n 10)) [
  | inl e ↦ rw e (last_digit 0 n (ground arith) (omega arith) ∙ ap some (omega arith))
  | inr e ↦ rw e (
      parse_digits-append 0 (digits fuel (n / 10)) ((b'0' + n % 10) ∷ [])
      ∙ ap (λ o. then_digits o ((b'0' + n % 10) ∷ []))
          (parse_digits-digits fuel (n / 10) (omega (arith, pow-suc 10 fuel)) (omega arith))
      ∙ last_digit (n / 10) (n % 10) (omega arith) (omega arith)
      ∙ ap some (omega arith))
]

pub decimal-IsDigit : (n : ℕ) → All IsDigit (decimal n)
unfolding decimal
decimal-IsDigit n = digits-IsDigit 20 n

-- A text of digits that is not empty is no signed number.
of_digits :
    (s : Text) (n : ℕ)
    → All IsDigit s
    → is_nil s ≡ false
    → parse_digits 0 s ≡ some n
    → parse_u64 s ≡ some n
unfolding parse_u64
of_digits [] n all some_digit e = cc
of_digits (b ∷ s) n (d, all) some_digit e = rw (no_plus d) e
  where
    no_plus : IsDigit b → (b == b'+') ≡ false
    no_plus d = ground arith

snoc-is_nil : (s : Text) (b : ℕ) → is_nil (s ++ (b ∷ [])) ≡ false
snoc-is_nil [] b = refl
snoc-is_nil (x ∷ s) b = refl

digits-is_nil : (fuel n : ℕ) → is_nil (digits (suc fuel) n) ≡ false
unfolding digits
digits-is_nil fuel n = elim (Bool-cases (ltb n 10)) [
  | inl e ↦ rw e refl
  | inr e ↦ rw e (snoc-is_nil (digits fuel (n / 10)) (b'0' + n % 10))
]

pub decimal-is_nil : (n : ℕ) → is_nil (decimal n) ≡ false
unfolding decimal
decimal-is_nil n = digits-is_nil 19 n

pub parse_u64-decimal : (n : ℕ) → n ≤ u64_max → parse_u64 (decimal n) ≡ some n
parse_u64-decimal n small =
    of_digits (decimal n) n (decimal-IsDigit n) (decimal-is_nil n)
      (unfold decimal in parse_digits-digits 20 n (omega arith) small)
