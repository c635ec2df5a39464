-- ===== src/Media/Http/Lines.antt =====
-- Lines of visible ASCII characters, as `read_limited_line` reads them.
use cast_app.Common.Trim.{All-reverse}
use cast_app.Common.{
  ℕ, ◌+◌, ◌≤◌, ◌<◌, ◌≡◌, refl, ap, some, Bool, true, false, List, [], ◌∷◌, ◌++◌, length,
  length-append, All, ltb, ◌==◌, arith, ==_refl, ==_iff, ◌≢◌,
}
use mathlib.Core.List.{reverse, reverse-append, reverse-reverse}
use cast_app.Common.Text.{Text, split_once}
use cast_app.Common.Utf8.{ascii-IsUtf8}
use cast_app.Media.Http.{
  done, split_line, read_until, ends_with_newline, line_text, line_loop, read_limited_line,
  drop_line_ends, trim_line_end,
}

-- Visible ASCII, or a space.
abbrev pub IsVisible : ℕ → Type 0
IsVisible b = (32 ≤ b) × (b < 127)

abbrev pub line_end : List ℕ → List ℕ
line_end rest = 13 ∷ 10 ∷ rest

split_line-visible :
    (text rest : List ℕ)
    → All IsVisible text
    → split_line (text ++ line_end rest) ≡ some (text ++ line_end [], rest)
unfolding split_line
split_line-visible [] rest h = refl
split_line-visible (b ∷ text) rest (v, h) =
    let other : (b == 10) ≡ false = ground arith in rw (other, split_line-visible text rest h)

ends_with_newline-line : (text : List ℕ) → ends_with_newline (text ++ line_end []) ≡ true
unfolding ends_with_newline
ends_with_newline-line [] = refl
ends_with_newline-line (b ∷ []) = refl
ends_with_newline-line (b ∷ c ∷ text) = ends_with_newline-line (c ∷ text)

ascii_line : (text : List ℕ) → All IsVisible text → All (λ b. b < 128) (text ++ line_end [])
ascii_line [] h = (omega arith, (omega arith, tt))
ascii_line (b ∷ text) (v, h) = (omega arith, ascii_line text h)

line_text-line :
    (text : List ℕ)
    → All IsVisible text
    → line_text (text ++ line_end []) ≡ some (text ++ line_end [])
line_text-line [] h = ap (λ s. some s) (ascii-IsUtf8 (line_end []) (ascii_line [] h))
line_text-line (b ∷ text) h =
    ap (λ s. some s) (ascii-IsUtf8 (b ∷ (text ++ line_end [])) (ascii_line (b ∷ text) h))

pub read_limited_line-visible :
    (max : ℕ) (text rest : List ℕ) (breaks : Bool)
    → All IsVisible text
    → length text + 2 ≤ max
    → read_limited_line max (record { bytes = text ++ line_end rest; breaks = breaks })
      ≡ done (some (text ++ line_end [])) (record { bytes = rest; breaks = breaks })
unfolding read_limited_line line_loop read_until
read_limited_line-visible max text rest breaks h fits =
    let size : length (text ++ line_end []) ≡ length text + 2 = length-append text (line_end []) in
    let short : ltb max (length (text ++ line_end [])) ≡ false = ground arith in
    let some_read : (length (text ++ line_end []) == 0) ≡ false = ground arith in
    rw (
      split_line-visible text rest h,
      short,
      some_read,
      ends_with_newline-line text,
      line_text-line text h,
    )

drop_line_ends-visible : (s : List ℕ) → All IsVisible s → drop_line_ends s ≡ s
unfolding drop_line_ends
drop_line_ends-visible [] h = refl
drop_line_ends-visible (b ∷ s) (v, h) =
    let cr : (b == 13) ≡ false = ground arith in
    let lf : (b == 10) ≡ false = ground arith in rw (cr, lf)

pub trim_line_end-line :
    (text : List ℕ) → All IsVisible text → trim_line_end (text ++ line_end []) ≡ text
unfolding trim_line_end drop_line_ends
trim_line_end-line text h = rw (reverse-append text (line_end [])) (
    rw (drop_line_ends-visible (reverse text) (All-reverse IsVisible text h))
      (reverse-reverse text))

pub split_once-front :
    (at : ℕ) (front behind : Text)
    → All (λ b. b ≢ at) front
    → split_once at (front ++ (at ∷ behind)) ≡ some (front, behind)
unfolding split_once
split_once-front at [] behind h = rw (==_refl at)
split_once-front at (b ∷ front) behind (differs, h) =
    rw (not_equal (b == at) refl, split_once-front at front behind h)
  where
    not_equal : (test : Bool) → (b == at) ≡ test → test ≡ false
    not_equal true e = absurd (differs ((==_iff b at).0 e))
    not_equal false e = refl
