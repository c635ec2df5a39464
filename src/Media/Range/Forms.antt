-- ===== src/Media/Range/Forms.antt =====
-- The three forms of a range of RFC 7233.
use cast_app.Common.Trim.{trim, IsGraphic, trim-graphic}
use cast_app.Common.{
  ℕ, ◌-◌, ◌≤◌, ◌<◌, min, ◌≡◌, refl, ap, ◌∙◌, some, false, [], ◌∷◌, ◌++◌, All, All-append, ◌==◌,
  arith,
}
use cast_app.Common.Text.{decimal, Text, codes, split_once}
use cast_app.Media.Range.{
  partial, is_nil, strip_prefix, split_first, u64_max, parse_u64, suffix_range, open_range,
  closed_range, of_texts, parse_single_range, parse_range,
}
use cast_app.Media.Range.Decimal.{IsDigit, decimal-IsDigit, decimal-is_nil, parse_u64-decimal}

-- A visible character other than a comma.
abbrev IsPlain : ℕ → Type 0
IsPlain b = IsGraphic b × ((b == b',') ≡ false)

digit-Plain : (b : ℕ) → IsDigit b → IsPlain b
digit-Plain b d = ((ground arith, ground arith), ground arith)

digits-Plain : (s : Text) → All IsDigit s → All IsPlain s
digits-Plain [] all = tt
digits-Plain (b ∷ s) (d, all) = (digit-Plain b d, digits-Plain s all)

plain-IsGraphic : (s : Text) → All IsPlain s → All IsGraphic s
plain-IsGraphic [] all = tt
plain-IsGraphic (b ∷ s) ((g, c), all) = (g, plain-IsGraphic s all)

-- Trimming a plain text changes nothing.
trim-Plain : (s : Text) → All IsPlain s → trim s ≡ s
trim-Plain s all = trim-graphic s (plain-IsGraphic s all)

split_first-Plain : (s : Text) → All IsPlain s → split_first b',' s ≡ (s, [])
unfolding split_first
split_first-Plain [] all = refl
split_first-Plain (b ∷ s) ((p, comma), all) = rw (split_first-Plain s all, comma) refl

split_once-dash : (s t : Text) → All IsDigit s → split_once b'-' (s ++ (b'-' ∷ t)) ≡ some (s, t)
unfolding split_once
split_once-dash [] t all = refl
split_once-dash (b ∷ s) t (d, all) = rw (split_once-dash s t all, no_dash d) refl
  where
    no_dash : IsDigit b → (b == b'-') ≡ false
    no_dash d = ground arith

-- A header of one range.
abbrev pub header_of : Text → Text → Text
header_of start end = codes "bytes=" ++ (start ++ (b'-' ∷ end))

range-Plain : (s t : Text) → All IsDigit s → All IsDigit t → All IsPlain (s ++ (b'-' ∷ t))
range-Plain s t x y =
    All-append IsPlain s (b'-' ∷ t) (digits-Plain s x) (ground arith, digits-Plain t y)

header-Plain : (s t : Text) → All IsDigit s → All IsDigit t → All IsPlain (header_of s t)
header-Plain s t x y =
    All-append IsPlain (codes "bytes=") (s ++ (b'-' ∷ t)) (ground arith) (range-Plain s t x y)

dash-is_nil : (s t : Text) → is_nil (s ++ (b'-' ∷ t)) ≡ false
dash-is_nil [] t = refl
dash-is_nil (b ∷ s) t = refl

-- The header is taken apart into the two texts round the dash.
parse_range-header :
    (s t : Text) (size : ℕ)
    → All IsDigit s
    → All IsDigit t
    → parse_range (some (header_of s t)) size ≡ of_texts s t size
unfolding parse_range strip_prefix parse_single_range
parse_range-header s t size x y =
    rw
      (
        trim-Plain (header_of s t) (header-Plain s t x y),
        split_first-Plain (s ++ (b'-' ∷ t)) (range-Plain s t x y),
        trim-Plain (s ++ (b'-' ∷ t)) (range-Plain s t x y),
        dash-is_nil s t,
        split_once-dash s t x,
      )
      refl

read_number : (n : ℕ) → n ≤ u64_max → parse_u64 (trim (decimal n)) ≡ some n
read_number n small =
    ap parse_u64 (trim-Plain (decimal n) (digits-Plain (decimal n) (decimal-IsDigit n)))
    ∙ parse_u64-decimal n small

closed_lem :
    (a b size : ℕ) → a ≤ b → a < size → closed_range a b size ≡ partial a (min b (size - 1))
closed_lem a b size order inside = ground arith

open_lem : (a size : ℕ) → a < size → open_range a size ≡ partial a (size - 1)
open_lem a size inside = ground arith

suffix_lem : (n size : ℕ) → 0 < n → 0 < size → suffix_range n size ≡ partial (size - n) (size - 1)
suffix_lem n size positive nonempty = ground arith

-- For numbers that a `u64` holds: `bytes=a-b` with `a` up to `b` and inside the resource is answered
-- from `a` to `b` or the last byte, `bytes=a-` to the last byte, and `bytes=-n` with a positive `n` by
-- the last `n` bytes, or all of them if there are fewer.
pub parse_range_forms :
    (a b n size : ℕ)
    → a ≤ u64_max
    → b ≤ u64_max
    → n ≤ u64_max
    → a ≤ b
    → a < size
    → 0 < n
    → (parse_range (some (header_of (decimal a) (decimal b))) size ≡ partial a (min b (size - 1)))
      × (parse_range (some (header_of (decimal a) [])) size ≡ partial a (size - 1))
      × (parse_range (some (header_of [] (decimal n))) size ≡ partial (size - n) (size - 1))
parse_range_forms a b n size ha hb hn order inside positive = (closed, open_ended, suffix)
  where
    closed :
        parse_range (some (header_of (decimal a) (decimal b))) size ≡ partial a (min b (size - 1))
    closed =
        parse_range-header (decimal a) (decimal b) size (decimal-IsDigit a) (decimal-IsDigit b)
        ∙ rw (decimal-is_nil a, decimal-is_nil b, read_number a ha, read_number b hb)
            (closed_lem a b size order inside)

    open_ended : parse_range (some (header_of (decimal a) [])) size ≡ partial a (size - 1)
    open_ended =
        parse_range-header (decimal a) [] size (decimal-IsDigit a) tt
        ∙ rw (decimal-is_nil a, read_number a ha) (open_lem a size inside)

    suffix : parse_range (some (header_of [] (decimal n))) size ≡ partial (size - n) (size - 1)
    suffix =
        parse_range-header [] (decimal n) size tt (decimal-IsDigit n)
        ∙ rw (read_number n hn) (suffix_lem n size positive (omega (arith, inside)))
