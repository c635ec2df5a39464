-- ===== src/Media/Range.antt =====
-- src/media/range.rs: the `Range` header, and the `Content-Range` that answers it. A header is the list
-- of its bytes.
pub mod Decimal
pub mod Sound
pub mod Forms
mod Examples
use cast_app.Common.Trim.{trim}
use cast_app.Common.{
  ℕ, zero, suc, ◌+◌, ◌-◌, ◌*◌, ◌/◌, ◌%◌, ◌^◌, min, Option, none, some, Bool, true, false, not, ◌&&◌,
  ◌||◌, List, [], ◌∷◌, ◌++◌, length, ltb, leb, ◌==◌, if◌then◌else◌,
}
use cast_app.Common.Text.{Text, codes, decimal, split_once}

pub data RangeDecision : Type 0 where
  full : RangeDecision
  partial : ℕ → ℕ → RangeDecision
  unsatisfiable : RangeDecision

abbrev pub is_nil : Text → Bool
is_nil [] = true
is_nil (b ∷ s) = false

-- `strip_prefix`.
unfoldable pub strip_prefix : Text → Text → Option Text
strip_prefix [] s = some s
strip_prefix (p ∷ ps) [] = none
strip_prefix (p ∷ ps) (b ∷ s) = let rest = strip_prefix ps s in if p == b then rest else none

-- The first piece of `split` at a byte, and the others.
unfoldable pub split_first : ℕ → Text → Text × List Text
split_first d [] = ([], [])
split_first d (b ∷ s) =
    let (x, xs) = split_first d s in if b == d then ([], x ∷ xs) else (b ∷ x, xs)

abbrev pub is_digit : ℕ → Bool
is_digit b = leb b'0' b && leb b b'9'

abbrev pub u64_max : ℕ
u64_max = 2 ^ 64 - 1

-- The digits of `str::parse::<u64>`, the most significant first; it fails on the first byte that is
-- none, and on the first digit that passes `u64::MAX`.
unfoldable pub parse_digits : ℕ → Text → Option ℕ
parse_digits value [] = some value
parse_digits value (b ∷ s) =
    let rest = parse_digits (value * 10 + (b - b'0')) s in
    if not (is_digit b) then none else if ltb u64_max (value * 10 + (b - b'0')) then none else rest

-- `str::parse::<u64>`: digits, behind a `+` at most.
unfoldable pub parse_u64 : Text → Option ℕ
parse_u64 [] = none
parse_u64 (b ∷ s) =
    if b == b'+' then if is_nil s then none else parse_digits 0 s else parse_digits 0 (b ∷ s)

abbrev pub suffix_range : ℕ → ℕ → RangeDecision
suffix_range suffix size =
    if suffix == 0 || size == 0
    then unsatisfiable
    else if leb size suffix
    then partial 0 (size - 1)
    else partial (size - suffix) (size - 1)

abbrev pub open_range : ℕ → ℕ → RangeDecision
open_range start size =
    if size == 0 || leb size start then unsatisfiable else partial start (size - 1)

abbrev pub closed_range : ℕ → ℕ → ℕ → RangeDecision
closed_range start end size =
    if ltb end start
    then unsatisfiable
    else if leb size start
    then unsatisfiable
    else partial start (min end (size - 1))

-- `let Ok(n) = … else { return Unsatisfiable }`.
abbrev pub or_unsatisfiable : Option ℕ → (ℕ → RangeDecision) → RangeDecision
or_unsatisfiable none f = unsatisfiable
or_unsatisfiable (some n) f = f n

abbrev pub of_texts : Text → Text → ℕ → RangeDecision
of_texts start_text end_text size =
    if is_nil start_text
    then or_unsatisfiable (parse_u64 (trim end_text)) (λ suffix. suffix_range suffix size)
    else or_unsatisfiable (parse_u64 (trim start_text)) (λ start.
      if is_nil end_text
      then open_range start size
      else or_unsatisfiable (parse_u64 (trim end_text)) (λ end. closed_range start end size))

abbrev pub of_parts : Option (Text × Text) → ℕ → RangeDecision
of_parts none size = unsatisfiable
of_parts (some (start_text, end_text)) size = of_texts start_text end_text size

unfoldable pub parse_single_range : Text → ℕ → RangeDecision
parse_single_range spec size = of_parts (split_once b'-' spec) size

-- `ranges.iter().all(|range| range.is_empty())`, after the trimming.
unfoldable pub all_empty : List Text → Bool
all_empty [] = true
all_empty (range ∷ ranges) = is_nil (trim range) && all_empty ranges

abbrev pub is_none : List Text → Bool
is_none [] = true
is_none (x ∷ xs) = false

-- `split` yields one piece at least.
abbrev pub of_ranges : Text × List Text → ℕ → RangeDecision
of_ranges (range, ranges) size =
    if is_nil (trim range) && all_empty ranges
    then unsatisfiable
    else if not (is_none ranges)
    then full
    else parse_single_range (trim range) size

abbrev pub of_rest : Option Text → ℕ → RangeDecision
of_rest none size = full
of_rest (some rest) size = of_ranges (split_first b',' rest) size

unfoldable pub parse_range : Option Text → ℕ → RangeDecision
parse_range none size = full
parse_range (some header) size = of_rest (strip_prefix (codes "bytes=") (trim header)) size

unfoldable pub content_range : ℕ → ℕ → ℕ → Text
content_range start end size =
    codes "bytes " ++ (decimal start ++ (codes "-" ++ (decimal end ++ (codes "/" ++ decimal size))))

unfoldable pub unsatisfiable_content_range : ℕ → Text
unsatisfiable_content_range size = codes "bytes */" ++ decimal size
