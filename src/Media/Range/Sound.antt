-- ===== src/Media/Range/Sound.antt =====
-- The bounds of a partial answer.
use cast_app.Common.Trim.{trim}
use cast_app.Common.{
  ℕ, ◌≤◌, ◌<◌, Option, none, some, not, ◌&&◌, ◌||◌, List, [], ◌∷◌, leb, ltb, ◌==◌, Bool-cases, inl,
  inr, arith,
}
use cast_app.Common.Text.{Text, codes, split_once}
use cast_app.Media.Range.{
  RangeDecision, full, partial, unsatisfiable, is_nil, parse_u64, suffix_range, open_range,
  closed_range, or_unsatisfiable, of_texts, of_parts, parse_single_range, is_none, all_empty,
  of_ranges, of_rest, split_first, strip_prefix, parse_range,
}

-- What may be sent of a resource of `size` bytes: `206` only with inclusive bounds inside it.
abbrev pub IsWithin : ℕ → RangeDecision → Type 0
IsWithin size full = Unit {0}
IsWithin size unsatisfiable = Unit {0}
IsWithin size (partial start end) = (start ≤ end) × (end < size)

suffix_range-Within : (suffix size : ℕ) → IsWithin size (suffix_range suffix size)
suffix_range-Within suffix size = elim (Bool-cases (suffix == 0 || size == 0)) [
  | inl e ↦ rw e tt
  | inr e ↦ elim (Bool-cases (leb size suffix)) [
    | inl f ↦ rw (e, f) (ground arith, ground arith)
    | inr f ↦ rw (e, f) (ground arith, ground arith)
  ]
]

open_range-Within : (start size : ℕ) → IsWithin size (open_range start size)
open_range-Within start size = elim (Bool-cases (size == 0 || leb size start)) [
  | inl e ↦ rw e tt
  | inr e ↦ rw e (ground arith, ground arith)
]

closed_range-Within : (start end size : ℕ) → IsWithin size (closed_range start end size)
closed_range-Within start end size = elim (Bool-cases (ltb end start)) [
  | inl e ↦ rw e tt
  | inr e ↦ elim (Bool-cases (leb size start)) [
    | inl f ↦ rw (e, f) tt
    | inr f ↦ rw (e, f) (ground arith, ground arith)
  ]
]

or_unsatisfiable-Within :
    (size : ℕ) (o : Option ℕ) (f : ℕ → RangeDecision)
    → ((n : ℕ) → IsWithin size (f n))
    → IsWithin size (or_unsatisfiable o f)
or_unsatisfiable-Within size none f h = tt
or_unsatisfiable-Within size (some n) f h = h n

of_texts-Within :
    (start_text end_text : Text) (size : ℕ) → IsWithin size (of_texts start_text end_text size)
of_texts-Within [] end_text size =
    or_unsatisfiable-Within size (parse_u64 (trim end_text)) (λ suffix. suffix_range suffix size)
      (λ suffix. suffix_range-Within suffix size)
of_texts-Within (b ∷ start_text) [] size =
    or_unsatisfiable-Within size (parse_u64 (trim (b ∷ start_text)))
      (λ start. open_range start size) (λ start. open_range-Within start size)
of_texts-Within (b ∷ start_text) (c ∷ end_text) size =
    or_unsatisfiable-Within size (parse_u64 (trim (b ∷ start_text))) _ (λ start.
      or_unsatisfiable-Within size (parse_u64 (trim (c ∷ end_text)))
        (λ end. closed_range start end size) (λ end. closed_range-Within start end size))

of_parts-Within : (parts : Option (Text × Text)) (size : ℕ) → IsWithin size (of_parts parts size)
of_parts-Within none size = tt
of_parts-Within (some (x, y)) size = of_texts-Within x y size

of_ranges-Within : (pieces : Text × List Text) (size : ℕ) → IsWithin size (of_ranges pieces size)
of_ranges-Within (range, ranges) size =
    elim (Bool-cases (is_nil (trim range) && all_empty ranges)) [
      | inl e ↦ rw e tt
      | inr e ↦ elim (Bool-cases (not (is_none ranges))) [
        | inl f ↦ rw (e, f) tt
        | inr f ↦
            rw (e, f)
              (unfold parse_single_range in of_parts-Within (split_once b'-' (trim range)) size)
      ]
    ]

of_rest-Within : (rest : Option Text) (size : ℕ) → IsWithin size (of_rest rest size)
of_rest-Within none size = tt
of_rest-Within (some rest) size = of_ranges-Within (split_first b',' rest) size

-- Whatever header a client sends, `parse_range` answers with a range only if its bounds are in order
-- and inside the resource; of an empty resource there is none.
pub parse_range-Within : (header : Option Text) (size : ℕ) → IsWithin size (parse_range header size)
unfolding parse_range
parse_range-Within none size = tt
parse_range-Within (some header) size =
    of_rest-Within (strip_prefix (codes "bytes=") (trim header)) size
