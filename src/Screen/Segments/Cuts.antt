-- ===== src/Screen/Segments/Cuts.antt =====
-- What a round of the box loop does, and more input behind it.
use cast_app.Common.{
  ℕ, ◌+◌, ◌*◌, ◌^◌, ◌≤◌, ◌<◌, ◌≡◌, refl, ap, ◌∙◌, ◌⊎◌, true, false, ◌||◌, List, ◌++◌, length,
  get_or-append, length-append, ltb, ◌==◌, Bool-cases, inl, inr, arith,
}
use cast_app.Screen.Segments.{
  max_box_bytes, EncodedSegment, Mp4Segmenter, enter_opaque, stop, next, split_box, sized, be32_at,
  with_size, round,
}

-- More bytes behind the pending ones.
abbrev pub extend : Mp4Segmenter → List ℕ → Mp4Segmenter
extend s b = record s { pending = s.pending ++ b }

be32_at-append : (i : ℕ) (p b : List ℕ) → i + 4 ≤ length p → be32_at i (p ++ b) ≡ be32_at i p
be32_at-append i p b h =
    rw
      (
        get_or-append p b i 0 (omega arith),
        get_or-append p b (i + 1) 0 (omega arith),
        get_or-append p b (i + 2) 0 (omega arith),
        get_or-append p b (i + 3) 0 (omega arith),
      )
      refl

pub long_round :
    (s : Mp4Segmenter) (out : List EncodedSegment)
    → 8 ≤ length s.pending
    → round s out ≡ with_size (be32_at 0 s.pending) s out
unfolding round
long_round s out h = rw (at_least (length s.pending) 8 h) refl
  where
    at_least : (a b : ℕ) → b ≤ a → ltb a b ≡ false
    at_least a b h = ground arith

pub sized_next :
    (header_len total : ℕ) (s : Mp4Segmenter) (out : List EncodedSegment)
    → header_len ≤ total
    → total ≤ max_box_bytes
    → total ≤ length s.pending
    → sized header_len total s out ≡ next (split_box total s out)
unfolding sized
sized_next header_len total s out a b c =
    rw
      (
        at_least total header_len a,
        at_least max_box_bytes total b,
        at_least (length s.pending) total c,
      )
      refl
  where
    at_least : (a b : ℕ) → b ≤ a → ltb a b ≡ false
    at_least a b h = ground arith

-- A whole box stands at the front, of `total` bytes.
abbrev pub HasBox : ℕ → Mp4Segmenter → Type 0
HasBox total s =
    (8 ≤ total)
    × (total ≤ length s.pending)
    × ((b : List ℕ) (out : List EncodedSegment)
        → round (extend s b) out ≡ next (split_box total (extend s b) out))

-- The three ends of a round, whatever was put out before it.
abbrev pub View : Mp4Segmenter → Type 0
View s =
    ((out : List EncodedSegment) → round s out ≡ stop (s, out))
    ⊎ ((out : List EncodedSegment) → round s out ≡ stop (enter_opaque s out))
    ⊎ ((total : ℕ) × HasBox total s)

sized-View :
    (header_len total : ℕ) (s : Mp4Segmenter)
    → 8 ≤ header_len
    → ((out : List EncodedSegment) → round s out ≡ sized header_len total s out)
    → ((b : List ℕ) (out : List EncodedSegment)
        → round (extend s b) out ≡ sized header_len total (extend s b) out)
    → View s
sized-View header_len total s h e more =
    elim (Bool-cases (ltb total header_len || ltb max_box_bytes total)) [
      | inl bad ↦ inr (inl (λ out. e out ∙ unfold_bad bad out))
      | inr good ↦ elim (Bool-cases (ltb (length s.pending) total)) [
        | inl short ↦ inl (λ out. e out ∙ unfold_short good short out)
        | inr whole ↦ inr (
            inr (
              total,
              (
                ground arith,
                ground arith,
                λ b out.
                    more b out
                    ∙ sized_next header_len total (extend s b) out (ground arith) (ground arith)
                        (ground (arith, length-append s.pending b)),
              ),
            ))
      ]
    ]
  where
    unfold_bad :
        ltb total header_len || ltb max_box_bytes total ≡ true
        → (out : List EncodedSegment) → sized header_len total s out ≡ stop (enter_opaque s out)
    unfold_bad bad out = unfold sized in rw bad refl

    unfold_short :
        ltb total header_len || ltb max_box_bytes total ≡ false
        → ltb (length s.pending) total ≡ true
        → (out : List EncodedSegment) → sized header_len total s out ≡ stop (s, out)
    unfold_short good short out = unfold sized in rw (good, short) refl

-- A header that is complete in the pending bytes is the same with more bytes.
with_size-View : (s : Mp4Segmenter) → 8 ≤ length s.pending → View s
with_size-View s h = elim (Bool-cases (size == 0)) [
  | inl zero_size ↦ inr (inl (λ out. here out ∙ unfold_zero zero_size out))
  | inr nonzero ↦ elim (Bool-cases (size == 1)) [
    | inl large ↦ elim (Bool-cases (ltb (length s.pending) 16)) [
      | inl short ↦ inl (λ out. here out ∙ unfold_short nonzero large short out)
      | inr enough ↦
          sized-View 16 (large_size s.pending) s (omega arith)
            (λ out. here out ∙ unfold_large s nonzero large enough out)
            (λ b out.
              there b out
              ∙ unfold_large (extend s b) nonzero large (ground (arith, length-append s.pending b))
                  out
              ∙ ap (λ (t : ℕ). sized 16 t (extend s b) out) (large_size-append b (ground arith)))
    ]
    | inr other ↦ elim (Bool-cases (ltb size 8)) [
      | inl tiny ↦ inr (inl (λ out. here out ∙ unfold_tiny nonzero other tiny out))
      | inr fits ↦
          sized-View 8 size s (omega arith)
            (λ out. here out ∙ unfold_plain s nonzero other fits out)
            (λ b out. there b out ∙ unfold_plain (extend s b) nonzero other fits out)
    ]
  ]
]
  where
    size : ℕ
    size = be32_at 0 s.pending

    large_size : List ℕ → ℕ
    large_size p = be32_at 8 p * 2 ^ 32 + be32_at 12 p

    large_size-append :
        (b : List ℕ) → 16 ≤ length s.pending → large_size (s.pending ++ b) ≡ large_size s.pending
    large_size-append b h =
        rw (be32_at-append 8 s.pending b (omega arith), be32_at-append 12 s.pending b (omega arith))
          refl

    here : (out : List EncodedSegment) → round s out ≡ with_size size s out
    here out = long_round s out h

    there :
        (b : List ℕ) (out : List EncodedSegment)
        → round (extend s b) out ≡ with_size size (extend s b) out
    there b out =
        long_round (extend s b) out (omega (arith, length-append s.pending b))
        ∙ ap (λ (t : ℕ). with_size t (extend s b) out) (be32_at-append 0 s.pending b (omega arith))

    unfold_zero :
        (size == 0) ≡ true
        → (out : List EncodedSegment) → with_size size s out ≡ stop (enter_opaque s out)
    unfold_zero z out = unfold with_size in rw z refl

    unfold_short :
        (size == 0) ≡ false
        → (size == 1) ≡ true
        → ltb (length s.pending) 16 ≡ true
        → (out : List EncodedSegment) → with_size size s out ≡ stop (s, out)
    unfold_short a b c out = unfold with_size in rw (a, b, c) refl

    unfold_large :
        (s' : Mp4Segmenter)
        → (size == 0) ≡ false
        → (size == 1) ≡ true
        → ltb (length s'.pending) 16 ≡ false
        → (out : List EncodedSegment)
        → with_size size s' out ≡ sized 16 (large_size s'.pending) s' out
    unfold_large s' a b c out = unfold with_size in rw (a, b, c) refl

    unfold_tiny :
        (size == 0) ≡ false
        → (size == 1) ≡ false
        → ltb size 8 ≡ true
        → (out : List EncodedSegment) → with_size size s out ≡ stop (enter_opaque s out)
    unfold_tiny a b c out = unfold with_size in rw (a, b, c) refl

    unfold_plain :
        (s' : Mp4Segmenter)
        → (size == 0) ≡ false
        → (size == 1) ≡ false
        → ltb size 8 ≡ false
        → (out : List EncodedSegment) → with_size size s' out ≡ sized 8 size s' out
    unfold_plain s' a b c out = unfold with_size in rw (a, b, c) refl

-- Fewer than 8 bytes are no header.
pub short_round :
    (s : Mp4Segmenter) (out : List EncodedSegment)
    → length s.pending < 8
    → round s out ≡ stop (s, out)
unfolding round
short_round s out h = rw (below h) refl
  where
    below : length s.pending < 8 → ltb (length s.pending) 8 ≡ true
    below h = ground arith

-- Every round ends in one of the three ways.
pub round-View : (s : Mp4Segmenter) → View s
round-View s = elim (Bool-cases (ltb (length s.pending) 8)) [
  | inl short ↦ inl (λ out. unfold_short short out)
  | inr long ↦ with_size-View s (ground arith)
]
  where
    unfold_short :
        ltb (length s.pending) 8 ≡ true → (out : List EncodedSegment) → round s out ≡ stop (s, out)
    unfold_short e out = unfold round in rw e refl
