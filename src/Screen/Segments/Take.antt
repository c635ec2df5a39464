-- ===== src/Screen/Segments/Take.antt =====
-- Taking a box, the pending bytes and what was put out before.
use cast_app.Common.{
  ℕ, ◌≡◌, refl, ap, ◌∙◌, true, false, List, [], ◌∷◌, ◌++◌, append_assoc, Bool-cases, inl, inr,
}
use cast_app.Common.Text.{Text, text_eq}
use cast_app.Screen.Segments.{
  EncodedSegment, init_segment, fragment_segment, Mp4Segmenter, is_nil, emit_init, flush_fragment,
  take_moof, moof, mdat, take_box,
}

-- The same state with other pending bytes and more output before it.
abbrev pub shifted :
    List ℕ
    → List EncodedSegment
    → Mp4Segmenter × List EncodedSegment
    → Mp4Segmenter × List EncodedSegment
shifted p before (s, out) = (record s { pending = p }, before ++ out)

abbrev pub with_pending : Mp4Segmenter → List ℕ → Mp4Segmenter
with_pending s p = record s { pending = p }

module _ (p : List ℕ) (before : List EncodedSegment) where
  emit_init-shifted :
      (s : Mp4Segmenter) (out : List EncodedSegment)
      → emit_init (with_pending s p) (before ++ out) ≡ shifted p before (emit_init s out)
  emit_init-shifted s out = elim (Bool-cases s.init_emitted) [
    | inl e ↦ rw e refl
    | inr e ↦ elim (Bool-cases (is_nil s.init)) [
      | inl f ↦ rw (e, f) refl
      | inr f ↦
          rw (e, f)
            (ap (λ t. (record s { pending = p; init = []; init_emitted = true }, t))
              (append_assoc before out (init_segment s.init ∷ [])))
    ]
  ]

  flush_fragment-shifted :
      (s : Mp4Segmenter) (out : List EncodedSegment)
      → flush_fragment (with_pending s p) (before ++ out) ≡ shifted p before (flush_fragment s out)
  flush_fragment-shifted s out = elim (Bool-cases s.in_fragment) [
    | inl e ↦ rw e (
        ap (λ t. (record s { pending = p; fragment = []; in_fragment = true }, t))
          (append_assoc before out (fragment_segment s.fragment ∷ [])))
    | inr e ↦ rw e refl
  ]

  take_moof-shifted :
      (box : List ℕ) (s : Mp4Segmenter) (out : List EncodedSegment)
      → take_moof box (with_pending s p) (before ++ out) ≡ shifted p before (take_moof box s out)
  take_moof-shifted box s out =
      ap (λ (r : Mp4Segmenter × List EncodedSegment). begun (flush_fragment r.0 r.1))
        (emit_init-shifted s out)
      ∙ ap begun (flush_fragment-shifted (emit_init s out).0 (emit_init s out).1)
    where
      begun : Mp4Segmenter × List EncodedSegment → Mp4Segmenter × List EncodedSegment
      begun (s2, out2) = (record s2 { fragment = box; in_fragment = true }, out2)

  pub take_box-shifted :
      (kind : Text) (box : List ℕ) (s : Mp4Segmenter) (out : List EncodedSegment)
      → take_box kind box (with_pending s p) (before ++ out)
        ≡ shifted p before (take_box kind box s out)
  unfolding take_box
  take_box-shifted kind box s out = elim (Bool-cases (text_eq kind moof)) [
    | inl e ↦ rw e (take_moof-shifted box s out)
    | inr e ↦ elim (Bool-cases s.in_fragment) [
      | inl f ↦ elim (Bool-cases (text_eq kind mdat)) [
        | inl g ↦
            rw (e, f, g)
              (ap (λ t. (record s { pending = p; fragment = []; in_fragment = false }, t))
                (append_assoc before out (fragment_segment (s.fragment ++ box) ∷ [])))
        | inr g ↦ rw (e, f, g) refl
      ]
      | inr f ↦ elim (Bool-cases (text_eq kind mdat)) [
        | inl g ↦ rw (e, f, g) refl
        | inr g ↦ rw (e, f, g) refl
      ]
    ]
  ]
