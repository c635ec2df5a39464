-- ===== src/Screen/Segments/Boxes.antt =====
-- The segmenter on streams of whole boxes, and a machine on boxes.
use cast_app.Common.{
  ℕ, zero, suc, ◌+◌, ◌≤◌, ◌≡◌, refl, sym, ap, ◌∙◌, false, List, [], ◌∷◌, ◌++◌, append_assoc, length,
  take, drop, All, take-length_append, drop-length_append, length-append, ltb, ◌==◌, arith,
}
use cast_app.Common.Bytes.{be32, from_be32-be32}
use cast_app.Common.Text.{Text}
use cast_app.Screen.Segments.{
  max_box_bytes, EncodedSegment, Mp4Segmenter, take_box, next, split_box, sized, be32_at, with_size,
  round, box_loop, feed,
}
use cast_app.Screen.Segments.Cuts.{long_round, sized_next}
use cast_app.Screen.Segments.Take.{shifted, with_pending, take_box-shifted}
use cast_app.Screen.Segments.Chunks.{box_loop-zero, box_loop-step, box_loop_fuel}
use cast_app.Screen.Segments.Reads.{feed-loop}

-- An ISO-BMFF box with a 32-bit size.
pub record Mp4Box : Type 0 where
  pub kind : Text
  pub payload : List ℕ

unfoldable pub box_size : Mp4Box → ℕ
box_size b = 8 + length b.payload

unfoldable pub box_bytes : Mp4Box → List ℕ
unfolding be32 box_size
box_bytes b = be32 (box_size b) ++ (b.kind ++ b.payload)

abbrev pub IsBox : Mp4Box → Type 0
IsBox b = (length b.kind ≡ 4) × (8 + length b.payload ≤ max_box_bytes)

unfoldable pub stream : List Mp4Box → List ℕ
stream [] = []
stream (b ∷ bs) = box_bytes b ++ stream bs

-- The machine on boxes.
unfoldable pub take_boxes :
    List Mp4Box → Mp4Segmenter → List EncodedSegment → Mp4Segmenter × List EncodedSegment
take_boxes [] s out = (s, out)
take_boxes (b ∷ bs) s out =
    take_boxes bs (take_box b.kind (box_bytes b) s out).0 (take_box b.kind (box_bytes b) s out).1

length-box_bytes : (b : Mp4Box) → IsBox b → length (box_bytes b) ≡ box_size b
unfolding box_bytes box_size
length-box_bytes b (k, small) = omega (arith, length-append b.kind b.payload, k)

-- The header of a box at the front.
front_size : (b : Mp4Box) (rest : List ℕ) → IsBox b → be32_at 0 (box_bytes b ++ rest) ≡ box_size b
unfolding box_bytes
front_size b rest (k, small) = from_be32-be32 (box_size b) (unfold box_size in omega (arith, small))

front_kind : (b : Mp4Box) (rest : List ℕ) → IsBox b → take 4 (drop 4 (box_bytes b ++ rest)) ≡ b.kind
unfolding box_bytes
front_kind b rest (k, small) =
    ap (λ (n : ℕ). take n ((b.kind ++ b.payload) ++ rest)) (sym k)
    ∙ ap (λ q. take (length b.kind) q) (append_assoc b.kind b.payload rest)
    ∙ take-length_append b.kind (b.payload ++ rest)

plain_size :
    (n : ℕ) (s : Mp4Segmenter) (out : List EncodedSegment)
    → 8 ≤ n
    → with_size n s out ≡ sized 8 n s out
unfolding with_size
plain_size n s out h = rw (not_zero, not_one, not_tiny) refl
  where
    not_zero : (n == 0) ≡ false
    not_zero = ground arith

    not_one : (n == 1) ≡ false
    not_one = ground arith

    not_tiny : ltb n 8 ≡ false
    not_tiny = ground arith

front_round :
    (s : Mp4Segmenter) (b : Mp4Box) (rest : List ℕ) (out : List EncodedSegment)
    → IsBox b
    → round (with_pending s (box_bytes b ++ rest)) out
      ≡ next (take_box b.kind (box_bytes b) (with_pending s rest) out)
front_round s b rest out is_box =
    long_round whole out (omega (arith, long))
    ∙ ap (λ (t : ℕ). with_size t whole out) (front_size b rest is_box)
    ∙ plain_size (box_size b) whole out (unfold box_size in omega arith)
    ∙ sized_next 8 (box_size b) whole out (unfold box_size in omega arith)
        (unfold box_size in is_box.1) (omega (arith, long))
    ∙ ap next cut_off
  where
    whole : Mp4Segmenter
    whole = with_pending s (box_bytes b ++ rest)

    long : (8 ≤ box_size b) × (length (box_bytes b ++ rest) ≡ box_size b + length rest)
    long = (
      unfold box_size in omega arith,
      omega (arith, length-append (box_bytes b) rest, length-box_bytes b is_box),
    )

    cut_off :
        split_box (box_size b) whole out ≡ take_box b.kind (box_bytes b) (with_pending s rest) out
    cut_off =
        rw
          (
            front_kind b rest is_box,
            ← length-box_bytes b is_box,
            take-length_append (box_bytes b) rest,
            drop-length_append (box_bytes b) rest,
          )
          refl

-- The state of the machine on boxes does not depend on the pending bytes.
take_box-pending :
    (kind : Text) (box p : List ℕ) (s : Mp4Segmenter) (out : List EncodedSegment)
    → take_box kind box (with_pending s p) out
      ≡ shifted p [] (take_box kind box (with_pending s []) out)
take_box-pending kind box p s out = take_box-shifted p [] kind box (with_pending s []) out

pending-kept :
    (kind : Text) (box : List ℕ) (s : Mp4Segmenter) (out : List EncodedSegment)
    → take_box kind box (with_pending s []) out
      ≡ shifted [] [] (take_box kind box (with_pending s []) out)
pending-kept kind box s out = take_box-shifted [] [] kind box (with_pending s []) out

loop-boxes :
    (n : ℕ) (s : Mp4Segmenter) (bs : List Mp4Box) (out : List EncodedSegment)
    → All IsBox bs
    → length (stream bs) ≤ n
    → box_loop n (with_pending s (stream bs)) out ≡ take_boxes bs (with_pending s []) out
unfolding stream take_boxes
loop-boxes n s [] out boxes enough =
    box_loop_fuel n zero (with_pending s []) out enough (omega arith)
    ∙ box_loop-zero (with_pending s []) out
loop-boxes n s (b ∷ bs) out (is_box, boxes) enough =
    box_loop_fuel n (suc n) (with_pending s (box_bytes b ++ stream bs)) out enough
      (omega (arith, enough))
    ∙ box_loop-step n (with_pending s (box_bytes b ++ stream bs))
        (take_box b.kind (box_bytes b) (with_pending s (stream bs)) out).0 out
        (take_box b.kind (box_bytes b) (with_pending s (stream bs)) out).1
        (front_round s b (stream bs) out is_box)
    ∙ ap (λ (r : Mp4Segmenter × List EncodedSegment). box_loop n r.0 r.1)
        (take_box-pending b.kind (box_bytes b) (stream bs) s out)
    ∙ loop-boxes n (taken b).0 bs (taken b).1 boxes
        (omega (arith, enough, length-append (box_bytes b) (stream bs)))
    ∙ ap (λ (r : Mp4Segmenter × List EncodedSegment). take_boxes bs r.0 r.1)
        (sym (pending-kept b.kind (box_bytes b) s out))
  where
    taken : Mp4Box → Mp4Segmenter × List EncodedSegment
    taken b = take_box b.kind (box_bytes b) (with_pending s []) out

-- A segmenter that parses boxes and holds no part of one turns a read that consists of whole boxes, of
-- at most 64 MiB each, into what the machine on boxes makes of them.
pub feed-boxes :
    (s : Mp4Segmenter) (bs : List Mp4Box)
    → s.opaque ≡ false
    → s.pending ≡ []
    → All IsBox bs
    → feed s (stream bs) ≡ take_boxes bs s []
feed-boxes s bs parses empty boxes =
    feed-loop s (stream bs) parses
    ∙ ap (λ q. box_loop (length (q ++ stream bs)) (with_pending s (q ++ stream bs)) []) empty
    ∙ loop-boxes (length (stream bs)) s bs [] boxes (omega arith)
    ∙ ap (λ q. take_boxes bs (with_pending s q) []) (sym empty)
