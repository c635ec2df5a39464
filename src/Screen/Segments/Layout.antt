-- ===== src/Screen/Segments/Layout.antt =====
-- The layout that ffmpeg writes: boxes before the first moof, then a moof and its mdat per fragment.
use cast_app.Common.{
  ℕ, ◌≡◌, refl, sym, ap, ◌∙◌, Bool, true, false, List, [], ◌∷◌, ◌++◌, map, append-nil, append_assoc,
  All, All-append, Bool-cases, inl, inr,
}
use cast_app.Common.Text.{text_eq}
use cast_app.Screen.Segments.{
  EncodedSegment, init_segment, fragment_segment, Mp4Segmenter, new, is_nil, take_box, moof, mdat,
  feed,
}
use cast_app.Screen.Segments.Boxes.{Mp4Box, IsBox, box_bytes, stream, take_boxes, feed-boxes}

pub record Fragment : Type 0 where
  pub head : Mp4Box
  pub body : Mp4Box

abbrev pub IsFragment : Fragment → Type 0
IsFragment f = (f.head.kind ≡ moof) × (f.body.kind ≡ mdat) × IsBox f.head × IsBox f.body

-- A box that may stand before the first fragment.
abbrev pub IsInitBox : Mp4Box → Type 0
IsInitBox b = (text_eq b.kind moof ≡ false) × IsBox b

abbrev pub boxes_of : List Fragment → List Mp4Box
boxes_of [] = []
boxes_of (f ∷ fs) = f.head ∷ f.body ∷ boxes_of fs

abbrev pub segment_of : Fragment → EncodedSegment
segment_of f = fragment_segment (box_bytes f.head ++ box_bytes f.body)

-- Between two fragments.
abbrev between : List ℕ → Bool → Mp4Segmenter
between init emitted = record {
  pending = [];
  init = init;
  init_emitted = emitted;
  fragment = [];
  in_fragment = false;
  opaque = false;
}

init_taken :
    (b : Mp4Box) (init : List ℕ) (out : List EncodedSegment)
    → text_eq b.kind moof ≡ false
    → take_box b.kind (box_bytes b) (between init false) out
      ≡ (between (init ++ box_bytes b) false, out)
unfolding take_box
init_taken b init out e = elim (Bool-cases (text_eq b.kind mdat)) [
  | inl f ↦ rw (e, f) refl
  | inr f ↦ rw (e, f) refl
]

-- A fragment that the init precedes, and one that follows another.
first_taken :
    (f : Fragment) (init : List ℕ) (out : List EncodedSegment) (rest : List Mp4Box)
    → IsFragment f
    → is_nil init ≡ false
    → take_boxes (f.head ∷ f.body ∷ rest) (between init false) out
      ≡ take_boxes rest (between [] true) ((out ++ (init_segment init ∷ [])) ++ (segment_of f ∷ []))
unfolding take_boxes take_box text_eq
first_taken f init out rest (h, b, x, y) some_init = rw (h, b, some_init) refl

next_taken :
    (f : Fragment) (out : List EncodedSegment) (rest : List Mp4Box)
    → IsFragment f
    → take_boxes (f.head ∷ f.body ∷ rest) (between [] true) out
      ≡ take_boxes rest (between [] true) (out ++ (segment_of f ∷ []))
unfolding take_boxes take_box text_eq
next_taken f out rest (h, b, x, y) = rw (h, b) refl

inits_taken :
    (is : List Mp4Box) (rest : List Mp4Box) (init : List ℕ) (out : List EncodedSegment)
    → All IsInitBox is
    → take_boxes (is ++ rest) (between init false) out
      ≡ take_boxes rest (between (init ++ stream is) false) out
unfolding stream take_boxes
inits_taken [] rest init out all =
    ap (λ t. take_boxes rest (between t false) out) (sym (append-nil init))
inits_taken (b ∷ bs) rest init out ((e, x), all) =
    ap (λ (r : Mp4Segmenter × List EncodedSegment). take_boxes (bs ++ rest) r.0 r.1)
      (init_taken b init out e)
    ∙ inits_taken bs rest (init ++ box_bytes b) out all
    ∙ ap (λ t. take_boxes rest (between t false) out) (append_assoc init (box_bytes b) (stream bs))

fragments_taken :
    (fs : List Fragment) (out : List EncodedSegment)
    → All IsFragment fs
    → (take_boxes (boxes_of fs) (between [] true) out).1 ≡ out ++ map segment_of fs
fragments_taken [] out all = unfold take_boxes in sym (append-nil out)
fragments_taken (f ∷ fs) out (h, all) =
    ap (λ (r : Mp4Segmenter × List EncodedSegment). r.1) (next_taken f out (boxes_of fs) h)
    ∙ fragments_taken fs (out ++ (segment_of f ∷ [])) all
    ∙ append_assoc out (segment_of f ∷ []) (map segment_of fs)

boxes-All : (fs : List Fragment) → All IsFragment fs → All IsBox (boxes_of fs)
boxes-All [] all = tt
boxes-All (f ∷ fs) ((h, b, x, y), all) = (x, (y, boxes-All fs all))

inits-All : (is : List Mp4Box) → All IsInitBox is → All IsBox is
inits-All [] all = tt
inits-All (b ∷ bs) ((e, x), all) = (x, inits-All bs all)

-- A new segmenter cuts a stream of init boxes and `moof`/`mdat` fragments, all of at most 64 MiB and at
-- least one of each, into one init segment of all bytes before the first `moof` and one segment per
-- fragment with exactly its bytes, in order.
pub feed-fmp4 :
    (is : List Mp4Box) (f : Fragment) (fs : List Fragment)
    → All IsInitBox is
    → is_nil (stream is) ≡ false
    → All IsFragment (f ∷ fs)
    → (feed new (stream (is ++ boxes_of (f ∷ fs)))).1
      ≡ init_segment (stream is) ∷ map segment_of (f ∷ fs)
unfolding new
feed-fmp4 is f fs inits some_init (h, all) =
    ap (λ (r : Mp4Segmenter × List EncodedSegment). r.1)
      (feed-boxes (between [] false) (is ++ boxes_of (f ∷ fs)) refl refl (
          All-append IsBox is (boxes_of (f ∷ fs)) (inits-All is inits)
            (boxes-All (f ∷ fs) (h, all)))
        ∙ inits_taken is (boxes_of (f ∷ fs)) [] [] inits
        ∙ first_taken f (stream is) [] (boxes_of fs) h some_init)
    ∙ fragments_taken fs (init_segment (stream is) ∷ segment_of f ∷ []) all
