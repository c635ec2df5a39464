-- ===== src/Screen/Segments/Examples.antt =====
-- Runs of src/screen/segments.rs, and its theorems at concrete inputs.
use cast_app.Common.{ℕ, ◌≤◌, ◌≡◌, refl, false, List, [], ◌∷◌, ◌++◌, map, arith}
use cast_app.Common.Text.{codes, text_eq}
use cast_app.Common.Bytes.{from_be32}
use cast_app.Screen.Segments.{
  init_segment, fragment_segment, new, is_nil, moof, feed, box_loop, round, with_size, sized,
  take_box, enter_opaque,
}
use cast_app.Screen.Segments.Boxes.{Mp4Box, box_bytes, stream, take_boxes, feed-boxes}
use cast_app.Screen.Segments.Reads.{feed-append}
use cast_app.Screen.Segments.Layout.{Fragment, boxes_of, segment_of, feed-fmp4}
use cast_app.Screen.Segments.InitOnce.{inits, segments_of, init_once}

abbrev ftyp : Mp4Box
ftyp = record { kind = codes "ftyp"; payload = 1 ∷ [] }

abbrev sidx : Mp4Box
sidx = record { kind = codes "sidx"; payload = 2 ∷ [] }

abbrev fragment : Fragment
fragment = record {
  head = record { kind = codes "moof"; payload = 3 ∷ [] };
  body = record { kind = codes "mdat"; payload = 4 ∷ 5 ∷ [] };
}

abbrev whole : List ℕ
whole =
    0 ∷ 0 ∷ 0 ∷ 9 ∷ b'f' ∷ b't' ∷ b'y' ∷ b'p' ∷ 1 ∷ 0 ∷ 0 ∷ 0 ∷ 9 ∷ b'm' ∷ b'o' ∷ b'o' ∷ b'f' ∷ 3
    ∷ []

-- A box between two fragments goes to the bytes of the init, which has been put out already: it is
-- lost, and kept in memory.
lost_between_fragments :
    (feed new
      (stream (ftyp ∷ fragment.head ∷ fragment.body ∷ sidx ∷ fragment.head ∷ fragment.body ∷ []))).1
    ≡ init_segment (box_bytes ftyp) ∷ segment_of fragment ∷ segment_of fragment ∷ []
unfolding feed new box_loop round with_size sized take_box text_eq from_be32 box_bytes stream
lost_between_fragments = refl

-- Output that is no box is cut at its reads, the first of which is dropped.
opaque_reads :
    (feed (feed new (codes "no boxes at all")).0 (codes "more")).1
    ≡ fragment_segment (codes "more") ∷ []
unfolding feed new box_loop round with_size sized take_box text_eq from_be32 enter_opaque
opaque_reads = refl

parses_half : (feed new whole).0.opaque ≡ false
unfolding feed new box_loop round with_size sized take_box text_eq from_be32
parses_half = refl

feed-append_example : feed new (whole ++ (0 ∷ 0 ∷ [])) ≡ (
  (feed (feed new whole).0 (0 ∷ 0 ∷ [])).0,
  (feed new whole).1 ++ (feed (feed new whole).0 (0 ∷ 0 ∷ [])).1,
)
feed-append_example = feed-append new whole (0 ∷ 0 ∷ []) (unfold new in refl) parses_half

feed-boxes_example : feed new (stream (ftyp ∷ sidx ∷ [])) ≡ take_boxes (ftyp ∷ sidx ∷ []) new []
feed-boxes_example =
    feed-boxes new (ftyp ∷ sidx ∷ []) (unfold new in refl) (unfold new in refl)
      ((refl, omega arith), ((refl, omega arith), tt))

not_empty : is_nil (stream (ftyp ∷ [])) ≡ false
unfolding stream box_bytes
not_empty = refl

ftyp_is_no_moof : text_eq (codes "ftyp") moof ≡ false
unfolding text_eq
ftyp_is_no_moof = refl

feed-fmp4_example :
    (feed new (stream (ftyp ∷ boxes_of (fragment ∷ [])))).1
    ≡ init_segment (stream (ftyp ∷ [])) ∷ map segment_of (fragment ∷ [])
feed-fmp4_example =
    feed-fmp4 (ftyp ∷ []) fragment [] ((ftyp_is_no_moof, (refl, omega arith)), tt) not_empty
      ((refl, refl, (refl, omega arith), (refl, omega arith)), tt)

init_once_example : inits (segments_of new (whole ∷ codes "junk" ∷ [])) ≤ 1
init_once_example = init_once (whole ∷ codes "junk" ∷ [])
