-- ===== src/Screen/Segments.antt =====
-- src/screen/segments.rs: cutting the encoder's stdout into whole fMP4 segments.
pub mod Cuts
pub mod Take
pub mod Chunks
pub mod Reads
pub mod Boxes
pub mod Layout
pub mod InitOnce
mod Examples
use cast_app.Common.{
  ℕ, zero, suc, ◌+◌, ◌*◌, ◌^◌, Bool, true, false, not, ◌&&◌, ◌||◌, List, [], ◌∷◌, ◌++◌, length,
  take, drop, get_or, ltb, ◌==◌, if◌then◌else◌,
}
use cast_app.Common.Bytes.{from_be32}
use cast_app.Common.Text.{Text, codes, text_eq}

-- `MAX_BOX_BYTES`, 64 MiB.
abbrev pub max_box_bytes : ℕ
max_box_bytes = 64 * 1024 * 1024

pub data EncodedSegment : Type 0 where
  init_segment fragment_segment : List ℕ → EncodedSegment

unfoldable pub bytes : EncodedSegment → List ℕ
bytes (init_segment b) = b
bytes (fragment_segment b) = b

unfoldable pub len : EncodedSegment → ℕ
unfolding bytes
len segment = length (bytes segment)

unfoldable pub is_empty : EncodedSegment → Bool
unfolding len
is_empty segment = len segment == 0

pub record Mp4Segmenter : Type 0 where
  pub pending : List ℕ
  pub init : List ℕ
  pub init_emitted : Bool
  pub fragment : List ℕ
  pub in_fragment : Bool
  pub opaque : Bool

unfoldable pub new : Mp4Segmenter
new = record {
  pending = [];
  init = [];
  init_emitted = false;
  fragment = [];
  in_fragment = false;
  opaque = false;
}

abbrev pub is_nil : List ℕ → Bool
is_nil [] = true
is_nil (b ∷ bs) = false

unfoldable pub enter_opaque :
    Mp4Segmenter → List EncodedSegment → Mp4Segmenter × List EncodedSegment
enter_opaque s out =
    let emits = not s.init_emitted && not (is_nil s.init) in
    (
      record s {
        pending = [];
        init = if emits then [] else s.init;
        fragment = [];
        in_fragment = false;
        opaque = true;
      },
      if emits then out ++ (init_segment s.init ∷ []) else out,
    )

-- `if !self.init_emitted { … }` of a `moof` box.
abbrev pub emit_init : Mp4Segmenter → List EncodedSegment → Mp4Segmenter × List EncodedSegment
emit_init s out =
    if s.init_emitted
    then (s, out)
    else if is_nil s.init
    then (record s { init_emitted = true }, out)
    else (record s { init = []; init_emitted = true }, out ++ (init_segment s.init ∷ []))

-- `if self.in_fragment { … }` of a `moof` box.
abbrev pub flush_fragment : Mp4Segmenter → List EncodedSegment → Mp4Segmenter × List EncodedSegment
flush_fragment s out =
    if s.in_fragment
    then (record s { fragment = [] }, out ++ (fragment_segment s.fragment ∷ []))
    else (s, out)

abbrev pub take_moof :
    List ℕ → Mp4Segmenter → List EncodedSegment → Mp4Segmenter × List EncodedSegment
take_moof box s out =
    let (s1, out1) = emit_init s out in
    let (s2, out2) = flush_fragment s1 out1 in
    (record s2 { fragment = box; in_fragment = true }, out2)

abbrev pub moof : Text
moof = codes "moof"

abbrev pub mdat : Text
mdat = codes "mdat"

-- `match &kind`.
unfoldable pub take_box :
    Text → List ℕ → Mp4Segmenter → List EncodedSegment → Mp4Segmenter × List EncodedSegment
take_box kind box s out =
    if text_eq kind moof
    then take_moof box s out
    else if text_eq kind mdat && s.in_fragment
    then (
      record s { fragment = []; in_fragment = false },
      out ++ (fragment_segment (s.fragment ++ box) ∷ []),
    )
    else if s.in_fragment
    then (record s { fragment = s.fragment ++ box }, out)
    else (record s { init = s.init ++ box }, out)

-- One round of the loop: it breaks, or a box was taken.
pub data Round : Type 0 where
  stop next : Mp4Segmenter × List EncodedSegment → Round

-- `split_off`, and what is done with the box.
abbrev pub split_box : ℕ → Mp4Segmenter → List EncodedSegment → Mp4Segmenter × List EncodedSegment
split_box total s out =
    take_box (take 4 (drop 4 s.pending)) (take total s.pending)
      (record s { pending = drop total s.pending }) out

-- A box of a known size.
unfoldable pub sized : ℕ → ℕ → Mp4Segmenter → List EncodedSegment → Round
sized header_len total s out =
    if ltb total header_len || ltb max_box_bytes total
    then stop (enter_opaque s out)
    else if ltb (length s.pending) total
    then stop (s, out)
    else next (split_box total s out)

-- `u32::from_be_bytes` of the four bytes from a place on.
abbrev pub be32_at : ℕ → List ℕ → ℕ
be32_at i b =
    from_be32 (get_or b i 0) (get_or b (i + 1) 0) (get_or b (i + 2) 0) (get_or b (i + 3) 0)

-- `match size_field`.
unfoldable pub with_size : ℕ → Mp4Segmenter → List EncodedSegment → Round
with_size size_field s out =
    if size_field == 0
    then stop (enter_opaque s out)
    else if size_field == 1
    then if ltb (length s.pending) 16
      then stop (s, out)
      else sized 16 (be32_at 8 s.pending * 2 ^ 32 + be32_at 12 s.pending) s out
    else if ltb size_field 8
    then stop (enter_opaque s out)
    else sized 8 size_field s out

unfoldable pub round : Mp4Segmenter → List EncodedSegment → Round
round s out =
    if ltb (length s.pending) 8 then stop (s, out) else with_size (be32_at 0 s.pending) s out

abbrev pub after_round {ℓ} :
    {A : Type ℓ}
    → Round
    → (Mp4Segmenter × List EncodedSegment → A)
    → (Mp4Segmenter → List EncodedSegment → A)
    → A
after_round (stop result) broken more = broken result
after_round (next (s, out)) broken more = more s out

-- The loop. A box takes 8 bytes at least, so the fuel that `feed` gives is not used up.
unfoldable pub box_loop :
    ℕ → Mp4Segmenter → List EncodedSegment → Mp4Segmenter × List EncodedSegment
box_loop zero s out = (s, out)
box_loop (suc fuel) s out = after_round (round s out) (λ result. result) (box_loop fuel)

unfoldable pub feed : Mp4Segmenter → List ℕ → Mp4Segmenter × List EncodedSegment
feed s chunk =
    if s.opaque
    then (s, fragment_segment chunk ∷ [])
    else box_loop (length (s.pending ++ chunk)) (record s { pending = s.pending ++ chunk }) []

unfoldable pub finish : Mp4Segmenter → Mp4Segmenter × List EncodedSegment
finish s =
    if s.opaque || s.init_emitted
    then (s, [])
    else if is_nil (s.init ++ s.pending)
    then (record s { init = s.init ++ s.pending; pending = [] }, [])
    else (record s { init = []; pending = [] }, init_segment (s.init ++ s.pending) ∷ [])
