-- ===== src/Screen/Segments/InitOnce.antt =====
-- How often the init segment comes.
use cast_app.Common.{
  ℕ, zero, suc, ◌+◌, ◌≤◌, ◌≡◌, refl, ap, true, false, ◌||◌, List, [], ◌∷◌, ◌++◌, length, take, drop,
  if◌then◌else◌, Bool-cases, inl, inr, arith,
}
use cast_app.Common.Text.{Text}
use cast_app.Screen.Segments.{
  EncodedSegment, init_segment, fragment_segment, Mp4Segmenter, new, enter_opaque, take_box,
  box_loop, feed, finish,
}
use cast_app.Screen.Segments.Cuts.{extend, round-View}
use cast_app.Screen.Segments.Chunks.{
  boxed, past, box-Step, box_loop-zero, box_loop-step, box_loop-stop, box_loop-before,
}
use cast_app.Screen.Segments.Reads.{feed-loop}

-- How many init segments there are.
unfoldable pub inits : List EncodedSegment → ℕ
inits [] = 0
inits (init_segment b ∷ out) = suc (inits out)
inits (fragment_segment b ∷ out) = inits out

-- How many a segmenter may still put out.
unfoldable pub budget : Mp4Segmenter → ℕ
budget s = if s.opaque || s.init_emitted then 0 else 1

pub inits-append : (a b : List EncodedSegment) → inits (a ++ b) ≡ inits a + inits b
unfolding inits
inits-append [] b = omega arith
inits-append (init_segment x ∷ a) b = omega (arith, inits-append a b)
inits-append (fragment_segment x ∷ a) b = inits-append a b

take_box-budget :
    (kind : Text) (box : List ℕ) (s : Mp4Segmenter)
    → s.opaque ≡ false
    → (inits (take_box kind box s []).1 + budget (take_box kind box s []).0 ≤ budget s)
      × ((take_box kind box s []).0.opaque ≡ false)
unfolding take_box inits budget
take_box-budget kind box s parses = (ground arith, ground arith)

enter_opaque-budget :
    (s : Mp4Segmenter)
    → s.opaque ≡ false
    → inits (enter_opaque s []).1 + budget (enter_opaque s []).0 ≤ budget s
unfolding enter_opaque inits budget
enter_opaque-budget s parses = ground arith

past-budget : (s : Mp4Segmenter) (total : ℕ) → budget (past s total) ≡ budget (boxed s total).0
unfolding budget
past-budget s total = refl

box_loop-budget :
    (fuel : ℕ) (s : Mp4Segmenter)
    → s.opaque ≡ false
    → inits (box_loop fuel s []).1 + budget (box_loop fuel s []).0 ≤ budget s
box_loop-budget zero s parses = rw (box_loop-zero s []) (unfold inits in omega arith)
box_loop-budget (suc fuel) s parses = elim (round-View s) [
  | inl e ↦ rw (box_loop-stop fuel s [] (s, []) (e [])) (unfold inits in omega arith)
  | inr (inl e) ↦
      rw (box_loop-stop fuel s [] (enter_opaque s []) (e [])) (enter_opaque-budget s parses)
  | inr (inr (total, box)) ↦
      let step = box-Step s total box in
      let taken = take_box-budget (take 4 (drop 4 s.pending)) (take total s.pending) s parses in
      rw
        (
          box_loop-step fuel s (past s total) [] (boxed s total).1 (step.3 []),
          box_loop-before fuel (past s total) (boxed s total).1,
        )
        (omega (
          arith,
          inits-append (boxed s total).1 (box_loop fuel (past s total) []).1,
          box_loop-budget fuel (past s total) taken.1,
          past-budget s total,
          taken.0,
        ))
]

feed-opaque :
    (s : Mp4Segmenter) (chunk : List ℕ)
    → s.opaque ≡ true
    → feed s chunk ≡ (s, fragment_segment chunk ∷ [])
unfolding feed
feed-opaque s chunk e =
    ap
      (λ t.
        if t
        then (s, fragment_segment chunk ∷ [])
        else box_loop (length (s.pending ++ chunk)) (extend s chunk) [])
      e

pub feed-budget :
    (s : Mp4Segmenter) (chunk : List ℕ)
    → inits (feed s chunk).1 + budget (feed s chunk).0 ≤ budget s
unfolding budget inits
feed-budget s chunk = elim (Bool-cases s.opaque) [
  | inl e ↦ rw (feed-opaque s chunk e) (unfold inits in omega arith)
  | inr e ↦
      rw (feed-loop s chunk e) (box_loop-budget (length (s.pending ++ chunk)) (extend s chunk) e)
]

pub finish-budget : (s : Mp4Segmenter) → inits (finish s).1 ≤ budget s
unfolding finish inits budget
finish-budget s = ground arith

-- All segments of one encoder generation: those of its reads, and of its end.
unfoldable pub segments_of : Mp4Segmenter → List (List ℕ) → List EncodedSegment
segments_of s [] = (finish s).1
segments_of s (chunk ∷ chunks) = (feed s chunk).1 ++ segments_of (feed s chunk).0 chunks

segments_of-budget :
    (s : Mp4Segmenter) (chunks : List (List ℕ)) → inits (segments_of s chunks) ≤ budget s
unfolding segments_of
segments_of-budget s [] = finish-budget s
segments_of-budget s (chunk ∷ chunks) = omega (
  arith,
  inits-append (feed s chunk).1 (segments_of (feed s chunk).0 chunks),
  segments_of-budget (feed s chunk).0 chunks,
  feed-budget s chunk,
)

-- Whatever bytes an encoder writes, box-structured or not, and however they are read, its generation
-- yields at most one init segment.
pub init_once : (chunks : List (List ℕ)) → inits (segments_of new chunks) ≤ 1
init_once chunks = omega (arith, segments_of-budget new chunks, new-budget)
  where
    new-budget : budget new ≡ 1
    new-budget = unfold budget in unfold new in refl
