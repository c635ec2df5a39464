-- ===== src/Screen/Segments/Reads.antt =====
-- The segments, and how the reads cut the stream.
use cast_app.Common.{
  ℕ, zero, suc, ◌≤◌, ◌≡◌, refl, sym, ap, ◌∙◌, Bool, true, false, List, [], ◌∷◌, ◌++◌, append_assoc,
  length, length-append, if◌then◌else◌, inl, inr, arith,
}
use cast_app.Screen.Segments.{
  EncodedSegment, fragment_segment, Mp4Segmenter, enter_opaque, box_loop, feed,
}
use cast_app.Screen.Segments.Cuts.{extend, round-View}
use cast_app.Screen.Segments.Chunks.{
  boxed, past, box-Step, box_loop-zero, box_loop-step, box_loop-stop, box_loop-before, length-past,
  box_loop-shrinks, box_loop_fuel,
}

enter_opaque-opaque :
    (s : Mp4Segmenter) (out : List EncodedSegment) → (enter_opaque s out).0.opaque ≡ true
unfolding enter_opaque
enter_opaque-opaque s out = refl

-- The loop on more bytes goes on where the loop on fewer stopped.
cut :
    (fuel n : ℕ) (s : Mp4Segmenter) (b : List ℕ) (out : List EncodedSegment)
    → length s.pending ≤ fuel
    → length (s.pending ++ b) ≤ n
    → (box_loop fuel s out).0.opaque ≡ false
    → box_loop n (extend s b) out
      ≡ box_loop n (extend (box_loop fuel s out).0 b) (box_loop fuel s out).1
cut zero n s b out small enough parses = rw (box_loop-zero s out) refl
cut (suc fuel) n s b out small enough parses = elim (round-View s) [
  | inl e ↦ rw (box_loop-stop fuel s out (s, out) (e out)) refl
  | inr (inl e) ↦ absurd (
      clash (enter_opaque-opaque s out) (
        ap (λ r. r.0.opaque) (sym (box_loop-stop fuel s out (enter_opaque s out) (e out)))
        ∙ parses))
  | inr (inr (total, box)) ↦
      let step = box-Step s total box in
      let put = out ++ (boxed s total).1 in
      let here = box_loop-step fuel s (past s total) out put (step.3 out) in
      box_loop_fuel n (suc n) (extend s b) out enough (omega (arith, enough))
      ∙ box_loop-step n (extend s b) (extend (past s total) b) out put (step.2 b out)
      ∙ cut fuel n (past s total) b put (omega (arith, length-past s total step, step.0))
          (omega (
            arith,
            length-append s.pending b,
            length-append (past s total).pending b,
            length-past s total step,
          ))
          (ap (λ r. r.0.opaque) (sym here) ∙ parses)
      ∙ ap (λ r. box_loop n (extend r.0 b) r.1) (sym here)
]
  where
    clash : {b : Bool} → b ≡ true → b ≡ false → ⊥
    clash e f = cc

pub feed-loop :
    (s : Mp4Segmenter) (a : List ℕ)
    → s.opaque ≡ false
    → feed s a ≡ box_loop (length (s.pending ++ a)) (extend s a) []
unfolding feed
feed-loop s a parses =
    ap
      (λ t.
        if t
        then (s, fragment_segment a ∷ [])
        else box_loop (length (s.pending ++ a)) (extend s a) [])
      parses

-- With a segmenter that parses boxes, and still does after `a`: feeding `a` and then `b` puts out the
-- segments that feeding them in one read does, and leaves the same state.
pub feed-append :
    (s : Mp4Segmenter) (a b : List ℕ)
    → s.opaque ≡ false
    → (feed s a).0.opaque ≡ false
    → feed s (a ++ b) ≡ ((feed (feed s a).0 b).0, (feed s a).1 ++ (feed (feed s a).0 b).1)
feed-append s a b parses still =
    feed-loop s (a ++ b) parses
    ∙ ap (λ q. box_loop (length q) (record s { pending = q }) []) (sym (append_assoc s.pending a b))
    ∙ cut (length (s.pending ++ a)) n (extend s a) b [] (omega arith) (omega arith)
        (ap (λ r. r.0.opaque) (sym (feed-loop s a parses)) ∙ still)
    ∙ ap (λ r. box_loop n (extend r.0 b) r.1) (sym (feed-loop s a parses))
    ∙ box_loop-before n (extend (feed s a).0 b) (feed s a).1
    ∙ ap (λ r. (r.0, (feed s a).1 ++ r.1))
        (box_loop_fuel n (length ((feed s a).0.pending ++ b)) (extend (feed s a).0 b) [] shorter
            (omega arith)
          ∙ sym (feed-loop (feed s a).0 b still))
  where
    n : ℕ
    n = length ((s.pending ++ a) ++ b)

    shorter : length ((feed s a).0.pending ++ b) ≤ n
    shorter = omega (
      arith,
      length-append (feed s a).0.pending b,
      length-append (s.pending ++ a) b,
      box_loop-shrinks (length (s.pending ++ a)) (extend s a) [],
      ap (λ r. length r.0.pending) (feed-loop s a parses),
    )
