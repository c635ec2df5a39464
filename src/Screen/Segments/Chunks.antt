-- ===== src/Screen/Segments/Chunks.antt =====
-- The box loop round by round, and its fuel.
use cast_app.Common.{
  ℕ, zero, suc, ◌+◌, ◌≤◌, ◌≡◌, refl, sym, ap, ◌∙◌, not, ◌&&◌, List, [], ◌++◌, append-nil,
  append_assoc, length, take, drop, take-append, drop-append, length-drop, Bool-cases, inl, inr,
  arith,
}
use cast_app.Screen.Segments.{
  EncodedSegment, Mp4Segmenter, is_nil, enter_opaque, take_box, stop, next, split_box, round,
  box_loop,
}
use cast_app.Screen.Segments.Cuts.{extend, HasBox, round-View, short_round}
use cast_app.Screen.Segments.Take.{shifted, with_pending, take_box-shifted}

-- The front box is taken, and what it put out.
abbrev pub boxed : Mp4Segmenter → ℕ → Mp4Segmenter × List EncodedSegment
boxed s total = take_box (take 4 (drop 4 s.pending)) (take total s.pending) s []

-- The state behind it.
abbrev pub past : Mp4Segmenter → ℕ → Mp4Segmenter
past s total = with_pending (boxed s total).0 (drop total s.pending)

-- A box at the front is taken, whatever stands behind it and was put out before.
abbrev pub HasStep : Mp4Segmenter → ℕ → Type 0
HasStep s total =
    (8 ≤ total)
    × (total ≤ length s.pending)
    × ((b : List ℕ) (out : List EncodedSegment)
        → round (extend s b) out ≡ next (extend (past s total) b, out ++ (boxed s total).1))
    × ((out : List EncodedSegment) → round s out ≡ next (past s total, out ++ (boxed s total).1))

split_box-extended :
    (total : ℕ) (s : Mp4Segmenter) (b : List ℕ) (out : List EncodedSegment)
    → 8 ≤ total
    → total ≤ length s.pending
    → split_box total (extend s b) out
      ≡ shifted
          (drop total s.pending ++ b)
          out
          (take_box (take 4 (drop 4 s.pending)) (take total s.pending) s [])
split_box-extended total s b out lo hi =
    rw
      (
        drop-append 4 s.pending b (omega arith),
        take-append 4 (drop 4 s.pending) b (omega (arith, length-drop 4 s.pending)),
        take-append total s.pending b hi,
        drop-append total s.pending b hi,
      )
      (ap
          (λ t.
            take_box (take 4 (drop 4 s.pending)) (take total s.pending)
              (with_pending s (drop total s.pending ++ b)) t)
          (sym (append-nil out))
        ∙ take_box-shifted (drop total s.pending ++ b) out (take 4 (drop 4 s.pending))
            (take total s.pending) s [])

pub box-Step : (s : Mp4Segmenter) (total : ℕ) → HasBox total s → HasStep s total
box-Step s total (lo, hi, taken) = (lo, hi, extended, rw_nil)
  where
    extended :
        (b : List ℕ) (out : List EncodedSegment)
        → round (extend s b) out ≡ next (extend (past s total) b, out ++ (boxed s total).1)
    extended b out = taken b out ∙ ap next (split_box-extended total s b out lo hi)

    rw_nil :
        (out : List EncodedSegment) → round s out ≡ next (past s total, out ++ (boxed s total).1)
    rw_nil out =
        ap (λ q. round (with_pending s q) out) (sym (append-nil s.pending))
        ∙ extended [] out
        ∙ ap (λ q. next (with_pending (boxed s total).0 q, out ++ (boxed s total).1))
            (append-nil (drop total s.pending))

enter_opaque-before :
    (s : Mp4Segmenter) (out : List EncodedSegment)
    → enter_opaque s out ≡ ((enter_opaque s []).0, out ++ (enter_opaque s []).1)
unfolding enter_opaque
enter_opaque-before s out = elim (Bool-cases (not s.init_emitted && not (is_nil s.init))) [
  | inl e ↦ rw e refl
  | inr e ↦ rw e (ap (λ t. (_, t)) (sym (append-nil out)))
]

-- What was put out before stays in front.
pub box_loop-zero : (s : Mp4Segmenter) (out : List EncodedSegment) → box_loop zero s out ≡ (s, out)
unfolding box_loop
box_loop-zero s out = refl

-- One round more, on a box.
pub box_loop-step :
    (fuel : ℕ) (s t : Mp4Segmenter) (out put : List EncodedSegment)
    → round s out ≡ next (t, put)
    → box_loop (suc fuel) s out ≡ box_loop fuel t put
unfolding box_loop
box_loop-step fuel s t out put e = rw e refl

pub box_loop-stop :
    (fuel : ℕ) (s : Mp4Segmenter) (out : List EncodedSegment)
    (result : Mp4Segmenter × List EncodedSegment)
    → round s out ≡ stop result
    → box_loop (suc fuel) s out ≡ result
unfolding box_loop
box_loop-stop fuel s out result e = rw e refl

pub box_loop-before :
    (fuel : ℕ) (s : Mp4Segmenter) (out : List EncodedSegment)
    → box_loop fuel s out ≡ ((box_loop fuel s []).0, out ++ (box_loop fuel s []).1)
box_loop-before zero s out = unfold box_loop in ap (λ t. (s, t)) (sym (append-nil out))
box_loop-before (suc fuel) s out = elim (round-View s) [
  | inl e ↦
      box_loop-stop fuel s out (s, out) (e out)
      ∙ ap (λ t. (s, t)) (sym (append-nil out))
      ∙ ap (λ r. (r.0, out ++ r.1)) (sym (box_loop-stop fuel s [] (s, []) (e [])))
  | inr (inl e) ↦
      box_loop-stop fuel s out (enter_opaque s out) (e out)
      ∙ enter_opaque-before s out
      ∙ ap (λ r. (r.0, out ++ r.1)) (sym (box_loop-stop fuel s [] (enter_opaque s []) (e [])))
  | inr (inr (total, box)) ↦
      taken total (box-Step s total box) (λ t out. box_loop-before fuel t out)
]
  where
    taken :
        (total : ℕ)
        → HasStep s total
        → ((t : Mp4Segmenter) (out : List EncodedSegment)
            → box_loop fuel t out ≡ ((box_loop fuel t []).0, out ++ (box_loop fuel t []).1))
        → box_loop (suc fuel) s out
          ≡ ((box_loop (suc fuel) s []).0, out ++ (box_loop (suc fuel) s []).1)
    taken total (lo, hi, more, plain) rest =
        box_loop-step fuel s (past s total) out (out ++ (boxed s total).1) (plain out)
        ∙ rest (past s total) (out ++ (boxed s total).1)
        ∙ ap (λ t. ((box_loop fuel (past s total) []).0, t))
            (append_assoc out (boxed s total).1 (box_loop fuel (past s total) []).1)
        ∙ ap (λ r. (r.0, out ++ r.1)) (sym (rest (past s total) (boxed s total).1))
        ∙ ap (λ r. (r.0, out ++ r.1))
            (sym (box_loop-step fuel s (past s total) [] (boxed s total).1 (plain [])))

-- A box shortens what is pending.
pub length-past :
    (s : Mp4Segmenter) (total : ℕ)
    → HasStep s total
    → length (past s total).pending + total ≡ length s.pending
length-past s total (lo, hi, more, plain) = omega (arith, length-drop total s.pending, hi)

length-enter_opaque :
    (s : Mp4Segmenter) (out : List EncodedSegment)
    → length (enter_opaque s out).0.pending ≤ length s.pending
unfolding enter_opaque
length-enter_opaque s out = omega arith

-- The loop leaves no more pending than there was.
pub box_loop-shrinks :
    (fuel : ℕ) (s : Mp4Segmenter) (out : List EncodedSegment)
    → length (box_loop fuel s out).0.pending ≤ length s.pending
box_loop-shrinks zero s out = unfold box_loop in omega arith
box_loop-shrinks (suc fuel) s out = elim (round-View s) [
  | inl e ↦ rw (box_loop-stop fuel s out (s, out) (e out)) (omega arith)
  | inr (inl e) ↦
      rw (box_loop-stop fuel s out (enter_opaque s out) (e out)) (length-enter_opaque s out)
  | inr (inr (total, box)) ↦
      let step = box-Step s total box in
      rw (box_loop-step fuel s (past s total) out (out ++ (boxed s total).1) (step.3 out)) (
        omega (
          arith,
          box_loop-shrinks fuel (past s total) (out ++ (boxed s total).1),
          length-past s total step,
        ))
]

-- Fuel for the pending bytes is enough: more of it changes nothing.
pub box_loop_fuel :
    (n m : ℕ) (s : Mp4Segmenter) (out : List EncodedSegment)
    → length s.pending ≤ n
    → length s.pending ≤ m
    → box_loop n s out ≡ box_loop m s out
box_loop_fuel zero zero s out a b = refl
box_loop_fuel zero (suc m) s out a b =
    box_loop-zero s out ∙ sym (box_loop-stop m s out (s, out) (short_round s out (omega arith)))
box_loop_fuel (suc n) zero s out a b =
    box_loop-stop n s out (s, out) (short_round s out (omega arith)) ∙ sym (box_loop-zero s out)
box_loop_fuel (suc n) (suc m) s out a b = elim (round-View s) [
  | inl e ↦ box_loop-stop n s out (s, out) (e out) ∙ sym (box_loop-stop m s out (s, out) (e out))
  | inr (inl e) ↦
      box_loop-stop n s out (enter_opaque s out) (e out)
      ∙ sym (box_loop-stop m s out (enter_opaque s out) (e out))
  | inr (inr (total, box)) ↦
      let step = box-Step s total box in
      let put = out ++ (boxed s total).1 in
      box_loop-step n s (past s total) out put (step.3 out)
      ∙ box_loop_fuel n m (past s total) put (omega (arith, length-past s total step, step.0))
          (omega (arith, length-past s total step, step.0))
      ∙ sym (box_loop-step m s (past s total) out put (step.3 out))
]
