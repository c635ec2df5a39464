-- ===== src/Screen/Pipeline/Reading.antt =====
-- The steps of the reader thread keep the invariant.
use cast_app.Common.{
  ◌+◌, ◌≤◌, ◌≡◌, sym, ap, ◌∙◌, Bool, true, false, List, [], ◌∷◌, ◌++◌, append_assoc, append-nil,
  arith,
}
use mathlib.Core.Path.{subst}
use cast_app.Screen.Segments.{EncodedSegment, Mp4Segmenter, feed, finish}
use cast_app.Screen.Segments.InitOnce.{inits, inits-append, budget, feed-budget, finish-budget}
use cast_app.Screen.Pipeline.{
  push_segment, ReadEvent, read_bytes, interrupted, read_failed, Pipeline, put_out, read_encoded,
  reads_next, push_next, in_hand,
}
use cast_app.Screen.Pipeline.Thinned.{
  Thinned, Thinned-refl, Thinned-trans, Thinned-append, inits-Thinned, push_segment-Thinned,
  capacity-push_segment,
}
use cast_app.Screen.Pipeline.Flowing.{on_the_way, to_come, IsFlowing}

add_end :
    (d h i out : List EncodedSegment) → (d ++ (h ++ (i ++ []))) ++ out ≡ d ++ (h ++ (i ++ out))
add_end d h i out = simp (append_assoc, append-nil)

-- New segments stand behind all that is on its way.
put_out-in_order :
    (p : Pipeline) (r : Mp4Segmenter × List EncodedSegment)
    → p.pushing ≡ []
    → (p.forwarding ≡ true → Thinned (p.earlier ++ p.produced) (on_the_way p))
    → p.forwarding ≡ true
    → Thinned (p.earlier ++ (p.produced ++ r.1)) (on_the_way (put_out r p))
put_out-in_order p (s, out) none_left_over h live =
    subst (λ a. Thinned a (on_the_way (put_out (s, out) p))) (append_assoc p.earlier p.produced out)
      (subst (Thinned ((p.earlier ++ p.produced) ++ out))
        (add_end p.delivered (in_hand p.held) p.output.items out)
        (Thinned-append
          (subst
            (λ pushing.
              Thinned (p.earlier ++ p.produced)
                (p.delivered ++ (in_hand p.held ++ (p.output.items ++ pushing))))
            none_left_over (h live))
          (Thinned-refl out)))

put_out-queued :
    (p : Pipeline) (out : List EncodedSegment)
    → inits p.output.items + inits p.pushing ≤ inits p.produced
    → inits p.output.items + inits out ≤ inits (p.produced ++ out)
put_out-queued p out h = omega (arith, inits-append p.produced out)

while_reading :
    (p : Pipeline)
    → p.reading ≡ true
    → inits p.produced + to_come p.reading p.segmenter ≤ 1
    → inits p.produced + budget p.segmenter ≤ 1
while_reading p live h =
    subst (λ reading. inits p.produced + to_come reading p.segmenter ≤ 1) live h

read_encoded-IsFlowing :
    (r : ReadEvent) (p : Pipeline)
    → p.reading ≡ true
    → p.pushing ≡ []
    → IsFlowing p
    → IsFlowing (read_encoded r p)
read_encoded-IsFlowing (read_bytes []) p live idle f = record {
  room = f.room;
  one_init = omega (
    arith,
    inits-append p.produced (finish p.segmenter).1,
    finish-budget p.segmenter,
    while_reading p live f.one_init,
  );
  queued = put_out-queued p (finish p.segmenter).1 f.queued;
  in_order = put_out-in_order p (finish p.segmenter) idle f.in_order;
}
read_encoded-IsFlowing (read_bytes (b ∷ bytes)) p live idle f = record {
  room = f.room;
  one_init =
      subst
        (λ reading.
          inits (p.produced ++ (feed p.segmenter (b ∷ bytes)).1)
            + to_come reading (feed p.segmenter (b ∷ bytes)).0
          ≤ 1)
        (sym live)
        (omega (
          arith,
          inits-append p.produced (feed p.segmenter (b ∷ bytes)).1,
          feed-budget p.segmenter (b ∷ bytes),
          while_reading p live f.one_init,
        ));
  queued = put_out-queued p (feed p.segmenter (b ∷ bytes)).1 f.queued;
  in_order = put_out-in_order p (feed p.segmenter (b ∷ bytes)) idle f.in_order;
}
read_encoded-IsFlowing interrupted p live idle f = f
read_encoded-IsFlowing read_failed p live idle f = record {
  room = f.room;
  one_init = omega (arith, f.one_init);
  queued = f.queued;
  in_order = f.in_order;
}

pub reads_next-IsFlowing :
    (reading : Bool) (pushing : List EncodedSegment) (r : ReadEvent) (p : Pipeline)
    → p.reading ≡ reading
    → p.pushing ≡ pushing
    → IsFlowing p
    → IsFlowing (reads_next reading pushing r p)
reads_next-IsFlowing true [] r p live idle f = read_encoded-IsFlowing r p live idle f
reads_next-IsFlowing true (segment ∷ segments) r p live busy f = f
reads_next-IsFlowing false pushing r p over e f = f

-- A segment moves into the queue.
moved :
    (h items pushing segments : List EncodedSegment) (segment : EncodedSegment)
    → pushing ≡ segment ∷ segments
    → h ++ (items ++ pushing) ≡ h ++ ((items ++ (segment ∷ [])) ++ segments)
moved h items pushing segments segment e =
    ap (λ t. h ++ (items ++ t)) e
    ∙ ap (λ t. h ++ t) (sym (append_assoc items (segment ∷ []) segments))

-- The counts of init segments while a segment is pushed.
one_queued :
    (p : Pipeline) (segment : EncodedSegment) (segments : List EncodedSegment)
    → p.pushing ≡ segment ∷ segments
    → IsFlowing p
    → (inits (p.output.items ++ (segment ∷ [])) ≤ 1)
      × (inits (p.output.items ++ (segment ∷ [])) + inits segments ≤ inits p.produced)
one_queued p segment segments e f =
    let pushed : inits p.pushing ≡ inits (segment ∷ []) + inits segments =
      ap inits e ∙ inits-append (segment ∷ []) segments in
    (
      omega (arith, f.queued, f.one_init, pushed, inits-append p.output.items (segment ∷ [])),
      omega (arith, f.queued, pushed, inits-append p.output.items (segment ∷ [])),
    )

pub push_next-IsFlowing :
    (pushing : List EncodedSegment) (p : Pipeline)
    → p.pushing ≡ pushing
    → IsFlowing p
    → IsFlowing (push_next pushing p)
push_next-IsFlowing [] p e f = f
push_next-IsFlowing (segment ∷ segments) p e f = record {
  room = rw (capacity-push_segment p.output segment) f.room;
  one_init = f.one_init;
  queued = omega (
    arith,
    (one_queued p segment segments e f).1,
    inits-Thinned
        (push_segment-Thinned p.output segment f.room (one_queued p segment segments e f).0),
  );
  in_order = λ live.
      let h = f.in_order live in
      Thinned-trans h (
        subst
          (λ t. Thinned (p.delivered ++ t) (
            p.delivered ++ (in_hand p.held ++ ((push_segment p.output segment).items ++ segments))))
          (sym (moved (in_hand p.held) p.output.items p.pushing segments segment e))
          (Thinned-append (Thinned-refl p.delivered) (
            Thinned-append (Thinned-refl (in_hand p.held)) (
              Thinned-append
                (push_segment-Thinned p.output segment f.room (one_queued p segment segments e f).0)
                (Thinned-refl segments)))));
}
