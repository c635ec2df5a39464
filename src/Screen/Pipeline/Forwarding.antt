-- ===== src/Screen/Pipeline/Forwarding.antt =====
-- The steps of the forwarder thread keep the invariant.
use cast_app.Screen.Segments.InitOnce.{inits, inits-append}
use cast_app.Common.{
  ◌≡◌, refl, sym, ap, ◌∙◌, none, some, Bool, true, false, List, [], ◌∷◌, ◌++◌, append_assoc,
  if◌then◌else◌, arith, ◌≤◌,
}
use mathlib.Core.Path.{subst}
use cast_app.Util.Backpressure.{BoundedDropOldest, try_pop, tail, front}
use cast_app.Screen.Segments.{EncodedSegment, init_segment, fragment_segment}
use cast_app.Screen.Pipeline.{
  Sending, sent, full, closed, Pipeline, pop_next, forward_segment, in_hand,
}
use cast_app.Screen.Pipeline.Thinned.{Thinned, dropped, Thinned-refl, Thinned-trans, Thinned-append}
use cast_app.Screen.Pipeline.Flowing.{IsFlowing}

-- Past a stop nothing is promised of what was on its way.
halted : {P : Type 0} → false ≡ true → P
halted h = absurd (cc)

popped :
    (q : BoundedDropOldest EncodedSegment) (pushing : List EncodedSegment)
    → in_hand (try_pop q).1 ++ ((try_pop q).0.items ++ pushing) ≡ q.items ++ pushing
unfolding try_pop
popped q pushing = by_items q.items
  where
    by_items :
        (items : List EncodedSegment)
        → in_hand (front items) ++ (tail items ++ pushing) ≡ items ++ pushing
    by_items [] = refl
    by_items (segment ∷ items) = refl

inits-try_pop : (q : BoundedDropOldest EncodedSegment) → inits (try_pop q).0.items ≤ inits q.items
unfolding try_pop
inits-try_pop q = by_items q.items
  where
    by_items : (items : List EncodedSegment) → inits (tail items) ≤ inits items
    by_items [] = omega arith
    by_items (segment ∷ items) = omega (arith, inits-append (segment ∷ []) items)

capacity-try_pop : (q : BoundedDropOldest EncodedSegment) → (try_pop q).0.capacity ≡ q.capacity
unfolding try_pop
capacity-try_pop q = refl

pub pop_next-IsFlowing :
    (stop : Bool) (p : Pipeline) → p.held ≡ none → IsFlowing p → IsFlowing (pop_next stop p)
pop_next-IsFlowing true p empty f = record {
  room = f.room;
  one_init = f.one_init;
  queued = f.queued;
  in_order = halted;
}
pop_next-IsFlowing false p empty f = record {
  room = rw (capacity-try_pop p.output) f.room;
  one_init = f.one_init;
  queued = omega (arith, f.queued, inits-try_pop p.output);
  in_order = λ live.
      subst (Thinned (p.earlier ++ p.produced))
        (ap (λ held. p.delivered ++ (in_hand held ++ (p.output.items ++ p.pushing))) empty
          ∙ ap (λ t. p.delivered ++ t) (sym (popped p.output p.pushing)))
        (f.in_order live);
}

-- What is on its way without the segment in hand.
behind : Pipeline → List EncodedSegment
behind p = p.output.items ++ p.pushing

held_first :
    (p : Pipeline) (segment : EncodedSegment)
    → p.held ≡ some segment
    → IsFlowing p
    → p.forwarding ≡ true
    → Thinned (p.earlier ++ p.produced) (p.delivered ++ (segment ∷ behind p))
unfolding behind
held_first p segment e f live =
    subst
      (λ held.
        Thinned (p.earlier ++ p.produced)
          (p.delivered ++ (in_hand held ++ (p.output.items ++ p.pushing))))
      e (f.in_order live)

pub forward_segment-IsFlowing :
    (sending : Sending) (segment : EncodedSegment) (p : Pipeline)
    → p.held ≡ some segment
    → IsFlowing p
    → IsFlowing (forward_segment sending segment p)
unfolding behind
forward_segment-IsFlowing sent segment p e f = record {
  room = f.room;
  one_init = f.one_init;
  queued = f.queued;
  in_order = λ live.
      subst (Thinned (p.earlier ++ p.produced))
        (sym (append_assoc p.delivered (segment ∷ []) (behind p))) (held_first p segment e f live);
}
forward_segment-IsFlowing full (fragment_segment b) p e f = record {
  room = f.room;
  one_init = f.one_init;
  queued = f.queued;
  in_order = λ live.
      Thinned-trans (held_first p (fragment_segment b) e f live)
        (Thinned-append (Thinned-refl p.delivered) (dropped b (Thinned-refl (behind p))));
}
forward_segment-IsFlowing full (init_segment b) p e f = waits p.stop
  where
    waits : (stop : Bool) → IsFlowing (if stop then record p { forwarding = false } else p)
    waits true = record {
      room = f.room;
      one_init = f.one_init;
      queued = f.queued;
      in_order = halted;
    }
    waits false = f
forward_segment-IsFlowing closed segment p e f = record {
  room = f.room;
  one_init = f.one_init;
  queued = f.queued;
  in_order = halted;
}
