-- ===== src/Screen/Pipeline/Delivery.antt =====
-- What reaches the media server of one encoder's output.
use mathlib.Core.Path.{subst}
use cast_app.Common.{
  ◌≤◌, ◌≡◌, refl, Option, none, some, Bool, true, false, List, [], ◌∷◌, arith, sym, append_assoc,
  ◌++◌, ◌+◌,
}
use cast_app.Screen.Segments.{EncodedSegment}
use cast_app.Screen.Segments as Segments
use cast_app.Screen.Segments.InitOnce.{inits, budget}
use cast_app.Screen.Pipeline.{
  Pipeline, start, forwards, Step, reads, pushes, pops, sends, requests_stop, step, run, in_hand,
  restart, restarts_next, restarts,
}
use cast_app.Screen.Pipeline.Thinned.{Thinned, none_left, Thinned-refl}
use cast_app.Screen.Pipeline.Flowing.{on_the_way, IsFlowing, to_come}
use cast_app.Screen.Pipeline.Reading.{reads_next-IsFlowing, push_next-IsFlowing}
use cast_app.Screen.Pipeline.Forwarding.{pop_next-IsFlowing, forward_segment-IsFlowing}

forwards-IsFlowing :
    (forwarding : Bool) (held : Option EncodedSegment) (s : Step) (p : Pipeline)
    → p.held ≡ held
    → IsFlowing p
    → IsFlowing (forwards forwarding held s p)
forwards-IsFlowing false held s p e f = f
forwards-IsFlowing true none pops p e f = pop_next-IsFlowing p.stop p e f
forwards-IsFlowing true none (reads r) p e f = f
forwards-IsFlowing true none pushes p e f = f
forwards-IsFlowing true none (sends sending) p e f = f
forwards-IsFlowing true none requests_stop p e f = f
forwards-IsFlowing true none (restarts spawned) p e f = f
forwards-IsFlowing true (some segment) (sends sending) p e f =
    forward_segment-IsFlowing sending segment p e f
forwards-IsFlowing true (some segment) (reads r) p e f = f
forwards-IsFlowing true (some segment) pushes p e f = f
forwards-IsFlowing true (some segment) pops p e f = f
forwards-IsFlowing true (some segment) requests_stop p e f = f
forwards-IsFlowing true (some segment) (restarts spawned) p e f = f

restart-IsFlowing :
    (spawned : Bool) (p : Pipeline) → p.pushing ≡ [] → IsFlowing p → IsFlowing (restart spawned p)
unfolding restart inits budget
restart-IsFlowing spawned p idle f = record {
  room = f.room;
  one_init = fresh spawned;
  queued = subst (λ pushing. inits [] + inits pushing ≤ inits []) (sym idle) (omega arith);
  in_order = λ live.
      subst
        (λ pushing.
          Thinned ((p.delivered ++ in_hand p.held) ++ [])
            (p.delivered ++ (in_hand p.held ++ ([] ++ pushing))))
        (sym idle)
        (subst (Thinned ((p.delivered ++ in_hand p.held) ++ []))
          (append_assoc p.delivered (in_hand p.held) []) (Thinned-refl _));
}
  where
    fresh : (spawned : Bool) → inits [] + to_come spawned Segments.new ≤ 1
    fresh true = omega arith
    fresh false = omega arith

restarts_next-IsFlowing :
    (reading : Bool) (pushing : List EncodedSegment) (spawned : Bool) (p : Pipeline)
    → p.pushing ≡ pushing
    → IsFlowing p
    → IsFlowing (restarts_next reading pushing spawned p)
restarts_next-IsFlowing false [] spawned p e f = restart-IsFlowing spawned p e f
restarts_next-IsFlowing false (segment ∷ segments) spawned p e f = f
restarts_next-IsFlowing true pushing spawned p e f = f

step-IsFlowing : (s : Step) (p : Pipeline) → IsFlowing p → IsFlowing (step s p)
unfolding step
step-IsFlowing (reads r) p f = reads_next-IsFlowing p.reading p.pushing r p refl refl f
step-IsFlowing pushes p f = push_next-IsFlowing p.pushing p refl f
step-IsFlowing pops p f = forwards-IsFlowing p.forwarding p.held pops p refl f
step-IsFlowing (sends sending) p f = forwards-IsFlowing p.forwarding p.held (sends sending) p refl f
step-IsFlowing requests_stop p f = record {
  room = f.room;
  one_init = f.one_init;
  queued = f.queued;
  in_order = f.in_order;
}
step-IsFlowing (restarts spawned) p f = restarts_next-IsFlowing p.reading p.pushing spawned p refl f

run_from-IsFlowing : (ss : List Step) (p : Pipeline) → IsFlowing p → IsFlowing (run ss p)
unfolding run
run_from-IsFlowing [] p f = f
run_from-IsFlowing (s ∷ ss) p f = run_from-IsFlowing ss (step s p) (step-IsFlowing s p f)

start-IsFlowing : IsFlowing start
unfolding start inits budget
start-IsFlowing = record {
  room = omega arith;
  one_init = omega arith;
  queued = omega arith;
  in_order = λ live. none_left;
}

-- However the reader, the forwarder and the restarts of the encoder interleave, whatever the encoders
-- write and however often the server's channel is full: until the forwarder stops, the segments that the
-- server has, followed by those in its hand, in the queue and not yet pushed, are those that it had or held
-- at the last restart and then all that the new encoder's output was cut into, in order, but for whole
-- fragments; the init segment is among them, and there is one at most since the restart.
pub run-IsFlowing :
    (ss : List Step)
    → ((run ss start).forwarding ≡ true
        → Thinned ((run ss start).earlier ++ (run ss start).produced) (on_the_way (run ss start)))
      × (inits (run ss start).produced ≤ 1)
run-IsFlowing ss =
    let f = run_from-IsFlowing ss start start-IsFlowing in (f.in_order, omega (arith, f.one_init))
