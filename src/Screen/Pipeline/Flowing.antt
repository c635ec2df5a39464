-- ===== src/Screen/Pipeline/Flowing.antt =====
-- The invariant of the two threads of the screen pipeline.
use cast_app.Common.{ℕ, ◌+◌, ◌≤◌, ◌<◌, ◌≡◌, Bool, true, false, List, ◌++◌}
use cast_app.Screen.Segments.{EncodedSegment, Mp4Segmenter}
use cast_app.Screen.Segments.InitOnce.{inits, budget}
use cast_app.Screen.Pipeline.{Pipeline, in_hand}
use cast_app.Screen.Pipeline.Thinned.{Thinned}

-- All that was delivered or is on its way, the first first.
abbrev pub on_the_way : Pipeline → List EncodedSegment
on_the_way p = p.delivered ++ (in_hand p.held ++ (p.output.items ++ p.pushing))

-- The init segments that the encoder may still put out.
abbrev pub to_come : Bool → Mp4Segmenter → ℕ
to_come true s = budget s
to_come false s = 0

pub record IsFlowing (p : Pipeline) : Type 0 where
  pub room : 0 < p.output.capacity
  pub one_init : inits p.produced + to_come p.reading p.segmenter ≤ 1
  pub queued : inits p.output.items + inits p.pushing ≤ inits p.produced
  pub in_order : p.forwarding ≡ true → Thinned (p.earlier ++ p.produced) (on_the_way p)
