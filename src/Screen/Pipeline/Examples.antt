-- ===== src/Screen/Pipeline/Examples.antt =====
-- Runs of the screen pipeline, and its theorem at a concrete schedule.
use cast_app.Common.{ℕ, ◌≤◌, ◌≡◌, refl, true, List, [], ◌∷◌, ◌++◌}
use cast_app.Common.Text.{text_eq}
use cast_app.Common.Bytes.{from_be32}
use cast_app.Util.Backpressure.{try_pop, push_or}
use cast_app.Screen.Segments.{
  init_segment, fragment_segment, feed, box_loop, round, with_size, sized, take_box, finish,
}
use cast_app.Screen.Segments.InitOnce.{inits}
use cast_app.Screen.Pipeline.{
  push_segment, read_bytes, interrupted, read_failed, sent, full, closed, start, Step, reads,
  pushes, pops, sends, run, restarts,
}
use cast_app.Screen.Pipeline.Thinned.{Thinned}
use cast_app.Screen.Pipeline.Flowing.{on_the_way}
use cast_app.Screen.Pipeline.Delivery.{run-IsFlowing}

-- Boxes without a payload: ftyp, moof and mdat.
abbrev ftyp : List ℕ
ftyp = 0 ∷ 0 ∷ 0 ∷ 8 ∷ b'f' ∷ b't' ∷ b'y' ∷ b'p' ∷ []

abbrev fragment : List ℕ
fragment =
    0 ∷ 0 ∷ 0 ∷ 8 ∷ b'm' ∷ b'o' ∷ b'o' ∷ b'f' ∷ 0 ∷ 0 ∷ 0 ∷ 8 ∷ b'm' ∷ b'd' ∷ b'a' ∷ b't' ∷ []

-- The init segment waits for room; the fragment behind it is dropped.
abbrev schedule : List Step
schedule =
    reads interrupted
    ∷ reads (read_bytes (ftyp ++ fragment))
    ∷ pushes
    ∷ pops
    ∷ sends full
    ∷ pushes
    ∷ sends sent
    ∷ pops
    ∷ sends full
    ∷ []

init_waits : (run schedule start).delivered ≡ init_segment ftyp ∷ []
unfolding run start feed text_eq box_loop round with_size from_be32 sized take_box try_pop push_or
init_waits = refl

fragment_dropped : ◌≡◌ {A = ℕ} (run schedule start).dropped 1
unfolding run start feed text_eq box_loop round with_size from_be32 sized take_box try_pop push_or
fragment_dropped = refl

closed_stops :
    (run (reads (read_bytes (ftyp ++ fragment)) ∷ pushes ∷ pops ∷ sends closed ∷ []) start).stop
    ≡ true
unfolding run start feed text_eq box_loop round with_size from_be32 sized take_box try_pop push_or
closed_stops = refl

-- A read error leaves what has not come out of the segmenter behind.
failed_read :
    (run
      (reads (read_bytes ftyp) ∷ reads read_failed ∷ reads (read_bytes []) ∷ pushes ∷ [])
      start).produced
    ≡ []
unfolding run start feed text_eq box_loop round with_size from_be32 sized take_box try_pop push_or
failed_read = refl

-- A restart while a segment is in hand: it is delivered, those in the queue are not.
restart_drops_queue :
    (run
      (reads (read_bytes (ftyp ++ fragment))
        ∷ pushes
        ∷ pushes
        ∷ pops
        ∷ reads (read_bytes [])
        ∷ restarts true
        ∷ reads (read_bytes (ftyp ++ fragment))
        ∷ sends sent
        ∷ pushes
        ∷ pops
        ∷ sends sent
        ∷ [])
      start).delivered
    ≡ init_segment ftyp ∷ init_segment ftyp ∷ []
unfolding run start feed text_eq box_loop round with_size from_be32 sized take_box try_pop push_or
    finish
restart_drops_queue = refl

init_kept :
    (push_segment
      (record {
        items = init_segment (1 ∷ []) ∷ fragment_segment (2 ∷ []) ∷ fragment_segment (3 ∷ []) ∷ [];
        capacity = 3;
      })
      (fragment_segment (4 ∷ []))).items
    ≡ init_segment (1 ∷ []) ∷ fragment_segment (3 ∷ []) ∷ fragment_segment (4 ∷ []) ∷ []
unfolding push_segment push_or
init_kept = refl

run-IsFlowing_example :
    ((run schedule start).forwarding ≡ true
      → Thinned
          ((run schedule start).earlier ++ (run schedule start).produced)
          (on_the_way (run schedule start)))
    × (inits (run schedule start).produced ≤ 1)
run-IsFlowing_example = run-IsFlowing schedule
