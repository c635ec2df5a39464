-- ===== src/Media/Server/Consumers/Tasks.antt =====
-- What the task of a connection leaves in the slot and holds itself.
use cast_app.Common.{
  ℕ, zero, suc, ◌+◌, ◌≤◌, ◌≡◌, refl, Option, none, some, Bool, true, false, not, ◌&&◌, ◌||◌, List,
  [], ◌∷◌, ◌++◌, length, ◌==◌, if◌then◌else◌, arith,
}
use cast_app.Common.Text.{Text, codes, text_eq}
use cast_app.Media.Flush.{FlushTracker, should_flush, has_pending}
use cast_app.Media.Flush as Flush
use cast_app.Media.Http.{
  Reading, done, failed, stuck, unexpected_eof, invalid_data, broken, HttpRequest, get_header,
}
use cast_app.Media.Server.Task.{
  ActiveSource, file, url, screen, Stage, reading_head, serving, streaming, closed, Connection,
  serve_source, route, on_head, responds, not_found, method_not_allowed, Wake, head_read,
  source_served, generation_changed, shutdown_changed, deadline, chunk, encoder_ended, close,
  after_chunk, on_screen, on_source, handle_stage, handle_connection,
}
use cast_app.Media.Server.{wake_task}

abbrev pub in_slot : ℕ → Option ℕ → ℕ
in_slot k none = 0
in_slot k (some stream) = if stream == k then 1 else 0

abbrev pub in_stage : ℕ → Stage → ℕ
in_stage k (streaming stream flush) = if stream == k then 1 else 0
in_stage k reading_head = 0
in_stage k (serving range head_only) = 0
in_stage k closed = 0

abbrev pub in_tasks : ℕ → List Connection → ℕ
in_tasks k [] = 0
in_tasks k (c ∷ cs) = in_stage k c.stage + in_tasks k cs

-- What a task leaves in the slot and holds itself.
abbrev after : ℕ → Connection × Option ℕ → ℕ
after k (c, live) = in_slot k live + in_stage k c.stage

if-after :
    (k n : ℕ) (test : Bool) (r r' : Connection × Option ℕ)
    → after k r ≤ n
    → after k r' ≤ n
    → after k (if test then r else r') ≤ n
if-after k n true r r' h h' = h
if-after k n false r r' h h' = h'

if-in_stage :
    (k n : ℕ) (test : Bool) (c c' : Connection)
    → in_stage k c.stage ≤ n
    → in_stage k c'.stage ≤ n
    → in_stage k (if test then c else c').stage ≤ n
if-in_stage k n true c c' h h' = h
if-in_stage k n false c c' h h' = h'

serve_source-owners :
    (k : ℕ) (source : Option ActiveSource) (range : Option Text) (head_only head_written : Bool)
    (now : ℕ) (live : Option ℕ) (c : Connection)
    → after k (serve_source source range head_only head_written now live c)
      ≤ in_slot k live + in_stage k c.stage
unfolding Flush.new
serve_source-owners k none range head_only head_written now live c = omega arith
serve_source-owners k (some (file path)) range head_only head_written now live c = omega arith
serve_source-owners k (some (url address)) range head_only head_written now live c = omega arith
serve_source-owners k (some (screen monitor)) range head_only head_written now none c = omega arith
serve_source-owners k (some (screen monitor)) range head_only true now (some stream) c = omega arith
serve_source-owners k (some (screen monitor)) range head_only false now (some stream) c =
    omega arith

route-owners :
    (k : ℕ) (request : HttpRequest) (head_written : Bool) (now : ℕ) (live : Option ℕ)
    (c : Connection)
    → after k (route request head_written now live c) ≤ in_slot k live + in_stage k c.stage
unfolding route
route-owners k request head_written now live c =
    let n = in_slot k live + in_stage k c.stage in
    if-after k n
      (not (text_eq request.method (codes "GET") || text_eq request.method (codes "HEAD")))
      (responds method_not_allowed c, live)
      (if other_target then (responds not_found c, live) else served) (omega arith)
      (if-after k n other_target (responds not_found c, live) served (omega arith)
        (serve_source-owners k c.source (get_header (codes "range") request.headers)
          (text_eq request.method (codes "HEAD")) head_written now live c))
  where
    other_target : Bool
    other_target = not (text_eq request.target (codes "/stream"))

    served : Connection × Option ℕ
    served =
        serve_source c.source (get_header (codes "range") request.headers)
          (text_eq request.method (codes "HEAD")) head_written now live c

on_head-owners :
    (k : ℕ) (request : Option (Reading HttpRequest)) (head_written : Bool) (now : ℕ)
    (live : Option ℕ) (c : Connection)
    → after k (on_head request head_written now live c) ≤ in_slot k live + in_stage k c.stage
on_head-owners k none head_written now live c = omega arith
on_head-owners k (some (done request peer)) head_written now live c =
    route-owners k request head_written now live c
on_head-owners k (some (failed unexpected_eof)) head_written now live c = omega arith
on_head-owners k (some (failed invalid_data)) head_written now live c = omega arith
on_head-owners k (some (failed broken)) head_written now live c = omega arith
on_head-owners k (some stuck) head_written now live c = omega arith

after_chunk-owners :
    (k stream : ℕ) (due : Bool) (flush : FlushTracker) (flushed : Bool) (c : Connection)
    → in_stage k (after_chunk stream (due, flush) flushed c).stage ≤ (if stream == k then 1 else 0)
after_chunk-owners k stream true flush true c = omega arith
after_chunk-owners k stream true flush false c = omega arith
after_chunk-owners k stream false flush flushed c = omega arith

on_screen-owners :
    (k : ℕ) (w : Wake) (generation stream : ℕ) (flush : FlushTracker) (live : Option ℕ)
    (c : Connection)
    → c.stage ≡ streaming stream flush
    → after k (on_screen w generation stream flush live c) ≤ in_slot k live + in_stage k c.stage
unfolding on_screen
on_screen-owners k generation_changed generation stream flush live c e = omega (
  arith,
  if-in_stage k (in_stage k c.stage) (c.seen == generation) c (close c) (omega arith) (omega arith),
)
on_screen-owners k shutdown_changed generation stream flush live c e = omega arith
on_screen-owners k (deadline now flushed) generation stream flush live c e = rw e (
    omega (
      arith,
      if-in_stage k (if stream == k then 1 else 0) (has_pending flush && not flushed) (close c)
          (record c { stage = streaming stream (Flush.reset now flush) }) (omega arith)
          (omega arith),
    ))
on_screen-owners k (chunk bytes now true flushed) generation stream flush live c e = rw e (
    omega (
      arith,
      after_chunk-owners k stream (should_flush now (length bytes) flush).0
          (should_flush now (length bytes) flush).1 flushed
          (record c { written = c.written ++ bytes }),
    ))
on_screen-owners k (chunk bytes now false flushed) generation stream flush live c e = omega arith
on_screen-owners k (encoder_ended true) generation stream flush live c e = rw e (omega arith)
on_screen-owners k (encoder_ended false) generation stream flush live c e = omega arith
on_screen-owners k (head_read request head_written now) generation stream flush live c e =
    omega arith
on_screen-owners k source_served generation stream flush live c e = omega arith

on_source-owners :
    (k : ℕ) (w : Wake) (generation : ℕ) (c : Connection)
    → in_stage k (on_source w generation c).stage ≤ in_stage k c.stage
on_source-owners k source_served generation c = omega arith
on_source-owners k generation_changed generation c =
    if-in_stage k (in_stage k c.stage) (c.seen == generation) c (close c) (omega arith)
      (omega arith)
on_source-owners k shutdown_changed generation c = omega arith
on_source-owners k (head_read request head_written now) generation c = omega arith
on_source-owners k (deadline now flushed) generation c = omega arith
on_source-owners k (chunk bytes now written flushed) generation c = omega arith
on_source-owners k (encoder_ended flushed) generation c = omega arith

handle_stage-owners :
    (k : ℕ) (stage : Stage) (w : Wake) (generation : ℕ) (live : Option ℕ) (c : Connection)
    → c.stage ≡ stage
    → after k (handle_stage stage w generation live c) ≤ in_slot k live + in_stage k c.stage
handle_stage-owners k reading_head (head_read request head_written now) generation live c e =
    on_head-owners k request head_written now live c
handle_stage-owners k reading_head source_served generation live c e = omega arith
handle_stage-owners k reading_head generation_changed generation live c e = omega arith
handle_stage-owners k reading_head shutdown_changed generation live c e = omega arith
handle_stage-owners k reading_head (deadline now flushed) generation live c e = omega arith
handle_stage-owners k reading_head (chunk bytes now written flushed) generation live c e =
    omega arith
handle_stage-owners k reading_head (encoder_ended flushed) generation live c e = omega arith
handle_stage-owners k (serving range head_only) w generation live c e =
    omega (arith, on_source-owners k w generation c)
handle_stage-owners k (streaming stream flush) w generation live c e =
    on_screen-owners k w generation stream flush live c e
handle_stage-owners k closed w generation live c e = omega arith

pub wake_task-owners :
    (k i : ℕ) (w : Wake) (generation : ℕ) (live : Option ℕ) (cs : List Connection)
    → in_slot k (wake_task i w generation live cs).1
        + in_tasks k (wake_task i w generation live cs).0
      ≤ in_slot k live + in_tasks k cs
unfolding wake_task handle_connection
wake_task-owners k i w generation live [] = omega arith
wake_task-owners k zero w generation live (c ∷ cs) =
    omega (arith, handle_stage-owners k c.stage w generation live c refl)
wake_task-owners k (suc i) w generation live (c ∷ cs) =
    omega (arith, wake_task-owners k i w generation live cs)
