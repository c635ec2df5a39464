-- ===== src/Media/Server/Task.antt =====
-- src/media/server.rs: the task of one connection, src/media/source.rs: the active source. Serving a file
-- or a URL is left to other parts: here it only ends.
use cast_app.Common.{
  ℕ, Option, none, some, Bool, true, false, not, ◌||◌, List, [], ◌∷◌, ◌++◌, length, ◌==◌,
  if◌then◌else◌, ◌&&◌,
}
use cast_app.Common.Text.{Text, codes, text_eq}
use cast_app.Media.Flush.{FlushTracker, should_flush, has_pending}
use cast_app.Media.Flush as Flush
use cast_app.Media.Http.{
  Reading, done, failed, stuck, unexpected_eof, HttpRequest, get_header, response_head,
}

pub data ActiveSource : Type 0 where
  file : Text → ActiveSource
  url : Text → ActiveSource
  screen : Text → ActiveSource

abbrev pub live_flush_bytes : ℕ
live_flush_bytes = 65536

-- 50 ms.
abbrev pub live_flush_interval : ℕ
live_flush_interval = 50000000

-- How far a connection's task is. `serving` has the range and whether it is a HEAD request.
pub data Stage : Type 0 where
  reading_head : Stage
  serving : Option Text → Bool → Stage
  streaming : ℕ → FlushTracker → Stage
  closed : Stage

-- `seen` is the generation that its watch receiver has seen; `written` is what went to the writer.
pub record Connection : Type 0 where
  pub source : Option ActiveSource
  pub seen : ℕ
  pub stage : Stage
  pub written : List ℕ

abbrev pub responds : List ℕ → Connection → Connection
responds bytes c = record c { stage = closed; written = c.written ++ bytes }

abbrev pub not_found : List ℕ
not_found = response_head 404 (codes "Not Found") []

abbrev pub bad_request : List ℕ
bad_request = response_head 400 (codes "Bad Request") []

abbrev pub method_not_allowed : List ℕ
method_not_allowed =
    response_head 405 (codes "Method Not Allowed") ((codes "Allow", codes "GET, HEAD") ∷ [])

abbrev pub busy : List ℕ
busy =
    response_head 503 (codes "Service Unavailable")
      ((codes "Content-Type", codes "text/plain") ∷ (codes "Content-Length", codes "4") ∷ [])
    ++ codes "busy"

abbrev pub screen_head : List ℕ
screen_head = response_head 200 (codes "OK") ((codes "Content-Type", codes "video/mp4") ∷ [])

-- The slot is taken; `head_written` says whether the head of the response went out.
abbrev pub serve_screen : Bool → ℕ → Option ℕ → Connection → Connection × Option ℕ
serve_screen head_written now none c = (responds busy c, none)
serve_screen true now (some stream) c = (
  record c {
    stage = streaming stream (Flush.new live_flush_bytes live_flush_interval now);
    written = c.written ++ screen_head;
  },
  none,
)
serve_screen false now (some stream) c = (record c { stage = closed }, none)

-- `match source`.
abbrev pub serve_source :
    Option ActiveSource
    → Option Text
    → Bool
    → Bool
    → ℕ
    → Option ℕ
    → Connection
    → Connection × Option ℕ
serve_source none range head_only head_written now live c = (responds not_found c, live)
serve_source (some (file path)) range head_only head_written now live c =
    (record c { stage = serving range head_only }, live)
serve_source (some (url address)) range head_only head_written now live c =
    (record c { stage = serving range head_only }, live)
serve_source (some (screen monitor)) range head_only head_written now live c =
    serve_screen head_written now live c

unfoldable pub route : HttpRequest → Bool → ℕ → Option ℕ → Connection → Connection × Option ℕ
unfolding text_eq get_header response_head Flush.new
route request head_written now live c =
    if not (text_eq request.method (codes "GET") || text_eq request.method (codes "HEAD"))
    then (responds method_not_allowed c, live)
    else if not (text_eq request.target (codes "/stream"))
    then (responds not_found c, live)
    else serve_source c.source (get_header (codes "range") request.headers)
        (text_eq request.method (codes "HEAD")) head_written now live c

-- What `timeout(REQUEST_HEAD_TIMEOUT, read_request(..))` brings, if the time is not over.
abbrev pub on_head :
    Option (Reading HttpRequest) → Bool → ℕ → Option ℕ → Connection → Connection × Option ℕ
on_head none head_written now live c = (record c { stage = closed }, live)
on_head (some (done request peer)) head_written now live c = route request head_written now live c
on_head (some (failed unexpected_eof)) head_written now live c = (record c { stage = closed }, live)
on_head (some (failed e)) head_written now live c = (responds bad_request c, live)
on_head (some stuck) head_written now live c = (c, live)

-- What wakes a connection's task: the `Bool`s say whether the writer takes what it is given and whether
-- it is flushed, and the `ℕ` is the time.
pub data Wake : Type 0 where
  head_read : Option (Reading HttpRequest) → (head_written : Bool) → (now : ℕ) → Wake
  source_served : Wake
  generation_changed : Wake
  shutdown_changed : Wake
  deadline : (now : ℕ) (flushed : Bool) → Wake
  chunk : List ℕ → (now : ℕ) (written flushed : Bool) → Wake
  encoder_ended : (flushed : Bool) → Wake

abbrev pub close : Connection → Connection
close c = record c { stage = closed }

-- `should_flush`, and the flush if it is due.
abbrev pub after_chunk : ℕ → Bool × FlushTracker → Bool → Connection → Connection
after_chunk stream (due, flush) flushed c =
    if due
    then (if flushed then record c { stage = streaming stream flush } else close c)
    else record c { stage = streaming stream flush }

-- A round of the loop in `serve_live_screen`, and what `handle_connection` does at its end.
unfoldable pub on_screen :
    Wake → ℕ → ℕ → FlushTracker → Option ℕ → Connection → Connection × Option ℕ
unfolding should_flush has_pending Flush.reset
on_screen generation_changed generation stream flush live c =
    (if c.seen == generation then c else close c, live)
on_screen shutdown_changed generation stream flush live c = (close c, live)
on_screen (deadline now flushed) generation stream flush live c = (
  if has_pending flush && not flushed
      then close c
      else record c { stage = streaming stream (Flush.reset now flush) },
  live,
)
on_screen (chunk bytes now true flushed) generation stream flush live c = (
  after_chunk stream (should_flush now (length bytes) flush) flushed
      (record c { written = c.written ++ bytes }),
  live,
)
on_screen (chunk bytes now false flushed) generation stream flush live c = (close c, live)
on_screen (encoder_ended flushed) generation stream flush live c =
    (close c, if flushed then some stream else live)
on_screen (head_read request head_written now) generation stream flush live c = (c, live)
on_screen source_served generation stream flush live c = (c, live)

-- The `select!` around the serving of a file or a URL.
abbrev pub on_source : Wake → ℕ → Connection → Connection
on_source source_served generation c = close c
on_source generation_changed generation c = if c.seen == generation then c else close c
on_source shutdown_changed generation c = close c
on_source _ generation c = c

abbrev pub handle_stage : Stage → Wake → ℕ → Option ℕ → Connection → Connection × Option ℕ
handle_stage reading_head (head_read request head_written now) generation live c =
    on_head request head_written now live c
handle_stage reading_head w generation live c = (c, live)
handle_stage (serving range head_only) w generation live c = (on_source w generation c, live)
handle_stage (streaming stream flush) w generation live c =
    on_screen w generation stream flush live c
handle_stage closed w generation live c = (c, live)

unfoldable pub handle_connection : Wake → ℕ → Option ℕ → Connection → Connection × Option ℕ
unfolding route on_screen
handle_connection w generation live c = handle_stage c.stage w generation live c
