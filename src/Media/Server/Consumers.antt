-- ===== src/Media/Server/Consumers.antt =====
-- Who owns the live screen streams that were attached to the server.
pub mod Tasks
use cast_app.Common.{ℕ, zero, suc, ◌+◌, ◌≤◌, ◌≡◌, ◌&&◌, length, ◌==◌, if◌then◌else◌}
use cast_app.Common.Text.{Text, codes, text_eq}
use cast_app.Media.Flush.{FlushTracker, should_flush, has_pending}
use cast_app.Media.Flush as Flush
use cast_app.Media.Http.{
  Reading, done, failed, stuck, unexpected_eof, invalid_data, broken, HttpRequest, get_header,
}
use cast_app.Media.Server.Task.{
  ActiveSource, file, url, screen, Stage, serving, streaming, closed, Connection, serve_source,
  route, on_head, responds, not_found, method_not_allowed, Wake, head_read, source_served,
  generation_changed, shutdown_changed, deadline, chunk, encoder_ended, close, after_chunk,
  on_screen, on_source, handle_stage, handle_connection,
}
use cast_app.Media.Server.{Server, wake_task}
use cast_app.Media.Server.Consumers.Tasks.{in_slot, in_stage, in_tasks}

-- The owners of a stream: the slot of the server and its connections.
abbrev pub owners : ℕ → Server → ℕ
owners k s = in_slot k s.live + in_tasks k s.connections

-- At most one stream is new, which has one owner; no other gets a further one.
abbrev Moves : Server → Server → Type 0
Moves s t =
    (new : ℕ) × (new ≤ 1)
    × (t.next_stream ≡ s.next_stream + new)
    × ((k : ℕ) → owners k t ≤ owners k s + (if s.next_stream == k then new else 0))

-- Each stream has an owner at most, and one that is to come has none.
abbrev Single : Server → Type 0
Single s = (k : ℕ) → (owners k s ≤ 1) × (s.next_stream ≤ k → owners k s ≡ 0)
