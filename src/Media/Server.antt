-- ===== src/Media/Server.antt =====
-- src/media/server.rs: the server task and its connections. A step is one branch of the loop of `run`, or
-- one of a connection's task between two awaits. `next_stream` numbers the channels that
-- `AttachScreenStream` brings, so that each is another one.
pub mod Task
pub mod Consumers
mod Examples
use cast_app.Common.{
  ℕ, zero, suc, ◌+◌, ◌*◌, Option, none, some, Bool, true, false, not, ◌||◌, List, [], ◌∷◌, ◌++◌,
  length, ltb, leb, ◌==◌, if◌then◌else◌, case_option, ◌&&◌, ◌%◌, ◌^◌,
}
use cast_app.Common.Text.{Text, codes, text_eq}
use cast_app.Cast.Connection.{SocketAddr}
use cast_app.Media.Flush.{FlushTracker, should_flush, has_pending}
use cast_app.Media.Flush as Flush
use cast_app.Media.Http.{
  Reading, done, failed, stuck, unexpected_eof, HttpRequest, get_header, response_head,
}
use cast_app.Media.Server.Task.{
  ActiveSource, Connection, Stage, Wake, after_chunk, bad_request, busy, close, handle_connection,
  handle_stage, live_flush_bytes, live_flush_interval, method_not_allowed, not_found, on_head,
  on_screen, on_source, responds, route, screen_head, serve_screen, serve_source, file, url, screen,
  reading_head, serving, streaming, closed, head_read, source_served, generation_changed,
  shutdown_changed, deadline, chunk, encoder_ended,
}

-- What `bind` brings: the port that `local_addr` reports, if it does.
pub data Binding : Type 0 where
  bound : Option ℕ → Binding
  bind_failed : Binding

pub data ServerCommand : Type 0 where
  set_source : ActiveSource → ServerCommand
  attach_screen_stream : ServerCommand
  set_port : ℕ → ServerCommand
  set_bind_addr : SocketAddr → ServerCommand
  shutdown : ServerCommand

pub record Server : Type 0 where
  pub bind_ip : Option Text
  pub listener : Option SocketAddr
  pub bound_port : ℕ
  pub current : Option ActiveSource
  pub live : Option ℕ
  pub generation : ℕ
  pub next_stream : ℕ
  pub acks : List Bool
  pub stopped : Bool
  pub connections : List Connection

-- `start_unbound_with_handle`.
unfoldable pub start_unbound : Server
start_unbound = record {
  bind_ip = none;
  listener = none;
  bound_port = 0;
  current = none;
  live = none;
  generation = 0;
  next_stream = 0;
  acks = [];
  stopped = false;
  connections = [];
}

abbrev pub unwrap_or : Option ℕ → ℕ → ℕ
unwrap_or none d = d
unwrap_or (some n) d = n

-- `start_with_handle`, which binds before its loop starts.
unfoldable pub start_bound : Text → ℕ → Binding → Server
unfolding start_unbound
start_bound ip port (bound actual) = record start_unbound {
  bind_ip = some ip;
  listener = some (record { ip = ip; port = unwrap_or actual port });
  bound_port = unwrap_or actual port;
}
start_bound ip port bind_failed = record start_unbound { bind_ip = some ip }

abbrev pub rebind : Option Text → ℕ → Binding → Server → Server
rebind none port b s = s
rebind (some ip) port (bound actual) s = record s {
  listener = some (record { ip = ip; port = unwrap_or actual port });
  bound_port = port;
}
rebind (some ip) port bind_failed s = s

abbrev pub bind_addr : SocketAddr → Binding → Server → Server
bind_addr addr (bound actual) s = record s {
  bind_ip = some addr.ip;
  listener = some (record { ip = addr.ip; port = unwrap_or actual addr.port });
  bound_port = unwrap_or actual addr.port;
  acks = true ∷ s.acks;
}
bind_addr addr bind_failed s = record s { listener = none; acks = false ∷ s.acks }

unfoldable pub on_command : ServerCommand → Binding → Server → Server
on_command (set_source source) b s = record s {
  current = some source;
  live = none;
  generation = (s.generation + 1) % 2 ^ 64;
}
on_command attach_screen_stream b s = record s {
  live = some s.next_stream;
  generation = (s.generation + 1) % 2 ^ 64;
  next_stream = s.next_stream + 1;
}
on_command (set_port port) b s = rebind s.bind_ip port b s
on_command (set_bind_addr addr) b s = bind_addr addr b s
on_command shutdown b s = record s { stopped = true }

-- `tokio::spawn(handle_connection(..))` for an accepted stream.
abbrev pub accept_on : Option SocketAddr → Server → Server
accept_on none s = s
accept_on (some addr) s = record s {
  connections =
      s.connections
      ++ (record { source = s.current; seen = s.generation; stage = reading_head; written = [] }
          ∷ []);
}

-- The task with the number.
unfoldable pub wake_task : ℕ → Wake → ℕ → Option ℕ → List Connection → List Connection × Option ℕ
unfolding handle_connection
wake_task i w generation live [] = ([], live)
wake_task zero w generation live (c ∷ cs) =
    let (c, live) = handle_connection w generation live c in (c ∷ cs, live)
wake_task (suc i) w generation live (c ∷ cs) =
    let (cs, live) = wake_task i w generation live cs in (c ∷ cs, live)

pub data Step : Type 0 where
  command : ServerCommand → Binding → Step
  accepted : Bool → Step
  shutdown_seen : Step
  task : ℕ → Wake → Step

abbrev pub put_tasks : List Connection × Option ℕ → Server → Server
put_tasks (connections, live) s = record s { connections = connections; live = live }

-- The tasks outlive the loop.
unfoldable pub step : Step → Server → Server
unfolding on_command wake_task
step (command c b) s = if s.stopped then s else on_command c b s
step (accepted succeeded) s = if s.stopped || not succeeded then s else accept_on s.listener s
step shutdown_seen s = record s { stopped = true }
step (task i w) s = put_tasks (wake_task i w s.generation s.live s.connections) s

unfoldable pub run : List Step → Server → Server
unfolding step
run [] s = s
run (st ∷ ss) s = run ss (step st s)
