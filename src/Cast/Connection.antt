-- ===== src/Cast/Connection.antt =====
-- src/cast/connection: the data of the connection task. What its awaits meet (the outcome of each
-- write, connect and thread start, and the time) is a `World`, which also logs what the task does.
pub mod Commands
pub mod Inbound
pub mod Teardown
pub mod Run
pub mod Loop
pub mod Validity
pub mod Preserve
pub mod Handlers
pub mod Routing
pub mod Losing
pub mod Establishing
pub mod Steps
pub mod Branches
pub mod Safety
pub mod Order
pub mod Reconnecting
pub mod Loading
pub mod Queue
pub mod Signal
mod Examples
use cast_app.Common.{ℕ, zero, suc, ◌+◌, Option, none, some, Bool, true, false, List, [], ◌∷◌, ◌++◌}
use cast_app.Common.Text.{Text}
use cast_app.Cast.Namespaces.{Value, StreamType, source_id}
use cast_app.Cast.Proto.Message.{encode_cast_message}
use cast_app.Cast.Framing.{encode_frame}
use cast_app.Cast.RequestId as Ids
use cast_app.Cast.RequestId.{
  RequestId, PendingMap, Allocated, new_map, allocate, insert, allocated, exhausted, out_of_fuel,
}
use cast_app.Util.Retry.{Backoff, nanos_per_sec}

pub data Phase : Type 0 where
  disconnected connecting connected launching ready streaming teardown : Phase

pub record SocketAddr : Type 0 where
  pub ip : Text
  pub port : ℕ

-- `CastDevice` of src/state.rs.
pub record CastDevice : Type 0 where
  pub id : Text
  pub name : Text
  pub addr : SocketAddr
  pub tofu_key : Text

pub data Command : Type 0 where
  select : CastDevice → Command
  launch_default_receiver : Command
  load : Text → Text → StreamType → Command
  play pause stop : Command
  set_volume : ℕ → Bool → Command
  get_status shutdown : Command

-- The connect error is the connector's; `tls_io` is the one that a failed write makes.
pub data TlsError : Type 0 where
  tls_io : TlsError
  refused : Text → TlsError

pub data ConnectionError : Type 0 where
  tls : SocketAddr → TlsError → ConnectionError
  reconnect_exhausted : Text → SocketAddr → ℕ → ConnectionError
  reader_thread : ConnectionError

-- `PinCheck` of src/cast/tofu.rs, with the digests as bytes.
pub data PinCheck : Type 0 where
  disabled pinned matched : PinCheck
  mismatch : List ℕ → List ℕ → PinCheck

pub data ConnectionEvent : Type 0 where
  connected_to : CastDevice → ConnectionEvent
  disconnected_from : CastDevice → ConnectionEvent
  error : ConnectionError → ConnectionEvent
  is_ready : Text → Text → ConnectionEvent
  media_status : Bool → Bool → ConnectionEvent
  volume : ℕ → Bool → ConnectionEvent
  certificate_mismatch : CastDevice → List ℕ → List ℕ → ConnectionEvent

-- `ConnectionConfig`, in nanoseconds.
pub record ConnectionConfig : Type 0 where
  pub heartbeat_interval : ℕ
  pub watchdog_timeout : ℕ
  pub request_timeout : ℕ
  pub backoff : Backoff

pub data PendingCommand : Type 0 where
  pending_load : Text → Text → StreamType → PendingCommand

-- The shared transport is a number, that of its connection.
pub record Session : Type 0 where
  pub phase : Phase
  pub device : CastDevice
  pub transport : ℕ
  pub request_id : RequestId
  pub pending : PendingMap
  pub transport_id : Option Text
  pub session_id : Option Text
  pub pending_command : Option PendingCommand

unfoldable pub new : CastDevice → ℕ → ℕ → Session
unfolding Ids.new new_map
new device transport request_timeout = record {
  phase = connected;
  device = device;
  transport = transport;
  request_id = Ids.new;
  pending = new_map request_timeout;
  transport_id = none;
  session_id = none;
  pending_command = none;
}

-- A message from `source-0`.
pub record Outgoing : Type 0 where
  pub destination : Text
  pub namespace : Text
  pub body : Value

-- The bytes that `send_payload` writes, with serde_json's text of the body.
unfoldable pub wire_bytes : (Value → Text) → Outgoing → List ℕ
wire_bytes render o =
    encode_frame (encode_cast_message source_id o.destination o.namespace (render o.body))

-- `wrote` carries whether the write succeeded; a failed one may have written a part.
pub data Effect : Type 0 where
  wrote : ℕ → Outgoing → Bool → Effect
  closed : ℕ → Effect
  event : ConnectionEvent → Effect

pub data Connected : Type 0 where
  no_connection : TlsError → Connected
  connection : PinCheck → Connected

-- The outcomes of the coming writes, connects and thread starts: past the end of a list they fail.
-- The newest effect stands first.
pub record World : Type 0 where
  pub now : ℕ
  pub writes : List Bool
  pub connects : List Connected
  pub spawns : List Bool
  pub next_transport : ℕ
  pub log : List Effect

abbrev pub emit : Effect → World → World
emit e w = record w { log = e ∷ w.log }

-- `events.send`.
abbrev pub send_event : ConnectionEvent → World → World
send_event e w = emit (event e) w

-- `send_payload`, with the outcome that the list holds.
unfoldable pub write_next : ℕ → Outgoing → World → List Bool → World × Bool
write_next transport o w [] = (emit (wrote transport o false) w, false)
write_next transport o w (success ∷ rest) =
    (record w { writes = rest; log = wrote transport o success ∷ w.log }, success)

unfoldable pub send_payload : ℕ → Outgoing → World → World × Bool
unfolding write_next
send_payload transport o w = write_next transport o w w.writes

-- What a handler ends with: its `Result`, or a panic.
pub data Handled : Type 0 where
  done : Session → World → Handled
  io_error : Session → World → Handled
  panicked : Handled

-- What follows `allocate`: the request is registered as pending, and `next` goes on.
abbrev pub register : Allocated → Session → World → (ℕ → Session → World → Handled) → Handled
register (allocated id ids) s w next =
    next id (record s { request_id = ids; pending = (insert s.pending id w.now).0 }) w
register exhausted s w next = panicked
register out_of_fuel s w next = panicked

-- `next_request`, and what is done with the ID.
unfoldable pub with_request : Session → World → (ℕ → Session → World → Handled) → Handled
with_request s w next = register (allocate s.request_id s.pending) s w next

-- `send_payload(…).await`, as a handler's last action.
abbrev pub sent_last : Session → World × Bool → Handled
sent_last s (w, true) = done s w
sent_last s (w, false) = io_error s w

-- `send_payload(…).await?`, and what follows.
abbrev pub sent_then : Session → World × Bool → (World → Handled) → Handled
sent_then s (w, true) next = next w
sent_then s (w, false) next = io_error s w
