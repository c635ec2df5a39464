-- ===== src/Cast/Connection/Run.antt =====
-- src/cast/connection/state_machine.rs and teardown.rs: the state of the run loop, losing a
-- session and establishing one.
use cast_app.Common.{ℕ, ◌+◌, Option, none, some, Bool, true, false, List, [], ◌∷◌, case_option}
use cast_app.Util.Retry.{Backoff, next}
use cast_app.Cast.Namespaces.{receiver_id, connection_ns, connect}
use cast_app.Cast.Connection
use cast_app.Cast.Connection.{
  Phase, CastDevice, Command, TlsError, tls_io, ConnectionError, tls, reconnect_exhausted,
  reader_thread, PinCheck, mismatch, ConnectionEvent, connected_to, disconnected_from, error,
  certificate_mismatch, ConnectionConfig, Session, Outgoing, Connected, no_connection, World, emit,
  closed, send_event, send_payload, Handled, done, io_error, panicked,
}
use cast_app.Cast.Connection.Teardown.{teardown_messages}

pub record Reconnect : Type 0 where
  pub due : ℕ
  pub device : CastDevice
  pub backoff : Backoff
  pub attempts : ℕ

-- The inbound channel is the number of the transport that its reader thread reads; a timer is the
-- time it is due.
pub record RunState : Type 0 where
  pub session : Option Session
  pub desired : Option CastDevice
  pub inbound : Option ℕ
  pub heartbeat : Option ℕ
  pub watchdog : Option ℕ
  pub reconnect : Option Reconnect

unfoldable pub new : RunState
new = record {
  session = none;
  desired = none;
  inbound = none;
  heartbeat = none;
  watchdog = none;
  reconnect = none;
}

pub data Outcome : Type 0 where
  running : RunState → World → Outcome
  exited : RunState → World → Outcome
  crashed : Outcome

-- What an await leaves, and what follows it.
abbrev pub then_run : Outcome → (RunState → World → Outcome) → Outcome
then_run (running st w) next = next st w
then_run (exited st w) next = exited st w
then_run crashed next = crashed

-- `teardown_session`, from the closing of the transport on.
abbrev pub close_session : RunState → Handled → Outcome
close_session st (done s w) =
    running (record st { session = none; inbound = none; heartbeat = none; watchdog = none })
      (send_event (disconnected_from s.device) (emit (closed s.transport) w))
close_session st (io_error s w) = crashed
close_session st panicked = crashed

unfoldable pub teardown_session : RunState → World → Outcome
teardown_session st w =
    case_option st.session (running st w) (λ s. close_session st (teardown_messages s w))

-- The first delay of a fresh policy, or the report that there is none.
abbrev pub schedule : RunState → CastDevice → Backoff × Option ℕ → World → Outcome
schedule st device (backoff, some delay) w =
    running
      (record st {
        reconnect =
            some (record { due = w.now + delay; device = device; backoff = backoff; attempts = 0 });
      })
      w
schedule st device (backoff, none) w =
    running (record st { desired = none })
      (send_event (error (reconnect_exhausted device.name device.addr 0)) w)

unfoldable pub connection_lost : ConnectionConfig → RunState → World → Outcome
connection_lost config st w = then_run (teardown_session st w) (λ st w.
    case_option st.desired (running st w) (λ device. schedule st device (next config.backoff) w))

pub data Established : Type 0 where
  established : RunState → World → Established
  failed : ConnectionError → World → Established

abbrev pub warn_mismatch : CastDevice → PinCheck → World → World
warn_mismatch device (mismatch previous current) w =
    send_event (certificate_mismatch device previous current) w
warn_mismatch device pin w = w

-- The reader thread and the session.
abbrev pub open_session :
    ConnectionConfig → RunState → CastDevice → ℕ → List Bool → World → Established
open_session config st device transport (true ∷ spawns) w =
    established
      (record st {
        session = some (Connection.new device transport config.request_timeout);
        inbound = some transport;
        heartbeat = some (w.now + config.heartbeat_interval);
        watchdog = some (w.now + config.watchdog_timeout);
      })
      (send_event (connected_to device) (record w { spawns = spawns }))
open_session config st device transport (false ∷ spawns) w =
    failed reader_thread (record w { spawns = spawns })
open_session config st device transport [] w = failed reader_thread w

abbrev pub connect_sent : ConnectionConfig → RunState → CastDevice → ℕ → World × Bool → Established
connect_sent config st device transport (w, true) =
    open_session config st device transport w.spawns w
connect_sent config st device transport (w, false) = failed (tls device.addr tls_io) w

abbrev pub hello : Outgoing
hello = record { destination = receiver_id; namespace = connection_ns; body = connect }

abbrev pub connect_to :
    ConnectionConfig → RunState → CastDevice → List Connected → World → Established
connect_to config st device [] w = failed (tls device.addr tls_io) w
connect_to config st device (no_connection e ∷ connects) w =
    failed (tls device.addr e) (record w { connects = connects })
connect_to config st device (Connected.connection pin ∷ connects) w =
    let transport = w.next_transport in
    let w = record w { connects = connects; next_transport = transport + 1 } in
    connect_sent config st device transport
      (send_payload transport hello (warn_mismatch device pin w))

unfoldable pub establish : ConnectionConfig → RunState → CastDevice → World → Established
unfolding Connection.new
establish config st device w = connect_to config st device w.connects w
