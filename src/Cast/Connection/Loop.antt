-- ===== src/Cast/Connection/Loop.antt =====
-- src/cast/connection/state_machine.rs: `run`. One iteration is a `step` on the branch that
-- `select!` takes.
use cast_app.Common.{
  ℕ, ◌+◌, Option, none, some, Bool, true, false, not, ◌&&◌, List, [], ◌∷◌, leb, if◌then◌else◌,
  case_option,
}
use cast_app.Common.Text.{Text}
use cast_app.Util.Retry.{Backoff, next}
use cast_app.Cast.RequestId.{expire}
use cast_app.Cast.Namespaces.{Value, transport_0, heartbeat_ns, ping}
use cast_app.Cast.Connection.{
  Phase, CastDevice, Command, reconnect_exhausted, ConnectionEvent, error, ConnectionConfig,
  Session, World, send_event, send_payload, Handled, done, io_error, panicked,
}
use cast_app.Cast.Connection.Commands.{handle_command, dispatch_pending}
use cast_app.Cast.Connection.Inbound.{InboundAction, pong, events, ignore, route_inbound}
use cast_app.Cast.Connection.Run.{
  Reconnect, RunState, Outcome, running, exited, crashed, then_run, teardown_session,
  connection_lost, Established, established, failed, establish,
}

-- The end of `Command::Select`.
abbrev pub selected : RunState → Established → Outcome
selected st (established st' w) = running st' w
selected st (failed e w) = running (record st { desired = none }) (send_event (error e) w)

unfoldable pub select_device : ConnectionConfig → RunState → CastDevice → World → Outcome
select_device config st device w = then_run (teardown_session st w) (λ st w.
    let st = record st { reconnect = none; desired = some device } in
    selected st (establish config st device w))

-- A failed write is a lost connection.
abbrev pub after_handled : ConnectionConfig → RunState → Handled → Outcome
after_handled config st (done s w) = running (record st { session = some s }) w
after_handled config st (io_error s w) = connection_lost config (record st { session = some s }) w
after_handled config st panicked = crashed

unfoldable pub on_command : ConnectionConfig → RunState → Command → World → Outcome
on_command config st (Command.select device) w = select_device config st device w
on_command config st Command.shutdown w = then_run (teardown_session st w) (λ st w. exited st w)
on_command config st command w =
    case_option st.session (running st w)
      (λ s. after_handled config st (handle_command s command w))

-- `watchdog.as_mut().reset(…)`.
abbrev pub reset : Option ℕ → ℕ → Option ℕ
reset none due = none
reset (some old) due = some due

abbrev pub send_events : List ConnectionEvent → World → World
send_events [] w = w
send_events (e ∷ es) w = send_events es (send_event e w)

abbrev pub act : ConnectionConfig → RunState → InboundAction → World → RunState × World
act config st pong w =
    (record st { watchdog = reset st.watchdog (w.now + config.watchdog_timeout) }, w)
act config st (events out) w = (st, send_events out w)
act config st ignore w = (st, w)

abbrev pub is_ready_phase : Phase → Bool
is_ready_phase Phase.ready = true
is_ready_phase _ = false

-- `take_pending_command`, and its dispatch.
unfoldable pub dispatch : ConnectionConfig → RunState → Session → World → Outcome
dispatch config st s w =
    case_option s.pending_command (running (record st { session = some s }) w) (λ pending.
      after_handled config st (dispatch_pending (record s { pending_command = none }) pending w))

abbrev pub after_route : ConnectionConfig → RunState → Session × InboundAction → World → Outcome
after_route config st (s, action) w =
    let (st, w) = act config st action w in
    if is_ready_phase s.phase
    then dispatch config st s w
    else running (record st { session = some s }) w

unfoldable pub on_frame :
    (Text → Option Value) → ConnectionConfig → RunState → List ℕ → World → Outcome
on_frame from_str config st payload w =
    case_option st.session (running st w)
      (λ s. after_route config st (route_inbound from_str s payload) w)

unfoldable pub on_reader_exit : ConnectionConfig → RunState → World → Outcome
on_reader_exit config st w =
    case_option st.session (running (record st { inbound = none }) w)
      (λ s. connection_lost config st w)

abbrev pub ping_sent : ConnectionConfig → RunState → World × Bool → Outcome
ping_sent config st (w, true) =
    running (record st { heartbeat = some (w.now + config.heartbeat_interval) }) w
ping_sent config st (w, false) = connection_lost config st w

unfoldable pub on_heartbeat : ConnectionConfig → RunState → World → Outcome
on_heartbeat config st w = case_option st.session (running (record st { heartbeat = none }) w) (λ s.
    ping_sent config st (
      send_payload s.transport
        (record { destination = transport_0; namespace = heartbeat_ns; body = ping }) w))

unfoldable pub on_watchdog : ConnectionConfig → RunState → World → Outcome
on_watchdog config st w =
    case_option st.session (running (record st { watchdog = none }) w)
      (λ s. connection_lost config st w)

-- The next delay, or the report that there is none.
abbrev pub retry : RunState → Reconnect → Backoff × Option ℕ → World → Outcome
retry st r (backoff, some delay) w =
    running
      (record st {
        reconnect = some (record {
          due = w.now + delay;
          device = r.device;
          backoff = backoff;
          attempts = r.attempts + 1;
        });
      })
      w
retry st r (backoff, none) w =
    running (record st { desired = none })
      (send_event (error (reconnect_exhausted r.device.name r.device.addr (r.attempts + 1))) w)

abbrev pub reconnected : RunState → Reconnect → Established → Outcome
reconnected st r (established st' w) = running st' w
reconnected st r (failed e w) = retry st r (next r.backoff) w

unfoldable pub on_reconnect : ConnectionConfig → RunState → World → Outcome
on_reconnect config st w = case_option st.reconnect (running st w) (λ r.
    let st = record st { reconnect = none } in reconnected st r (establish config st r.device w))

-- The branch of `select!` that is taken. `received none` is the end of the inbound channel or its
-- end mark.
pub data Wake : Type 0 where
  commanded : Option Command → Wake
  received : Option (List ℕ) → Wake
  heartbeat_due watchdog_due reconnect_due shutdown_changed : Wake

unfoldable pub on_wake :
    (Text → Option Value) → ConnectionConfig → RunState → Wake → World → Outcome
on_wake from_str config st (commanded none) w = exited st w
on_wake from_str config st (commanded (some command)) w = on_command config st command w
on_wake from_str config st (received (some payload)) w = on_frame from_str config st payload w
on_wake from_str config st (received none) w = on_reader_exit config st w
on_wake from_str config st heartbeat_due w = on_heartbeat config st w
on_wake from_str config st watchdog_due w = on_watchdog config st w
on_wake from_str config st reconnect_due w = on_reconnect config st w
on_wake from_str config st shutdown_changed w =
    then_run (teardown_session st w) (λ st w. exited st w)

-- The end of an iteration that does not break.
unfoldable pub reap : RunState → World → Outcome
reap st w = case_option st.session (running st w) (λ s.
    running (record st { session = some (record s { pending = (expire s.pending w.now).0 }) }) w)

unfoldable pub step : (Text → Option Value) → ConnectionConfig → RunState → Wake → World → Outcome
step from_str config st wake w = then_run (on_wake from_str config st wake w) reap

-- Whether a timer is armed and due.
abbrev is_due : Option ℕ → ℕ → Bool
is_due none now = false
is_due (some due) now = leb due now

abbrev is_some {ℓ} : {A : Type ℓ} → Option A → Bool
is_some none = false
is_some (some a) = true

abbrev due_of : Option Reconnect → Option ℕ
due_of none = none
due_of (some r) = some r.due

-- Whether `select!` may take the branch: its precondition, and its future being ready. `signalled`
-- is the value of the shutdown channel when `select!` is entered, `triggered` the one it has now.
unfoldable pub is_enabled : RunState → Bool → Bool → ℕ → Wake → Bool
is_enabled st signalled triggered now (commanded command) = true
is_enabled st signalled triggered now (received frame) = is_some st.inbound
is_enabled st signalled triggered now heartbeat_due = is_due st.heartbeat now
is_enabled st signalled triggered now watchdog_due = is_due st.watchdog now
is_enabled st signalled triggered now reconnect_due = is_due (due_of st.reconnect) now
is_enabled st signalled triggered now shutdown_changed = not signalled && triggered
