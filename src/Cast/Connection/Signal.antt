-- ===== src/Cast/Connection/Signal.antt =====
-- The shutdown token of the run loop: which branches end the loop.
use cast_app.Common.{
  ℕ, ◌≡◌, Option, none, some, Bool, true, false, List, Bool-cases, inl, inr, case_option,
  case_option-cases,
}
use cast_app.Common.Text.{Text}
use cast_app.Cast.Namespaces.{Value}
use cast_app.Util.Retry.{Backoff, next}
use cast_app.Cast.Connection.{
  CastDevice, Command, ConnectionConfig, Session, World, Handled, done, io_error, panicked,
}
use cast_app.Cast.Connection.Inbound.{InboundAction, route_inbound}
use cast_app.Cast.Connection.Teardown.{teardown_messages}
use cast_app.Cast.Connection.Commands.{handle_command}
use cast_app.Cast.Connection.Run.{
  Reconnect, RunState, Outcome, running, exited, crashed, then_run, close_session, teardown_session,
  schedule, connection_lost, Established, established, failed,
}
use cast_app.Cast.Connection.Loop.{
  selected, select_device, after_handled, on_command, act, is_ready_phase, dispatch, after_route,
  on_frame, on_reader_exit, ping_sent, on_heartbeat, on_watchdog, retry, reconnected, on_reconnect,
  Wake, commanded, received, heartbeat_due, watchdog_due, reconnect_due, shutdown_changed, on_wake,
  reap, step, is_enabled,
}

-- The loop goes on, or has panicked: it has not been left.
abbrev pub Stays : Outcome → Type 0
Stays (running st w) = Unit {0}
Stays (exited st w) = ⊥
Stays crashed = Unit {0}

then_run-Stays :
    (o : Outcome) (after : RunState → World → Outcome)
    → Stays o
    → ((st : RunState) (w : World) → Stays (after st w))
    → Stays (then_run o after)
then_run-Stays (running st w) after h rest = rest st w
then_run-Stays (exited st w) after h rest = absurd h
then_run-Stays crashed after h rest = tt

close_session-Stays : (st : RunState) (h : Handled) → Stays (close_session st h)
close_session-Stays st (done s w) = tt
close_session-Stays st (io_error s w) = tt
close_session-Stays st panicked = tt

teardown_session-Stays : (st : RunState) (w : World) → Stays (teardown_session st w)
unfolding teardown_session
teardown_session-Stays st w =
    case_option-cases Stays st.session (running st w)
      (λ s. close_session st (teardown_messages s w)) (λ e. tt)
      (λ s e. close_session-Stays st (teardown_messages s w))

schedule-Stays :
    (st : RunState) (device : CastDevice) (after : Backoff × Option ℕ) (w : World)
    → Stays (schedule st device after w)
schedule-Stays st device (b, none) w = tt
schedule-Stays st device (b, some delay) w = tt

connection_lost-Stays :
    (config : ConnectionConfig) (st : RunState) (w : World) → Stays (connection_lost config st w)
unfolding connection_lost
connection_lost-Stays config st w =
    then_run-Stays (teardown_session st w) _ (teardown_session-Stays st w) (λ st w.
      case_option-cases Stays st.desired (running st w)
        (λ device. schedule st device (next config.backoff) w) (λ e. tt)
        (λ device e. schedule-Stays st device (next config.backoff) w))

selected-Stays : (st : RunState) (result : Established) → Stays (selected st result)
selected-Stays st (established st' w) = tt
selected-Stays st (failed e w) = tt

select_device-Stays :
    (config : ConnectionConfig) (st : RunState) (device : CastDevice) (w : World)
    → Stays (select_device config st device w)
unfolding select_device
select_device-Stays config st device w =
    then_run-Stays (teardown_session st w) _ (teardown_session-Stays st w)
      (λ st w. selected-Stays (record st { reconnect = none; desired = some device }) _)

after_handled-Stays :
    (config : ConnectionConfig) (st : RunState) (h : Handled) → Stays (after_handled config st h)
after_handled-Stays config st (done s w) = tt
after_handled-Stays config st (io_error s w) =
    connection_lost-Stays config (record st { session = some s }) w
after_handled-Stays config st panicked = tt

dispatch-Stays :
    (config : ConnectionConfig) (st : RunState) (s : Session) (w : World)
    → Stays (dispatch config st s w)
unfolding dispatch
dispatch-Stays config st s w =
    case_option-cases Stays s.pending_command (running (record st { session = some s }) w) _
      (λ e. tt) (λ pending e. after_handled-Stays config st _)

after_route-Stays :
    (config : ConnectionConfig) (st : RunState) (routed : Session × InboundAction) (w : World)
    → Stays (after_route config st routed w)
after_route-Stays config st (s, action) w = elim (Bool-cases (is_ready_phase s.phase)) [
  | inl e ↦ rw e (dispatch-Stays config (act config st action w).0 s (act config st action w).1)
  | inr e ↦ rw e tt
]

ping_sent-Stays :
    (config : ConnectionConfig) (st : RunState) (sent : World × Bool)
    → Stays (ping_sent config st sent)
ping_sent-Stays config st (w, true) = tt
ping_sent-Stays config st (w, false) = connection_lost-Stays config st w

retry-Stays :
    (st : RunState) (r : Reconnect) (after : Backoff × Option ℕ) (w : World)
    → Stays (retry st r after w)
retry-Stays st r (b, none) w = tt
retry-Stays st r (b, some delay) w = tt

reconnected-Stays :
    (st : RunState) (r : Reconnect) (result : Established) → Stays (reconnected st r result)
reconnected-Stays st r (established st' w) = tt
reconnected-Stays st r (failed e w) = retry-Stays st r (next r.backoff) w

-- The commands that end the loop: `Shutdown`, and the end of the command channel.
abbrev pub ends : Wake → Bool
ends (commanded none) = true
ends (commanded (some Command.shutdown)) = true
ends _ = false

handed_on-Stays :
    (config : ConnectionConfig) (st : RunState) (command : Command) (w : World)
    → Stays (
        case_option st.session
          (running st w)
          (λ s. after_handled config st (handle_command s command w)))
handed_on-Stays config st command w =
    case_option-cases Stays st.session (running st w) _ (λ e. tt)
      (λ s e. after_handled-Stays config st (handle_command s command w))

on_command-Stays :
    (config : ConnectionConfig) (st : RunState) (command : Command) (w : World)
    → ends (commanded (some command)) ≡ false
    → Stays (on_command config st command w)
unfolding on_command
on_command-Stays config st Command.shutdown w e = cc
on_command-Stays config st (Command.select device) w e = select_device-Stays config st device w
on_command-Stays config st Command.launch_default_receiver w e = handed_on-Stays config st _ w
on_command-Stays config st (Command.load a b c) w e = handed_on-Stays config st _ w
on_command-Stays config st Command.play w e = handed_on-Stays config st _ w
on_command-Stays config st Command.pause w e = handed_on-Stays config st _ w
on_command-Stays config st Command.stop w e = handed_on-Stays config st _ w
on_command-Stays config st (Command.set_volume a b) w e = handed_on-Stays config st _ w
on_command-Stays config st Command.get_status w e = handed_on-Stays config st _ w

on_frame-Stays :
    (from_str : Text → Option Value) (config : ConnectionConfig) (st : RunState) (payload : List ℕ)
    (w : World)
    → Stays (on_frame from_str config st payload w)
unfolding on_frame
on_frame-Stays from_str config st payload w =
    case_option-cases Stays st.session (running st w) _ (λ e. tt)
      (λ s e. after_route-Stays config st (route_inbound from_str s payload) w)

lost_or_cleared-Stays :
    (config : ConnectionConfig) (st : RunState) (cleared : RunState) (w : World)
    → Stays (case_option st.session (running cleared w) (λ s. connection_lost config st w))
lost_or_cleared-Stays config st cleared w =
    case_option-cases Stays st.session (running cleared w) (λ s. connection_lost config st w)
      (λ e. tt) (λ s e. connection_lost-Stays config st w)

on_heartbeat-Stays :
    (config : ConnectionConfig) (st : RunState) (w : World) → Stays (on_heartbeat config st w)
unfolding on_heartbeat
on_heartbeat-Stays config st w =
    case_option-cases Stays st.session (running (record st { heartbeat = none }) w) _ (λ e. tt)
      (λ s e. ping_sent-Stays config st _)

on_reconnect-Stays :
    (config : ConnectionConfig) (st : RunState) (w : World) → Stays (on_reconnect config st w)
unfolding on_reconnect
on_reconnect-Stays config st w =
    case_option-cases Stays st.reconnect (running st w) _ (λ e. tt)
      (λ r e. reconnected-Stays (record st { reconnect = none }) r _)

reap-Stays : (st : RunState) (w : World) → Stays (reap st w)
unfolding reap
reap-Stays st w = case_option-cases Stays st.session (running st w) _ (λ e. tt) (λ s e. tt)

-- If the token is already triggered when `select!` is entered, as it is when that happened while the
-- loop awaited something in the body of a branch, then none of the branches that `select!` may take
-- leaves the loop, except the `Shutdown` command and the end of the command channel.
pub triggered_before-Stays :
    (from_str : Text → Option Value) (config : ConnectionConfig) (st : RunState) (wake : Wake)
    (w : World)
    → is_enabled st true true w.now wake ≡ true
    → ends wake ≡ false
    → Stays (step from_str config st wake w)
unfolding step on_wake is_enabled on_reader_exit on_watchdog
triggered_before-Stays from_str config st (commanded none) w enabled e = cc
triggered_before-Stays from_str config st (commanded (some command)) w enabled e =
    then_run-Stays _ reap (on_command-Stays config st command w e) reap-Stays
triggered_before-Stays from_str config st (received (some payload)) w enabled e =
    then_run-Stays _ reap (on_frame-Stays from_str config st payload w) reap-Stays
triggered_before-Stays from_str config st (received none) w enabled e =
    then_run-Stays _ reap (lost_or_cleared-Stays config st (record st { inbound = none }) w)
      reap-Stays
triggered_before-Stays from_str config st heartbeat_due w enabled e =
    then_run-Stays _ reap (on_heartbeat-Stays config st w) reap-Stays
triggered_before-Stays from_str config st watchdog_due w enabled e =
    then_run-Stays _ reap (lost_or_cleared-Stays config st (record st { watchdog = none }) w)
      reap-Stays
triggered_before-Stays from_str config st reconnect_due w enabled e =
    then_run-Stays _ reap (on_reconnect-Stays config st w) reap-Stays
triggered_before-Stays from_str config st shutdown_changed w enabled e = cc
