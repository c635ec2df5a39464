-- ===== src/Cast/Connection/Branches.antt =====
-- The branches of the run loop one by one, and the valid states.
use cast_app.Common.{
  ℕ, ◌+◌, ◌<◌, ◌≡◌, refl, Option, none, some, Bool, true, false, List, arith, Bool-cases, inl, inr,
  case_option-cases,
}
use cast_app.Common.Text.{Text}
use cast_app.Cast.Namespaces.{Value}
use cast_app.Cast.RequestId.{u32_max}
use cast_app.Cast.Connection
use cast_app.Cast.Connection.{
  CastDevice, Command, ConnectionConfig, ConnectionEvent, ConnectionError, PinCheck, Connected,
  no_connection, Session, World, Handled, done, io_error, panicked, send_payload,
}
use cast_app.Cast.Connection.Commands.{dispatch_pending}
use cast_app.Cast.Connection.Inbound.{InboundAction, pong, events, ignore, route_inbound}
use cast_app.Cast.Connection.Run.{Reconnect, RunState, running, connection_lost, establish}
use cast_app.Cast.Connection.Loop.{
  after_handled, reset, act, is_ready_phase, dispatch, after_route, on_frame, on_reader_exit,
  ping_sent, on_heartbeat, on_watchdog, reconnected, on_reconnect,
}
use cast_app.Cast.Connection.Validity.{IsSome, IsGood, SessionMatches, IsValid, IsSafe}
use cast_app.Cast.Connection.Handlers.{dispatch_pending-Handled}
use cast_app.Cast.Connection.Routing.{IsRouted, routed→good, route_inbound-Routed}
use cast_app.Cast.Connection.Establishing.{IsIdle, establish-Established, reconnected-Safe}
use cast_app.Cast.Connection.Preserve.{more-IsGood}
use cast_app.Cast.Connection.Steps.{
  IsArmed, joined-Valid, IsGood-of, IsArmed-of, torn-Valid, after_handled-Safe, found_lost-Safe,
  grown-Valid,
}

act-Armed :
    (config : ConnectionConfig) (device : CastDevice) (transport : ℕ) (st : RunState)
    (action : InboundAction) (w : World)
    → IsArmed device transport st
    → IsArmed device transport (act config st action w).0
act-Armed config device transport st (events out) w armed = armed
act-Armed config device transport st ignore w armed = armed
act-Armed config device transport st pong w (a, b, c, d, watch) =
    (a, b, c, d, kept st.watchdog watch)
  where
    kept : (o : Option ℕ) → IsSome o → IsSome (reset o (w.now + config.watchdog_timeout))
    kept none h = h
    kept (some due) h = tt

ready_of : (phase : Connection.Phase) → is_ready_phase phase ≡ true → phase ≡ Connection.ready
ready_of Connection.ready e = refl
ready_of Connection.disconnected e = cc
ready_of Connection.connecting e = cc
ready_of Connection.connected e = cc
ready_of Connection.launching e = cc
ready_of Connection.streaming e = cc
ready_of Connection.teardown e = cc

module _ (config : ConnectionConfig) (n : ℕ) (room : n + 2 < u32_max) where
  -- With an empty queue, the session is as good as without it.
  unqueued-Good :
      (device : CastDevice) (transport : ℕ) (s : Session)
      → s.pending_command ≡ none
      → IsGood device transport n (record s { pending_command = none })
      → IsGood device transport n s
  unqueued-Good device transport s e good = record {
    is_device = good.is_device;
    is_transport = good.is_transport;
    has_app = good.has_app;
    is_queued = rw e tt;
    is_unique = good.is_unique;
    is_id = good.is_id;
    is_small = good.is_small;
  }

  dispatch-Safe :
      (device : CastDevice) (transport : ℕ) (st : RunState) (s : Session) (w : World)
      → IsArmed device transport st
      → IsGood device transport n (record s { pending_command = none })
      → s.phase ≡ Connection.ready
      → IsSafe config (n + 1) (dispatch config st s w)
  unfolding dispatch
  dispatch-Safe device transport st s w armed good phase =
      case_option-cases (IsSafe config (n + 1)) s.pending_command
        (running (record st { session = some s }) w)
        (λ pending.
          after_handled config st
            (dispatch_pending (record s { pending_command = none }) pending w))
        (λ e.
          joined-Valid config device transport (n + 1) st s armed
            (more-IsGood device transport n s (unqueued-Good device transport s e good)))
        (λ pending e.
          after_handled-Safe config n room device transport st
            (dispatch_pending (record s { pending_command = none }) pending w) armed
            (dispatch_pending-Handled device transport n (record s { pending_command = none })
              pending w good (omega arith) phase refl))

  after_route-Safe :
      (device : CastDevice) (transport : ℕ) (st : RunState) (routed : Session × InboundAction)
      (w : World)
      → IsArmed device transport st
      → IsRouted device transport n routed.0
      → IsSafe config (n + 1) (after_route config st routed w)
  after_route-Safe device transport st (s, action) w armed routed =
      elim (Bool-cases (is_ready_phase s.phase)) [
        | inl is_ready ↦ rw is_ready (
            dispatch-Safe device transport (act config st action w).0 s (act config st action w).1
              (act-Armed config device transport st action w armed) routed.0
              (ready_of s.phase is_ready))
        | inr other ↦ rw other (
            joined-Valid config device transport (n + 1) (act config st action w).0 s
              (act-Armed config device transport st action w armed)
              (more-IsGood device transport n s (routed→good device transport n s other routed)))
      ]

  pub on_frame-Safe :
      (from_str : Text → Option Value) (st : RunState) (payload : List ℕ) (w : World)
      → IsValid config n st
      → IsSafe config (n + 1) (on_frame from_str config st payload w)
  unfolding on_frame
  on_frame-Safe from_str st payload w valid =
      case_option-cases (IsSafe config (n + 1)) st.session (running st w)
        (λ s. after_route config st (route_inbound from_str s payload) w)
        (λ absent. grown-Valid config n room st valid)
        (λ s e.
          after_route-Safe s.device s.transport st (route_inbound from_str s payload) w
            (IsArmed-of config n st s valid e)
            (route_inbound-Routed s.device s.transport n from_str s payload
              (IsGood-of config n st s valid e)))

  without_session :
      (st st' : RunState) (w : World)
      → st.session ≡ none
      → IsValid config n st
      → st'.session ≡ none
      → (st.inbound ≡ none → st'.inbound ≡ none)
      → (st.heartbeat ≡ none → st'.heartbeat ≡ none)
      → (st.watchdog ≡ none → st'.watchdog ≡ none)
      → st'.desired ≡ st.desired
      → st'.reconnect ≡ st.reconnect
      → IsValid config (n + 1) st'
  without_session st st' w e valid f i h k d r =
      let (a, b, c) = (rw e at valid.0) in
      torn-Valid config n (n + 1) st st' w valid (f, i a, h b, k c, d, r)

  pub on_reader_exit-Safe :
      (st : RunState) (w : World)
      → IsValid config n st
      → IsSafe config (n + 1) (on_reader_exit config st w)
  unfolding on_reader_exit
  on_reader_exit-Safe st w valid =
      case_option-cases (IsSafe config (n + 1)) st.session
        (running (record st { inbound = none }) w) (λ s. connection_lost config st w)
        (λ e.
          without_session st (record st { inbound = none }) w e valid e (λ a. refl) (λ b. b)
            (λ c. c) refl refl)
        (λ s e. found_lost-Safe config n room st s w valid e)

  pub on_watchdog-Safe :
      (st : RunState) (w : World)
      → IsValid config n st
      → IsSafe config (n + 1) (on_watchdog config st w)
  unfolding on_watchdog
  on_watchdog-Safe st w valid =
      case_option-cases (IsSafe config (n + 1)) st.session
        (running (record st { watchdog = none }) w) (λ s. connection_lost config st w)
        (λ e.
          without_session st (record st { watchdog = none }) w e valid e (λ a. a) (λ b. b)
            (λ c. refl) refl refl)
        (λ s e. found_lost-Safe config n room st s w valid e)

  ping_sent-Safe :
      (st : RunState) (s : Session) (sent : World × Bool)
      → IsValid config n st
      → st.session ≡ some s
      → IsSafe config (n + 1) (ping_sent config st sent)
  ping_sent-Safe st s (w, true) valid e = (rearmed st.session e valid.0, valid.1)
    where
      rearmed :
          (o : Option Session)
          → o ≡ some s
          → SessionMatches n st o
          → SessionMatches
              (n + 1)
              (record st { heartbeat = some (w.now + config.heartbeat_interval) })
              o
      rearmed none e matches = cc
      rearmed (some s) e (good, a, b, c, d, f) =
          (more-IsGood s.device s.transport n s good, a, b, c, tt, f)
  ping_sent-Safe st s (w, false) valid e = found_lost-Safe config n room st s w valid e

  pub on_heartbeat-Safe :
      (st : RunState) (w : World)
      → IsValid config n st
      → IsSafe config (n + 1) (on_heartbeat config st w)
  unfolding on_heartbeat
  on_heartbeat-Safe st w valid =
      case_option-cases (IsSafe config (n + 1)) st.session
        (running (record st { heartbeat = none }) w) _
        (λ e.
          without_session st (record st { heartbeat = none }) w e valid e (λ a. a) (λ b. refl)
            (λ c. c) refl refl)
        (λ s e. ping_sent-Safe st s _ valid e)

  -- Beside a scheduled reconnect there is no session.
  reconnect_alone :
      (st : RunState) (r : Reconnect)
      → IsValid config n st
      → st.reconnect ≡ some r
      → IsIdle (record st { reconnect = none })
  reconnect_alone st r valid e = alone st.session refl valid.0
    where
      alone :
          (o : Option Session)
          → st.session ≡ o
          → SessionMatches n st o
          → IsIdle (record st { reconnect = none })
      alone none f (a, b, c) = (f, a, b, c, refl)
      alone (some s) f (good, a, idle, b, c, d) = cc

  pub on_reconnect-Safe :
      (st : RunState) (w : World)
      → IsValid config n st
      → IsSafe config (n + 1) (on_reconnect config st w)
  unfolding on_reconnect
  on_reconnect-Safe st w valid =
      case_option-cases (IsSafe config (n + 1)) st.reconnect (running st w)
        (λ r.
          reconnected (record st { reconnect = none }) r
            (establish config (record st { reconnect = none }) r.device w))
        (λ absent. grown-Valid config n room st valid)
        (λ r e.
          let matches = (rw e at valid.1) in
          reconnected-Safe config (n + 1) (record st { reconnect = none }) r
            (establish config (record st { reconnect = none }) r.device w)
            (reconnect_alone st r valid e) (matches.0, matches.1)
            (establish-Established config (n + 1) (record st { reconnect = none }) r.device w
              (reconnect_alone st r valid e) matches.0))
