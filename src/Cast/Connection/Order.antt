-- ===== src/Cast/Connection/Order.antt =====
-- The order of what a teardown does.
use cast_app.Common.{
  ℕ, ◌+◌, ◌<◌, ◌≡◌, refl, ◌∙◌, Option, none, some, Bool, true, false, List, [], ◌∷◌, arith,
  Bool-cases, inl, inr, if◌then◌else◌, case_option,
}
use cast_app.Common.Text.{Text}
use cast_app.Cast.RequestId.{u32_max}
use cast_app.Cast.Namespaces
use cast_app.Cast.Connection.{
  CastDevice, ConnectionConfig, disconnected_from, Session, Outgoing, World, Effect, wrote, closed,
  event, Handled, done, io_error, panicked, write_next, send_payload,
}
use cast_app.Cast.Connection.Commands.{media_destination, to_receiver, to_media}
use cast_app.Cast.Connection.Teardown.{is_streaming, send_stop_app, send_stop, teardown_messages}
use cast_app.Cast.Connection.Run.{
  RunState, Outcome, running, exited, crashed, close_session, teardown_session,
}
use cast_app.Cast.Connection.Validity.{IsGood, IsValid}
use cast_app.Cast.Connection.Preserve.{registered, with_request-Good}
use cast_app.Cast.Connection.Steps.{IsGood-of}

write_next-log :
    (transport : ℕ) (o : Outgoing) (w : World) (outcomes : List Bool)
    → (write_next transport o w outcomes).0.log
      ≡ wrote transport o (write_next transport o w outcomes).1 ∷ w.log
unfolding write_next
write_next-log transport o w [] = refl
write_next-log transport o w (success ∷ rest) = refl

-- A write is logged with its outcome.
pub send_payload-log :
    (transport : ℕ) (o : Outgoing) (w : World)
    → (send_payload transport o w).0.log ≡ wrote transport o (send_payload transport o w).1 ∷ w.log
unfolding send_payload
send_payload-log transport o w = write_next-log transport o w w.writes

-- The messages of a teardown, the newest first: none without an app, STOP_APP of the app, and before
-- it STOP to the media channel if media is streaming. Each may succeed or fail.
abbrev pub Messages : Session → Option Text → Bool → List Effect → List Effect → Type 0
Messages s none media old new = new ≡ old
Messages s (some app) false old new =
    (id : ℕ) × (success : Bool) × (new
      ≡ wrote s.transport (to_receiver (Namespaces.stop_app id app)) success ∷ old)
Messages s (some app) true old new =
    (id : ℕ) × (success : Bool) × (id' : ℕ) × (success' : Bool) × (new
      ≡ wrote s.transport (to_receiver (Namespaces.stop_app id' app)) success'
        ∷ wrote s.transport (to_media (media_destination s) (Namespaces.stop id)) success
        ∷ old)

abbrev HasSent : Session → Option Text → Bool → List Effect → Handled → Type 0
HasSent s app media old (done s' w) =
    (s'.device ≡ s.device) × (s'.transport ≡ s.transport) × Messages s app media old w.log
HasSent s app media old (io_error s' w) = ⊥
HasSent s app media old panicked = ⊥

module _ (device : CastDevice) (transport n : ℕ) (app : Text) where
  stop_app-HasSent :
      (s : Session) (w : World)
      → IsGood device transport n s
      → n < u32_max
      → HasSent s (some app) false w.log (send_stop_app app s w)
  stop_app-HasSent s w good room =
      with_request-Good (HasSent s (some app) false w.log) device transport n s w
        (λ id s w. done s (send_payload s.transport (to_receiver (Namespaces.stop_app id app)) w).0)
        good room
        (λ id ids good'. (
          refl,
          refl,
          (id, _, send_payload-log s.transport (to_receiver (Namespaces.stop_app id app)) w),
        ))

  after_stop :
      (s s' : Session) (id : ℕ) (success : Bool) (old log : List Effect) (h : Handled)
      → s'.transport ≡ s.transport
      → s'.device ≡ s.device
      → log ≡ wrote s.transport (to_media (media_destination s) (Namespaces.stop id)) success ∷ old
      → HasSent s' (some app) false log h
      → HasSent s (some app) true old h
  after_stop s s' id success old log (done s'' w) t d e (d', t', (id', success', e')) =
      (d' ∙ d, t' ∙ t, (id, success, id', success', rw (t, e) at e'))
  after_stop s s' id success old log (io_error s'' w) t d e h = h
  after_stop s s' id success old log panicked t d e h = h

stop-HasSent :
    (device : CastDevice) (transport n : ℕ) (app : Text) (s : Session) (w : World)
    → IsGood device transport n s
    → n + 1 < u32_max
    → HasSent s (some app) true w.log (send_stop s w (send_stop_app app))
unfolding media_destination
stop-HasSent device transport n app s w good room =
    with_request-Good (HasSent s (some app) true w.log) device transport n s w
      (λ id s w.
        send_stop_app app s
          (send_payload s.transport (to_media (media_destination s) (Namespaces.stop id)) w).0)
      good (omega arith)
      (λ id ids good'.
        after_stop device transport n app s (registered s id ids w.now) id _ w.log _ _ refl refl
          (send_payload-log s.transport (to_media (media_destination s) (Namespaces.stop id)) w)
          (stop_app-HasSent device transport (n + 1) app (registered s id ids w.now) _ good' room))

teardown_messages-HasSent :
    (device : CastDevice) (transport n : ℕ) (s : Session) (w : World)
    → IsGood device transport n s
    → n + 1 < u32_max
    → HasSent s s.session_id (is_streaming s.phase) w.log (teardown_messages s w)
unfolding teardown_messages
teardown_messages-HasSent device transport n s w good room = by_app s.session_id
  where
    by_app :
        (o : Option Text)
        → HasSent s o (is_streaming s.phase) w.log (
            case_option o (done s w) (λ app.
              if is_streaming s.phase
              then send_stop s w (send_stop_app app)
              else send_stop_app app s w))
    by_app none = (refl, refl, refl)
    by_app (some app) = elim (Bool-cases (is_streaming s.phase)) [
      | inl media ↦ rw media (stop-HasSent device transport n app s w good room)
      | inr other ↦ rw other (stop_app-HasSent device transport n app s w good (omega arith))
    ]

-- The messages, then the close of the transport, then the event, and nothing else.
abbrev pub IsFarewell : Session → List Effect → Outcome → Type 0
IsFarewell s old (running st w) =
    (sent : List Effect) × Messages s s.session_id (is_streaming s.phase) old sent
    × (w.log ≡ event (disconnected_from s.device) ∷ closed s.transport ∷ sent)
IsFarewell s old (exited st w) = ⊥
IsFarewell s old crashed = ⊥

close_session-Farewell :
    (st : RunState) (s : Session) (old : List Effect) (h : Handled)
    → HasSent s s.session_id (is_streaming s.phase) old h
    → IsFarewell s old (close_session st h)
close_session-Farewell st s old (done s' w) (d, t, messages) = (w.log, messages, rw (d, t) refl)
close_session-Farewell st s old (io_error s' w) h = h
close_session-Farewell st s old panicked h = h

-- Tearing down a valid state with a session sends, as far as the app and the phase ask for it, STOP
-- to the media channel, then STOP_APP, then closes the transport, then reports `Disconnected`, each
-- once and in this order, whether the writes succeed or fail.
pub teardown_session-Farewell :
    (config : ConnectionConfig) (n : ℕ) (st : RunState) (s : Session) (w : World)
    → IsValid config n st
    → st.session ≡ some s
    → n + 1 < u32_max
    → IsFarewell s w.log (teardown_session st w)
unfolding teardown_session
teardown_session-Farewell config n st s w valid e room = rw e (
    close_session-Farewell (record st { session = some s }) s w.log (teardown_messages s w)
      (teardown_messages-HasSent s.device s.transport n s w (IsGood-of config n st s valid e) room))
