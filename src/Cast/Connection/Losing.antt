-- ===== src/Cast/Connection/Losing.antt =====
-- Tearing a session down, and losing one.
use cast_app.Common.{
  ℕ, ◌+◌, ◌<◌, ◌≡◌, refl, ◌∙◌, Option, none, some, ◌==◌, arith, Bool-cases, inl, inr, if◌then◌else◌,
  case_option-cases,
}
use cast_app.Common.Text.{Text}
use cast_app.Util.Retry.{Backoff, next}
use cast_app.Cast.RequestId.{u32_max}
use cast_app.Cast.Namespaces
use cast_app.Cast.Connection.{
  CastDevice, ConnectionConfig, Session, World, Handled, done, io_error, panicked, send_payload,
}
use cast_app.Cast.Connection.Commands.{media_destination, to_receiver, to_media}
use cast_app.Cast.Connection.Teardown.{is_streaming, send_stop_app, send_stop, teardown_messages}
use cast_app.Cast.Connection.Run.{
  RunState, Outcome, running, exited, crashed, then_run, close_session, teardown_session, schedule,
  connection_lost,
}
use cast_app.Cast.Connection.Validity.{IsGood, SessionMatches, IsSafe}
use cast_app.Cast.Connection.Preserve.{registered, with_request-Good}

-- The teardown's messages are sent, without a panic and without an error.
abbrev pub IsDone : Handled → Type 0
IsDone (done s w) = Unit {0}
IsDone (io_error s w) = ⊥
IsDone panicked = ⊥

module _ (device : CastDevice) (transport n : ℕ) where
  send_stop_app-Done :
      (session_id : Text) (s : Session) (w : World)
      → IsGood device transport n s
      → n < u32_max
      → IsDone (send_stop_app session_id s w)
  send_stop_app-Done session_id s w good room =
      with_request-Good IsDone device transport n s w
        (λ id s w.
          done s (send_payload s.transport (to_receiver (Namespaces.stop_app id session_id)) w).0)
        good room (λ id ids good'. tt)

send_stop-Done :
    (device : CastDevice) (transport n : ℕ) (session_id : Text) (s : Session) (w : World)
    → IsGood device transport n s
    → n + 1 < u32_max
    → IsDone (send_stop s w (send_stop_app session_id))
send_stop-Done device transport n session_id s w good room =
    with_request-Good IsDone device transport n s w
      (λ id s w.
        send_stop_app session_id s
          (send_payload s.transport (to_media (media_destination s) (Namespaces.stop id)) w).0)
      good (omega arith)
      (λ id ids good'.
        send_stop_app-Done device transport (n + 1) session_id (registered s id ids w.now)
          (send_payload s.transport
            (to_media (media_destination (registered s id ids w.now)) (Namespaces.stop id)) w).0
          good' room)

pub teardown_messages-Done :
    (device : CastDevice) (transport n : ℕ) (s : Session) (w : World)
    → IsGood device transport n s
    → n + 1 < u32_max
    → IsDone (teardown_messages s w)
unfolding teardown_messages
teardown_messages-Done device transport n s w good room =
    case_option-cases IsDone s.session_id (done s w)
      (λ session_id.
        if is_streaming s.phase
        then send_stop s w (send_stop_app session_id)
        else send_stop_app session_id s w)
      (λ absent. tt) (λ session_id e. with_app session_id)
  where
    with_app :
        (session_id : Text)
        → IsDone (
            if is_streaming s.phase
            then send_stop s w (send_stop_app session_id)
            else send_stop_app session_id s w)
    with_app session_id = elim (Bool-cases (is_streaming s.phase)) [
      | inl media ↦ rw media (send_stop-Done device transport n session_id s w good room)
      | inr other ↦
          rw other (send_stop_app-Done device transport n session_id s w good (omega arith))
    ]

-- No session is left, nor its channel and timers, and nothing else has changed.
abbrev pub IsTorn : RunState → Outcome → Type 0
IsTorn st (running st' w) =
    (st'.session ≡ none)
    × (st'.inbound ≡ none)
    × (st'.heartbeat ≡ none)
    × (st'.watchdog ≡ none)
    × (st'.desired ≡ st.desired)
    × (st'.reconnect ≡ st.reconnect)
IsTorn st (exited st' w) = ⊥
IsTorn st crashed = ⊥

close_session-Torn : (st : RunState) (h : Handled) → IsDone h → IsTorn st (close_session st h)
close_session-Torn st (done s w) h = (refl, refl, refl, refl, refl, refl)
close_session-Torn st (io_error s w) h = absurd h
close_session-Torn st panicked h = absurd h

-- A session that can be torn down, or none.
abbrev pub IsTearable : ℕ → RunState → Option Session → Type 0
IsTearable n st none = (st.inbound ≡ none) × (st.heartbeat ≡ none) × (st.watchdog ≡ none)
IsTearable n st (some s) = IsGood s.device s.transport n s

pub teardown_session-Torn :
    (n : ℕ) (st : RunState) (w : World)
    → IsTearable n st st.session
    → n + 1 < u32_max
    → IsTorn st (teardown_session st w)
unfolding teardown_session
teardown_session-Torn n st w tearable room =
    case_option-cases (IsTorn st) st.session (running st w)
      (λ s. close_session st (teardown_messages s w))
      (λ e. let (a, b, c) = none_tearable e in (e, a, b, c, refl, refl))
      (λ s e.
        close_session-Torn st (teardown_messages s w)
          (teardown_messages-Done s.device s.transport n s w (some_tearable s e) room))
  where
    none_tearable : st.session ≡ none → IsTearable n st none
    none_tearable e = rw e at tearable

    some_tearable : (s : Session) → st.session ≡ some s → IsTearable n st (some s)
    some_tearable s e = rw e at tearable

-- What follows a teardown that holds.
pub then_run-Torn :
    (P : Outcome → Type 0) (st : RunState) (o : Outcome) (after : RunState → World → Outcome)
    → IsTorn st o
    → ((st' : RunState) (w : World) → IsTorn st (running st' w) → P (after st' w))
    → P (then_run o after)
then_run-Torn P st (running st' w) after torn rest = rest st' w torn
then_run-Torn P st (exited st' w) after torn rest = absurd torn
then_run-Torn P st crashed after torn rest = absurd torn

-- What `next` leaves of a policy.
abbrev pub IsNext : Backoff → Backoff × Option ℕ → Type 0
IsNext b (b', none) = b.remaining ≡ 0
IsNext b (b', some delay) = b'.remaining + 1 ≡ b.remaining

pub next-Next : (b : Backoff) → IsNext b (next b)
unfolding next
next-Next b = elim (Bool-cases (b.remaining == 0)) [
  | inl over ↦ rw over (ground arith)
  | inr more ↦ rw more (ground arith)
]

pub none_matches :
    (n : ℕ) (st : RunState)
    → st.session ≡ none
    → st.inbound ≡ none
    → st.heartbeat ≡ none
    → st.watchdog ≡ none
    → SessionMatches n st st.session
none_matches n st e a b c = rw e (a, b, c)

schedule-Safe :
    (config : ConnectionConfig) (n : ℕ) (st : RunState) (device : CastDevice)
    (after : Backoff × Option ℕ) (w : World)
    → IsNext config.backoff after
    → SessionMatches n st st.session
    → st.session ≡ none
    → st.desired ≡ some device
    → st.reconnect ≡ none
    → IsSafe config n (schedule st device after w)
schedule-Safe config n st device (b, some delay) w left matches e d r =
    let (x, y, z) = (rw e at matches) in (none_matches n _ e x y z, (d, omega (arith, left)))
schedule-Safe config n st device (b, none) w left matches e d r =
    let (x, y, z) = (rw e at matches) in (none_matches n _ e x y z, rw r tt)

-- A lost connection leaves a valid state: a reconnect to the desired device is scheduled, or no
-- device is desired any more.
pub connection_lost-Safe :
    (config : ConnectionConfig) (n m : ℕ) (st : RunState) (w : World)
    → IsTearable n st st.session
    → n + 1 < u32_max
    → st.reconnect ≡ none
    → IsSafe config m (connection_lost config st w)
unfolding connection_lost
connection_lost-Safe config n m st w tearable room idle =
    then_run-Torn (IsSafe config m) st (teardown_session st w) _
      (teardown_session-Torn n st w tearable room)
      (λ st' w (e, a, b, c, d, r).
        case_option-cases (IsSafe config m) st'.desired (running st' w)
          (λ device. schedule st' device (next config.backoff) w)
          (λ absent. (none_matches m st' e a b c, rw (r ∙ idle) tt))
          (λ device wanted.
            schedule-Safe config m st' device (next config.backoff) w (next-Next config.backoff)
              (none_matches m st' e a b c) e wanted (r ∙ idle)))
