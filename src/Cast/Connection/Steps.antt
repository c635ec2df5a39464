-- ===== src/Cast/Connection/Steps.antt =====
-- Commands, and the valid states of the run loop.
use cast_app.Common.{
  ℕ, ◌+◌, ◌≤◌, ◌<◌, ◌≡◌, refl, sym, ap, ◌∙◌, Option, none, some, arith, case_option,
  case_option-cases,
}
use cast_app.Cast.RequestId.{u32_max}
use cast_app.Cast.Connection.{
  CastDevice, Command, ConnectionConfig, Session, World, Handled, done, io_error, panicked,
}
use cast_app.Cast.Connection.Commands.{handle_command}
use cast_app.Cast.Connection.Run.{
  Reconnect, RunState, running, exited, then_run, teardown_session, connection_lost, establish,
}
use cast_app.Cast.Connection.Loop.{select_device, after_handled, on_command}
use cast_app.Cast.Connection.Validity.{
  IsSome, IsGood, IsHandled, SessionMatches, ReconnectMatches, IsValid, IsSafe,
}
use cast_app.Cast.Connection.Handlers.{IsHandedOn, handle_command-Handled}
use cast_app.Cast.Connection.Losing.{
  IsTorn, IsTearable, teardown_session-Torn, then_run-Torn, none_matches, connection_lost-Safe,
}
use cast_app.Cast.Connection.Establishing.{establish-Established, selected-Safe}
use cast_app.Cast.Connection.Preserve.{more-IsGood}

-- The session is well-formed under its own device and transport.
pub regood :
    (device : CastDevice) (transport n : ℕ) (s : Session)
    → IsGood device transport n s
    → IsGood s.device s.transport n s
regood device transport n s good = record {
  is_device = refl;
  is_transport = refl;
  has_app = good.has_app;
  is_queued = good.is_queued;
  is_unique = good.is_unique;
  is_id = good.is_id;
  is_small = good.is_small;
}

-- The rest of a state that a session on a device and a transport may join.
abbrev pub IsArmed : CastDevice → ℕ → RunState → Type 0
IsArmed device transport st =
    (st.desired ≡ some device)
    × (st.reconnect ≡ none)
    × (st.inbound ≡ some transport)
    × IsSome st.heartbeat
    × IsSome st.watchdog

pub joined-Valid :
    (config : ConnectionConfig) (device : CastDevice) (transport n : ℕ) (st : RunState)
    (s : Session)
    → IsArmed device transport st
    → IsGood device transport n s
    → IsValid config n (record st { session = some s })
joined-Valid config device transport n st s (wanted, idle, channel, beat, watch) good = (
  (
    regood device transport n s good,
    wanted ∙ ap some (sym good.is_device),
    idle,
    channel ∙ ap some (sym good.is_transport),
    beat,
    watch,
  ),
  rw idle tt,
)

-- What a valid state says of its session.
pub IsGood-of :
    (config : ConnectionConfig) (n : ℕ) (st : RunState) (s : Session)
    → IsValid config n st
    → st.session ≡ some s
    → IsGood s.device s.transport n s
IsGood-of config n st s valid e = (rw e at valid.0).0

pub IsArmed-of :
    (config : ConnectionConfig) (n : ℕ) (st : RunState) (s : Session)
    → IsValid config n st
    → st.session ≡ some s
    → IsArmed s.device s.transport st
IsArmed-of config n st s valid e = let (good, a, b, c, d, f) = (rw e at valid.0) in (a, b, c, d, f)

IsTearable-of :
    (config : ConnectionConfig) (n : ℕ) (st : RunState)
    → IsValid config n st
    → IsTearable n st st.session
IsTearable-of config n st valid = from_session st.session valid.0
  where
    from_session : (o : Option Session) → SessionMatches n st o → IsTearable n st o
    from_session none matches = matches
    from_session (some s) matches = matches.0

-- A state that a teardown leaves is valid.
pub torn-Valid :
    (config : ConnectionConfig) (n m : ℕ) (st st' : RunState) (w : World)
    → IsValid config n st
    → IsTorn st (running st' w)
    → IsValid config m st'
torn-Valid config n m st st' w valid (e, a, b, c, d, r) =
    (none_matches m st' e a b c, rw r (moved st.reconnect valid.1))
  where
    moved : (o : Option Reconnect) → ReconnectMatches config st o → ReconnectMatches config st' o
    moved none matches = tt
    moved (some r) (wanted, sum) = (d ∙ wanted, sum)

module _ (config : ConnectionConfig) (n : ℕ) (room : n + 2 < u32_max) where
  -- A session is lost.
  pub lost-Safe :
      (device : CastDevice) (transport m : ℕ) (st : RunState) (s : Session) (w : World)
      → m ≤ n + 1
      → IsArmed device transport st
      → IsGood device transport m s
      → IsSafe config (n + 1) (connection_lost config (record st { session = some s }) w)
  lost-Safe device transport m st s w small armed good =
      connection_lost-Safe config m (n + 1) (record st { session = some s }) w
        (regood device transport m s good) (omega arith) armed.1

  pub after_handled-Safe :
      (device : CastDevice) (transport : ℕ) (st : RunState) (h : Handled)
      → IsArmed device transport st
      → IsHandled device transport (n + 1) h
      → IsSafe config (n + 1) (after_handled config st h)
  after_handled-Safe device transport st (done s w) armed good =
      joined-Valid config device transport (n + 1) st s armed good
  after_handled-Safe device transport st (io_error s w) armed good =
      lost-Safe device transport (n + 1) st s w (omega arith) armed good
  after_handled-Safe device transport st panicked armed good = absurd good

  -- A lost session, found in a valid state.
  pub found_lost-Safe :
      (st : RunState) (s : Session) (w : World)
      → IsValid config n st
      → st.session ≡ some s
      → IsSafe config (n + 1) (connection_lost config st w)
  found_lost-Safe st s w valid e =
      connection_lost-Safe config n (n + 1) st w (IsTearable-of config n st valid) (omega arith)
        (IsArmed-of config n st s valid e).1

  pub grown-Valid : (st : RunState) → IsValid config n st → IsValid config (n + 1) st
  grown-Valid st valid = (grown st.session valid.0, valid.1)
    where
      grown : (o : Option Session) → SessionMatches n st o → SessionMatches (n + 1) st o
      grown none matches = matches
      grown (some s) (good, a, b, c, d, f) =
          (more-IsGood s.device s.transport n s good, a, b, c, d, f)

  select_device-Safe :
      (st : RunState) (device : CastDevice) (w : World)
      → IsValid config n st
      → IsSafe config (n + 1) (select_device config st device w)
  unfolding select_device
  select_device-Safe st device w valid =
      then_run-Torn (IsSafe config (n + 1)) st (teardown_session st w) _
        (teardown_session-Torn n st w (IsTearable-of config n st valid) (omega arith))
        (λ st' w (e, a, b, c, d, r).
          selected-Safe config (n + 1) (record st' { reconnect = none; desired = some device })
            (establish config (record st' { reconnect = none; desired = some device }) device w)
            (e, a, b, c, refl)
            (establish-Established config (n + 1)
              (record st' { reconnect = none; desired = some device }) device w (e, a, b, c, refl)
              refl))

  -- A teardown, and the exit of the loop.
  pub exit-Safe :
      (st : RunState) (w : World)
      → IsValid config n st
      → IsSafe config (n + 1) (then_run (teardown_session st w) (λ st w. exited st w))
  exit-Safe st w valid =
      then_run-Torn (IsSafe config (n + 1)) st (teardown_session st w) (λ st w. exited st w)
        (teardown_session-Torn n st w (IsTearable-of config n st valid) (omega arith))
        (λ st' w torn. torn-Valid config n (n + 1) st st' w valid torn)

  handed_on-Safe :
      (st : RunState) (command : Command) (w : World)
      → IsHandedOn command
      → IsValid config n st
      → IsSafe config (n + 1) (
          case_option st.session
            (running st w)
            (λ s. after_handled config st (handle_command s command w)))
  handed_on-Safe st command w on valid =
      case_option-cases (IsSafe config (n + 1)) st.session (running st w)
        (λ s. after_handled config st (handle_command s command w)) (λ absent. grown-Valid st valid)
        (λ s e.
          after_handled-Safe s.device s.transport st (handle_command s command w)
            (IsArmed-of config n st s valid e)
            (handle_command-Handled s.device s.transport n s command w on
              (IsGood-of config n st s valid e) (omega arith)))

  pub on_command-Safe :
      (st : RunState) (command : Command) (w : World)
      → IsValid config n st
      → IsSafe config (n + 1) (on_command config st command w)
  unfolding on_command
  on_command-Safe st (Command.select device) w valid = select_device-Safe st device w valid
  on_command-Safe st Command.shutdown w valid = exit-Safe st w valid
  on_command-Safe st Command.launch_default_receiver w valid = handed_on-Safe st _ w tt valid
  on_command-Safe st (Command.load a b c) w valid = handed_on-Safe st _ w tt valid
  on_command-Safe st Command.play w valid = handed_on-Safe st _ w tt valid
  on_command-Safe st Command.pause w valid = handed_on-Safe st _ w tt valid
  on_command-Safe st Command.stop w valid = handed_on-Safe st _ w tt valid
  on_command-Safe st (Command.set_volume a b) w valid = handed_on-Safe st _ w tt valid
  on_command-Safe st Command.get_status w valid = handed_on-Safe st _ w tt valid
