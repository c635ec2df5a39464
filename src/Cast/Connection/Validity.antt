-- ===== src/Cast/Connection/Validity.antt =====
-- The well-formedness of a session and of the run loop's state.
use cast_app.Common.{ℕ, ◌+◌, ◌≤◌, ◌≡◌, Option, none, some, length}
use cast_app.Common.Text.{Text}
use cast_app.Cast.RequestId.Map.{IsUnique}
use cast_app.Cast.RequestId.Allocate.{IsId}
use cast_app.Cast.Connection.{
  Phase, disconnected, connecting, connected, launching, ready, streaming, teardown, CastDevice,
  ConnectionConfig, PendingCommand, Session, Handled, done, io_error, panicked,
}
use cast_app.Cast.Connection.Run.{Reconnect, RunState, Outcome, running, exited, crashed}

abbrev pub IsSome {ℓ} : {A : Type ℓ} → Option A → Type 0
IsSome none = ⊥
IsSome (some a) = Unit {0}

-- A session is in one of four phases, and it knows its app in the last two.
abbrev pub HasApp : Phase → Option Text → Option Text → Type 0
HasApp connected transport_id session_id = Unit {0}
HasApp launching transport_id session_id = Unit {0}
HasApp ready transport_id session_id = IsSome transport_id × IsSome session_id
HasApp streaming transport_id session_id = IsSome transport_id × IsSome session_id
HasApp disconnected transport_id session_id = ⊥
HasApp connecting transport_id session_id = ⊥
HasApp teardown transport_id session_id = ⊥

-- A LOAD waits only while the app is being launched.
abbrev pub IsQueued : Option PendingCommand → Phase → Type 0
IsQueued none phase = Unit {0}
IsQueued (some pending) launching = Unit {0}
IsQueued (some pending) disconnected = ⊥
IsQueued (some pending) connecting = ⊥
IsQueued (some pending) connected = ⊥
IsQueued (some pending) ready = ⊥
IsQueued (some pending) streaming = ⊥
IsQueued (some pending) teardown = ⊥

-- A session on a device and a transport, with at most `n` outstanding requests.
pub record IsGood (device : CastDevice) (transport n : ℕ) (s : Session) : Type 0 where
  pub is_device : s.device ≡ device
  pub is_transport : s.transport ≡ transport
  pub has_app : HasApp s.phase s.transport_id s.session_id
  pub is_queued : IsQueued s.pending_command s.phase
  pub is_unique : IsUnique s.pending.pending
  pub is_id : IsId s.request_id.next
  pub is_small : length s.pending.pending ≤ n

-- A handler ends without a panic, with such a session.
abbrev pub IsHandled : CastDevice → ℕ → ℕ → Handled → Type 0
IsHandled device transport n (done s w) = IsGood device transport n s
IsHandled device transport n (io_error s w) = IsGood device transport n s
IsHandled device transport n panicked = ⊥

-- The timers and the inbound channel exist with the session, which is the one to the desired
-- device, and no reconnect is scheduled beside it.
abbrev pub SessionMatches : ℕ → RunState → Option Session → Type 0
SessionMatches n st none = (st.inbound ≡ none) × (st.heartbeat ≡ none) × (st.watchdog ≡ none)
SessionMatches n st (some s) =
    IsGood s.device s.transport n s
    × (st.desired ≡ some s.device)
    × (st.reconnect ≡ none)
    × (st.inbound ≡ some s.transport)
    × IsSome st.heartbeat
    × IsSome st.watchdog

-- A scheduled reconnect goes to the desired device, and the attempts made and left add up to those
-- of the policy.
abbrev pub ReconnectMatches : ConnectionConfig → RunState → Option Reconnect → Type 0
ReconnectMatches config st none = Unit {0}
ReconnectMatches config st (some r) =
    (st.desired ≡ some r.device) × (r.attempts + r.backoff.remaining + 1 ≡ config.backoff.remaining)

abbrev pub IsValid : ConnectionConfig → ℕ → RunState → Type 0
IsValid config n st = SessionMatches n st st.session × ReconnectMatches config st st.reconnect

-- An iteration ends without a panic, in a valid state.
abbrev pub IsSafe : ConnectionConfig → ℕ → Outcome → Type 0
IsSafe config n (running st w) = IsValid config n st
IsSafe config n (exited st w) = IsValid config n st
IsSafe config n crashed = ⊥
