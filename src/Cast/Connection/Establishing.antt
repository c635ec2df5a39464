-- ===== src/Cast/Connection/Establishing.antt =====
-- Establishing a session, and trying again.
use cast_app.Common.{ℕ, ◌+◌, ◌≡◌, refl, Option, none, some, Bool, true, false, List, [], ◌∷◌, arith}
use cast_app.Util.Retry.{Backoff, next}
use cast_app.Cast.Connection
use cast_app.Cast.Connection.{
  CastDevice, Command, ConnectionConfig, ConnectionEvent, ConnectionError, PinCheck, Connected,
  no_connection, Session, World, Handled, done, io_error, panicked, send_payload,
}
use cast_app.Cast.Connection.Run.{
  Reconnect, RunState, Established, established, failed, establish, connect_to, connect_sent, hello,
  open_session, warn_mismatch,
}
use cast_app.Cast.Connection.Loop.{selected, retry, reconnected}
use cast_app.Cast.Connection.Validity.{ReconnectMatches, IsValid, IsSafe}
use cast_app.Cast.Connection.Losing.{IsNext, next-Next, none_matches}

-- A state without session, its channel and its timers, and without a scheduled reconnect.
abbrev pub IsIdle : RunState → Type 0
IsIdle st =
    (st.session ≡ none)
    × (st.inbound ≡ none)
    × (st.heartbeat ≡ none)
    × (st.watchdog ≡ none)
    × (st.reconnect ≡ none)

abbrev pub IsEstablished : ConnectionConfig → ℕ → Established → Type 0
IsEstablished config n (established st w) = IsValid config n st
IsEstablished config n (failed e w) = Unit {0}

pub idle-Valid :
    (config : ConnectionConfig) (n : ℕ) (st : RunState) → IsIdle st → IsValid config n st
idle-Valid config n st (e, a, b, c, r) = (none_matches n st e a b c, rw r tt)

module _ (config : ConnectionConfig) (n : ℕ) where
  open_session-Established :
      (st : RunState) (device : CastDevice) (transport : ℕ) (spawns : List Bool) (w : World)
      → IsIdle st
      → st.desired ≡ some device
      → IsEstablished config n (open_session config st device transport spawns w)
  unfolding Connection.new
  open_session-Established st device transport [] w idle wanted = tt
  open_session-Established st device transport (false ∷ spawns) w idle wanted = tt
  open_session-Established st device transport (true ∷ spawns) w (e, a, b, c, r) wanted = (
    (
      record {
        is_device = refl;
        is_transport = refl;
        has_app = tt;
        is_queued = tt;
        is_unique = tt;
        is_id = (omega arith, omega arith);
        is_small = omega arith;
      },
      wanted,
      r,
      refl,
      tt,
      tt,
    ),
    rw r tt,
  )

  connect_sent-Established :
      (st : RunState) (device : CastDevice) (transport : ℕ) (sent : World × Bool)
      → IsIdle st
      → st.desired ≡ some device
      → IsEstablished config n (connect_sent config st device transport sent)
  connect_sent-Established st device transport (w, true) idle wanted =
      open_session-Established st device transport w.spawns w idle wanted
  connect_sent-Established st device transport (w, false) idle wanted = tt

  connect_to-Established :
      (st : RunState) (device : CastDevice) (connects : List Connected) (w : World)
      → IsIdle st
      → st.desired ≡ some device
      → IsEstablished config n (connect_to config st device connects w)
  connect_to-Established st device [] w idle wanted = tt
  connect_to-Established st device (no_connection e ∷ connects) w idle wanted = tt
  connect_to-Established st device (Connected.connection pin ∷ connects) w idle wanted =
      connect_sent-Established st device w.next_transport
        (send_payload w.next_transport hello (
          warn_mismatch device pin
            (record w { connects = connects; next_transport = w.next_transport + 1 })))
        idle wanted

  pub selected-Safe :
      (st : RunState) (result : Established)
      → IsIdle st
      → IsEstablished config n result
      → IsSafe config n (selected st result)
  selected-Safe st (established st' w) idle valid = valid
  selected-Safe st (failed e w) (a, b, c, d, r) valid =
      idle-Valid config n (record st { desired = none }) (a, b, c, d, r)

  pub establish-Established :
      (st : RunState) (device : CastDevice) (w : World)
      → IsIdle st
      → st.desired ≡ some device
      → IsEstablished config n (establish config st device w)
  unfolding establish
  establish-Established st device w idle wanted =
      connect_to-Established st device w.connects w idle wanted

  retry-Safe :
      (st : RunState) (r : Reconnect) (after : Backoff × Option ℕ) (w : World)
      → IsIdle st
      → ReconnectMatches config st (some r)
      → IsNext r.backoff after
      → IsSafe config n (retry st r after w)
  retry-Safe st r (b, some delay) w (e, x, y, z, i) (wanted, sum) left =
      (none_matches n _ e x y z, (wanted, omega (arith, left, sum)))
  retry-Safe st r (b, none) w (e, x, y, z, i) matches left =
      idle-Valid config n (record st { desired = none }) (e, x, y, z, i)

  pub reconnected-Safe :
      (st : RunState) (r : Reconnect) (result : Established)
      → IsIdle st
      → ReconnectMatches config st (some r)
      → IsEstablished config n result
      → IsSafe config n (reconnected st r result)
  reconnected-Safe st r (established st' w) idle matches valid = valid
  reconnected-Safe st r (failed e w) idle matches valid =
      retry-Safe st r (next r.backoff) w idle matches (next-Next r.backoff)
