-- ===== src/Cast/Connection/Reconnecting.antt =====
-- A receiver that stays away: the attempts of a reconnect, and their end.
use cast_app.Common.{
  ℕ, zero, suc, ◌+◌, ◌≡◌, refl, ap, ◌∙◌, Option, none, some, List, [], ◌∷◌, All, arith,
}
use cast_app.Util.Retry.{Backoff, next}
use cast_app.Cast.Connection.{
  CastDevice, ConnectionConfig, error, reconnect_exhausted, Connected, no_connection, World, Effect,
  event,
}
use cast_app.Cast.Connection.Run.{
  Reconnect, RunState, Outcome, running, exited, crashed, then_run, Established, established,
  failed, establish, connect_to,
}
use cast_app.Cast.Connection.Loop.{retry, reconnected, on_reconnect}
use cast_app.Cast.Connection.Losing.{IsNext, next-Next}

-- A number of reconnect branches, one after the other.
unfoldable pub attempts : ℕ → ConnectionConfig → RunState → World → Outcome
attempts zero config st w = running st w
attempts (suc n) config st w = then_run (on_reconnect config st w) (attempts n config)

abbrev pub IsRefused : Connected → Type 0
IsRefused (no_connection e) = Unit {0}
IsRefused (Connected.connection pin) = ⊥

-- The task has reported the number of attempts on the device, and wants no device any more.
abbrev pub HasGivenUp : RunState → CastDevice → ℕ → List Effect → Outcome → Type 0
HasGivenUp st device count log (running st' w) =
    (st'.session ≡ st.session)
    × (st'.desired ≡ none)
    × (st'.reconnect ≡ none)
    × (w.log ≡ event (error (reconnect_exhausted device.name device.addr count)) ∷ log)
HasGivenUp st device count log (exited st' w) = ⊥
HasGivenUp st device count log crashed = ⊥

-- A refused connect changes nothing but the list of outcomes.
abbrev IsFailed : World → Established → Type 0
IsFailed w (established st w') = ⊥
IsFailed w (failed e w') = (w'.log ≡ w.log) × All IsRefused w'.connects

refused :
    (config : ConnectionConfig) (st : RunState) (device : CastDevice) (connects : List Connected)
    (w : World)
    → w.connects ≡ connects
    → All IsRefused connects
    → IsFailed w (connect_to config st device connects w)
refused config st device [] w e all = (refl, rw e tt)
refused config st device (no_connection c ∷ connects) w e (h, all) = (refl, all)
refused config st device (Connected.connection pin ∷ connects) w e (h, all) = absurd h

abbrev MayRetry : RunState → ℕ → List Effect → Reconnect → Outcome → Type 0
MayRetry st zero log r (running st' w) = HasGivenUp st r.device (r.attempts + 1) log (running st' w)
MayRetry st (suc n) log r (running st' w) =
    ((r' : Reconnect) × (st'.reconnect ≡ some r')
      × (r'.device ≡ r.device)
      × (r'.attempts ≡ r.attempts + 1)
      × (r'.backoff.remaining ≡ n))
    × (st'.session ≡ st.session)
    × (w.log ≡ log)
    × All IsRefused w.connects
MayRetry st n log r (exited st' w) = ⊥
MayRetry st n log r crashed = ⊥

retry_lem :
    (n : ℕ) (st : RunState) (r : Reconnect) (after : Backoff × Option ℕ) (log : List Effect)
    (w : World)
    → st.reconnect ≡ none
    → r.backoff.remaining ≡ n
    → IsNext r.backoff after
    → w.log ≡ log
    → All IsRefused w.connects
    → MayRetry st n log r (retry st r after w)
retry_lem zero st r (b, some delay) log w idle left next same all =
    absurd (omega (arith, left, next))
retry_lem zero st r (b, none) log w idle left next same all = (
  refl,
  refl,
  idle,
  ap (λ t. event (error (reconnect_exhausted r.device.name r.device.addr (r.attempts + 1))) ∷ t)
      same,
)
retry_lem (suc n) st r (b, some delay) log w idle left next same all =
    ((_, refl, refl, refl, omega (arith, left, next)), refl, same, all)
retry_lem (suc n) st r (b, none) log w idle left next same all = absurd (omega (arith, left, next))

reconnected_lem :
    (n : ℕ) (st : RunState) (r : Reconnect) (w : World) (result : Established)
    → st.reconnect ≡ none
    → r.backoff.remaining ≡ n
    → IsFailed w result
    → MayRetry st n w.log r (reconnected st r result)
reconnected_lem n st r w (established st' w') idle left h = absurd h
reconnected_lem n st r w (failed e w') idle left (same, all) =
    retry_lem n st r (next r.backoff) w.log w' idle left (next-Next r.backoff) same all

on_reconnect_lem :
    (n : ℕ) (config : ConnectionConfig) (st : RunState) (r : Reconnect) (w : World)
    → st.reconnect ≡ some r
    → r.backoff.remaining ≡ n
    → All IsRefused w.connects
    → MayRetry (record st { reconnect = none }) n w.log r (on_reconnect config st w)
unfolding on_reconnect establish
on_reconnect_lem n config st r w e left all = rw e (
    reconnected_lem n (record st { reconnect = none }) r w
      (connect_to config (record st { reconnect = none }) r.device w.connects w) refl left
      (refused config (record st { reconnect = none }) r.device w.connects w refl all))

-- The report does not depend on the state it is seen from, as long as that has the same session.
seen_from :
    (st st' : RunState) (d d' : CastDevice) (count count' : ℕ) (log log' : List Effect)
    (o : Outcome)
    → st'.session ≡ st.session
    → d' ≡ d
    → count' ≡ count
    → log' ≡ log
    → HasGivenUp st' d' count' log' o
    → HasGivenUp st d count log o
seen_from st st' d d' count count' log log' (running st'' w) a b c e (x, y, z, l) =
    (x ∙ a, y, z, rw (b, c, e) at l)
seen_from st st' d d' count count' log log' (exited st'' w) a b c e h = h
seen_from st st' d d' count count' log log' crashed a b c e h = h

last_attempt :
    (config : ConnectionConfig) (st : RunState) (r : Reconnect) (log : List Effect) (o : Outcome)
    → MayRetry (record st { reconnect = none }) zero log r o
    → HasGivenUp st r.device (r.attempts + 0 + 1) log (then_run o (λ st w. running st w))
last_attempt config st r log (running st' w) h =
    seen_from st st r.device r.device (r.attempts + 0 + 1) (r.attempts + 1) log log (running st' w)
      refl refl (omega arith) refl h
last_attempt config st r log (exited st' w) h = h
last_attempt config st r log crashed h = h

-- What follows one attempt.
after_attempt :
    (n : ℕ) (config : ConnectionConfig) (st : RunState) (r : Reconnect) (log : List Effect)
    (o : Outcome)
    → MayRetry (record st { reconnect = none }) (suc n) log r o
    → ((st' : RunState) (r' : Reconnect) (w : World)
        → st'.reconnect ≡ some r'
        → r'.backoff.remaining ≡ n
        → All IsRefused w.connects
        → HasGivenUp st' r'.device (r'.attempts + n + 1) w.log (attempts (suc n) config st' w))
    → HasGivenUp st r.device (r.attempts + suc n + 1) log (then_run o (attempts (suc n) config))
after_attempt n config st r log (exited st' w) h rest = absurd h
after_attempt n config st r log crashed h rest = absurd h
after_attempt n config st r log (running st' w) ((r', e, device, count, left), same, logged, all)
      rest =
    seen_from st st' r.device r'.device (r.attempts + suc n + 1) (r'.attempts + n + 1) log w.log
      (attempts (suc n) config st' w) same device (omega (arith, count)) logged
      (rest st' r' w e left all)

-- While every connect is refused, a scheduled reconnect with `n` delays left is attempted `n + 1`
-- more times: then the task reports `ReconnectExhausted` with the number of all attempts, and wants
-- no device any more, and nothing else was reported.
pub attempts-HasGivenUp :
    (n : ℕ) (config : ConnectionConfig) (st : RunState) (r : Reconnect) (w : World)
    → st.reconnect ≡ some r
    → r.backoff.remaining ≡ n
    → All IsRefused w.connects
    → HasGivenUp st r.device (r.attempts + n + 1) w.log (attempts (suc n) config st w)
unfolding attempts
attempts-HasGivenUp zero config st r w e left all =
    last_attempt config st r w.log (on_reconnect config st w)
      (on_reconnect_lem zero config st r w e left all)
attempts-HasGivenUp (suc n) config st r w e left all =
    after_attempt n config st r w.log (on_reconnect config st w)
      (on_reconnect_lem (suc n) config st r w e left all)
      (λ st' r' w e left all. attempts-HasGivenUp n config st' r' w e left all)
