-- ===== src/Cast/Connection/Safety.antt =====
-- An iteration of the run loop: valid states and panics.
use cast_app.Common.{
  ℕ, ◌+◌, ◌≤◌, ◌<◌, refl, Option, none, some, [], ◌∷◌, length, arith, case_option-cases,
}
use cast_app.Common.Text.{Text}
use cast_app.Cast.Namespaces.{Value}
use cast_app.Cast.RequestId.{u32_max, expire}
use cast_app.Cast.RequestId.Map.{operations-IsUnique}
use cast_app.Cast.Connection.{ConnectionConfig, Session, World}
use cast_app.Cast.Connection.Run.{RunState, Outcome, running, exited, crashed, then_run}
use cast_app.Cast.Connection.Loop.{
  Wake, commanded, received, heartbeat_due, watchdog_due, reconnect_due, shutdown_changed, on_wake,
  reap, step,
}
use cast_app.Cast.Connection.Validity.{IsGood, IsValid, IsSafe}
use cast_app.Cast.RequestId.{Entries, retain}
use cast_app.Cast.Connection.Steps.{
  joined-Valid, IsGood-of, IsArmed-of, grown-Valid, exit-Safe, on_command-Safe,
}
use cast_app.Cast.Connection.Branches.{
  on_frame-Safe, on_reader_exit-Safe, on_watchdog-Safe, on_heartbeat-Safe, on_reconnect-Safe,
}

module _ (config : ConnectionConfig) (n : ℕ) (room : n + 2 < u32_max) where
  on_wake-Safe :
      (from_str : Text → Option Value) (st : RunState) (wake : Wake) (w : World)
      → IsValid config n st
      → IsSafe config (n + 1) (on_wake from_str config st wake w)
  unfolding on_wake
  on_wake-Safe from_str st (commanded none) w valid = grown-Valid config n room st valid
  on_wake-Safe from_str st (commanded (some command)) w valid =
      on_command-Safe config n room st command w valid
  on_wake-Safe from_str st (received (some payload)) w valid =
      on_frame-Safe config n room from_str st payload w valid
  on_wake-Safe from_str st (received none) w valid = on_reader_exit-Safe config n room st w valid
  on_wake-Safe from_str st heartbeat_due w valid = on_heartbeat-Safe config n room st w valid
  on_wake-Safe from_str st watchdog_due w valid = on_watchdog-Safe config n room st w valid
  on_wake-Safe from_str st reconnect_due w valid = on_reconnect-Safe config n room st w valid
  on_wake-Safe from_str st shutdown_changed w valid = exit-Safe config n room st w valid

length-retain : (now timeout : ℕ) (es : Entries) → length (retain now timeout es).0 ≤ length es
unfolding retain
length-retain now timeout [] = omega arith
length-retain now timeout ((id, sent_at) ∷ es) = ground (arith, length-retain now timeout es)

reap-Safe :
    (config : ConnectionConfig) (n : ℕ) (st : RunState) (w : World)
    → IsValid config n st
    → IsSafe config n (reap st w)
unfolding reap
reap-Safe config n st w valid =
    case_option-cases (IsSafe config n) st.session (running st w)
      (λ s.
        running (record st { session = some (record s { pending = (expire s.pending w.now).0 }) })
          w)
      (λ absent. valid)
      (λ s e.
        joined-Valid config s.device s.transport n st _ (IsArmed-of config n st s valid e)
          (reaped s (IsGood-of config n st s valid e)))
  where
    reaped :
        (s : Session)
        → IsGood s.device s.transport n s
        → IsGood s.device s.transport n (record s { pending = (expire s.pending w.now).0 })
    reaped s good = record {
      is_device = refl;
      is_transport = refl;
      has_app = good.has_app;
      is_queued = good.is_queued;
      is_unique = (operations-IsUnique s.pending 0 w.now good.is_unique).2;
      is_id = good.is_id;
      is_small =
          unfold expire in
          omega (arith, length-retain w.now s.pending.timeout s.pending.pending, good.is_small);
    }

then_reap-Safe :
    (config : ConnectionConfig) (n : ℕ) (o : Outcome)
    → IsSafe config n o
    → IsSafe config n (then_run o reap)
then_reap-Safe config n (running st w) safe = reap-Safe config n st w safe
then_reap-Safe config n (exited st w) safe = safe
then_reap-Safe config n crashed safe = absurd safe

-- From a valid state with at most `n` outstanding requests, `n + 2 < u32::MAX`, an iteration on any
-- branch of `select!`, whatever the writes, connects, thread starts and messages bring, does not
-- panic and leaves a valid state with at most `n + 1`: a session in `Ready` or `Streaming` knows its
-- app, a LOAD is queued only while launching, channel and timers exist exactly with the session, no
-- reconnect is scheduled beside a session, and its attempts stay within the policy.
pub step-Safe :
    (from_str : Text → Option Value) (config : ConnectionConfig) (n : ℕ) (st : RunState)
    (wake : Wake) (w : World)
    → n + 2 < u32_max
    → IsValid config n st
    → IsSafe config (n + 1) (step from_str config st wake w)
unfolding step
step-Safe from_str config n st wake w room valid =
    then_reap-Safe config (n + 1) (on_wake from_str config st wake w)
      (on_wake-Safe config n room from_str st wake w valid)
