-- ===== src/Cast/Connection/Examples.antt =====
-- Runs of src/cast/connection, and its theorems at concrete inputs.
use cast_app.Common.{ℕ, ◌+◌, ◌≡◌, refl, Option, none, some, true, List, [], ◌∷◌, arith}
use cast_app.Common.Text.{Text, codes}
use cast_app.Util.Retry.{Backoff}
use cast_app.Cast.Namespaces.{
  Value, object, member, no_members, text, item, no_values, array, buffered, media_destination_id,
}
use cast_app.Cast.Namespaces.Parse.{ReceiverStatus, parse_receiver_status, get, as_str, ◌>>=◌}
use cast_app.Common.Utf8.{from_utf8_lossy}
use cast_app.Cast.Proto.{ok, varint_decode}
use cast_app.Cast.Proto.Message.{CastMessage, string, decode_cast_message}
use cast_app.Cast.RequestId.{contains_key}
use cast_app.Cast.Connection.{
  CastDevice, ConnectionConfig, Session, World, no_connection, refused, launching, pending_load,
  is_ready, Command,
}
use cast_app.Cast.Connection.Inbound.{volume_events}
use cast_app.Cast.Connection.Run.{RunState, Reconnect, teardown_session}
use cast_app.Cast.Connection.Loop.{commanded, received, step, on_frame, send_events, is_enabled}
use cast_app.Cast.Connection.Validity.{IsValid, IsSafe}
use cast_app.Cast.Connection.Safety.{step-Safe}
use cast_app.Cast.Connection.Order.{IsFarewell, teardown_session-Farewell}
use cast_app.Cast.Connection.Reconnecting.{attempts, HasGivenUp, attempts-HasGivenUp}
use cast_app.Cast.Connection.Queue.{IsPlaying, queued_load-Playing}
use cast_app.Cast.Connection.Signal.{Stays, triggered_before-Stays}

abbrev tv : CastDevice
tv = record {
  id = codes "10.0.0.7:8009";
  name = codes "TV";
  addr = record { ip = codes "10.0.0.7"; port = 8009 };
  tofu_key = codes "tv";
}

abbrev policy : Backoff
policy = record { next_delay = 10; cap = 40; remaining = 2 }

abbrev config : ConnectionConfig
config = record {
  heartbeat_interval = 50;
  watchdog_timeout = 100;
  request_timeout = 50;
  backoff = policy;
}

-- A session that is launching, with a LOAD that waits.
abbrev session : Session
session = record {
  phase = launching;
  device = tv;
  transport = 4;
  request_id = record { next = 2 };
  pending = record { pending = (1, 5) ∷ []; timeout = 50 };
  transport_id = none;
  session_id = none;
  pending_command = some (pending_load (codes "http://a/b.mp4") (codes "video/mp4") buffered);
}

abbrev state : RunState
state = record {
  session = some session;
  desired = some tv;
  inbound = some 4;
  heartbeat = some 60;
  watchdog = some 110;
  reconnect = none;
}

abbrev world : World
world = record {
  now = 20;
  writes = true ∷ true ∷ [];
  connects = [];
  spawns = [];
  next_transport = 5;
  log = [];
}

state-IsValid : IsValid config 1 state
unfolding contains_key
state-IsValid = (
  (
    record {
      is_device = refl;
      is_transport = refl;
      has_app = tt;
      is_queued = tt;
      is_unique = (refl, tt);
      is_id = (omega arith, omega arith);
      is_small = omega arith;
    },
    refl,
    refl,
    refl,
    tt,
    tt,
  ),
  tt,
)

-- A message of the receiver whose text is read as `report`.
abbrev report : Value
report = object (
    member (codes "type") (text (codes "RECEIVER_STATUS")) (
      member (codes "status")
        (object (
          member (codes "applications")
            (array (
              item
                (object (
                  member (codes "transportId") (text (codes "web-9"))
                    (member (codes "sessionId") (text (codes "s1")) no_members)))
                no_values))
            no_members))
        no_members))

abbrev reads_report : Text → Option Value
reads_report s = some report

abbrev status : ReceiverStatus
status = record {
  transport_id = some (codes "web-9");
  session_id = some (codes "s1");
  volume = none;
}

-- Field 6, two bytes long, after a protocol version.
abbrev payload : List ℕ
payload = 0x08 ∷ 0x00 ∷ 0x32 ∷ 0x02 ∷ b'{' ∷ b'}' ∷ []

abbrev message : CastMessage
message = record {
  protocol_version = 0;
  source_id = [];
  destination_id = [];
  namespace = [];
  payload_type = string;
  payload_utf8 = b'{' ∷ b'}' ∷ [];
}

payload_decodes : decode_cast_message payload ≡ ok message
unfolding decode_cast_message varint_decode from_utf8_lossy
payload_decodes = refl

report_parses : parse_receiver_status (some report) ≡ some status
unfolding parse_receiver_status
report_parses = refl

report_type : (get (codes "type") report >>= as_str) ≡ some (codes "RECEIVER_STATUS")
unfolding get
report_type = refl

step-Safe_example : IsSafe config 2 (step reads_report config state (received (some payload)) world)
step-Safe_example =
    step-Safe reads_report config 1 state (received (some payload)) world (omega arith)
      state-IsValid

queued_load-Playing_example :
    IsPlaying 4
      (media_destination_id (codes "web-9"))
      (codes "s1")
      (codes "http://a/b.mp4")
      (codes "video/mp4")
      buffered
      (send_events (is_ready (codes "web-9") (codes "s1") ∷ volume_events none) world).log
      (on_frame reads_report config state payload world)
queued_load-Playing_example =
    queued_load-Playing reads_report config 1 state session world [] payload message report status
      (codes "web-9") (codes "s1") (codes "http://a/b.mp4") (codes "video/mp4") buffered
      state-IsValid (omega arith) refl refl refl payload_decodes refl report_type report_parses refl
      refl refl

teardown_session-Farewell_example : IsFarewell session [] (teardown_session state world)
teardown_session-Farewell_example =
    teardown_session-Farewell config 1 state session world state-IsValid refl (omega arith)

abbrev waiting : Reconnect
waiting = record {
  due = 30;
  device = tv;
  backoff = record { next_delay = 20; cap = 40; remaining = 1 };
  attempts = 0;
}

abbrev away : RunState
away = record {
  session = none;
  desired = some tv;
  inbound = none;
  heartbeat = none;
  watchdog = none;
  reconnect = some waiting;
}

abbrev unreachable : World
unreachable = record world { connects = no_connection (refused (codes "timed out")) ∷ [] }

attempts-HasGivenUp_example : HasGivenUp away tv (0 + 1 + 1) [] (attempts 2 config away unreachable)
attempts-HasGivenUp_example =
    attempts-HasGivenUp 1 config away waiting unreachable refl refl (tt, tt)

triggered_before-Stays_example :
    Stays (step reads_report config state (commanded (some Command.play)) world)
triggered_before-Stays_example =
    triggered_before-Stays reads_report config state (commanded (some Command.play)) world
      (unfold is_enabled in refl) refl
