-- ===== src/Cast/Connection/Commands.antt =====
-- src/cast/connection/state_machine.rs: `handle_command` and `dispatch_pending`.
use cast_app.Common.{ℕ, Option, none, some, Bool, true, false, if◌then◌else◌}
use cast_app.Common.Text.{Text}
use cast_app.Cast.Namespaces.{
  Value, StreamType, transport_0, receiver_id, connection_ns, receiver_ns, media_ns,
  media_destination_id, connect,
}
use cast_app.Cast.Namespaces
use cast_app.Cast.Connection.{
  Phase, disconnected, connecting, connected, launching, ready, streaming, teardown, Command,
  select, launch_default_receiver, load, play, pause, stop, set_volume, get_status, shutdown,
  PendingCommand, pending_load, Session, Outgoing, World, Handled, done, panicked, with_request,
  send_payload, sent_last, sent_then,
}

-- `media_destination`.
unfoldable pub media_destination : Session → Text
media_destination s = elim s.transport_id [
  | some transport_id ↦ media_destination_id transport_id
  | none ↦ transport_0
]

abbrev pub to_receiver : Value → Outgoing
to_receiver body = record { destination = receiver_id; namespace = receiver_ns; body = body }

abbrev pub to_media : Text → Value → Outgoing
to_media destination body = record { destination = destination; namespace = media_ns; body = body }

abbrev pub to_connection : Text → Outgoing
to_connection destination = record {
  destination = destination;
  namespace = connection_ns;
  body = connect;
}

abbrev pub is_connected : Phase → Bool
is_connected connected = true
is_connected _ = false

-- `matches!(phase, Phase::Ready | Phase::Streaming)`.
abbrev pub accepts_media : Phase → Bool
accepts_media ready = true
accepts_media streaming = true
accepts_media _ = false

-- A request to the receiver; `change` is what else happens before it is sent.
abbrev pub request_receiver : (ℕ → Value) → (Session → Session) → Session → World → Handled
request_receiver body change s w =
    with_request s w
      (λ id s w. sent_last (change s) (send_payload s.transport (to_receiver (body id)) w))

-- The `expect` of the app session panics without one.
abbrev pub load_with_session :
    Option Text → ℕ → Text → Text → Text → StreamType → Session → World → Handled
load_with_session none id destination content_id content_type stream_type s w = panicked
load_with_session (some session_id) id destination content_id content_type stream_type s w =
    sent_last (record s { phase = streaming })
      (send_payload s.transport
        (to_media destination (Namespaces.load id session_id content_id content_type stream_type))
        w)

-- CONNECT to the media channel, then LOAD: the same code in `handle_command` and in
-- `dispatch_pending`.
unfoldable pub connect_and_load : Text → Text → StreamType → Session → World → Handled
connect_and_load content_id content_type stream_type s w =
    let destination = media_destination s in
    sent_then s (send_payload s.transport (to_connection destination) w) (λ w.
      with_request s w (λ id s w.
        load_with_session s.session_id id destination content_id content_type stream_type s w))

unfoldable pub dispatch_pending : Session → PendingCommand → World → Handled
dispatch_pending s (pending_load content_id content_type stream_type) w =
    connect_and_load content_id content_type stream_type s w

unfoldable pub handle_load : Phase → Text → Text → StreamType → Session → World → Handled
handle_load ready content_id content_type stream_type s w =
    connect_and_load content_id content_type stream_type s w
handle_load streaming content_id content_type stream_type s w =
    connect_and_load content_id content_type stream_type s w
handle_load connected content_id content_type stream_type s w =
    request_receiver Namespaces.launch
      (λ s. record s {
        phase = launching;
        pending_command = some (pending_load content_id content_type stream_type);
      })
      s w
handle_load disconnected content_id content_type stream_type s w = done s w
handle_load connecting content_id content_type stream_type s w = done s w
handle_load launching content_id content_type stream_type s w = done s w
handle_load teardown content_id content_type stream_type s w = done s w

-- PLAY, PAUSE and STOP; only STOP changes the phase.
unfoldable pub media_request : (ℕ → Value) → (Session → Session) → Session → World → Handled
media_request body change s w =
    if accepts_media s.phase
    then with_request s w (λ id s w.
      sent_last (change s) (send_payload s.transport (to_media (media_destination s) (body id)) w))
    else done s w

-- `select` and `shutdown` are the run loop's: their branch is `unreachable!`.
unfoldable pub handle_command : Session → Command → World → Handled
handle_command s launch_default_receiver w =
    if is_connected s.phase
    then request_receiver Namespaces.launch (λ s. record s { phase = launching }) s w
    else done s w
handle_command s (load content_id content_type stream_type) w =
    handle_load s.phase content_id content_type stream_type s w
handle_command s play w = media_request Namespaces.play (λ s. s) s w
handle_command s pause w = media_request Namespaces.pause (λ s. s) s w
handle_command s stop w = media_request Namespaces.stop (λ s. record s { phase = ready }) s w
handle_command s (set_volume level muted) w =
    request_receiver (λ id. Namespaces.set_volume id level muted) (λ s. s) s w
handle_command s get_status w = request_receiver Namespaces.get_status (λ s. s) s w
handle_command s (select device) w = panicked
handle_command s shutdown w = panicked
