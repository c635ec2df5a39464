-- ===== src/Cast/Connection/Teardown.antt =====
-- src/cast/connection/teardown.rs: the messages of `teardown_session`, sent as far as they go.
use cast_app.Common.{Bool, true, false, if◌then◌else◌, case_option}
use cast_app.Common.Text.{Text}
use cast_app.Cast.Namespaces
use cast_app.Cast.Connection.{
  Phase, streaming, Session, World, Handled, done, with_request, send_payload,
}
use cast_app.Cast.Connection.Commands.{media_destination, to_receiver, to_media}

abbrev pub is_streaming : Phase → Bool
is_streaming streaming = true
is_streaming _ = false

abbrev pub send_stop_app : Text → Session → World → Handled
send_stop_app session_id s w = with_request s w (λ id s w.
    done s (send_payload s.transport (to_receiver (Namespaces.stop_app id session_id)) w).0)

abbrev pub send_stop : Session → World → (Session → World → Handled) → Handled
send_stop s w next = with_request s w (λ id s w.
    next s (send_payload s.transport (to_media (media_destination s) (Namespaces.stop id)) w).0)

unfoldable pub teardown_messages : Session → World → Handled
teardown_messages s w = case_option s.session_id (done s w) (λ session_id.
    if is_streaming s.phase
    then send_stop s w (send_stop_app session_id)
    else send_stop_app session_id s w)
