-- ===== src/Cast/Connection/Queue.antt =====
-- "Select, then play": the LOAD that was queued while launching.
use cast_app.Common.{
  ℕ, ◌<◌, ◌≡◌, refl, ◌∙◌, Option, none, some, Bool, true, List, [], ◌∷◌, case_option,
}
use cast_app.Common.Text.{Text, codes, text_eq}
use cast_app.Cast.Proto.{ok}
use cast_app.Cast.Proto.Message.{CastMessage, decode_cast_message}
use cast_app.Cast.RequestId.{u32_max}
use cast_app.Cast.Namespaces
use cast_app.Cast.Namespaces.{Value, StreamType, media_destination_id}
use cast_app.Cast.Namespaces.Parse.{
  ReceiverStatus, parse_receiver_status, get, as_str, as_u64, ◌>>=◌,
}
use cast_app.Cast.Connection.{
  launching, ready, streaming, CastDevice, ConnectionConfig, ConnectionEvent, is_ready,
  pending_load, Session, World, Effect, wrote, Handled, done, io_error, panicked,
}
use cast_app.Cast.Connection.Commands.{
  media_destination, to_media, to_connection, connect_and_load, dispatch_pending,
}
use cast_app.Cast.Connection.Inbound.{
  resolve_id, correlate, become_ready, apply_receiver_status, volume_events, route_type,
  route_inbound, events,
}
use cast_app.Cast.Connection.Run.{RunState, Outcome, running, exited, crashed}
use cast_app.Cast.Connection.Loop.{send_events, after_handled, dispatch, after_route, on_frame}
use cast_app.Cast.Connection.Validity.{IsGood, IsValid}
use cast_app.Cast.Connection.Routing.{resolve_id-Good}
use cast_app.Cast.Connection.Steps.{IsGood-of}
use cast_app.Cast.Connection.Loading.{HasLoaded, load-HasLoaded}

-- The session after the report of its app.
abbrev pub launched : Session → Text → Text → Session
launched s t app = record s { transport_id = some t; session_id = some app; phase = ready }

apply_launched :
    (s : Session) (status : ReceiverStatus) (t app : Text)
    → s.phase ≡ launching
    → status.transport_id ≡ some t
    → status.session_id ≡ some app
    → apply_receiver_status s status
      ≡ (launched s t app, is_ready t app ∷ volume_events status.volume)
unfolding apply_receiver_status become_ready
apply_launched s status t app phase e f = rw (e, f, phase) refl

resolved_fields :
    (s : Session) (o : Option ℕ)
    → ((resolve_id s o).phase ≡ s.phase)
      × ((resolve_id s o).pending_command ≡ s.pending_command)
      × ((resolve_id s o).transport ≡ s.transport)
resolved_fields s none = (refl, refl, refl)
resolved_fields s (some id) = (refl, refl, refl)

route_launched :
    (from_str : Text → Option Value) (s : Session) (payload : List ℕ) (message : CastMessage)
    (json : Value) (status : ReceiverStatus) (t app : Text)
    → s.phase ≡ launching
    → decode_cast_message payload ≡ ok message
    → from_str message.payload_utf8 ≡ some json
    → (get (codes "type") json >>= as_str) ≡ some (codes "RECEIVER_STATUS")
    → parse_receiver_status (some json) ≡ some status
    → status.transport_id ≡ some t
    → status.session_id ≡ some app
    → route_inbound from_str s payload
      ≡ (launched (correlate s json) t app, events (is_ready t app ∷ volume_events status.volume))
unfolding route_inbound route_type text_eq
route_launched from_str s payload message json status t app phase a b c d e f =
    rw (a, b, c, d, applied) refl
  where
    applied :
        apply_receiver_status (correlate s json) status
        ≡ (launched (correlate s json) t app, is_ready t app ∷ volume_events status.volume)
    applied =
        apply_launched (correlate s json) status t app
          (unfold correlate in
            (resolved_fields s (get (codes "requestId") json >>= as_u64)).0 ∙ phase)
          e f

send_events-writes : (es : List ConnectionEvent) (w : World) → (send_events es w).writes ≡ w.writes
send_events-writes [] w = refl
send_events-writes (e ∷ es) w = send_events-writes es _

-- The loop goes on with the session streaming and nothing queued: CONNECT, then LOAD, was written to
-- the app's media channel.
abbrev pub IsPlaying : ℕ → Text → Text → Text → Text → StreamType → List Effect → Outcome → Type 0
IsPlaying transport destination app content_id content_type stream_type old (running st w) =
    ((s : Session) × (st.session ≡ some s) × (s.phase ≡ streaming) × (s.pending_command ≡ none))
    × ((id : ℕ) × (w.log
          ≡ wrote transport
              (to_media destination (Namespaces.load id app content_id content_type stream_type))
              true
            ∷ wrote transport (to_connection destination) true
            ∷ old))
IsPlaying transport destination app content_id content_type stream_type old (exited st w) = ⊥
IsPlaying transport destination app content_id content_type stream_type old crashed = ⊥

handled-Playing :
    (config : ConnectionConfig) (st : RunState) (s : Session) (transport : ℕ)
    (destination app content_id content_type : Text) (stream_type : StreamType) (old : List Effect)
    (h : Handled)
    → s.pending_command ≡ none
    → s.transport ≡ transport
    → HasLoaded s destination app content_id content_type stream_type old h
    → IsPlaying transport destination app content_id content_type stream_type old
        (after_handled config st h)
handled-Playing config st s transport destination app content_id content_type stream_type old
      (done s' w) queue same (phase, kept, (id, log)) =
    ((s', refl, phase, kept ∙ queue), (id, rw same at log))
handled-Playing config st s transport destination app content_id content_type stream_type old
      (io_error s' w) queue same h =
    absurd h
handled-Playing config st s transport destination app content_id content_type stream_type old
      panicked queue same h =
    absurd h

launched-Good :
    (device : CastDevice) (transport n : ℕ) (s : Session) (t app : Text)
    → IsGood device transport n s
    → IsGood device transport n (record (launched s t app) { pending_command = none })
launched-Good device transport n s t app good = record {
  is_device = good.is_device;
  is_transport = good.is_transport;
  has_app = (tt, tt);
  is_queued = tt;
  is_unique = good.is_unique;
  is_id = good.is_id;
  is_small = good.is_small;
}

case_option-some {ℓ κ μ} :
    {A : Type ℓ} {B : Type κ} (P : B → Type μ) (o : Option A) (d : B) (f : A → B) (a : A)
    → o ≡ some a
    → P (f a)
    → P (case_option o d f)
case_option-some P o d f a e h = rw e h

dispatch-Playing :
    (config : ConnectionConfig) (device : CastDevice) (transport n : ℕ) (st : RunState)
    (s : Session) (w : World) (rest : List Bool) (t app content_id content_type : Text)
    (stream_type : StreamType)
    → IsGood device transport n s
    → n < u32_max
    → s.pending_command ≡ some (pending_load content_id content_type stream_type)
    → w.writes ≡ true ∷ true ∷ rest
    → IsPlaying transport
        (media_destination_id t)
        app
        content_id
        content_type
        stream_type
        w.log
        (dispatch config st (launched s t app) w)
unfolding dispatch dispatch_pending media_destination
dispatch-Playing config device transport n st s w rest t app content_id content_type stream_type
      good room queue succeed =
    case_option-some
      (IsPlaying transport (media_destination_id t) app content_id content_type stream_type w.log)
      s.pending_command (running (record st { session = some (launched s t app) }) w) _
      (pending_load content_id content_type stream_type) queue
      (handled-Playing config st unqueued transport (media_destination_id t) app content_id
        content_type stream_type w.log
        (connect_and_load content_id content_type stream_type unqueued w) refl good.is_transport
        (load-HasLoaded device transport n app content_id content_type stream_type unqueued w rest
          (launched-Good device transport n s t app good) room refl succeed))
  where
    unqueued : Session
    unqueued = record (launched s t app) { pending_command = none }

-- A session that is launching with a queued LOAD receives a RECEIVER_STATUS message that names the
-- app's transport and session: if the next two writes succeed, the LOAD is sent to the channel of
-- that transport, after its CONNECT and after the `Ready` event, with the app's session, and the
-- session streams with an empty queue.
pub queued_load-Playing :
    (from_str : Text → Option Value) (config : ConnectionConfig) (n : ℕ) (st : RunState)
    (s : Session) (w : World) (rest : List Bool) (payload : List ℕ) (message : CastMessage)
    (json : Value) (status : ReceiverStatus) (t app content_id content_type : Text)
    (stream_type : StreamType)
    → IsValid config n st
    → n < u32_max
    → st.session ≡ some s
    → s.phase ≡ launching
    → s.pending_command ≡ some (pending_load content_id content_type stream_type)
    → decode_cast_message payload ≡ ok message
    → from_str message.payload_utf8 ≡ some json
    → (get (codes "type") json >>= as_str) ≡ some (codes "RECEIVER_STATUS")
    → parse_receiver_status (some json) ≡ some status
    → status.transport_id ≡ some t
    → status.session_id ≡ some app
    → w.writes ≡ true ∷ true ∷ rest
    → IsPlaying s.transport
        (media_destination_id t)
        app
        content_id
        content_type
        stream_type
        (send_events (is_ready t app ∷ volume_events status.volume) w).log
        (on_frame from_str config st payload w)
unfolding on_frame
queued_load-Playing from_str config n st s w rest payload message json status t app content_id
      content_type stream_type valid room here phase queue a b c d e f succeed =
    case_option-some Goal st.session (running st w) _ s here (rw routed played)
  where
    out : List ConnectionEvent
    out = is_ready t app ∷ volume_events status.volume

    Goal : Outcome → Type 0
    Goal =
        IsPlaying s.transport (media_destination_id t) app content_id content_type stream_type
          (send_events out w).log

    routed : route_inbound from_str s payload ≡ (launched (correlate s json) t app, events out)
    routed = route_launched from_str s payload message json status t app phase a b c d e f

    resolved : Session
    resolved = correlate s json

    good : IsGood s.device s.transport n resolved
    good =
        unfold correlate in
        resolve_id-Good s.device s.transport n s (get (codes "requestId") json >>= as_u64)
          (IsGood-of config n st s valid here)

    played : Goal (after_route config st (launched (correlate s json) t app, events out) w)
    played =
        dispatch-Playing config s.device s.transport n st resolved (send_events out w) rest t app
          content_id content_type stream_type good room
          (unfold correlate in
            (resolved_fields s (get (codes "requestId") json >>= as_u64)).1 ∙ queue)
          (send_events-writes out w ∙ succeed)
