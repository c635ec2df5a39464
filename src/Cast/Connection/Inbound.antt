-- ===== src/Cast/Connection/Inbound.antt =====
-- src/cast/connection/state_machine.rs: `route_inbound` and what a status does to the session.
use cast_app.Common.{
  ℕ, ◌%◌, ◌^◌, Option, none, some, Bool, true, false, List, [], ◌∷◌, ◌++◌, if◌then◌else◌,
}
use cast_app.Common.Text.{Text, codes, text_eq}
use cast_app.Cast.Proto.{Result, ok, err, stuck}
use cast_app.Cast.Proto.Message.{CastMessage, decode_cast_message}
use cast_app.Cast.RequestId.{resolve}
use cast_app.Cast.Namespaces.{Value}
use cast_app.Cast.Namespaces.Parse.{
  get, as_str, as_u64, ◌>>=◌, VolumeInfo, ReceiverStatus, MediaStatusInfo, PlayerState, playing,
  buffering, parse_receiver_status, parse_media_status,
}
use cast_app.Cast.Connection.{
  Phase, ready, ConnectionEvent, is_ready, media_status, volume, Session,
}

pub data InboundAction : Type 0 where
  pong : InboundAction
  events : List ConnectionEvent → InboundAction
  ignore : InboundAction

-- `id as u32`.
abbrev pub resolve_id : Session → Option ℕ → Session
resolve_id s none = s
resolve_id s (some id) = record s { pending = (resolve s.pending (id % 2 ^ 32)).0 }

unfoldable pub correlate : Session → Value → Session
correlate s json = resolve_id s (get (codes "requestId") json >>= as_u64)

-- `if let Some(x) = new { self.field = Some(x); }`.
abbrev pub replace {ℓ} : {A : Type ℓ} → Option A → Option A → Option A
replace none old = old
replace (some a) old = some a

abbrev pub is_launching : Phase → Bool
is_launching Phase.launching = true
is_launching _ = false

-- The change of a session that may have launched, with its event.
unfoldable pub become_ready : Session → Option Text → Option Text → Session × List ConnectionEvent
become_ready s (some transport_id) (some session_id) =
    if is_launching s.phase
    then (record s { phase = ready }, is_ready transport_id session_id ∷ [])
    else (s, [])
become_ready s none session_id = (s, [])
become_ready s (some transport_id) none = (s, [])

abbrev pub volume_events : Option VolumeInfo → List ConnectionEvent
volume_events none = []
volume_events (some v) = volume v.level v.muted ∷ []

unfoldable pub apply_receiver_status : Session → ReceiverStatus → Session × List ConnectionEvent
unfolding become_ready
apply_receiver_status s status =
    let s = record s {
      transport_id = replace status.transport_id s.transport_id;
      session_id = replace status.session_id s.session_id;
    } in
    let (s, out) = become_ready s s.transport_id s.session_id in
    (s, out ++ volume_events status.volume)

abbrev is_playing : PlayerState → Bool
is_playing playing = true
is_playing buffering = true
is_playing _ = false

abbrev is_buffering : PlayerState → Bool
is_buffering buffering = true
is_buffering _ = false

unfoldable pub apply_media_status : MediaStatusInfo → List ConnectionEvent
apply_media_status info =
    media_status (is_playing info.player_state) (is_buffering info.player_state) ∷ []

abbrev pub receiver_action : Session → Option ReceiverStatus → Session × InboundAction
receiver_action s none = (s, ignore)
receiver_action s (some status) = let (s, out) = apply_receiver_status s status in (s, events out)

abbrev pub media_action : Option MediaStatusInfo → InboundAction
media_action none = ignore
media_action (some info) = events (apply_media_status info)

-- `match msg_type`.
unfoldable pub route_type : Text → Session → Value → Session × InboundAction
route_type kind s json =
    if text_eq kind (codes "PONG")
    then (s, pong)
    else if text_eq kind (codes "RECEIVER_STATUS")
    then receiver_action (correlate s json) (parse_receiver_status (some json))
    else if text_eq kind (codes "MEDIA_STATUS")
    then (correlate s json, media_action (parse_media_status (some json)))
    else (s, ignore)

-- `let Some(msg_type) = … else`.
abbrev pub route_kind : Option Text → Session → Value → Session × InboundAction
route_kind none s json = (s, ignore)
route_kind (some kind) s json = route_type kind s json

-- `none` is the error of `from_str`.
abbrev pub route_json : Session → Option Value → Session × InboundAction
route_json s none = (s, ignore)
route_json s (some json) = route_kind (get (codes "type") json >>= as_str) s json

-- `from_str` is `serde_json::from_str`. `stuck` does not occur: the decoder is total.
abbrev pub route_decoded :
    (Text → Option Value) → Session → Result CastMessage → Session × InboundAction
route_decoded from_str s (ok message) = route_json s (from_str message.payload_utf8)
route_decoded from_str s (err e) = (s, ignore)
route_decoded from_str s stuck = (s, ignore)

unfoldable pub route_inbound : (Text → Option Value) → Session → List ℕ → Session × InboundAction
route_inbound from_str s payload = route_decoded from_str s (decode_cast_message payload)
