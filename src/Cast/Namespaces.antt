-- ===== src/Cast/Namespaces.antt =====
-- src/cast/namespaces.rs: addressing, the JSON messages to a receiver and what is read from its
-- answers. `Value` stands for `serde_json::Value`; its text form is serde_json's and stays outside.
pub mod Parse
pub mod Address
mod Examples
use cast_app.Common.{
  ℕ, zero, suc, Option, none, some, Bool, true, false, not, ◌||◌, ◌&&◌, List, [], ◌∷◌, ◌++◌, length,
  get_or, ltb, ◌==◌, if◌then◌else◌,
}
use cast_app.Common.Text.{Text, codes, text_eq, is_ascii_hexdigit}
use cast_app.Common.Float.{widen, f64_of_nat, is_finite, clamp_unit}

-- A number is a `u64`, or the bits of an `f64`.
mutual
  pub data Value : Type 0 where
    null : Value
    boolean : Bool → Value
    integer : ℕ → Value
    float : ℕ → Value
    text : Text → Value
    array : Values → Value
    object : Members → Value

  pub data Values : Type 0 where
    no_values : Values
    item : Value → Values → Values

  pub data Members : Type 0 where
    no_members : Members
    member : Text → Value → Members → Members

abbrev pub source_id : Text
source_id = codes "source-0"

abbrev pub transport_0 : Text
transport_0 = codes "transport-0"

abbrev pub receiver_id : Text
receiver_id = codes "receiver-0"

abbrev pub default_media_receiver_app_id : Text
default_media_receiver_app_id = codes "CC1AD845"

abbrev pub connection_ns : Text
connection_ns = codes "urn:x-cast:com.google.cast.tp.connection"

abbrev pub heartbeat_ns : Text
heartbeat_ns = codes "urn:x-cast:com.google.cast.tp.heartbeat"

abbrev pub receiver_ns : Text
receiver_ns = codes "urn:x-cast:com.google.cast.receiver"

abbrev pub media_ns : Text
media_ns = codes "urn:x-cast:com.google.cast.media"

abbrev pub is_dash_place : ℕ → Bool
is_dash_place i = i == 8 || i == 13 || i == 18 || i == 23

-- The loop over the bytes from place `i` on.
unfoldable pub hex_loop : ℕ → Text → Bool
unfolding is_ascii_hexdigit
hex_loop i [] = true
hex_loop i (b ∷ bytes) =
    let rest = hex_loop (suc i) bytes in
    if is_dash_place i then rest else if not (is_ascii_hexdigit b) then false else rest

unfoldable pub is_uuid_transport_id : Text → Bool
unfolding hex_loop
is_uuid_transport_id id =
    if not (length id == 36)
    then false
    else if not (get_or id 8 0 == b'-')
        || not (get_or id 13 0 == b'-')
        || not (get_or id 18 0 == b'-')
        || not (get_or id 23 0 == b'-')
    then false
    else hex_loop 0 id

unfoldable pub media_destination_id : Text → Text
media_destination_id transport_id =
    if is_uuid_transport_id transport_id then transport_id else codes "transport-" ++ transport_id

pub data StreamType : Type 0 where
  buffered live : StreamType

unfoldable pub stream_type_as_str : StreamType → Text
stream_type_as_str buffered = codes "BUFFERED"
stream_type_as_str live = codes "LIVE"

-- `env!("CARGO_PKG_VERSION")`, from Cargo.toml.
abbrev pub version : Text
version = codes "0.1.0"

-- The entry `"type": kind` before the others.
abbrev typed : Text → Members → Value
typed kind rest = object (member (codes "type") (text kind) rest)

abbrev request_id_then : ℕ → Members → Members
request_id_then request_id rest = member (codes "requestId") (integer request_id) rest

unfoldable pub connect : Value
connect = typed (codes "CONNECT") (
    member (codes "origin") (object no_members) (
      member (codes "userAgent") (text (codes "cast-app/" ++ version)) (
        member (codes "connType") (integer 0) (
          member (codes "senderInfo")
            (object (
              member (codes "sdkType") (integer 2) (
                member (codes "version") (text version) (
                  member (codes "browserVersion") (text version) (
                    member (codes "platform") (integer 6)
                      (member (codes "connectionType") (integer 1) no_members))))))
            no_members))))

unfoldable pub ping : Value
ping = typed (codes "PING") no_members

unfoldable pub launch : ℕ → Value
launch request_id = typed (codes "LAUNCH") (
    request_id_then request_id
      (member (codes "appId") (text default_media_receiver_app_id) no_members))

unfoldable pub get_status : ℕ → Value
get_status request_id = typed (codes "GET_STATUS") (request_id_then request_id no_members)

-- `level.clamp(0.0, 1.0) as f64`, or `0.0`.
abbrev clamped : ℕ → ℕ
clamped level = if is_finite level then widen (clamp_unit level) else 0

unfoldable pub set_volume : ℕ → ℕ → Bool → Value
unfolding is_finite widen clamp_unit
set_volume request_id level muted = typed (codes "SET_VOLUME") (
    request_id_then request_id (
      member (codes "volume")
        (object (
          member (codes "level") (float (clamped level))
            (member (codes "muted") (boolean muted) no_members)))
        no_members))

unfoldable pub stop_app : ℕ → Text → Value
stop_app request_id session_id =
    typed (codes "STOP_APP")
      (request_id_then request_id (member (codes "sessionId") (text session_id) no_members))

unfoldable pub load : ℕ → Text → Text → Text → StreamType → Value
unfolding stream_type_as_str
load request_id session_id content_id content_type stream_type = typed (codes "LOAD") (
    request_id_then request_id (
      member (codes "media")
        (object (
          member (codes "contentId") (text content_id) (
            member (codes "contentType") (text content_type)
              (member (codes "streamType") (text (stream_type_as_str stream_type)) no_members))))
        (member (codes "autoplay") (boolean true) (
          member (codes "currentTime") (integer 0)
            (member (codes "sessionId") (text session_id) no_members)))))

unfoldable pub play : ℕ → Value
play request_id = typed (codes "PLAY") (request_id_then request_id no_members)

unfoldable pub pause : ℕ → Value
pause request_id = typed (codes "PAUSE") (request_id_then request_id no_members)

unfoldable pub stop : ℕ → Value
stop request_id = typed (codes "STOP") (request_id_then request_id no_members)
