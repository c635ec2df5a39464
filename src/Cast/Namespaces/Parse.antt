-- ===== src/Cast/Namespaces/Parse.antt =====
-- src/cast/namespaces.rs: the parsers, on the JSON value that `serde_json::from_str` reads
-- (`none` for its error).
use cast_app.Common.{ℕ, Option, none, some, Bool, false, if◌then◌else◌}
use cast_app.Common.Text.{Text, codes, text_eq}
use cast_app.Common.Float.{f64_of_nat, narrow, f32_one}
use cast_app.Cast.Namespaces.{
  Value, Values, Members, boolean, integer, float, text, array, object, no_values, item, no_members,
  member, default_media_receiver_app_id,
}

pub record VolumeInfo : Type 0 where
  pub level : ℕ
  pub muted : Bool

pub record ReceiverStatus : Type 0 where
  pub transport_id : Option Text
  pub session_id : Option Text
  pub volume : Option VolumeInfo

pub data PlayerState : Type 0 where
  idle playing paused buffering : PlayerState
  other : Text → PlayerState

pub record MediaStatusInfo : Type 0 where
  pub player_state : PlayerState
  pub idle_reason : Option Text

unfoldable pub parse_player_state : Text → PlayerState
unfolding text_eq
parse_player_state name =
    if text_eq name (codes "IDLE")
    then idle
    else if text_eq name (codes "PLAYING")
    then playing
    else if text_eq name (codes "PAUSED")
    then paused
    else if text_eq name (codes "BUFFERING")
    then buffering
    else other name

infixl 5 ◌>>=◌
abbrev pub ◌>>=◌ {ℓ κ} : {A : Type ℓ} {B : Type κ} → Option A → (A → Option B) → Option B
none >>= f = none
some a >>= f = f a

abbrev pub unwrap_or {ℓ} : {A : Type ℓ} → Option A → A → A
unwrap_or none d = d
unwrap_or (some a) d = a

-- serde_json's accessors.
unfoldable pub find_member : Text → Members → Option Value
unfolding text_eq
find_member key no_members = none
find_member key (member k v rest) = if text_eq k key then some v else find_member key rest

abbrev pub as_object : Value → Option Members
as_object (object members) = some members
as_object _ = none

abbrev pub as_array : Value → Option Values
as_array (array values) = some values
as_array _ = none

abbrev pub as_str : Value → Option Text
as_str (text s) = some s
as_str _ = none

abbrev pub as_bool : Value → Option Bool
as_bool (boolean b) = some b
as_bool _ = none

abbrev pub as_u64 : Value → Option ℕ
as_u64 (integer n) = some n
as_u64 _ = none

unfoldable pub as_f64 : Value → Option ℕ
unfolding f64_of_nat
as_f64 (integer n) = some (f64_of_nat n)
as_f64 (float bits) = some bits
as_f64 _ = none

unfoldable pub get : Text → Value → Option Value
unfolding find_member
get key (object members) = find_member key members
get key _ = none

abbrev pub first : Values → Option Value
first no_values = none
first (item v rest) = some v

abbrev is_text : Text → Option Text → Bool
is_text s none = false
is_text s (some t) = text_eq t s

-- `applications.iter().find(…)`.
unfoldable pub find_default : Values → Option Value
unfolding get text_eq
find_default no_values = none
find_default (item v rest) =
    if is_text default_media_receiver_app_id (get (codes "appId") v >>= as_str)
    then some v
    else find_default rest

-- `.or_else(|| applications.first())`.
unfoldable pub application_of : Values → Option Value
unfolding find_default
application_of applications = elim (find_default applications) [
  | none ↦ first applications
  | some v ↦ some v
]

unfoldable pub volume_of : Members → VolumeInfo
unfolding find_member as_f64 narrow
volume_of volume = record {
  level = elim (find_member (codes "level") volume >>= as_f64) [
    | none ↦ f32_one
    | some bits ↦ narrow bits
  ];
  muted = unwrap_or (find_member (codes "muted") volume >>= as_bool) false;
}

-- The fields of a status object.
unfoldable pub receiver_status_of : Members → ReceiverStatus
unfolding volume_of application_of find_member get
receiver_status_of status =
    let volume = (do
      v ← find_member (codes "volume") status
      m ← as_object v
      some (volume_of m)) in
    let application = (do
      v ← find_member (codes "applications") status
      applications ← as_array v
      application_of applications) in
    record {
      transport_id = application >>= get (codes "transportId") >>= as_str;
      session_id = application >>= get (codes "sessionId") >>= as_str;
      volume = volume;
    }

-- `if value.get("type")?.as_str() != Some(kind) { return None; }`.
abbrev check_type : Text → Value → Option Value
check_type kind json = do
  t ← get (codes "type") json
  if is_text kind (as_str t) then some json else none

unfoldable pub parse_receiver_status : Option Value → Option ReceiverStatus
unfolding receiver_status_of get text_eq
parse_receiver_status parsed = do
  json ← parsed >>= check_type (codes "RECEIVER_STATUS")
  status ← get (codes "status") json >>= as_object
  some (receiver_status_of status)

unfoldable pub parse_media_status : Option Value → Option MediaStatusInfo
unfolding get find_member text_eq parse_player_state
parse_media_status parsed = do
  json ← parsed >>= check_type (codes "MEDIA_STATUS")
  status ← get (codes "status") json >>= as_array >>= first >>= as_object
  state ← find_member (codes "playerState") status >>= as_str
  some (record {
    player_state = parse_player_state state;
    idle_reason = find_member (codes "idleReason") status >>= as_str;
  })

unfoldable pub is_pong : Option Value → Bool
unfolding get text_eq
is_pong json = is_text (codes "PONG") (json >>= get (codes "type") >>= as_str)
