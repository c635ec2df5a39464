-- ===== src/Cast/Namespaces/Examples.antt =====
-- Runs of src/cast/namespaces.rs.
use cast_app.Common.{◌≡◌, refl, none, some, false}
use cast_app.Common.Text.{Text, codes}
use cast_app.Common.Float.{f32_one}
use cast_app.Cast.Namespaces.{
  Value, integer, text, array, object, no_values, item, no_members, member, media_destination_id,
  is_uuid_transport_id, default_media_receiver_app_id,
}
use cast_app.Cast.Namespaces.Parse.{parse_receiver_status, parse_media_status}

short_id : media_destination_id (codes "web-9") ≡ codes "transport-web-9"
unfolding media_destination_id is_uuid_transport_id
short_id = refl

uuid_id :
    media_destination_id (codes "0bee6ad3-7d2c-4ec5-8fc1-1fdb4a63ba51")
    ≡ codes "0bee6ad3-7d2c-4ec5-8fc1-1fdb4a63ba51"
unfolding media_destination_id is_uuid_transport_id
uuid_id = refl

abbrev app : Text → Text → Text → Value
app name transport session = object (
    member (codes "appId") (text name) (
      member (codes "transportId") (text transport)
        (member (codes "sessionId") (text session) no_members)))

abbrev status : Value
status = object (
    member (codes "type") (text (codes "RECEIVER_STATUS")) (
      member (codes "status")
        (object (
          member (codes "applications")
            (array (
              item (app (codes "E8C28D3C") (codes "backdrop") (codes "s0"))
                (item (app default_media_receiver_app_id (codes "web-9") (codes "s1")) no_values)))
            (member (codes "volume") (object (member (codes "level") (integer 1) no_members))
              no_members)))
        no_members))

-- The entry of the Default Media Receiver is preferred to the first; `muted` defaults to false.
finds_default_receiver :
    parse_receiver_status (some status)
    ≡ some (record {
      transport_id = some (codes "web-9");
      session_id = some (codes "s1");
      volume = some (record { level = f32_one; muted = false });
    })
unfolding parse_receiver_status
finds_default_receiver = refl

not_a_media_status : parse_media_status (some status) ≡ none
unfolding parse_media_status
not_a_media_status = refl
