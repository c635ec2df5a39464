-- ===== src/Cast/Connection/Loading.antt =====
-- What a LOAD sends when its writes succeed.
use cast_app.Common.{ℕ, ◌<◌, ◌≡◌, refl, ap, Option, some, Bool, true, List, ◌∷◌}
use cast_app.Common.Text.{Text}
use cast_app.Cast.RequestId.{RequestId, u32_max}
use cast_app.Cast.Namespaces
use cast_app.Cast.Namespaces.{Value, StreamType, media_destination_id}
use cast_app.Cast.Connection.{
  streaming, CastDevice, Session, Outgoing, World, Effect, wrote, Handled, done, io_error, panicked,
  write_next, send_payload, sent_last,
}
use cast_app.Cast.Connection.Commands.{
  media_destination, to_media, to_connection, load_with_session, connect_and_load,
}
use cast_app.Cast.Connection.Validity.{IsGood}
use cast_app.Cast.Connection.Preserve.{registered, with_request-Good}

write_succeeds :
    (transport : ℕ) (o : Outgoing) (w : World) (rest : List Bool)
    → w.writes ≡ true ∷ rest
    → send_payload transport o w
      ≡ (record w { writes = rest; log = wrote transport o true ∷ w.log }, true)
unfolding send_payload write_next
write_succeeds transport o w rest e = ap (write_next transport o w) e

-- CONNECT and LOAD have been written, and the session streams.
abbrev pub HasLoaded :
    Session → Text → Text → Text → Text → StreamType → List Effect → Handled → Type 0
HasLoaded s destination app content_id content_type stream_type old (done s' w) =
    (s'.phase ≡ streaming)
    × (s'.pending_command ≡ s.pending_command)
    × ((id : ℕ) × (w.log
          ≡ wrote s.transport
              (to_media destination (Namespaces.load id app content_id content_type stream_type))
              true
            ∷ wrote s.transport (to_connection destination) true
            ∷ old))
HasLoaded s destination app content_id content_type stream_type old (io_error s' w) = ⊥
HasLoaded s destination app content_id content_type stream_type old panicked = ⊥

-- A last write that succeeds.
last_sent :
    (P : Handled → Type 0) (s : Session) (sent : World × Bool) (w : World)
    → sent ≡ (w, true)
    → P (done s w)
    → P (sent_last s sent)
last_sent P s sent w e h = rw e h

with_app :
    (P : Handled → Type 0) (known : Option Text) (app : Text) (id : ℕ)
    (destination content_id content_type : Text) (stream_type : StreamType) (s : Session)
    (w : World) (rest : List Bool)
    → known ≡ some app
    → w.writes ≡ true ∷ rest
    → P (
        done
          (record s { phase = streaming })
          (record w {
            writes = rest;
            log =
                wrote s.transport
                  (to_media destination
                    (Namespaces.load id app content_id content_type stream_type))
                  true
                ∷ w.log;
          }))
    → P (load_with_session known id destination content_id content_type stream_type s w)
with_app P known app id destination content_id content_type stream_type s w rest e succeed h =
    rw e (
      last_sent P (record s { phase = streaming }) _ _
        (write_succeeds s.transport
          (to_media destination (Namespaces.load id app content_id content_type stream_type)) w rest
          succeed)
        h)

module _ (device : CastDevice) (transport n : ℕ) where
  pub load-HasLoaded :
      (app content_id content_type : Text) (stream_type : StreamType) (s : Session) (w : World)
      (rest : List Bool)
      → IsGood device transport n s
      → n < u32_max
      → s.session_id ≡ some app
      → w.writes ≡ true ∷ true ∷ rest
      → HasLoaded s
          (media_destination s)
          app
          content_id
          content_type
          stream_type
          w.log
          (connect_and_load content_id content_type stream_type s w)
  unfolding connect_and_load
  load-HasLoaded app content_id content_type stream_type s w rest good room known succeed =
      rw (write_succeeds s.transport (to_connection (media_destination s)) w (true ∷ rest) succeed)
        (with_request-Good
          (HasLoaded s (media_destination s) app content_id content_type stream_type w.log) device
          transport n s connected
          (λ id s' w'.
            load_with_session s'.session_id id (media_destination s) content_id content_type
              stream_type s' w')
          good room (λ id ids good'. loaded id ids))
    where
      connected : World
      connected = record w {
        writes = true ∷ rest;
        log = wrote s.transport (to_connection (media_destination s)) true ∷ w.log;
      }

      loaded :
          (id : ℕ) (ids : RequestId)
          → HasLoaded s (media_destination s) app content_id content_type stream_type w.log (
              load_with_session s.session_id id
                (media_destination s)
                content_id
                content_type
                stream_type
                (registered s id ids w.now)
                connected)
      loaded id ids =
          with_app (HasLoaded s (media_destination s) app content_id content_type stream_type w.log)
            s.session_id app id (media_destination s) content_id content_type stream_type
            (registered s id ids w.now) connected rest known refl (refl, refl, (id, refl))
