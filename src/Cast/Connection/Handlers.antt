-- ===== src/Cast/Connection/Handlers.antt =====
-- What the proofs need of the handlers of a session: well-formedness and panics.
use cast_app.Common.{ℕ, ◌+◌, ◌<◌, ◌≡◌, refl, Option, none, some, true, Bool-cases, inl, inr}
use cast_app.Common.Text.{Text}
use cast_app.Cast.Namespaces
use cast_app.Cast.Namespaces.{Value, StreamType}
use cast_app.Cast.RequestId.{RequestId, u32_max}
use cast_app.Cast.Connection.{
  Phase, disconnected, connecting, connected, launching, ready, streaming, teardown, Command,
  select, launch_default_receiver, load, play, pause, stop, set_volume, get_status, shutdown,
  CastDevice, PendingCommand, pending_load, Session, World, with_request, send_payload, sent_last,
}
use cast_app.Cast.Connection.Commands.{
  media_destination, to_media, to_connection, is_connected, accepts_media, load_with_session,
  connect_and_load, dispatch_pending, handle_load, media_request, handle_command,
}
use cast_app.Cast.Connection.Validity.{IsSome, HasApp, IsQueued, IsGood, IsHandled}
use cast_app.Cast.Connection.Preserve.{
  registered, with_request-Good, sent_last-Handled, sent_then-Handled, more-IsGood, rephased-IsGood,
  request_receiver-Handled,
}

load_with_session-Handled :
    (device : CastDevice) (transport n : ℕ) (session_id : Option Text) (id : ℕ)
    (destination content_id content_type : Text) (stream_type : StreamType) (s : Session)
    (w : World)
    → IsGood device transport n s
    → HasApp streaming s.transport_id s.session_id
    → IsSome session_id
    → s.pending_command ≡ none
    → IsHandled device transport n
        (load_with_session session_id id destination content_id content_type stream_type s w)
load_with_session-Handled device transport n none id destination content_id content_type stream_type
      s w good app known queue =
    absurd known
load_with_session-Handled device transport n (some session_id) id destination content_id
      content_type stream_type s w good app known queue =
    sent_last-Handled device transport n (record s { phase = streaming })
      (send_payload s.transport
        (to_media destination (Namespaces.load id session_id content_id content_type stream_type))
        w)
      (rephased-IsGood device transport n s streaming s.pending_command good app (rw queue tt))

-- LOAD with an app that is known, and nothing queued.
connect_and_load-Handled :
    (device : CastDevice) (transport n : ℕ) (content_id content_type : Text)
    (stream_type : StreamType) (s : Session) (w : World)
    → IsGood device transport n s
    → n < u32_max
    → HasApp streaming s.transport_id s.session_id
    → s.pending_command ≡ none
    → IsHandled device transport (n + 1) (connect_and_load content_id content_type stream_type s w)
unfolding connect_and_load
connect_and_load-Handled device transport n content_id content_type stream_type s w good room app
      queue =
    sent_then-Handled device transport (n + 1) s
      (send_payload s.transport (to_connection (media_destination s)) w)
      (λ w. with_request s w (λ id s w.
        load_with_session s.session_id id destination content_id content_type stream_type s w))
      (more-IsGood device transport n s good)
      (λ w.
        with_request-Good (IsHandled device transport (n + 1)) device transport n s w
          (λ id s w.
            load_with_session s.session_id id destination content_id content_type stream_type s w)
          good room
          (λ id ids good'.
            load_with_session-Handled device transport (n + 1) s.session_id id destination
              content_id content_type stream_type (registered s id ids w.now) w good' app app.1
              queue))
  where
    destination : Text
    destination = media_destination s

-- Nothing is queued where media is accepted.
pub not_queued :
    (phase : Phase) (pending : Option PendingCommand)
    → accepts_media phase ≡ true
    → IsQueued pending phase
    → pending ≡ none
not_queued phase none accepted queued = refl
not_queued ready (some p) accepted queued = absurd queued
not_queued streaming (some p) accepted queued = absurd queued
not_queued disconnected (some p) accepted queued = cc
not_queued connecting (some p) accepted queued = cc
not_queued connected (some p) accepted queued = cc
not_queued launching (some p) accepted queued = cc
not_queued teardown (some p) accepted queued = cc

handle_load-Handled :
    (device : CastDevice) (transport n : ℕ) (content_id content_type : Text)
    (stream_type : StreamType) (s : Session) (w : World) (phase : Phase)
    → s.phase ≡ phase
    → IsGood device transport n s
    → n < u32_max
    → IsHandled device transport (n + 1) (handle_load phase content_id content_type stream_type s w)
handle_load-Handled device transport n content_id content_type stream_type s w ready e good room =
    unfold handle_load in
    connect_and_load-Handled device transport n content_id content_type stream_type s w good room
      (rw e at good.has_app) (not_queued ready s.pending_command refl (rw e at good.is_queued))
handle_load-Handled device transport n content_id content_type stream_type s w streaming e good
      room =
    unfold handle_load in
    connect_and_load-Handled device transport n content_id content_type stream_type s w good room
      (rw e at good.has_app) (not_queued streaming s.pending_command refl (rw e at good.is_queued))
handle_load-Handled device transport n content_id content_type stream_type s w connected e good
      room =
    unfold handle_load in
    request_receiver-Handled device transport n Namespaces.launch
      (λ s. record s {
        phase = launching;
        pending_command = some (pending_load content_id content_type stream_type);
      })
      s w good room
      (λ id ids good'.
        rephased-IsGood device transport (n + 1) (registered s id ids w.now) launching
          (some (pending_load content_id content_type stream_type)) good' tt tt)
handle_load-Handled device transport n content_id content_type stream_type s w disconnected e good
      room =
    unfold handle_load in more-IsGood device transport n s good
handle_load-Handled device transport n content_id content_type stream_type s w connecting e good
      room =
    unfold handle_load in more-IsGood device transport n s good
handle_load-Handled device transport n content_id content_type stream_type s w launching e good
      room =
    unfold handle_load in more-IsGood device transport n s good
handle_load-Handled device transport n content_id content_type stream_type s w teardown e good
      room =
    unfold handle_load in more-IsGood device transport n s good

-- PLAY, PAUSE and STOP; `change` may only change the phase where media is accepted.
media_request-Handled :
    (device : CastDevice) (transport n : ℕ) (body : ℕ → Value) (change : Session → Session)
    (s : Session) (w : World)
    → IsGood device transport n s
    → n < u32_max
    → (accepts_media s.phase ≡ true
        → (id : ℕ) (ids : RequestId) → IsGood device transport (n + 1) (registered s id ids w.now)
        → IsGood device transport (n + 1) (change (registered s id ids w.now)))
    → IsHandled device transport (n + 1) (media_request body change s w)
unfolding media_request
media_request-Handled device transport n body change s w good room changed =
    elim (Bool-cases (accepts_media s.phase)) [
      | inl accepted ↦ rw accepted (
          with_request-Good (IsHandled device transport (n + 1)) device transport n s w
            (λ id s w.
              sent_last (change s)
                (send_payload s.transport (to_media (media_destination s) (body id)) w))
            good room
            (λ id ids good'.
              sent_last-Handled device transport (n + 1) (change (registered s id ids w.now))
                (send_payload s.transport
                  (to_media (media_destination (registered s id ids w.now)) (body id)) w)
                (changed accepted id ids good')))
      | inr refused ↦ rw refused (more-IsGood device transport n s good)
    ]

-- A session that accepts media knows its app.
app_known :
    (phase : Phase) (transport_id session_id : Option Text)
    → accepts_media phase ≡ true
    → HasApp phase transport_id session_id
    → HasApp ready transport_id session_id
app_known ready transport_id session_id accepted app = app
app_known streaming transport_id session_id accepted app = app
app_known disconnected transport_id session_id accepted app = absurd app
app_known connecting transport_id session_id accepted app = absurd app
app_known connected transport_id session_id accepted app = cc
app_known launching transport_id session_id accepted app = cc
app_known teardown transport_id session_id accepted app = absurd app

-- STOP leaves a session that knows its app and has nothing queued.
ready_again :
    (device : CastDevice) (transport n : ℕ) (s : Session)
    → accepts_media s.phase ≡ true
    → IsGood device transport n s
    → IsGood device transport n (record s { phase = ready })
ready_again device transport n s accepted good =
    rephased-IsGood device transport n s ready s.pending_command good
      (app_known s.phase s.transport_id s.session_id accepted good.has_app)
      (rw (not_queued s.phase s.pending_command accepted good.is_queued) tt)

-- LAUNCH is only sent from `Connected`.
launch-Handled :
    (device : CastDevice) (transport n : ℕ) (s : Session) (w : World)
    → IsGood device transport n s
    → n < u32_max
    → IsHandled device transport (n + 1) (handle_command s launch_default_receiver w)
unfolding handle_command
launch-Handled device transport n s w good room = elim (Bool-cases (is_connected s.phase)) [
  | inl at_start ↦ rw at_start (
      request_receiver-Handled device transport n Namespaces.launch
        (λ s. record s { phase = launching }) s w good room
        (λ id ids good'.
          rephased-IsGood device transport (n + 1) (registered s id ids w.now) launching
            s.pending_command good' tt (queue_fits s.pending_command)))
  | inr other ↦ rw other (more-IsGood device transport n s good)
]
  where
    queue_fits : (pending : Option PendingCommand) → IsQueued pending launching
    queue_fits none = tt
    queue_fits (some p) = tt

-- The commands that the run loop hands on.
abbrev pub IsHandedOn : Command → Type 0
IsHandedOn (select device) = ⊥
IsHandedOn shutdown = ⊥
IsHandedOn _ = Unit {0}

-- Each command that is handed on keeps the session well-formed and does not panic.
pub handle_command-Handled :
    (device : CastDevice) (transport n : ℕ) (s : Session) (command : Command) (w : World)
    → IsHandedOn command
    → IsGood device transport n s
    → n < u32_max
    → IsHandled device transport (n + 1) (handle_command s command w)
handle_command-Handled device transport n s launch_default_receiver w on good room =
    launch-Handled device transport n s w good room
handle_command-Handled device transport n s (load content_id content_type stream_type) w on good
      room =
    unfold handle_command in
    handle_load-Handled device transport n content_id content_type stream_type s w s.phase refl good
      room
handle_command-Handled device transport n s play w on good room =
    unfold handle_command in
    media_request-Handled device transport n Namespaces.play (λ s. s) s w good room
      (λ accepted id ids good'. good')
handle_command-Handled device transport n s pause w on good room =
    unfold handle_command in
    media_request-Handled device transport n Namespaces.pause (λ s. s) s w good room
      (λ accepted id ids good'. good')
handle_command-Handled device transport n s stop w on good room =
    unfold handle_command in
    media_request-Handled device transport n Namespaces.stop (λ s. record s { phase = ready }) s w
      good room
      (λ accepted id ids good'.
        ready_again device transport (n + 1) (registered s id ids w.now) accepted good')
handle_command-Handled device transport n s (set_volume level muted) w on good room =
    unfold handle_command in
    request_receiver-Handled device transport n (λ id. Namespaces.set_volume id level muted)
      (λ s. s) s w good room (λ id ids good'. good')
handle_command-Handled device transport n s get_status w on good room =
    unfold handle_command in
    request_receiver-Handled device transport n Namespaces.get_status (λ s. s) s w good room
      (λ id ids good'. good')
handle_command-Handled device transport n s (select device') w on good room = absurd on
handle_command-Handled device transport n s shutdown w on good room = absurd on

-- A queued LOAD is sent by a session that has become ready.
pub dispatch_pending-Handled :
    (device : CastDevice) (transport n : ℕ) (s : Session) (pending : PendingCommand) (w : World)
    → IsGood device transport n s
    → n < u32_max
    → s.phase ≡ ready
    → s.pending_command ≡ none
    → IsHandled device transport (n + 1) (dispatch_pending s pending w)
unfolding dispatch_pending
dispatch_pending-Handled device transport n s (pending_load content_id content_type stream_type) w
      good room e queue =
    connect_and_load-Handled device transport n content_id content_type stream_type s w good room
      (rw e at good.has_app) queue
