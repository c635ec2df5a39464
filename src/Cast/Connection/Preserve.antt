-- ===== src/Cast/Connection/Preserve.antt =====
-- What requests and writes do to a well-formed session.
use cast_app.Common.{
  ℕ, ◌+◌, ◌≤◌, ◌<◌, Option, Bool, true, false, length, arith, Bool-cases, inl, inr,
}
use cast_app.Cast.Namespaces.{Value}
use cast_app.Cast.RequestId.{
  RequestId, PendingMap, u32_max, Allocated, allocated, exhausted, out_of_fuel, allocate, insert,
  contains_key, len,
}
use cast_app.Cast.RequestId.Map.{operations-IsUnique}
use cast_app.Cast.RequestId.Allocate.{IsId, IsFresh, allocate-IsFresh}
use cast_app.Cast.Connection
use cast_app.Cast.Connection.{
  Phase, disconnected, connecting, connected, launching, ready, streaming, teardown, CastDevice,
  PendingCommand, pending_load, Session, World, Handled, done, io_error, panicked, with_request,
  send_payload, sent_last, sent_then,
}
use cast_app.Cast.Connection.Commands.{to_receiver, request_receiver}
use cast_app.Cast.Connection.Validity.{HasApp, IsQueued, IsGood, IsHandled}

length-insert :
    (m : PendingMap) (id now : ℕ) → length (insert m id now).0.pending ≤ length m.pending + 1
unfolding insert
length-insert m id now = elim (Bool-cases (contains_key id m.pending)) [
  | inl old ↦ rw old (omega arith)
  | inr fresh ↦ rw fresh (omega arith)
]

-- The session after a request was registered.
abbrev pub registered : Session → ℕ → RequestId → ℕ → Session
registered s id ids now = record s { request_id = ids; pending = (insert s.pending id now).0 }

registered-IsGood :
    (device : CastDevice) (transport n : ℕ) (s : Session) (id now : ℕ) (ids : RequestId)
    → IsGood device transport n s
    → IsId ids.next
    → IsGood device transport (n + 1) (registered s id ids now)
registered-IsGood device transport n s id now ids good next_id = record {
  is_device = good.is_device;
  is_transport = good.is_transport;
  has_app = good.has_app;
  is_queued = good.is_queued;
  is_unique = (operations-IsUnique s.pending id now good.is_unique).0;
  is_id = next_id;
  is_small = omega (arith, length-insert s.pending id now, good.is_small);
}

-- What `allocate` gives is passed on.
register-allocated :
    (P : Handled → Type 0) (s : Session) (w : World) (next : ℕ → Session → World → Handled)
    (a : Allocated)
    → IsFresh s.pending a
    → ((id : ℕ) (ids : RequestId) → IsId ids.next → P (next id (registered s id ids w.now) w))
    → P (Connection.register a s w next)
register-allocated P s w next (allocated id ids) (a, b, next_id) rest = rest id ids next_id
register-allocated P s w next exhausted fresh rest = absurd fresh
register-allocated P s w next out_of_fuel fresh rest = absurd fresh

-- A request can be made as long as not all IDs are outstanding.
pub with_request-Good :
    (P : Handled → Type 0) (device : CastDevice) (transport n : ℕ) (s : Session) (w : World)
    (next : ℕ → Session → World → Handled)
    → IsGood device transport n s
    → n < u32_max
    → ((id : ℕ) (ids : RequestId)
        → IsGood device transport (n + 1) (registered s id ids w.now)
        → P (next id (registered s id ids w.now) w))
    → P (with_request s w next)
unfolding with_request
with_request-Good P device transport n s w next good room rest =
    register-allocated P s w next (allocate s.request_id s.pending)
      (allocate-IsFresh s.request_id s.pending good.is_id good.is_unique
        (unfold len in omega (arith, good.is_small)))
      (λ id ids next_id.
        rest id ids (registered-IsGood device transport n s id w.now ids good next_id))

pub sent_last-Handled :
    (device : CastDevice) (transport n : ℕ) (s : Session) (sent : World × Bool)
    → IsGood device transport n s
    → IsHandled device transport n (sent_last s sent)
sent_last-Handled device transport n s (w, true) good = good
sent_last-Handled device transport n s (w, false) good = good

pub sent_then-Handled :
    (device : CastDevice) (transport n : ℕ) (s : Session) (sent : World × Bool)
    (next : World → Handled)
    → IsGood device transport n s
    → ((w : World) → IsHandled device transport n (next w))
    → IsHandled device transport n (sent_then s sent next)
sent_then-Handled device transport n s (w, true) next good rest = rest w
sent_then-Handled device transport n s (w, false) next good rest = good

pub more-IsGood :
    (device : CastDevice) (transport n : ℕ) (s : Session)
    → IsGood device transport n s
    → IsGood device transport (n + 1) s
more-IsGood device transport n s good = record {
  is_device = good.is_device;
  is_transport = good.is_transport;
  has_app = good.has_app;
  is_queued = good.is_queued;
  is_unique = good.is_unique;
  is_id = good.is_id;
  is_small = omega (arith, good.is_small);
}

-- The phase and the queue may change to what suits the session.
pub rephased-IsGood :
    (device : CastDevice) (transport n : ℕ) (s : Session) (phase : Phase)
    (pending : Option PendingCommand)
    → IsGood device transport n s
    → HasApp phase s.transport_id s.session_id
    → IsQueued pending phase
    → IsGood device transport n (record s { phase = phase; pending_command = pending })
rephased-IsGood device transport n s phase pending good app queued = record {
  is_device = good.is_device;
  is_transport = good.is_transport;
  has_app = app;
  is_queued = queued;
  is_unique = good.is_unique;
  is_id = good.is_id;
  is_small = good.is_small;
}

pub request_receiver-Handled :
    (device : CastDevice) (transport n : ℕ) (body : ℕ → Value) (change : Session → Session)
    (s : Session) (w : World)
    → IsGood device transport n s
    → n < u32_max
    → ((id : ℕ) (ids : RequestId)
        → IsGood device transport (n + 1) (registered s id ids w.now)
        → IsGood device transport (n + 1) (change (registered s id ids w.now)))
    → IsHandled device transport (n + 1) (request_receiver body change s w)
request_receiver-Handled device transport n body change s w good room changed =
    with_request-Good (IsHandled device transport (n + 1)) device transport n s w
      (λ id s w. sent_last (change s) (send_payload s.transport (to_receiver (body id)) w)) good
      room
      (λ id ids good'.
        sent_last-Handled device transport (n + 1) (change (registered s id ids w.now))
          (send_payload s.transport (to_receiver (body id)) w) (changed id ids good'))
