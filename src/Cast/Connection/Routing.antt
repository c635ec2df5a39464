-- ===== src/Cast/Connection/Routing.antt =====
-- Inbound messages and the well-formedness of a session, but for the queue of one that has become
-- ready.
use cast_app.Common.{
  ℕ, ◌%◌, ◌^◌, ◌≤◌, ◌≡◌, refl, Option, none, some, false, List, [], ◌∷◌, length, arith, Bool-cases,
  inl, inr,
}
use cast_app.Common.Text.{Text, codes, text_eq}
use cast_app.Cast.Proto.{Result, ok, err, stuck}
use cast_app.Cast.Proto.Message.{CastMessage, decode_cast_message}
use cast_app.Cast.Namespaces.{Value}
use cast_app.Cast.Namespaces.Parse.{
  ReceiverStatus, parse_receiver_status, get, as_str, as_u64, ◌>>=◌,
}
use cast_app.Cast.RequestId.{Entries, resolve, without}
use cast_app.Cast.RequestId.Map.{operations-IsUnique}
use cast_app.Cast.Connection.{
  Phase, disconnected, connecting, connected, launching, ready, streaming, teardown, CastDevice,
  Session,
}
use cast_app.Cast.Connection.Inbound.{
  resolve_id, correlate, replace, is_launching, become_ready, apply_receiver_status,
  receiver_action, route_type, route_kind, route_json, route_decoded, route_inbound,
}
use cast_app.Cast.Connection.Loop.{is_ready_phase}
use cast_app.Cast.Connection.Validity.{IsSome, HasApp, IsQueued, IsGood}

-- A session whose queue may wait to be sent.
abbrev pub IsRouted : CastDevice → ℕ → ℕ → Session → Type 0
IsRouted device transport n s =
    IsGood device transport n (record s { pending_command = none })
    × (is_ready_phase s.phase ≡ false → IsQueued s.pending_command s.phase)

module _ (device : CastDevice) (transport n : ℕ) where
  good→routed : (s : Session) → IsGood device transport n s → IsRouted device transport n s
  good→routed s good = (
    record {
      is_device = good.is_device;
      is_transport = good.is_transport;
      has_app = good.has_app;
      is_queued = tt;
      is_unique = good.is_unique;
      is_id = good.is_id;
      is_small = good.is_small;
    },
    λ e. good.is_queued,
  )

  pub routed→good :
      (s : Session)
      → is_ready_phase s.phase ≡ false
      → IsRouted device transport n s
      → IsGood device transport n s
  routed→good s e (good, queued) = record {
    is_device = good.is_device;
    is_transport = good.is_transport;
    has_app = good.has_app;
    is_queued = queued e;
    is_unique = good.is_unique;
    is_id = good.is_id;
    is_small = good.is_small;
  }

  length-without_le : (id : ℕ) (es : Entries) → length (without id es) ≤ length es
  unfolding without
  length-without_le id [] = omega arith
  length-without_le id ((k, sent_at) ∷ es) = ground (arith, length-without_le id es)

  pub resolve_id-Good :
      (s : Session) (id : Option ℕ)
      → IsGood device transport n s
      → IsGood device transport n (resolve_id s id)
  resolve_id-Good s none good = good
  resolve_id-Good s (some id) good = record {
    is_device = good.is_device;
    is_transport = good.is_transport;
    has_app = good.has_app;
    is_queued = good.is_queued;
    is_unique = (operations-IsUnique s.pending (id % 2 ^ 32) 0 good.is_unique).1;
    is_id = good.is_id;
    is_small =
        unfold resolve in
        omega (arith, length-without_le (id % 2 ^ 32) s.pending.pending, good.is_small);
  }

  IsSome-replace {ℓ} : {A : Type ℓ} (new old : Option A) → IsSome old → IsSome (replace new old)
  IsSome-replace none old h = h
  IsSome-replace (some a) old h = tt

  HasApp-replace :
      (phase : Phase) (t t' s s' : Option Text)
      → HasApp phase t s
      → HasApp phase (replace t' t) (replace s' s)
  HasApp-replace ready t t' s s' (a, b) = (IsSome-replace t' t a, IsSome-replace s' s b)
  HasApp-replace streaming t t' s s' (a, b) = (IsSome-replace t' t a, IsSome-replace s' s b)
  HasApp-replace connected t t' s s' h = tt
  HasApp-replace launching t t' s s' h = tt
  HasApp-replace disconnected t t' s s' h = h
  HasApp-replace connecting t t' s s' h = h
  HasApp-replace teardown t t' s s' h = h

  become_ready-Routed :
      (s : Session) (transport_id session_id : Option Text)
      → s.transport_id ≡ transport_id
      → s.session_id ≡ session_id
      → IsGood device transport n s
      → IsRouted device transport n (become_ready s transport_id session_id).0
  unfolding become_ready
  become_ready-Routed s none session_id e f good = good→routed s good
  become_ready-Routed s (some t) none e f good = good→routed s good
  become_ready-Routed s (some t) (some i) e f good = elim (Bool-cases (is_launching s.phase)) [
    | inl now ↦ rw now (
      record {
        is_device = good.is_device;
        is_transport = good.is_transport;
        has_app = rw (e, f) (tt, tt);
        is_queued = tt;
        is_unique = good.is_unique;
        is_id = good.is_id;
        is_small = good.is_small;
      },
      λ absent. cc,
    )
    | inr other ↦ rw other (good→routed s good)
  ]

  apply_receiver_status-Routed :
      (s : Session) (status : ReceiverStatus)
      → IsGood device transport n s
      → IsRouted device transport n (apply_receiver_status s status).0
  unfolding apply_receiver_status
  apply_receiver_status-Routed s status good =
      become_ready-Routed
        (record s {
          transport_id = replace status.transport_id s.transport_id;
          session_id = replace status.session_id s.session_id;
        })
        (replace status.transport_id s.transport_id) (replace status.session_id s.session_id) refl
        refl
        (record {
          is_device = good.is_device;
          is_transport = good.is_transport;
          has_app =
              HasApp-replace s.phase s.transport_id status.transport_id s.session_id
                status.session_id good.has_app;
          is_queued = good.is_queued;
          is_unique = good.is_unique;
          is_id = good.is_id;
          is_small = good.is_small;
        })

  receiver_action-Routed :
      (s : Session) (status : Option ReceiverStatus)
      → IsGood device transport n s
      → IsRouted device transport n (receiver_action s status).0
  receiver_action-Routed s none good = good→routed s good
  receiver_action-Routed s (some status) good = apply_receiver_status-Routed s status good

  route_type-Routed :
      (kind : Text) (s : Session) (json : Value)
      → IsGood device transport n s
      → IsRouted device transport n (route_type kind s json).0
  unfolding route_type correlate
  route_type-Routed kind s json good = elim (Bool-cases (text_eq kind (codes "PONG"))) [
    | inl e ↦ rw e (good→routed s good)
    | inr e ↦ elim (Bool-cases (text_eq kind (codes "RECEIVER_STATUS"))) [
      | inl f ↦
          rw (e, f)
            (receiver_action-Routed (correlate s json) (parse_receiver_status (some json))
              (correlated json))
      | inr f ↦ elim (Bool-cases (text_eq kind (codes "MEDIA_STATUS"))) [
        | inl g ↦ rw (e, f, g) (good→routed (correlate s json) (correlated json))
        | inr g ↦ rw (e, f, g) (good→routed s good)
      ]
    ]
  ]
    where
      correlated : (json : Value) → IsGood device transport n (correlate s json)
      correlated json = resolve_id-Good s (get (codes "requestId") json >>= as_u64) good

  route_kind-Routed :
      (kind : Option Text) (s : Session) (json : Value)
      → IsGood device transport n s
      → IsRouted device transport n (route_kind kind s json).0
  route_kind-Routed none s json good = good→routed s good
  route_kind-Routed (some kind) s json good = route_type-Routed kind s json good

  route_json-Routed :
      (s : Session) (json : Option Value)
      → IsGood device transport n s
      → IsRouted device transport n (route_json s json).0
  route_json-Routed s none good = good→routed s good
  route_json-Routed s (some json) good =
      route_kind-Routed (get (codes "type") json >>= as_str) s json good

  route_decoded-Routed :
      (from_str : Text → Option Value) (s : Session) (message : Result CastMessage)
      → IsGood device transport n s
      → IsRouted device transport n (route_decoded from_str s message).0
  route_decoded-Routed from_str s (ok message) good =
      route_json-Routed s (from_str message.payload_utf8) good
  route_decoded-Routed from_str s (err e) good = good→routed s good
  route_decoded-Routed from_str s stuck good = good→routed s good

  pub route_inbound-Routed :
      (from_str : Text → Option Value) (s : Session) (payload : List ℕ)
      → IsGood device transport n s
      → IsRouted device transport n (route_inbound from_str s payload).0
  unfolding route_inbound
  route_inbound-Routed from_str s payload good =
      route_decoded-Routed from_str s (decode_cast_message payload) good
