-- ===== src/Cast/Namespaces/Address.antt =====
-- The media destination: which IDs are UUIDs, and the destinations of two transports.
use cast_app.Common.{
  ◌≡◌, refl, sym, ap, ◌∙◌, true, false, ◌++◌, length, drop, ◌==◌, Bool-cases, inl, inr,
}
use cast_app.Common.Text.{Text, codes}
use cast_app.Cast.Namespaces.{is_uuid_transport_id, media_destination_id}

-- "transport-" is no start of a UUID.
prefixed_not_uuid : (id : Text) → is_uuid_transport_id (codes "transport-" ++ id) ≡ false
unfolding is_uuid_transport_id
prefixed_not_uuid id = elim (Bool-cases (length (codes "transport-" ++ id) == 36)) [
  | inl e ↦ rw e refl
  | inr e ↦ rw e refl
]

prefix_cancel : (a b : Text) → codes "transport-" ++ a ≡ codes "transport-" ++ b → a ≡ b
prefix_cancel a b e = ap (drop 10) e

not_both : (a b : Text) → is_uuid_transport_id a ≡ true → a ≡ codes "transport-" ++ b → false ≡ true
not_both a b u e = sym (prefixed_not_uuid b) ∙ ap is_uuid_transport_id (sym e) ∙ u

-- Different transport IDs have different media destinations.
media_destination_id_injective :
    (a b : Text) → media_destination_id a ≡ media_destination_id b → a ≡ b
unfolding media_destination_id
media_destination_id_injective a b e = elim (Bool-cases (is_uuid_transport_id a)) [
  | inl ua ↦ elim (Bool-cases (is_uuid_transport_id b)) [
    | inl ub ↦ rw (ua, ub) at e
    | inr ub ↦ absurd (not_equal (not_both a b ua (rw (ua, ub) at e)))
  ]
  | inr ua ↦ elim (Bool-cases (is_uuid_transport_id b)) [
    | inl ub ↦ absurd (not_equal (not_both b a ub (sym (rw (ua, ub) at e))))
    | inr ub ↦ prefix_cancel a b (rw (ua, ub) at e)
  ]
]
  where
    not_equal : false ≡ true → ⊥
    not_equal h = cc
