-- ===== src/Cast/RequestId/Map.antt =====
-- The laws of the pending map, through `is_pending`.
use cast_app.Common.{
  ℕ, ◌+◌, ◌≡◌, refl, Option, none, some, Bool, true, false, List, [], ◌∷◌, length, leb, ◌==◌,
  if◌then◌else◌, arith, Bool-cases, inl, inr,
}
use cast_app.Cast.RequestId.{
  PendingMap, Entries, contains_key, without, is_pending, insert, resolve, retain, expire,
}

-- A key stands once in a `HashMap`.
abbrev pub IsUnique : Entries → Type 0
IsUnique [] = Unit {0}
IsUnique ((k, sent_at) ∷ es) = (contains_key k es ≡ false) × IsUnique es

pub contains_key-without :
    (id j : ℕ) (es : Entries)
    → IsUnique es
    → contains_key j (without id es) ≡ (if id == j then false else contains_key j es)
unfolding contains_key without
contains_key-without id j [] u = ground arith
contains_key-without id j ((k, sent_at) ∷ es) (fresh, u) =
    ground (arith, contains_key-without id j es u)

pub length-without :
    (id : ℕ) (es : Entries) → contains_key id es ≡ true → length (without id es) + 1 ≡ length es
unfolding contains_key without
length-without id [] h = cc
length-without id ((k, sent_at) ∷ es) h = ground (arith, length-without id es)

pub without-IsUnique : (id : ℕ) (es : Entries) → IsUnique es → IsUnique (without id es)
unfolding without
without-IsUnique id [] u = tt
without-IsUnique id ((k, sent_at) ∷ es) (fresh, u) = elim (Bool-cases (k == id)) [
  | inl same ↦ rw same u
  | inr other ↦ rw other (ground (arith, contains_key-without id k es u), without-IsUnique id es u)
]

-- When the request was sent, if it is outstanding.
unfoldable pub sent_time : ℕ → Entries → Option ℕ
sent_time id [] = none
sent_time id ((k, sent_at) ∷ es) = if k == id then some sent_at else sent_time id es

unfoldable pub elem : ℕ → List ℕ → Bool
elem j [] = false
elem j (k ∷ ks) = if k == j then true else elem j ks

pub sent_time-none : (id : ℕ) (es : Entries) → contains_key id es ≡ false → sent_time id es ≡ none
unfolding contains_key sent_time
sent_time-none id [] h = refl
sent_time-none id ((k, sent_at) ∷ es) h = ground (arith, sent_time-none id es)

-- What the deadline leaves of a send time, and whether it has passed.
abbrev pub unexpired : ℕ → ℕ → Option ℕ → Option ℕ
unexpired now timeout none = none
unexpired now timeout (some sent_at) = if leb (sent_at + timeout) now then none else some sent_at

abbrev pub overdue : ℕ → ℕ → Option ℕ → Bool
overdue now timeout none = false
overdue now timeout (some sent_at) = leb (sent_at + timeout) now

retain_lem :
    (now timeout id : ℕ) (es : Entries)
    → IsUnique es
    → (sent_time id (retain now timeout es).0 ≡ unexpired now timeout (sent_time id es))
      × (elem id (retain now timeout es).1 ≡ overdue now timeout (sent_time id es))
unfolding retain sent_time elem
retain_lem now timeout id [] u = (refl, refl)
retain_lem now timeout id ((k, sent_at) ∷ es) (fresh, u) =
    let (kept, gone) = retain_lem now timeout id es u in
    (
      ground (arith, kept, gone, fresh, sent_time-none k es fresh),
      ground (arith, kept, gone, fresh, sent_time-none k es fresh),
    )

-- `expire` keeps exactly the requests whose deadline lies ahead, with their send times, and returns
-- exactly the IDs of the others.
pub expire_lem :
    (m : PendingMap) (now id : ℕ)
    → IsUnique m.pending
    → (sent_time id (expire m now).0.pending ≡ unexpired now m.timeout (sent_time id m.pending))
      × (elem id (expire m now).1 ≡ overdue now m.timeout (sent_time id m.pending))
unfolding expire
expire_lem m now id u = retain_lem now m.timeout id m.pending u

retain-contains_key :
    (now timeout id : ℕ) (es : Entries)
    → contains_key id es ≡ false
    → contains_key id (retain now timeout es).0 ≡ false
unfolding retain contains_key
retain-contains_key now timeout id [] h = refl
retain-contains_key now timeout id ((k, sent_at) ∷ es) h =
    ground (arith, retain-contains_key now timeout id es)

retain-IsUnique :
    (now timeout : ℕ) (es : Entries) → IsUnique es → IsUnique (retain now timeout es).0
unfolding retain
retain-IsUnique now timeout [] u = tt
retain-IsUnique now timeout ((k, sent_at) ∷ es) (fresh, u) =
    elim (Bool-cases (leb (sent_at + timeout) now)) [
      | inl gone ↦ rw gone (retain-IsUnique now timeout es u)
      | inr kept ↦
          rw kept (retain-contains_key now timeout k es fresh, retain-IsUnique now timeout es u)
    ]

pub operations-IsUnique :
    (m : PendingMap) (id now : ℕ)
    → IsUnique m.pending
    → IsUnique (insert m id now).0.pending
      × IsUnique (resolve m id).0.pending
      × IsUnique (expire m now).0.pending
unfolding insert resolve expire
operations-IsUnique m id now u =
    (insert-IsUnique, without-IsUnique id m.pending u, retain-IsUnique now m.timeout m.pending u)
  where
    insert-IsUnique : IsUnique (insert m id now).0.pending
    insert-IsUnique = elim (Bool-cases (contains_key id m.pending)) [
      | inl old ↦ rw old u
      | inr fresh ↦ rw fresh (fresh, u)
    ]

-- A response resolves its request once: `resolve` says whether the ID was pending, and afterwards it
-- is not, while all other IDs are as before.
pub resolve_lem :
    (m : PendingMap) (id j : ℕ)
    → IsUnique m.pending
    → ((resolve m id).1 ≡ is_pending m id)
      × (is_pending (resolve m id).0 j ≡ (if id == j then false else is_pending m j))
unfolding resolve is_pending
resolve_lem m id j u = (refl, contains_key-without id j m.pending u)
