-- ===== src/Util/Backpressure/Examples.antt =====
-- Runs of src/util/backpressure.rs, and its theorems at concrete inputs.
use cast_app.Common.{ℕ, ◌≡◌, refl, none, some, Bool, [], ◌∷◌, ◌++◌, leb, arith}
use cast_app.Util.Backpressure.{
  BoundedDropOldest, push, push_or, evict_or, position, remove, clear, try_pop,
}
use cast_app.Util.Backpressure.Bounded.{IsBounded, operations-IsBounded}
use cast_app.Util.Backpressure.Newest.{newest, push_all, push_all-newest}
use cast_app.Util.Backpressure.Protected.{keepers, returned, push_or-keepers}

abbrev three : BoundedDropOldest ℕ
three = record { items = 5 ∷ 20 ∷ 7 ∷ []; capacity = 3 }

-- Items of 10 and more may go.
abbrev large : ℕ → Bool
large n = leb 10 n

evicts_only_large : push_or three 8 large ≡ (record { items = 5 ∷ 7 ∷ 8 ∷ []; capacity = 3 }, none)
unfolding push_or position evict_or remove
evicts_only_large = refl

returns_when_all_kept :
    push_or (record { items = 5 ∷ []; capacity = 1 }) 8 large
    ≡ (record { items = 5 ∷ []; capacity = 1 }, some 8)
unfolding push_or position evict_or remove
returns_when_all_kept = refl

operations-IsBounded_example :
    IsBounded (push three 8)
    × IsBounded (push_or three 8 large).0
    × IsBounded (try_pop three).0
    × IsBounded (clear three)
operations-IsBounded_example = operations-IsBounded three 8 large (omega arith, omega arith)

push_all-newest_example :
    push_all {A = ℕ} (record { items = newest 2 (4 ∷ []); capacity = 2 }) (5 ∷ 6 ∷ [])
    ≡ record { items = newest 2 (4 ∷ 5 ∷ 6 ∷ []); capacity = 2 }
push_all-newest_example = push_all-newest 2 (4 ∷ []) (5 ∷ 6 ∷ []) (omega arith)

push_or-keepers_example :
    keepers large (push_or three 8 large).0.items
      ++ keepers large (returned large (push_or three 8 large).1)
    ≡ keepers large (5 ∷ 20 ∷ 7 ∷ 8 ∷ [])
push_or-keepers_example = push_or-keepers large three 8
