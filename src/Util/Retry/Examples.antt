-- ===== src/Util/Retry/Examples.antt =====
-- Runs of src/util/retry.rs, and its theorem at a concrete input.
use cast_app.Common.{
  ℕ, ◌*◌, min, ◌≡◌, refl, some, none, List, [], ◌∷◌, map, get_elem?, ltb, if◌then◌else◌, arith,
}
use cast_app.Util.Retry.{nanos_per_sec, Backoff, new, with_params, next, take_delays}
use cast_app.Util.Retry.Delays.{delay, take_delays_lem}

abbrev seconds : List ℕ → List ℕ
seconds = map (λ s. s * nanos_per_sec)

-- The module's own comment: 1, 2, 4, 8 and 16 seconds.
default_sequence : take_delays 7 new ≡ seconds (1 ∷ 2 ∷ 4 ∷ 8 ∷ 16 ∷ [])
unfolding take_delays next new
default_sequence = refl

-- `cap_is_enforced` and, for the initial delay, its absence.
cap_spares_first :
    take_delays 4 (with_params (20 * nanos_per_sec) (10 * nanos_per_sec) 3)
    ≡ seconds (20 ∷ 10 ∷ 10 ∷ [])
unfolding take_delays next with_params
cap_spares_first = refl

abbrev four : Backoff
four = record { next_delay = 10; cap = 15; remaining = 3 }

take_delays_lem_example :
    get_elem? (take_delays 5 four) 2 ≡ (if ltb 2 (min 5 3) then some (delay 10 15 2) else none)
take_delays_lem_example = take_delays_lem 5 four 2 (omega arith)
