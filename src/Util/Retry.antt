-- ===== src/Util/Retry.antt =====
-- src/util/retry.rs: the iterator of reconnect delays. A `Duration` is a number of nanoseconds.
pub mod Delays
mod Examples
use cast_app.Common.{
  ℕ, zero, suc, ◌+◌, ◌-◌, ◌*◌, ◌^◌, min, Option, none, some, List, [], ◌∷◌, ltb, ◌==◌,
  if◌then◌else◌,
}

abbrev pub nanos_per_sec : ℕ
nanos_per_sec = 1000000000

-- `Duration::MAX`: a u64 of seconds and a billion less one of nanoseconds.
abbrev pub duration_max : ℕ
duration_max = (2 ^ 64 - 1) * nanos_per_sec + (nanos_per_sec - 1)

abbrev pub default_initial : ℕ
default_initial = 1 * nanos_per_sec

abbrev pub default_cap : ℕ
default_cap = 30 * nanos_per_sec

abbrev pub default_max : ℕ
default_max = 5

pub record Backoff : Type 0 where
  pub next_delay : ℕ
  pub cap : ℕ
  pub remaining : ℕ

unfoldable pub with_params : ℕ → ℕ → ℕ → Backoff
with_params initial cap max = record { next_delay = initial; cap = cap; remaining = max }

unfoldable pub new : Backoff
unfolding with_params
new = with_params default_initial default_cap default_max

unfoldable pub saturating_mul : ℕ → ℕ → ℕ
saturating_mul d k = min (d * k) duration_max

-- `Iterator::next`.
unfoldable pub next : Backoff → Backoff × Option ℕ
unfolding saturating_mul
next b = if b.remaining == 0 then (b, none) else (
  record b { remaining = b.remaining - 1; next_delay = min (saturating_mul b.next_delay 2) b.cap },
  some b.next_delay,
)

-- The delays that `n` calls of `next` yield.
unfoldable pub take_delays : ℕ → Backoff → List ℕ
take_delays zero b = []
take_delays (suc n) b =
    let rest = take_delays n (next b).0 in elim (next b).1 [ none ↦ [] | some d ↦ d ∷ rest ]
