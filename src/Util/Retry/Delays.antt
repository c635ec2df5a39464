-- ===== src/Util/Retry/Delays.antt =====
-- What the calls of `next` yield, as a formula.
use cast_app.Common.{
  ℕ, zero, suc, ◌*◌, ◌^◌, ◌≤◌, min, ◌≡◌, refl, ap, ◌∙◌, Option, none, some, ltb, leb, true, false,
  inl, inr, Bool-cases, [], ◌∷◌, get_elem?, arith, if◌then◌else◌,
}
use cast_app.Util.Retry.{Backoff, duration_max, next, take_delays}
use native.Mathlib.Nat.{pow-suc, one-le-pow, mul_assoc}

-- The `i`th delay of a policy that starts at `initial`: doubled `i` times, and capped from the
-- second one on.
unfoldable pub delay : ℕ → ℕ → ℕ → ℕ
delay initial cap zero = initial
delay initial cap (suc i) = min (initial * 2 ^ suc i) cap

next_some :
    (b : Backoff) (n : ℕ)
    → b.remaining ≡ suc n
    → b.cap ≤ duration_max
    → next b ≡ (
      record { next_delay = min (b.next_delay * 2) b.cap; cap = b.cap; remaining = n },
      some b.next_delay,
    )
unfolding next
next_some b n e small = ground arith

next_none : (b : Backoff) → b.remaining ≡ 0 → next b ≡ (b, none)
unfolding next
next_none b e = rw e refl

min_mul_cap : (y cap k : ℕ) → min (min y cap * suc k) cap ≡ min (y * suc k) cap
min_mul_cap y cap k = elim (Bool-cases (leb y cap)) [
  | inl small ↦ ap (λ (t : ℕ). min (t * suc k) cap) (min_left y cap small)
  | inr large ↦
      ap (λ (t : ℕ). min (t * suc k) cap) (min_right y cap large) ∙ both_capped y cap k large
]
  where
    min_left : (y cap : ℕ) → leb y cap ≡ true → min y cap ≡ y
    min_left y cap h = ground arith

    min_right : (y cap : ℕ) → leb y cap ≡ false → min y cap ≡ cap
    min_right y cap h = ground arith

    both_capped : (y cap k : ℕ) → leb y cap ≡ false → min (cap * suc k) cap ≡ min (y * suc k) cap
    both_capped y cap k h = ground arith

-- Doubling and capping once more commutes with the cap.
delay-suc : (initial cap i : ℕ) → delay (min (initial * 2) cap) cap i ≡ delay initial cap (suc i)
unfolding delay
delay-suc initial cap zero = refl
delay-suc initial cap (suc i) =
    at_power (2 ^ suc i) (one-le-pow (suc i) 2 (omega arith)) ∙ ap (λ (t : ℕ). min t cap) doubled
  where
    at_power : (k : ℕ) → 1 ≤ k → min (min (initial * 2) cap * k) cap ≡ min (initial * 2 * k) cap
    at_power zero h = absurd (omega arith)
    at_power (suc k) h = min_mul_cap (initial * 2) cap k

    doubled : initial * 2 * 2 ^ suc i ≡ initial * 2 ^ suc (suc i)
    doubled =
        mul_assoc initial 2 (2 ^ suc i)
        ∙ ap (λ (t : ℕ). initial * t) (omega (arith, pow-suc 2 (suc i)))

round_some :
    (n : ℕ) (b b' : Backoff) (d : ℕ)
    → next b ≡ (b', some d)
    → take_delays (suc n) b ≡ d ∷ take_delays n b'
unfolding take_delays
round_some n b b' d e =
    ap (λ (t : Backoff × Option ℕ). elim t.1 [ none ↦ [] | some d ↦ d ∷ take_delays n t.0 ]) e

round_none : (n : ℕ) (b b' : Backoff) → next b ≡ (b', none) → take_delays (suc n) b ≡ []
unfolding take_delays
round_none n b b' e =
    ap (λ (t : Backoff × Option ℕ). elim t.1 [ none ↦ [] | some d ↦ d ∷ take_delays n t.0 ]) e

-- The policy whose first delay is the one after `b`'s.
abbrev doubled_policy : ℕ → ℕ → ℕ → Backoff
doubled_policy d cap n = record { next_delay = min (d * 2) cap; cap = cap; remaining = n }

-- A policy of `remaining` delays yields exactly that many, then none, and the `i`th is the initial
-- one doubled `i` times and capped, where the first one is not capped, for each cap that a
-- `Duration` can hold.
pub take_delays_lem :
    (n : ℕ) (b : Backoff) (i : ℕ)
    → b.cap ≤ duration_max
    → get_elem? (take_delays n b) i
      ≡ (if ltb i (min n b.remaining) then some (delay b.next_delay b.cap i) else none)
take_delays_lem zero b i small = unfold take_delays in ground arith
take_delays_lem (suc n) b i small =
    on_remaining b.remaining refl i
      (λ r j. take_delays_lem n (doubled_policy b.next_delay b.cap r) j small)
  where
    on_remaining :
        (r : ℕ)
        → b.remaining ≡ r
        → (i : ℕ)
        → ((r j : ℕ)
            → get_elem? (take_delays n (doubled_policy b.next_delay b.cap r)) j ≡ (
                if ltb j (min n r)
                then some (delay (min (b.next_delay * 2) b.cap) b.cap j)
                else none))
        → get_elem? (take_delays (suc n) b) i
          ≡ (if ltb i (min (suc n) b.remaining) then some (delay b.next_delay b.cap i) else none)
    on_remaining zero e i later = rw (round_none n b b (next_none b e), e) (ground arith)
    on_remaining (suc r) e zero later =
        rw
          (
            round_some n b (doubled_policy b.next_delay b.cap r) b.next_delay
                (next_some b r e small),
            e,
          )
          (unfold delay in ground arith)
    on_remaining (suc r) e (suc i) later =
        rw
          (
            round_some n b (doubled_policy b.next_delay b.cap r) b.next_delay
                (next_some b r e small),
            e,
          )
          (ground (arith, later r i, delay-suc b.next_delay b.cap i))
