-- ===== src/Cast/RequestId/Allocate.antt =====
-- `allocate`: the IDs that it hands out, and the end of its loop.
use cast_app.Common.{
  ℕ, zero, suc, ◌+◌, ◌-◌, ◌%◌, ◌≤◌, ◌<◌, ◌≡◌, ◌≢◌, refl, sym, ◌∙◌, true, false, length, ◌==◌,
  if◌then◌else◌, arith, Bool-cases, inl, inr,
}
use cast_app.Cast.RequestId.{
  u32_max, RequestId, PendingMap, Entries, contains_key, without, is_pending, advance, Allocated,
  allocated, exhausted, out_of_fuel, allocate_loop, allocate, len,
}
use cast_app.Cast.RequestId.Map.{IsUnique, contains_key-without, length-without, without-IsUnique}

-- The ID that stands `j` places behind `start` in the cycle of nonzero IDs.
nth : ℕ → ℕ → ℕ
nth start j = (start - 1 + j) % u32_max + 1

-- An ID that the sequence may stand at.
abbrev pub IsId : ℕ → Type 0
IsId id = (1 ≤ id) × (id ≤ u32_max)

advance-IsId : (id : ℕ) → IsId id → IsId (advance id)
unfolding advance
advance-IsId id h = (ground arith, ground arith)

advance-nth : (start j : ℕ) → IsId start → advance (nth start j) ≡ nth start (j + 1)
unfolding advance nth
advance-nth start j h = ground arith

nth_injective :
    (start i j : ℕ) → IsId start → i < u32_max → j < u32_max → nth start i ≡ nth start j → i ≡ j
unfolding nth
nth_injective start i j h hi hj e = omega arith

nth-start : (start : ℕ) → IsId start → nth start 0 ≡ start
unfolding nth
nth-start start h = omega arith

-- A result that `allocate` promises.
abbrev pub IsFresh : PendingMap → Allocated → Type 0
IsFresh m (allocated id ids) = IsId id × (is_pending m id ≡ false) × IsId ids.next
IsFresh m exhausted = ⊥
IsFresh m out_of_fuel = ⊥

nth-IsId : (start j : ℕ) → IsId (nth start j)
unfolding nth
nth-IsId start j = omega arith

round_free :
    (fuel start next : ℕ) (m : PendingMap)
    → is_pending m next ≡ false
    → allocate_loop (suc fuel) start next m ≡ allocated next (record { next = advance next })
unfolding allocate_loop
round_free fuel start next m e = rw e refl

round_taken :
    (fuel start next : ℕ) (m : PendingMap)
    → is_pending m next ≡ true
    → advance next ≢ start
    → allocate_loop (suc fuel) start next m ≡ allocate_loop fuel start (advance next) m
unfolding allocate_loop
round_taken fuel start next m e h = rw e (ground arith)

-- `ps` holds the pending IDs that the loop has not met yet.
loop-IsFresh :
    (fuel j start : ℕ) (m : PendingMap) (ps : Entries)
    → IsId start
    → IsUnique ps
    → ((i : ℕ) → j ≤ i → i < u32_max → is_pending m (nth start i) ≡ contains_key (nth start i) ps)
    → length ps < fuel
    → j + length ps < u32_max
    → IsFresh m (allocate_loop fuel start (nth start j) m)
loop-IsFresh zero j start m ps id u cover enough room = absurd (omega arith)
loop-IsFresh (suc fuel) j start m ps id u cover enough room =
    elim (Bool-cases (is_pending m (nth start j))) [
      | inl busy ↦
          let in_ps = sym (cover j (omega arith) (omega arith)) ∙ busy in
          let shorter = length-without (nth start j) ps in_ps in
          rw (round_taken fuel start (nth start j) m busy (not_back in_ps), advance-nth start j id)
            (loop-IsFresh fuel (j + 1) start m (without (nth start j) ps) id
              (without-IsUnique (nth start j) ps u) (others in_ps) (omega arith) (omega arith))
      | inr free ↦
          rw (round_free fuel start (nth start j) m free)
            (nth-IsId start j, free, advance-IsId (nth start j) (nth-IsId start j))
    ]
  where
    not_back : contains_key (nth start j) ps ≡ true → advance (nth start j) ≢ start
    not_back in_ps e = omega (
      arith,
      nth_injective start (j + 1) 0 id (omega (arith, length-without (nth start j) ps in_ps))
          (omega arith) (sym (advance-nth start j id) ∙ e ∙ sym (nth-start start id)),
    )

    others :
        contains_key (nth start j) ps ≡ true
        → (i : ℕ) → j + 1 ≤ i
        → i < u32_max
        → is_pending m (nth start i) ≡ contains_key (nth start i) (without (nth start j) ps)
    others in_ps i lo hi = ground (
      arith,
      cover i (omega arith) hi,
      contains_key-without (nth start j) (nth start i) ps u,
      nth_injective start j i id (omega arith) hi,
    )

-- From a state that `new` and `allocate` leave, and with an ID left to give, `allocate` neither
-- panics nor loops: it returns an ID from 1 to `u32::MAX` that is not pending, and the counter stays
-- in that range.
pub allocate-IsFresh :
    (ids : RequestId) (m : PendingMap)
    → IsId ids.next
    → IsUnique m.pending
    → len m < u32_max
    → IsFresh m (allocate ids m)
allocate-IsFresh ids m id u room = rw (← allocate_round ids m) at fresh
  where
    allocate_round :
        (ids : RequestId) (m : PendingMap)
        → allocate ids m ≡ allocate_loop (suc (len m)) ids.next ids.next m
    allocate_round ids m = unfold allocate in refl

    fresh : IsFresh m (allocate_loop (suc (len m)) ids.next ids.next m)
    fresh = rw (nth-start ids.next id) at (
        loop-IsFresh (suc (len m)) 0 ids.next m m.pending id u
          (λ i lo hi. unfold is_pending in refl) (unfold len in omega arith)
          (unfold len in omega arith))

-- Without pending requests the sequence counts up and wraps from `u32::MAX` to 1.
pub allocate_free :
    (ids : RequestId) (m : PendingMap)
    → is_pending m ids.next ≡ false
    → allocate ids m
      ≡ allocated ids.next (record { next = if ids.next == u32_max then 1 else ids.next + 1 })
unfolding allocate
allocate_free ids m free = rw free refl
