-- ===== src/Util/Backpressure/Bounded.antt =====
-- The length of the queue and its capacity.
use cast_app.Common.{
  ℕ, zero, suc, ◌+◌, ◌-◌, ◌≤◌, ◌<◌, ◌≡◌, refl, Option, none, some, Bool, List, [], ◌∷◌, length, ltb,
  leb, length-append, Bool-cases, inl, inr, arith,
}
use cast_app.Util.Backpressure.Position.{position_split}
use cast_app.Util.Backpressure.{
  BoundedDropOldest, push, push_or, evict_or, position, remove, clear, try_pop, tail,
}

-- The invariant that `new` establishes.
abbrev pub IsBounded {ℓ} : {A : Type ℓ} → BoundedDropOldest A → Type 0
IsBounded q = (0 < q.capacity) × (length q.items ≤ q.capacity)

module _ {ℓ} {A : Type ℓ} where
  length-tail : (xs : List A) → length (tail xs) ≡ length xs - 1
  length-tail [] = omega arith
  length-tail (x ∷ xs) = omega arith

  -- A position that is found lies in the list.
  pub position_bound :
      (evictable : A → Bool) (xs : List A) (i : ℕ) → position evictable xs ≡ some i → i < length xs
  position_bound evictable [] i h = unfold position in cc
  position_bound evictable (x ∷ xs) i h = elim (position_split evictable x xs i h) [
    | inl (found, e) ↦ omega arith
    | inr (kept, (j, at_j, e)) ↦ omega (arith, position_bound evictable xs j at_j)
  ]

  pub length-remove : (i : ℕ) (xs : List A) → i < length xs → length (remove i xs) + 1 ≡ length xs
  unfolding remove
  length-remove i [] h = absurd (omega arith)
  length-remove zero (x ∷ xs) h = omega arith
  length-remove (suc i) (x ∷ xs) h = omega (arith, length-remove i xs (omega arith))

  push-IsBounded : (q : BoundedDropOldest A) (x : A) → IsBounded q → IsBounded (push q x)
  unfolding push
  push-IsBounded q x (positive, fits) = elim (Bool-cases (leb q.capacity (length q.items))) [
    | inl full ↦
        rw full
          (positive, omega (arith, length-append (tail q.items) (x ∷ []), length-tail q.items))
    | inr room ↦ rw room (positive, ground (arith, length-append q.items (x ∷ [])))
  ]

  evict_or-IsBounded :
      (q : BoundedDropOldest A) (x : A) (found : Option ℕ)
      → IsBounded q
      → ((i : ℕ) → found ≡ some i → i < length q.items)
      → IsBounded (evict_or q x found).0
  unfolding evict_or
  evict_or-IsBounded q x none (positive, fits) inside = (positive, fits)
  evict_or-IsBounded q x (some i) (positive, fits) inside = (
    positive,
    omega
        (arith, length-append (remove i q.items) (x ∷ []), length-remove i q.items (inside i refl)),
  )

  push_or-IsBounded :
      (q : BoundedDropOldest A) (x : A) (evictable : A → Bool)
      → IsBounded q
      → IsBounded (push_or q x evictable).0
  unfolding push_or
  push_or-IsBounded q x evictable (positive, fits) =
      elim (Bool-cases (ltb (length q.items) q.capacity)) [
        | inl room ↦ rw room (positive, ground (arith, length-append q.items (x ∷ [])))
        | inr full ↦ rw full (
            evict_or-IsBounded q x (position evictable q.items) (positive, fits)
              (position_bound evictable q.items))
      ]

  -- From a queue within a positive capacity, `push`, `push_or`, `try_pop` and `clear` leave a queue
  -- within that capacity.
  pub operations-IsBounded :
      (q : BoundedDropOldest A) (x : A) (evictable : A → Bool)
      → IsBounded q
      → IsBounded (push q x)
        × IsBounded (push_or q x evictable).0
        × IsBounded (try_pop q).0
        × IsBounded (clear q)
  unfolding try_pop clear
  operations-IsBounded q x evictable h = (
    push-IsBounded q x h,
    push_or-IsBounded q x evictable h,
    (h.0, omega (arith, length-tail q.items, h.1)),
    (h.0, omega arith),
  )
