-- ===== src/Util/Backpressure.antt =====
-- src/util/backpressure.rs: the bounded queue that drops its oldest item. The mutex makes each
-- operation one step on the deque.
pub mod Position
pub mod Bounded
pub mod Newest
pub mod Protected
mod Examples
use cast_app.Common.{
  ℕ, zero, suc, Option, none, some, Bool, List, [], ◌∷◌, ◌++◌, length, ltb, leb, ◌==◌,
  if◌then◌else◌,
}

pub record BoundedDropOldest {ℓ} (A : Type ℓ) : Type ℓ where
  pub items : List A
  pub capacity : ℕ

module _ {ℓ} {A : Type ℓ} where
  -- `none` is the panic of the assertion.
  unfoldable pub new : ℕ → Option (BoundedDropOldest A)
  new capacity = if ltb 0 capacity then some (record { items = []; capacity = capacity }) else none

  -- `VecDeque::pop_front`, the deque that is left.
  abbrev pub tail : List A → List A
  tail [] = []
  tail (x ∷ xs) = xs

  unfoldable pub push : BoundedDropOldest A → A → BoundedDropOldest A
  push q item = record q {
    items = (if leb q.capacity (length q.items) then tail q.items else q.items) ++ (item ∷ []);
  }

  -- `iter().position(evictable)`.
  unfoldable pub position : (A → Bool) → List A → Option ℕ
  position evictable [] = none
  position evictable (x ∷ xs) =
      let later = position evictable xs in
      if evictable x then some 0 else elim later [ none ↦ none | some i ↦ some (suc i) ]

  -- `VecDeque::remove`, the deque that is left.
  unfoldable pub remove : ℕ → List A → List A
  remove i [] = []
  remove zero (x ∷ xs) = xs
  remove (suc i) (x ∷ xs) = x ∷ remove i xs

  unfoldable pub evict_or : BoundedDropOldest A → A → Option ℕ → BoundedDropOldest A × Option A
  unfolding remove
  evict_or q item (some index) = (record q { items = remove index q.items ++ (item ∷ []) }, none)
  evict_or q item none = (q, some item)

  unfoldable pub push_or : BoundedDropOldest A → A → (A → Bool) → BoundedDropOldest A × Option A
  unfolding position evict_or
  push_or q item evictable =
      if ltb (length q.items) q.capacity
      then (record q { items = q.items ++ (item ∷ []) }, none)
      else evict_or q item (position evictable q.items)

  unfoldable pub clear : BoundedDropOldest A → BoundedDropOldest A
  clear q = record q { items = [] }

  abbrev pub front : List A → Option A
  front [] = none
  front (x ∷ xs) = some x

  unfoldable pub try_pop : BoundedDropOldest A → BoundedDropOldest A × Option A
  try_pop q = (record q { items = tail q.items }, front q.items)

  unfoldable pub len : BoundedDropOldest A → ℕ
  len q = length q.items

  unfoldable pub is_empty : BoundedDropOldest A → Bool
  unfolding len
  is_empty q = len q == 0
