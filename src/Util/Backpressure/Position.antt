-- ===== src/Util/Backpressure/Position.antt =====
-- Where `position` finds an item.
use cast_app.Common.{
  ℕ, suc, ◌≡◌, ◌⊎◌, some, Bool, true, false, List, ◌∷◌, Bool-cases, Option-cases, inl, inr, arith,
}
use cast_app.Util.Backpressure.{position}

module _ {ℓ} {A : Type ℓ} where
  -- The first item, or a position in the others.
  pub position_split :
      (evictable : A → Bool) (x : A) (xs : List A) (i : ℕ)
      → position evictable (x ∷ xs) ≡ some i
      → ((evictable x ≡ true) × (i ≡ 0))
        ⊎ ((evictable x ≡ false) × ((j : ℕ) × (position evictable xs ≡ some j) × (i ≡ suc j)))
  unfolding position
  position_split evictable x xs i h = elim (Bool-cases (evictable x)) [
    | inl found ↦ inl (found, ground arith)
    | inr kept ↦ elim (Option-cases (position evictable xs)) [
      | inl e ↦ absurd (ground arith)
      | inr (j, e) ↦ inr (kept, (j, e, ground arith))
    ]
  ]
