-- ===== src/Util/Backpressure/Protected.antt =====
-- `push_or` and the items that its predicate protects.
use cast_app.Common.{
  ℕ, ◌≡◌, refl, sym, ap, ◌∙◌, Option, none, some, Bool, List, [], ◌∷◌, ◌++◌, append-nil, length,
  ltb, if◌then◌else◌, Bool-cases, inl, inr,
}
use cast_app.Util.Backpressure.Position.{position_split}
use cast_app.Util.Backpressure.{BoundedDropOldest, push_or, evict_or, position, remove}

module _ {ℓ} {A : Type ℓ} (evictable : A → Bool) where
  -- The items that may not be evicted.
  unfoldable pub keepers : List A → List A
  keepers [] = []
  keepers (x ∷ xs) = if evictable x then keepers xs else x ∷ keepers xs

  abbrev pub returned : Option A → List A
  returned none = []
  returned (some x) = x ∷ []

  keepers-append : (xs ys : List A) → keepers (xs ++ ys) ≡ keepers xs ++ keepers ys
  unfolding keepers
  keepers-append [] ys = refl
  keepers-append (x ∷ xs) ys = elim (Bool-cases (evictable x)) [
    | inl e ↦ rw e (keepers-append xs ys)
    | inr e ↦ rw e (ap (λ t. x ∷ t) (keepers-append xs ys))
  ]

  keepers-remove :
      (xs : List A) (i : ℕ) → position evictable xs ≡ some i → keepers (remove i xs) ≡ keepers xs
  unfolding keepers remove
  keepers-remove [] i h = unfold position in cc
  keepers-remove (x ∷ xs) i h = elim (position_split evictable x xs i h) [
    | inl (found, e) ↦ rw (e, found) refl
    | inr (kept, (j, at_j, e)) ↦ rw (e, kept) (ap (λ t. x ∷ t) (keepers-remove xs j at_j))
  ]

  evict_or_lem :
      (q : BoundedDropOldest A) (x : A) (found : Option ℕ)
      → ((i : ℕ) → found ≡ some i → keepers (remove i q.items) ≡ keepers q.items)
      → keepers (evict_or q x found).0.items ++ keepers (returned (evict_or q x found).1)
        ≡ keepers q.items ++ keepers (x ∷ [])
  unfolding evict_or keepers
  evict_or_lem q x none same = refl
  evict_or_lem q x (some i) same =
      append-nil (keepers (remove i q.items ++ (x ∷ [])))
      ∙ keepers-append (remove i q.items) (x ∷ [])
      ∙ ap (λ t. t ++ keepers (x ∷ [])) (same i refl)

  -- The protected items after `push_or`, in the queue and handed back, are those of the queue before
  -- and the pushed one, in order.
  pub push_or-keepers :
      (q : BoundedDropOldest A) (x : A)
      → keepers (push_or q x evictable).0.items ++ keepers (returned (push_or q x evictable).1)
        ≡ keepers (q.items ++ (x ∷ []))
  unfolding push_or keepers
  push_or-keepers q x = elim (Bool-cases (ltb (length q.items) q.capacity)) [
    | inl room ↦ rw room (append-nil (keepers (q.items ++ (x ∷ []))))
    | inr full ↦ rw full (
        evict_or_lem q x (position evictable q.items) (keepers-remove q.items)
        ∙ sym (keepers-append q.items (x ∷ [])))
  ]
