-- ===== src/Util/Backpressure/Newest.antt =====
-- What the plain push keeps.
use cast_app.Common.{
  ℕ, zero, suc, ◌-◌, ◌≤◌, ◌<◌, min, ◌≡◌, refl, sym, ap, ◌∙◌, List, [], ◌∷◌, ◌++◌, append_assoc,
  append-nil, length, drop, leb, Bool-cases, inl, inr, if◌then◌else◌, length-append, length-drop,
  arith,
}
use cast_app.Util.Backpressure.{BoundedDropOldest, push, tail}

-- The last `n` items.
unfoldable pub newest {ℓ} : {A : Type ℓ} → ℕ → List A → List A
newest n xs = drop (length xs - n) xs

-- A producer that pushes one item after the other.
unfoldable pub push_all {ℓ} : {A : Type ℓ} → BoundedDropOldest A → List A → BoundedDropOldest A
push_all q [] = q
push_all q (x ∷ xs) = push_all (push q x) xs

module _ {ℓ} {A : Type ℓ} where
  drop-snoc :
      (n : ℕ) (xs : List A) (x : A)
      → n ≤ length xs
      → drop n (xs ++ (x ∷ [])) ≡ drop n xs ++ (x ∷ [])
  drop-snoc zero xs x h = refl
  drop-snoc (suc n) [] x h = absurd (omega arith)
  drop-snoc (suc n) (y ∷ xs) x h = drop-snoc n xs x (omega arith)

  drop_one-drop : (n : ℕ) (xs : List A) → drop 1 (drop n xs) ≡ drop (suc n) xs
  drop_one-drop zero xs = refl
  drop_one-drop (suc n) [] = refl
  drop_one-drop (suc n) (x ∷ xs) = drop_one-drop n xs

  tail-drop : (xs : List A) → tail xs ≡ drop 1 xs
  tail-drop [] = refl
  tail-drop (x ∷ xs) = refl

  newest_all : (n : ℕ) (xs : List A) → length xs ≤ n → newest n xs ≡ xs
  unfolding newest
  newest_all n xs h = ap (λ (k : ℕ). drop k xs) {y = 0} (omega arith)

  length-newest : (n : ℕ) (xs : List A) → length (newest n xs) ≡ min n (length xs)
  unfolding newest
  length-newest n xs = omega (arith, length-drop (length xs - n) xs)

  -- The oldest of the newest goes when another item comes.
  tail-newest :
      (size : ℕ) (xs : List A) (x : A)
      → size ≤ length xs
      → 0 < size
      → tail (newest size xs) ++ (x ∷ []) ≡ newest size (xs ++ (x ∷ []))
  unfolding newest
  tail-newest size xs x large positive =
      ap (λ t. t ++ (x ∷ []))
        (tail-drop (drop (length xs - size) xs) ∙ drop_one-drop (length xs - size) xs)
      ∙ sym (drop-snoc (suc (length xs - size)) xs x (omega arith))
      ∙ ap (λ (k : ℕ). drop k (xs ++ (x ∷ []))) {x = suc (length xs - size)}
          {y = length (xs ++ (x ∷ [])) - size} (omega (arith, length-append xs (x ∷ [])))

  -- The items after a push onto the newest ones.
  after_push :
      (size : ℕ) (xs : List A) (x : A)
      → 0 < size
      → (if leb size (length (newest size xs)) then tail (newest size xs) else newest size xs)
          ++ (x ∷ [])
        ≡ newest size (xs ++ (x ∷ []))
  after_push size xs x positive = elim (Bool-cases (leb size (length (newest size xs)))) [
    | inl full ↦ rw full (tail-newest size xs x (ground (arith, length-newest size xs)) positive)
    | inr room ↦ rw room (
        ap (λ t. t ++ (x ∷ [])) (newest_all size xs (ground (arith, length-newest size xs)))
        ∙ sym (
            newest_all size (xs ++ (x ∷ []))
              (ground (arith, length-newest size xs, length-append xs (x ∷ [])))))
  ]

  -- One push onto a list that is already cut to its newest items.
  push-newest :
      (size : ℕ) (xs : List A) (x : A)
      → 0 < size
      → push (record { items = newest size xs; capacity = size }) x
        ≡ record { items = newest size (xs ++ (x ∷ [])); capacity = size }
  unfolding push
  push-newest size xs x positive =
      ap (λ t. record { items = t; capacity = size }) (after_push size xs x positive)

  -- A queue of positive capacity that holds the newest of the items `xs` pushed so far holds, after
  -- any further pushes, the newest `capacity` of all items in their order.
  pub push_all-newest :
      (size : ℕ) (xs ys : List A)
      → 0 < size
      → push_all (record { items = newest size xs; capacity = size }) ys
        ≡ record { items = newest size (xs ++ ys); capacity = size }
  unfolding push_all
  push_all-newest size xs [] positive =
      ap (λ t. record { items = newest size t; capacity = size }) (sym (append-nil xs))
  push_all-newest size xs (y ∷ ys) positive =
      ap (λ t. push_all t ys) (push-newest size xs y positive)
      ∙ push_all-newest size (xs ++ (y ∷ [])) ys positive
      ∙ ap (λ t. record { items = newest size t; capacity = size }) (append_assoc xs (y ∷ []) ys)
