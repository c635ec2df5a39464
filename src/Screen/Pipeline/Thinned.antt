-- ===== src/Screen/Pipeline/Thinned.antt =====
-- Segments of which whole fragments may be missing.
use cast_app.Common.{
  ℕ, suc, ◌≤◌, ◌<◌, ◌≡◌, refl, ap, Option, none, some, true, false, List, [], ◌∷◌, ◌++◌, length,
  ltb, Bool-cases, Option-cases, inl, inr, arith, append-nil,
}
use mathlib.Core.Path.{subst}
use cast_app.Util.Backpressure.{BoundedDropOldest, push_or, evict_or, position, remove}
use cast_app.Util.Backpressure.Position.{position_split}
use cast_app.Screen.Segments.{EncodedSegment, init_segment, fragment_segment}
use cast_app.Screen.Segments.InitOnce.{inits, inits-append}
use cast_app.Screen.Pipeline.{evictable, push_segment}

-- The second list is the first without some of its fragments, in order; no init segment is missing.
pub data Thinned : List EncodedSegment → List EncodedSegment → Type 0 where
  none_left : Thinned [] []
  kept : {a b : List EncodedSegment} (s : EncodedSegment) → Thinned a b → Thinned (s ∷ a) (s ∷ b)
  dropped :
      {a b : List EncodedSegment} (bytes : List ℕ)
      → Thinned a b
      → Thinned (fragment_segment bytes ∷ a) b

pub Thinned-refl : (a : List EncodedSegment) → Thinned a a
Thinned-refl [] = none_left
Thinned-refl (s ∷ a) = kept s (Thinned-refl a)

pub Thinned-trans : {a b c : List EncodedSegment} → Thinned a b → Thinned b c → Thinned a c
Thinned-trans none_left t = t
Thinned-trans (dropped bytes h) t = dropped bytes (Thinned-trans h t)
Thinned-trans (kept s h) (kept s' t) = kept s (Thinned-trans h t)
Thinned-trans (kept s h) (dropped bytes t) = dropped bytes (Thinned-trans h t)

pub Thinned-append :
    {a b c d : List EncodedSegment} → Thinned a b → Thinned c d → Thinned (a ++ c) (b ++ d)
Thinned-append none_left t = t
Thinned-append (kept s h) t = kept s (Thinned-append h t)
Thinned-append (dropped bytes h) t = dropped bytes (Thinned-append h t)

pub inits-Thinned : {a b : List EncodedSegment} → Thinned a b → inits a ≡ inits b
unfolding inits
inits-Thinned none_left = refl
inits-Thinned (kept (init_segment bytes) h) = ap (λ (n : ℕ). suc n) (inits-Thinned h)
inits-Thinned (kept (fragment_segment bytes) h) = inits-Thinned h
inits-Thinned (dropped bytes h) = inits-Thinned h

remove-Thinned :
    (xs : List EncodedSegment) (i : ℕ) → position evictable xs ≡ some i → Thinned xs (remove i xs)
unfolding remove
remove-Thinned [] i h = unfold position in absurd (cc)
remove-Thinned (init_segment b ∷ xs) i h = elim (position_split evictable (init_segment b) xs i h) [
  | inl (found, e) ↦ absurd (cc)
  | inr (not_found, (j, at_j, e)) ↦ rw e (kept (init_segment b) (remove-Thinned xs j at_j))
]
remove-Thinned (fragment_segment b ∷ xs) i h =
    elim (position_split evictable (fragment_segment b) xs i h) [
      | inl (found, e) ↦ rw e (dropped b (Thinned-refl xs))
      | inr (not_found, (j, at_j, e)) ↦ absurd (cc)
    ]

-- With nothing to evict all are init segments.
all_inits : (xs : List EncodedSegment) → position evictable xs ≡ none → inits xs ≡ length xs
unfolding inits position
all_inits [] h = refl
all_inits (init_segment b ∷ xs) h =
    ap (λ (n : ℕ). suc n) (all_inits xs (none_later (position evictable xs) h))
  where
    none_later :
        (found : Option ℕ)
        → (elim found as (λ x. Option ℕ) [ none ↦ none | some i ↦ some (suc i) ]) ≡ none
        → found ≡ none
    none_later none e = refl
    none_later (some i) e = absurd (cc)
all_inits (fragment_segment b ∷ xs) h = absurd (cc)

module _ (q : BoundedDropOldest EncodedSegment) where
  push_room :
      (s : EncodedSegment)
      → ltb (length q.items) q.capacity ≡ true
      → (push_segment q s).items ≡ q.items ++ (s ∷ [])
  unfolding push_segment push_or
  push_room s h = ground arith

  push_evicts :
      (s : EncodedSegment) (i : ℕ)
      → ltb (length q.items) q.capacity ≡ false
      → position evictable q.items ≡ some i
      → (push_segment q s).items ≡ remove i q.items ++ (s ∷ [])
  unfolding push_segment push_or evict_or
  push_evicts s i h found = ground arith

  push_rejects :
      (s : EncodedSegment)
      → ltb (length q.items) q.capacity ≡ false
      → position evictable q.items ≡ none
      → (push_segment q s).items ≡ q.items
  unfolding push_segment push_or evict_or
  push_rejects s h nothing = ground arith

  without_newest :
      (s : EncodedSegment)
      → 0 < q.capacity
      → q.capacity ≤ length q.items
      → inits q.items ≡ length q.items
      → inits (q.items ++ (s ∷ [])) ≤ 1
      → Thinned (q.items ++ (s ∷ [])) q.items
  unfolding inits
  without_newest (init_segment b) room full e one =
      absurd (omega (arith, inits-append q.items (init_segment b ∷ [])))
  without_newest (fragment_segment b) room full e one =
      subst (Thinned (q.items ++ (fragment_segment b ∷ []))) (append-nil q.items)
        (Thinned-append (Thinned-refl q.items) (dropped b none_left))

  -- With one init segment at most, in the queue or pushed, `push_segment` drops no more than a fragment.
  pub push_segment-Thinned :
      (s : EncodedSegment)
      → 0 < q.capacity
      → inits (q.items ++ (s ∷ [])) ≤ 1
      → Thinned (q.items ++ (s ∷ [])) (push_segment q s).items
  push_segment-Thinned s room one = elim (Bool-cases (ltb (length q.items) q.capacity)) [
    | inl fits ↦ rw (push_room s fits) (Thinned-refl (q.items ++ (s ∷ [])))
    | inr full ↦ elim (Option-cases (position evictable q.items)) [
      | inl nothing ↦
          rw (push_rejects s full nothing)
            (without_newest s room (ground arith) (all_inits q.items nothing) one)
      | inr (i, found) ↦
          rw (push_evicts s i full found)
            (Thinned-append (remove-Thinned q.items i found) (Thinned-refl (s ∷ [])))
    ]
  ]

  pub capacity-push_segment : (s : EncodedSegment) → (push_segment q s).capacity ≡ q.capacity
  unfolding push_segment push_or evict_or
  capacity-push_segment s = ground arith
