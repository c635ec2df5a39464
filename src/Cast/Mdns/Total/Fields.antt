-- ===== src/Cast/Mdns/Total/Fields.antt =====
-- The reads of single fields on any packet: their positions.
use cast_app.Common.{
  ℕ, zero, suc, ◌+◌, ◌-◌, ◌≤◌, ◌<◌, if◌then◌else◌, ◌≡◌, refl, some, Bool, true, false, List, [],
  ◌∷◌, length, drop, get_elem?, ltb, leb, arith, length-take, length-drop, Bool-cases, inl, inr,
}
use cast_app.Cast.Mdns.{Read, ok, err, panicked, stuck, and_then, read_u8, read_u16, read_u32, take}

-- A value with the property, or an error of the source.
abbrev pub Returns {ℓ} : {A : Type ℓ} → (A → ℕ → Type 0) → Read A → Type 0
Returns P (ok x pos) = P x pos
Returns P (err e) = Unit {0}
Returns P panicked = ⊥
Returns P stuck = ⊥

pub and_then-Returns {ℓ κ} :
    {A : Type ℓ} {B : Type κ} (P : A → ℕ → Type 0) (Q : B → ℕ → Type 0) (m : Read A)
    (f : A → ℕ → Read B)
    → Returns P m
    → ((x : A) (pos : ℕ) → P x pos → Returns Q (f x pos))
    → Returns Q (and_then m f)
and_then-Returns P Q (ok x pos) f h k = k x pos h
and_then-Returns P Q (err e) f h k = tt
and_then-Returns P Q panicked f h k = absurd h
and_then-Returns P Q stuck f h k = absurd h

-- A test, and the branches under what it found.
pub if-Returns {ℓ} :
    {A : Type ℓ} (P : A → ℕ → Type 0) (test : Bool) (yes_branch no_branch : Read A)
    → (test ≡ true → Returns P yes_branch)
    → (test ≡ false → Returns P no_branch)
    → Returns P (if test then yes_branch else no_branch)
if-Returns P true m m' h k = h refl
if-Returns P false m m' h k = k refl

get_elem?-some : (xs : List ℕ) (i : ℕ) → i < length xs → (x : ℕ) × (get_elem? xs i ≡ some x)
get_elem?-some [] i h = absurd (omega arith)
get_elem?-some (x ∷ xs) zero h = (x, refl)
get_elem?-some (x ∷ xs) (suc i) h = get_elem?-some xs i (omega arith)

module _ (packet : List ℕ) where
  -- The new position lies behind `lo` and inside the packet.
  abbrev pub Past {ℓ} : {A : Type ℓ} → ℕ → A → ℕ → Type 0
  Past lo x pos = (lo < pos) × (pos ≤ length packet)

  pub read_u8-Past : (pos : ℕ) → Returns (Past pos) (read_u8 packet pos)
  read_u8-Past pos = elim (Bool-cases (leb (length packet) pos)) [
    | inl over ↦ unfold read_u8 in rw over tt
    | inr inside ↦
        let (x, e) = get_elem?-some packet pos (ground arith) in
        unfold read_u8 in rw inside (rw e (ground arith))
  ]

  pub then_Past :
      {A : Type 0} {B : Type 0} (lo pos : ℕ) (m : Read A) (f : A → ℕ → Read B)
      → lo ≤ pos
      → Returns (Past pos) m
      → ((x : A) (p : ℕ) → pos < p → p ≤ length packet → Returns (Past lo) (f x p))
      → Returns (Past lo) (and_then m f)
  then_Past lo pos m f le h k =
      and_then-Returns (Past pos) (Past lo) m f h (λ x p hp. k x p hp.0 hp.1)

  pub weaken :
      {A : Type 0} (lo lo' : ℕ) (m : Read A) → lo ≤ lo' → Returns (Past lo') m → Returns (Past lo) m
  weaken lo lo' (ok x pos) le h = (omega arith, h.1)
  weaken lo lo' (err e) le h = tt
  weaken lo lo' panicked le h = h
  weaken lo lo' stuck le h = h

  return_Past :
      {A : Type 0} (lo pos : ℕ) (x : A)
      → lo < pos
      → pos ≤ length packet
      → Returns (Past lo) (ok x pos)
  return_Past lo pos x lt le = (lt, le)

  pub read_u16-Past : (pos : ℕ) → Returns (Past pos) (read_u16 packet pos)
  unfolding read_u16
  read_u16-Past pos = then_Past pos pos _ _ (omega arith) (read_u8-Past pos) (λ hi p lt le.
      then_Past pos p _ _ (omega arith) (read_u8-Past p) (λ lo q lt' le'. (omega arith, le')))

  pub read_u32-Past : (pos : ℕ) → Returns (Past pos) (read_u32 packet pos)
  unfolding read_u32
  read_u32-Past pos = then_Past pos pos _ _ (omega arith) (read_u8-Past pos) (λ b0 p lt le.
      then_Past pos p _ _ (omega arith) (read_u8-Past p) (λ b1 q lt1 le1.
        then_Past pos q _ _ (omega arith) (read_u8-Past q) (λ b2 r lt2 le2.
          then_Past pos r _ _ (omega arith) (read_u8-Past r) (λ b3 s lt3 le3. (omega arith, le3)))))

  -- A slice has the length that was asked for.
  abbrev pub Sliced : ℕ → ℕ → List ℕ → ℕ → Type 0
  Sliced n pos bytes p = (length bytes ≡ n) × (p ≡ pos + n) × (p ≤ length packet)

  pub take-Sliced : (n pos : ℕ) → pos ≤ length packet → Returns (Sliced n pos) (take packet n pos)
  take-Sliced n pos inside = elim (Bool-cases (ltb (length packet) pos)) [
    | inl over ↦ absurd (ground arith)
    | inr within ↦ elim (Bool-cases (ltb (length packet - pos) n)) [
      | inl short ↦ unfold take in rw (within, short) tt
      | inr enough ↦
          unfold take in
          rw (within, enough)
            (
              omega (
                arith,
                length-take n (drop pos packet),
                length-drop pos packet,
                not_short enough,
              ),
              refl,
              not_short enough,
            )
    ]
  ]
    where
      not_short : ltb (length packet - pos) n ≡ false → pos + n ≤ length packet
      not_short e = ground arith
