-- ===== src/Common/Trim.antt =====
-- `str::trim`, and texts that it leaves as they are.
use Prim.Native.Nat.{ℕ, zero, suc, ◌<◌}
use mathlib.Core.Path.{◌≡◌, refl, sym, subst}
use mathlib.Core.Bool.{Bool, false, ◌&&◌, ◌||◌}
use mathlib.Core.List.{List, [], ◌∷◌, reverse, reverse-append, reverse-reverse}
use native.Mathlib.Omega.{arith}
use cast_app.Common.Tests.{leb, ◌==◌, if◌then◌else◌}
use cast_app.Common.Lists.{length, take, drop, All, All-append}
use cast_app.Common.Text.{Text}

-- The bytes of one white space character, as `char::is_whitespace` has them.
unfoldable pub is_white : List ℕ → Bool
is_white (a ∷ []) = (leb 9 a && leb a 13) || a == 32
is_white (a ∷ b ∷ []) = a == 0xc2 && (b == 0x85 || b == 0xa0)
is_white (a ∷ b ∷ c ∷ []) =
    (a == 0xe1 && b == 0x9a && c == 0x80)
    || (a == 0xe2
        && b == 0x80
        && ((leb 0x80 c && leb c 0x8a) || c == 0xa8 || c == 0xa9 || c == 0xaf))
    || (a == 0xe2 && b == 0x81 && c == 0x9f)
    || (a == 0xe3 && b == 0x80 && c == 0x80)
is_white _ = false

-- The width of the white space that a text starts with, 0 if none; `turned` says how its bytes lie.
unfoldable pub white_width : (List ℕ → List ℕ) → Text → ℕ
unfolding is_white
white_width turned s =
    if is_white (turned (take 1 s))
    then 1
    else if is_white (turned (take 2 s))
    then 2
    else if is_white (turned (take 3 s))
    then 3
    else 0

unfoldable pub drop_white : (List ℕ → List ℕ) → ℕ → Text → Text
unfolding white_width
drop_white turned zero s = s
drop_white turned (suc fuel) s =
    let rest = drop_white turned fuel (drop (white_width turned s) s) in
    if white_width turned s == 0 then s else rest

-- `str::trim`.
unfoldable pub trim : Text → Text
unfolding drop_white
trim s =
    let front = drop_white (λ t. t) (length s) s in
    reverse (drop_white reverse (length front) (reverse front))

-- A visible ASCII character, not a space.
abbrev pub IsGraphic : ℕ → Type 0
IsGraphic b = (32 < b) × (b < 127)

pub All-reverse : (P : ℕ → Type 0) (s : List ℕ) → All P s → All P (reverse s)
All-reverse P [] h = tt
All-reverse P (b ∷ s) (p, h) =
    subst (All P) (sym (reverse-append (b ∷ []) s))
      (All-append P (reverse s) (b ∷ []) (All-reverse P s h) (p, tt))

All-take : (P : ℕ → Type 0) (n : ℕ) (s : List ℕ) → All P s → All P (take n s)
All-take P zero s h = tt
All-take P (suc n) [] h = tt
All-take P (suc n) (b ∷ s) (p, h) = (p, All-take P n s h)

is_white-graphic : (s : List ℕ) → All IsGraphic s → is_white s ≡ false
unfolding is_white
is_white-graphic [] h = refl
is_white-graphic (a ∷ []) h = ground arith
is_white-graphic (a ∷ b ∷ []) h = ground arith
is_white-graphic (a ∷ b ∷ c ∷ []) h = ground arith
is_white-graphic (a ∷ b ∷ c ∷ d ∷ s) h = refl

drop_white-graphic :
    (turned : List ℕ → List ℕ) (fuel : ℕ) (s : Text)
    → ((t : List ℕ) → All IsGraphic t → All IsGraphic (turned t))
    → All IsGraphic s
    → drop_white turned fuel s ≡ s
unfolding drop_white white_width
drop_white-graphic turned zero s keeps h = refl
drop_white-graphic turned (suc fuel) s keeps h = rw (at 1, at 2, at 3)
  where
    at : (n : ℕ) → is_white (turned (take n s)) ≡ false
    at n = is_white-graphic (turned (take n s)) (keeps (take n s) (All-take IsGraphic n s h))

pub trim-graphic : (s : Text) → All IsGraphic s → trim s ≡ s
unfolding trim
trim-graphic s h =
    rw
      (
        drop_white-graphic (λ t. t) (length s) s (λ t all. all) h,
        drop_white-graphic reverse (length s) (reverse s) (All-reverse IsGraphic)
            (All-reverse IsGraphic s h),
      )
      (reverse-reverse s)
