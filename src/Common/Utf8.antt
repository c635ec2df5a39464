-- ===== src/Common/Utf8.antt =====
-- `String::from_utf8_lossy` of the standard library: a `String` is the list of its UTF-8 bytes,
-- and each longest ill-formed piece becomes U+FFFD.
use Prim.Native.Nat.{ℕ, zero, suc, ◌-◌, ◌≤◌, ◌<◌}
use mathlib.Core.Path.{◌≡◌, refl}
use mathlib.Core.Bool.{Bool, not, ◌&&◌, ◌||◌}
use mathlib.Core.List.{List, [], ◌∷◌, ◌++◌}
use native.Mathlib.Omega.{arith}
use cast_app.Common.Tests.{ltb, leb, ◌==◌, if◌then◌else◌}
use cast_app.Common.Lists.{length, take, drop, get_or, All}

between : ℕ → ℕ → ℕ → Bool
between lo hi b = leb lo b && leb b hi

-- The length that a leading byte announces, 0 for a byte that cannot lead.
width : ℕ → ℕ
unfolding between
width b =
    if ltb b 0x80
    then 1
    else if between 0xc2 0xdf b
    then 2
    else if between 0xe0 0xef b
    then 3
    else if between 0xf0 0xf4 b
    then 4
    else 0

-- Whether a second byte may follow the leading one.
second_fits : ℕ → ℕ → Bool
unfolding between
second_fits b c =
    if b == 0xe0
    then between 0xa0 0xbf c
    else if b == 0xed
    then between 0x80 0x9f c
    else if b == 0xf0
    then between 0x90 0xbf c
    else if b == 0xf4
    then between 0x80 0x8f c
    else between 0x80 0xbf c

continues : ℕ → Bool
unfolding between
continues c = between 0x80 0xbf c

-- The bytes after the leading one that belong to its sequence, `n` of them at most. A missing byte
-- reads as 0, which continues nothing.
tail_length : ℕ → ℕ → List ℕ → ℕ
unfolding second_fits continues
tail_length n b s =
    if n == 0
    then 0
    else if not (second_fits b (get_or s 0 0))
    then 0
    else if n == 1 || not (continues (get_or s 1 0))
    then 1
    else if n == 2 || not (continues (get_or s 2 0))
    then 2
    else 3

abbrev pub replacement : List ℕ
replacement = 0xef ∷ 0xbf ∷ 0xbd ∷ []

-- A sequence is kept if it has the announced length, and is replaced otherwise.
piece : ℕ → List ℕ → ℕ → List ℕ
piece b s n = if suc n == width b then b ∷ take n s else replacement

lossy_loop : ℕ → List ℕ → List ℕ
lossy_loop fuel [] = []
lossy_loop zero (b ∷ s) = []
lossy_loop (suc fuel) (b ∷ s) =
    let n = tail_length (width b - 1) b s in piece b s n ++ lossy_loop fuel (drop n s)

unfoldable pub from_utf8_lossy : List ℕ → List ℕ
unfolding lossy_loop piece tail_length width
from_utf8_lossy s = lossy_loop (length s) s

-- The text that the decoder leaves alone: well-formed UTF-8.
abbrev pub IsUtf8 : List ℕ → Type 0
IsUtf8 s = from_utf8_lossy s ≡ s

width_ascii : (b : ℕ) → b < 128 → width b ≡ 1
unfolding width
width_ascii b h = ground arith

piece_ascii : (b : ℕ) (s : List ℕ) → b < 128 → piece b s 0 ≡ b ∷ []
unfolding piece
piece_ascii b s h = rw (width_ascii b h) refl

ascii_round :
    (fuel b : ℕ) (s : List ℕ)
    → b < 128
    → lossy_loop fuel s ≡ s
    → lossy_loop (suc fuel) (b ∷ s) ≡ b ∷ s
unfolding lossy_loop
ascii_round fuel b s small ih =
    rw (width_ascii b small) (unfold tail_length in rw (piece_ascii b s small, ih) refl)

lossy_loop-ascii :
    (fuel : ℕ) (s : List ℕ) → All (λ b. b < 128) s → length s ≤ fuel → lossy_loop fuel s ≡ s
lossy_loop-ascii fuel [] h enough = unfold lossy_loop in refl
lossy_loop-ascii zero (b ∷ s) h enough = absurd (omega arith)
lossy_loop-ascii (suc fuel) (b ∷ s) (small, h) enough =
    ascii_round fuel b s small (lossy_loop-ascii fuel s h (omega arith))

-- ASCII text is well formed.
pub ascii-IsUtf8 : (s : List ℕ) → All (λ b. b < 128) s → IsUtf8 s
ascii-IsUtf8 s h = unfold from_utf8_lossy in lossy_loop-ascii (length s) s h (omega arith)

replaced :
    from_utf8_lossy (0x41 ∷ 0xff ∷ 0xe2 ∷ 0x82 ∷ 0x42 ∷ [])
    ≡ 0x41 ∷ (replacement ++ (replacement ++ (0x42 ∷ [])))
unfolding from_utf8_lossy
replaced = refl

kept : IsUtf8 (0xe2 ∷ 0x82 ∷ 0xac ∷ 0xf0 ∷ 0x9f ∷ 0x98 ∷ 0x80 ∷ [])
unfolding from_utf8_lossy
kept = refl
