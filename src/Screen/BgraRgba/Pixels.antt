-- ===== src/Screen/BgraRgba/Pixels.antt =====
-- The two byte orders of a frame, and the conversion between them.
use cast_app.Common.{ℕ, ◌≤◌, ◌≡◌, refl, ap, List, [], ◌∷◌, ◌++◌, length, arith}
use cast_app.Screen.BgraRgba.{bgra_to_rgba}

record Pixel : Type 0 where
  pub red : ℕ
  pub green : ℕ
  pub blue : ℕ
  pub alpha : ℕ

abbrev bgra_bytes : List Pixel → List ℕ
bgra_bytes [] = []
bgra_bytes (p ∷ ps) = p.blue ∷ p.green ∷ p.red ∷ p.alpha ∷ bgra_bytes ps

abbrev rgba_bytes : List Pixel → List ℕ
rgba_bytes [] = []
rgba_bytes (p ∷ ps) = p.red ∷ p.green ∷ p.blue ∷ p.alpha ∷ rgba_bytes ps

part_of_pixel : (rest : List ℕ) → length rest ≤ 3 → bgra_to_rgba rest ≡ rest
unfolding bgra_to_rgba
part_of_pixel [] short = refl
part_of_pixel (c0 ∷ []) short = refl
part_of_pixel (c0 ∷ c1 ∷ []) short = refl
part_of_pixel (c0 ∷ c1 ∷ c2 ∷ []) short = refl
part_of_pixel (c0 ∷ c1 ∷ c2 ∷ c3 ∷ rest) short = absurd (omega arith)

-- A frame of pixels in BGRA order becomes the frame of the same pixels in RGBA order, and up to three
-- bytes behind the last pixel stay as they are.
bgra_to_rgba-bgra_bytes :
    (pixels : List Pixel) (rest : List ℕ)
    → length rest ≤ 3
    → bgra_to_rgba (bgra_bytes pixels ++ rest) ≡ rgba_bytes pixels ++ rest
unfolding bgra_to_rgba
bgra_to_rgba-bgra_bytes [] rest short = part_of_pixel rest short
bgra_to_rgba-bgra_bytes (p ∷ ps) rest short =
    ap (λ bytes. p.red ∷ p.green ∷ p.blue ∷ p.alpha ∷ bytes) (bgra_to_rgba-bgra_bytes ps rest short)
