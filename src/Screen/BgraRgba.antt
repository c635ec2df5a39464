-- ===== src/Screen/BgraRgba.antt =====
-- src/screen/bgra_rgba.rs: the byte shuffle of captured frames. A frame is the list of its bytes.
pub mod Pixels
mod Examples
use cast_app.Common.{ℕ, List, [], ◌∷◌}

-- The bytes behind the last whole pixel are not touched.
unfoldable pub bgra_to_rgba : List ℕ → List ℕ
bgra_to_rgba (c0 ∷ c1 ∷ c2 ∷ c3 ∷ pixels) = c2 ∷ c1 ∷ c0 ∷ c3 ∷ bgra_to_rgba pixels
bgra_to_rgba [] = []
bgra_to_rgba (c0 ∷ []) = c0 ∷ []
bgra_to_rgba (c0 ∷ c1 ∷ []) = c0 ∷ c1 ∷ []
bgra_to_rgba (c0 ∷ c1 ∷ c2 ∷ []) = c0 ∷ c1 ∷ c2 ∷ []
