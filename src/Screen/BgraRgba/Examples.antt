-- ===== src/Screen/BgraRgba/Examples.antt =====
-- Runs of src/screen/bgra_rgba.rs.
use cast_app.Common.{◌≡◌, refl, [], ◌∷◌}
use cast_app.Screen.BgraRgba.{bgra_to_rgba}

swaps_red_and_blue :
    bgra_to_rgba (0x11 ∷ 0x22 ∷ 0x33 ∷ 0x44 ∷ 0xaa ∷ []) ≡ 0x33 ∷ 0x22 ∷ 0x11 ∷ 0x44 ∷ 0xaa ∷ []
unfolding bgra_to_rgba
swaps_red_and_blue = refl
