-- ===== src/Cast/Framing/Examples.antt =====
-- Runs of src/cast/framing.rs, and its theorems at concrete inputs.
use cast_app.Common.{◌≡◌, ◌≢◌, refl, some, [], ◌∷◌, arith}
use cast_app.Cast.Framing.{
  chunk, interrupted, failed, Reader, ok, err, stuck, frame_too_large, truncated, read_frame,
  encode_frame, after_header, read_payload, finish_payload, read_exact_or_eof,
}
use cast_app.Cast.Framing.Stream.{stream, IsSteady}
use cast_app.Cast.Framing.Wire.{
  Agrees, parse_frame, read_frame-parse_frame, read_frame-encode_frame,
}
use cast_app.Cast.Framing.Total.{read_frame-ne-stuck}

-- The frame of two bytes, in three reads with an interruption, and the start of another.
abbrev slow : Reader
slow = chunk (0 ∷ 0 ∷ []) ∷ interrupted ∷ chunk (0 ∷ 2 ∷ 7 ∷ []) ∷ chunk (8 ∷ 0 ∷ []) ∷ []

slow_frame : read_frame slow ≡ (ok (some (7 ∷ 8 ∷ [])), chunk (0 ∷ []) ∷ [])
unfolding read_frame after_header read_payload finish_payload read_exact_or_eof
slow_frame = refl

over_maximum : (read_frame (chunk (1 ∷ 0 ∷ 0 ∷ 1 ∷ 9 ∷ []) ∷ [])).0 ≡ err (frame_too_large 16777217)
unfolding read_frame after_header read_payload finish_payload read_exact_or_eof
over_maximum = refl

cut_payload : (read_frame (chunk (0 ∷ 0 ∷ 0 ∷ 3 ∷ 9 ∷ []) ∷ [])).0 ≡ err (truncated 3 1)
unfolding read_frame after_header read_payload finish_payload read_exact_or_eof
cut_payload = refl

slow-IsSteady : IsSteady slow
slow-IsSteady = ((λ e. cc), ((λ e. cc), ((λ e. cc), tt)))

read_frame-parse_frame_example : Agrees (read_frame slow) (parse_frame (stream slow))
read_frame-parse_frame_example = read_frame-parse_frame slow slow-IsSteady

read_frame-encode_frame_example : Agrees (read_frame slow) (ok (some (7 ∷ 8 ∷ [])), 0 ∷ [])
read_frame-encode_frame_example =
    read_frame-encode_frame (7 ∷ 8 ∷ []) (0 ∷ []) slow (omega arith) slow-IsSteady
      (unfold stream encode_frame in refl)

read_frame-ne-stuck_example : (read_frame (chunk (0 ∷ []) ∷ failed 5 ∷ [])).0 ≢ stuck
read_frame-ne-stuck_example = read_frame-ne-stuck (chunk (0 ∷ []) ∷ failed 5 ∷ [])
