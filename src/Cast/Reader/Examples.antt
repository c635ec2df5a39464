-- ===== src/Cast/Reader/Examples.antt =====
-- Runs of the frame accumulator and the reader loop, and their theorems at concrete inputs.
use cast_app.Common.{ℕ, ◌≡◌, refl, none, some, List, [], ◌∷◌, ◌++◌, map, arith}
use cast_app.Cast.Framing.{
  frame_too_large, after_header, read_payload, finish_payload, read_exact_or_eof,
}
use cast_app.Cast.Reader.{
  new, frames_ok, frames_err, push_bytes, Poll, read_ok, would_block, reader_loop,
}
use cast_app.Cast.Reader.Chunks.{push_bytes-Splits}
use cast_app.Cast.Reader.Loop.{received, encode_all, encode_all-Splits, reader_loop-encode_all}

abbrev two_payloads : List (List ℕ)
two_payloads = (7 ∷ []) ∷ [] ∷ []

-- Two frames and half a header in one read.
two_and_a_half :
    push_bytes new (0 ∷ 0 ∷ 0 ∷ 1 ∷ 7 ∷ 0 ∷ 0 ∷ 0 ∷ 0 ∷ 0 ∷ 0 ∷ [])
    ≡ (record { buf = 0 ∷ 0 ∷ [] }, frames_ok two_payloads)
unfolding push_bytes new after_header read_payload finish_payload read_exact_or_eof
two_and_a_half = refl

-- A good frame before an oversized prefix is not returned.
good_then_large :
    (push_bytes new (0 ∷ 0 ∷ 0 ∷ 1 ∷ 7 ∷ 2 ∷ 0 ∷ 0 ∷ 0 ∷ [])).1
    ≡ frames_err (frame_too_large 33554432)
unfolding push_bytes new after_header read_payload finish_payload read_exact_or_eof
good_then_large = refl

push_bytes-Splits_example :
    push_bytes new (encode_all two_payloads) ≡ (record { buf = [] }, frames_ok two_payloads)
unfolding new
push_bytes-Splits_example =
    push_bytes-Splits (record { buf = [] }) (encode_all two_payloads)
      (encode_all-Splits two_payloads (omega arith))

abbrev in_pieces : List Poll
in_pieces =
    read_ok (0 ∷ 0 ∷ 0 ∷ [])
    ∷ would_block
    ∷ read_ok (1 ∷ 7 ∷ 0 ∷ 0 ∷ [])
    ∷ read_ok (0 ∷ 0 ∷ [])
    ∷ []

reader_loop-encode_all_example :
    reader_loop new (in_pieces ++ (read_ok [] ∷ [])) ≡ map some two_payloads ++ (none ∷ [])
reader_loop-encode_all_example =
    reader_loop-encode_all two_payloads in_pieces [] (omega arith)
      ((λ e. cc), ((λ e. cc), ((λ e. cc), tt))) (unfold received encode_all in refl)
