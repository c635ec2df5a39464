-- ===== src/Cast/Framing/Wire.antt =====
-- The wire format of src/cast/framing.rs on a plain list of bytes, and `read_frame` against it.
use cast_app.Common.{
  ℕ, ◌≤◌, ◌<◌, ◌≡◌, refl, ap, ◌∙◌, false, none, some, List, [], ◌∷◌, ◌++◌, length, take, drop, leb,
  ltb, if◌then◌else◌, ◌==◌, arith, Bool-cases, inl, inr, length-append, take-length_append,
  drop-length_append, drop_all,
}
use cast_app.Common.Bytes.{from_be32, from_be32-be32}
use cast_app.Cast.Framing.{
  max_frame_size, frame_too_large, truncated, Reader, Exact, filled, eof, FrameResult, ok, err,
  fuel_for, finish_payload, read_payload, after_header, read_frame, encode_frame,
}
use cast_app.Cast.Framing.Stream.{stream, IsSteady, exactly, Reads, read_exact-stream}

unfoldable pub parse_payload : ℕ → List ℕ → FrameResult × List ℕ
parse_payload n s =
    if ltb max_frame_size n
    then (err (frame_too_large n), s)
    else if leb n (length s)
    then (ok (some (take n s)), drop n s)
    else (err (truncated n (length s)), [])

-- One frame at the front of a list of bytes, and what follows it.
unfoldable pub parse_frame : List ℕ → FrameResult × List ℕ
unfolding parse_payload from_be32
parse_frame [] = (ok none, [])
parse_frame (a ∷ []) = (err (truncated 4 1), [])
parse_frame (a ∷ b ∷ []) = (err (truncated 4 2), [])
parse_frame (a ∷ b ∷ c ∷ []) = (err (truncated 4 3), [])
parse_frame (a ∷ b ∷ c ∷ d ∷ s) = parse_payload (from_be32 a b c d) s

-- A result on a reader agrees with one on a list, and leaves the rest of the list to be read.
abbrev pub Agrees : FrameResult × Reader → FrameResult × List ℕ → Type 0
Agrees (res, r) (expected, rest) = (res ≡ expected) × (stream r ≡ rest) × IsSteady r

finish_lem :
    (n : ℕ) (result : Exact × Reader) (r : Reader)
    → ltb max_frame_size n ≡ false
    → Reads result n [] r
    → Agrees (finish_payload n result) (parse_payload n (stream r))
finish_lem n result r small (r', e, s, steady, l) = elim (Bool-cases (leb n (length (stream r)))) [
  | inl enough ↦
      rw e (unfold finish_payload parse_payload exactly in rw (enough, small) (refl, s, steady))
  | inr short ↦ rw e (
      unfold finish_payload parse_payload exactly in
      rw (short, small) (refl, s ∙ drop_all n (stream r) (ground arith), steady))
]

payload_lem :
    (n : ℕ) (r : Reader) → IsSteady r → Agrees (read_payload n r) (parse_payload n (stream r))
payload_lem n r steady = elim (Bool-cases (ltb max_frame_size n)) [
  | inl large ↦ unfold read_payload parse_payload in rw large (refl, refl, steady)
  | inr small ↦
      unfold read_payload in
      rw small (finish_lem n _ r small (read_exact-stream (fuel_for r) r n [] steady (omega arith)))
]

-- Four bytes are a header, fewer are the end of the stream.
four_bytes :
    (a b c d : ℕ) (t : List ℕ) → exactly 4 [] (a ∷ b ∷ c ∷ d ∷ t) ≡ filled (a ∷ b ∷ c ∷ d ∷ [])
unfolding exactly
four_bytes a b c d t = ground arith

header_known :
    (result : Exact × Reader) (r r' : Reader) (s : List ℕ) (x : Exact)
    → stream r ≡ s
    → result ≡ (exactly 4 [] (stream r), r')
    → exactly 4 [] s ≡ x
    → result ≡ (x, r')
header_known result r r' s x e er ex =
    er ∙ ap (λ (t : List ℕ). (exactly 4 [] t, r')) e ∙ ap (λ (y : Exact). (y, r')) ex

fewer_bytes : (s : List ℕ) → length s < 4 → exactly 4 [] s ≡ eof s
unfolding exactly
fewer_bytes s h = ground arith

-- A stream that ends in the header.
short_lem :
    (s : List ℕ) (result : Exact × Reader) (r : Reader)
    → length s < 4
    → parse_frame s ≡ ((if length s == 0 then ok none else err (truncated 4 (length s))), [])
    → stream r ≡ s
    → Reads result 4 [] r
    → Agrees (after_header result) (parse_frame s)
unfolding after_header
short_lem s result r short p e (r', er, left, steady, l) =
    rw (header_known result r r' s _ e er (fewer_bytes s short), p)
      (refl, left ∙ ap (drop 4) e ∙ drop_all 4 s (omega arith), steady)

header_lem :
    (s : List ℕ) (result : Exact × Reader) (r : Reader)
    → stream r ≡ s
    → Reads result 4 [] r
    → Agrees (after_header result) (parse_frame s)
unfolding parse_frame
header_lem [] result r e reads = short_lem [] result r (omega arith) refl e reads
header_lem (a ∷ []) result r e reads = short_lem (a ∷ []) result r (omega arith) refl e reads
header_lem (a ∷ b ∷ []) result r e reads =
    short_lem (a ∷ b ∷ []) result r (omega arith) refl e reads
header_lem (a ∷ b ∷ c ∷ []) result r e reads =
    short_lem (a ∷ b ∷ c ∷ []) result r (omega arith) refl e reads
header_lem (a ∷ b ∷ c ∷ d ∷ t) result r e (r', er, s, steady, l) =
    let left : stream r' ≡ t = s ∙ ap (drop 4) e in
    rw (header_known result r r' _ _ e er (four_bytes a b c d t))
      (unfold after_header parse_frame in rw (← left) (payload_lem (from_be32 a b c d) r' steady))

-- For a reader that meets no error, `read_frame` is `parse_frame` on its stream: the result does
-- not depend on how the bytes are cut into reads, and exactly the frame's bytes are taken.
pub read_frame-parse_frame :
    (r : Reader) → IsSteady r → Agrees (read_frame r) (parse_frame (stream r))
unfolding read_frame
read_frame-parse_frame r steady =
    header_lem (stream r) _ r refl (read_exact-stream (fuel_for r) r 4 [] steady (omega arith))

-- A frame of at most `max_frame_size` bytes is parsed back, and what follows it is left.
pub parse_frame-encode_frame :
    (payload rest : List ℕ)
    → length payload ≤ max_frame_size
    → parse_frame (encode_frame payload ++ rest) ≡ (ok (some payload), rest)
unfolding encode_frame parse_frame
parse_frame-encode_frame payload rest small = ground (
  arith,
  from_be32-be32 (length payload),
  length-append payload rest,
  take-length_append payload rest,
  drop-length_append payload rest,
)

-- Whatever the reader's chunks, if its stream begins with the frame that `encode_frame` wrote for a
-- payload of at most `max_frame_size` bytes, `read_frame` returns that payload and leaves the rest
-- of the stream.
pub read_frame-encode_frame :
    (payload rest : List ℕ) (r : Reader)
    → length payload ≤ max_frame_size
    → IsSteady r
    → stream r ≡ encode_frame payload ++ rest
    → Agrees (read_frame r) (ok (some payload), rest)
read_frame-encode_frame payload rest r small steady e =
    rw (e, parse_frame-encode_frame payload rest small) at (read_frame-parse_frame r steady)
