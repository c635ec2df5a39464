-- ===== src/Cast/Framing.antt =====
-- src/cast/framing.rs: frames of a 4-byte big-endian length and a payload. The reader is any
-- `std::io::Read`: a script of what its calls return.
pub mod Stream
pub mod Wire
pub mod Total
mod Examples
use cast_app.Common.{
  ℕ, zero, suc, ◌+◌, ◌-◌, ◌*◌, ◌%◌, ◌^◌, Bool, true, false, Option, none, some, List, [], ◌∷◌, ◌++◌,
  length, get_or, take, drop, ltb, leb, ◌==◌, if◌then◌else◌,
}
use cast_app.Common.Bytes.{be32, from_be32}

-- `MAX_FRAME_SIZE`, 16 MiB.
abbrev pub max_frame_size : ℕ
max_frame_size = 16 * 1024 * 1024

-- `failed` carries the number of an `io::ErrorKind` that is not `Interrupted`.
pub data FrameError : Type 0 where
  io : ℕ → FrameError
  frame_too_large : ℕ → FrameError
  truncated : ℕ → ℕ → FrameError

-- The source of one call of `Read::read`: bytes that are ready, or an error.
pub data ReadEvent : Type 0 where
  chunk : List ℕ → ReadEvent
  interrupted : ReadEvent
  failed : ℕ → ReadEvent

abbrev pub Reader : Type 0
Reader = List ReadEvent

pub data ReadResult : Type 0 where
  got : List ℕ → ReadResult
  again : ReadResult
  broken : ℕ → ReadResult

-- `reader.read(buf)` for a `buf` of `n` bytes: at most `n` bytes, the rest stays; a reader that
-- has nothing left returns `Ok(0)`.
unfoldable pub read : ℕ → Reader → ReadResult × Reader
read n [] = (got [], [])
read n (chunk bs ∷ r) =
    if leb (length bs) n then (got bs, r) else (got (take n bs), chunk (drop n bs) ∷ r)
read n (interrupted ∷ r) = (again, r)
read n (failed k ∷ r) = (broken k, r)

-- What `read_exact_or_eof` leaves in `buf`, with its flag. `out_of_fuel` is no Rust value.
pub data Exact : Type 0 where
  filled : List ℕ → Exact
  eof : List ℕ → Exact
  io_error : ℕ → Exact
  out_of_fuel : Exact

-- The `match` in the loop body; `loop` is the next round.
unfoldable pub after_read :
    (Reader → ℕ → List ℕ → Exact × Reader) → ℕ → List ℕ → ReadResult × Reader → Exact × Reader
after_read loop want acc (got [], r) = (eof acc, r)
after_read loop want acc (got (b ∷ bs), r) = loop r (want - length (b ∷ bs)) (acc ++ (b ∷ bs))
after_read loop want acc (again, r) = loop r want acc
after_read loop want acc (broken k, r) = (io_error k, r)

-- `want` is `buf.len()` and `acc` the bytes filled so far.
unfoldable pub read_exact_or_eof : ℕ → Reader → ℕ → List ℕ → Exact × Reader
unfolding read after_read
read_exact_or_eof zero r want acc = (out_of_fuel, r)
read_exact_or_eof (suc fuel) r want acc =
    let more = after_read (read_exact_or_eof fuel) want acc (read want r) in
    if want == 0 then (filled acc, r) else more

-- A round takes an event of the script or fills the buffer.
abbrev pub fuel_for : Reader → ℕ
fuel_for r = suc (suc (length r))

-- `Result<Option<Vec<u8>>, FrameError>`.
pub data FrameResult : Type 0 where
  ok : Option (List ℕ) → FrameResult
  err : FrameError → FrameResult
  stuck : FrameResult

unfoldable pub header_length : List ℕ → ℕ
unfolding from_be32
header_length h = from_be32 (get_or h 0 0) (get_or h 1 0) (get_or h 2 0) (get_or h 3 0)

unfoldable pub finish_payload : ℕ → Exact × Reader → FrameResult × Reader
finish_payload n (filled payload, r) = (ok (some payload), r)
finish_payload n (eof part, r) = (err (truncated n (length part)), r)
finish_payload n (io_error k, r) = (err (io k), r)
finish_payload n (out_of_fuel, r) = (stuck, r)

unfoldable pub read_payload : ℕ → Reader → FrameResult × Reader
read_payload n r =
    if ltb max_frame_size n
    then (err (frame_too_large n), r)
    else finish_payload n (read_exact_or_eof (fuel_for r) r n [])

unfoldable pub after_header : Exact × Reader → FrameResult × Reader
unfolding header_length
after_header (filled header, r) = read_payload (header_length header) r
after_header (eof part, r) =
    (if length part == 0 then ok none else err (truncated 4 (length part)), r)
after_header (io_error k, r) = (err (io k), r)
after_header (out_of_fuel, r) = (stuck, r)

unfoldable pub read_frame : Reader → FrameResult × Reader
read_frame r = after_header (read_exact_or_eof (fuel_for r) r 4 [])

-- `payload.len() as u32` wraps.
unfoldable pub encode_frame : List ℕ → List ℕ
unfolding be32
encode_frame payload = be32 (length payload % 2 ^ 32) ++ payload
