-- ===== src/Cast/Reader.antt =====
-- src/cast/connection/reader.rs: `FrameAccumulator`, which cuts the bytes of the socket into
-- frames and keeps a partial frame for the next read.
pub mod Splits
pub mod Chunks
pub mod Loop
mod Examples
use cast_app.Common.{
  ℕ, zero, suc, ◌+◌, ◌-◌, ◌<◌, Option, none, some, List, [], ◌∷◌, ◌++◌, length, drop, map,
}
use cast_app.Cast.Framing.{
  FrameError, io, frame_too_large, truncated, Reader, chunk, FrameResult, ok, err, stuck,
  read_frame,
}
use cast_app.Cast.Framing.Stream.{stream}

pub record FrameAccumulator : Type 0 where
  pub buf : List ℕ

unfoldable pub new : FrameAccumulator
new = record { buf = [] }

-- `io::Cursor::new(bytes)`: the bytes are ready at once.
unfoldable pub cursor : List ℕ → Reader
cursor [] = []
cursor (b ∷ bs) = chunk (b ∷ bs) ∷ []

-- `cursor.position()`, from the bytes that it was made of.
unfoldable pub position : List ℕ → Reader → ℕ
unfolding stream
position start r = length start - length (stream r)

-- How the loop of `push_bytes` ends: `broke` by its `break`, with `consumed` and `frames`.
pub data Extracted : Type 0 where
  broke : ℕ → List (List ℕ) → Extracted
  protocol_error : FrameError → Extracted
  out_of_fuel : Extracted

-- The `match` of the loop body; `loop` is the next round.
unfoldable pub after_frame :
    (ℕ → List (List ℕ) → Extracted) → List ℕ → ℕ → List (List ℕ) → FrameResult × Reader → Extracted
unfolding position
after_frame loop start consumed frames (ok (some payload), r) =
    loop (consumed + position start r) (frames ++ (payload ∷ []))
after_frame loop start consumed frames (ok none, r) = broke consumed frames
after_frame loop start consumed frames (err (truncated expected got), r) = broke consumed frames
after_frame loop start consumed frames (err (io k), r) = protocol_error (io k)
after_frame loop start consumed frames (err (frame_too_large n), r) =
    protocol_error (frame_too_large n)
after_frame loop start consumed frames (stuck, r) = out_of_fuel

unfoldable pub extract : ℕ → List ℕ → ℕ → List (List ℕ) → Extracted
unfolding cursor after_frame read_frame
extract zero buf consumed frames = out_of_fuel
extract (suc fuel) buf consumed frames =
    let start = drop consumed buf in
    after_frame (extract fuel buf) start consumed frames (read_frame (cursor start))

-- `Result<Vec<Vec<u8>>, FrameError>`.
pub data PushResult : Type 0 where
  frames_ok : List (List ℕ) → PushResult
  frames_err : FrameError → PushResult
  no_fuel : PushResult

-- `self.buf.drain(..consumed)`; an error returns before the drain.
unfoldable pub after_loop : List ℕ → Extracted → FrameAccumulator × PushResult
after_loop buf (broke consumed frames) = (record { buf = drop consumed buf }, frames_ok frames)
after_loop buf (protocol_error e) = (record { buf = buf }, frames_err e)
after_loop buf out_of_fuel = (record { buf = buf }, no_fuel)

-- Each frame takes four bytes at least, so a round for each byte is enough.
unfoldable pub push_bytes : FrameAccumulator → List ℕ → FrameAccumulator × PushResult
unfolding extract after_loop
push_bytes acc bytes =
    let buf = acc.buf ++ bytes in after_loop buf (extract (suc (length buf)) buf 0 [])

-- One round of `reader_loop`: the shutdown flag is set, or `read` returns bytes (none at the end
-- of the stream), `WouldBlock` or `TimedOut`, or another error.
pub data Poll : Type 0 where
  shutdown : Poll
  read_ok : List ℕ → Poll
  would_block : Poll
  read_failed : Poll

-- The `match` on `push_bytes`; `loop` is the rest of `reader_loop`.
unfoldable pub after_push :
    (FrameAccumulator → List (Option (List ℕ)))
    → FrameAccumulator × PushResult
    → List (Option (List ℕ))
after_push loop (acc, frames_ok fs) = map some fs ++ loop acc
after_push loop (acc, frames_err e) = none ∷ []
after_push loop (acc, no_fuel) = none ∷ []

-- What is sent on `frame_tx`, while the run task takes it. A script that ends leaves the loop
-- waiting.
unfoldable pub reader_loop : FrameAccumulator → List Poll → List (Option (List ℕ))
unfolding after_push push_bytes
reader_loop acc [] = []
reader_loop acc (shutdown ∷ polls) = none ∷ []
reader_loop acc (read_ok [] ∷ polls) = none ∷ []
reader_loop acc (read_ok (b ∷ bs) ∷ polls) =
    after_push (λ acc'. reader_loop acc' polls) (push_bytes acc (b ∷ bs))
reader_loop acc (would_block ∷ polls) = reader_loop acc polls
reader_loop acc (read_failed ∷ polls) = none ∷ []
