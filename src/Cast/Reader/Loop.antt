-- ===== src/Cast/Reader/Loop.antt =====
-- The reader thread as a whole: the frames that it sends.
use cast_app.Common.{
  ℕ, ◌≤◌, ◌≡◌, refl, sym, ap, ◌∙◌, ◌≢◌, Option, none, some, List, [], ◌∷◌, ◌++◌, map, length,
  append_assoc, append-nil, All,
}
use cast_app.Cast.Framing.{max_frame_size, encode_frame}
use cast_app.Cast.Framing.Wire.{parse_frame, parse_frame-encode_frame}
use cast_app.Cast.Reader.{
  FrameAccumulator, new, Poll, shutdown, read_ok, would_block, read_failed, after_push, reader_loop,
  push_bytes,
}
use cast_app.Cast.Reader.Splits.{
  IsPartial, nothing, Splits, stop, frame, Splits-prefix, Splits-IsPartial, IsPartial-Splits,
}
use cast_app.Cast.Reader.Chunks.{push_bytes-Splits}
use mathlib.Core.List.{map-append}

-- Reads that neither fail nor end the stream.
abbrev pub IsQuiet : List Poll → Type 0
IsQuiet [] = Unit {0}
IsQuiet (shutdown ∷ polls) = ⊥
IsQuiet (read_ok bs ∷ polls) = (bs ≢ []) × IsQuiet polls
IsQuiet (would_block ∷ polls) = IsQuiet polls
IsQuiet (read_failed ∷ polls) = ⊥

unfoldable pub received : List Poll → List ℕ
received [] = []
received (read_ok bs ∷ polls) = bs ++ received polls
received (_ ∷ polls) = received polls

-- The frames of a list of payloads, one behind the other.
unfoldable pub encode_all : List (List ℕ) → List ℕ
unfolding encode_frame
encode_all [] = []
encode_all (p ∷ ps) = encode_frame p ++ encode_all ps

cons_Splits :
    (p : List ℕ) (ps : List (List ℕ))
    → length p ≤ max_frame_size
    → Splits (encode_all ps) ps []
    → Splits (encode_all (p ∷ ps)) (p ∷ ps) []
cons_Splits p ps small rest =
    unfold encode_all in
    frame {s = encode_frame p ++ encode_all ps} {rest = encode_all ps} {last = []} {fs = ps} p
      (parse_frame-encode_frame p (encode_all ps) small) rest

nothing_left : IsPartial []
unfolding parse_frame
nothing_left = nothing refl

pub encode_all-Splits :
    (ps : List (List ℕ)) → All (λ p. length p ≤ max_frame_size) ps → Splits (encode_all ps) ps []
encode_all-Splits [] h = unfold encode_all in stop {s = []} nothing_left
encode_all-Splits (p ∷ ps) (small, h) = cons_Splits p ps small (encode_all-Splits ps h)

read_round :
    (acc : FrameAccumulator) (b : ℕ) (bs : List ℕ) (polls : List Poll)
    → reader_loop acc (read_ok (b ∷ bs) ∷ polls)
      ≡ after_push (λ acc'. reader_loop acc' polls) (push_bytes acc (b ∷ bs))
unfolding reader_loop
read_round acc b bs polls = refl

-- One read, whose frames are `gs`.
loop_read :
    (gs : List (List ℕ)) (mid : List ℕ) (acc : FrameAccumulator) (b : ℕ) (bs : List ℕ)
    (polls : List Poll)
    → Splits (acc.buf ++ (b ∷ bs)) gs mid
    → reader_loop acc (read_ok (b ∷ bs) ∷ polls)
      ≡ map some gs ++ reader_loop (record { buf = mid }) polls
loop_read gs mid acc b bs polls sp =
    read_round acc b bs polls
    ∙ ap (after_push (λ acc'. reader_loop acc' polls)) (push_bytes-Splits acc (b ∷ bs) sp)
    ∙ unfold after_push in refl

join_sent :
    (fs gs hs : List (List ℕ)) (tail : List (Option (List ℕ)))
    → fs ≡ gs ++ hs
    → map some gs ++ (map some hs ++ tail) ≡ map some fs ++ tail
join_sent fs gs hs tail e =
    sym (append_assoc (map some gs) (map some hs) tail) ∙ rw (e, map-append) refl

-- Nothing is received, so nothing is sent.
no_read :
    (acc : FrameAccumulator) (after : List Poll) (fs : List (List ℕ)) (last : List ℕ)
    → (fs ≡ []) × (last ≡ acc.buf)
    → reader_loop acc after ≡ map some fs ++ reader_loop (record { buf = last }) after
no_read acc after fs last (none_sent, same) = rw (none_sent, same) refl

-- The frames of all that is received are sent, in order, and the rest of the loop goes on from
-- what is held back.
pub reader_loop-Splits :
    (polls after : List Poll) (acc : FrameAccumulator) (fs : List (List ℕ)) (last : List ℕ)
    → IsPartial acc.buf
    → IsQuiet polls
    → Splits (acc.buf ++ received polls) fs last
    → reader_loop acc (polls ++ after) ≡ map some fs ++ reader_loop (record { buf = last }) after
unfolding received
reader_loop-Splits [] after acc fs last p quiet sp =
    no_read acc after fs last (IsPartial-Splits p (unfold_nothing acc fs last sp))
  where
    unfold_nothing :
        (acc : FrameAccumulator) (fs : List (List ℕ)) (last : List ℕ)
        → Splits (acc.buf ++ received []) fs last
        → Splits acc.buf fs last
    unfold_nothing acc fs last sp = unfold received in rw append-nil at sp
reader_loop-Splits (shutdown ∷ polls) after acc fs last p quiet sp = absurd quiet
reader_loop-Splits (read_ok [] ∷ polls) after acc fs last p quiet sp = absurd (quiet.0 refl)
reader_loop-Splits (read_ok (b ∷ bs) ∷ polls) after acc fs last p quiet sp =
    let (gs, hs, mid, sum, left, right) =
      Splits-prefix (acc.buf ++ (b ∷ bs)) (received polls) sp
        (sym (append_assoc acc.buf (b ∷ bs) (received polls))) in
    loop_read gs mid acc b bs (polls ++ after) left
    ∙ ap (λ (t : List (Option (List ℕ))). map some gs ++ t)
        (reader_loop-Splits polls after (record { buf = mid }) hs last (Splits-IsPartial left)
          quiet.1 right)
    ∙ join_sent fs gs hs (reader_loop (record { buf = last }) after) sum
reader_loop-Splits (would_block ∷ polls) after acc fs last p quiet sp =
    would_block_round acc (polls ++ after) ∙ reader_loop-Splits polls after acc fs last p quiet sp
  where
    would_block_round :
        (acc : FrameAccumulator) (polls : List Poll)
        → reader_loop acc (would_block ∷ polls) ≡ reader_loop acc polls
    would_block_round acc polls = unfold reader_loop in refl
reader_loop-Splits (read_failed ∷ polls) after acc fs last p quiet sp = absurd quiet

-- If a peer sends frames of at most `max_frame_size` bytes and closes the stream, the reader thread
-- sends exactly their payloads in order and then `None`, however the socket cuts the bytes into
-- reads and however often it has none ready.
pub reader_loop-encode_all :
    (payloads : List (List ℕ)) (polls more : List Poll)
    → All (λ p. length p ≤ max_frame_size) payloads
    → IsQuiet polls
    → received polls ≡ encode_all payloads
    → reader_loop new (polls ++ (read_ok [] ∷ more)) ≡ map some payloads ++ (none ∷ [])
reader_loop-encode_all payloads polls more small quiet e =
    unfold new in
    (reader_loop-Splits polls (read_ok [] ∷ more) (record { buf = [] }) payloads [] nothing_left
        quiet (rw e (encode_all-Splits payloads small))
      ∙ unfold reader_loop in refl)
