-- ===== src/Cast/Reader/Chunks.antt =====
-- `push_bytes` and the frames of its bytes.
use cast_app.Common.{
  ℕ, zero, suc, ◌+◌, ◌-◌, ◌<◌, ◌≡◌, refl, sym, ap, ◌∙◌, some, List, [], ◌∷◌, ◌++◌, length, drop,
  arith, append_assoc, append-nil, drop-drop,
}
use cast_app.Cast.Framing.{Reader, FrameResult, ok, read_frame}
use cast_app.Cast.Framing.Stream.{stream, IsSteady}
use cast_app.Cast.Framing.Wire.{parse_frame, read_frame-parse_frame, Agrees}
use cast_app.Cast.Reader.{
  cursor, FrameAccumulator, Extracted, broke, after_frame, extract, frames_ok, push_bytes,
}
use cast_app.Cast.Reader.Splits.{IsPartial, nothing, cut, Splits, stop, frame, parse_frame_shorter}

stream-cursor : (s : List ℕ) → stream (cursor s) ≡ s
unfolding stream cursor
stream-cursor [] = refl
stream-cursor (b ∷ bs) = append-nil (b ∷ bs)

cursor-IsSteady : (s : List ℕ) → IsSteady (cursor s)
unfolding cursor
cursor-IsSteady [] = tt
cursor-IsSteady (b ∷ bs) = ((λ e. cc), tt)

read_frame-cursor : (s : List ℕ) → Agrees (read_frame (cursor s)) (parse_frame s)
read_frame-cursor s =
    rw (stream-cursor s) at (read_frame-parse_frame (cursor s) (cursor-IsSteady s))

-- One round of the loop, by what stands at the front.
round_whole :
    (loop : ℕ → List (List ℕ) → Extracted) (s : List ℕ) (consumed : ℕ) (fs : List (List ℕ))
    (x : FrameResult × Reader) (payload rest : List ℕ)
    → Agrees x (ok (some payload), rest)
    → after_frame loop s consumed fs x
      ≡ loop (consumed + (length s - length rest)) (fs ++ (payload ∷ []))
unfolding after_frame
round_whole loop s consumed fs (res, r) payload rest (e, left, steady) = rw (e, left) refl

round_partial :
    (loop : ℕ → List (List ℕ) → Extracted) (s : List ℕ) (consumed : ℕ) (fs : List (List ℕ))
    (x : FrameResult × Reader)
    → IsPartial s
    → Agrees x (parse_frame s)
    → after_frame loop s consumed fs x ≡ broke consumed fs
unfolding after_frame
round_partial loop s consumed fs (res, r) (nothing p) (e, left, steady) = rw (e, p) refl
round_partial loop s consumed fs (res, r) (cut expected got p) (e, left, steady) = rw (e, p) refl

drop-consumed :
    (buf s rest : List ℕ) (consumed : ℕ)
    → drop consumed buf ≡ s
    → rest ≡ drop (length s - length rest) s
    → drop (consumed + (length s - length rest)) buf ≡ rest
drop-consumed buf s rest consumed e tail =
    sym (drop-drop (length s - length rest) consumed buf)
    ∙ ap (drop (length s - length rest)) e
    ∙ sym tail

extract_round :
    (fuel : ℕ) (buf : List ℕ) (consumed : ℕ) (before : List (List ℕ)) (s : List ℕ)
    → drop consumed buf ≡ s
    → extract (suc fuel) buf consumed before
      ≡ after_frame (extract fuel buf) s consumed before (read_frame (cursor s))
extract_round fuel buf consumed before s e = rw (← e) (unfold extract in refl)

-- With the frames of `s` to come, the loop takes them all and breaks before the rest.
extract-Splits :
    {s last : List ℕ} {fs : List (List ℕ)} (fuel : ℕ) (buf : List ℕ) (consumed : ℕ)
    (before : List (List ℕ))
    → Splits s fs last
    → drop consumed buf ≡ s
    → length s < fuel
    → (taken : ℕ) × (extract fuel buf consumed before ≡ broke taken (before ++ fs))
      × (drop taken buf ≡ last)
extract-Splits zero buf consumed before sp e enough = absurd (omega arith)
extract-Splits (suc fuel) buf consumed before (stop {s = s} p) e enough = (
  consumed,
  extract_round fuel buf consumed before s e
      ∙ round_partial (extract fuel buf) s consumed before _ p (read_frame-cursor s)
      ∙ ap (broke consumed) (sym (append-nil before)),
  e,
)
extract-Splits (suc fuel) buf consumed before (frame {s = s} {rest = rest} {fs = fs} payload p sp) e
      enough =
    let (shorter, tail) = parse_frame_shorter s payload rest p in
    let (taken, ext, left) =
      extract-Splits fuel buf (consumed + (length s - length rest)) (before ++ (payload ∷ [])) sp
        (drop-consumed buf s rest consumed e tail) (omega arith) in
    (
      taken,
      extract_round fuel buf consumed before s e
          ∙ round_whole (extract fuel buf) s consumed before _ payload rest
              (rw p at (read_frame-cursor s))
          ∙ ext
          ∙ ap (broke taken) (append_assoc before (payload ∷ []) fs),
      left,
    )

-- If the bytes held back and the new ones fall into frames and a rest, `push_bytes` returns the
-- frames in order and holds the rest back.
pub push_bytes-Splits :
    {last : List ℕ} {fs : List (List ℕ)} (acc : FrameAccumulator) (bytes : List ℕ)
    → Splits (acc.buf ++ bytes) fs last
    → push_bytes acc bytes ≡ (record { buf = last }, frames_ok fs)
push_bytes-Splits {last} {fs} acc bytes sp =
    let buf = acc.buf ++ bytes in
    let (taken, ext, left) = extract-Splits (suc (length buf)) buf 0 [] sp refl (omega arith) in
    unfold push_bytes in rw (ext, left) refl
