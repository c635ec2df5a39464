-- ===== src/Cast/Framing/Stream.antt =====
-- `read_exact_or_eof` against the stream of bytes of a reader.
use cast_app.Common.{
  ℕ, zero, suc, ◌-◌, ◌≤◌, ◌<◌, ◌≡◌, refl, sym, ap, ◌∙◌, ◌≢◌, List, [], ◌∷◌, ◌++◌, length, take,
  drop, leb, if◌then◌else◌, arith, append_assoc, append-nil, take-append, drop-append,
  length-append, length-take, length-drop,
}
use cast_app.Cast.Framing.{
  chunk, interrupted, failed, Reader, Exact, filled, eof, read_exact_or_eof,
}
use native.Mathlib.Decide.{dec_le}

-- The bytes that a reader delivers.
unfoldable pub stream : Reader → List ℕ
stream [] = []
stream (chunk bs ∷ r) = bs ++ stream r
stream (interrupted ∷ r) = stream r
stream (failed k ∷ r) = []

-- No error but `Interrupted`, and no `Ok(0)` before the end.
abbrev pub IsSteady : Reader → Type 0
IsSteady [] = Unit {0}
IsSteady (chunk bs ∷ r) = (bs ≢ []) × IsSteady r
IsSteady (interrupted ∷ r) = IsSteady r
IsSteady (failed k ∷ r) = ⊥

-- What is to be had from `s`: `want` bytes, or all of it and the end.
unfoldable pub exactly : ℕ → List ℕ → List ℕ → Exact
exactly want acc s = if leb want (length s) then filled (acc ++ take want s) else eof (acc ++ s)

-- The claim on one call, and on what it leaves of the reader.
abbrev pub Reads : Exact × Reader → ℕ → List ℕ → Reader → Type 0
Reads result want acc r =
    (r' : Reader) × (result ≡ (exactly want acc (stream r), r'))
    × (stream r' ≡ drop want (stream r))
    × IsSteady r'
    × (length r' ≤ length r)

take_chunk :
    (bs s : List ℕ) (want : ℕ)
    → length bs ≤ want
    → take want (bs ++ s) ≡ bs ++ take (want - length bs) s
take_chunk [] s want h = ap (λ (w : ℕ). take w s) (omega arith)
take_chunk (b ∷ bs) s zero h = absurd (omega arith)
take_chunk (b ∷ bs) s (suc want) h =
    ap (λ (t : List ℕ). b ∷ t)
      (take_chunk bs s want (omega arith) ∙ ap (λ (w : ℕ). bs ++ take w s) (omega arith))

-- A chunk that fits the buffer moves into it.
exactly_chunk :
    (bs s : List ℕ) (want : ℕ) (acc : List ℕ)
    → length bs ≤ want
    → exactly want acc (bs ++ s) ≡ exactly (want - length bs) (acc ++ bs) s
unfolding exactly
exactly_chunk bs s want acc h = ground (
  arith,
  length-append bs s,
  take_chunk bs s want h,
  append_assoc acc bs s,
  append_assoc acc bs (take (want - length bs) s),
)

drop_chunk :
    (bs s : List ℕ) (want : ℕ) → length bs ≤ want → drop want (bs ++ s) ≡ drop (want - length bs) s
drop_chunk [] s want h = ap (λ (w : ℕ). drop w s) (omega arith)
drop_chunk (b ∷ bs) s zero h = absurd (omega arith)
drop_chunk (b ∷ bs) s (suc want) h =
    drop_chunk bs s want (omega arith) ∙ ap (λ (w : ℕ). drop w s) (omega arith)

-- A chunk that is larger than the buffer fills it.
exactly_full :
    (bs s : List ℕ) (want : ℕ) (acc : List ℕ)
    → want ≤ length bs
    → exactly want acc (bs ++ s) ≡ filled (acc ++ take want bs)
unfolding exactly
exactly_full bs s want acc h = ground (arith, take-append want bs s, length-append bs s)

exactly_none : (acc s : List ℕ) → exactly 0 acc s ≡ filled acc
unfolding exactly
exactly_none acc s = ground (arith, append-nil acc)

-- A round that has bytes: all of a chunk, or as much of it as the buffer holds.
pub chunk_fits :
    (fuel want : ℕ) (b : ℕ) (bs : List ℕ) (r : Reader) (acc : List ℕ)
    → 0 < want
    → length (b ∷ bs) ≤ want
    → read_exact_or_eof (suc fuel) (chunk (b ∷ bs) ∷ r) want acc
      ≡ read_exact_or_eof fuel r (want - length (b ∷ bs)) (acc ++ (b ∷ bs))
unfolding read_exact_or_eof
chunk_fits fuel want b bs r acc pos fits = ground arith

pub chunk_overflows :
    (fuel want : ℕ) (b : ℕ) (bs : List ℕ) (r : Reader) (acc : List ℕ)
    → 0 < want
    → want < length (b ∷ bs)
    → read_exact_or_eof (suc (suc fuel)) (chunk (b ∷ bs) ∷ r) want acc
      ≡ (filled (acc ++ take want (b ∷ bs)), chunk (drop want (b ∷ bs)) ∷ r)
unfolding read_exact_or_eof
chunk_overflows fuel want b bs r acc pos over = ground (arith, length-take want (b ∷ bs))

pub nothing_wanted :
    (fuel : ℕ) (r : Reader) (acc : List ℕ) → read_exact_or_eof (suc fuel) r 0 acc ≡ (filled acc, r)
unfolding read_exact_or_eof
nothing_wanted fuel r acc = refl

nothing_Reads :
    (fuel : ℕ) (r : Reader) (acc : List ℕ)
    → IsSteady r
    → Reads (read_exact_or_eof (suc fuel) r 0 acc) 0 acc r
nothing_Reads fuel r acc steady =
    (r, rw (nothing_wanted, exactly_none) refl, refl, steady, omega arith)

-- The rest of a chunk is not empty, since the buffer was shorter.
drop-ne-nil : (n : ℕ) (xs : List ℕ) → n < length xs → drop n xs ≢ []
drop-ne-nil n xs h e = omega (arith, length-drop n xs, ap length e)

fits_Reads :
    (fuel want b : ℕ) (bs : List ℕ) (r : Reader) (acc : List ℕ)
    → 0 < want
    → length (b ∷ bs) ≤ want
    → Reads
        (read_exact_or_eof fuel r (want - length (b ∷ bs)) (acc ++ (b ∷ bs)))
        (want - length (b ∷ bs))
        (acc ++ (b ∷ bs))
        r
    → Reads
        (read_exact_or_eof (suc fuel) (chunk (b ∷ bs) ∷ r) want acc)
        want
        acc
        (chunk (b ∷ bs) ∷ r)
unfolding stream
fits_Reads fuel want b bs r acc pos fits (r', e, s, steady, l) = (
  r',
  chunk_fits fuel want b bs r acc pos fits
      ∙ e
      ∙ ap (λ (x : Exact). (x, r')) (sym (exactly_chunk (b ∷ bs) (stream r) want acc fits)),
  s ∙ sym (drop_chunk (b ∷ bs) (stream r) want fits),
  steady,
  omega arith,
)

overflow_Reads :
    (fuel want b : ℕ) (bs : List ℕ) (r : Reader) (acc : List ℕ)
    → 0 < want
    → want < length (b ∷ bs)
    → IsSteady r
    → Reads
        (read_exact_or_eof (suc (suc fuel)) (chunk (b ∷ bs) ∷ r) want acc)
        want
        acc
        (chunk (b ∷ bs) ∷ r)
unfolding stream
overflow_Reads fuel want b bs r acc pos over steady = (
  chunk (drop want (b ∷ bs)) ∷ r,
  chunk_overflows fuel want b bs r acc pos over
      ∙ ap (λ (x : Exact). (x, chunk (drop want (b ∷ bs)) ∷ r))
          (sym (exactly_full (b ∷ bs) (stream r) want acc (omega arith))),
  sym (drop-append want (b ∷ bs) (stream r) (omega arith)),
  (drop-ne-nil want (b ∷ bs) over, steady),
  omega arith,
)

interrupted_Reads :
    (fuel want : ℕ) (r : Reader) (acc : List ℕ)
    → Reads (read_exact_or_eof fuel r (suc want) acc) (suc want) acc r
    → Reads
        (read_exact_or_eof (suc fuel) (interrupted ∷ r) (suc want) acc)
        (suc want)
        acc
        (interrupted ∷ r)
unfolding stream read_exact_or_eof
interrupted_Reads fuel want r acc (r', e, s, steady, l) = (r', ground arith, s, steady, omega arith)

-- A steady reader is read as its stream, whatever the chunks: the buffer is filled from it, or all
-- of it is taken and the end reported, and the fuel is enough.
pub read_exact-stream :
    (fuel : ℕ) (r : Reader) (want : ℕ) (acc : List ℕ)
    → IsSteady r
    → suc (suc (length r)) ≤ fuel
    → Reads (read_exact_or_eof fuel r want acc) want acc r
read_exact-stream zero r want acc steady enough = absurd (omega arith)
read_exact-stream (suc fuel) r zero acc steady enough = nothing_Reads fuel r acc steady
read_exact-stream (suc fuel) [] (suc want) acc steady enough =
    unfold read_exact_or_eof stream exactly in
    ([], ground (arith, append-nil acc), refl, tt, omega arith)
read_exact-stream (suc fuel) (chunk [] ∷ r) (suc want) acc steady enough = absurd (steady.0 refl)
read_exact-stream (suc fuel) (chunk (b ∷ bs) ∷ r) (suc want) acc steady enough =
    elim (dec_le (length (b ∷ bs)) (suc want)) [
      | yes fits ↦ fits_Reads fuel (suc want) b bs r acc (omega arith) fits (
          read_exact-stream fuel r (suc want - length (b ∷ bs)) (acc ++ (b ∷ bs)) steady.1
            (omega arith))
      | no over ↦
          rw (enough_more fuel r enough)
            (overflow_Reads (fuel - 1) (suc want) b bs r acc (omega arith) (omega arith) steady.1)
    ]
  where
    enough_more : (f : ℕ) (r : Reader) → suc (suc (suc (length r))) ≤ suc f → f ≡ suc (f - 1)
    enough_more f r h = omega arith
read_exact-stream (suc fuel) (interrupted ∷ r) (suc want) acc steady enough =
    interrupted_Reads fuel want r acc (read_exact-stream fuel r (suc want) acc steady (omega arith))
read_exact-stream (suc fuel) (failed k ∷ r) (suc want) acc steady enough = absurd steady
