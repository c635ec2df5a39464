-- ===== src/Cast/Framing/Total.antt =====
-- The read loop of src/cast/framing.rs on any reader, and its fuel.
use cast_app.Common.{
  ℕ, zero, suc, ◌-◌, ◌≤◌, refl, ◌≢◌, List, [], ◌∷◌, ◌++◌, length, arith, Bool-cases, inl, inr, ltb,
}
use cast_app.Cast.Framing.{
  chunk, interrupted, failed, Reader, Exact, out_of_fuel, filled, eof, io_error, read_exact_or_eof,
  stuck, fuel_for, finish_payload, read_payload, after_header, read_frame, max_frame_size,
}
use cast_app.Cast.Framing.Stream.{chunk_fits, chunk_overflows, nothing_wanted}
use native.Mathlib.Decide.{dec_le}

interrupted-ne-out :
    (fuel : ℕ) (r : Reader) (want : ℕ) (acc : List ℕ)
    → (read_exact_or_eof fuel r (suc want) acc).0 ≢ out_of_fuel
    → (read_exact_or_eof (suc fuel) (interrupted ∷ r) (suc want) acc).0 ≢ out_of_fuel
unfolding read_exact_or_eof
interrupted-ne-out fuel r want acc h = ground arith

read_exact-ne-out :
    (fuel : ℕ) (r : Reader) (want : ℕ) (acc : List ℕ)
    → suc (suc (length r)) ≤ fuel
    → (read_exact_or_eof fuel r want acc).0 ≢ out_of_fuel
read_exact-ne-out zero r want acc enough = absurd (omega arith)
read_exact-ne-out (suc fuel) r zero acc enough = rw nothing_wanted (λ e. cc)
read_exact-ne-out (suc fuel) [] (suc want) acc enough =
    unfold read_exact_or_eof in (λ e. ground arith)
read_exact-ne-out (suc fuel) (chunk [] ∷ r) (suc want) acc enough =
    unfold read_exact_or_eof in (λ e. ground arith)
read_exact-ne-out (suc zero) (chunk (b ∷ bs) ∷ r) (suc want) acc enough = absurd (omega arith)
read_exact-ne-out (suc (suc fuel)) (chunk (b ∷ bs) ∷ r) (suc want) acc enough =
    elim (dec_le (length (b ∷ bs)) (suc want)) [
      | yes fits ↦ rw (chunk_fits (suc fuel) (suc want) b bs r acc (omega arith) fits) (
          read_exact-ne-out (suc fuel) r (suc want - length (b ∷ bs)) (acc ++ (b ∷ bs))
            (omega arith))
      | no over ↦
          rw (chunk_overflows fuel (suc want) b bs r acc (omega arith) (omega arith)) (λ e. cc)
    ]
read_exact-ne-out (suc fuel) (interrupted ∷ r) (suc want) acc enough =
    interrupted-ne-out fuel r want acc (read_exact-ne-out fuel r (suc want) acc (omega arith))
read_exact-ne-out (suc fuel) (failed k ∷ r) (suc want) acc enough =
    unfold read_exact_or_eof in (λ e. ground arith)

finish-ne-stuck : (n : ℕ) (x : Exact × Reader) → x.0 ≢ out_of_fuel → (finish_payload n x).0 ≢ stuck
unfolding finish_payload
finish-ne-stuck n (filled p, r) h = λ e. cc
finish-ne-stuck n (eof p, r) h = λ e. cc
finish-ne-stuck n (io_error k, r) h = λ e. cc
finish-ne-stuck n (out_of_fuel, r) h = absurd (h refl)

payload-ne-stuck : (n : ℕ) (r : Reader) → (read_payload n r).0 ≢ stuck
unfolding read_payload
payload-ne-stuck n r = elim (Bool-cases (ltb max_frame_size n)) [
  | inl large ↦ rw large (λ e. cc)
  | inr small ↦ rw small (finish-ne-stuck n _ (read_exact-ne-out (fuel_for r) r n [] (omega arith)))
]

header-ne-stuck : (x : Exact × Reader) → x.0 ≢ out_of_fuel → (after_header x).0 ≢ stuck
unfolding after_header
header-ne-stuck (filled p, r) h = payload-ne-stuck _ r
header-ne-stuck (eof p, r) h = λ e. ground arith
header-ne-stuck (io_error k, r) h = λ e. cc
header-ne-stuck (out_of_fuel, r) h = absurd (h refl)

-- On every reader, whatever it returns and whenever it fails, `read_frame` ends with a frame, the
-- end of the stream or an error: its loops never run out of fuel.
pub read_frame-ne-stuck : (r : Reader) → (read_frame r).0 ≢ stuck
unfolding read_frame
read_frame-ne-stuck r = header-ne-stuck _ (read_exact-ne-out (fuel_for r) r 4 [] (omega arith))
