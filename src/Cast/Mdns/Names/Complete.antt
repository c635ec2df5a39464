-- ===== src/Cast/Mdns/Names/Complete.antt =====
-- `read_name_into` on a packet that has a name.
use cast_app.Common.{
  ℕ, zero, suc, ◌+◌, ◌*◌, ◌^◌, ◌≤◌, ◌<◌, ◌≡◌, refl, sym, ap, ◌∙◌, ◌⊎◌, bit_and, bit_or, some, true,
  false, List, [], ◌∷◌, ◌++◌, length, take as take_front, drop, get_elem?, All, All-append, leb,
  ◌==◌, arith, ==_iff, Bool-cases, inl, inr, append-nil, append_assoc,
}
use mathlib.Core.Path.{subst}
use cast_app.Common.Bytes.{IsByte}
use cast_app.Common.Text.{Text}
use cast_app.Common.Utf8.{from_utf8_lossy}
use cast_app.Cast.Mdns.{
  Read, ok, stuck, and_then, max_pointer_depth, name_end, pointer, label, contains, read_u8, take,
  follow_pointer, read_part, read_name_into,
}
use cast_app.Cast.Mdns.Names.Format.{NameAt, name_ends, name_label, name_pointer}
use cast_app.Cast.Mdns.Names.Bytes.{
  both_bits, no_bits, offset_lem, elem-lt, elem-All, some_injective,
}

module _ (packet : List ℕ) (bytes : All IsByte packet) where
  read_u8-elem :
      (pos : ℕ) {b : ℕ} → get_elem? packet pos ≡ some b → read_u8 packet pos ≡ ok b (pos + 1)
  unfolding read_u8
  read_u8-elem pos {b} h =
      let inside = elem-lt packet pos h in
      let test : leb (length packet) pos ≡ false = ground arith in rw (test, h)

  take-fits :
      (n pos : ℕ)
      → pos + n ≤ length packet
      → take packet n pos ≡ ok (take_front n (drop pos packet)) (pos + n)
  unfolding take
  take-fits n pos fits = ground arith

  read_part-end :
      (depth : ℕ) (visited : List ℕ) (pos : ℕ)
      → get_elem? packet pos ≡ some 0
      → read_part packet depth visited pos ≡ ok name_end (pos + 1)
  unfolding read_part
  read_part-end depth visited pos e = rw (read_u8-elem pos e)

  read_part-label :
      (depth : ℕ) (visited : List ℕ) (pos n : ℕ)
      → get_elem? packet pos ≡ some n
      → 0 < n
      → n < 64
      → pos + 1 + n ≤ length packet
      → read_part packet depth visited pos
        ≡ ok (label (from_utf8_lossy (take_front n (drop (pos + 1) packet)))) (pos + 1 + n)
  unfolding read_part
  read_part-label depth visited pos n e some_byte small fits =
      let byte : IsByte n = omega arith in
      let not_end : (n == 0) ≡ false = ground arith in
      let not_pointer : (bit_and n 0xc0 == 0xc0) ≡ false = ground (arith, both_bits n byte) in
      let plain : (bit_and n 0xc0 == 0) ≡ true = ground (arith, no_bits n byte) in
      rw (read_u8-elem pos e, not_end, not_pointer, plain, take-fits n (pos + 1) fits)

  read_part-pointer :
      (depth : ℕ) (visited : List ℕ) (pos high low : ℕ)
      → get_elem? packet pos ≡ some (192 + high)
      → get_elem? packet (pos + 1) ≡ some low
      → high * 256 + low < length packet
      → depth < max_pointer_depth
      → contains visited (high * 256 + low) ≡ false
      → read_part packet depth visited pos ≡ ok (pointer (high * 256 + low)) (pos + 2)
  unfolding read_part follow_pointer
  read_part-pointer depth visited pos high low e e' inside shallow fresh =
      let byte = elem-All IsByte packet pos bytes e in
      let not_end : (192 + high == 0) ≡ false = ground arith in
      let both : (bit_and (192 + high) 0xc0 == 0xc0) ≡ true =
        ground (arith, both_bits (192 + high) byte) in
      let not_deep : leb max_pointer_depth depth ≡ false = ground arith in
      let not_out : leb (length packet) (high * 256 + low) ≡ false = ground arith in
      let offset : bit_or (bit_and (192 + high) 0x3f * 2 ^ 8) low ≡ high * 256 + low = omega (
        arith,
        offset_lem (192 + high) low (omega arith) byte (elem-All IsByte packet (pos + 1) bytes e'),
      ) in
      let end : pos + 1 + 1 ≡ pos + 2 = omega arith in
      rw (
        read_u8-elem pos e,
        not_end,
        both,
        not_deep,
        read_u8-elem (pos + 1) e',
        offset,
        not_out,
        fresh,
        end,
      )

  same_byte :
      (pos pos' : ℕ) {b c : ℕ}
      → pos ≡ pos'
      → get_elem? packet pos ≡ some b
      → get_elem? packet pos' ≡ some c
      → b ≡ c
  same_byte pos pos' at_same e e' = some_injective (sym e ∙ ap (get_elem? packet) at_same ∙ e')

  -- A place in the packet determines how many pointers a name there follows.
  hops_unique :
      {pos pos' hops hops' end end' : ℕ} {labels labels' : List Text}
      → pos ≡ pos'
      → NameAt packet pos labels hops end
      → NameAt packet pos' labels' hops' end'
      → hops ≡ hops'
  hops_unique eq (name_ends e) (name_ends e') = refl
  hops_unique {pos} {pos'} eq (name_ends e) (name_label n e' some_byte small fits rest) =
      absurd (omega (arith, same_byte pos pos' eq e e'))
  hops_unique {pos} {pos'} eq (name_ends e) (name_pointer high low e' f' inside rest) =
      absurd (omega (arith, same_byte pos pos' eq e e'))
  hops_unique {pos} {pos'} eq (name_label n e some_byte small fits rest) (name_ends e') =
      absurd (omega (arith, same_byte pos pos' eq e e'))
  hops_unique {pos} {pos'} eq (name_label n e some_byte small fits rest)
        (name_label n' e' some_byte' small' fits' rest') =
      hops_unique (omega (arith, same_byte pos pos' eq e e')) rest rest'
  hops_unique {pos} {pos'} eq (name_label n e some_byte small fits rest)
        (name_pointer high low e' f' inside rest') =
      absurd (omega (arith, same_byte pos pos' eq e e'))
  hops_unique {pos} {pos'} eq (name_pointer high low e f inside rest) (name_ends e') =
      absurd (omega (arith, same_byte pos pos' eq e e'))
  hops_unique {pos} {pos'} eq (name_pointer high low e f inside rest)
        (name_label n e' some_byte small fits rest') =
      absurd (omega (arith, same_byte pos pos' eq e e'))
  hops_unique {pos} {pos'} eq (name_pointer high low e f inside rest)
        (name_pointer high' low' e' f' inside' rest') =
      ap (λ (n : ℕ). suc n)
        (hops_unique
          (omega
            (arith, same_byte pos pos' eq e e', same_byte (pos + 1) (pos' + 1) (omega arith) f f'))
          rest rest')

  -- A place where a name starts that follows `hops` pointers at least.
  abbrev Follows : ℕ → ℕ → Type 0
  Follows hops v =
      (labels : List Text) × (hops' : ℕ) × (end : ℕ) × NameAt packet v labels hops' end
      × (hops ≤ hops')

  fewer-Follows :
      (hops : ℕ) (visited : List ℕ) → All (Follows (suc hops)) visited → All (Follows hops) visited
  fewer-Follows hops [] h = tt
  fewer-Follows hops (v ∷ visited) ((labels, hops', end, at_name, le), h) =
      ((labels, hops', end, at_name, omega arith), fewer-Follows hops visited h)

  not_visited :
      (visited : List ℕ) (hops offset end : ℕ) (labels : List Text)
      → All (Follows (suc hops)) visited
      → NameAt packet offset labels hops end
      → contains visited offset ≡ false
  unfolding contains
  not_visited [] hops offset end labels h at_name = refl
  not_visited (v ∷ visited) hops offset end labels ((labels', hops', end', at_name', le), h)
        at_name =
      elim (Bool-cases (v == offset)) [
        | inl met ↦ absurd (omega (arith, hops_unique ((==_iff v offset).0 met) at_name' at_name))
        | inr other ↦ rw other (not_visited visited hops offset end labels h at_name)
      ]

  -- The fuel is enough, or not.
  abbrev pub Reads : Read (List Text) → List Text → ℕ → Type 0
  Reads m names end = (m ≡ ok names end) ⊎ (m ≡ stuck)

  after_pointer :
      (m : Read (List Text)) (names : List Text) (end pos : ℕ)
      → Reads m names end
      → Reads (and_then m (λ names end. ok names pos)) names pos
  after_pointer m names end pos (inl e) = inl (rw e)
  after_pointer m names end pos (inr e) = inr (rw e)

  pub read_name_into-Reads :
      (fuel : ℕ) {pos hops end : ℕ} {more : List Text} (labels : List Text) (depth : ℕ)
      (visited : List ℕ)
      → NameAt packet pos more hops end
      → depth + hops ≤ max_pointer_depth
      → All (Follows hops) visited
      → Reads (read_name_into packet fuel labels depth visited pos) (labels ++ more) end
  unfolding read_name_into
  read_name_into-Reads zero labels depth visited at_name few h = inr refl
  read_name_into-Reads (suc fuel) {pos} labels depth visited (name_ends e) few h =
      rw (read_part-end depth visited pos e)
        (inl (ap (λ names. ok names (pos + 1)) (sym (append-nil labels))))
  read_name_into-Reads (suc fuel) {pos} {hops} {end} labels depth visited
        (name_label {labels = more} n e some_byte small fits rest) few h =
      let text = from_utf8_lossy (take_front n (drop (pos + 1) packet)) in
      rw (read_part-label depth visited pos n e some_byte small fits) (
        subst
          (λ names.
            Reads (read_name_into packet fuel (labels ++ (text ∷ [])) depth visited (pos + 1 + n))
              names end)
          (append_assoc labels (text ∷ []) more)
          (read_name_into-Reads fuel (labels ++ (text ∷ [])) depth visited rest few h))
  read_name_into-Reads (suc fuel) {pos} labels depth visited
        (name_pointer {end = end} {hops = hops} {labels = more} high low e e' inside rest) few h =
      let offset : ℕ = high * 256 + low in
      rw
        (read_part-pointer depth visited pos high low e e' inside (omega arith)
          (not_visited visited hops offset end more h rest))
        (after_pointer
          (read_name_into packet fuel labels (depth + 1) (visited ++ (offset ∷ [])) offset)
          (labels ++ more) end (pos + 2)
          (read_name_into-Reads fuel labels (depth + 1) (visited ++ (offset ∷ [])) rest
            (omega arith)
            (All-append (Follows hops) visited (offset ∷ []) (fewer-Follows hops visited h)
              ((more, hops, end, rest, omega arith), tt))))
