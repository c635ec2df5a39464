-- ===== src/Cast/Mdns/Total/NameLoop.antt =====
-- The name loop on any packet: its positions, and its fuel.
use cast_app.Common.{
  ℕ, zero, suc, ◌+◌, ◌-◌, ◌*◌, ◌≤◌, ◌<◌, ◌^◌, bit_and, bit_or, not, ◌==◌, ◌≡◌, List, [], ◌∷◌, ◌++◌,
  length, leb, arith,
}
use cast_app.Common.Text.{Text}
use cast_app.Cast.Mdns.{
  Read, max_pointer_depth, NamePart, name_end, pointer, label, contains, read_u8, take,
  follow_pointer, read_part, read_name_into, name_fuel, read_name, after_part,
}
use cast_app.Cast.Mdns.Total.Fields.{
  Returns, Past, Sliced, and_then-Returns, if-Returns, read_u8-Past, weaken, take-Sliced,
}

abbrev offset_of : ℕ → ℕ → ℕ
offset_of b low = bit_or (bit_and b 0x3f * 2 ^ 8) low

module _ (packet : List ℕ) where
  -- What is known after a round of the name loop.
  abbrev PartAt : ℕ → ℕ → NamePart → ℕ → Type 0
  PartAt depth pos name_end p = Past packet pos name_end p
  PartAt depth pos (pointer offset) p =
      (depth < max_pointer_depth) × (offset ≤ length packet) × Past packet pos offset p
  PartAt depth pos (label text) p = Past packet pos text p

  follow_pointer-PartAt :
      (depth : ℕ) (visited : List ℕ) (b lo pos : ℕ)
      → lo < pos
      → Returns (PartAt depth lo) (follow_pointer packet depth visited b pos)
  unfolding follow_pointer
  follow_pointer-PartAt depth visited b lo pos lt =
      if-Returns (PartAt depth lo) (leb max_pointer_depth depth) _ _ (λ deep. tt)
        (λ shallow.
          and_then-Returns (Past packet pos) (PartAt depth lo) (read_u8 packet pos) _
            (read_u8-Past packet pos)
            (λ low p h.
              if-Returns (PartAt depth lo) (leb (length packet) (offset_of b low)) _ _ (λ out. tt)
                (λ inside.
                  if-Returns (PartAt depth lo) (contains visited (offset_of b low)) _ _
                    (λ cycle. tt) (λ fresh. (ground arith, ground arith, (omega arith, h.1))))))

  read_part-PartAt :
      (depth : ℕ) (visited : List ℕ) (pos : ℕ)
      → Returns (PartAt depth pos) (read_part packet depth visited pos)
  unfolding read_part
  read_part-PartAt depth visited pos =
      and_then-Returns (Past packet pos) (PartAt depth pos) (read_u8 packet pos) _
        (read_u8-Past packet pos)
        (λ b p h.
          if-Returns (PartAt depth pos) (b == 0) _ _ (λ zero_byte. h)
            (λ more.
              if-Returns (PartAt depth pos) (bit_and b 0xc0 == 0xc0) _ _
                (λ both. follow_pointer-PartAt depth visited b pos p h.0)
                (λ other.
                  if-Returns (PartAt depth pos) (not (bit_and b 0xc0 == 0)) _ _ (λ bad. tt)
                    (λ good.
                      and_then-Returns (Sliced packet b p) (PartAt depth pos) (take packet b p) _
                        (take-Sliced packet b p h.1) (λ bytes q s. (omega arith, omega arith))))))

  -- The rounds that are left with `hops` pointers to go: the packet once more for each.
  abbrev budget : ℕ → ℕ
  budget zero = 0
  budget (suc hops) = suc (length packet) + budget hops

  -- What the rounds after this one promise.
  abbrev Rounds : ℕ → (List Text → ℕ → List ℕ → ℕ → Read (List Text)) → Type 0
  Rounds fuel rounds =
      (hops : ℕ) (labels : List Text) (depth : ℕ) (visited : List ℕ) (pos : ℕ)
      → depth + hops ≡ max_pointer_depth
      → pos ≤ length packet
      → budget hops + (length packet - pos) < fuel
      → Returns (Past packet pos) (rounds labels depth visited pos)

  after_part-Past :
      (fuel : ℕ) (rounds : List Text → ℕ → List ℕ → ℕ → Read (List Text)) (hops : ℕ)
      (labels : List Text) (depth : ℕ) (visited : List ℕ) (pos : ℕ) (part : NamePart) (p : ℕ)
      → Rounds fuel rounds
      → depth + hops ≡ max_pointer_depth
      → budget hops + (length packet - pos) < suc fuel
      → PartAt depth pos part p
      → Returns (Past packet pos) (after_part rounds labels depth visited part p)
  after_part-Past fuel rounds hops labels depth visited pos name_end p ih four enough h = h
  after_part-Past fuel rounds hops labels depth visited pos (label text) p ih four enough h =
      weaken packet pos p (rounds (labels ++ (text ∷ [])) depth visited p) (omega arith)
        (ih hops (labels ++ (text ∷ [])) depth visited p four h.1 (omega arith))
  after_part-Past fuel rounds zero labels depth visited pos (pointer offset) p ih four enough h =
      absurd (omega arith)
  after_part-Past fuel rounds (suc hops) labels depth visited pos (pointer offset) p ih four enough
        (shallow, inside, behind) =
      and_then-Returns (Past packet offset) (Past packet pos)
        (rounds labels (depth + 1) (visited ++ (offset ∷ [])) offset) _
        (ih hops labels (depth + 1) (visited ++ (offset ∷ [])) offset (omega arith) inside
          (omega arith))
        (λ names end h. behind)

  read_name_into-Past : (fuel : ℕ) → Rounds fuel (read_name_into packet fuel)
  unfolding read_name_into
  read_name_into-Past zero hops labels depth visited pos four inside enough = absurd (omega arith)
  read_name_into-Past (suc fuel) hops labels depth visited pos four inside enough =
      and_then-Returns (PartAt depth pos) (Past packet pos) (read_part packet depth visited pos) _
        (read_part-PartAt depth visited pos)
        (λ part p h.
          after_part-Past fuel (read_name_into packet fuel) hops labels depth visited pos part p
            (read_name_into-Past fuel) four enough h)

  pub read_names-Past :
      (pos : ℕ)
      → pos ≤ length packet
      → Returns (Past packet pos) (read_name_into packet (name_fuel packet) [] 0 [] pos)
  read_names-Past pos inside =
      read_name_into-Past (name_fuel packet) 4 [] 0 [] pos (omega arith) inside (omega arith)

  pub read_name-Past :
      (pos : ℕ) → pos ≤ length packet → Returns (Past packet pos) (read_name packet pos)
  unfolding read_name
  read_name-Past pos inside =
      and_then-Returns (Past packet pos) (Past packet pos)
        (read_name_into packet (name_fuel packet) [] 0 [] pos) _ (read_names-Past pos inside)
        (λ labels p h. h)
