-- ===== src/Cast/Mdns/Names/Sound.antt =====
-- What `read_name_into` returns, if anything.
use cast_app.Common.{
  ℕ, zero, suc, ◌+◌, ◌-◌, ◌*◌, ◌^◌, ◌≤◌, ◌<◌, ◌≡◌, refl, sym, ap, ◌∙◌, bit_and, bit_or, not, Option,
  none, some, Bool, true, false, List, [], ◌∷◌, ◌++◌, length, take as take_front, drop, get_elem?,
  All, ltb, leb, ◌==◌, if◌then◌else◌, arith, append-nil, case_option, append_assoc,
}
use cast_app.Common.Bytes.{IsByte}
use cast_app.Common.Text.{Text}
use cast_app.Common.Utf8.{from_utf8_lossy}
use cast_app.Cast.Mdns.{
  Read, ok, err, panicked, stuck, and_then, max_pointer_depth, NamePart, name_end, pointer, label,
  contains, read_u8, take, follow_pointer, read_part, after_part, read_name_into,
}
use cast_app.Cast.Mdns.Names.Format.{NameAt, name_ends, name_label, name_pointer}
use cast_app.Cast.Mdns.Names.Bytes.{is_high, is_low, offset_lem, elem-All}

-- The property of what is returned, if anything is.
abbrev pub Gives {ℓ} : {A : Type ℓ} → (A → ℕ → Type 0) → Read A → Type 0
Gives P (ok x pos) = P x pos
Gives P (err e) = Unit {0}
Gives P panicked = Unit {0}
Gives P stuck = Unit {0}

and_then-Gives {ℓ κ} :
    {A : Type ℓ} {B : Type κ} (P : A → ℕ → Type 0) (Q : B → ℕ → Type 0) (m : Read A)
    (f : A → ℕ → Read B)
    → Gives P m
    → ((x : A) (pos : ℕ) → P x pos → Gives Q (f x pos))
    → Gives Q (and_then m f)
and_then-Gives P Q (ok x pos) f h k = k x pos h
and_then-Gives P Q (err e) f h k = tt
and_then-Gives P Q panicked f h k = tt
and_then-Gives P Q stuck f h k = tt

if-Gives {ℓ} :
    {A : Type ℓ} (P : A → ℕ → Type 0) (test : Bool) (yes_branch no_branch : Read A)
    → (test ≡ true → Gives P yes_branch)
    → (test ≡ false → Gives P no_branch)
    → Gives P (if test then yes_branch else no_branch)
if-Gives P true m m' h k = h refl
if-Gives P false m m' h k = k refl

module _ (packet : List ℕ) (bytes : All IsByte packet) where
  abbrev ByteAt : ℕ → ℕ → ℕ → Type 0
  ByteAt pos b p = (get_elem? packet pos ≡ some b) × (p ≡ pos + 1)

  read_u8-ByteAt : (pos : ℕ) → Gives (ByteAt pos) (read_u8 packet pos)
  unfolding read_u8
  read_u8-ByteAt pos =
      if-Gives (ByteAt pos) (leb (length packet) pos) _ _ (λ over. tt)
        (λ inside. at_elem (get_elem? packet pos) refl)
    where
      at_elem :
          (o : Option ℕ)
          → get_elem? packet pos ≡ o
          → Gives (ByteAt pos) (case_option o panicked (λ byte. ok byte (pos + 1)))
      at_elem none e = tt
      at_elem (some b) e = (e, refl)

  abbrev SlicedAt : ℕ → ℕ → List ℕ → ℕ → Type 0
  SlicedAt n pos slice p =
      (slice ≡ take_front n (drop pos packet)) × (p ≡ pos + n) × (pos + n ≤ length packet)

  take-SlicedAt : (n pos : ℕ) → Gives (SlicedAt n pos) (take packet n pos)
  unfolding take
  take-SlicedAt n pos =
      if-Gives (SlicedAt n pos) (ltb (length packet) pos) _ _ (λ over. tt)
        (λ inside.
          if-Gives (SlicedAt n pos) (ltb (length packet - pos) n) _ _ (λ short. tt)
            (λ enough. (refl, refl, ground arith)))

  -- What a round of the name loop has read.
  abbrev PartOf : ℕ → ℕ → NamePart → ℕ → Type 0
  PartOf depth pos name_end p = ByteAt pos 0 p
  PartOf depth pos (pointer offset) p =
      (high : ℕ) × (low : ℕ) × (get_elem? packet pos ≡ some (192 + high))
      × (get_elem? packet (pos + 1) ≡ some low)
      × (offset ≡ high * 256 + low)
      × (offset < length packet)
      × (p ≡ pos + 2)
      × (depth < max_pointer_depth)
  PartOf depth pos (label text) p =
      (n : ℕ) × (get_elem? packet pos ≡ some n)
      × (0 < n)
      × (n < 64)
      × (pos + 1 + n ≤ length packet)
      × (text ≡ from_utf8_lossy (take_front n (drop (pos + 1) packet)))
      × (p ≡ pos + 1 + n)

  follow_pointer-PartOf :
      (depth : ℕ) (visited : List ℕ) (b pos : ℕ)
      → get_elem? packet pos ≡ some b
      → 192 ≤ b
      → Gives (PartOf depth pos) (follow_pointer packet depth visited b (pos + 1))
  unfolding follow_pointer
  follow_pointer-PartOf depth visited b pos e high =
      if-Gives (PartOf depth pos) (leb max_pointer_depth depth) _ _ (λ deep. tt)
        (λ shallow.
          and_then-Gives (ByteAt (pos + 1)) (PartOf depth pos) (read_u8 packet (pos + 1)) _
            (read_u8-ByteAt (pos + 1))
            (λ low p h.
              if-Gives (PartOf depth pos)
                (leb (length packet) (bit_or (bit_and b 0x3f * 2 ^ 8) low)) _ _ (λ out. tt)
                (λ inside.
                  if-Gives (PartOf depth pos)
                    (contains visited (bit_or (bit_and b 0x3f * 2 ^ 8) low)) _ _ (λ cycle. tt)
                    (λ fresh. (
                      b - 192,
                      low,
                      e ∙ ap (λ (n : ℕ). some n) {x = b} (omega arith),
                      h.0,
                      offset_lem b low high (elem-All IsByte packet pos bytes e)
                          (elem-All IsByte packet (pos + 1) bytes h.0),
                      ground arith,
                      omega arith,
                      ground arith,
                    )))))

  read_part-PartOf :
      (depth : ℕ) (visited : List ℕ) (pos : ℕ)
      → Gives (PartOf depth pos) (read_part packet depth visited pos)
  unfolding read_part
  read_part-PartOf depth visited pos =
      and_then-Gives (ByteAt pos) (PartOf depth pos) (read_u8 packet pos) _ (read_u8-ByteAt pos)
        (λ b p (e, next).
          let byte = elem-All IsByte packet pos bytes e in
          if-Gives (PartOf depth pos) (b == 0) _ _
            (λ zero_byte. (e ∙ ap (λ (n : ℕ). some n) {x = b} (ground arith), next))
            (λ more.
              if-Gives (PartOf depth pos) (bit_and b 0xc0 == 0xc0) _ _
                (λ both.
                  rw next (follow_pointer-PartOf depth visited b pos e (is_high b byte both)))
                (λ mixed.
                  if-Gives (PartOf depth pos) (not (bit_and b 0xc0 == 0)) _ _ (λ bad. tt)
                    (λ good.
                      and_then-Gives (SlicedAt b p) (PartOf depth pos) (take packet b p) _
                        (take-SlicedAt b p)
                        (λ slice q (cut, end, fits). (
                          b,
                          e,
                          ground arith,
                          is_low b byte good,
                          omega arith,
                          ap from_utf8_lossy
                              (cut ∙ ap (λ (k : ℕ). take_front b (drop k packet)) next),
                          omega arith,
                        ))))))

  -- The labels that are read from `pos` on are appended to those before.
  abbrev pub Decoded : ℕ → ℕ → List Text → List Text → ℕ → Type 0
  Decoded depth pos labels names p =
      (more : List Text) × (hops : ℕ) × NameAt packet pos more hops p
      × (names ≡ labels ++ more)
      × (depth + hops ≤ max_pointer_depth)

  abbrev RoundsDecoded : (List Text → ℕ → List ℕ → ℕ → Read (List Text)) → Type 0
  RoundsDecoded rounds =
      (labels : List Text) (depth : ℕ) (visited : List ℕ) (pos : ℕ)
      → depth ≤ max_pointer_depth
      → Gives (Decoded depth pos labels) (rounds labels depth visited pos)

  after_part-Decoded :
      (rounds : List Text → ℕ → List ℕ → ℕ → Read (List Text)) (labels : List Text) (depth : ℕ)
      (visited : List ℕ) (pos : ℕ) (part : NamePart) (p : ℕ)
      → RoundsDecoded rounds
      → depth ≤ max_pointer_depth
      → PartOf depth pos part p
      → Gives (Decoded depth pos labels) (after_part rounds labels depth visited part p)
  after_part-Decoded rounds labels depth visited pos name_end p ih few (e, next) =
      ([], 0, rw next (name_ends e), sym (append-nil labels), omega arith)
  after_part-Decoded rounds labels depth visited pos (pointer offset) p ih few
        (high, low, e, e', at_offset, inside, next, shallow) =
      and_then-Gives (Decoded (depth + 1) offset labels) (Decoded depth pos labels)
        (rounds labels (depth + 1) (visited ++ (offset ∷ [])) offset) _
        (ih labels (depth + 1) (visited ++ (offset ∷ [])) offset (omega arith))
        (λ names end (more, hops, at_name, eq, le). (
          more,
          suc hops,
          rw next (name_pointer high low e e' (omega arith) (rw at_offset at at_name)),
          eq,
          omega arith,
        ))
  after_part-Decoded rounds labels depth visited pos (label text) p ih few
        (n, e, pos_n, small, fits, is_text, next) =
      weaken (rounds (labels ++ (text ∷ [])) depth visited p)
        (ih (labels ++ (text ∷ [])) depth visited p few)
    where
      weaken :
          (m : Read (List Text))
          → Gives (Decoded depth p (labels ++ (text ∷ []))) m
          → Gives (Decoded depth pos labels) m
      weaken (ok names end) (more, hops, at_name, eq, le) = (
        text ∷ more,
        hops,
        rw is_text (name_label n e pos_n small fits (rw next at at_name)),
        eq ∙ append_assoc labels (text ∷ []) more,
        le,
      )
      weaken (err x) h = tt
      weaken panicked h = tt
      weaken stuck h = tt

  pub read_name_into-Decoded : (fuel : ℕ) → RoundsDecoded (read_name_into packet fuel)
  unfolding read_name_into
  read_name_into-Decoded zero labels depth visited pos few = tt
  read_name_into-Decoded (suc fuel) labels depth visited pos few =
      and_then-Gives (PartOf depth pos) (Decoded depth pos labels)
        (read_part packet depth visited pos) _ (read_part-PartOf depth visited pos)
        (λ part p h.
          after_part-Decoded (read_name_into packet fuel) labels depth visited pos part p
            (read_name_into-Decoded fuel) few h)
