-- ===== src/Cast/Mdns/Names.antt =====
-- The names of a DNS packet as a relation, and `read_name` against it.
pub mod Format
mod Bytes
mod Sound
mod Complete
use cast_app.Common.{
  ℕ, zero, suc, ◌+◌, ◌-◌, ◌*◌, ◌^◌, ◌≤◌, ◌<◌, ◌≡◌, refl, sym, ap, ◌∙◌, ◌⊎◌, ◌↔◌, bit_and, bit_or,
  not, ◌&&◌, Option, none, some, Bool, true, false, List, [], ◌∷◌, ◌++◌, length, take as take_front,
  drop, get_elem?, All, All-append, ltb, leb, ◌==◌, if◌then◌else◌, arith, ==_iff, Bool-cases, inl,
  inr, append-nil, case_option, append_assoc,
}
use mathlib.Core.Path.{subst}
use cast_app.Common.Bytes.{IsByte}
use cast_app.Common.Bits.{bit_and_mask, shifted_bit_or}
use cast_app.Common.Text.{Text}
use cast_app.Common.Utf8.{from_utf8_lossy}
use cast_app.Cast.Mdns.{
  Read, ok, err, panicked, stuck, and_then, max_pointer_depth, NamePart, name_end, pointer, label,
  contains, join_labels, read_u8, take, follow_pointer, read_part, after_part, read_name_into,
  name_fuel, read_name,
}
use cast_app.Cast.Mdns.Total.Fields.{Returns, Past}
use cast_app.Cast.Mdns.Total.NameLoop.{read_names-Past}
use cast_app.Cast.Mdns.Names.Format.{NameAt}
use cast_app.Cast.Mdns.Names.Sound.{Gives, Decoded, read_name_into-Decoded}
use cast_app.Cast.Mdns.Names.Complete.{Reads, read_name_into-Reads}

-- On a packet of bytes, `read_name` returns a name exactly if the packet has one there in the format of
-- RFC 1035 behind at most four pointers: then its labels are joined by dots, and the position is the one
-- behind the name, or behind its first pointer.
pub read_name-NameAt :
    (packet : List ℕ) (pos end : ℕ) (name : Text)
    → All IsByte packet
    → pos ≤ length packet
    → (read_name packet pos ≡ ok name end) ↔ (
        (labels : List Text) × (hops : ℕ) × NameAt packet pos labels hops end
        × (hops ≤ max_pointer_depth)
        × (name ≡ join_labels labels))
unfolding read_name
read_name-NameAt packet pos end name bytes inside = (sound, complete)
  where
    decoded :
        (m : Read (List Text))
        → Gives (Decoded packet bytes 0 pos []) m
        → and_then m (λ labels p. ok (join_labels labels) p) ≡ ok name end
        → ((labels : List Text) × (hops : ℕ) × NameAt packet pos labels hops end
            × (hops ≤ max_pointer_depth)
            × (name ≡ join_labels labels))
    decoded (ok names p) (more, hops, at_name, eq, le) e =
        (more, hops, subst (NameAt packet pos more hops) (cc) at_name, omega arith, cc)
    decoded (err x) h e = absurd (cc)
    decoded panicked h e = absurd (cc)
    decoded stuck h e = absurd (cc)

    sound :
        read_name packet pos ≡ ok name end
        → ((labels : List Text) × (hops : ℕ) × NameAt packet pos labels hops end
            × (hops ≤ max_pointer_depth)
            × (name ≡ join_labels labels))
    sound e =
        decoded (read_name_into packet (name_fuel packet) [] 0 [] pos)
          (read_name_into-Decoded packet bytes (name_fuel packet) [] 0 [] pos (omega arith)) e

    finished :
        (m : Read (List Text)) (labels : List Text)
        → Reads packet bytes m labels end
        → Returns (Past packet pos) m
        → and_then m (λ labels p. ok (join_labels labels) p) ≡ ok (join_labels labels) end
    finished m labels (inl e) ends = rw e
    finished m labels (inr e) ends = absurd (subst (Returns (Past packet pos)) e ends)

    complete :
        ((labels : List Text) × (hops : ℕ) × NameAt packet pos labels hops end
          × (hops ≤ max_pointer_depth)
          × (name ≡ join_labels labels))
        → read_name packet pos ≡ ok name end
    complete (labels, hops, at_name, le, eq) = rw eq (
        finished (read_name_into packet (name_fuel packet) [] 0 [] pos) labels
          (read_name_into-Reads packet bytes (name_fuel packet) [] 0 [] at_name (omega arith) tt)
          (read_names-Past packet pos inside))
