-- ===== src/Cast/Mdns/Names/Format.antt =====
-- The format of the names of a DNS packet (RFC 1035, 4.1.4).
use cast_app.Common.{
  ℕ, suc, ◌+◌, ◌*◌, ◌≤◌, ◌<◌, ◌≡◌, some, List, [], ◌∷◌, length, take as take_front, drop, get_elem?,
}
use cast_app.Common.Text.{Text}
use cast_app.Common.Utf8.{from_utf8_lossy}

-- `NameAt packet pos labels hops end`: from `pos` on the packet has the labels, some of them behind
-- `hops` pointers, and the name ends before `end`.
pub data NameAt (packet : List ℕ) : ℕ → List Text → ℕ → ℕ → Type 0 where
  name_ends : {pos : ℕ} → get_elem? packet pos ≡ some 0 → NameAt packet pos [] 0 (pos + 1)
  name_label :
      {pos end hops : ℕ} {labels : List Text} (n : ℕ)
      → get_elem? packet pos ≡ some n
      → 0 < n
      → n < 64
      → pos + 1 + n ≤ length packet
      → NameAt packet (pos + 1 + n) labels hops end
      → NameAt packet pos (from_utf8_lossy (take_front n (drop (pos + 1) packet)) ∷ labels) hops end
  name_pointer :
      {pos end hops : ℕ} {labels : List Text} (high low : ℕ)
      → get_elem? packet pos ≡ some (192 + high)
      → get_elem? packet (pos + 1) ≡ some low
      → high * 256 + low < length packet
      → NameAt packet (high * 256 + low) labels hops end
      → NameAt packet pos labels (suc hops) (pos + 2)
