-- ===== src/Media/Http/Total/Line.antt =====
-- A line on whatever a peer sends.
use cast_app.Common.{
  ℕ, suc, ◌+◌, ◌<◌, ◌≡◌, refl, sym, ap, ◌∙◌, ◌⊎◌, inl, inr, Option, none, some, Bool, true, false,
  ◌||◌, List, [], ◌∷◌, append-nil, length, ltb, ◌==◌, Bool-cases, if◌then◌else◌, case_option, arith,
}
use cast_app.Common.Text.{Text}
use cast_app.Media.Http.{
  Peer, ErrorKind, unexpected_eof, invalid_data, broken, Reading, done, failed, stuck, and_then,
  split_line, read_until, ends_with_newline, line_text, line_loop, read_limited_line,
}

-- Which errors a connection has that is closed, or that breaks.
abbrev pub IsAllowed : Bool → ErrorKind → Type 0
IsAllowed breaks unexpected_eof = breaks ≡ false
IsAllowed breaks invalid_data = Unit {0}
IsAllowed breaks broken = breaks ≡ true

abbrev pub Answers {ℓ} : {A : Type ℓ} → Bool → (A → Peer → Type 0) → Reading A → Type 0
Answers breaks P (done x peer) = P x peer
Answers breaks P (failed e) = IsAllowed breaks e
Answers breaks P stuck = ⊥

pub and_then-Answers {ℓ κ} :
    {A : Type ℓ} {B : Type κ} (breaks : Bool) (P : A → Peer → Type 0) (Q : B → Peer → Type 0)
    (m : Reading A) (f : A → Peer → Reading B)
    → Answers breaks P m
    → ((x : A) (peer : Peer) → P x peer → Answers breaks Q (f x peer))
    → Answers breaks Q (and_then m f)
and_then-Answers breaks P Q (done x peer) f h k = k x peer h
and_then-Answers breaks P Q (failed e) f h k = h
and_then-Answers breaks P Q stuck f h k = absurd h

pub if-Answers {ℓ} :
    {A : Type ℓ} (breaks : Bool) (P : A → Peer → Type 0) (test : Bool) (m m' : Reading A)
    → (test ≡ true → Answers breaks P m)
    → (test ≡ false → Answers breaks P m')
    → Answers breaks P (if test then m else m')
if-Answers breaks P true m m' h h' = h refl
if-Answers breaks P false m m' h h' = h' refl

-- A line with its end, and the bytes of both parts.
abbrev Split : ℕ → Option (List ℕ × List ℕ) → Type 0
Split n none = Unit {0}
Split n (some (line, behind)) =
    (ends_with_newline line ≡ true) × (length line + length behind ≡ n) × (0 < length line)

longer_line :
    (b : ℕ) (line : List ℕ)
    → 0 < length line
    → ends_with_newline line ≡ true
    → ends_with_newline (b ∷ line) ≡ true
unfolding ends_with_newline
longer_line b [] some_byte h = absurd (omega arith)
longer_line b (c ∷ line) some_byte h = h

split_line-Split : (bytes : List ℕ) → Split (length bytes) (split_line bytes)
unfolding split_line ends_with_newline
split_line-Split [] = tt
split_line-Split (b ∷ bytes) = elim (Bool-cases (b == 10)) [
  | inl e ↦ rw e (refl, omega arith, omega arith)
  | inr e ↦ rw e (longer (split_line bytes) (split_line-Split bytes))
]
  where
    longer :
        (o : Option (List ℕ × List ℕ))
        → Split (length bytes) o
        → Split
            (suc (length bytes))
            (case_option o none (λ (line, behind). some (b ∷ line, behind)))
    longer none h = tt
    longer (some (line, behind)) (ends, sum, some_byte) =
        (longer_line b line some_byte ends, omega arith, omega arith)

-- A line, or all that is left of a connection that is closed.
abbrev ReadOf : Peer → List ℕ → Peer → Type 0
ReadOf peer read p =
    (p.breaks ≡ peer.breaks)
    × (length read + length p.bytes ≡ length peer.bytes)
    × (((ends_with_newline read ≡ true) × (0 < length read))
        ⊎ ((p.bytes ≡ []) × (peer.breaks ≡ false)))

read_until-ReadOf : (peer : Peer) → Answers peer.breaks (ReadOf peer) (read_until peer)
unfolding read_until
read_until-ReadOf peer = by_split (split_line peer.bytes) (split_line-Split peer.bytes)
  where
    at_end :
        (breaks : Bool)
        → peer.breaks ≡ breaks
        → Answers peer.breaks
            (ReadOf peer)
            (if breaks then failed broken else done peer.bytes (record peer { bytes = [] }))
    at_end true e = e
    at_end false e = (refl, omega arith, inr (refl, e))

    by_split :
        (o : Option (List ℕ × List ℕ))
        → Split (length peer.bytes) o
        → Answers peer.breaks (ReadOf peer) (
            case_option o
              (if peer.breaks then failed broken else done peer.bytes (record peer { bytes = [] }))
              (λ (line, behind). done line (record peer { bytes = behind })))
    by_split none h = at_end peer.breaks refl
    by_split (some (line, behind)) (ends, sum, some_byte) = (refl, sum, inl (ends, some_byte))

-- No line is left only when the connection is closed; a line takes a byte at least.
abbrev pub LineOf : Peer → Option Text → Peer → Type 0
LineOf peer none p = (p.breaks ≡ peer.breaks) × (peer.breaks ≡ false)
LineOf peer (some line) p = (p.breaks ≡ peer.breaks) × (length p.bytes < length peer.bytes)

line_text-LineOf :
    (peer p : Peer) (buf : List ℕ)
    → p.breaks ≡ peer.breaks
    → length buf + length p.bytes ≡ length peer.bytes
    → (0 < length buf) ⊎ (peer.breaks ≡ false)
    → LineOf peer (line_text buf) p
line_text-LineOf peer p [] e sum (inl h) = absurd (omega arith)
line_text-LineOf peer p [] e sum (inr h) = (e, h)
line_text-LineOf peer p (b ∷ buf) e sum h = (e, omega arith)

closed_read :
    (p : Peer)
    → p.bytes ≡ []
    → p.breaks ≡ false
    → read_until p ≡ done [] (record { bytes = []; breaks = false })
unfolding read_until split_line
closed_read p e f = rw (e, f)

or-true : (a b : Bool) → b ≡ true → (a || b) ≡ true
or-true true b h = refl
or-true false b h = h

pub read_limited_line-LineOf :
    (max : ℕ) (peer : Peer) → Answers peer.breaks (LineOf peer) (read_limited_line max peer)
unfolding read_limited_line line_loop
read_limited_line-LineOf max peer =
    and_then-Answers peer.breaks (ReadOf peer) (LineOf peer) (read_until peer) _
      (read_until-ReadOf peer)
      (λ read p (kept, sum, how).
        if-Answers peer.breaks (LineOf peer) (ltb max (length read)) _ _ (λ long. tt)
          (λ fits.
            if-Answers peer.breaks (LineOf peer) (length read == 0 || ends_with_newline read) _ _
              (λ ends. line_text-LineOf peer p read kept sum (ending read p how))
              (λ unended. second read p kept sum how unended)))
  where
    ending :
        (read : List ℕ) (p : Peer)
        → ((ends_with_newline read ≡ true) × (0 < length read))
          ⊎ ((p.bytes ≡ []) × (peer.breaks ≡ false))
        → (0 < length read) ⊎ (peer.breaks ≡ false)
    ending read p (inl (ends, some_byte)) = inl some_byte
    ending read p (inr (empty, closed)) = inr closed

    second :
        (read : List ℕ) (p : Peer)
        → p.breaks ≡ peer.breaks
        → length read + length p.bytes ≡ length peer.bytes
        → ((ends_with_newline read ≡ true) × (0 < length read))
          ⊎ ((p.bytes ≡ []) × (peer.breaks ≡ false))
        → (length read == 0 || ends_with_newline read) ≡ false
        → Answers peer.breaks (LineOf peer) (line_loop 1 max read p)
    second read p kept sum (inl (ends, some_byte)) unended =
        let met = or-true (length read == 0) (ends_with_newline read) ends in absurd (cc)
    second read p kept sum (inr (empty, closed)) unended =
        rw (closed_read p empty (kept ∙ closed), append-nil read)
          (if-Answers peer.breaks (LineOf peer) (ltb max (length read)) _ _ (λ long. tt)
            (λ fits.
              line_text-LineOf peer (record { bytes = []; breaks = false }) read (sym closed)
                (omega (arith, sum, ap (λ (bytes : List ℕ). length bytes) empty)) (inr closed)))
