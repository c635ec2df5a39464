-- ===== src/Cast/Mdns.antt =====
-- src/cast/mdns.rs: the parser of DNS packets. The packet is a parameter: a `Parser` only moves its
-- position, so it is the position.
pub mod Correlate
pub mod Table
pub mod Total
pub mod Names
mod Examples
use cast_app.Common.{
  ℕ, zero, suc, ◌+◌, ◌-◌, ◌*◌, ◌/◌, ◌%◌, ◌^◌, bit_and, bit_or, Option, none, some, Bool, true,
  false, not, ◌||◌, List, [], ◌∷◌, ◌++◌, length, take as take_front, drop, get_elem?, ltb, leb,
  ◌==◌, if◌then◌else◌, case_option,
}
use cast_app.Common.Text.{Text, codes}
use cast_app.Common.Net.{Ipv4Addr}
use cast_app.Common.Utf8.{from_utf8_lossy}

abbrev pub googlecast_service : Text
googlecast_service = codes "_googlecast._tcp.local"

abbrev pub max_pointer_depth : ℕ
max_pointer_depth = 4

abbrev pub type_a : ℕ
type_a = 1

abbrev pub type_ptr : ℕ
type_ptr = 12

abbrev pub type_txt : ℕ
type_txt = 16

abbrev pub type_srv : ℕ
type_srv = 33

pub data DnsError : Type 0 where
  truncated : ℕ → DnsError
  pointer_out_of_bounds : ℕ → DnsError
  pointer_cycle : DnsError
  pointer_depth_exceeded : DnsError
  bad_label_length : ℕ → DnsError

pub data RecordData : Type 0 where
  ptr : Text → RecordData
  srv : (priority weight port : ℕ) (target : Text) → RecordData
  txt : List (List ℕ) → RecordData
  a : Ipv4Addr → RecordData
  other : RecordData

pub record DnsRecord : Type 0 where
  pub owner : Text
  pub record_type : ℕ
  pub ttl : ℕ
  pub rdata : RecordData

-- What a reader returns: its value and the new position, or an error. `panicked` is a subtraction
-- below 0 or an index outside of the packet; `stuck` is no Rust value: a loop ran out of fuel.
pub data Read {ℓ} (A : Type ℓ) : Type ℓ where
  ok : A → ℕ → Read A
  err : DnsError → Read A
  panicked : Read A
  stuck : Read A

abbrev pub Parse {ℓ} : Type ℓ → Type ℓ
Parse A = ℕ → Read A

abbrev pub and_then {ℓ κ} : {A : Type ℓ} {B : Type κ} → Read A → (A → Parse B) → Read B
and_then (ok x pos) f = f x pos
and_then (err e) f = err e
and_then panicked f = panicked
and_then stuck f = stuck

infixl 5 ◌>>=◌
abbrev pub ◌>>=◌ {ℓ κ} : {A : Type ℓ} {B : Type κ} → Parse A → (A → Parse B) → Parse B
◌>>=◌ m f pos = and_then (m pos) f

abbrev pub return {ℓ} : {A : Type ℓ} → A → Parse A
return x pos = ok x pos

-- `self.pos`.
abbrev pub position : Parse ℕ
position pos = ok pos pos

-- A parser of its own from a position on, for the same packet.
abbrev pub at {ℓ} : {A : Type ℓ} → ℕ → Parse A → Parse A
at start m pos = and_then (m start) (λ x end. ok x pos)

-- The elements joined by `.`.
unfoldable pub join_labels : List Text → Text
join_labels [] = []
join_labels (label ∷ []) = label
join_labels (label ∷ next ∷ labels) = label ++ (codes "." ++ join_labels (next ∷ labels))

unfoldable pub contains : List ℕ → ℕ → Bool
contains [] n = false
contains (m ∷ ms) n = m == n || contains ms n

-- What one round of the loop in `read_name_into` meets.
pub data NamePart : Type 0 where
  name_end : NamePart
  pointer : ℕ → NamePart
  label : Text → NamePart

-- What a round does with what it met, and the rounds after it. After a pointer the position is the one
-- behind it.
abbrev pub after_part :
    (List Text → ℕ → List ℕ → Parse (List Text))
    → List Text
    → ℕ
    → List ℕ
    → NamePart
    → Parse (List Text)
after_part rounds labels depth visited name_end pos = ok labels pos
after_part rounds labels depth visited (pointer offset) pos =
    at offset (rounds labels (depth + 1) (visited ++ (offset ∷ []))) pos
after_part rounds labels depth visited (label text) pos =
    rounds (labels ++ (text ∷ [])) depth visited pos

-- `octets[0]` to `octets[3]`.
abbrev pub octets_read : List ℕ → Parse RecordData
octets_read (o0 ∷ o1 ∷ o2 ∷ o3 ∷ rest) pos =
    ok (a (record { octet0 = o0; octet1 = o1; octet2 = o2; octet3 = o3 })) pos
octets_read _ pos = panicked

module _ (packet : List ℕ) where
  -- `self.data[self.pos]`.
  unfoldable pub read_u8 : Parse ℕ
  read_u8 pos =
      if leb (length packet) pos
      then err (truncated (length packet))
      else case_option (get_elem? packet pos) panicked (λ byte. ok byte (pos + 1))

  unfoldable pub read_u16 : Parse ℕ
  unfolding read_u8
  read_u16 = do hi ← read_u8; lo ← read_u8; return (bit_or (hi * 2 ^ 8) lo)

  unfoldable pub read_u32 : Parse ℕ
  unfolding read_u8
  read_u32 = do
    b0 ← read_u8
    b1 ← read_u8
    b2 ← read_u8
    b3 ← read_u8
    return (bit_or (bit_or (bit_or (b0 * 2 ^ 24) (b1 * 2 ^ 16)) (b2 * 2 ^ 8)) b3)

  -- `self.data.len() - self.pos`, and the slice.
  unfoldable pub take : ℕ → Parse (List ℕ)
  take n pos =
      if ltb (length packet) pos
      then panicked
      else if ltb (length packet - pos) n
      then err (truncated (length packet))
      else ok (take_front n (drop pos packet)) (pos + n)

  unfoldable pub follow_pointer : ℕ → List ℕ → ℕ → Parse NamePart
  unfolding read_u8 contains
  follow_pointer depth visited b pos =
      if leb max_pointer_depth depth
      then err pointer_depth_exceeded
      else and_then (read_u8 pos) (λ low pos.
        let offset = bit_or (bit_and b 0x3f * 2 ^ 8) low in
        if leb (length packet) offset
        then err (pointer_out_of_bounds offset)
        else if contains visited offset
        then err pointer_cycle
        else ok (pointer offset) pos)

  -- A round of the loop: `match byte`.
  unfoldable pub read_part : ℕ → List ℕ → Parse NamePart
  unfolding read_u8 follow_pointer take
  read_part depth visited pos = and_then (read_u8 pos) (λ b pos.
      if b == 0
      then ok name_end pos
      else if bit_and b 0xc0 == 0xc0
      then follow_pointer depth visited b pos
      else if not (bit_and b 0xc0 == 0)
      then err (bad_label_length b)
      else and_then (take b pos) (λ bytes pos. ok (label (from_utf8_lossy bytes)) pos))

  unfoldable pub read_name_into : ℕ → List Text → ℕ → List ℕ → Parse (List Text)
  unfolding read_part
  read_name_into zero labels depth visited pos = stuck
  read_name_into (suc fuel) labels depth visited pos =
      and_then (read_part depth visited pos) (after_part (read_name_into fuel) labels depth visited)

  -- Five runs through the packet at most: one for each depth.
  abbrev pub name_fuel : ℕ
  name_fuel = suc (5 * suc (length packet))

  unfoldable pub read_name : Parse Text
  unfolding read_name_into join_labels
  read_name = do labels ← read_name_into name_fuel [] 0 []; return (join_labels labels)

  -- `while parser.pos < rdata_start + rdlength`.
  unfoldable pub read_strings : ℕ → ℕ → List (List ℕ) → Parse (List (List ℕ))
  unfolding read_u8 take
  read_strings zero end strings pos = stuck
  read_strings (suc fuel) end strings pos =
      let rest = and_then (read_u8 pos) (λ n pos.
        and_then (take n pos) (λ string. read_strings fuel end (strings ++ (string ∷ [])))) in
      if ltb pos end then rest else ok strings pos

  unfoldable pub read_srv : Parse RecordData
  unfolding read_u16 read_name
  read_srv = do
    priority ← read_u16
    weight ← read_u16
    port ← read_u16
    target ← read_name
    return (srv priority weight port target)

  unfoldable pub read_a : Parse RecordData
  unfolding take
  read_a pos = and_then (take 4 pos) octets_read

  -- `match record_type`, with a parser from the start of the rdata on.
  unfoldable pub read_rdata : ℕ → ℕ → Parse RecordData
  unfolding read_name read_srv read_strings read_a
  read_rdata record_type rdlength start =
      if record_type == type_ptr
      then and_then (read_name start) (λ target. return (ptr target))
      else if record_type == type_srv
      then read_srv start
      else if record_type == type_txt
      then (and_then (read_strings (suc rdlength) (start + rdlength) [] start)
          (λ strings. return (txt strings)))
      else if record_type == type_a
      then read_a start
      else ok other start

  unfoldable pub read_record : Parse DnsRecord
  unfolding read_name read_u16 read_u32 take read_rdata
  read_record = do
    owner ← read_name
    record_type ← read_u16
    class ← read_u16
    ttl ← read_u32
    rdlength ← read_u16
    rdata_start ← position
    bytes ← take rdlength
    rdata ← at rdata_start (read_rdata record_type rdlength)
    return (record { owner = owner; record_type = record_type; ttl = ttl; rdata = rdata })

  unfoldable pub read_question : Parse (Unit {0})
  unfolding read_name read_u16
  read_question = do name ← read_name; qtype ← read_u16; qclass ← read_u16; return tt

  unfoldable pub read_questions : ℕ → Parse (Unit {0})
  unfolding read_question
  read_questions zero = return tt
  read_questions (suc n) = do question ← read_question; read_questions n

  unfoldable pub read_records : ℕ → Parse (List DnsRecord)
  unfolding read_record
  read_records zero = return []
  read_records (suc n) = do r ← read_record; rs ← read_records n; return (r ∷ rs)

  -- The header, the questions, and the records of the three sections.
  unfoldable pub read_packet : Parse (List DnsRecord)
  unfolding read_u16 read_questions read_records
  read_packet = do
    id ← read_u16
    flags ← read_u16
    qdcount ← read_u16
    ancount ← read_u16
    nscount ← read_u16
    arcount ← read_u16
    questions ← read_questions qdcount
    read_records (ancount + nscount + arcount)
