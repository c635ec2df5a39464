-- ===== src/Cast/Tofu.antt =====
-- src/cast/tofu.rs: the pin store. A fingerprint is the list of its 32 bytes; the `HashMap` is an
-- association list in which the first entry with a key counts. The file of the store is what it holds,
-- and what a call of the file system brings is an argument. serde_json is a parameter.
pub mod Hex
pub mod Pins
pub mod Saved
mod Examples
use cast_app.Common.{
  ℕ, zero, suc, ◌+◌, ◌-◌, ◌*◌, ◌/◌, ◌%◌, ◌^◌, bit_or, Option, none, some, Bool, true, false, not,
  ◌&&◌, List, [], ◌∷◌, ◌++◌, length, leb, ◌==◌, if◌then◌else◌, case_option,
}
use cast_app.Common.Text.{Text, codes, text_eq}
use cast_app.Common.Net.{Ipv4Addr, ip_text}
use cast_app.Cast.Connection.{PinCheck, pinned, matched, mismatch}
use mathlib.Core.Option

abbrev pub Fingerprint : Type 0
Fingerprint = List ℕ

abbrev pub fingerprint_size : ℕ
fingerprint_size = 32

abbrev pub Pins : Type 0
Pins = List (Text × Fingerprint)

-- `PinsFile`, a map from keys to hex texts.
abbrev pub PinsFile : Type 0
PinsFile = List (Text × Text)

pub record TofuStore : Type 0 where
  pub pins : Pins
  pub persisted : Bool

unfoldable pub in_memory : TofuStore
in_memory = record { pins = []; persisted = false }

unfoldable pub get {ℓ} : {A : Type ℓ} → Text → List (Text × A) → Option A
get k [] = none
get k ((j, v) ∷ m) = let rest = get k m in if text_eq j k then some v else rest

-- `{byte:02x}`.
unfoldable pub hex_digit : ℕ → ℕ
hex_digit n = if leb n 9 then b'0' + n else b'a' + (n - 10)

unfoldable pub fingerprint_to_hex : Fingerprint → Text
unfolding hex_digit
fingerprint_to_hex [] = []
fingerprint_to_hex (byte ∷ bytes) =
    hex_digit (byte / 16) ∷ hex_digit (byte % 16) ∷ fingerprint_to_hex bytes

unfoldable pub hex_nibble : ℕ → Option ℕ
hex_nibble byte =
    if leb b'0' byte && leb byte b'9'
    then some (byte - b'0')
    else if leb b'a' byte && leb byte b'f'
    then some (byte - b'a' + 10)
    else none

-- The loop over the 32 bytes, two digits each; a text of odd length does not get here.
unfoldable pub decode_digits : Text → Option Fingerprint
unfolding hex_nibble
decode_digits [] = some []
decode_digits (hi ∷ []) = none
decode_digits (hi ∷ lo ∷ hex) =
    let rest = decode_digits hex in
    case_option (hex_nibble hi) none (λ h.
      case_option (hex_nibble lo) none
        (λ l. Option.map (λ bytes. bit_or (h * 2 ^ 4) l ∷ bytes) rest))

unfoldable pub hex_to_fingerprint : Text → Option Fingerprint
unfolding decode_digits
hex_to_fingerprint hex = if not (length hex == 64) then none else decode_digits hex

-- The loop of `load` over the entries of the file.
unfoldable pub load_pins : PinsFile → Pins → Pins
unfolding hex_to_fingerprint
load_pins [] pins = pins
load_pins ((key, hex) ∷ file) pins =
    load_pins file (case_option (hex_to_fingerprint hex) pins (λ f. (key, f) ∷ pins))

-- `fs::read`: what the file holds, or an error.
pub data FileRead : Type 0 where
  contents : List ℕ → FileRead
  not_found : FileRead
  unreadable : FileRead

abbrev pub loaded : Pins → TofuStore
loaded pins = record { pins = pins; persisted = true }

unfoldable pub load : (List ℕ → Option PinsFile) → FileRead → TofuStore
unfolding load_pins
load from_slice (contents bytes) =
    case_option (from_slice bytes) (loaded []) (λ file. loaded (load_pins file []))
load from_slice not_found = loaded []
load from_slice unreadable = loaded []

unfoldable pub file_of : Pins → PinsFile
unfolding fingerprint_to_hex
file_of [] = []
file_of ((key, f) ∷ pins) = (key, fingerprint_to_hex f) ∷ file_of pins

-- The outcomes of `create_dir_all`, of writing the temporary file and of renaming it.
pub record Saving : Type 0 where
  pub dir_created : Bool
  pub written : Bool
  pub renamed : Bool

unfoldable pub save : (PinsFile → Option (List ℕ)) → Saving → TofuStore → FileRead → FileRead
unfolding file_of
save to_vec_pretty out store file =
    if not store.persisted
    then file
    else case_option (to_vec_pretty (file_of store.pins)) file
        (λ bytes. if out.dir_created && out.written && out.renamed then contents bytes else file)

pub record Checked : Type 0 where
  pub store : TofuStore
  pub file : FileRead
  pub result : PinCheck

unfoldable pub fingerprint_eq : Fingerprint → Fingerprint → Bool
unfolding text_eq
fingerprint_eq f g = text_eq f g

-- `match pins.get(key)`.
abbrev pub check_pin :
    (PinsFile → Option (List ℕ))
    → Saving
    → Text
    → Fingerprint
    → TofuStore
    → FileRead
    → Option Fingerprint
    → Checked
check_pin to_vec_pretty out key f store file none =
    let store = record store { pins = (key, f) ∷ store.pins } in
    record { store = store; file = save to_vec_pretty out store file; result = pinned }
check_pin to_vec_pretty out key f store file (some previous) = record {
  store = store;
  file = file;
  result = if fingerprint_eq previous f then matched else mismatch previous f;
}

unfoldable pub check :
    (PinsFile → Option (List ℕ)) → Saving → Text → Fingerprint → TofuStore → FileRead → Checked
unfolding get save fingerprint_eq
check to_vec_pretty out key f store file =
    check_pin to_vec_pretty out key f store file (get key store.pins)

unfoldable pub receiver_key : Option Text → Text → Ipv4Addr → Text
unfolding ip_text
receiver_key none name ip = name ++ (codes "+" ++ ip_text ip)
receiver_key (some []) name ip = name ++ (codes "+" ++ ip_text ip)
receiver_key (some (b ∷ id)) name ip = b ∷ id
