-- ===== src/Cast/Tofu/Saved.antt =====
-- The pins of a store and those of the file that it was saved to.
use cast_app.Common.{
  ℕ, ◌≡◌, refl, sym, ap, ◌∙◌, Option, none, some, true, List, [], ◌∷◌, All, if◌then◌else◌,
  case_option, Bool-cases, inl, inr,
}
use mathlib.Core.Option
use cast_app.Common.Text.{Text, text_eq, text_eq_sound}
use cast_app.Cast.Tofu.{
  Fingerprint, Pins, PinsFile, TofuStore, get, fingerprint_to_hex, hex_to_fingerprint, load_pins,
  FileRead, contents, load, file_of, Saving, save, check_pin, check,
}
use cast_app.Cast.Tofu.Hex.{IsFingerprint, hex_to_fingerprint-fingerprint_to_hex}
use cast_app.Cast.Tofu.Pins.{Presented, check_all}

-- No key stands twice, as in a `HashMap`.
abbrev pub IsKeyed {ℓ} : {A : Type ℓ} → List (Text × A) → Type ℓ
IsKeyed [] = Unit
IsKeyed ((k, v) ∷ m) = (get k m ≡ none) × IsKeyed m

-- What `load_pins` makes of the text of a key.
abbrev or_decoded : Option Text → Option Fingerprint → Option Fingerprint
or_decoded none pin = pin
or_decoded (some hex) pin = case_option (hex_to_fingerprint hex) pin (λ f. some f)

get_of_eq {ℓ} :
    {A : Type ℓ} (j k : Text) (m : List (Text × A)) → text_eq j k ≡ true → get k m ≡ get j m
get_of_eq j k m same = ap (λ i. get i m) (sym (text_eq_sound j k same))

get-with_entry :
    (k key : Text) (hex : Option Fingerprint) (pins : Pins)
    → get k (case_option hex pins (λ f. (key, f) ∷ pins))
      ≡ (if text_eq key k then case_option hex (get k pins) (λ f. some f) else get k pins)
unfolding get
get-with_entry k key none pins = elim (Bool-cases (text_eq key k)) [ inl s ↦ rw s | inr s ↦ rw s ]
get-with_entry k key (some f) pins = refl

get-load_pins :
    (k : Text) (file : PinsFile) (pins : Pins)
    → IsKeyed file
    → get k (load_pins file pins) ≡ or_decoded (get k file) (get k pins)
unfolding load_pins get
get-load_pins k [] pins keyed = refl
get-load_pins k ((key, hex) ∷ file) pins (absent, keyed) =
    get-load_pins k file (case_option (hex_to_fingerprint hex) pins (λ f. (key, f) ∷ pins)) keyed
    ∙ ap (or_decoded (get k file)) (get-with_entry k key (hex_to_fingerprint hex) pins)
    ∙ elim (Bool-cases (text_eq key k)) [
      | inl same ↦ rw (same, get_of_eq key k file same, absent)
      | inr other ↦ rw other
    ]

get-file_of :
    (k : Text) (pins : Pins) → get k (file_of pins) ≡ Option.map fingerprint_to_hex (get k pins)
unfolding get file_of
get-file_of k [] = refl
get-file_of k ((key, f) ∷ pins) = elim (Bool-cases (text_eq key k)) [
  | inl same ↦ rw same
  | inr other ↦ rw other (get-file_of k pins)
]

file_of-IsKeyed : (pins : Pins) → IsKeyed pins → IsKeyed (file_of pins)
unfolding file_of
file_of-IsKeyed [] keyed = tt
file_of-IsKeyed ((key, f) ∷ pins) (absent, keyed) =
    (get-file_of key pins ∙ ap (Option.map fingerprint_to_hex) absent, file_of-IsKeyed pins keyed)

abbrev pub AreDigests : Pins → Type 0
AreDigests [] = Unit {0}
AreDigests ((k, f) ∷ pins) = IsFingerprint f × AreDigests pins

decoded :
    (k : Text) (pins : Pins)
    → AreDigests pins
    → or_decoded (Option.map fingerprint_to_hex (get k pins)) none ≡ get k pins
unfolding get
decoded k [] digests = refl
decoded k ((key, f) ∷ pins) (digest, digests) = elim (Bool-cases (text_eq key k)) [
  | inl same ↦ rw (same, hex_to_fingerprint-fingerprint_to_hex f digest)
  | inr other ↦ rw other (decoded k pins digests)
]

-- A save that the file system carries out.
abbrev pub Succeeds : Saving → Type 0
Succeeds out = (out.dir_created ≡ true) × (out.written ≡ true) × (out.renamed ≡ true)

abbrev pub IsSound : Presented → Type 0
IsSound p = IsFingerprint p.fingerprint × Succeeds p.saving

module _ (to_vec_pretty : PinsFile → Option (List ℕ)) (from_slice : List ℕ → Option PinsFile) where
  -- serde_json: what it writes of a map, it reads as that map, in any order.
  abbrev pub ReadsBack : Type 0
  ReadsBack =
      (file : PinsFile)
      → IsKeyed file
      → (bytes : List ℕ) × (file' : PinsFile) × (to_vec_pretty file ≡ some bytes)
        × (from_slice bytes ≡ some file')
        × IsKeyed file'
        × ((k : Text) → get k file' ≡ get k file)

  -- A store that saves itself, and a file from which the same pins would be loaded.
  pub record InSync (store : TofuStore) (file : FileRead) : Type 0 where
    pub saves : store.persisted ≡ true
    pub keyed : IsKeyed store.pins
    pub digests : AreDigests store.pins
    pub same_pins : (k : Text) → get k (load from_slice file).pins ≡ get k store.pins

  module _ (reads_back : ReadsBack) where
    saved_pins :
        (pins : Pins) (k : Text) (bytes : List ℕ) (file' : PinsFile)
        → AreDigests pins
        → from_slice bytes ≡ some file'
        → IsKeyed file'
        → get k file' ≡ get k (file_of pins)
        → get k (load from_slice (contents bytes)).pins ≡ get k pins
    unfolding load get
    saved_pins pins k bytes file' digests read keyed same = rw read (
        get-load_pins k file' [] keyed
        ∙ ap (λ o. or_decoded o none) (same ∙ get-file_of k pins)
        ∙ decoded k pins digests)

    save_done :
        (store : TofuStore) (file : FileRead) (out : Saving) (bytes : List ℕ)
        → store.persisted ≡ true
        → to_vec_pretty (file_of store.pins) ≡ some bytes
        → Succeeds out
        → save to_vec_pretty out store file ≡ contents bytes
    unfolding save
    save_done store file out bytes saves wrote (dir, written, renamed) =
        rw (saves, wrote, dir, written, renamed)

    save-InSync :
        (store : TofuStore) (file : FileRead) (out : Saving)
        → store.persisted ≡ true
        → IsKeyed store.pins
        → AreDigests store.pins
        → Succeeds out
        → InSync store (save to_vec_pretty out store file)
    save-InSync store file out saves keyed digests succeeds =
        let (bytes, file', wrote, read, keyed', same) =
          reads_back (file_of store.pins) (file_of-IsKeyed store.pins keyed) in
        record {
          saves = saves;
          keyed = keyed;
          digests = digests;
          same_pins = λ k.
              rw (save_done store file out bytes saves wrote succeeds)
                (saved_pins store.pins k bytes file' digests read keyed' (same k));
        }

    check_pin-InSync :
        (p : Presented) (store : TofuStore) (file : FileRead) (pin : Option Fingerprint)
        → get p.key store.pins ≡ pin
        → IsSound p
        → InSync store file
        → InSync
            (check_pin to_vec_pretty p.saving p.key p.fingerprint store file pin).store
            (check_pin to_vec_pretty p.saving p.key p.fingerprint store file pin).file
    check_pin-InSync p store file none e (digest, saved) sync =
        save-InSync (record store { pins = (p.key, p.fingerprint) ∷ store.pins }) file p.saving
          sync.saves (e, sync.keyed) (digest, sync.digests) saved
    check_pin-InSync p store file (some old) e sound sync = sync

    -- Whatever certificates receivers present, if each save succeeds, and the file held the pins of the
    -- store before: it holds them afterwards, so that a restart loads the same pin, or none, for each key.
    pub check_all-InSync :
        (ps : List Presented) (store : TofuStore) (file : FileRead)
        → All IsSound ps
        → InSync store file
        → InSync (check_all to_vec_pretty ps store file).0 (check_all to_vec_pretty ps store file).1
    unfolding check_all check
    check_all-InSync [] store file sound sync = sync
    check_all-InSync (p ∷ ps) store file (first, sound) sync =
        let c = check to_vec_pretty p.saving p.key p.fingerprint store file in
        check_all-InSync ps c.store c.file sound
          (check_pin-InSync p store file (get p.key store.pins) refl first sync)
