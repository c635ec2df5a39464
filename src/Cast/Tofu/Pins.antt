-- ===== src/Cast/Tofu/Pins.antt =====
-- Trust on first use: what a sequence of checks leaves.
use cast_app.Common.{
  ℕ, ◌≡◌, refl, sym, ap, ◌∙◌, Option, none, some, Bool, true, false, List, [], ◌∷◌, if◌then◌else◌,
  Bool-cases, inl, inr,
}
use cast_app.Common.Text.{Text, text_eq, text_eq_sound}
use cast_app.Cast.Connection.{PinCheck, pinned, matched, mismatch}
use cast_app.Cast.Tofu.{
  Fingerprint, PinsFile, TofuStore, get, FileRead, Saving, fingerprint_eq, check, check_pin,
}

-- A receiver that presents a certificate, and how its pin would be saved.
pub record Presented : Type 0 where
  pub key : Text
  pub fingerprint : Fingerprint
  pub saving : Saving

-- The first that was presented for the key.
abbrev pub first_seen : Text → List Presented → Option Fingerprint
first_seen k [] = none
first_seen k (p ∷ ps) = if text_eq p.key k then some p.fingerprint else first_seen k ps

abbrev pub or_else : Option Fingerprint → Option Fingerprint → Option Fingerprint
or_else (some f) g = some f
or_else none g = g

-- The answer to a certificate, by the pin of its key.
abbrev pub answer : Option Fingerprint → Fingerprint → PinCheck
answer none f = pinned
answer (some p) f = if fingerprint_eq p f then matched else mismatch p f

or_else-none : (o : Option Fingerprint) → or_else o none ≡ o
or_else-none none = refl
or_else-none (some f) = refl

or_else_seen :
    (o : Option Fingerprint) (same : Bool) (f : Fingerprint) (rest : Option Fingerprint)
    → or_else (or_else o (if same then some f else none)) rest
      ≡ or_else o (if same then some f else rest)
or_else_seen none true f rest = refl
or_else_seen none false f rest = refl
or_else_seen (some g) same f rest = refl

module _ (to_vec_pretty : PinsFile → Option (List ℕ)) where
  unfoldable pub check_all : List Presented → TofuStore → FileRead → TofuStore × FileRead
  check_all [] store file = (store, file)
  check_all (p ∷ ps) store file =
      let c = check to_vec_pretty p.saving p.key p.fingerprint store file in
      check_all ps c.store c.file

  get-check_pin :
      (k : Text) (p : Presented) (store : TofuStore) (file : FileRead) (pin : Option Fingerprint)
      → get p.key store.pins ≡ pin
      → get k (check_pin to_vec_pretty p.saving p.key p.fingerprint store file pin).store.pins
        ≡ or_else (get k store.pins) (first_seen k (p ∷ []))
  unfolding get
  get-check_pin k p store file none e = elim (Bool-cases (text_eq p.key k)) [
    | inl same ↦ rw same (
        sym (
          ap (λ o. or_else o (some p.fingerprint))
            (ap (λ j. get j store.pins) (sym (text_eq_sound p.key k same)) ∙ e)))
    | inr other ↦ rw other (sym (or_else-none (get k store.pins)))
  ]
  get-check_pin k p store file (some old) e = elim (Bool-cases (text_eq p.key k)) [
    | inl same ↦
        let at_k : get k store.pins ≡ some old =
          ap (λ j. get j store.pins) (sym (text_eq_sound p.key k same)) ∙ e in
        rw (same, at_k)
    | inr other ↦ rw other (sym (or_else-none (get k store.pins)))
  ]

  get-check :
      (k : Text) (p : Presented) (store : TofuStore) (file : FileRead)
      → get k (check to_vec_pretty p.saving p.key p.fingerprint store file).store.pins
        ≡ or_else (get k store.pins) (first_seen k (p ∷ []))
  unfolding check
  get-check k p store file = get-check_pin k p store file (get p.key store.pins) refl

  -- The pin of a key is the stored one, or the first that was presented.
  pub get-check_all :
      (k : Text) (ps : List Presented) (store : TofuStore) (file : FileRead)
      → get k (check_all ps store file).0.pins ≡ or_else (get k store.pins) (first_seen k ps)
  unfolding check_all
  get-check_all k [] store file = sym (or_else-none (get k store.pins))
  get-check_all k (p ∷ ps) store file =
      let c = check to_vec_pretty p.saving p.key p.fingerprint store file in
      get-check_all k ps c.store c.file
      ∙ ap (λ o. or_else o (first_seen k ps)) (get-check k p store file)
      ∙ or_else_seen (get k store.pins) (text_eq p.key k) p.fingerprint (first_seen k ps)

  result-check_pin :
      (p : Presented) (store : TofuStore) (file : FileRead) (pin : Option Fingerprint)
      → (check_pin to_vec_pretty p.saving p.key p.fingerprint store file pin).result
        ≡ answer pin p.fingerprint
  result-check_pin p store file none = refl
  result-check_pin p store file (some old) = refl

  -- After any certificates that receivers have presented, and whatever saving the pins brought, the next
  -- one is pinned if its key is new, matches if it is the stored or else the first one of that key, and
  -- is else a mismatch with that first one: no later certificate replaces a pin.
  pub check-first_seen :
      (ps : List Presented) (p : Presented) (store : TofuStore) (file : FileRead)
      → (check to_vec_pretty p.saving p.key p.fingerprint
          (check_all ps store file).0
          (check_all ps store file).1).result
        ≡ answer (or_else (get p.key store.pins) (first_seen p.key ps)) p.fingerprint
  unfolding check
  check-first_seen ps p store file =
      result-check_pin p (check_all ps store file).0 (check_all ps store file).1
        (get p.key (check_all ps store file).0.pins)
      ∙ ap (λ o. answer o p.fingerprint) (get-check_all p.key ps store file)
