-- ===== src/Cast/Tofu/Examples.antt =====
-- Runs of src/cast/tofu.rs, and its theorems at concrete inputs.
use cast_app.Common.{
  ℕ, zero, suc, ◌≡◌, refl, ap, Option, none, some, true, List, [], ◌∷◌, arith, ◌<◌,
}
use cast_app.Common.Text.{Text, codes}
use cast_app.Cast.Connection.{mismatch}
use cast_app.Cast.Tofu.{
  Fingerprint, PinsFile, in_memory, get, hex_to_fingerprint, contents, not_found, loaded, load,
  Saving, check, receiver_key,
}
use cast_app.Cast.Tofu.Pins.{Presented, first_seen, or_else, answer, check_all, check-first_seen}
use cast_app.Cast.Tofu.Saved.{IsSound, ReadsBack, InSync, check_all-InSync}

-- A text format in the place of JSON: each byte is raised by one, and 0 ends a text.
to_text : Text → List ℕ → List ℕ
to_text [] rest = 0 ∷ rest
to_text (b ∷ s) rest = suc b ∷ to_text s rest

to_vec : PinsFile → List ℕ
to_vec [] = []
to_vec ((k, hex) ∷ file) = to_text k (to_text hex (to_vec file))

push_first : ℕ → List Text → List Text
push_first b [] = (b ∷ []) ∷ []
push_first b (s ∷ ts) = (b ∷ s) ∷ ts

texts : List ℕ → List Text
texts [] = []
texts (zero ∷ rest) = [] ∷ texts rest
texts (suc b ∷ rest) = push_first b (texts rest)

pairs : List Text → PinsFile
pairs (k ∷ hex ∷ ts) = (k, hex) ∷ pairs ts
pairs [] = []
pairs (k ∷ []) = []

texts-to_text : (s : Text) (rest : List ℕ) → texts (to_text s rest) ≡ s ∷ texts rest
unfolding texts to_text push_first
texts-to_text [] rest = refl
texts-to_text (b ∷ s) rest = rw (texts-to_text s rest)

pairs-to_vec : (file : PinsFile) → pairs (texts (to_vec file)) ≡ file
unfolding pairs to_vec texts
pairs-to_vec [] = refl
pairs-to_vec ((k, hex) ∷ file) = rw (
  texts-to_text k (to_text hex (to_vec file)),
  texts-to_text hex (to_vec file),
  pairs-to_vec file,
)

abbrev to_vec_pretty : PinsFile → Option (List ℕ)
to_vec_pretty file = some (to_vec file)

abbrev from_slice : List ℕ → Option PinsFile
from_slice bytes = some (pairs (texts bytes))

format-ReadsBack : ReadsBack to_vec_pretty from_slice
format-ReadsBack file keyed =
    (to_vec file, file, refl, ap (λ f. some f) (pairs-to_vec file), keyed, λ k. refl)

abbrev digest : ℕ → Fingerprint
digest b =
    b ∷ b ∷ b ∷ b ∷ b ∷ b ∷ b ∷ b ∷ b ∷ b ∷ b ∷ b ∷ b ∷ b ∷ b ∷ b ∷ b ∷ b ∷ b ∷ b ∷ b ∷ b ∷ b ∷ b
    ∷ b ∷ b ∷ b ∷ b ∷ b ∷ b ∷ b ∷ b ∷ []

abbrev saving : Saving
saving = record { dir_created = true; written = true; renamed = true }

abbrev kitchen : ℕ → Presented
kitchen b = record { key = codes "kitchen"; fingerprint = digest b; saving = saving }

first_start : InSync to_vec_pretty from_slice (loaded []) not_found
unfolding load
first_start = record { saves = refl; keyed = tt; digests = tt; same_pins = λ k. refl }

kitchen-IsSound : (b : ℕ) → b < 256 → IsSound (kitchen b)
kitchen-IsSound b byte = (omega arith, (refl, refl, refl))

check_all-InSync_example :
    InSync to_vec_pretty from_slice
      (check_all to_vec_pretty (kitchen 7 ∷ kitchen 8 ∷ []) (loaded []) not_found).0
      (check_all to_vec_pretty (kitchen 7 ∷ kitchen 8 ∷ []) (loaded []) not_found).1
check_all-InSync_example =
    check_all-InSync to_vec_pretty from_slice format-ReadsBack (kitchen 7 ∷ kitchen 8 ∷ [])
      (loaded []) not_found (kitchen-IsSound 7 (omega arith), (kitchen-IsSound 8 (omega arith), tt))
      first_start

check-first_seen_example :
    (check to_vec_pretty saving
      (codes "kitchen")
      (digest 8)
      (check_all to_vec_pretty (kitchen 7 ∷ kitchen 8 ∷ []) in_memory not_found).0
      (check_all to_vec_pretty (kitchen 7 ∷ kitchen 8 ∷ []) in_memory not_found).1).result
    ≡ answer
        (or_else
          (get (codes "kitchen") in_memory.pins)
          (first_seen (codes "kitchen") (kitchen 7 ∷ kitchen 8 ∷ [])))
        (digest 8)
check-first_seen_example =
    check-first_seen to_vec_pretty (kitchen 7 ∷ kitchen 8 ∷ []) (kitchen 8) in_memory not_found

warned_again :
    (check to_vec_pretty saving
      (codes "kitchen")
      (digest 8)
      (check_all to_vec_pretty (kitchen 7 ∷ kitchen 8 ∷ []) in_memory not_found).0
      not_found).result
    ≡ mismatch (digest 7) (digest 8)
unfolding check check_all in_memory
warned_again = refl

uppercase_is_malformed : hex_to_fingerprint (codes "AB") ≡ none
unfolding hex_to_fingerprint
uppercase_is_malformed = refl

corrupt_file_is_empty : load (λ bytes. none) (contents (1 ∷ [])) ≡ loaded []
unfolding load
corrupt_file_is_empty = refl

key_without_id :
    receiver_key
      (some [])
      (codes "Den")
      (record { octet0 = 10; octet1 = 0; octet2 = 0; octet3 = 9 })
    ≡ codes "Den+10.0.0.9"
unfolding receiver_key
key_without_id = refl
