-- ===== src/Cast/Mdns/Total.antt =====
-- The parser of src/cast/mdns.rs on any packet: its positions, and its fuel.
pub mod Fields
pub mod NameLoop
use cast_app.Common.{
  ℕ, zero, suc, ◌+◌, ◌-◌, ◌*◌, ◌≤◌, ◌<◌, ◌^◌, bit_and, bit_or, not, ◌==◌, if◌then◌else◌, ◌≡◌, ◌≢◌,
  refl, some, Bool, true, false, List, [], ◌∷◌, ◌++◌, length, drop, get_elem?, ltb, leb, arith,
  length-take, length-drop, Bool-cases, ltb→lt, inl, inr,
}
use cast_app.Common.Text.{Text}
use cast_app.Cast.Mdns.{
  Read, ok, err, panicked, stuck, and_then, at, max_pointer_depth, NamePart, name_end, pointer,
  label, contains, read_u8, read_u16, read_u32, take, follow_pointer, read_part, read_name_into,
  name_fuel, read_name, octets_read, type_ptr, type_srv, type_txt, type_a, after_part, read_strings,
  read_srv, read_a, read_rdata, read_record, read_question, read_questions, read_records,
  read_packet,
}
use cast_app.Cast.Mdns.Correlate.{DiscoveredDevice, parse_packet}
use cast_app.Cast.Mdns.Total.Fields.{
  Returns, Past, Sliced, and_then-Returns, if-Returns, read_u8-Past, then_Past, weaken,
  read_u16-Past, read_u32-Past, take-Sliced,
}
use cast_app.Cast.Mdns.Total.NameLoop.{read_name-Past}

module _ (packet : List ℕ) where
  -- The end of a parser of its own does not matter.
  abbrev Some : {A : Type 0} → A → ℕ → Type 0
  Some x p = Unit {0}

  then_Some :
      {A : Type 0} {B : Type 0} (pos : ℕ) (m : Read A) (f : A → ℕ → Read B)
      → Returns (Past packet pos) m
      → ((x : A) (p : ℕ) → p ≤ length packet → Returns Some (f x p))
      → Returns Some (and_then m f)
  then_Some pos m f h k = and_then-Returns (Past packet pos) Some m f h (λ x p hp. k x p hp.1)

  read_strings-Some :
      (fuel end : ℕ) (strings : List (List ℕ)) (pos : ℕ)
      → pos ≤ length packet
      → end - pos < fuel
      → Returns Some (read_strings packet fuel end strings pos)
  unfolding read_strings
  read_strings-Some zero end strings pos inside enough = absurd (omega arith)
  read_strings-Some (suc fuel) end strings pos inside enough =
      if-Returns Some (ltb pos end) _ _
        (λ more.
          and_then-Returns (Past packet pos) Some (read_u8 packet pos) _ (read_u8-Past packet pos)
            (λ n p h.
              and_then-Returns (Sliced packet n p) Some (take packet n p) _
                (take-Sliced packet n p h.1)
                (λ string q s.
                  read_strings-Some fuel end (strings ++ (string ∷ [])) q s.2
                    (omega (arith, ltb→lt pos end more)))))
        (λ over. tt)

  read_srv-Some : (pos : ℕ) → pos ≤ length packet → Returns Some (read_srv packet pos)
  unfolding read_srv
  read_srv-Some pos inside =
      then_Some pos (read_u16 packet pos) _ (read_u16-Past packet pos) (λ priority p le.
        then_Some p (read_u16 packet p) _ (read_u16-Past packet p) (λ weight q le1.
          then_Some q (read_u16 packet q) _ (read_u16-Past packet q) (λ port r le2.
            then_Some r (read_name packet r) _ (read_name-Past packet r le2) (λ target s le3. tt))))

  read_a-Some : (pos : ℕ) → pos ≤ length packet → Returns Some (read_a packet pos)
  unfolding read_a
  read_a-Some pos inside =
      and_then-Returns (Sliced packet 4 pos) Some (take packet 4 pos) _
        (take-Sliced packet 4 pos inside) (λ octets p s. by_length octets p s.0)
    where
      by_length :
          (octets : List ℕ) (p : ℕ) → length octets ≡ 4 → Returns Some (octets_read octets p)
      by_length [] p e = absurd (omega arith)
      by_length (o0 ∷ []) p e = absurd (omega arith)
      by_length (o0 ∷ o1 ∷ []) p e = absurd (omega arith)
      by_length (o0 ∷ o1 ∷ o2 ∷ []) p e = absurd (omega arith)
      by_length (o0 ∷ o1 ∷ o2 ∷ o3 ∷ rest) p e = tt

  read_rdata-Some :
      (record_type rdlength start : ℕ)
      → start ≤ length packet
      → Returns Some (read_rdata packet record_type rdlength start)
  unfolding read_rdata
  read_rdata-Some record_type rdlength start inside =
      if-Returns Some (record_type == type_ptr) _ _
        (λ e.
          then_Some start (read_name packet start) _ (read_name-Past packet start inside)
            (λ x p le. tt))
        (λ e.
          if-Returns Some (record_type == type_srv) _ _ (λ e. read_srv-Some start inside)
            (λ e.
              if-Returns Some (record_type == type_txt) _ _
                (λ e.
                  and_then-Returns Some Some
                    (read_strings packet (suc rdlength) (start + rdlength) [] start) _
                    (read_strings-Some (suc rdlength) (start + rdlength) [] start inside
                      (omega arith))
                    (λ strings p h. tt))
                (λ e.
                  if-Returns Some (record_type == type_a) _ _ (λ e. read_a-Some start inside)
                    (λ e. tt))))

  abbrev StaysAt : {A : Type 0} → ℕ → A → ℕ → Type 0
  StaysAt pos x p = p ≡ pos

  at-StaysAt :
      {A : Type 0} (start pos : ℕ) (m : ℕ → Read A)
      → Returns Some (m start)
      → Returns (StaysAt pos) (at start m pos)
  at-StaysAt start pos m h =
      and_then-Returns Some (StaysAt pos) (m start) (λ x end. ok x pos) h (λ x end k. refl)

  read_record-Past :
      (pos : ℕ) → pos ≤ length packet → Returns (Past packet pos) (read_record packet pos)
  unfolding read_record
  read_record-Past pos inside =
      then_Past packet pos pos (read_name packet pos) _ (omega arith)
        (read_name-Past packet pos inside)
        (λ owner p lt le.
          then_Past packet pos p (read_u16 packet p) _ (omega arith) (read_u16-Past packet p)
            (λ record_type p1 lt1 le1.
              then_Past packet pos p1 (read_u16 packet p1) _ (omega arith) (read_u16-Past packet p1)
                (λ class p2 lt2 le2.
                  then_Past packet pos p2 (read_u32 packet p2) _ (omega arith)
                    (read_u32-Past packet p2)
                    (λ ttl p3 lt3 le3.
                      then_Past packet pos p3 (read_u16 packet p3) _ (omega arith)
                        (read_u16-Past packet p3)
                        (λ rdlength p4 lt4 le4.
                          and_then-Returns (Sliced packet rdlength p4) (Past packet pos)
                            (take packet rdlength p4) _ (take-Sliced packet rdlength p4 le4)
                            (λ bytes p5 s.
                              and_then-Returns (StaysAt p5) (Past packet pos)
                                (at p4 (read_rdata packet record_type rdlength) p5) _
                                (at-StaysAt p4 p5 (read_rdata packet record_type rdlength)
                                  (read_rdata-Some record_type rdlength p4 le4))
                                (λ rdata p6 h. (omega arith, omega arith))))))))

  read_question-Past :
      (pos : ℕ) → pos ≤ length packet → Returns (Past packet pos) (read_question packet pos)
  unfolding read_question
  read_question-Past pos inside =
      then_Past packet pos pos (read_name packet pos) _ (omega arith)
        (read_name-Past packet pos inside)
        (λ owner p lt le.
          then_Past packet pos p (read_u16 packet p) _ (omega arith) (read_u16-Past packet p)
            (λ qtype p1 lt1 le1.
              then_Past packet pos p1 (read_u16 packet p1) _ (omega arith) (read_u16-Past packet p1)
                (λ class p2 lt2 le2. (omega arith, le2))))

  -- The position stays inside of the packet.
  abbrev Inside : {A : Type 0} → A → ℕ → Type 0
  Inside x p = p ≤ length packet

  then_Inside :
      {A : Type 0} {B : Type 0} (pos : ℕ) (m : Read A) (f : A → ℕ → Read B)
      → Returns (Past packet pos) m
      → ((x : A) (p : ℕ) → p ≤ length packet → Returns Inside (f x p))
      → Returns Inside (and_then m f)
  then_Inside pos m f h k = and_then-Returns (Past packet pos) Inside m f h (λ x p hp. k x p hp.1)

  read_questions-Inside :
      (n pos : ℕ) → pos ≤ length packet → Returns Inside (read_questions packet n pos)
  unfolding read_questions
  read_questions-Inside zero pos inside = inside
  read_questions-Inside (suc n) pos inside =
      then_Inside pos (read_question packet pos) _ (read_question-Past pos inside)
        (λ question p le. read_questions-Inside n p le)

  read_records-Inside :
      (n pos : ℕ) → pos ≤ length packet → Returns Inside (read_records packet n pos)
  unfolding read_records
  read_records-Inside zero pos inside = inside
  read_records-Inside (suc n) pos inside =
      then_Inside pos (read_record packet pos) _ (read_record-Past pos inside) (λ r p le.
        and_then-Returns Inside Inside (read_records packet n p) _ (read_records-Inside n p le)
          (λ rs q le'. le'))

  read_packet-Inside : (pos : ℕ) → Returns Inside (read_packet packet pos)
  unfolding read_packet
  read_packet-Inside pos =
      then_Inside pos (read_u16 packet pos) _ (read_u16-Past packet pos) (λ id p le.
        then_Inside p (read_u16 packet p) _ (read_u16-Past packet p) (λ flags p1 le1.
          then_Inside p1 (read_u16 packet p1) _ (read_u16-Past packet p1) (λ qdcount p2 le2.
            then_Inside p2 (read_u16 packet p2) _ (read_u16-Past packet p2) (λ ancount p3 le3.
              then_Inside p3 (read_u16 packet p3) _ (read_u16-Past packet p3) (λ nscount p4 le4.
                then_Inside p4 (read_u16 packet p4) _ (read_u16-Past packet p4) (λ arcount p5 le5.
                  and_then-Returns Inside Inside (read_questions packet qdcount p5) _
                    (read_questions-Inside qdcount p5 le5)
                    (λ questions p6 le6.
                      read_records-Inside (ancount + nscount + arcount) p6 le6)))))))

-- On any packet `parse_packet` ends with devices or with an error of the source: no index and no
-- subtraction of the parser is out of range, and its loops and pointers end.
pub parse_packet-ne-panicked :
    (packet : List ℕ) → (parse_packet packet ≢ panicked) × (parse_packet packet ≢ stuck)
parse_packet-ne-panicked packet = by_result (parse_packet packet) refl parsed
  where
    parsed : Returns (λ devices pos. pos ≤ length packet) (parse_packet packet)
    parsed =
        unfold parse_packet in
        and_then-Returns (Inside packet) (λ devices pos. pos ≤ length packet) (read_packet packet 0)
          _ (read_packet-Inside packet 0) (λ records p le. le)

    by_result :
        (r : Read (List DiscoveredDevice))
        → parse_packet packet ≡ r
        → Returns (λ devices pos. pos ≤ length packet) r
        → (r ≢ panicked) × (r ≢ stuck)
    by_result (ok devices p) e h = (λ d. cc, λ d. cc)
    by_result (err x) e h = (λ d. cc, λ d. cc)
    by_result panicked e h = absurd h
    by_result stuck e h = absurd h
