-- ===== src/Cast/Reader/Splits.antt =====
-- What `push_bytes` promises, as a relation: a list of bytes falls into whole frames and a rest
-- that holds no whole frame.
use cast_app.Common.{
  ℕ, suc, ◌+◌, ◌-◌, ◌≤◌, ◌<◌, ◌≡◌, refl, ap, ◌∙◌, ◌≢◌, inl, inr, none, some, List, [], ◌∷◌, ◌++◌,
  length, drop, arith, length-drop, ltb, leb, take, length-append, take-append, drop-append,
  Bool-cases,
}
use cast_app.Common.Bytes.{from_be32}
use cast_app.Cast.Framing.{frame_too_large, truncated, FrameResult, ok, err, max_frame_size}
use cast_app.Cast.Framing.Wire.{parse_frame, parse_payload}

-- Nothing is left, or the front is a frame that has not fully come.
pub data IsPartial (s : List ℕ) : Type 0 where
  nothing : (parse_frame s).0 ≡ ok none → IsPartial s
  cut : (expected got : ℕ) → (parse_frame s).0 ≡ err (truncated expected got) → IsPartial s

pub data Splits : List ℕ → List (List ℕ) → List ℕ → Type 0 where
  stop : {s : List ℕ} → IsPartial s → Splits s [] s
  frame :
      {s rest last : List ℕ} {fs : List (List ℕ)} (payload : List ℕ)
      → parse_frame s ≡ (ok (some payload), rest)
      → Splits rest fs last
      → Splits s (payload ∷ fs) last

parse_payload-append :
    (n : ℕ) (s more payload rest : List ℕ)
    → parse_payload n s ≡ (ok (some payload), rest)
    → parse_payload n (s ++ more) ≡ (ok (some payload), rest ++ more)
unfolding parse_payload
parse_payload-append n s more payload rest e =
    ground (arith, length-append s more, take-append n s more, drop-append n s more)

-- Bytes behind a whole frame join the rest.
pub parse_frame-append :
    (s more payload rest : List ℕ)
    → parse_frame s ≡ (ok (some payload), rest)
    → parse_frame (s ++ more) ≡ (ok (some payload), rest ++ more)
unfolding parse_frame
parse_frame-append [] more payload rest e = cc
parse_frame-append (a ∷ []) more payload rest e = cc
parse_frame-append (a ∷ b ∷ []) more payload rest e = cc
parse_frame-append (a ∷ b ∷ c ∷ []) more payload rest e = cc
parse_frame-append (a ∷ b ∷ c ∷ d ∷ s) more payload rest e =
    parse_payload-append (from_be32 a b c d) s more payload rest e

-- If `s` falls into frames and a rest, and the rest with more bytes falls into further ones, then
-- so does `s` with these bytes.
pub Splits-append :
    {s last last' : List ℕ} {fs gs : List (List ℕ)} (more : List ℕ)
    → Splits s fs last
    → Splits (last ++ more) gs last'
    → Splits (s ++ more) (fs ++ gs) last'
Splits-append more (stop p) next = next
Splits-append more (frame {s = s} {rest = rest} payload e sp) next =
    frame payload (parse_frame-append s more payload rest e) (Splits-append more sp next)

parse_payload_shorter :
    (n : ℕ) (s payload rest : List ℕ)
    → parse_payload n s ≡ (ok (some payload), rest)
    → (length rest ≤ length s) × (rest ≡ drop n s) × (n + length rest ≡ length s)
unfolding parse_payload
parse_payload_shorter n s payload rest e = ground (arith, length-drop n s)

-- A whole frame takes four bytes at least, and what is left is the end of the list.
pub parse_frame_shorter :
    (s payload rest : List ℕ)
    → parse_frame s ≡ (ok (some payload), rest)
    → (length rest < length s) × (rest ≡ drop (length s - length rest) s)
unfolding parse_frame
parse_frame_shorter [] payload rest e = cc
parse_frame_shorter (a ∷ []) payload rest e = cc
parse_frame_shorter (a ∷ b ∷ []) payload rest e = cc
parse_frame_shorter (a ∷ b ∷ c ∷ []) payload rest e = cc
parse_frame_shorter (a ∷ b ∷ c ∷ d ∷ s) payload rest e =
    let (shorter, is_drop, sum) = parse_payload_shorter (from_be32 a b c d) s payload rest e in
    let whole = a ∷ b ∷ c ∷ d ∷ s in
    let taken : suc (suc (suc (suc (from_be32 a b c d)))) ≡ length whole - length rest =
      omega arith in
    (omega arith, is_drop ∙ ap (λ (k : ℕ). drop k whole) taken)

-- What the front of a list may be.
pub data Front (s : List ℕ) : Type 0 where
  whole : (payload rest : List ℕ) → parse_frame s ≡ (ok (some payload), rest) → Front s
  partial : IsPartial s → Front s
  too_large :
      (n : ℕ) → ((more : List ℕ) → (parse_frame (s ++ more)).0 ≡ err (frame_too_large n)) → Front s

four-Front : (a b c d : ℕ) (s : List ℕ) → Front (a ∷ b ∷ c ∷ d ∷ s)
unfolding parse_frame parse_payload
four-Front a b c d s = elim (Bool-cases (ltb max_frame_size (from_be32 a b c d))) [
  | inl large ↦ too_large (from_be32 a b c d) (λ more. rw large refl)
  | inr small ↦ elim (Bool-cases (leb (from_be32 a b c d) (length s))) [
    | inl full ↦
        whole (take (from_be32 a b c d) s) (drop (from_be32 a b c d) s) (rw (small, full) refl)
    | inr short ↦ partial (cut (from_be32 a b c d) (length s) (rw (small, short) refl))
  ]
]

pub front : (s : List ℕ) → Front s
unfolding parse_frame
front [] = partial (nothing refl)
front (a ∷ []) = partial (cut 4 1 refl)
front (a ∷ b ∷ []) = partial (cut 4 2 refl)
front (a ∷ b ∷ c ∷ []) = partial (cut 4 3 refl)
front (a ∷ b ∷ c ∷ d ∷ s) = four-Front a b c d s

pub not_partial :
    {s : List ℕ} (payload : List ℕ) → IsPartial s → (parse_frame s).0 ≢ ok (some payload)
not_partial payload (nothing e) h = cc
not_partial payload (cut expected got e) h = cc

pub not_large : {s : List ℕ} (n : ℕ) → IsPartial s → (parse_frame s).0 ≢ err (frame_too_large n)
not_large n (nothing e) h = cc
not_large n (cut expected got e) h = cc

-- A split of `xs ++ ys` comes from one of `xs` and one of what that leaves before `ys`.
abbrev SplitsAt : List ℕ → List ℕ → List (List ℕ) → List ℕ → Type 0
SplitsAt xs ys fs last =
    (gs : List (List ℕ)) × (hs : List (List ℕ)) × (mid : List ℕ) × (fs ≡ gs ++ hs)
    × Splits xs gs mid
    × Splits (mid ++ ys) hs last

add_frame :
    {xs ys rest last : List ℕ} {fs : List (List ℕ)} (payload : List ℕ)
    → parse_frame xs ≡ (ok (some payload), rest)
    → SplitsAt rest ys fs last
    → SplitsAt xs ys (payload ∷ fs) last
add_frame payload e (gs, hs, mid, sum, left, right) = (
  payload ∷ gs,
  hs,
  mid,
  ap (λ (t : List (List ℕ)). payload ∷ t) sum,
  frame payload e left,
  right,
)

pub Splits-prefix :
    {z last : List ℕ} {fs : List (List ℕ)} (xs ys : List ℕ)
    → Splits z fs last
    → z ≡ xs ++ ys
    → SplitsAt xs ys fs last
Splits-prefix xs ys (stop {s = z} p) e = elim (front xs) [
  | whole payload rest w ↦ absurd (
      not_partial payload p
        (rw e (ap (λ (x : FrameResult × List ℕ). x.0) (parse_frame-append xs ys payload rest w))))
  | partial q ↦ ([], [], xs, refl, stop q, rw (← e) (stop p))
  | too_large n w ↦ absurd (not_large n p (rw e (w ys)))
]
Splits-prefix xs ys (frame {s = z} {rest = after} {fs = fs} payload w sp) e = elim (front xs) [
  | whole payload' rest v ↦
      rw (same payload' rest v).0
        (add_frame payload' v (Splits-prefix rest ys sp (same payload' rest v).1))
  | partial q ↦ ([], payload ∷ fs, xs, refl, stop q, rw (← e) (frame payload w sp))
  | too_large n v ↦ cc (whole_front, v ys)
]
  where
    whole_front : (parse_frame (xs ++ ys)).0 ≡ ok (some payload)
    whole_front = rw (← e) (ap (λ (x : FrameResult × List ℕ). x.0) w)

    same :
        (payload' rest : List ℕ)
        → parse_frame xs ≡ (ok (some payload'), rest)
        → (payload ≡ payload') × (after ≡ rest ++ ys)
    same payload' rest v =
        let sum = parse_frame-append xs ys payload' rest v in (cc (sum, w, e), cc (sum, w, e))

pub Splits-IsPartial : {s last : List ℕ} {fs : List (List ℕ)} → Splits s fs last → IsPartial last
Splits-IsPartial (stop p) = p
Splits-IsPartial (frame payload e sp) = Splits-IsPartial sp

pub IsPartial-Splits :
    {s last : List ℕ} {fs : List (List ℕ)} → IsPartial s → Splits s fs last → (fs ≡ []) × (last ≡ s)
IsPartial-Splits p (stop q) = (refl, refl)
IsPartial-Splits p (frame payload e sp) =
    absurd (not_partial payload p (ap (λ (x : FrameResult × List ℕ). x.0) e))
