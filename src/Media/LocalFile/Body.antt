-- ===== src/Media/LocalFile/Body.antt =====
-- The bytes of an answer for a file.
use cast_app.Common.{
  ℕ, zero, suc, ◌+◌, ◌-◌, ◌≤◌, ◌<◌, ◌≡◌, refl, sym, ap, ◌∙◌, min, Option, Bool, true, false, List,
  [], ◌∷◌, ◌++◌, length, take, drop, All, length-take, length-drop, take_all, ◌==◌, arith,
}
use cast_app.Common.Text.{Text, codes, decimal, digits}
use cast_app.Media.Range.{
  RangeDecision, full, partial, unsatisfiable, parse_range, content_range,
  unsatisfiable_content_range,
}
use cast_app.Media.Range.Sound.{IsWithin, parse_range-Within}
use cast_app.Media.Http.{response_head}
use cast_app.Media.LocalFile.{
  chunk_size, mime_for_path, Round, gives, fails, Sent, after_read, behind, stream_reader, opened,
  Outcomes, answer, serve,
}

-- The file has a byte ready at least, and the writer takes it.
abbrev pub IsGood : Round → Type 0
IsGood (gives n wrote) = (0 < n) × (wrote ≡ true)
IsGood fails = ⊥

-- Nothing fails, and there are enough rounds for single bytes.
pub record IsSmooth (file : List ℕ) (out : Outcomes) : Type 0 where
  pub head : out.head_written ≡ true
  pub seek : out.sought ≡ true
  pub reads : All IsGood out.rounds
  pub enough : length file ≤ length out.rounds
  pub flush : out.flushed ≡ true

-- What a client is promised.
abbrev pub status : RangeDecision → ℕ
status full = 200
status (partial start end) = 206
status unsatisfiable = 416

abbrev pub reason : RangeDecision → Text
reason full = codes "OK"
reason (partial start end) = codes "Partial Content"
reason unsatisfiable = codes "Range Not Satisfiable"

-- The bytes from `start` to `end`, both included.
abbrev pub slice : RangeDecision → List ℕ → List ℕ
slice full file = file
slice (partial start end) file = take (end + 1 - start) (drop start file)
slice unsatisfiable file = []

abbrev pub range_lines : RangeDecision → List ℕ → List (Text × Text)
range_lines full file = []
range_lines (partial start end) file =
    (codes "Content-Range", content_range start end (length file)) ∷ []
range_lines unsatisfiable file =
    (codes "Content-Range", unsatisfiable_content_range (length file)) ∷ []

abbrev pub cache_lines : RangeDecision → List (Text × Text)
cache_lines unsatisfiable = []
cache_lines full = (codes "Cache-Control", codes "no-cache") ∷ []
cache_lines (partial start end) = (codes "Cache-Control", codes "no-cache") ∷ []

abbrev pub promised_head : RangeDecision → Text → List ℕ → List ℕ
promised_head d mime file = response_head (status d) (reason d) (
    (codes "Accept-Ranges", codes "bytes")
      ∷ (codes "Content-Type", mime)
      ∷ (codes "Content-Length", decimal (length (slice d file)))
      ∷ range_lines d file
    ++ cache_lines d)

abbrev pub body : Bool → List ℕ → List ℕ
body true bytes = []
body false bytes = bytes

take-add : (m k : ℕ) (xs : List ℕ) → take (m + k) xs ≡ take m xs ++ take k (drop m xs)
take-add zero k xs = ap (λ (n : ℕ). take n xs) {x = 0 + k} (omega arith)
take-add (suc m) k [] =
    ap (λ (n : ℕ). take {A = ℕ} n []) {x = suc m + k} {y = suc (m + k)} (omega arith)
    ∙ sym (take_all k [] (omega arith))
take-add (suc m) k (x ∷ xs) =
    ap (λ (n : ℕ). take n (x ∷ xs)) {x = suc m + k} {y = suc (m + k)} (omega arith)
    ∙ ap (λ t. x ∷ t) (take-add m k xs)

after_read-some :
    (bytes : List ℕ) (rest : Sent)
    → 0 < length bytes
    → after_read bytes true rest ≡ behind bytes rest
after_read-some [] rest h = absurd (omega arith)
after_read-some (b ∷ bytes) rest h = refl

-- A round that brings `m` bytes.
read_some :
    (m : ℕ) (rounds : List Round) (file : List ℕ) (remaining : ℕ)
    → 0 < m
    → m ≤ remaining
    → remaining ≤ length file
    → stream_reader rounds (drop m file) (remaining - m)
      ≡ record { written = take (remaining - m) (drop m file); succeeded = true }
    → after_read
        (take m file)
        true
        (stream_reader rounds (drop (length (take m file)) file) (remaining - length (take m file)))
      ≡ record { written = take remaining file; succeeded = true }
read_some m rounds file remaining some_byte few inside ih =
    let size : length (take m file) ≡ m = omega (arith, length-take m file) in
    let whole : take m file ++ take (remaining - m) (drop m file) ≡ take remaining file =
      sym (take-add m (remaining - m) file)
      ∙ ap (λ (n : ℕ). take n file) {x = m + (remaining - m)} (omega arith) in
    rw (after_read-some (take m file) _ (omega (arith, size)), size, ih)
      (ap (λ t. record { written = t; succeeded = true }) whole)

stream_reader-take :
    (rounds : List Round) (file : List ℕ) (remaining : ℕ)
    → All IsGood rounds
    → remaining ≤ length file
    → remaining ≤ length rounds
    → stream_reader rounds file remaining
      ≡ record { written = take remaining file; succeeded = true }
unfolding stream_reader
stream_reader-take [] file zero good inside enough = refl
stream_reader-take [] file (suc remaining) good inside enough = absurd (omega arith)
stream_reader-take (fails ∷ rounds) file remaining (bad, good) inside enough = absurd bad
stream_reader-take (gives n wrote ∷ rounds) file zero good inside enough = refl
stream_reader-take (gives n wrote ∷ rounds) file (suc remaining) ((some_byte, wrote_it), good)
      inside enough =
    let more : (suc remaining == 0) ≡ false = ground arith in
    let m = min n (min (suc remaining) chunk_size) in
    rw (more, wrote_it)
      (read_some m rounds file (suc remaining) (omega arith) (omega arith) inside (
        stream_reader-take rounds (drop m file) (suc remaining - m) good
          (omega (arith, length-drop m file)) (omega arith)))

length-slice :
    (file : List ℕ) (start end : ℕ)
    → start ≤ end
    → end < length file
    → length (take (end + 1 - start) (drop start file)) ≡ end + 1 - start
length-slice file start end order inside =
    omega (arith, length-take (end + 1 - start) (drop start file), length-drop start file)

included : (start end : ℕ) → start ≤ end → end - start + 1 ≡ end + 1 - start
included start end order = omega arith

zero_text : decimal 0 ≡ codes "0"
unfolding decimal digits
zero_text = refl

answer-slice :
    (d : RangeDecision) (mime : Text) (file : List ℕ) (head_only : Bool) (out : Outcomes)
    → IsWithin (length file) d
    → IsSmooth file out
    → answer d mime file head_only out ≡ record {
      written = promised_head d mime file ++ body head_only (slice d file);
      succeeded = true;
    }
answer-slice full mime file true out within smooth = rw (smooth.head, smooth.flush)
answer-slice full mime file false out within smooth = rw (
  smooth.head,
  stream_reader-take out.rounds file (length file) smooth.reads (omega arith) smooth.enough,
  smooth.flush,
  take_all (length file) file (omega arith),
)
answer-slice (partial start end) mime file true out (order, inside) smooth =
    rw (
      included start end order,
      length-slice file start end order inside,
      smooth.head,
      smooth.flush,
    )
answer-slice (partial start end) mime file false out (order, inside) smooth = rw (
  included start end order,
  length-slice file start end order inside,
  smooth.head,
  smooth.seek,
  stream_reader-take out.rounds (drop start file) (end + 1 - start) smooth.reads
      (omega (arith, length-drop start file)) (omega (arith, smooth.enough)),
  smooth.flush,
)
answer-slice unsatisfiable mime file true out within smooth =
    rw (smooth.head, smooth.flush, zero_text)
answer-slice unsatisfiable mime file false out within smooth =
    rw (smooth.head, smooth.flush, zero_text)

-- A GET or HEAD request for a file, while nothing fails, the file does not shrink and each read brings a
-- byte at least, whatever the range header and however the reads cut the file: the status is that of the
-- range decision, `Content-Length` is the number of bytes that the decision names, and the body, empty for
-- HEAD, is exactly these bytes of the file.
pub serve-slice :
    (file : List ℕ) (extension range_header : Option Text) (head_only : Bool) (out : Outcomes)
    → IsSmooth file out
    → serve (opened file) extension range_header head_only out ≡ record {
      written =
          promised_head (parse_range range_header (length file)) (mime_for_path extension) file
          ++ body head_only (slice (parse_range range_header (length file)) file);
      succeeded = true;
    }
unfolding serve
serve-slice file extension range_header head_only out smooth =
    answer-slice (parse_range range_header (length file)) (mime_for_path extension) file head_only
      out (parse_range-Within range_header (length file)) smooth
