-- ===== src/Media/LocalFile.antt =====
-- src/media/local_file.rs: the answer to a request for a file, src/media/mime.rs: its type. A file is its
-- bytes; what each read and each write bring is an argument.
pub mod Body
mod Examples
use cast_app.Common.{
  ℕ, ◌+◌, ◌-◌, min, Option, none, some, Bool, true, false, not, List, [], ◌∷◌, ◌++◌, length, take,
  drop, ◌==◌, if◌then◌else◌, case_option,
}
use cast_app.Common.Text.{Text, codes, eq_ignore_ascii_case, decimal}
use cast_app.Media.Range.{
  RangeDecision, full, partial, unsatisfiable, parse_range, content_range,
  unsatisfiable_content_range,
}
use cast_app.Media.Http.{response_head}

abbrev pub chunk_size : ℕ
chunk_size = 65536

abbrev pub mime_table : List (Text × Text)
mime_table =
    (codes "mp4", codes "video/mp4")
    ∷ (codes "webm", codes "video/webm")
    ∷ (codes "mkv", codes "video/x-matroska")
    ∷ (codes "mov", codes "video/quicktime")
    ∷ (codes "mp3", codes "audio/mpeg")
    ∷ (codes "aac", codes "audio/aac")
    ∷ (codes "m4a", codes "audio/mp4")
    ∷ (codes "flac", codes "audio/flac")
    ∷ (codes "wav", codes "audio/wav")
    ∷ []

abbrev pub default_mime : Text
default_mime = codes "application/octet-stream"

unfoldable pub find_mime : Text → List (Text × Text) → Text
unfolding eq_ignore_ascii_case
find_mime extension [] = default_mime
find_mime extension ((ext, mime) ∷ table) =
    let rest = find_mime extension table in
    if eq_ignore_ascii_case ext extension then mime else rest

unfoldable pub mime_for_extension : Text → Text
unfolding find_mime
mime_for_extension extension = find_mime extension mime_table

-- The argument is what `path.extension()` has, if it is a `str`.
unfoldable pub mime_for_path : Option Text → Text
unfolding mime_for_extension
mime_for_path none = default_mime
mime_for_path (some extension) = mime_for_extension extension

-- A round of the loop: how many bytes the file has ready, and whether the writer takes them; or an error.
pub data Round : Type 0 where
  gives : ℕ → (wrote : Bool) → Round
  fails : Round

-- What was written, and whether the result is `Ok`.
pub record Sent : Type 0 where
  pub written : List ℕ
  pub succeeded : Bool

abbrev pub behind : List ℕ → Sent → Sent
behind bytes s = record s { written = bytes ++ s.written }

-- A read of at most `want` bytes, of which there are none at the end of the file.
abbrev pub after_read : List ℕ → Bool → Sent → Sent
after_read [] wrote rest = record { written = []; succeeded = true }
after_read (b ∷ bytes) false rest = record { written = []; succeeded = false }
after_read (b ∷ bytes) true rest = behind (b ∷ bytes) rest

-- `file` is what lies behind the position. A read that the list does not have fails.
unfoldable pub stream_reader : List Round → List ℕ → ℕ → Sent
stream_reader [] file remaining = record { written = []; succeeded = remaining == 0 }
stream_reader (fails ∷ rounds) file remaining = record { written = []; succeeded = remaining == 0 }
stream_reader (gives n wrote ∷ rounds) file remaining =
    let read = take (min n (min remaining chunk_size)) file in
    let rest = stream_reader rounds (drop (length read) file) (remaining - length read) in
    if remaining == 0 then record { written = []; succeeded = true } else after_read read wrote rest

-- `File::open`, and the size of the file.
pub data Opening : Type 0 where
  opened : List ℕ → Opening
  missing : Opening
  open_failed : Opening

-- What the calls of `serve` bring: the head of the response, the seek, the reads, and the last flush.
pub record Outcomes : Type 0 where
  pub head_written : Bool
  pub sought : Bool
  pub rounds : List Round
  pub flushed : Bool

abbrev pub then_flush : Bool → Sent → Sent
then_flush flushed s = if s.succeeded then record s { succeeded = flushed } else s

-- A head, and the body behind it.
abbrev pub answers : Outcomes → List ℕ → Sent → Sent
answers out head body =
    if out.head_written
    then then_flush out.flushed (behind head body)
    else record { written = []; succeeded = false }

abbrev pub nothing : Sent
nothing = record { written = []; succeeded = true }

abbrev pub answer_full : Text → List ℕ → Bool → Outcomes → Sent
answer_full mime file head_only out =
    answers out
      (response_head 200 (codes "OK") (
        (codes "Accept-Ranges", codes "bytes")
        ∷ (codes "Content-Type", mime)
        ∷ (codes "Content-Length", decimal (length file))
        ∷ (codes "Cache-Control", codes "no-cache")
        ∷ []))
      (if head_only then nothing else stream_reader out.rounds file (length file))

abbrev pub seek_and_stream : Bool → ℕ → ℕ → List Round → List ℕ → Sent
seek_and_stream false start len rounds file = record { written = []; succeeded = false }
seek_and_stream true start len rounds file = stream_reader rounds (drop start file) len

abbrev pub answer_partial : ℕ → ℕ → Text → List ℕ → Bool → Outcomes → Sent
answer_partial start end mime file head_only out =
    answers out
      (response_head 206 (codes "Partial Content") (
        (codes "Accept-Ranges", codes "bytes")
        ∷ (codes "Content-Type", mime)
        ∷ (codes "Content-Length", decimal (end - start + 1))
        ∷ (codes "Content-Range", content_range start end (length file))
        ∷ (codes "Cache-Control", codes "no-cache")
        ∷ []))
      (if head_only
        then nothing
        else seek_and_stream out.sought start (end - start + 1) out.rounds file)

abbrev pub answer_unsatisfiable : Text → List ℕ → Outcomes → Sent
answer_unsatisfiable mime file out =
    answers out
      (response_head 416 (codes "Range Not Satisfiable") (
        (codes "Accept-Ranges", codes "bytes")
        ∷ (codes "Content-Type", mime)
        ∷ (codes "Content-Length", codes "0")
        ∷ (codes "Content-Range", unsatisfiable_content_range (length file))
        ∷ []))
      nothing

-- `match decision`.
abbrev pub answer : RangeDecision → Text → List ℕ → Bool → Outcomes → Sent
answer full mime file head_only out = answer_full mime file head_only out
answer (partial start end) mime file head_only out =
    answer_partial start end mime file head_only out
answer unsatisfiable mime file head_only out = answer_unsatisfiable mime file out

unfoldable pub serve : Opening → Option Text → Option Text → Bool → Outcomes → Sent
unfolding parse_range mime_for_path stream_reader response_head content_range
    unsatisfiable_content_range
serve (opened file) extension range_header head_only out =
    answer (parse_range range_header (length file)) (mime_for_path extension) file head_only out
serve missing extension range_header head_only out =
    answers out (response_head 404 (codes "Not Found") []) nothing
serve open_failed extension range_header head_only out = record { written = []; succeeded = false }
