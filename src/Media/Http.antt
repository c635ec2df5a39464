-- ===== src/Media/Http.antt =====
-- src/media/server.rs: the head of a request and of a response. What the peer sends is its bytes, and
-- whether the connection then breaks or is closed.
pub mod Lines
pub mod RoundTrip
pub mod Total
mod Examples
use cast_app.Common.Trim.{trim}
use cast_app.Common.{
  ℕ, zero, suc, ◌+◌, ◌≤◌, ◌≡◌, Option, none, some, Bool, true, false, not, ◌&&◌, ◌||◌, List, [],
  ◌∷◌, ◌++◌, length, take, drop, ltb, leb, ◌==◌, if◌then◌else◌, case_option,
}
use cast_app.Common.Text.{Text, codes, text_eq, to_ascii_lowercase, decimal, split_once}
use cast_app.Common.Utf8.{from_utf8_lossy}
use mathlib.Core.List.{reverse}

abbrev pub max_request_line : ℕ
max_request_line = 8192

abbrev pub max_header_line : ℕ
max_header_line = 8192

abbrev pub max_headers : ℕ
max_headers = 64

pub record Peer : Type 0 where
  pub bytes : List ℕ
  pub breaks : Bool

-- The kinds of `io::Error`.
pub data ErrorKind : Type 0 where
  unexpected_eof : ErrorKind
  invalid_data : ErrorKind
  broken : ErrorKind

-- `stuck` is no Rust value: a loop ran out of fuel.
pub data Reading {ℓ} (A : Type ℓ) : Type ℓ where
  done : A → Peer → Reading A
  failed : ErrorKind → Reading A
  stuck : Reading A

abbrev pub and_then {ℓ κ} :
    {A : Type ℓ} {B : Type κ} → Reading A → (A → Peer → Reading B) → Reading B
and_then (done x peer) f = f x peer
and_then (failed e) f = failed e
and_then stuck f = stuck

-- A line with its line feed, and what is behind it.
unfoldable pub split_line : List ℕ → Option (List ℕ × List ℕ)
split_line [] = none
split_line (b ∷ bytes) =
    let rest = split_line bytes in
    if b == 10
    then some (10 ∷ [], bytes)
    else case_option rest none (λ (line, behind). some (b ∷ line, behind))

-- `read_until(b'\n')`.
unfoldable pub read_until : Peer → Reading (List ℕ)
unfolding split_line
read_until peer =
    case_option (split_line peer.bytes)
      (if peer.breaks then failed broken else done peer.bytes (record peer { bytes = [] }))
      (λ (line, behind). done line (record peer { bytes = behind }))

unfoldable pub ends_with_newline : List ℕ → Bool
ends_with_newline [] = false
ends_with_newline (b ∷ []) = b == 10
ends_with_newline (b ∷ c ∷ bytes) = ends_with_newline (c ∷ bytes)

abbrev pub line_text : List ℕ → Option Text
line_text [] = none
line_text (b ∷ bytes) = some (from_utf8_lossy (b ∷ bytes))

-- The loop of `read_limited_line`.
unfoldable pub line_loop : ℕ → ℕ → List ℕ → Peer → Reading (Option Text)
unfolding read_until ends_with_newline
line_loop zero max buf peer = stuck
line_loop (suc fuel) max buf peer = and_then (read_until peer) (λ read peer.
    let buf = buf ++ read in
    let rest = line_loop fuel max buf peer in
    if ltb max (length buf)
    then failed invalid_data
    else if length read == 0 || ends_with_newline buf
    then done (line_text buf) peer
    else rest)

-- A line that does not end with a line feed is the last one: the second read finds nothing.
unfoldable pub read_limited_line : ℕ → Peer → Reading (Option Text)
unfolding line_loop
read_limited_line max peer = line_loop 2 max [] peer

unfoldable pub drop_line_ends : Text → Text
drop_line_ends [] = []
drop_line_ends (b ∷ s) = let rest = drop_line_ends s in if b == 13 || b == 10 then rest else b ∷ s

-- `trim_end_matches(['\r', '\n'])`.
unfoldable pub trim_line_end : Text → Text
unfolding drop_line_ends
trim_line_end s = reverse (drop_line_ends (reverse s))

unfoldable pub starts_with : Text → Text → Bool
starts_with s [] = true
starts_with [] (p ∷ prefix) = false
starts_with (b ∷ s) (p ∷ prefix) = b == p && starts_with s prefix

-- `splitn(3, ' ')`, an absent part being empty.
abbrev pub split_request_line : Text → Text × Text × Text
split_request_line line =
    case_option (split_once 32 line) (line, [], [])
      (λ (method, behind).
        case_option (split_once 32 behind) (method, behind, [])
          (λ (target, version). (method, target, version)))

pub record HttpRequest : Type 0 where
  pub method : Text
  pub target : Text
  pub headers : List (Text × Text)

-- `HashMap::insert`.
unfoldable pub insert_header : Text → Text → List (Text × Text) → List (Text × Text)
unfolding text_eq
insert_header name value [] = (name, value) ∷ []
insert_header name value ((key, old) ∷ headers) =
    let rest = insert_header name value headers in
    if text_eq key name then (key, value) ∷ headers else (key, old) ∷ rest

unfoldable pub get_header : Text → List (Text × Text) → Option Text
unfolding text_eq
get_header name [] = none
get_header name ((key, value) ∷ headers) =
    let rest = get_header name headers in if text_eq key name then some value else rest

-- The loop over the header lines.
unfoldable pub read_headers : ℕ → List (Text × Text) → Peer → Reading (List (Text × Text))
unfolding read_limited_line trim_line_end split_once insert_header trim to_ascii_lowercase
read_headers zero headers peer = stuck
read_headers (suc fuel) headers peer =
    and_then (read_limited_line max_header_line peer) (λ line peer.
      case_option line (failed unexpected_eof) (λ line.
        let line = trim_line_end line in
        if length line == 0
        then done headers peer
        else case_option (split_once b':' line) (failed invalid_data) (λ (name, value).
          if leb max_headers (length headers)
          then failed invalid_data
          else read_headers fuel
              (insert_header (to_ascii_lowercase (trim name)) (trim value) headers) peer)))

abbrev pub is_empty : Text → Bool
is_empty [] = true
is_empty (b ∷ s) = false

-- Behind the request line. A header line takes a byte at least.
abbrev pub after_request_line : Text × Text × Text → Peer → Reading HttpRequest
after_request_line (method, target, version) peer =
    if is_empty method || is_empty target || not (starts_with version (codes "HTTP/1."))
    then failed invalid_data
    else and_then (read_headers (suc (length peer.bytes)) [] peer)
        (λ headers. done (record { method = method; target = target; headers = headers }))

unfoldable pub read_request : Peer → Reading HttpRequest
unfolding read_limited_line trim_line_end split_once starts_with read_headers
read_request peer = and_then (read_limited_line max_request_line peer) (λ line peer.
    case_option line (failed unexpected_eof)
      (λ line. after_request_line (split_request_line (trim_line_end line)) peer))

abbrev pub header_lines : List (Text × Text) → Text
header_lines [] = []
header_lines ((name, value) ∷ headers) =
    name ++ (codes ": " ++ (value ++ (codes "\r\n" ++ header_lines headers)))

-- The bytes of `write_response_head`.
unfoldable pub response_head : ℕ → Text → List (Text × Text) → Text
unfolding decimal
response_head status reason headers =
    codes "HTTP/1.1 "
    ++ (decimal status
        ++ (codes " "
            ++ (reason
                ++ (codes "\r\n" ++ (header_lines headers ++ codes "Connection: close\r\n\r\n")))))
