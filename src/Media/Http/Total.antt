-- ===== src/Media/Http/Total.antt =====
-- `read_request` on whatever a peer sends.
pub mod Line
use cast_app.Common.{◌+◌, ◌≤◌, ◌<◌, refl, ap, ◌⊎◌, Bool, true, ◌||◌, List, append-nil, length, ltb}
use cast_app.Common.Text.{Text}
use cast_app.Media.Http.{
  Peer, ErrorKind, and_then, max_headers, split_line, read_until, ends_with_newline, line_text,
  line_loop, HttpRequest,
}
use cast_app.Media.Http.Total.Line.{IsAllowed}

abbrev HeadersOf : Peer → List (Text × Text) → Peer → Type 0
HeadersOf peer headers p = (length headers ≤ max_headers) × (length p.bytes ≤ length peer.bytes)

-- What a request has, and that its head took a byte at least.
abbrev pub RequestOf : Peer → HttpRequest → Peer → Type 0
RequestOf peer r p =
    (0 < length r.method)
    × (0 < length r.target)
    × (length r.headers ≤ max_headers)
    × (length p.bytes < length peer.bytes)
