-- ===== src/Media/Http/RoundTrip.antt =====
-- `read_request` on a request that a client has written.
use cast_app.Common.Trim.{IsGraphic, trim, drop_white, white_width, is_white}
use cast_app.Common.Utf8.{from_utf8_lossy, ascii-IsUtf8}
use cast_app.Common.{
  ℕ, zero, suc, ◌+◌, ◌≤◌, ◌<◌, ◌≡◌, ◌≢◌, refl, sym, ap, ◌∙◌, Bool, false, List, [], ◌∷◌, ◌++◌,
  length, length-append, All, All-append, leb, ◌==◌, arith, append_assoc, append-nil,
}
use cast_app.Common.Text.{Text, codes, text_eq, to_ascii_lowercase}
use cast_app.Media.Http.{
  done, max_request_line, max_header_line, max_headers, split_request_line, starts_with,
  HttpRequest, insert_header, read_headers, is_empty, after_request_line, read_request,
  header_lines, trim_line_end,
}
use cast_app.Media.Http.Lines.{
  IsVisible, line_end, read_limited_line-visible, trim_line_end-line, split_once-front,
}

-- A name as the map keeps it, and a value without space around it; the line fits.
abbrev pub IsHeader : Text × Text → Type 0
IsHeader (name, value) =
    All (λ b. IsVisible b × (b ≢ b':')) name
    × All IsVisible value
    × (trim name ≡ name)
    × (trim value ≡ value)
    × (to_ascii_lowercase name ≡ name)
    × (length name + length value + 4 ≤ max_header_line)

abbrev pub Absent : Text → List (Text × Text) → Type 0
Absent name headers = All (λ header. text_eq header.0 name ≡ false) headers

-- No name twice, nor one that is there before.
abbrev pub AreNew : List (Text × Text) → List (Text × Text) → Type 0
AreNew before [] = Unit {0}
AreNew before (header ∷ headers) = Absent header.0 before × AreNew (before ++ (header ∷ [])) headers

abbrev pub request_line : HttpRequest → Text
request_line r = r.method ++ (32 ∷ (r.target ++ (32 ∷ codes "HTTP/1.1")))

-- The head of the request on the wire.
abbrev pub request_head : HttpRequest → Text
request_head r = request_line r ++ line_end (header_lines r.headers ++ line_end [])

pub record IsRequest (r : HttpRequest) : Type 0 where
  pub method_chars : All IsGraphic r.method
  pub method_there : 0 < length r.method
  pub target_chars : All IsGraphic r.target
  pub target_there : 0 < length r.target
  pub line_fits : length r.method + length r.target + 12 ≤ max_request_line
  pub headers_form : All IsHeader r.headers
  pub headers_new : AreNew [] r.headers
  pub headers_fit : length r.headers ≤ max_headers

insert_header-new :
    (name value : Text) (headers : List (Text × Text))
    → Absent name headers
    → insert_header name value headers ≡ headers ++ ((name, value) ∷ [])
unfolding insert_header
insert_header-new name value [] h = refl
insert_header-new name value ((key, old) ∷ headers) (differs, h) =
    rw (differs, insert_header-new name value headers h)

trim-space : (value : Text) → trim (32 ∷ value) ≡ trim value
unfolding trim drop_white white_width is_white
trim-space value = refl

graphic-IsVisible : (s : Text) → All IsGraphic s → All IsVisible s
graphic-IsVisible [] h = tt
graphic-IsVisible (b ∷ s) (g, h) = ((omega arith, omega arith), graphic-IsVisible s h)

graphic-no_space : (s : Text) → All IsGraphic s → All (λ b. b ≢ 32) s
graphic-no_space [] h = tt
graphic-no_space (b ∷ s) (g, h) = (λ e. omega arith, graphic-no_space s h)

name-IsVisible : (s : Text) → All (λ b. IsVisible b × (b ≢ b':')) s → All IsVisible s
name-IsVisible [] h = tt
name-IsVisible (b ∷ s) ((v, n), h) = (v, name-IsVisible s h)

name-no_colon : (s : Text) → All (λ b. IsVisible b × (b ≢ b':')) s → All (λ b. b ≢ b':') s
name-no_colon [] h = tt
name-no_colon (b ∷ s) ((v, n), h) = (n, name-no_colon s h)

abbrev header_text : Text → Text → Text
header_text name value = name ++ (b':' ∷ 32 ∷ value)

header_text-IsVisible :
    (name value : Text) → IsHeader (name, value) → All IsVisible (header_text name value)
header_text-IsVisible name value (n, v, trimmed, tight, lower, fits) =
    All-append IsVisible name (b':' ∷ 32 ∷ value) (name-IsVisible name n)
      ((omega arith, omega arith), ((omega arith, omega arith), v))

first_line :
    (name value more : Text) (hs : List (Text × Text))
    → header_lines ((name, value) ∷ hs) ++ more
      ≡ header_text name value ++ line_end (header_lines hs ++ more)
first_line name value more hs =
    append_assoc name (b':' ∷ 32 ∷ (value ++ line_end (header_lines hs))) more
    ∙ ap (λ t. name ++ (b':' ∷ 32 ∷ t)) (append_assoc value (line_end (header_lines hs)) more)
    ∙ sym (append_assoc name (b':' ∷ 32 ∷ value) (line_end (header_lines hs ++ more)))

header_end : trim_line_end (from_utf8_lossy (line_end [])) ≡ []
header_end =
    rw (ascii-IsUtf8 (line_end []) (omega arith, (omega arith, tt))) (trim_line_end-line [] tt)

read_headers-lines :
    (fuel : ℕ) (before headers : List (Text × Text)) (rest : Text) (breaks : Bool)
    → All IsHeader headers
    → AreNew before headers
    → length before + length headers ≤ max_headers
    → length headers < fuel
    → read_headers fuel before
        (record { bytes = header_lines headers ++ line_end rest; breaks = breaks })
      ≡ done (before ++ headers) (record { bytes = rest; breaks = breaks })
unfolding read_headers
read_headers-lines zero before headers rest breaks form new fit enough = absurd (omega arith)
read_headers-lines (suc fuel) before [] rest breaks form new fit enough =
    rw (header_end, append-nil before)
read_headers-lines (suc fuel) before ((name, value) ∷ headers) rest breaks (is_header, form)
      (absent, new) fit enough =
    let text = header_text name value in
    let visible = header_text-IsVisible name value is_header in
    let size : length text ≡ length name + suc (suc (length value)) =
      length-append name (b':' ∷ 32 ∷ value) in
    let some_text : (length text == 0) ≡ false = ground (arith, size) in
    let room : leb max_headers (length before) ≡ false = ground arith in
    rw (first_line name value (line_end rest) headers) (
      rw
        (read_limited_line-visible max_header_line text (header_lines headers ++ line_end rest)
          breaks visible (omega (arith, size, is_header.5)))
        (rw
          (
            trim_line_end-line text visible,
            some_text,
            split_once-front b':' name (32 ∷ value) (name-no_colon name is_header.0),
            room,
            trim-space value,
            is_header.2,
            is_header.3,
            is_header.4,
            insert_header-new name value before absent,
          )
          (read_headers-lines fuel (before ++ ((name, value) ∷ [])) headers rest breaks form new
              (omega (arith, length-append before ((name, value) ∷ []))) (omega arith)
            ∙ ap (λ hs. done hs (record { bytes = rest; breaks = breaks }))
                (append_assoc before ((name, value) ∷ []) headers))))

length-header_lines :
    (headers : List (Text × Text)) → length headers ≤ length (header_lines headers)
length-header_lines [] = omega arith
length-header_lines ((name, value) ∷ headers) = omega (
  arith,
  length-append name (b':' ∷ 32 ∷ (value ++ line_end (header_lines headers))),
  length-append value (line_end (header_lines headers)),
  length-header_lines headers,
)

request_line-IsVisible : (r : HttpRequest) → IsRequest r → All IsVisible (request_line r)
request_line-IsVisible r q =
    All-append IsVisible r.method (32 ∷ (r.target ++ (32 ∷ codes "HTTP/1.1")))
      (graphic-IsVisible r.method q.method_chars)
      (
        (omega arith, omega arith),
        All-append IsVisible r.target (32 ∷ codes "HTTP/1.1")
            (graphic-IsVisible r.target q.target_chars) protocol,
      )
  where
    protocol : All IsVisible (32 ∷ codes "HTTP/1.1")
    protocol = ground arith

request_line-splits :
    (r : HttpRequest)
    → IsRequest r
    → split_request_line (request_line r) ≡ (r.method, r.target, codes "HTTP/1.1")
request_line-splits r q = rw (
  split_once-front 32 r.method (r.target ++ (32 ∷ codes "HTTP/1.1"))
      (graphic-no_space r.method q.method_chars),
  split_once-front 32 r.target (codes "HTTP/1.1") (graphic-no_space r.target q.target_chars),
)

there-is_empty : (s : Text) → 0 < length s → is_empty s ≡ false
there-is_empty [] h = absurd (omega arith)
there-is_empty (b ∷ s) h = refl

behind_line :
    (r : HttpRequest) (rest : Text) (breaks : Bool)
    → IsRequest r
    → after_request_line
        (r.method, r.target, codes "HTTP/1.1")
        (record { bytes = header_lines r.headers ++ line_end rest; breaks = breaks })
      ≡ done r (record { bytes = rest; breaks = breaks })
unfolding starts_with
behind_line r rest breaks q = rw (
  there-is_empty r.method q.method_there,
  there-is_empty r.target q.target_there,
  read_headers-lines (suc (length (header_lines r.headers ++ line_end rest))) [] r.headers rest
      breaks q.headers_form q.headers_new (omega (arith, q.headers_fit))
      (omega (
        arith,
        length-append (header_lines r.headers) (line_end rest),
        length-header_lines r.headers,
      )),
)

-- A request that a client writes by RFC 9112, with a method and a target of visible ASCII characters and at
-- most 64 headers of different names in lower case, no line being longer than 8 KiB, is read back, and
-- what follows its head is left to be read.
pub read_request-request_head :
    (r : HttpRequest) (rest : Text) (breaks : Bool)
    → IsRequest r
    → read_request (record { bytes = request_head r ++ rest; breaks = breaks })
      ≡ done r (record { bytes = rest; breaks = breaks })
unfolding read_request
read_request-request_head r rest breaks q =
    rw
      (
        on_wire,
        read_limited_line-visible max_request_line (request_line r)
            (header_lines r.headers ++ line_end rest) breaks (request_line-IsVisible r q)
            (omega (
              arith,
              q.line_fits,
              length-append r.method (32 ∷ (r.target ++ (32 ∷ codes "HTTP/1.1"))),
              length-append r.target (32 ∷ codes "HTTP/1.1"),
            )),
        trim_line_end-line (request_line r) (request_line-IsVisible r q),
        request_line-splits r q,
      )
      (behind_line r rest breaks q)
  where
    on_wire :
        request_head r ++ rest
        ≡ request_line r ++ line_end (header_lines r.headers ++ line_end rest)
    on_wire =
        append_assoc (request_line r) (line_end (header_lines r.headers ++ line_end [])) rest
        ∙ ap (λ t. request_line r ++ line_end t)
            (append_assoc (header_lines r.headers) (line_end []) rest)
