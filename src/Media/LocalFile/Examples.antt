-- ===== src/Media/LocalFile/Examples.antt =====
-- Answers for a small file, and the theorem on the bytes of an answer at one of them.
use cast_app.Common.{ℕ, ◌≡◌, refl, none, some, true, false, List, [], ◌∷◌, ◌++◌, length, arith}
use cast_app.Common.Text.{
  codes, decimal, digits, eq_ignore_ascii_case, text_eq, to_ascii_lowercase, lowercase_byte,
}
use cast_app.Media.Range.{parse_range}
use cast_app.Media.Http.{response_head}
use cast_app.Media.LocalFile.{
  mime_for_path, mime_for_extension, Round, gives, fails, stream_reader, opened, missing, Outcomes,
  serve,
}
use cast_app.Media.LocalFile.Body.{IsSmooth, promised_head, body, slice, serve-slice}

abbrev ten_bytes : List ℕ
ten_bytes = codes "0123456789"

abbrev three_each : List Round
three_each =
    gives 3 true
    ∷ gives 3 true
    ∷ gives 3 true
    ∷ gives 3 true
    ∷ gives 3 true
    ∷ gives 3 true
    ∷ gives 3 true
    ∷ gives 3 true
    ∷ gives 3 true
    ∷ gives 3 true
    ∷ []

abbrev smooth : Outcomes
smooth = record { head_written = true; sought = true; rounds = three_each; flushed = true }

streams_five :
    stream_reader three_each ten_bytes 5 ≡ record { written = codes "01234"; succeeded = true }
unfolding stream_reader
streams_five = refl

-- A file that has shrunk ends the stream early, and an error breaks it off.
shrunk : stream_reader three_each (codes "01") 5 ≡ record { written = codes "01"; succeeded = true }
unfolding stream_reader
shrunk = refl

broken_off :
    stream_reader (gives 3 true ∷ fails ∷ []) ten_bytes 5
    ≡ record { written = codes "012"; succeeded = false }
unfolding stream_reader
broken_off = refl

missing_file : serve missing none none false smooth ≡ record {
  written = codes "HTTP/1.1 404 Not Found\r\nConnection: close\r\n\r\n";
  succeeded = true;
}
unfolding serve response_head decimal digits
missing_file = refl

upper_case : mime_for_path (some (codes "MP4")) ≡ codes "video/mp4"
unfolding mime_for_path mime_for_extension eq_ignore_ascii_case text_eq to_ascii_lowercase
    lowercase_byte
upper_case = refl

unknown : mime_for_path (some (codes "xyz")) ≡ codes "application/octet-stream"
unfolding mime_for_path mime_for_extension eq_ignore_ascii_case text_eq to_ascii_lowercase
    lowercase_byte
unknown = refl

smooth-IsSmooth : IsSmooth ten_bytes smooth
smooth-IsSmooth = record {
  head = refl;
  seek = refl;
  reads = ground arith;
  enough = omega arith;
  flush = refl;
}

serve-slice_example :
    serve (opened ten_bytes) (some (codes "mp4")) (some (codes "bytes=2-5")) false smooth ≡ record {
      written =
          promised_head
            (parse_range (some (codes "bytes=2-5")) (length ten_bytes))
            (mime_for_path (some (codes "mp4")))
            ten_bytes
          ++ body false
              (slice (parse_range (some (codes "bytes=2-5")) (length ten_bytes)) ten_bytes);
      succeeded = true;
    }
serve-slice_example =
    serve-slice ten_bytes (some (codes "mp4")) (some (codes "bytes=2-5")) false smooth
      smooth-IsSmooth
