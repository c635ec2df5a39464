-- ===== src/Media/Http/Examples.antt =====
-- Runs of the request parser, and its theorems at concrete inputs.
use cast_app.Common.Trim.{trim, drop_white, white_width, is_white}
use cast_app.Common.{◌≡◌, refl, false, [], ◌∷◌, ◌++◌, arith}
use cast_app.Common.Text.{Text, codes, text_eq, to_ascii_lowercase, lowercase_byte, decimal, digits}
use cast_app.Common.Utf8.{from_utf8_lossy}
use cast_app.Media.Http.{
  Peer, done, failed, unexpected_eof, invalid_data, HttpRequest, read_request, response_head,
  trim_line_end, drop_line_ends,
}
use cast_app.Media.Http.RoundTrip.{IsRequest, request_head, read_request-request_head}

abbrev sends : Text → Peer
sends text = record { bytes = text; breaks = false }

abbrev get_range : HttpRequest
get_range = record {
  method = codes "GET";
  target = codes "/stream";
  headers =
      (codes "host", codes "10.0.0.2:8080")
      ∷ (codes "user-agent", codes "CrKey x")
      ∷ (codes "range", codes "bytes=0-99")
      ∷ [];
}

-- Names in any case, and space around the values.
reads_range :
    read_request (
      sends (
        codes
          "GET /stream HTTP/1.1\r\nHost:10.0.0.2:8080 \r\nUser-Agent: CrKey x\r\nRANGE:  bytes=0-99\r\n\r\n"))
    ≡ done get_range (sends [])
unfolding read_request trim_line_end drop_line_ends from_utf8_lossy trim text_eq lowercase_byte
reads_range = refl

without_version : read_request (sends (codes "GET /stream\r\n\r\n")) ≡ failed invalid_data
unfolding read_request trim_line_end drop_line_ends from_utf8_lossy
without_version = refl

without_colon : read_request (sends (codes "GET / HTTP/1.1\r\nHost\r\n\r\n")) ≡ failed invalid_data
unfolding read_request trim_line_end drop_line_ends from_utf8_lossy
without_colon = refl

cut_off : read_request (sends (codes "GET / HTTP/1.1\r\nHost: a\r\n")) ≡ failed unexpected_eof
unfolding read_request trim_line_end drop_line_ends from_utf8_lossy trim text_eq lowercase_byte
cut_off = refl

nothing_sent : read_request (sends []) ≡ failed unexpected_eof
unfolding read_request
nothing_sent = refl

not_found_head :
    response_head 404 (codes "Not Found") []
    ≡ codes "HTTP/1.1 404 Not Found\r\nConnection: close\r\n\r\n"
unfolding response_head decimal digits
not_found_head = refl

get_range-IsRequest : IsRequest get_range
unfolding trim drop_white white_width is_white text_eq to_ascii_lowercase lowercase_byte
get_range-IsRequest = record {
  method_chars = ground arith;
  method_there = omega arith;
  target_chars = ground arith;
  target_there = omega arith;
  line_fits = omega arith;
  headers_form = ground arith;
  headers_new = (tt, ((refl, tt), ((refl, (refl, tt)), tt)));
  headers_fit = omega arith;
}

read_request-request_head_example :
    read_request (record { bytes = request_head get_range ++ codes "behind"; breaks = false })
    ≡ done get_range (record { bytes = codes "behind"; breaks = false })
read_request-request_head_example =
    read_request-request_head get_range (codes "behind") false get_range-IsRequest
