-- ===== src/Examples/Requests.antt =====
-- The control connection's bytes.
use camrtsp.Common.{ℕ, ◌<◌, ◌≡◌, refl, List, [], ◌∷◌, ◌++◌, length, arith}
use camrtsp.Text.{chars, starts_with}
use camrtsp.Text.Utf8.{from_utf8}
use camrtsp.Io.{would_block}
use camrtsp.Request.{Request, complete, take_request, parse_request, bytes, read_error}
use camrtsp.Request.Framing.{take_request-append}
use camrtsp.Request.Buffer.{
  IsSound, take_request-IsSound, buffer_after, buffer_after_bounded, max_buffer,
}
use camrtsp.Request.Interleaved.{interleaved, take_request-interleaved}

abbrev crlf : List ℕ
crlf = 13 ∷ 10 ∷ []

abbrev options : List ℕ
options = chars "options * RTSP/1.0" ++ (crlf ++ (chars "CSeq: 9" ++ (crlf ++ crlf)))

abbrev parsed : Request
parsed = record {
  method = chars "OPTIONS";
  uri = chars "*";
  headers = (chars "cseq", chars "9") ∷ [];
}

options_complete : take_request options ≡ (complete parsed, [])
unfolding take_request starts_with from_utf8 parse_request
options_complete = refl

take_request-append_example : take_request (options ++ b'$' ∷ []) ≡ (complete parsed, b'$' ∷ [])
take_request-append_example = take_request-append options (b'$' ∷ []) [] parsed options_complete

take_request-IsSound_example : IsSound (length options) (take_request options)
take_request-IsSound_example = take_request-IsSound options

take_request-interleaved_example :
    take_request (interleaved 1 (0x80 ∷ 201 ∷ []) ++ options) ≡ take_request options
take_request-interleaved_example =
    take_request-interleaved 1 (0x80 ∷ 201 ∷ []) options (omega arith)

buffer_after_bounded_example :
    length (buffer_after (bytes options ∷ read_error would_block ∷ bytes [] ∷ []) []) < max_buffer
buffer_after_bounded_example =
    buffer_after_bounded (bytes options ∷ read_error would_block ∷ bytes [] ∷ []) []
      (omega arith, (tt, (omega arith, tt))) (omega arith)
