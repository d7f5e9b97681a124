-- ===== src/Request/Printed/Framed.antt =====
-- A printed request at the front of the control connection's bytes.
use camrtsp.Common.{
  ℕ, ◌+◌, ◌≤◌, ◌<◌, ◌≡◌, ◌≢◌, refl, sym, ap, ◌∙◌, false, some, List, [], ◌∷◌, ◌++◌, length,
  length-append, drop, take-length, drop-length, drop-drop, All, All-append, All-imp, arith, ◌==◌,
  ltb, le→not_ltb, ok,
}
use camrtsp.Text.Utf8.{IsAscii, from_utf8_ascii}
use camrtsp.Text.Words.{IsGraphic}
use camrtsp.Text.Lines.{join_lines}
use camrtsp.Request.Terminator.{IsFilled, find_terminator-lines}
use camrtsp.Request.{
  Headers, Request, complete, find_terminator, front, at_front, take_body, with_length,
  with_headers, take_message, at_terminator, take_text, take_loop, take_request, body_length,
  parse_request,
}
use camrtsp.Request.Printed.{
  rtsp_version, first_line, rows, printed, IsMethod, IsUri, IsKeyChar, IsValueChar, IsHeader,
  AreDistinct, declared, read_back,
}
use camrtsp.Request.Printed.Reading.{printed_lines, body_length-printed, parse_request-printed}

-- What is taken when the header part is read, and the body is there.
module _ (headers body rest : List ℕ) (end : ℕ)
    (found : find_terminator (headers ++ (body ++ rest)) ≡ some end)
    (whole : end + 4 ≡ length headers) (ascii : IsAscii headers)
    (small : length headers + length body ≤ 65536) where
  dropped : drop (length headers + length body) (headers ++ (body ++ rest)) ≡ rest
  dropped =
      drop-drop (length headers) (length body) (headers ++ (body ++ rest))
      ∙ ap (drop (length body)) (drop-length headers (body ++ rest))
      ∙ drop-length body rest

  take_text-whole :
      (request : Request)
      → body_length headers ≡ ok (length body)
      → parse_request headers ≡ ok request
      → take_text (headers ++ (body ++ rest)) ≡ (complete request, rest)
  unfolding take_text at_terminator take_message with_headers with_length take_body
  take_text-whole request sized parsed =
      let input = headers ++ (body ++ rest) in
      let fits : ltb 65536 (length headers + length body) ≡ false = le→not_ltb _ _ small in
      let there : ltb (length input) (length headers + length body) ≡ false =
        le→not_ltb _ _
          (omega (arith, length-append headers (body ++ rest), length-append body rest)) in
      rw
        (
          found,
          whole,
          take-length headers (body ++ rest),
          from_utf8_ascii headers ascii,
          sized,
          fits,
          there,
          parsed,
          dropped,
        )
        refl

value-IsAscii : (value : List ℕ) → All IsValueChar value → IsAscii value
value-IsAscii value h = All-imp IsValueChar (λ c. c < 128) (λ c k. omega arith) value h

graphic-IsAscii : (w : List ℕ) → All IsGraphic w → IsAscii w
graphic-IsAscii w h = All-imp IsGraphic (λ c. c < 128) (λ c k. omega arith) w h

join_lines-IsAscii : (ls : List (List ℕ)) → All IsAscii ls → IsAscii (join_lines ls)
unfolding join_lines
join_lines-IsAscii [] h = omega arith
join_lines-IsAscii (l ∷ ls) h =
    All-append (λ c. c < 128) l (13 ∷ 10 ∷ join_lines ls) h.0
      (omega arith, (omega arith, join_lines-IsAscii ls h.1))

rows-IsAscii : (hs : Headers) → All IsHeader hs → All IsAscii (rows hs)
rows-IsAscii [] h = tt
rows-IsAscii ((key, value) ∷ hs) h = (
  All-append (λ c. c < 128) key (b':' ∷ 32 ∷ value)
      (All-imp IsKeyChar (λ c. c < 128) (λ c k. omega arith) key h.0.0)
      (omega arith, (omega arith, value-IsAscii value h.0.1)),
  rows-IsAscii hs h.1,
)

rows-IsFilled : (hs : Headers) → All IsFilled (rows hs)
rows-IsFilled [] = tt
rows-IsFilled (([], value) ∷ hs) = (tt, rows-IsFilled hs)
rows-IsFilled ((k ∷ key, value) ∷ hs) = (tt, rows-IsFilled hs)

first_line-IsAscii :
    (method uri : List ℕ)
    → All IsGraphic method
    → All IsGraphic uri
    → IsAscii (first_line method uri)
first_line-IsAscii method uri h k =
    All-append (λ c. c < 128) method (32 ∷ (uri ++ 32 ∷ rtsp_version)) (graphic-IsAscii method h)
      (
        omega arith,
        All-append (λ c. c < 128) uri (32 ∷ rtsp_version) (graphic-IsAscii uri k) (omega arith),
      )

-- A buffer that does not begin with `$` is read as text.
take_request-text :
    (c : ℕ) (input : List ℕ) → c ≢ b'$' → take_request (c ∷ input) ≡ take_text (c ∷ input)
unfolding take_request take_loop front at_front
take_request-text c input ne = let other : (c == b'$') ≡ false = ground arith in rw other refl

-- A request that is printed in full at the front of the buffer, with a method and a URI of graphic
-- characters, headers of printable ones under keys that differ, and a body of the length that the
-- headers declare, is taken from it as it was: the method in upper case, the URI, and each header
-- under its key in lower case with its value trimmed. The bytes behind the body are left. The method
-- is one that does not begin with `$`, `:` or the letter C, and the whole is at most 65536 bytes long.
pub take_request-printed :
    (m : ℕ) (ms : List ℕ) (u : ℕ) (us : List ℕ) (hs : Headers) (body rest : List ℕ)
    → IsMethod (m ∷ ms)
    → IsUri (u ∷ us)
    → All IsHeader hs
    → AreDistinct hs
    → declared hs ≡ some (length body)
    → length (printed (m ∷ ms) (u ∷ us) hs) + length body ≤ 65536
    → take_request (printed (m ∷ ms) (u ∷ us) hs ++ (body ++ rest))
      ≡ (complete (read_back (m ∷ ms) (u ∷ us) hs), rest)
take_request-printed m ms u us hs body rest method uri headers distinct sized small =
    let first = first_line (m ∷ ms) (u ∷ us) in
    let printed_headers = printed (m ∷ ms) (u ∷ us) hs in
    let (end, terminated, whole) =
      find_terminator-lines first (rows hs) (body ++ rest)
        (printed_lines m ms u us hs method uri headers) (rows-IsFilled hs) in
    let opened : printed_headers ≡ first ++ 13 ∷ 10 ∷ join_lines (rows hs) =
      unfold join_lines in refl in
    ap take_request (ap (λ l. l ++ (body ++ rest)) opened)
    ∙ take_request-text m _ method.1
    ∙ ap take_text (ap (λ l. l ++ (body ++ rest)) (sym opened))
    ∙ take_text-whole printed_headers body rest end terminated whole
        (join_lines-IsAscii (first ∷ rows hs)
          (first_line-IsAscii (m ∷ ms) (u ∷ us) method.0 uri, rows-IsAscii hs headers))
        small (read_back (m ∷ ms) (u ∷ us) hs)
        (body_length-printed m ms u us hs method uri headers (length body) sized)
        (parse_request-printed m ms u us hs method uri headers distinct)
