-- ===== src/Request.antt =====
-- crates/camrtsp-server/src/lib.rs: `take_request` and `read_control`, which cut the bytes of the
-- control connection into RTSP requests and interleaved binary frames, and `parse_request`.
pub mod Framing
pub mod Buffer
pub mod Interleaved
pub mod Terminator
pub mod Printed
use camrtsp.Common.{
  ℕ, zero, suc, ◌+◌, ◌≡◌, Bool, true, false, ◌&&◌, ◌||◌, not, Option, none, some, List, [], ◌∷◌,
  ◌++◌, length, take, drop, ltb, leb, ◌==◌, same, if◌then◌else◌, from_be16, Result, ok, err, ok_or,
  ◌>>=◌,
}
use camrtsp.Text.{
  chars, trim, to_ascii_lowercase, to_ascii_uppercase, eq_ignore_ascii_case, split_lines,
  split_once, split_whitespace, starts_with, parse_usize,
}
use camrtsp.Text.Utf8.{from_utf8}
use camrtsp.Io.{IoError, invalid_data, unexpected_eof, would_block, timed_out, interrupted}

abbrev pub max_request_bytes : ℕ
max_request_bytes = 65536

abbrev pub Headers : Type 0
Headers = List (List ℕ × List ℕ)

pub record Request : Type 0 where
  pub method : List ℕ
  pub uri : List ℕ
  pub headers : Headers

-- `HashMap::get`
unfoldable pub lookup : List ℕ → Headers → Option (List ℕ)
unfolding same
lookup key [] = none
lookup key ((k, v) ∷ rest) = if same k key then some v else lookup key rest

unfoldable pub header : Request → List ℕ → Option (List ℕ)
unfolding lookup to_ascii_lowercase
header r name = lookup (to_ascii_lowercase name) r.headers

unfoldable pub cseq : Request → List ℕ
unfolding header
cseq r = elim (header r (chars "cseq")) [ none ↦ chars "1" | some value ↦ value ]

-- The request line: a method, a URI, the version and nothing more.
unfoldable pub request_line : List (List ℕ) → Result IoError (List ℕ × List ℕ)
unfolding same
request_line [] = err (invalid_data "missing RTSP method")
request_line (method ∷ []) = err (invalid_data "missing RTSP URI")
request_line (method ∷ uri ∷ version ∷ []) =
    if same version (chars "RTSP/1.0")
    then ok (method, uri)
    else err (invalid_data "unsupported RTSP version")
request_line (method ∷ uri ∷ more) = err (invalid_data "unsupported RTSP version")

-- `lines.filter(|line| !line.is_empty())`, each line inserted into the map
unfoldable pub header_lines : List (List ℕ) → Headers → Result IoError Headers
unfolding lookup split_once to_ascii_lowercase trim
header_lines [] headers = ok headers
header_lines ([] ∷ lines) headers = header_lines lines headers
header_lines ((c ∷ cs) ∷ lines) headers = elim (split_once b':' (c ∷ cs)) [
  | none ↦ err (invalid_data "malformed RTSP header")
  | some (key, value) ↦ elim (lookup (to_ascii_lowercase (trim key)) headers) [
    | none ↦ header_lines lines ((to_ascii_lowercase (trim key), trim value) ∷ headers)
    | some old ↦ err (invalid_data "duplicate RTSP header")
  ]
]

abbrev pub parse_lines : List (List ℕ) → Result IoError Request
parse_lines [] = err (invalid_data "missing RTSP method")
parse_lines (first ∷ lines) = do
  (method, uri) ← request_line (split_whitespace first)
  headers ← header_lines lines []
  ok (record { method = to_ascii_uppercase method; uri = uri; headers = headers })

unfoldable pub parse_request : List ℕ → Result IoError Request
unfolding request_line header_lines to_ascii_uppercase split_lines split_whitespace
parse_request raw = parse_lines (split_lines raw)

-- `header_value(headers, name)`: the first line with that key, the request line included
unfoldable pub value_in : List (List ℕ) → List ℕ → Option (List ℕ)
unfolding split_once eq_ignore_ascii_case trim
value_in [] name = none
value_in (line ∷ lines) name =
    let rest = value_in lines name in
    elim (split_once b':' line) [
      | none ↦ rest
      | some (key, value) ↦ if eq_ignore_ascii_case (trim key) name then some (trim value) else rest
    ]

unfoldable pub header_value : List ℕ → List ℕ → Option (List ℕ)
unfolding value_in split_lines
header_value headers name = value_in (split_lines headers) name

unfoldable pub body_length : List ℕ → Result IoError ℕ
unfolding header_value parse_usize
body_length headers = elim (header_value headers (chars "content-length")) [
  | none ↦ ok 0
  | some value ↦ ok_or (invalid_data "invalid content length") (parse_usize value)
]

-- `windows(4).position(|w| w == b"\r\n\r\n")`
abbrev pub next_position : Option ℕ → Option ℕ
next_position none = none
next_position (some n) = some (suc n)

abbrev pub terminator : List ℕ
terminator = 13 ∷ 10 ∷ 13 ∷ 10 ∷ []

unfoldable pub find_terminator : List ℕ → Option ℕ
find_terminator [] = none
find_terminator (c ∷ rest) =
    let later = find_terminator rest in
    if starts_with terminator (c ∷ rest) then some 0 else next_position later

-- What `take_request` answers: a request, that more bytes are needed, or an error. `stuck` stands for a
-- loop that is out of fuel.
pub data Taken : Type 0 where
  complete : Request → Taken
  incomplete : Taken
  failed : IoError → Taken
  stuck : Taken

-- Behind the headers: the body, which is dropped, and the bytes after it.
unfoldable pub take_body : List ℕ → List ℕ → ℕ → Taken × List ℕ
take_body headers input total =
    if ltb max_request_bytes total
    then (failed (invalid_data "RTSP request too large"), input)
    else if ltb (length input) total
    then (incomplete, input)
    else elim (parse_request headers) [
      | ok request ↦ (complete request, drop total input)
      | err e ↦ (failed e, input)
    ]

unfoldable pub with_length : Result IoError ℕ → List ℕ → ℕ → List ℕ → Taken × List ℕ
unfolding take_body
with_length (err e) headers header_end input = (failed e, input)
with_length (ok n) headers header_end input = take_body headers input (header_end + n)

unfoldable pub with_headers : Option (List ℕ) → ℕ → List ℕ → Taken × List ℕ
unfolding with_length body_length
with_headers none header_end input = (failed (invalid_data "invalid RTSP headers"), input)
with_headers (some headers) header_end input =
    with_length (body_length headers) headers header_end input

unfoldable pub take_message : ℕ → List ℕ → Taken × List ℕ
unfolding with_headers
take_message header_end input = with_headers (from_utf8 (take header_end input)) header_end input

unfoldable pub at_terminator : Option ℕ → List ℕ → Taken × List ℕ
unfolding take_message
at_terminator none input =
    if leb max_request_bytes (length input)
    then (failed (invalid_data "RTSP headers too large"), input)
    else (incomplete, input)
at_terminator (some end) input = take_message (end + 4) input

unfoldable pub take_text : List ℕ → Taken × List ℕ
unfolding at_terminator find_terminator
take_text input = at_terminator (find_terminator input) input

-- The front of the buffer: text, the end of a `$` frame, or a `$` with less than four bytes.
pub data Front : Type 0 where
  text : Front
  short : Front
  frame : ℕ → Front

abbrev pub frame_end : List ℕ → Front
frame_end (channel ∷ high ∷ low ∷ rest) = frame (4 + from_be16 high low)
frame_end _ = short

unfoldable pub front : List ℕ → Front
front [] = text
front (c ∷ rest) = if c == b'$' then frame_end rest else text

-- One round of the loop; `next` is the rest of it, after `continue`.
unfoldable pub at_front : (List ℕ → Taken × List ℕ) → Front → List ℕ → Taken × List ℕ
unfolding take_text
at_front next text input = take_text input
at_front next short input = (incomplete, input)
at_front next (frame end) input =
    let skipped = next (drop end input) in
    if ltb max_request_bytes end
    then (failed (invalid_data "interleaved frame too large"), input)
    else if ltb (length input) end
    then (incomplete, input)
    else skipped

unfoldable pub take_loop : ℕ → List ℕ → Taken × List ℕ
unfolding front at_front
take_loop zero input = (stuck, input)
take_loop (suc fuel) input = at_front (take_loop fuel) (front input) input

-- A frame takes at least four bytes, so the length is fuel enough.
unfoldable pub take_request : List ℕ → Taken × List ℕ
unfolding take_loop
take_request input = take_loop (suc (length input)) input

-- What the socket gives to one `read` of at most 4096 bytes.
pub data Read : Type 0 where
  bytes : List ℕ → Read
  read_error : IoError → Read

abbrev pub retry : IoError → Bool
retry would_block = true
retry (timed_out m) = true
retry interrupted = true
retry _ = false

unfoldable pub after_read : Read → List ℕ → Taken × List ℕ
unfolding take_request
after_read (bytes []) input = (failed (unexpected_eof "RTSP client disconnected"), input)
after_read (bytes (b ∷ bs)) input = take_request (input ++ b ∷ bs)
after_read (read_error e) input = (if retry e then incomplete else failed e, input)

abbrev pub or_read : Read → Taken → List ℕ → Taken × List ℕ
or_read socket incomplete input = after_read socket input
or_read socket taken input = (taken, input)

unfoldable pub read_control : Read → List ℕ → Taken × List ℕ
unfolding after_read
read_control socket input = let (taken, rest) = take_request input in or_read socket taken rest
