-- ===== src/Response/Client.antt =====
-- A client's reader of responses, written on its own: the status line, the header fields that it
-- looks for by name, and as many bytes of body as `Content-Length` says.
pub mod Lines
pub mod Reading
use camrtsp.Common.{
  ℕ, ◌+◌, ◌≤◌, ◌<◌, ◌≡◌, ◌≢◌, refl, sym, ap, ◌∙◌, true, false, Option, none, some, List, [], ◌∷◌,
  ◌++◌, length, length-append, append_assoc, take, drop, take-length, drop-length, All, All-append,
  arith, leb, ◌==◌, ==_refl, if◌then◌else◌, map,
}
use camrtsp.Text.{chars, strip_prefix, split_lines, parse_usize}
use camrtsp.Text.Utf8.{encode_char, as_bytes, as_bytes_ascii}
use camrtsp.Text.Numbers.{show}
use camrtsp.Text.Decimal.{IsDigit, show-IsDigit, parse_usize-show}
use camrtsp.Text.Lines.{NoReturn, join_lines, split_lines-join_lines}
use camrtsp.Request.{find_terminator}
use camrtsp.Request.Terminator.{IsFilled, find_terminator-lines}
use camrtsp.Response.{crlf, respond}

pub record ReadResponse : Type 0 where
  pub status : List ℕ
  pub number : Option (List ℕ)
  pub body : List ℕ

abbrev pub first_some : Option (List ℕ) → Option (List ℕ) → Option (List ℕ)
first_some none later = later
first_some (some value) later = some value

-- The first line that begins with a field's name, colon and space.
pub field : List ℕ → List (List ℕ) → Option (List ℕ)
field name [] = none
field name (line ∷ lines) = first_some (strip_prefix name line) (field name lines)

abbrev pub size_of : Option (List ℕ) → Option ℕ
size_of none = some 0
size_of (some digits) = parse_usize digits

abbrev pub read_parts :
    Option (List ℕ) → Option (List ℕ) → Option ℕ → List ℕ → Option (ReadResponse × List ℕ)
read_parts (some status) cseq (some size) after =
    if leb size (length after)
    then some (record { status = status; number = cseq; body = take size after }, drop size after)
    else none
read_parts _ _ _ after = none

pub read_lines : List (List ℕ) → List ℕ → Option (ReadResponse × List ℕ)
unfolding field
read_lines [] after = none
read_lines (first ∷ lines) after =
    read_parts (strip_prefix (chars "RTSP/1.0 ") first) (field (chars "CSeq: ") lines)
      (size_of (field (chars "Content-Length: ") lines)) after

abbrev pub read_at : Option ℕ → List ℕ → Option (ReadResponse × List ℕ)
read_at none bytes = none
read_at (some end) bytes = read_lines (split_lines (take (end + 4) bytes)) (drop (end + 4) bytes)

-- The response at the front of a stream, and the bytes behind it.
pub read_response : List ℕ → Option (ReadResponse × List ℕ)
unfolding read_lines
read_response bytes = read_at (find_terminator bytes) bytes

-- Whole header lines, as the handlers give them to `respond`.
abbrev pub header_text : List (List ℕ) → List ℕ
header_text [] = []
header_text (l ∷ ls) = l ++ (crlf ++ header_text ls)

-- A line that ends where it seems to, and does not declare the body's length.
abbrev pub IsHeaderLine : List ℕ → Type 0
IsHeaderLine l =
    NoReturn l × IsFilled l × (strip_prefix (chars "Content-Length: ") (as_bytes l) ≡ none)
