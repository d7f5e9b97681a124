-- ===== src/Request/Printed/Reading.antt =====
-- How `parse_request` and `body_length` read a printed request.
use camrtsp.Common.{
  ℕ, ◌≡◌, ◌≢◌, refl, sym, ap, ◌∙◌, false, ◌&&◌, Option, none, some, List, [], ◌∷◌, ◌++◌, All, arith,
  same, same→eq, Bool-cases, Option-cases, inl, inr, Result, ok, ok_or, ◌==◌, All-append, All-imp,
}
use camrtsp.Io.{IoError, invalid_data}
use camrtsp.Text.{
  chars, trim, to_lower, to_ascii_lowercase, eq_ignore_ascii_case, split_lines, split_once,
  parse_usize,
}
use camrtsp.Text.Words.{
  IsGraphic, split_whitespace_three, trim-graphic, trim-cons, trim_space, split_once-append,
}
use camrtsp.Text.Lines.{NoReturn, split_lines-join_lines}
use camrtsp.Request.{
  Headers, lookup, request_line, header_lines, parse_request, value_in, header_value, body_length,
}
use camrtsp.Request.Printed.{
  rtsp_version, first_line, header_row, rows, printed, IsMethod, IsUri, IsKeyChar, IsValueChar,
  IsHeader, AreDistinct, stored, declared, read_back,
}

split_once-header_row :
    (key value : List ℕ)
    → All IsKeyChar key
    → split_once b':' (header_row (key, value)) ≡ some (key, 32 ∷ value)
split_once-header_row key value h =
    split_once-append b':' key (32 ∷ value) (All-imp IsKeyChar (λ c. c ≢ b':') (λ c k. k.1) key h)

trim_key : (key : List ℕ) → All IsKeyChar key → trim key ≡ key
trim_key key h = trim-graphic key (All-imp IsKeyChar IsGraphic (λ c k. k.0) key h)

-- The keys that are still to come are not in the map.
abbrev Absent : Headers → Headers → Type 0
Absent before = All (λ h. lookup (to_ascii_lowercase h.0) before ≡ none)

lookup-other :
    (k j v : List ℕ) (before : Headers)
    → k ≢ j
    → lookup k before ≡ none
    → lookup k ((j, v) ∷ before) ≡ none
unfolding lookup
lookup-other k j v before ne e = elim (Bool-cases (same j k)) [
  | inl t ↦ absurd (ne (sym (same→eq j k t)))
  | inr f ↦ rw f e
]

Absent-step :
    (key value : List ℕ) (before hs : Headers)
    → All (λ h. to_ascii_lowercase h.0 ≢ to_ascii_lowercase key) hs
    → Absent before hs
    → Absent ((to_ascii_lowercase key, trim value) ∷ before) hs
Absent-step key value before [] h a = tt
Absent-step key value before (x ∷ hs) h a =
    (lookup-other _ _ _ before h.0 a.0, Absent-step key value before hs h.1 a.1)

-- A line that is split at its colon, whose key is new.
header_lines-entry :
    (c : ℕ) (cs key value : List ℕ) (lines : List (List ℕ)) (before : Headers)
    → split_once b':' (c ∷ cs) ≡ some (key, value)
    → lookup (to_ascii_lowercase (trim key)) before ≡ none
    → header_lines ((c ∷ cs) ∷ lines) before
      ≡ header_lines lines ((to_ascii_lowercase (trim key), trim value) ∷ before)
unfolding header_lines
header_lines-entry c cs key value lines before once new = rw (once, new, header_lines) refl

header_lines-row :
    (key value : List ℕ) (lines : List (List ℕ)) (before : Headers)
    → All IsKeyChar key
    → lookup (to_ascii_lowercase key) before ≡ none
    → header_lines (header_row (key, value) ∷ lines) before
      ≡ header_lines lines ((to_ascii_lowercase key, trim value) ∷ before)
header_lines-row [] value lines before h new =
    header_lines-entry b':' (32 ∷ value) [] (32 ∷ value) lines before
      (split_once-header_row [] value h) (rw (trim_key [] h) new)
    ∙ rw (trim_key [] h, trim_space value) refl
header_lines-row (k ∷ key) value lines before h new =
    header_lines-entry k (key ++ b':' ∷ 32 ∷ value) (k ∷ key) (32 ∷ value) lines before
      (split_once-header_row (k ∷ key) value h) (rw (trim_key (k ∷ key) h) new)
    ∙ rw (trim_key (k ∷ key) h, trim_space value) refl

header_lines-rows :
    (hs before : Headers)
    → All IsHeader hs
    → AreDistinct hs
    → Absent before hs
    → header_lines (rows hs ++ [] ∷ [] ∷ []) before ≡ ok (stored hs before)
header_lines-rows [] before h d a = unfold header_lines in refl
header_lines-rows ((key, value) ∷ hs) before h d a =
    header_lines-row key value (rows hs ++ [] ∷ [] ∷ []) before h.0.0 a.0
    ∙ header_lines-rows hs ((to_ascii_lowercase key, trim value) ∷ before) h.1 d.1
        (Absent-step key value before hs d.0 a.1)

Absent-first : (hs : Headers) → Absent [] hs
Absent-first [] = tt
Absent-first (h ∷ hs) = (unfold lookup in refl, Absent-first hs)

-- The two readers of a line, for a line that is no header.
value_in-line :
    (line : List ℕ) (lines : List (List ℕ)) (name : List ℕ)
    → ((key value : List ℕ)
        → split_once b':' line ≡ some (key, value)
        → eq_ignore_ascii_case (trim key) name ≡ false)
    → value_in (line ∷ lines) name ≡ value_in lines name
unfolding value_in
value_in-line line lines name h = elim (Option-cases (split_once b':' line)) [
  | inl none_found ↦ rw (none_found, value_in) refl
  | inr ((key, value), e) ↦ rw (e, h key value e, value_in) refl
]

-- A key that is cut from a line begins with the first character of the line.
split_once-head :
    (ch m : ℕ) (ms key value : List ℕ)
    → m ≢ ch
    → split_once ch (m ∷ ms) ≡ some (key, value)
    → (l : List ℕ) × (key ≡ m ∷ l)
unfolding split_once
split_once-head ch m ms key value ne e = elim (Option-cases (split_once ch ms)) [
  | inl none_found ↦ absurd (ground arith)
  | inr ((k, v), found) ↦ (k, ground arith)
]

first_not_length :
    (m : ℕ) (ms uri : List ℕ)
    → IsMethod (m ∷ ms)
    → (key value : List ℕ) → split_once b':' (first_line (m ∷ ms) uri) ≡ some (key, value)
    → eq_ignore_ascii_case (trim key) (chars "content-length") ≡ false
unfolding eq_ignore_ascii_case to_ascii_lowercase same
first_not_length m ms uri h key value e =
    let (l, begins) = split_once-head b':' m _ key value h.2 e in
    let (l', trimmed) = trim-cons m l h.0.0 in
    let other : (to_lower m == b'c') ≡ false = ground arith in
    rw (begins, trimmed) (ap (λ b. b && same (to_ascii_lowercase l') (chars "ontent-length")) other)

abbrev read_length : Option (List ℕ) → Result IoError ℕ
read_length none = ok 0
read_length (some value) = ok_or (invalid_data "invalid content length") (parse_usize value)

read_length-rows :
    (hs : Headers)
    → All IsHeader hs
    → read_length (value_in (rows hs ++ [] ∷ [] ∷ []) (chars "content-length"))
      ≡ ok_or (invalid_data "invalid content length") (declared hs)
unfolding value_in declared
read_length-rows [] h = unfold split_once in refl
read_length-rows ((key, value) ∷ hs) h =
    let once = split_once-header_row key value h.0.0 in
    let trimmed = trim_key key h.0.0 in
    let spaced = trim_space value in
    elim (Bool-cases (same (to_ascii_lowercase key) (chars "content-length"))) [
      | inl here ↦ rw (value_in, once, trimmed, spaced, eq_ignore_ascii_case, here) refl
      | inr other ↦
          rw (value_in, once, trimmed, eq_ignore_ascii_case, other) (read_length-rows hs h.1)
    ]

value-NoReturn : (value : List ℕ) → All IsValueChar value → NoReturn value
value-NoReturn value h = All-imp IsValueChar (λ c. c ≢ 13) (λ c k. omega arith) value h

graphic-NoReturn : (w : List ℕ) → All IsGraphic w → NoReturn w
graphic-NoReturn w h = All-imp IsGraphic (λ c. c ≢ 13) (λ c k. omega arith) w h

rows-NoReturn : (hs : Headers) → All IsHeader hs → All NoReturn (rows hs)
rows-NoReturn [] h = tt
rows-NoReturn ((key, value) ∷ hs) h = (
  All-append (λ c. c ≢ 13) key (b':' ∷ 32 ∷ value)
      (All-imp IsKeyChar (λ c. c ≢ 13) (λ c k. omega arith) key h.0.0)
      (omega arith, (omega arith, value-NoReturn value h.0.1)),
  rows-NoReturn hs h.1,
)

first_line-NoReturn :
    (method uri : List ℕ)
    → All IsGraphic method
    → All IsGraphic uri
    → NoReturn (first_line method uri)
first_line-NoReturn method uri h k =
    All-append (λ c. c ≢ 13) method (32 ∷ (uri ++ 32 ∷ rtsp_version)) (graphic-NoReturn method h)
      (
        omega arith,
        All-append (λ c. c ≢ 13) uri (32 ∷ rtsp_version) (graphic-NoReturn uri k) (omega arith),
      )

module _ (m : ℕ) (ms : List ℕ) (u : ℕ) (us : List ℕ) (hs : Headers) (method : IsMethod (m ∷ ms))
    (uri : IsUri (u ∷ us)) (headers : All IsHeader hs) where
  pub printed_lines : All NoReturn (first_line (m ∷ ms) (u ∷ us) ∷ rows hs)
  printed_lines = (first_line-NoReturn (m ∷ ms) (u ∷ us) method.0 uri, rows-NoReturn hs headers)

  split_lines-printed :
      split_lines (printed (m ∷ ms) (u ∷ us) hs)
      ≡ first_line (m ∷ ms) (u ∷ us) ∷ rows hs ++ [] ∷ [] ∷ []
  split_lines-printed =
      split_lines-join_lines (first_line (m ∷ ms) (u ∷ us) ∷ rows hs) printed_lines

  pub body_length-printed :
      (n : ℕ) → declared hs ≡ some n → body_length (printed (m ∷ ms) (u ∷ us) hs) ≡ ok n
  unfolding body_length header_value
  body_length-printed n e =
      ap (λ lines. read_length (value_in lines (chars "content-length"))) split_lines-printed
      ∙ ap read_length (
          value_in-line (first_line (m ∷ ms) (u ∷ us)) (rows hs ++ [] ∷ [] ∷ [])
            (chars "content-length") (first_not_length m ms (u ∷ us) method))
      ∙ read_length-rows hs headers
      ∙ ap (ok_or (invalid_data "invalid content length")) e

  pub parse_request-printed :
      AreDistinct hs
      → parse_request (printed (m ∷ ms) (u ∷ us) hs) ≡ ok (read_back (m ∷ ms) (u ∷ us) hs)
  unfolding parse_request request_line
  parse_request-printed distinct =
      rw
        (
          split_lines-printed,
          split_whitespace_three m u b'R' ms us (chars "TSP/1.0") method.0 uri (omega arith),
          header_lines-rows hs [] headers distinct (Absent-first hs),
        )
        refl
