-- ===== src/Response/Client/Reading.antt =====
-- A client reads what `respond` writes.
use camrtsp.Common.{
  ℕ, ◌≤◌, ◌<◌, ◌≡◌, ◌≢◌, refl, ap, ◌∙◌, true, Option, none, some, List, [], ◌∷◌, ◌++◌, length,
  length-append, append_assoc, take-length, drop-length, All, All-append, All-imp, arith, leb, ltb,
  if_either, le→leb,
}
use camrtsp.Text.{chars, strip_prefix}
use camrtsp.Text.Utf8.{encode_char, as_bytes, as_bytes_ascii, IsAscii}
use camrtsp.Text.Numbers.{show}
use camrtsp.Text.Decimal.{IsDigit, show-IsDigit, parse_usize-show}
use camrtsp.Text.Lines.{NoReturn, join_lines, split_lines-join_lines}
use camrtsp.Request.Terminator.{IsFilled, find_terminator-lines}
use camrtsp.Response.{respond}
use camrtsp.Response.Client.{
  first_some, field, read_parts, read_lines, read_response, header_text, IsHeaderLine,
}
use camrtsp.Response.Client.Lines.{
  as_bytes-append, as_bytes-NoReturn, strip_prefix-append, as_bytes_lines, size_line,
  response_lines, respond-lines,
}

as_bytes_lines-NoReturn :
    (hls : List (List ℕ)) → All IsHeaderLine hls → All NoReturn (as_bytes_lines hls)
unfolding as_bytes_lines
as_bytes_lines-NoReturn [] h = tt
as_bytes_lines-NoReturn (l ∷ ls) h = (as_bytes-NoReturn l h.0.0, as_bytes_lines-NoReturn ls h.1)

digits_clean : (s : List ℕ) → All IsDigit s → NoReturn s
digits_clean s h = All-imp IsDigit (λ c. c ≢ 13) (λ c d. omega arith) s h

lines_clean :
    (cseq status : List ℕ) (hls : List (List ℕ)) (body : List ℕ)
    → NoReturn status
    → NoReturn cseq
    → All IsHeaderLine hls
    → All NoReturn (response_lines cseq status hls body)
lines_clean cseq status hls body hs hc hh = (
  as_bytes-NoReturn (chars "RTSP/1.0 " ++ status)
      (All-append (λ c. c ≢ 13) (chars "RTSP/1.0 ") status (omega arith) hs),
  (
    as_bytes-NoReturn (chars "CSeq: " ++ cseq)
        (All-append (λ c. c ≢ 13) (chars "CSeq: ") cseq (omega arith) hc),
    All-append NoReturn (as_bytes_lines hls) (as_bytes (size_line body) ∷ [])
        (as_bytes_lines-NoReturn hls hh)
        (
          as_bytes-NoReturn (size_line body) (
              All-append (λ c. c ≢ 13) (chars "Content-Length: ") (show (length (as_bytes body)))
                (omega arith) (digits_clean (show (length (as_bytes body))) (show-IsDigit _))),
          tt,
        ),
  ),
)

encode_char-IsFilled : (c : ℕ) (rest : List ℕ) → IsFilled (encode_char c ++ rest)
unfolding encode_char
encode_char-IsFilled c rest =
    if_either (λ l. IsFilled (l ++ rest)) (ltb c 0x80) tt
      (if_either (λ l. IsFilled (l ++ rest)) (ltb c 0x800) tt
        (if_either (λ l. IsFilled (l ++ rest)) (ltb c 0x10000) tt tt))

as_bytes-IsFilled : (l : List ℕ) → IsFilled l → IsFilled (as_bytes l)
unfolding as_bytes
as_bytes-IsFilled [] h = absurd h
as_bytes-IsFilled (c ∷ l) h = encode_char-IsFilled c (as_bytes l)

as_bytes_lines-IsFilled :
    (hls : List (List ℕ)) → All IsHeaderLine hls → All IsFilled (as_bytes_lines hls)
unfolding as_bytes_lines
as_bytes_lines-IsFilled [] h = tt
as_bytes_lines-IsFilled (l ∷ ls) h = (as_bytes-IsFilled l h.0.1, as_bytes_lines-IsFilled ls h.1)

-- A line is found by the name at its front.
as_bytes-field :
    (name value : List ℕ) → IsAscii name → as_bytes (name ++ value) ≡ name ++ as_bytes value
as_bytes-field name value h =
    as_bytes-append name value ∙ ap (λ b. b ++ as_bytes value) (as_bytes_ascii name h)

field-first :
    (name value : List ℕ) (lines : List (List ℕ))
    → IsAscii name
    → field name (as_bytes (name ++ value) ∷ lines) ≡ some (as_bytes value)
unfolding field
field-first name value lines h =
    ap (λ found. first_some found (field name lines))
      (ap (strip_prefix name) (as_bytes-field name value h)
        ∙ strip_prefix-append name (as_bytes value))

field-after :
    (hls : List (List ℕ)) (lines : List (List ℕ))
    → All IsHeaderLine hls
    → field (chars "Content-Length: ") (as_bytes_lines hls ++ lines)
      ≡ field (chars "Content-Length: ") lines
unfolding field as_bytes_lines
field-after [] lines h = refl
field-after (l ∷ ls) lines h =
    ap (λ found. first_some found (field (chars "Content-Length: ") (as_bytes_lines ls ++ lines)))
      h.0.2
    ∙ field-after ls lines h.1

digits_ascii : (s : List ℕ) → All IsDigit s → as_bytes s ≡ s
digits_ascii s h = as_bytes_ascii s (All-imp IsDigit (λ c. c < 128) (λ c d. omega arith) s h)

-- The lines up to the empty one, and what comes after.
read_response-lines :
    (l : List ℕ) (ls : List (List ℕ)) (after : List ℕ)
    → All NoReturn (l ∷ ls)
    → All IsFilled ls
    → read_response (join_lines (l ∷ ls) ++ after) ≡ read_lines ((l ∷ ls) ++ [] ∷ [] ∷ []) after
unfolding read_response
read_response-lines l ls after clean filled =
    let (end, found, whole) = find_terminator-lines l ls after clean filled in
    rw
      (
        found,
        whole,
        take-length (join_lines (l ∷ ls)) after,
        drop-length (join_lines (l ∷ ls)) after,
        split_lines-join_lines (l ∷ ls) clean,
      )
      refl

read_parts-whole :
    (status : List ℕ) (cseq : Option (List ℕ)) (body rest : List ℕ)
    → read_parts (some status) cseq (some (length body)) (body ++ rest)
      ≡ some (record { status = status; number = cseq; body = body }, rest)
read_parts-whole status cseq body rest =
    let there : leb (length body) (length (body ++ rest)) ≡ true =
      le→leb _ _ (omega (arith, length-append body rest)) in
    rw (there, take-length body rest, drop-length body rest) refl

read_lines-response :
    (cseq status : List ℕ) (hls : List (List ℕ)) (body after : List ℕ)
    → All IsHeaderLine hls
    → length (as_bytes body) ≤ 18446744073709551615
    → read_lines (response_lines cseq status hls body ++ [] ∷ [] ∷ []) after
      ≡ read_parts
          (some (as_bytes status))
          (some (as_bytes cseq))
          (some (length (as_bytes body)))
          after
unfolding read_lines
read_lines-response cseq status hls body after hh small =
    let n = length (as_bytes body) in
    let tail = [] ∷ [] ∷ [] in
    let second = as_bytes (chars "CSeq: " ++ cseq) in
    let later = (as_bytes_lines hls ++ as_bytes (size_line body) ∷ []) ++ tail in
    let no_size : strip_prefix (chars "Content-Length: ") second ≡ none =
      ap (strip_prefix (chars "Content-Length: "))
        (as_bytes-field (chars "CSeq: ") cseq (omega arith))
      ∙ unfold strip_prefix in refl in
    let size : field (chars "Content-Length: ") (second ∷ later) ≡ some (show n) =
      unfold field in
      ap (λ found. first_some found (field (chars "Content-Length: ") later)) no_size
      ∙ ap (field (chars "Content-Length: "))
          (append_assoc (as_bytes_lines hls) (as_bytes (size_line body) ∷ []) tail)
      ∙ field-after hls (as_bytes (size_line body) ∷ tail) hh
      ∙ field-first (chars "Content-Length: ") (show n) tail (omega arith)
      ∙ ap some (digits_ascii (show n) (show-IsDigit n)) in
    let first : strip_prefix (chars "RTSP/1.0 ") (as_bytes (chars "RTSP/1.0 " ++ status))
        ≡ some (as_bytes status) =
      ap (strip_prefix (chars "RTSP/1.0 "))
        (as_bytes-field (chars "RTSP/1.0 ") status (omega arith))
      ∙ strip_prefix-append (chars "RTSP/1.0 ") (as_bytes status) in
    rw
      (first, field-first (chars "CSeq: ") cseq later (omega arith), size, parse_usize-show n small)
      refl

-- A client that reads what `respond` wrote gets the status, the CSeq and the body as bytes, and the
-- bytes behind the response are left for the next: `Content-Length` is the length of the body's
-- bytes, whatever its characters. The status and the CSeq have no carriage return; the header lines
-- have none either, are not empty and do not declare a length of their own.
pub read_response-respond :
    (cseq status : List ℕ) (hls : List (List ℕ)) (body rest : List ℕ)
    → NoReturn cseq
    → NoReturn status
    → All IsHeaderLine hls
    → length (as_bytes body) ≤ 18446744073709551615
    → read_response (respond cseq status (header_text hls) body ++ rest)
      ≡ some (
        record { status = as_bytes status; number = some (as_bytes cseq); body = as_bytes body },
        rest,
      )
read_response-respond cseq status hls body rest hc hs hh small =
    let ls = response_lines cseq status hls body in
    let written = as_bytes body in
    let filled : All IsFilled (as_bytes_lines hls ++ as_bytes (size_line body) ∷ []) =
      All-append IsFilled (as_bytes_lines hls) (as_bytes (size_line body) ∷ [])
        (as_bytes_lines-IsFilled hls hh) (as_bytes-IsFilled (size_line body) tt, tt) in
    ap (λ b. read_response (b ++ rest)) (respond-lines cseq status hls body)
    ∙ ap read_response (append_assoc (join_lines ls) written rest)
    ∙ read_response-lines (as_bytes (chars "RTSP/1.0 " ++ status)) _ (written ++ rest)
        (lines_clean cseq status hls body hs hc hh)
        (as_bytes-IsFilled (chars "CSeq: " ++ cseq) tt, filled)
    ∙ read_lines-response cseq status hls body (written ++ rest) hh small
    ∙ read_parts-whole (as_bytes status) (some (as_bytes cseq)) written rest
