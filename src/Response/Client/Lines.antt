-- ===== src/Response/Client/Lines.antt =====
-- A response as lines of bytes, with the body behind them.
use camrtsp.Common.{
  ℕ, ◌≡◌, ◌≢◌, refl, sym, ap, ◌∙◌, some, List, [], ◌∷◌, ◌++◌, length, append_assoc, All-append,
  arith, ==_refl,
}
use camrtsp.Text.{chars, strip_prefix}
use camrtsp.Text.Utf8.{encode_char, as_bytes}
use camrtsp.Text.Numbers.{show}
use camrtsp.Text.Lines.{NoReturn, join_lines}
use camrtsp.Response.{crlf, respond}
use camrtsp.Response.Client.{header_text}

pub as_bytes-append : (s t : List ℕ) → as_bytes (s ++ t) ≡ as_bytes s ++ as_bytes t
unfolding as_bytes
as_bytes-append [] t = refl
as_bytes-append (c ∷ s) t =
    ap (λ l. encode_char c ++ l) (as_bytes-append s t)
    ∙ sym (append_assoc (encode_char c) (as_bytes s) (as_bytes t))

pub encode_char-NoReturn : (c : ℕ) → c ≢ 13 → NoReturn (encode_char c)
unfolding encode_char
encode_char-NoReturn c ne = ground arith

pub as_bytes-NoReturn : (s : List ℕ) → NoReturn s → NoReturn (as_bytes s)
unfolding as_bytes
as_bytes-NoReturn [] h = tt
as_bytes-NoReturn (c ∷ s) h =
    All-append (λ b. b ≢ 13) (encode_char c) (as_bytes s) (encode_char-NoReturn c h.0)
      (as_bytes-NoReturn s h.1)

-- A text in front of a line's end.
pub as_bytes-line :
    (l rest : List ℕ) → as_bytes (l ++ (crlf ++ rest)) ≡ as_bytes l ++ 13 ∷ 10 ∷ as_bytes rest
as_bytes-line l rest =
    as_bytes-append l (crlf ++ rest)
    ∙ ap (λ b. as_bytes l ++ b) (unfold as_bytes encode_char in refl)

pub strip_prefix-append : (p s : List ℕ) → strip_prefix p (p ++ s) ≡ some s
unfolding strip_prefix
strip_prefix-append [] s = refl
strip_prefix-append (c ∷ p) s = rw (==_refl c) (strip_prefix-append p s)

unfoldable pub as_bytes_lines : List (List ℕ) → List (List ℕ)
as_bytes_lines [] = []
as_bytes_lines (l ∷ ls) = as_bytes l ∷ as_bytes_lines ls

-- The header lines, the line with the length, the empty line and the body.
pub after_cseq :
    (hls : List (List ℕ)) (last body : List ℕ)
    → as_bytes (header_text hls ++ (last ++ (crlf ++ (crlf ++ body))))
      ≡ join_lines (as_bytes_lines hls ++ as_bytes last ∷ []) ++ as_bytes body
unfolding join_lines as_bytes_lines
after_cseq [] last body =
    let ended : as_bytes (crlf ++ body) ≡ 13 ∷ 10 ∷ as_bytes body =
      unfold as_bytes encode_char in refl in
    as_bytes-line last (crlf ++ body)
    ∙ ap (λ b. as_bytes last ++ 13 ∷ 10 ∷ b) ended
    ∙ sym (append_assoc (as_bytes last) (13 ∷ 10 ∷ 13 ∷ 10 ∷ []) (as_bytes body))
after_cseq (l ∷ ls) last body =
    let tail = last ++ (crlf ++ (crlf ++ body)) in
    let joined = join_lines (as_bytes_lines ls ++ as_bytes last ∷ []) in
    ap as_bytes (append_assoc l (crlf ++ header_text ls) tail)
    ∙ as_bytes-line l (header_text ls ++ tail)
    ∙ ap (λ b. as_bytes l ++ 13 ∷ 10 ∷ b) (after_cseq ls last body)
    ∙ sym (append_assoc (as_bytes l) (13 ∷ 10 ∷ joined) (as_bytes body))

abbrev pub size_line : List ℕ → List ℕ
size_line body = chars "Content-Length: " ++ show (length (as_bytes body))

abbrev pub response_lines : List ℕ → List ℕ → List (List ℕ) → List ℕ → List (List ℕ)
response_lines cseq status hls body =
    as_bytes (chars "RTSP/1.0 " ++ status)
    ∷ as_bytes (chars "CSeq: " ++ cseq)
    ∷ (as_bytes_lines hls ++ as_bytes (size_line body) ∷ [])

pub respond-lines :
    (cseq status : List ℕ) (hls : List (List ℕ)) (body : List ℕ)
    → respond cseq status (header_text hls) body
      ≡ join_lines (response_lines cseq status hls body) ++ as_bytes body
unfolding respond join_lines
respond-lines cseq status hls body =
    let after = header_text hls ++ (size_line body ++ (crlf ++ (crlf ++ body))) in
    let joined = join_lines (as_bytes_lines hls ++ as_bytes (size_line body) ∷ []) in
    let second = as_bytes (chars "CSeq: " ++ cseq) in
    as_bytes-line (chars "RTSP/1.0 " ++ status) ((chars "CSeq: " ++ cseq) ++ (crlf ++ after))
    ∙ ap (λ b. as_bytes (chars "RTSP/1.0 " ++ status) ++ 13 ∷ 10 ∷ b)
        (as_bytes-line (chars "CSeq: " ++ cseq) after
          ∙ ap (λ b. second ++ 13 ∷ 10 ∷ b) (after_cseq hls (size_line body) body)
          ∙ sym (append_assoc second (13 ∷ 10 ∷ joined) (as_bytes body)))
    ∙ sym (append_assoc (as_bytes (chars "RTSP/1.0 " ++ status)) _ (as_bytes body))
