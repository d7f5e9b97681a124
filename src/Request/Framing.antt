-- ===== src/Request/Framing.antt =====
-- The cut of the byte stream does not depend on how the network splits it.
use camrtsp.Common.{
  ℕ, zero, suc, ◌+◌, ◌≤◌, ◌≡◌, ◌≢◌, refl, ap, ◌∙◌, Option, none, some, List, [], ◌∷◌, ◌++◌, length,
  length-append, take, drop, take_append_le, drop_append_le, arith, Option-cases, inl, inr, ◌⊎◌,
  Result, ok, err,
}
use camrtsp.Text.{starts_with-length, starts_with_append}
use camrtsp.Text.Utf8.{from_utf8}
use camrtsp.Io.{IoError}
use camrtsp.Request.{
  Request, Taken, complete, Front, text, short, frame, front, at_front, terminator, find_terminator,
  body_length, take_body, with_length, with_headers, at_terminator, take_message, take_text,
  take_loop, take_request,
}

-- A terminator that is found stays where it is when bytes are added, and lies inside the input.
find_terminator-append :
    (input more : List ℕ) (n : ℕ)
    → find_terminator input ≡ some n
    → (find_terminator (input ++ more) ≡ some n) × (n + 4 ≤ length input)
unfolding find_terminator
find_terminator-append [] more n e = cc
find_terminator-append (c ∷ rest) more zero e = ground (
  arith,
  starts_with-length terminator (c ∷ rest),
  starts_with_append terminator (c ∷ rest) more,
  find_terminator-append rest more,
)
find_terminator-append (c ∷ rest) more (suc n) e =
    ground
      (arith, starts_with_append terminator (c ∷ rest) more, find_terminator-append rest more n)

front-append :
    (input more : List ℕ) (end : ℕ) → front input ≡ frame end → front (input ++ more) ≡ frame end
unfolding front
front-append [] more end e = cc
front-append (a ∷ []) more end e = ground arith
front-append (a ∷ b ∷ []) more end e = ground arith
front-append (a ∷ b ∷ c ∷ []) more end e = ground arith
front-append (a ∷ b ∷ c ∷ d ∷ rest) more end e = ground arith

front_text-append :
    (a : ℕ) (input more : List ℕ) → front (a ∷ input) ≡ text → front ((a ∷ input) ++ more) ≡ text
unfolding front
front_text-append a [] more e = ground arith
front_text-append a (b ∷ []) more e = ground arith
front_text-append a (b ∷ c ∷ []) more e = ground arith
front_text-append a (b ∷ c ∷ d ∷ rest) more e = ground arith

-- The three fronts, each with its equation.
pub Front-cases : (f : Front) → (f ≡ text) ⊎ ((f ≡ short) ⊎ ((end : ℕ) × (f ≡ frame end)))
Front-cases text = inl refl
Front-cases short = inr (inl refl)
Front-cases (frame end) = inr (inr (end, refl))

-- Without a terminator no request is complete.
not_complete :
    (input : List ℕ) (r : Request) (rest : List ℕ) → at_terminator none input ≢ (complete r, rest)
unfolding at_terminator
not_complete input r rest e = ground arith

module _ (more rest : List ℕ) (r : Request) where
  take_body-append :
      (headers input : List ℕ) (total : ℕ)
      → take_body headers input total ≡ (complete r, rest)
      → (take_body headers (input ++ more) total ≡ (complete r, rest ++ more))
  unfolding take_body
  take_body-append headers input total e =
      ground (arith, length-append input more, drop_append_le total input more)

  with_length-append :
      (length_read : Result IoError ℕ) (headers : List ℕ) (header_end : ℕ) (input : List ℕ)
      → with_length length_read headers header_end input ≡ (complete r, rest)
      → with_length length_read headers header_end (input ++ more) ≡ (complete r, rest ++ more)
  unfolding with_length
  with_length-append (err x) headers header_end input e = cc (ap (λ (t : Taken × List ℕ). t.0) e)
  with_length-append (ok n) headers header_end input e =
      take_body-append headers input (header_end + n) e

  with_headers-append :
      (decoded : Option (List ℕ)) (header_end : ℕ) (input : List ℕ)
      → with_headers decoded header_end input ≡ (complete r, rest)
      → with_headers decoded header_end (input ++ more) ≡ (complete r, rest ++ more)
  unfolding with_headers
  with_headers-append none header_end input e = cc (ap (λ (t : Taken × List ℕ). t.0) e)
  with_headers-append (some headers) header_end input e =
      with_length-append (body_length headers) headers header_end input e

  take_message-append :
      (header_end : ℕ) (input : List ℕ)
      → header_end ≤ length input
      → take_message header_end input ≡ (complete r, rest)
      → take_message header_end (input ++ more) ≡ (complete r, rest ++ more)
  unfolding take_message
  take_message-append header_end input le e =
      ap (λ bytes. with_headers (from_utf8 bytes) header_end (input ++ more))
        (take_append_le header_end input more le)
      ∙ with_headers-append (from_utf8 (take header_end input)) header_end input e

  take_text-append :
      (input : List ℕ)
      → take_text input ≡ (complete r, rest)
      → take_text (input ++ more) ≡ (complete r, rest ++ more)
  unfolding take_text
  take_text-append input e = elim (Option-cases (find_terminator input)) [
    | inl missing ↦ absurd (not_complete input r rest (rw missing at e))
    | inr (n, found) ↦
        let (still, inside) = find_terminator-append input more n found in
        rw still (take_message-append (n + 4) input inside (rw found at e))
  ]

  at_frame :
      (end : ℕ) (input : List ℕ) (next next' : List ℕ → Taken × List ℕ)
      → (next (drop end input) ≡ (complete r, rest)
          → next' (drop end input ++ more) ≡ (complete r, rest ++ more))
      → at_front next (frame end) input ≡ (complete r, rest)
      → at_front next' (frame end) (input ++ more) ≡ (complete r, rest ++ more)
  unfolding at_front
  at_frame end input next next' ih e =
      ground (arith, ih, length-append input more, drop_append_le end input more)

  -- One round: a frame that is skipped is skipped with more bytes behind it.
  at_front-append :
      (next next' : List ℕ → Taken × List ℕ) (input : List ℕ)
      → ((tail : List ℕ)
          → next tail ≡ (complete r, rest)
          → next' (tail ++ more) ≡ (complete r, rest ++ more))
      → at_front next (front input) input ≡ (complete r, rest)
      → at_front next' (front (input ++ more)) (input ++ more) ≡ (complete r, rest ++ more)
  unfolding at_front
  at_front-append next next' [] ih e =
      absurd (not_complete [] r rest (unfold front take_text find_terminator in e))
  at_front-append next next' (a ∷ tail) ih e = elim (Front-cases (front (a ∷ tail))) [
    | inl is_text ↦
        rw (front_text-append a tail more is_text) (take_text-append (a ∷ tail) (rw is_text at e))
    | inr (inl is_short) ↦ cc (ap (λ (t : Taken × List ℕ). t.0) (rw is_short at e))
    | inr (inr (end, is_frame)) ↦
        rw (front-append (a ∷ tail) more end is_frame)
          (at_frame end (a ∷ tail) next next' (ih (drop end (a ∷ tail))) (rw is_frame at e))
  ]

  take_loop-append :
      (f g : ℕ) (input : List ℕ)
      → f ≤ g
      → take_loop f input ≡ (complete r, rest)
      → take_loop g (input ++ more) ≡ (complete r, rest ++ more)
  unfolding take_loop
  take_loop-append zero g input le e = cc (ap (λ (t : Taken × List ℕ). t.0) e)
  take_loop-append (suc f) zero input le e = absurd (omega arith)
  take_loop-append (suc f) (suc g) input le e =
      at_front-append (take_loop f) (take_loop g) input
        (λ tail. take_loop-append f g tail (omega arith)) e

-- A request that is complete stays the same when more bytes have arrived behind it, and they are left
-- for the next call: the requests do not depend on how the network splits the stream.
pub take_request-append :
    (input more rest : List ℕ) (r : Request)
    → take_request input ≡ (complete r, rest)
    → take_request (input ++ more) ≡ (complete r, rest ++ more)
unfolding take_request
take_request-append input more rest r e =
    take_loop-append more rest r (suc (length input)) (suc (length (input ++ more))) input
      (omega (arith, length-append input more)) e
