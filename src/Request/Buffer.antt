-- ===== src/Request/Buffer.antt =====
-- The loop of `take_request` ends, and the buffer of a connection stays bounded.
use camrtsp.Common.{
  ℕ, zero, suc, ◌+◌, ◌≤◌, ◌<◌, ◌≡◌, ◌≢◌, refl, Option, none, some, List, [], ◌∷◌, ◌++◌, length,
  length-append, take, drop, length-drop, if_either, All, arith, Result, ok, err,
}
use camrtsp.Text.Utf8.{from_utf8}
use camrtsp.Io.{IoError}
use camrtsp.Request.{
  Taken, complete, incomplete, failed, stuck, Front, text, short, frame, front, at_front,
  find_terminator, body_length, take_body, with_length, with_headers, take_message, at_terminator,
  take_text, take_loop, take_request, max_request_bytes, Read, bytes, read_error, retry, after_read,
  or_read, read_control,
}

-- What an answer and the bytes left over satisfy, for an input of length `n`.
pub record IsSound (n : ℕ) (answer : Taken × List ℕ) : Type 0 where
  pub not_stuck : answer.0 ≢ stuck
  pub bounded : answer.0 ≡ incomplete → length answer.1 < max_request_bytes
  pub shrinks : length answer.1 ≤ n

take_body-IsSound :
    (headers input : List ℕ) (total : ℕ) → IsSound (length input) (take_body headers input total)
unfolding take_body
take_body-IsSound headers input total = ground (arith, length-drop total input)

with_length-IsSound :
    (n : Result IoError ℕ) (headers : List ℕ) (header_end : ℕ) (input : List ℕ)
    → IsSound (length input) (with_length n headers header_end input)
unfolding with_length
with_length-IsSound (err e) headers header_end input = record {
  not_stuck = λ p. cc;
  bounded = λ p. cc;
  shrinks = omega arith;
}
with_length-IsSound (ok n) headers header_end input =
    take_body-IsSound headers input (header_end + n)

with_headers-IsSound :
    (decoded : Option (List ℕ)) (header_end : ℕ) (input : List ℕ)
    → IsSound (length input) (with_headers decoded header_end input)
unfolding with_headers
with_headers-IsSound none header_end input = record {
  not_stuck = λ p. cc;
  bounded = λ p. cc;
  shrinks = omega arith;
}
with_headers-IsSound (some headers) header_end input =
    with_length-IsSound (body_length headers) headers header_end input

at_terminator-IsSound :
    (o : Option ℕ) (input : List ℕ) → IsSound (length input) (at_terminator o input)
unfolding at_terminator take_message
at_terminator-IsSound none input = ground arith
at_terminator-IsSound (some end) input =
    with_headers-IsSound (from_utf8 (take (end + 4) input)) (end + 4) input

short-length : (input : List ℕ) → front input ≡ short → length input < 4
unfolding front
short-length [] e = cc
short-length (a ∷ []) e = omega arith
short-length (a ∷ b ∷ []) e = omega arith
short-length (a ∷ b ∷ c ∷ []) e = omega arith
short-length (a ∷ b ∷ c ∷ d ∷ rest) e = ground arith

pub frame-length : (input : List ℕ) (end : ℕ) → front input ≡ frame end → 4 ≤ end
unfolding front
frame-length [] end e = cc
frame-length (a ∷ []) end e = ground arith
frame-length (a ∷ b ∷ []) end e = ground arith
frame-length (a ∷ b ∷ c ∷ []) end e = ground arith
frame-length (a ∷ b ∷ c ∷ d ∷ rest) end e = ground arith

-- One round, where the rest of the loop is sound on any shorter input.
at_front-IsSound :
    (next : List ℕ → Taken × List ℕ) (f : Front) (input : List ℕ)
    → front input ≡ f
    → ((tail : List ℕ) → length tail < length input → IsSound (length tail) (next tail))
    → IsSound (length input) (at_front next f input)
unfolding at_front take_text
at_front-IsSound next text input e ih = at_terminator-IsSound (find_terminator input) input
at_front-IsSound next short input e ih = ground (arith, short-length input e)
at_front-IsSound next (frame end) input e ih =
    ground (arith, frame-length input end e, length-drop end input, ih (drop end input))

take_loop-IsSound :
    (fuel : ℕ) (input : List ℕ)
    → length input < fuel
    → IsSound (length input) (take_loop fuel input)
unfolding take_loop
take_loop-IsSound zero input h = absurd (omega arith)
take_loop-IsSound (suc fuel) input h =
    at_front-IsSound (take_loop fuel) (front input) input refl
      λ tail lt. take_loop-IsSound fuel tail (omega arith)

-- `take_request` ends on every input; when it needs more bytes, it holds less than 65536; and it never
-- makes the buffer longer.
pub take_request-IsSound : (input : List ℕ) → IsSound (length input) (take_request input)
unfolding take_request
take_request-IsSound input = take_loop-IsSound (suc (length input)) input (omega arith)

-- One `read` gives at most the 4096 bytes of its array.
abbrev pub FitsChunk : Read → Type 0
FitsChunk (bytes chunk) = length chunk ≤ 4096
FitsChunk (read_error e) = Unit

-- The bytes that a connection may hold: less than a whole request and one more read.
abbrev pub max_buffer : ℕ
max_buffer = 69632

pub record IsServed (answer : Taken × List ℕ) : Type 0 where
  pub not_stuck : answer.0 ≢ stuck
  pub bounded : length answer.1 < max_buffer

after_read-IsServed :
    (socket : Read) (input : List ℕ)
    → length input < max_request_bytes
    → FitsChunk socket
    → IsServed (after_read socket input)
unfolding after_read
after_read-IsServed (bytes []) input h fits = record { not_stuck = λ p. cc; bounded = omega arith }
after_read-IsServed (bytes (b ∷ bs)) input h fits = record {
  not_stuck = (take_request-IsSound (input ++ b ∷ bs)).not_stuck;
  bounded =
      omega (arith, (take_request-IsSound (input ++ b ∷ bs)).shrinks, length-append input (b ∷ bs));
}
after_read-IsServed (read_error e) input h fits = record {
  not_stuck = if_either (λ (t : Taken). t ≢ stuck) (retry e) (λ p. cc) (λ p. cc);
  bounded = omega arith;
}

or_read-IsServed :
    (socket : Read) (taken : Taken) (rest : List ℕ)
    → FitsChunk socket
    → taken ≢ stuck
    → (taken ≡ incomplete → length rest < max_request_bytes)
    → length rest < max_buffer
    → IsServed (or_read socket taken rest)
or_read-IsServed socket incomplete rest fits ne b h = after_read-IsServed socket rest (b refl) fits
or_read-IsServed socket (complete r) rest fits ne b h = record { not_stuck = ne; bounded = h }
or_read-IsServed socket (failed e) rest fits ne b h = record { not_stuck = ne; bounded = h }
or_read-IsServed socket stuck rest fits ne b h = absurd (ne refl)

-- A call of `read_control` ends, and keeps a buffer below 69632 bytes below 69632 bytes, for a socket
-- that gives at most 4096 bytes to a read.
pub read_control-IsServed :
    (socket : Read) (input : List ℕ)
    → length input < max_buffer
    → FitsChunk socket
    → IsServed (read_control socket input)
unfolding read_control
read_control-IsServed socket input h fits =
    let sound = take_request-IsSound input in
    or_read-IsServed socket (take_request input).0 (take_request input).1 fits sound.not_stuck
      sound.bounded (omega (arith, sound.shrinks))

-- The buffer of a connection after any reads, whatever they gave.
pub buffer_after : List Read → List ℕ → List ℕ
buffer_after [] input = input
buffer_after (socket ∷ sockets) input = buffer_after sockets (read_control socket input).1

-- The buffer of a connection stays below 69632 bytes, whatever its reads give, if none gives more than
-- 4096 bytes.
pub buffer_after_bounded :
    (sockets : List Read) (input : List ℕ)
    → All FitsChunk sockets
    → length input < max_buffer
    → length (buffer_after sockets input) < max_buffer
unfolding buffer_after
buffer_after_bounded [] input fits h = h
buffer_after_bounded (socket ∷ sockets) input fits h =
    buffer_after_bounded sockets (read_control socket input).1 fits.1
      (read_control-IsServed socket input h fits.0).bounded
