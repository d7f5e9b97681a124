-- ===== src/Session/Answers/Asked.antt =====
-- From the bytes of a request on the control connection to the answer that a client reads.
use camrtsp.Common.{
  ℕ, ◌+◌, ◌≤◌, ◌≡◌, refl, ap, ◌∙◌, some, List, ◌∷◌, ◌++◌, All, length, append_assoc, drop,
  drop-length, Result, ok, err,
}
use camrtsp.Io.{IoError}
use camrtsp.Request.{
  Headers, Request, complete, incomplete, Read, bytes, take_request, read_control, after_read,
}
use camrtsp.Request.Printed.{printed, read_back, declared, IsMethod, IsUri, IsHeader, AreDistinct}
use camrtsp.Request.Printed.Framed.{take_request-printed}
use camrtsp.Response.Client.{read_response}
use camrtsp.Transport.{Output, stream}
use camrtsp.Session.{Config, Tick, Session, Flow, continue_with}
use camrtsp.Session.Control.{handle_request}
use camrtsp.Session.Media.{after_request, on_taken, round}
use camrtsp.Session.Viewer.{stream_bytes}
use camrtsp.Session.Delivering.{written_since}
use camrtsp.Session.Answers.{IsClean, moved-IsClean, Answers}
use camrtsp.Session.Answers.Serving.{after_request-Grows}
use camrtsp.Session.Answers.Handled.{handle_request-Answers}
use camrtsp.Session.Answers.Heard.{HasRead, IsAnswer-HasRead}

-- The bytes that one read adds make the request complete.
read_control-complete :
    (socket : Read) (b : ℕ) (bs input whole rest : List ℕ) (request : Request)
    → socket ≡ bytes (b ∷ bs)
    → take_request input ≡ (incomplete, input)
    → input ++ b ∷ bs ≡ whole
    → take_request whole ≡ (complete request, rest)
    → read_control socket input ≡ (complete request, rest)
unfolding read_control after_read
read_control-complete socket b bs input whole rest request arrived waiting joined taken =
    rw (waiting, arrived, joined) taken

-- The rest of the round writes behind the answer.
answered_first :
    (c : Config) (t : Tick) (request : Request) (before : List Output)
    (handled : Result IoError Flow × Session) (answers : Answers request before handled)
    → (more : List Output) × ((continue_with (after_request c t) handled).1.out
        ≡ before ++ stream answers.bytes ∷ more)
answered_first c t request before (ok flow, s) answers =
    let (rest, grown) = after_request-Grows c t flow s in
    (
      answers.more ++ rest,
      grown
          ∙ ap (λ os. os ++ rest) answers.grown
          ∙ append_assoc before (stream answers.bytes ∷ answers.more) rest,
    )
answered_first c t request before (err e, s) answers = (answers.more, answers.grown)

-- A client that prints a request, as it is for `take_request-printed`, and sends it in any parts reads
-- one response to it next: in the round whose read completes the request, the session first writes a
-- response with the request's CSeq and one of the seven status lines, whatever it writes behind it.
-- Before that read the buffer holds bytes of this request only; the first write goes well; the
-- request's CSeq and URI, the session's own texts and the nonces have no carriage return, and the
-- length of a description fits a `usize`.
pub asked-HasRead :
    (c : Config) (t : Tick) (s : Session) (m : ℕ) (ms : List ℕ) (u : ℕ) (us : List ℕ) (hs : Headers)
    (body rest : List ℕ) (b : ℕ) (bs : List ℕ)
    → IsMethod (m ∷ ms)
    → IsUri (u ∷ us)
    → All IsHeader hs
    → AreDistinct hs
    → declared hs ≡ some (length body)
    → length (printed (m ∷ ms) (u ∷ us) hs) + length body ≤ 65536
    → take_request s.input ≡ (incomplete, s.input)
    → t.socket ≡ bytes (b ∷ bs)
    → s.input ++ b ∷ bs ≡ printed (m ∷ ms) (u ∷ us) hs ++ (body ++ rest)
    → IsClean c t (read_back (m ∷ ms) (u ∷ us) hs) s
    → 1 ≤ s.writes_left
    → (behind : List ℕ) × HasRead
        (read_back (m ∷ ms) (u ∷ us) hs)
        (read_response (stream_bytes (written_since s (round c t s).1)))
        behind
unfolding round on_taken
asked-HasRead c t s m ms u us hs body rest b bs method uri headers distinct sized small waiting
      arrived joined clean room =
    let request = read_back (m ∷ ms) (u ∷ us) hs in
    let taken =
      read_control-complete t.socket b bs s.input _ rest request arrived waiting joined
        (take_request-printed m ms u us hs body rest method uri headers distinct sized small) in
    let read = record s { input = rest } in
    let answers =
      handle_request-Answers c t request read (moved-IsClean c t request s read refl refl clean)
        room in
    let (more, grown) =
      answered_first c t request s.out (handle_request c t request read) answers in
    let new = ap (drop (length s.out)) grown ∙ drop-length s.out (stream answers.bytes ∷ more) in
    (
      stream_bytes more,
      rw (taken, new)
          (unfold stream_bytes in
            IsAnswer-HasRead request answers.bytes (stream_bytes more) clean.number
              answers.answer_of),
    )
