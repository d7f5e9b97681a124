-- ===== src/Session/Answers/Heard.antt =====
-- What a client reads after a request.
use camrtsp.Common.{
  ℕ, ◌≤◌, ◌≡◌, ◌⊎◌, refl, sym, ap, ◌∙◌, subst, true, Option, some, List, [], ◌∷◌, ◌++◌, any, same,
  same→eq, ok, All, arith, Bool-cases, inl, inr, drop, length, drop-length,
}
use camrtsp.Text.Lines.{NoReturn}
use camrtsp.Text.Utf8.{as_bytes, as_bytes_ascii, IsAscii}
use camrtsp.Request.{Request, cseq}
use camrtsp.Response.Client.{ReadResponse, read_response}
use camrtsp.Response.Client.Reading.{read_response-respond}
use camrtsp.Transport.{Output, stream}
use camrtsp.Session.{Config, Tick, Session, ended}
use camrtsp.Session.Control.{handle_request}
use camrtsp.Session.Viewer.{stream_bytes}
use camrtsp.Session.Delivering.{written_since}
use camrtsp.Session.Answers.{IsClean, IsAnswer, statuses}
use camrtsp.Session.Answers.Handled.{handle_request-Answers}

any_same {ℓ} :
    (P : List ℕ → Type ℓ) (s : List ℕ) (ls : List (List ℕ))
    → All P ls
    → any (same s) ls ≡ true
    → P s
any_same P s [] h e = cc
any_same P s (l ∷ ls) h e = elim (Bool-cases (same s l)) [
  | inl equal ↦ subst P (sym (same→eq s l equal)) h.0
  | inr other ↦ any_same P s ls h.1 (rw other at e)
]

-- What a client has read: one response to the request, and what else it finds behind it.
pub record HasRead (request : Request) (result : Option (ReadResponse × List ℕ)) (behind : List ℕ)
    : Type 0 where
  pub response : ReadResponse
  pub read : result ≡ some (response, behind)
  pub number : response.number ≡ some (as_bytes (cseq request))
  pub status : any (same response.status) statuses ≡ true

pub IsAnswer-HasRead :
    (request : Request) (bytes behind : List ℕ)
    → NoReturn (cseq request)
    → IsAnswer request bytes
    → HasRead request (read_response (bytes ++ behind)) behind
IsAnswer-HasRead request bytes behind h answer =
    let clean : NoReturn answer.status =
      any_same NoReturn answer.status statuses (unfold statuses in omega arith) answer.known in
    let ascii : IsAscii answer.status =
      any_same IsAscii answer.status statuses (unfold statuses in omega arith) answer.known in
    record {
      response = record {
        status = as_bytes answer.status;
        number = some (as_bytes (cseq request));
        body = as_bytes answer.body;
      };
      read =
          ap (λ b. read_response (b ++ behind)) answer.written
          ∙ read_response-respond (cseq request) answer.status answer.lines answer.body behind h
              clean answer.clean answer.fits;
      number = refl;
      status = ap (λ s. any (same s) statuses) (as_bytes_ascii answer.status ascii) ∙ answer.known;
    }

-- Whatever request a session takes, a client then reads from the connection one response with the
-- request's CSeq and one of the seven status lines, and finds nothing behind it, unless the session has ended
-- and says goodbye. The first write goes well; the request's CSeq and URI, the session's own texts
-- and the nonces have no carriage return, and the length of a description fits a `usize`.
pub handle_request-HasRead :
    (c : Config) (t : Tick) (request : Request) (s : Session)
    → IsClean c t request s
    → 1 ≤ s.writes_left
    → let (result, s') = handle_request c t request s in
      (more : List Output) × HasRead request
        (read_response (stream_bytes (written_since s s')))
        (stream_bytes more)
      × ((result ≡ ok ended) ⊎ (more ≡ []))
handle_request-HasRead c t request s clean room =
    let answers = handle_request-Answers c t request s clean room in
    let new : written_since s (handle_request c t request s).1
        ≡ stream answers.bytes ∷ answers.more =
      ap (drop (length s.out)) answers.grown
      ∙ drop-length s.out (stream answers.bytes ∷ answers.more) in
    (
      answers.more,
      subst (λ os. HasRead request (read_response (stream_bytes os)) (stream_bytes answers.more))
          (sym new)
          (unfold stream_bytes in
            IsAnswer-HasRead request answers.bytes (stream_bytes answers.more) clean.number
              answers.answer_of),
      answers.alone,
    )
