-- ===== src/Session/Answers.antt =====
-- What a request is answered: one response, which a client can read.
pub mod Lines
pub mod Replies
pub mod Growing
pub mod Handled
pub mod Serving
pub mod Heard
pub mod Asked
use camrtsp.Common.{
  subst, sym, ℕ, suc, ◌+◌, ◌-◌, ◌≤◌, ◌<◌, ◌≡◌, ◌≢◌, ◌⊎◌, inr, refl, sym, ap, ◌∙◌, true, Option,
  none, some, List, [], ◌∷◌, ◌++◌, length, any, same, All, arith, ok, Result, err,
}
use camrtsp.Io.{IoError}
use camrtsp.Text.{chars}
use camrtsp.Text.Lines.{NoReturn}
use camrtsp.Text.Utf8.{as_bytes}
use camrtsp.Auth.{AuthState}
use camrtsp.Broadcaster.{BroadcastState}
use camrtsp.Core.{CodecConfig}
use camrtsp.Request.{Request, cseq}
use camrtsp.Response.{respond, sdp}
use camrtsp.Response.Client.{header_text, IsHeaderLine}
use camrtsp.Transport.{Output, stream}
use camrtsp.Session.{Config, Tick, Session, Flow, serve, next_round, ended, continue_with, pure}
use camrtsp.Session.Control.{reply, answer, refuse}
use camrtsp.Session.Sending.{write_ok}

-- The status lines of a session.
pub statuses : List (List ℕ)
statuses =
    chars "200 OK"
    ∷ chars "401 Unauthorized"
    ∷ chars "404 Not Found"
    ∷ chars "454 Session Not Found"
    ∷ chars "455 Method Not Valid in This State"
    ∷ chars "461 Unsupported Transport"
    ∷ chars "503 Service Unavailable"
    ∷ []

abbrev pub usize_max : ℕ
usize_max = 18446744073709551615

-- A response with the request's CSeq, whose headers are lines and whose body has a length that fits.
pub record IsAnswer (request : Request) (bytes : List ℕ) : Type 0 where
  pub status : List ℕ
  pub lines : List (List ℕ)
  pub body : List ℕ
  pub written : bytes ≡ respond (cseq request) status (header_text lines) body
  pub known : any (same status) statuses ≡ true
  pub clean : All IsHeaderLine lines
  pub fits : length (as_bytes body) ≤ usize_max

-- No text that goes into a header has a carriage return, and a description's length fits a `usize`.
pub record IsClean (c : Config) (t : Tick) (request : Request) (s : Session) : Type 0 where
  pub number : NoReturn (cseq request)
  pub uri : NoReturn request.uri
  pub id : NoReturn c.session_id
  pub text : NoReturn c.local_text
  pub path : NoReturn c.path
  pub ip : NoReturn c.local_ip
  pub old_nonce : NoReturn s.auth.nonce
  pub new_nonce : NoReturn t.nonce
  pub description_fits :
      (codec : CodecConfig)
      → s.source.codec ≡ some codec
      → length (as_bytes (sdp c.packages c.show_rate s.source.frame_rate codec)) ≤ usize_max

-- It depends only on the session's nonce and the broadcaster.
pub moved-IsClean :
    (c : Config) (t : Tick) (request : Request) (s s' : Session)
    → s'.auth ≡ s.auth
    → s'.source ≡ s.source
    → IsClean c t request s
    → IsClean c t request s'
moved-IsClean c t request s s' auth source clean = record {
  number = clean.number;
  uri = clean.uri;
  id = clean.id;
  text = clean.text;
  path = clean.path;
  ip = clean.ip;
  old_nonce = subst (λ (a : AuthState). NoReturn a.nonce) (sym auth) clean.old_nonce;
  new_nonce = clean.new_nonce;
  description_fits =
      subst
        (λ (b : BroadcastState).
          (codec : CodecConfig)
          → b.codec ≡ some codec
          → length (as_bytes (sdp c.packages c.show_rate b.frame_rate codec)) ≤ usize_max)
        (sym source) clean.description_fits;
}

-- What was written behind `before`: the answer, and nothing more unless the session has ended.
pub record Answers (request : Request) (before : List Output)
    (result : Result IoError Flow × Session) : Type 0 where
  pub bytes : List ℕ
  pub more : List Output
  pub grown : result.1.out ≡ before ++ stream bytes ∷ more
  pub answer_of : IsAnswer request bytes
  pub alone : (result.0 ≡ ok ended) ⊎ (more ≡ [])

reply_ok :
    (request : Request) (status headers body : List ℕ) (s : Session)
    → 1 ≤ s.writes_left
    → reply request status headers body s ≡ (
      ok tt,
      record s {
        out = s.out ++ stream (respond (cseq request) status headers body) ∷ [];
        writes_left = s.writes_left - 1;
      },
    )
unfolding reply
reply_ok request status headers body s room =
    write_ok (s.writes_left - 1) (stream (respond (cseq request) status headers body)) s
      (omega arith)

module _ (request : Request) (status : List ℕ) (lines : List (List ℕ)) (body : List ℕ)
    (known : any (same status) statuses ≡ true) (clean : All IsHeaderLine lines)
    (fits : length (as_bytes body) ≤ usize_max) (s : Session) (room : 1 ≤ s.writes_left) where
  -- A reply, and a flow that ends the handling of the request.
  pub reply-Answers :
      (flow : Flow)
      → Answers request s.out
          (continue_with (λ _. pure flow) (reply request status (header_text lines) body s))
  reply-Answers flow = rw (reply_ok request status (header_text lines) body s room) (record {
    bytes = respond (cseq request) status (header_text lines) body;
    more = [];
    grown = refl;
    answer_of = record {
      status = status;
      lines = lines;
      body = body;
      written = refl;
      known = known;
      clean = clean;
      fits = fits;
    };
    alone = inr refl;
  })

  pub answer-Answers : Answers request s.out (answer request status (header_text lines) body s)
  unfolding answer
  answer-Answers = reply-Answers serve

pub refuse-Answers :
    (request : Request) (status : List ℕ) (s : Session)
    → any (same status) statuses ≡ true
    → 1 ≤ s.writes_left
    → Answers request s.out (refuse request status s)
unfolding refuse
refuse-Answers request status s known room =
    reply-Answers request status [] [] known tt (unfold as_bytes in omega arith) s room next_round
