-- ===== src/Session/Answers/Replies.antt =====
-- The answer of each branch that has one of its own.
use camrtsp.Common.{
  ℕ, ◌-◌, ◌≤◌, ◌≡◌, refl, true, Option, none, some, List, [], ◌∷◌, ◌++◌, any, same, length, All,
  if_either, arith, leb, if◌then◌else◌,
}
use camrtsp.Core.{CodecConfig}
use camrtsp.Text.{chars, strip_prefix}
use camrtsp.Text.Lines.{NoReturn}
use camrtsp.Text.Utf8.{as_bytes, encode_char}
use camrtsp.Auth.{AuthState, nonce_ttl}
use camrtsp.Request.{Request}
use camrtsp.Response.{sdp}
use camrtsp.Response.Client.{header_text, IsHeaderLine}
use camrtsp.Transport.{Delivery, transport_header}
use camrtsp.Session.{Config, Tick, Session, next_round}
use camrtsp.Session.Control.{
  answer, challenge, unauthorized, content_base, describe_with, setup_with, negotiated,
}
use camrtsp.Session.Answers.{IsClean, Answers, statuses, usize_max, reply-Answers, answer-Answers}
use camrtsp.Session.Answers.Lines.{
  session_line, transport_line, base_line, challenge_line, content_base-NoReturn,
  negotiated-NoReturn,
}

pub empty_fits : length (as_bytes []) ≤ usize_max
empty_fits = unfold as_bytes in omega arith

-- An answer with header lines and no body.
pub plain-Answers :
    (request : Request) (status : List ℕ) (lines : List (List ℕ)) (s : Session)
    → any (same status) statuses ≡ true
    → All IsHeaderLine lines
    → 1 ≤ s.writes_left
    → Answers request s.out (answer request status (header_text lines) [] s)
plain-Answers request status lines s known clean room =
    answer-Answers request status lines [] known clean empty_fits s room

pub okay : any (same (chars "200 OK")) statuses ≡ true
okay = unfold statuses same in refl

pub not_valid-Answers :
    (request : Request) (s : Session)
    → 1 ≤ s.writes_left
    → Answers request s.out (answer request (chars "455 Method Not Valid in This State") [] [] s)
not_valid-Answers request s room =
    plain-Answers request (chars "455 Method Not Valid in This State") [] s
      (unfold statuses same in refl) tt room

pub unauthorized-Answers :
    (c : Config) (t : Tick) (request : Request) (s : Session)
    → IsClean c t request s
    → 1 ≤ s.writes_left
    → Answers request s.out (unauthorized t request s)
unfolding unauthorized challenge
unauthorized-Answers c t request s clean room =
    let auth : AuthState =
      if leb nonce_ttl (t.at_request - s.auth.issued)
      then record { nonce = t.nonce; issued = t.at_request }
      else s.auth in
    let nonce : NoReturn auth.nonce =
      if_either (λ (a : AuthState). NoReturn a.nonce) (leb nonce_ttl (t.at_request - s.auth.issued))
        clean.new_nonce clean.old_nonce in
    reply-Answers request (chars "401 Unauthorized")
      ((chars "WWW-Authenticate: Digest realm=\"camrtsp\", nonce=\""
          ++ (auth.nonce ++ chars "\", algorithm=SHA-256, qop=\"auth\""))
        ∷ (chars "WWW-Authenticate: Digest realm=\"camrtsp\", nonce=\""
            ++ (auth.nonce ++ chars "\", algorithm=MD5, qop=\"auth\""))
        ∷ chars "WWW-Authenticate: Basic realm=\"camrtsp\""
        ∷ [])
      [] (unfold statuses same in refl)
      (
        challenge_line auth.nonce (chars "\", algorithm=SHA-256, qop=\"auth\"") nonce (omega arith),
        (
          challenge_line auth.nonce (chars "\", algorithm=MD5, qop=\"auth\"") nonce (omega arith),
          ((omega arith, tt, unfold as_bytes encode_char strip_prefix in refl), tt),
        ),
      )
      empty_fits (record s { auth = auth }) room next_round

module _ (c : Config) (t : Tick) (request : Request) (s : Session) (clean : IsClean c t request s)
    (room : 1 ≤ s.writes_left) where
  pub describe_with-Answers :
      (codec : Option CodecConfig)
      → s.source.codec ≡ codec
      → Answers request s.out (describe_with c request codec s)
  unfolding describe_with
  describe_with-Answers none e =
      plain-Answers request (chars "503 Service Unavailable") (chars "Retry-After: 1" ∷ []) s
        (unfold statuses same in refl)
        ((omega arith, tt, unfold as_bytes encode_char strip_prefix in refl), tt) room
  describe_with-Answers (some codec) e =
      answer-Answers request (chars "200 OK")
        (chars "Content-Type: application/sdp"
          ∷ (chars "Content-Base: " ++ (content_base c request ++ chars "/"))
          ∷ [])
        (sdp c.packages c.show_rate s.source.frame_rate codec) okay
        (
          (omega arith, tt, unfold as_bytes encode_char strip_prefix in refl),
          (
            base_line (content_base c request)
                (content_base-NoReturn c request clean.uri clean.text clean.path),
            tt,
          ),
        )
        (clean.description_fits codec e) s room

  pub setup_with-Answers :
      (selected : Option Delivery)
      → negotiated c t request ≡ selected
      → Answers request s.out (setup_with c request selected s)
  unfolding setup_with
  setup_with-Answers none e =
      plain-Answers request (chars "461 Unsupported Transport") [] s (unfold statuses same in refl)
        tt room
  setup_with-Answers (some selected) e =
      plain-Answers request (chars "200 OK")
        ((chars "Transport: " ++ transport_header selected)
          ∷ (chars "Session: " ++ c.session_id)
          ∷ [])
        (record s { delivery = some selected }) okay
        (
          transport_line (transport_header selected)
              (negotiated-NoReturn c t request selected e clean.ip),
          (session_line c clean.id, tt),
        )
        room
