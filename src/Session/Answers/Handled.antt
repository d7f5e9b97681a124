-- ===== src/Session/Answers/Handled.antt =====
-- Every request that `handle` takes is answered.
use camrtsp.Common.{
  ℕ, ◌-◌, ◌≤◌, ◌≡◌, refl, sym, ◌∙◌, subst, Bool, true, false, not, Option, none, some, List, [],
  ◌∷◌, ◌++◌, same, All, Bool-cases, inl, inr, arith, ok, append_assoc,
}
use camrtsp.Text.{chars, strip_prefix}
use camrtsp.Text.Utf8.{as_bytes, encode_char}
use camrtsp.Broadcaster.{is_some}
use camrtsp.Request.{Request, cseq}
use camrtsp.Response.{respond, line, crlf}
use camrtsp.Response.Client.{header_text, IsHeaderLine}
use camrtsp.Transport.{stream}
use camrtsp.Session.{Config, Tick, Session, ended, continue_with}
use camrtsp.Session.Control.{
  reply, answer, session_header, negotiated, start_playing, stop_playing, say_bye, Method, options,
  describe, setup, play, pause, get_parameter, teardown, unknown, method_of, wrong_session,
  supplied_session, is_found, admitted, dispatch, handle_checked, handle_request,
}
use camrtsp.Session.Answers.{moved-IsClean, IsClean, Answers, statuses, reply_ok, refuse-Answers}
use camrtsp.Session.Answers.Lines.{session_line}
use camrtsp.Session.Answers.Replies.{
  empty_fits, plain-Answers, okay, not_valid-Answers, unauthorized-Answers, describe_with-Answers,
  setup_with-Answers,
}
use camrtsp.Session.Answers.Growing.{say_bye-Grows}

-- A change of the subscription writes nothing.
start_playing-out :
    (subscription : Option ℕ) (s : Session)
    → ((start_playing subscription s).out ≡ s.out)
      × ((start_playing subscription s).writes_left ≡ s.writes_left)
unfolding start_playing
start_playing-out none s = (refl, refl)
start_playing-out (some id) s = (refl, refl)

stop_playing-out :
    (subscription : Option ℕ) (s : Session)
    → ((stop_playing subscription s).out ≡ s.out)
      × ((stop_playing subscription s).writes_left ≡ s.writes_left)
unfolding stop_playing
stop_playing-out none s = (refl, refl)
stop_playing-out (some id) s = (refl, refl)

moved-Answers :
    (request : Request) (lines : List (List ℕ)) (s s' : Session)
    → (s'.out ≡ s.out) × (s'.writes_left ≡ s.writes_left)
    → All IsHeaderLine lines
    → 1 ≤ s.writes_left
    → Answers request s.out (answer request (chars "200 OK") (header_text lines) [] s')
moved-Answers request lines s s' same_out clean room =
    subst (λ out. Answers request out (answer request (chars "200 OK") (header_text lines) [] s'))
      same_out.0
      (plain-Answers request (chars "200 OK") lines s' okay clean (omega (arith, same_out.1)))

module _ (c : Config) (t : Tick) (request : Request) (s : Session) (clean : IsClean c t request s)
    (room : 1 ≤ s.writes_left) where
  teardown-Answers : Answers request s.out (
      continue_with
        (λ _ s'. (ok ended, say_bye c s'.delivery s'))
        (reply request (chars "200 OK") (session_header c) [] s))
  teardown-Answers =
      let bytes = respond (cseq request) (chars "200 OK") (session_header c) [] in
      let replied = record s {
        out = s.out ++ stream bytes ∷ [];
        writes_left = s.writes_left - 1;
      } in
      let (more, grown) = say_bye-Grows c s.delivery replied in
      rw (reply_ok request (chars "200 OK") (session_header c) [] s room) (record {
        bytes = bytes;
        more = more;
        grown = grown ∙ append_assoc s.out (stream bytes ∷ []) more;
        answer_of = record {
          status = chars "200 OK";
          lines = (chars "Session: " ++ c.session_id) ∷ [];
          body = [];
          written = refl;
          known = okay;
          clean = (session_line c clean.id, tt);
          fits = empty_fits;
        };
        alone = inl refl;
      })

  dispatch-Answers :
      (method : Method) (set_up playing : Bool)
      → Answers request s.out (dispatch c t request method set_up playing s)
  unfolding dispatch
  dispatch-Answers options set_up playing =
      plain-Answers request (chars "200 OK")
        (chars "Public: OPTIONS, DESCRIBE, SETUP, PLAY, PAUSE, GET_PARAMETER, TEARDOWN" ∷ []) s okay
        ((omega arith, tt, unfold as_bytes encode_char strip_prefix in refl), tt) room
  dispatch-Answers describe set_up playing =
      describe_with-Answers c t request s clean room s.source.codec refl
  dispatch-Answers setup set_up false =
      setup_with-Answers c t request s clean room (negotiated c t request) refl
  dispatch-Answers setup set_up true = not_valid-Answers request s room
  dispatch-Answers play true playing =
      subst
        (λ headers.
          Answers request s.out
            (answer request (chars "200 OK") headers [] (start_playing s.subscription s)))
        (sym (
          append_assoc (chars "Session: " ++ c.session_id) crlf
            (line (chars "Range: npt=now-") [])))
        (moved-Answers request ((chars "Session: " ++ c.session_id) ∷ chars "Range: npt=now-" ∷ [])
          s (start_playing s.subscription s) (start_playing-out s.subscription s)
          (
            session_line c clean.id,
            ((omega arith, tt, unfold as_bytes encode_char strip_prefix in refl), tt),
          )
          room)
  dispatch-Answers play false playing = not_valid-Answers request s room
  dispatch-Answers pause set_up true =
      moved-Answers request ((chars "Session: " ++ c.session_id) ∷ []) s
        (stop_playing s.subscription s) (stop_playing-out s.subscription s)
        (session_line c clean.id, tt) room
  dispatch-Answers pause set_up false = not_valid-Answers request s room
  dispatch-Answers get_parameter set_up playing =
      plain-Answers request (chars "200 OK") ((chars "Session: " ++ c.session_id) ∷ []) s okay
        (session_line c clean.id, tt) room
  dispatch-Answers teardown true playing = teardown-Answers
  dispatch-Answers teardown false playing = not_valid-Answers request s room
  dispatch-Answers unknown set_up playing = not_valid-Answers request s room

  handle_checked-Answers : Answers request s.out (handle_checked c t request s)
  unfolding handle_checked
  handle_checked-Answers = elim (Bool-cases (not (is_found c.path request))) [
    | inl missing ↦
        rw missing
          (refuse-Answers request (chars "404 Not Found") s (unfold statuses same in refl) room)
    | inr found ↦
        elim (Bool-cases (
          wrong_session c (method_of request.method) (is_some s.delivery)
            (supplied_session request))) [
              | inl wrong ↦
                  rw (found, wrong)
                    (refuse-Answers request (chars "454 Session Not Found") s
                      (unfold statuses same in refl) room)
              | inr right ↦
                  rw (found, right)
                    (dispatch-Answers (method_of request.method) (is_some s.delivery)
                      (is_some s.subscription))
            ]
  ]

pub handle_request-Answers :
    (c : Config) (t : Tick) (request : Request) (s : Session)
    → IsClean c t request s
    → 1 ≤ s.writes_left
    → Answers request s.out (handle_request c t request s)
unfolding handle_request
handle_request-Answers c t request s clean room =
    let heard = record s { last_control = t.at_request } in
    let still = moved-IsClean c t request s heard refl refl clean in
    elim (Bool-cases (admitted c t request heard)) [
      | inl allowed ↦ rw allowed (handle_checked-Answers c t request heard still room)
      | inr denied ↦ rw denied (unauthorized-Answers c t request heard still room)
    ]
