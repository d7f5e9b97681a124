-- ===== src/Session/Ready.antt =====
-- A session that plays has a transport: what a request does.
use camrtsp.Common.{
  ℕ, zero, suc, ◌-◌, ◌≡◌, refl, Bool, true, false, Option, none, some, List, [], ◌∷◌, ◌++◌,
  if◌then◌else◌, Result, ok, err, Bool-cases, inl, inr, not, leb,
}
use camrtsp.Io.{IoError}
use camrtsp.Core.{CodecConfig}
use camrtsp.Broadcaster.{is_some}
use camrtsp.Request.{Request}
use camrtsp.Text.{chars}
use camrtsp.Auth.{AuthState, nonce_ttl}
use camrtsp.Response.{line}
use camrtsp.Transport.{Delivery, Output, transport_header}
use camrtsp.Session.{
  Config, Tick, Session, next_round, serve, ended, continue_with, write_with, write, write_all,
  pure,
}
use camrtsp.Session.Control.{
  Method, options, describe, setup, play, pause, get_parameter, teardown, unknown, reply,
  unauthorized, session_header, challenge, refuse, answer, describe_with, setup_with, start_playing,
  stop_playing, say_bye, dispatch, admitted, handle_checked, handle_request, wrong_session,
  method_of, supplied_session, is_found,
}

pub record IsReady (s : Session) : Type 0 where
  pub has_transport : is_some s.subscription ≡ true → is_some s.delivery ≡ true

pub continue-IsReady {ℓ κ} :
    {A : Type ℓ} {B : Type κ} (f : A → Session → Result IoError B × Session) (r : Result IoError A)
    (s : Session)
    → IsReady s
    → ((a : A) → IsReady (f a s).1)
    → IsReady (continue_with f (r, s)).1
continue-IsReady f (ok a) s h k = k a
continue-IsReady f (err e) s h k = h

write_with-IsReady : (n : ℕ) (o : Output) (s : Session) → IsReady s → IsReady (write_with n o s).1
unfolding write_with
write_with-IsReady zero o s h = h
write_with-IsReady (suc n) o s h = record { has_transport = h.has_transport }

pub write_all-IsReady : (os : List Output) (s : Session) → IsReady s → IsReady (write_all os s).1
unfolding write_all write
write_all-IsReady [] s h = h
write_all-IsReady (o ∷ os) s h =
    let ready = write_with-IsReady s.writes_left o s h in
    continue-IsReady (λ _. write_all os) (write o s).0 (write o s).1 ready
      (λ _. write_all-IsReady os (write o s).1 ready)

reply-IsReady :
    (request : Request) (status headers body : List ℕ) (s : Session)
    → IsReady s
    → IsReady (reply request status headers body s).1
unfolding reply write
reply-IsReady request status headers body s h = write_with-IsReady s.writes_left _ s h

answer-IsReady :
    (request : Request) (status headers body : List ℕ) (s : Session)
    → IsReady s
    → IsReady (answer request status headers body s).1
unfolding answer
answer-IsReady request status headers body s h =
    let ready = reply-IsReady request status headers body s h in
    continue-IsReady (λ _. pure serve) (reply request status headers body s).0 _ ready (λ _. ready)

refuse-IsReady :
    (request : Request) (status : List ℕ) (s : Session)
    → IsReady s
    → IsReady (refuse request status s).1
unfolding refuse
refuse-IsReady request status s h =
    let ready = reply-IsReady request status [] [] s h in
    continue-IsReady (λ _. pure next_round) (reply request status [] [] s).0 _ ready (λ _. ready)

describe_with-IsReady :
    (c : Config) (request : Request) (codec : Option CodecConfig) (s : Session)
    → IsReady s
    → IsReady (describe_with c request codec s).1
unfolding describe_with
describe_with-IsReady c request none s h = answer-IsReady request _ _ _ s h
describe_with-IsReady c request (some codec) s h = answer-IsReady request _ _ _ s h

setup_with-IsReady :
    (c : Config) (request : Request) (selected : Option Delivery) (s : Session)
    → IsReady s
    → IsReady (setup_with c request selected s).1
unfolding setup_with
setup_with-IsReady c request none s h = answer-IsReady request _ _ _ s h
setup_with-IsReady c request (some selected) s h =
    answer-IsReady request (chars "200 OK")
      (line (chars "Transport: " ++ transport_header selected) (session_header c)) []
      (record s { delivery = some selected }) (record { has_transport = λ _. refl })

start_playing-IsReady :
    (subscription : Option ℕ) (s : Session)
    → is_some s.delivery ≡ true
    → IsReady (start_playing subscription s)
unfolding start_playing
start_playing-IsReady none s h = record { has_transport = λ _. h }
start_playing-IsReady (some id) s h = record { has_transport = λ _. h }

stop_playing-IsReady :
    (subscription : Option ℕ) (s : Session) → IsReady s → IsReady (stop_playing subscription s)
unfolding stop_playing
stop_playing-IsReady none s h = h
stop_playing-IsReady (some id) s h = record { has_transport = λ e. cc }

say_bye-IsReady :
    (c : Config) (delivery : Option Delivery) (s : Session)
    → IsReady s
    → IsReady (say_bye c delivery s)
unfolding say_bye
say_bye-IsReady c none s h = h
say_bye-IsReady c (some delivery) s h = write_all-IsReady _ s h

dispatch-IsReady :
    (c : Config) (t : Tick) (request : Request) (method : Method) (set_up playing : Bool)
    (s : Session)
    → is_some s.delivery ≡ set_up
    → IsReady s
    → IsReady (dispatch c t request method set_up playing s).1
unfolding dispatch
dispatch-IsReady c t request options set_up playing s e h = answer-IsReady request _ _ _ s h
dispatch-IsReady c t request describe set_up playing s e h =
    describe_with-IsReady c request s.source.codec s h
dispatch-IsReady c t request setup set_up false s e h = setup_with-IsReady c request _ s h
dispatch-IsReady c t request setup set_up true s e h = answer-IsReady request _ _ _ s h
dispatch-IsReady c t request play true playing s e h =
    answer-IsReady request _ _ _ _ (start_playing-IsReady s.subscription s e)
dispatch-IsReady c t request play false playing s e h = answer-IsReady request _ _ _ s h
dispatch-IsReady c t request pause set_up true s e h =
    answer-IsReady request _ _ _ _ (stop_playing-IsReady s.subscription s h)
dispatch-IsReady c t request pause set_up false s e h = answer-IsReady request _ _ _ s h
dispatch-IsReady c t request get_parameter set_up playing s e h = answer-IsReady request _ _ _ s h
dispatch-IsReady c t request teardown true playing s e h =
    let ready = reply-IsReady request _ _ _ s h in
    continue-IsReady (λ _ s'. (ok ended, say_bye c s'.delivery s')) (reply request _ _ _ s).0 _
      ready (λ _. say_bye-IsReady c _ _ ready)
dispatch-IsReady c t request teardown false playing s e h = answer-IsReady request _ _ _ s h
dispatch-IsReady c t request unknown set_up playing s e h = answer-IsReady request _ _ _ s h

handle_checked-IsReady :
    (c : Config) (t : Tick) (request : Request) (s : Session)
    → IsReady s
    → IsReady (handle_checked c t request s).1
unfolding handle_checked
handle_checked-IsReady c t request s h = elim (Bool-cases (not (is_found c.path request))) [
  | inl missing ↦ rw missing (refuse-IsReady request _ s h)
  | inr found ↦
      elim (Bool-cases (
        wrong_session c (method_of request.method) (is_some s.delivery)
          (supplied_session request))) [
            | inl wrong ↦ rw (found, wrong) (refuse-IsReady request _ s h)
            | inr right ↦
                rw (found, right)
                  (dispatch-IsReady c t request _ _ (is_some s.subscription) s refl h)
          ]
]

unauthorized-IsReady :
    (t : Tick) (request : Request) (s : Session) → IsReady s → IsReady (unauthorized t request s).1
unfolding unauthorized
unauthorized-IsReady t request s h =
    let auth : AuthState =
      if leb nonce_ttl (t.at_request - s.auth.issued)
      then record { nonce = t.nonce; issued = t.at_request }
      else s.auth in
    let ready =
      reply-IsReady request (chars "401 Unauthorized") (challenge auth.nonce) []
        (record s { auth = auth }) (record { has_transport = h.has_transport }) in
    continue-IsReady (λ _. pure next_round)
      (reply request (chars "401 Unauthorized") (challenge auth.nonce) []
        (record s { auth = auth })).0
      _ ready (λ _. ready)

pub handle_request-IsReady :
    (c : Config) (t : Tick) (request : Request) (s : Session)
    → IsReady s
    → IsReady (handle_request c t request s).1
unfolding handle_request
handle_request-IsReady c t request s h =
    let heard = record s { last_control = t.at_request } in
    let ready : IsReady heard = record { has_transport = h.has_transport } in
    elim (Bool-cases (admitted c t request heard)) [
      | inl allowed ↦ rw allowed (handle_checked-IsReady c t request heard ready)
      | inr denied ↦ rw denied (unauthorized-IsReady t request heard ready)
    ]
