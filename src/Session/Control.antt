-- ===== src/Session/Control.antt =====
-- The request part of `handle`'s loop.
use camrtsp.Common.{
  ℕ, ◌-◌, Bool, true, false, ◌&&◌, ◌||◌, not, Option, none, some, List, [], ◌∷◌, ◌++◌, leb, ◌==◌,
  same, if◌then◌else◌, ok,
}
use camrtsp.Core.{CodecConfig}
use camrtsp.Text.{chars, trim, before, trim_end_matches, strip_prefix}
use camrtsp.Request.{Request, header, cseq}
use camrtsp.Broadcaster.{subscribe, drop_subscription, is_some}
use camrtsp.Auth.{nonce_ttl, authorized}
use camrtsp.Transport.{Delivery, stream, negotiate_transport, transport_header, rtcp_writes}
use camrtsp.Response.{respond, request_path, sdp, rtcp_bye, line}
use camrtsp.Session.{
  Config, Tick, Session, M, Flow, next_round, serve, ended, continue_with, pure, write, write_all,
}

unfoldable pub reply : Request → List ℕ → List ℕ → List ℕ → M (Unit {0})
unfolding write
reply request status headers body = write (stream (respond (cseq request) status headers body))

-- The path without its trailing slashes, with one slash, and the track's.
unfoldable pub aggregate : List ℕ → List ℕ
unfolding same trim_end_matches
aggregate path = if same path (chars "/") then chars "/" else trim_end_matches b'/' path

unfoldable pub aggregate_with_slash : List ℕ → List ℕ
unfolding aggregate
aggregate_with_slash path =
    if same (aggregate path) (chars "/") then chars "/" else aggregate path ++ chars "/"

unfoldable pub track : List ℕ → List ℕ
unfolding aggregate_with_slash
track path = aggregate_with_slash path ++ chars "trackID=0"

abbrev pub is_target : Option (List ℕ) → List ℕ → Bool
is_target none path = false
is_target (some target) path = same target path

unfoldable pub is_found : List ℕ → Request → Bool
unfolding aggregate aggregate_with_slash track request_path same
is_found path request =
    same request.method (chars "OPTIONS") && same request.uri (chars "*")
    || is_target (request_path request.uri) (aggregate path)
    || is_target (request_path request.uri) (aggregate_with_slash path)
    || is_target (request_path request.uri) (track path)

-- `s.split(';').next().unwrap_or(s).trim()`
unfoldable pub supplied_session : Request → Option (List ℕ)
unfolding header before trim
supplied_session request = elim (header request (chars "session")) [
  | none ↦ none
  | some value ↦ some (trim (before b';' value))
]

pub data Method : Type 0 where
  options describe setup play pause get_parameter teardown unknown : Method

unfoldable pub method_of : List ℕ → Method
unfolding same
method_of m =
    if same m (chars "OPTIONS")
    then options
    else if same m (chars "DESCRIBE")
    then describe
    else if same m (chars "SETUP")
    then setup
    else if same m (chars "PLAY")
    then play
    else if same m (chars "PAUSE")
    then pause
    else if same m (chars "GET_PARAMETER")
    then get_parameter
    else if same m (chars "TEARDOWN")
    then teardown
    else unknown

abbrev pub needs_session : Method → Bool
needs_session play = true
needs_session pause = true
needs_session teardown = true
needs_session _ = false

unfoldable pub wrong_session : Config → Method → Bool → Option (List ℕ) → Bool
unfolding same
wrong_session c method set_up (some id) = not (same id c.session_id)
wrong_session c method set_up none = needs_session method && set_up

-- The challenge, with both algorithms of Digest and with Basic.
unfoldable pub challenge : List ℕ → List ℕ
challenge nonce =
    line
      (chars "WWW-Authenticate: Digest realm=\"camrtsp\", nonce=\""
        ++ (nonce ++ chars "\", algorithm=SHA-256, qop=\"auth\""))
      (line
        (chars "WWW-Authenticate: Digest realm=\"camrtsp\", nonce=\""
          ++ (nonce ++ chars "\", algorithm=MD5, qop=\"auth\""))
        (line (chars "WWW-Authenticate: Basic realm=\"camrtsp\"") []))

unfoldable pub unauthorized : Tick → Request → M Flow
unfolding reply
unauthorized t request s =
    let auth =
      if leb nonce_ttl (t.at_request - s.auth.issued)
      then record { nonce = t.nonce; issued = t.at_request }
      else s.auth in
    continue_with (λ _. pure next_round)
      (reply request (chars "401 Unauthorized") (challenge auth.nonce) []
        (record s { auth = auth }))

unfoldable pub refuse : Request → List ℕ → M Flow
unfolding reply
refuse request status s = continue_with (λ _. pure next_round) (reply request status [] [] s)

abbrev pub session_header : Config → List ℕ
session_header c = line (chars "Session: " ++ c.session_id) []

-- An answer after which the round goes on.
unfoldable pub answer : Request → List ℕ → List ℕ → List ℕ → M Flow
unfolding reply
answer request status headers body s =
    continue_with (λ _. pure serve) (reply request status headers body s)

abbrev pub not_valid : Request → M Flow
not_valid request = answer request (chars "455 Method Not Valid in This State") [] []

-- `authority`: the host, without the path and without the part up to `@`
unfoldable pub after_last : ℕ → List ℕ → List ℕ → List ℕ
after_last ch whole [] = whole
after_last ch whole (c ∷ cs) = if c == ch then after_last ch cs cs else after_last ch whole cs

unfoldable pub content_base : Config → Request → List ℕ
unfolding strip_prefix before after_last trim_end_matches
content_base c request =
    let authority : List ℕ = elim (strip_prefix (chars "rtsp://") request.uri) [
      | some rest ↦ let host = before b'/' rest in after_last b'@' host host
      | none ↦ c.local_text
    ] in
    chars "rtsp://" ++ (authority ++ trim_end_matches b'/' c.path)

unfoldable pub describe_with : Config → Request → Option CodecConfig → M Flow
unfolding answer content_base sdp
describe_with c request none s =
    answer request (chars "503 Service Unavailable") (line (chars "Retry-After: 1") []) [] s
describe_with c request (some codec) s =
    answer request (chars "200 OK")
      (line (chars "Content-Type: application/sdp")
        (line (chars "Content-Base: " ++ (content_base c request ++ chars "/")) []))
      (sdp c.packages c.show_rate s.source.frame_rate codec) s

unfoldable pub setup_with : Config → Request → Option Delivery → M Flow
unfolding answer transport_header
setup_with c request none s = answer request (chars "461 Unsupported Transport") [] [] s
setup_with c request (some selected) s =
    answer request (chars "200 OK")
      (line (chars "Transport: " ++ transport_header selected) (session_header c)) []
      (record s { delivery = some selected })

unfoldable pub negotiated : Config → Tick → Request → Option Delivery
unfolding header negotiate_transport
negotiated c t request = elim (header request (chars "transport")) [
  | none ↦ none
  | some value ↦ negotiate_transport t.can_bind c.peer_ip c.local_ip value c.policy
]

-- PLAY subscribes unless the session has a subscription.
unfoldable pub start_playing : Option ℕ → Session → Session
unfolding subscribe
start_playing (some id) s = s
start_playing none s =
    let (source, id) = subscribe s.source in record s { source = source; subscription = some id }

-- `subscription = None` drops it.
unfoldable pub stop_playing : Option ℕ → Session → Session
unfolding drop_subscription
stop_playing none s = s
stop_playing (some id) s = record s { source = drop_subscription id s.source; subscription = none }

-- `let _ = send_rtcp(…)`: a write that fails is ignored.
unfoldable pub say_bye : Config → Option Delivery → Session → Session
unfolding write_all rtcp_writes rtcp_bye
say_bye c none s = s
say_bye c (some delivery) s = (write_all (rtcp_writes delivery (rtcp_bye c.ssrc)) s).1

unfoldable pub dispatch : Config → Tick → Request → Method → Bool → Bool → M Flow
unfolding answer describe_with setup_with negotiated start_playing stop_playing say_bye
dispatch c t request options set_up playing s =
    answer request (chars "200 OK")
      (line (chars "Public: OPTIONS, DESCRIBE, SETUP, PLAY, PAUSE, GET_PARAMETER, TEARDOWN") []) []
      s
dispatch c t request describe set_up playing s = describe_with c request s.source.codec s
dispatch c t request setup set_up false s = setup_with c request (negotiated c t request) s
dispatch c t request play true playing s =
    answer request (chars "200 OK") (session_header c ++ line (chars "Range: npt=now-") []) []
      (start_playing s.subscription s)
dispatch c t request pause set_up true s =
    answer request (chars "200 OK") (session_header c) [] (stop_playing s.subscription s)
dispatch c t request get_parameter set_up playing s =
    answer request (chars "200 OK") (session_header c) [] s
dispatch c t request teardown true playing s =
    continue_with (λ _ s'. (ok ended, say_bye c s'.delivery s'))
      (reply request (chars "200 OK") (session_header c) [] s)
dispatch c t request method set_up playing s = not_valid request s

-- The three checks, in order, and the method.
unfoldable pub admitted : Config → Tick → Request → Session → Bool
unfolding authorized same
admitted c t request s =
    same request.method (chars "OPTIONS")
    || authorized c.packages request c.credentials s.auth t.at_request

unfoldable pub handle_checked : Config → Tick → Request → M Flow
unfolding is_found wrong_session supplied_session refuse dispatch method_of
handle_checked c t request s =
    let method = method_of request.method in
    if not (is_found c.path request)
    then refuse request (chars "404 Not Found") s
    else if wrong_session c method (is_some s.delivery) (supplied_session request)
    then refuse request (chars "454 Session Not Found") s
    else dispatch c t request method (is_some s.delivery) (is_some s.subscription) s

unfoldable pub handle_request : Config → Tick → Request → M Flow
unfolding admitted unauthorized handle_checked
handle_request c t request s =
    let heard = record s { last_control = t.at_request } in
    if admitted c t request heard
    then handle_checked c t request heard
    else unauthorized t request heard
