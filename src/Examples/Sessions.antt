-- ===== src/Examples/Sessions.antt =====
-- A session: its transport, its credentials, and the payloads it sends.
use camrtsp.Common.{ℕ, ◌≡◌, ◌≢◌, refl, true, some, none, List, [], ◌∷◌, ◌++◌, ok, same}
use camrtsp.Text.{chars}
use camrtsp.Request.{Request, bytes}
use camrtsp.Broadcaster.{default}
use camrtsp.Auth.{Packages, AuthState, authorized}
use camrtsp.Transport.{both, over_tcp, negotiate_transport}
use camrtsp.Transport.Policy.{IsFit, negotiate_transport-IsFit}
use camrtsp.Rtp.Reassembly.{Receiver}
use camrtsp.Session.{Config, Tick, Session, serve}
use camrtsp.Session.Control.{handle_request}
use camrtsp.Session.Ready.{IsReady}
use camrtsp.Session.Rounds.{round-IsReady}
use camrtsp.Session.Media.{marked_payloads, round}
use camrtsp.Session.Packets.{OneMarker, marked_payloads-OneMarker, markers, empty_unit_takes_marker}
use camrtsp.Broadcaster.Run.{subscribing, rating}
use camrtsp.Session.Safety.{IsUntouched, unauthorized-IsUntouched}

negotiate_transport-IsFit_example : IsFit both [] [] (over_tcp 4 5)
negotiate_transport-IsFit_example =
    negotiate_transport-IsFit (λ _. true) [] [] (chars "RTP/AVP/TCP;unicast;interleaved=4-5") both
      (over_tcp 4 5) (unfold negotiate_transport in refl)

-- Packages whose encodings are the texts themselves.
abbrev pub plain : Packages
plain = record {
  base64_encode = λ text. text;
  base64_decode = λ text. some text;
  sha256_hex = λ text. text;
  md5_hex = λ text. text;
}

abbrev pub issued : AuthState
issued = record { nonce = chars "abc"; issued = 0 }

abbrev with_basic : Request
with_basic = record {
  method = chars "PLAY";
  uri = chars "rtsp://host/cam";
  headers = (chars "authorization", chars "Basic me:pw") ∷ [];
}

abbrev pub config : Config
config = record {
  packages = plain;
  show_rate = λ _ _. [];
  path = chars "/cam";
  credentials = some (chars "me", chars "pw");
  policy = both;
  peer_ip = [];
  local_ip = [];
  local_text = [];
  session_id = chars "77";
  ssrc = 7;
}

abbrev pub session : Session
session = record {
  input = [];
  delivery = none;
  subscription = none;
  auth = issued;
  sequence = 0;
  packets = 0;
  octets = 0;
  last_timestamp = none;
  last_report = 0;
  last_control = 0;
  source = default;
  out = [];
  writes_left = 9;
}

abbrev pub tick : Tick
tick = record {
  socket = bytes [];
  at_request = 5;
  at_idle = 5;
  at_sent = 5;
  at_report = 5;
  seconds = 0;
  nanos = 0;
  nonce = chars "def";
  can_bind = λ _. true;
  others = [];
}

abbrev anonymous : Request
anonymous = record { method = chars "SETUP"; uri = chars "rtsp://host/cam"; headers = [] }

unauthorized-IsUntouched_example :
    IsUntouched session (handle_request config tick anonymous session).1
    × ((handle_request config tick anonymous session).1.input ≡ session.input)
    × ((handle_request config tick anonymous session).0 ≢ ok serve)
unfolding same
unauthorized-IsUntouched_example =
    unauthorized-IsUntouched config tick anonymous session refl (unfold authorized in refl)

abbrev knock : Tick
knock = record tick {
  socket = bytes (chars "PLAY rtsp://host/cam RTSP/1.0\r\nCSeq: 1\r\n\r\n");
  others = subscribing ∷ rating 30 1 ∷ [];
}

abbrev units : List (List ℕ)
units = (0x67 ∷ 1 ∷ []) ∷ (0x65 ∷ 1 ∷ 2 ∷ []) ∷ []

abbrev empty_receiver : Receiver
empty_receiver = record { partial = none; units = [] }

marked_payloads-OneMarker_example : OneMarker (marked_payloads units)
marked_payloads-OneMarker_example = marked_payloads-OneMarker units (λ e. cc)

empty_unit_takes_marker_example : markers (marked_payloads (units ++ [] ∷ [])) ≡ 0
empty_unit_takes_marker_example = empty_unit_takes_marker units

abbrev set_up : Session
set_up = record session { delivery = some (over_tcp 0 1); subscription = some 0 }

round-IsReady_example : IsReady (round config tick set_up).1
round-IsReady_example = round-IsReady config tick set_up (record { has_transport = λ _. refl })
