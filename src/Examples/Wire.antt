-- ===== src/Examples/Wire.antt =====
-- What the two ends of the network read of each other.
use camrtsp.Common.{◌≡◌, refl, ℕ, true, false, ◌⊎◌, inl, some, none, [], ◌∷◌, ◌++◌, ok, arith, List}
use camrtsp.Core.{EncodedAccessUnit}
use camrtsp.Io.{would_block}
use camrtsp.Rtp.Reassembly.{receive_all}
use camrtsp.Text.Lines.{join_lines}
use camrtsp.Text.{chars, trim, to_lower, to_ascii_lowercase}
use camrtsp.Request.{
  Request, cseq, Headers, bytes, complete, read_error, read_control, take_request, find_terminator,
}
use camrtsp.Request.Printed.{printed, read_back, declared}
use camrtsp.Request.Printed.Framed.{take_request-printed}
use camrtsp.Response.Client.{read_response}
use camrtsp.Broadcaster.{
  subscribe, retain_alive, Client, BroadcastState, default, find, prepare, publish,
}
use camrtsp.Broadcaster.Run.{subscribing, publishing, apply, run}
use camrtsp.Transport.{over_tcp, rtp_writes, Output}
use camrtsp.Session.{Tick, Session, next_round, ended}
use camrtsp.Session.Media.{round, marked_payloads, session_loop}
use camrtsp.Session.Sending.{packet_writes}
use camrtsp.Session.Viewer.{viewed, stream_bytes, bodies}
use camrtsp.Session.Viewer.Units.{Arrived, empty_receiver}
use camrtsp.Session.Arrival.{published_unit-Arrived}
use camrtsp.Session.Delivering.{CanSend, written_since}
use camrtsp.Session.Viewer.Queue.{all_numbered, all_nals}
use camrtsp.Session.Draining.{queued_units_arrive}
use camrtsp.Session.Control.{handle_request}
use camrtsp.Session.Answers.{IsClean}
use camrtsp.Session.Answers.Asked.{asked-HasRead}
use camrtsp.Session.Answers.Heard.{HasRead, handle_request-HasRead}
use camrtsp.Examples.Sessions.{config, session, tick}

abbrev keyframe : EncodedAccessUnit
keyframe = record {
  nal_units = (0x65 ∷ 1 ∷ 2 ∷ []) ∷ [];
  pts_90khz = 90;
  duration_90khz = 3000;
  keyframe = true;
}

abbrev viewer : Client
viewer = record { id = 0; frames = []; waiting_for_keyframe = true; alive = true }

abbrev watched : BroadcastState
watched = record default { clients = viewer ∷ []; next_id = 1 }

abbrev playing : Session
playing = record session { delivery = some (over_tcp 0 1); subscription = some 0; source = watched }

abbrev quiet : Tick
quiet = record tick { socket = read_error would_block }

can_send : CanSend config (over_tcp 0 1) (prepare none keyframe) playing
unfolding rtp_writes
can_send = record {
  apart = omega arith;
  source_fits = omega arith;
  time_fits = unfold prepare in omega arith;
  sequence_fits = omega arith;
  units = unfold prepare in omega arith;
  enough_writes = unfold prepare marked_payloads packet_writes in omega arith;
}

published_unit-Arrived_example :
    ((round config quiet (record playing { source = publish 5 keyframe watched })).0
      ≡ ok next_round)
    × Arrived 7 0 (prepare none keyframe) (
        viewed (over_tcp 0 1) (
          written_since playing
            (round config quiet (record playing { source = publish 5 keyframe watched })).1))
published_unit-Arrived_example =
    published_unit-Arrived 5 config quiet (over_tcp 0 1) keyframe 0 playing viewer refl refl
      (unfold find in refl) refl refl (inl (unfold prepare in refl))
      (unfold read_control take_request find_terminator in refl) can_send

abbrev second_unit : EncodedAccessUnit
second_unit = record {
  nal_units = (0x41 ∷ 7 ∷ []) ∷ (0x41 ∷ 8 ∷ []) ∷ [];
  pts_90khz = 3090;
  duration_90khz = 3000;
  keyframe = false;
}

abbrev behind_viewer : Client
behind_viewer = record viewer { frames = keyframe ∷ second_unit ∷ []; waiting_for_keyframe = false }

abbrev behind : Session
behind = record playing {
  source = record watched { clients = behind_viewer ∷ [] };
  writes_left = 20;
}

-- A round before which another viewer comes and a unit is published.
abbrev noisy : Tick
noisy = record quiet { others = subscribing ∷ publishing 9 keyframe ∷ [] }

queued_units_arrive_example :
    let packets =
      viewed
        (over_tcp 0 1)
        (written_since behind (session_loop config (quiet ∷ noisy ∷ []) behind)) in
    (packets ≡ all_numbered 7 0 (keyframe ∷ second_unit ∷ []))
    × ((receive_all empty_receiver (bodies packets)).units
        ≡ (0x65 ∷ 1 ∷ 2 ∷ []) ∷ (0x41 ∷ 7 ∷ []) ∷ (0x41 ∷ 8 ∷ []) ∷ [])
unfolding all_nals run
queued_units_arrive_example =
    queued_units_arrive config (quiet ∷ noisy ∷ []) (over_tcp 0 1) 0 behind behind_viewer refl refl
      (unfold find in refl) refl
      (tt, ((tt, (unfold find apply subscribe retain_alive in omega arith, tt)), tt)) refl
      (unfold read_control take_request find_terminator in (refl, (refl, tt))) (omega arith)
      (omega arith) (omega arith) (omega arith) (unfold marked_payloads in omega arith)

abbrev headers : Headers
headers = (chars "CSeq", chars "1") ∷ (chars "Content-Length", chars "2") ∷ []

take_request-printed_example :
    take_request (printed (chars "OPTIONS") (chars "*") headers ++ (chars "hi" ++ []))
    ≡ (complete (read_back (chars "OPTIONS") (chars "*") headers), [])
take_request-printed_example =
    take_request-printed b'O' (chars "PTIONS") b'*' [] headers (chars "hi") []
      (omega arith, omega arith, omega arith, unfold to_lower in omega arith) (omega arith)
      (omega arith) ((unfold to_ascii_lowercase in λ e. cc, tt), (tt, tt)) (unfold declared in refl)
      (unfold join_lines in omega arith)

abbrev question : Request
question = record {
  method = chars "OPTIONS";
  uri = chars "*";
  headers = (chars "cseq", chars "3") ∷ [];
}

question-IsClean : IsClean config tick question session
question-IsClean = record {
  number = unfold cseq in omega arith;
  uri = omega arith;
  id = omega arith;
  text = tt;
  path = omega arith;
  ip = tt;
  old_nonce = omega arith;
  new_nonce = omega arith;
  description_fits = λ codec e. cc;
}

handle_request-HasRead_example :
    (more : List Output) × HasRead question
      (read_response
        (stream_bytes (written_since session (handle_request config tick question session).1)))
      (stream_bytes more)
    × (((handle_request config tick question session).0 ≡ ok ended) ⊎ (more ≡ []))
handle_request-HasRead_example =
    handle_request-HasRead config tick question session question-IsClean (omega arith)

abbrev asked : Request
asked = read_back (chars "OPTIONS") (chars "*") headers

abbrev asking : Tick
asking = record tick {
  socket = bytes (b'O' ∷ chars "PTIONS * RTSP/1.0\r\nCSeq: 1\r\nContent-Length: 2\r\n\r\nhi");
}

asked-IsClean : IsClean config asking asked session
asked-IsClean = record {
  number = unfold cseq to_ascii_lowercase trim in omega arith;
  uri = omega arith;
  id = omega arith;
  text = tt;
  path = omega arith;
  ip = tt;
  old_nonce = omega arith;
  new_nonce = omega arith;
  description_fits = λ codec e. cc;
}

asked-HasRead_example :
    (behind : List ℕ) × HasRead asked
      (read_response (stream_bytes (written_since session (round config asking session).1)))
      behind
asked-HasRead_example =
    asked-HasRead config asking session b'O' (chars "PTIONS") b'*' [] headers (chars "hi") [] b'O'
      (chars "PTIONS * RTSP/1.0\r\nCSeq: 1\r\nContent-Length: 2\r\n\r\nhi")
      (omega arith, omega arith, omega arith, unfold to_lower in omega arith) (omega arith)
      (omega arith) ((unfold to_ascii_lowercase in λ e. cc, tt), (tt, tt)) (unfold declared in refl)
      (unfold join_lines in omega arith) (unfold take_request find_terminator in refl) refl
      (unfold join_lines in refl) asked-IsClean (omega arith)
