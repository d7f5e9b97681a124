-- ===== src/Session/Media.antt =====
-- The delivery part of `handle`'s loop, and the loop's round.
use camrtsp.Common.{
  ℕ, ◌+◌, ◌-◌, ◌*◌, ◌/◌, ◌%◌, Bool, true, false, ◌&&◌, not, Option, none, some, List, [], ◌∷◌, ◌++◌,
  length, leb, ltb, if◌then◌else◌, ok, err,
}
use camrtsp.Io.{timed_out, other}
use camrtsp.Core.{EncodedAccessUnit}
use camrtsp.Rtp.{packetize_h264, rtp_packet}
use camrtsp.Request.{Taken, complete, incomplete, failed, stuck, read_control}
use camrtsp.Broadcaster.{recv_timeout, is_some}
use camrtsp.Broadcaster.Run.{run}
use camrtsp.Transport.{Delivery, rtp_writes, rtcp_writes}
use camrtsp.Response.{rtcp_sender_report}
use camrtsp.Session.{
  Config, Tick, Session, M, Flow, next_round, serve, ended, continue_with, pure, write_all,
}
use camrtsp.Session.Control.{handle_request, stop_playing}

abbrev pub rtp_mtu : ℕ
rtp_mtu = 1400

-- A payload with its marker, which is set on the last payload of the last NAL unit.
unfoldable pub mark_last : Bool → List (List ℕ) → List (List ℕ × Bool)
mark_last last [] = []
mark_last last (p ∷ []) = (p, last) ∷ []
mark_last last (p ∷ q ∷ ps) = (p, false) ∷ mark_last last (q ∷ ps)

-- The payloads of the NAL units, in the order in which the two loops send them.
unfoldable pub marked_payloads : List (List ℕ) → List (List ℕ × Bool)
unfolding mark_last packetize_h264
marked_payloads [] = []
marked_payloads (nal ∷ []) = mark_last true (packetize_h264 nal rtp_mtu)
marked_payloads (nal ∷ next ∷ nals) =
    mark_last false (packetize_h264 nal rtp_mtu) ++ marked_payloads (next ∷ nals)

abbrev pub count_packet : List ℕ → Session → Session
count_packet payload s = record s {
  sequence = (s.sequence + 1) % 65536;
  packets = (s.packets + 1) % 4294967296;
  octets = (s.octets + length payload) % 4294967296;
}

unfoldable pub send_payload : Config → Delivery → ℕ → List ℕ → Bool → M (Unit {0})
unfolding write_all rtp_writes rtp_packet
send_payload c delivery pts payload marker s =
    continue_with (λ _ s'. (ok tt, count_packet payload s'))
      (write_all (rtp_writes delivery (rtp_packet payload s.sequence pts c.ssrc marker)) s)

unfoldable pub send_payloads : Config → Delivery → ℕ → List (List ℕ × Bool) → M (Unit {0})
unfolding send_payload
send_payloads c delivery pts [] s = (ok tt, s)
send_payloads c delivery pts ((payload, marker) ∷ rest) s =
    continue_with (λ _. send_payloads c delivery pts rest)
      (send_payload c delivery pts payload marker s)

unfoldable pub send_unit : Config → Tick → Delivery → Option EncodedAccessUnit → M (Unit {0})
unfolding send_payloads marked_payloads
send_unit c t delivery none s = (ok tt, s)
send_unit c t delivery (some unit) s =
    continue_with (λ _ s'. (ok tt, record s' { last_timestamp = some (unit.pts_90khz, t.at_sent) }))
      (send_payloads c delivery unit.pts_90khz (marked_payloads unit.nal_units) s)

-- The RTP time now: the last unit's, and 90 ticks for each millisecond since it was sent.
unfoldable pub report_timestamp : ℕ → ℕ → ℕ → ℕ
report_timestamp timestamp sent now =
    (timestamp + (now - sent) * 90 / 1000 % 4294967296) % 4294967296

unfoldable pub send_report : Config → Tick → Delivery → Option (ℕ × ℕ) → M (Unit {0})
unfolding write_all rtcp_writes rtcp_sender_report report_timestamp
send_report c t delivery none s = (ok tt, s)
send_report c t delivery (some (timestamp, sent)) s =
    if leb 5000000 (t.at_report - s.last_report)
    then continue_with (λ _ s'. (ok tt, record s' { last_report = t.at_report }))
        (write_all
          (rtcp_writes delivery (
            rtcp_sender_report t.seconds t.nanos c.ssrc
              (report_timestamp timestamp sent t.at_report) s.packets s.octets))
          s)
    else (ok tt, s)

-- With a subscription and a delivery: the next unit, if there is one, and the report, if it is due.
unfoldable pub deliver : Config → Tick → Option ℕ → Option Delivery → M (Unit {0})
unfolding send_unit send_report recv_timeout
deliver c t (some id) (some delivery) s =
    let (source, unit) = recv_timeout id s.source in
    continue_with (λ _ s'. send_report c t delivery s'.last_timestamp s')
      (send_unit c t delivery unit (record s { source = source }))
deliver c t _ _ s = (ok tt, s)

-- 30 seconds without a request end a session that does not play.
unfoldable pub is_idle : Tick → Session → Bool
is_idle t s = not (is_some s.subscription) && ltb 30000000 (t.at_idle - s.last_control)

unfoldable pub serve_media : Config → Tick → M Flow
unfolding is_idle deliver
serve_media c t s =
    if is_idle t s
    then (err (timed_out "idle RTSP session"), s)
    else continue_with (λ _. pure next_round) (deliver c t s.subscription s.delivery s)

unfoldable pub after_request : Config → Tick → Flow → M Flow
unfolding serve_media
after_request c t serve s = serve_media c t s
after_request c t next_round s = (ok next_round, s)
after_request c t ended s = (ok ended, s)

unfoldable pub on_taken : Config → Tick → Taken → M Flow
unfolding serve_media after_request handle_request
on_taken c t (complete request) s = continue_with (after_request c t) (handle_request c t request s)
on_taken c t incomplete s = serve_media c t s
on_taken c t (failed e) s = (err e, s)
on_taken c t stuck s = (err (other "stuck"), s)

-- One round of the loop.
unfoldable pub round : Config → Tick → M Flow
unfolding on_taken read_control
round c t s =
    let (taken, input) = read_control t.socket s.input in
    on_taken c t taken (record s { input = input })

-- When the loop ends, by a TEARDOWN or by an error, the local variables are dropped, and with them the
-- subscription.
abbrev pub close : Session → Session
close s = stop_playing s.subscription s

-- The session after the calls of other threads, which share its broadcaster.
abbrev pub joined : Tick → Session → Session
joined t s = record s { source = run s.source t.others }

-- The loop over the rounds that the environment gives. Before each round the publisher and other
-- sessions act on the broadcaster that they share with this one.
unfoldable pub session_loop : Config → List Tick → Session → Session
unfolding round stop_playing run
session_loop c [] s = s
session_loop c (t ∷ ts) s =
    let (result, s') = round c t (joined t s) in
    let rest = session_loop c ts s' in
    elim result [
      | err e ↦ close s'
      | ok flow ↦ elim flow [ next_round ↦ rest | serve ↦ rest | ended ↦ close s' ]
    ]
