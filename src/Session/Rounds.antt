-- ===== src/Session/Rounds.antt =====
-- A session that plays has a transport: what a round of the loop does.
use camrtsp.Common.{ℕ, ◌-◌, Bool, Option, none, some, List, [], ◌∷◌, ok, Bool-cases, inl, inr, leb}
use camrtsp.Core.{EncodedAccessUnit}
use camrtsp.Broadcaster.{recv_timeout}
use camrtsp.Request.{Taken, complete, incomplete, failed, stuck, read_control}
use camrtsp.Response.{rtcp_sender_report}
use camrtsp.Transport.{Delivery, rtp_writes, rtcp_writes}
use camrtsp.Session.{Config, Tick, Session, Flow, next_round, serve, ended, write_all, pure}
use camrtsp.Rtp.{rtp_packet}
use camrtsp.Session.Media.{
  count_packet, send_payload, send_payloads, send_unit, marked_payloads, send_report,
  report_timestamp, deliver, serve_media, is_idle, after_request, on_taken, round,
}
use camrtsp.Session.Control.{handle_request}
use camrtsp.Session.Ready.{IsReady, continue-IsReady, write_all-IsReady, handle_request-IsReady}

send_payload-IsReady :
    (c : Config) (delivery : Delivery) (pts : ℕ) (payload : List ℕ) (marker : Bool) (s : Session)
    → IsReady s
    → IsReady (send_payload c delivery pts payload marker s).1
unfolding send_payload
send_payload-IsReady c delivery pts payload marker s h =
    let os = rtp_writes delivery (rtp_packet payload s.sequence pts c.ssrc marker) in
    let ready = write_all-IsReady os s h in
    continue-IsReady (λ _ s'. (ok tt, count_packet payload s')) (write_all os s).0 _ ready
      (λ _. record { has_transport = ready.has_transport })

send_payloads-IsReady :
    (c : Config) (delivery : Delivery) (pts : ℕ) (payloads : List (List ℕ × Bool)) (s : Session)
    → IsReady s
    → IsReady (send_payloads c delivery pts payloads s).1
unfolding send_payloads
send_payloads-IsReady c delivery pts [] s h = h
send_payloads-IsReady c delivery pts ((payload, marker) ∷ rest) s h =
    let ready = send_payload-IsReady c delivery pts payload marker s h in
    continue-IsReady (λ _. send_payloads c delivery pts rest)
      (send_payload c delivery pts payload marker s).0 _ ready
      (λ _. send_payloads-IsReady c delivery pts rest _ ready)

send_unit-IsReady :
    (c : Config) (t : Tick) (delivery : Delivery) (unit : Option EncodedAccessUnit) (s : Session)
    → IsReady s
    → IsReady (send_unit c t delivery unit s).1
unfolding send_unit
send_unit-IsReady c t delivery none s h = h
send_unit-IsReady c t delivery (some unit) s h =
    let ready =
      send_payloads-IsReady c delivery unit.pts_90khz (marked_payloads unit.nal_units) s h in
    continue-IsReady
      (λ _ s'. (ok tt, record s' { last_timestamp = some (unit.pts_90khz, t.at_sent) }))
      (send_payloads c delivery unit.pts_90khz (marked_payloads unit.nal_units) s).0 _ ready
      (λ _. record { has_transport = ready.has_transport })

send_report-IsReady :
    (c : Config) (t : Tick) (delivery : Delivery) (last : Option (ℕ × ℕ)) (s : Session)
    → IsReady s
    → IsReady (send_report c t delivery last s).1
unfolding send_report
send_report-IsReady c t delivery none s h = h
send_report-IsReady c t delivery (some (timestamp, sent)) s h =
    let os = rtcp_writes delivery (
      rtcp_sender_report t.seconds t.nanos c.ssrc (report_timestamp timestamp sent t.at_report)
        s.packets s.octets) in
    let ready = write_all-IsReady os s h in
    elim (Bool-cases (leb 5000000 (t.at_report - s.last_report))) [
      | inl due ↦ rw due (
          continue-IsReady (λ _ s'. (ok tt, record s' { last_report = t.at_report }))
            (write_all os s).0 _ ready (λ _. record { has_transport = ready.has_transport }))
      | inr early ↦ rw early h
    ]

deliver-IsReady :
    (c : Config) (t : Tick) (subscription : Option ℕ) (delivery : Option Delivery) (s : Session)
    → IsReady s
    → IsReady (deliver c t subscription delivery s).1
unfolding deliver
deliver-IsReady c t (some id) (some delivery) s h =
    let taken = recv_timeout id s.source in
    let ready =
      send_unit-IsReady c t delivery taken.1 (record s { source = taken.0 })
        (record { has_transport = h.has_transport }) in
    continue-IsReady (λ _ s'. send_report c t delivery s'.last_timestamp s')
      (send_unit c t delivery taken.1 (record s { source = taken.0 })).0 _ ready
      (λ _. send_report-IsReady c t delivery _ _ ready)
deliver-IsReady c t (some id) none s h = h
deliver-IsReady c t none delivery s h = h

serve_media-IsReady :
    (c : Config) (t : Tick) (s : Session) → IsReady s → IsReady (serve_media c t s).1
unfolding serve_media
serve_media-IsReady c t s h =
    let ready = deliver-IsReady c t s.subscription s.delivery s h in
    elim (Bool-cases (is_idle t s)) [
      | inl idle ↦ rw idle h
      | inr busy ↦ rw busy (
          continue-IsReady (λ _. pure next_round) (deliver c t s.subscription s.delivery s).0 _
            ready (λ _. ready))
    ]

after_request-IsReady :
    (c : Config) (t : Tick) (flow : Flow) (s : Session)
    → IsReady s
    → IsReady (after_request c t flow s).1
unfolding after_request
after_request-IsReady c t serve s h = serve_media-IsReady c t s h
after_request-IsReady c t next_round s h = h
after_request-IsReady c t ended s h = h

on_taken-IsReady :
    (c : Config) (t : Tick) (taken : Taken) (s : Session)
    → IsReady s
    → IsReady (on_taken c t taken s).1
unfolding on_taken
on_taken-IsReady c t (complete request) s h =
    let ready = handle_request-IsReady c t request s h in
    continue-IsReady (after_request c t) (handle_request c t request s).0 _ ready
      (λ flow. after_request-IsReady c t flow _ ready)
on_taken-IsReady c t incomplete s h = serve_media-IsReady c t s h
on_taken-IsReady c t (failed e) s h = h
on_taken-IsReady c t stuck s h = h

-- A round of the loop keeps it so that a session with a subscription has a transport, whatever comes
-- from the socket and whichever write fails.
pub round-IsReady : (c : Config) (t : Tick) (s : Session) → IsReady s → IsReady (round c t s).1
unfolding round
round-IsReady c t s h =
    on_taken-IsReady c t (read_control t.socket s.input).0
      (record s { input = (read_control t.socket s.input).1 })
      (record { has_transport = h.has_transport })
