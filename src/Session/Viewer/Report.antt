-- ===== src/Session/Viewer/Report.antt =====
-- The report that may follow a unit, for a viewer that reads RTP.
use camrtsp.Common.{
  ℕ, ◌-◌, ◌+◌, ◌≤◌, ◌<◌, ◌≡◌, refl, sym, Option, none, some, List, [], ◌++◌, append-nil, length,
  arith, Result, ok, inl, inr, Bool-cases, leb,
}
use camrtsp.Io.{IoError}
use camrtsp.Response.{rtcp_sender_report}
use camrtsp.Transport.{Delivery, over_tcp, over_udp, Output, rtcp_writes}
use camrtsp.Session.{Config, Tick, Session}
use camrtsp.Session.Media.{report_timestamp, send_report}
use camrtsp.Session.Sending.{write_all_ok, Kept}
use camrtsp.Session.Viewer.{viewed}
use camrtsp.Session.Viewer.Reading.{AreApart, viewed-rtcp_writes}

-- What is read of the report that may follow a unit: nothing.
pub record Unseen (delivery : Delivery) (s : Session) (result : Result IoError (Unit {0}) × Session)
    : Type 0 where
  pub written_after : List Output
  pub grown : result.1.out ≡ s.out ++ written_after
  pub unseen :
      (later : List Output) → viewed delivery (written_after ++ later) ≡ viewed delivery later
  pub kept : Kept s result.1
  pub numbered_on : result.1.sequence ≡ s.sequence
  pub writes : s.writes_left ≤ result.1.writes_left + 2
  pub went : result.0 ≡ ok tt

length-rtcp_sender_report : (a b c d e f : ℕ) → length (rtcp_sender_report a b c d e f) < 65536
unfolding rtcp_sender_report
length-rtcp_sender_report a b c d e f = omega arith

length-rtcp_writes :
    (delivery : Delivery) (packet : List ℕ) → length (rtcp_writes delivery packet) ≤ 2
unfolding rtcp_writes
length-rtcp_writes (over_tcp a b) packet = omega arith
length-rtcp_writes (over_udp rtp rtcp client_rtp client_rtcp) packet = omega arith

pub send_report-Unseen :
    (c : Config) (t : Tick) (delivery : Delivery) (last : Option (ℕ × ℕ)) (s : Session)
    → 2 ≤ s.writes_left
    → AreApart delivery
    → Unseen delivery s (send_report c t delivery last s)
unfolding send_report
send_report-Unseen c t delivery none s left apart = record {
  written_after = [];
  grown = sym (append-nil s.out);
  unseen = λ later. refl;
  kept = record { input = refl; delivery = refl; subscription = refl; source = refl };
  numbered_on = refl;
  writes = omega arith;
  went = refl;
}
send_report-Unseen c t delivery (some (timestamp, sent)) s left apart =
    let report =
      rtcp_sender_report t.seconds t.nanos c.ssrc (report_timestamp timestamp sent t.at_report)
        s.packets s.octets in
    let os = rtcp_writes delivery report in
    elim (Bool-cases (leb 5000000 (t.at_report - s.last_report))) [
      | inl due ↦
          let short : length report < 65536 =
            length-rtcp_sender_report t.seconds t.nanos c.ssrc
              (report_timestamp timestamp sent t.at_report) s.packets s.octets in
          let room : length os ≤ s.writes_left =
            omega (arith, length-rtcp_writes delivery report) in
          rw (due, write_all_ok os s room)
            (record {
              written_after = os;
              grown = refl;
              unseen = λ later. viewed-rtcp_writes delivery report later apart short;
              kept = record { input = refl; delivery = refl; subscription = refl; source = refl };
              numbered_on = refl;
              writes = omega (arith, length-rtcp_writes delivery report);
              went = refl;
            })
      | inr early ↦ rw early (record {
        written_after = [];
        grown = sym (append-nil s.out);
        unseen = λ later. refl;
        kept = record { input = refl; delivery = refl; subscription = refl; source = refl };
        numbered_on = refl;
        writes = omega arith;
        went = refl;
      })
    ]
