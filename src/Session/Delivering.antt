-- ===== src/Session/Delivering.antt =====
-- A round of `handle`'s loop in which no request is complete: `recv_timeout`, the packets of the unit
-- that is first and the report after them.
use camrtsp.Common.{
  ℕ, ◌+◌, ◌*◌, ◌%◌, ◌≤◌, ◌<◌, ◌≡◌, refl, sym, ap, ◌∙◌, subst, Bool, Option, some, List, [], ◌∷◌,
  ◌++◌, append_assoc, length, drop, All, arith, Result, ok,
}
use camrtsp.Io.{IoError}
use camrtsp.Core.{EncodedAccessUnit}
use camrtsp.Rtp.Reassembly.{IsUnit}
use camrtsp.Broadcaster.{find, front, recv_timeout}
use camrtsp.Request.{incomplete, read_control}
use camrtsp.Transport.{Delivery, over_tcp, over_udp, Output, rtp_writes}
use camrtsp.Session.{Config, Tick, Session, next_round, continue_with, pure}
use camrtsp.Session.Media.{
  marked_payloads, send_payloads, deliver, round, send_unit, is_idle, serve_media, on_taken,
}
use camrtsp.Session.Sending.{
  packet_writes, send_payloads-packet_writes, send_payloads-writes_left, send_payloads-Kept,
}
use camrtsp.Session.Viewer.{viewed}
use camrtsp.Session.Viewer.Reading.{AreApart}
use camrtsp.Session.Viewer.Report.{Unseen, send_report-Unseen}

continue_ok {ℓ κ} :
    {A : Type ℓ} {B : Type κ} (f : A → Session → Result IoError B × Session)
    (p : Result IoError A × Session) (a : A)
    → p.0 ≡ ok a
    → continue_with f p ≡ f a p.1
continue_ok f (result, s) a e = ap (λ r. continue_with f (r, s)) e

-- What was written since a session's state `s`.
abbrev pub written_since : Session → Session → List Output
written_since s s' = drop (length s.out) s'.out

-- The numbers of a unit and of the session fit their fields, and the writes go well.
pub record CanSend (c : Config) (delivery : Delivery) (unit : EncodedAccessUnit) (s : Session)
    : Type 0 where
  pub apart : AreApart delivery
  pub source_fits : c.ssrc < 4294967296
  pub time_fits : unit.pts_90khz < 4294967296
  pub sequence_fits : s.sequence < 65536
  pub units : All IsUnit unit.nal_units
  pub enough_writes :
      length (packet_writes c delivery unit.pts_90khz s.sequence (marked_payloads unit.nal_units))
        + 2
      ≤ s.writes_left

-- The session after the packets of a unit.
abbrev after_unit : Config → Tick → Delivery → EncodedAccessUnit → Session → Session
after_unit c t delivery unit s =
    let sent = (send_payloads c delivery unit.pts_90khz (marked_payloads unit.nal_units) s).1 in
    record sent { last_timestamp = some (unit.pts_90khz, t.at_sent) }

send_unit_ok :
    (c : Config) (t : Tick) (delivery : Delivery) (unit : EncodedAccessUnit) (s : Session)
    → CanSend c delivery unit s
    → send_unit c t delivery (some unit) s ≡ (ok tt, after_unit c t delivery unit s)
unfolding send_unit
send_unit_ok c t delivery unit s can =
    continue_ok _ (send_payloads c delivery unit.pts_90khz (marked_payloads unit.nal_units) s) tt
      (send_payloads-packet_writes c delivery unit.pts_90khz (marked_payloads unit.nal_units) s
        (omega (arith, can.enough_writes)) can.sequence_fits).0

pub length-packet_writes :
    (c : Config) (delivery : Delivery) (pts sequence : ℕ) (payloads : List (List ℕ × Bool))
    → length (packet_writes c delivery pts sequence payloads) ≤ 2 * length payloads
unfolding packet_writes rtp_writes
length-packet_writes c delivery pts sequence [] = omega arith
length-packet_writes c (over_tcp a b) pts sequence ((payload, marker) ∷ rest) =
    omega (arith, length-packet_writes c (over_tcp a b) pts ((sequence + 1) % 65536) rest)
length-packet_writes c (over_udp rtp rtcp client_rtp client_rtcp) pts sequence
      ((payload, marker) ∷ rest) =
    let udp = over_udp rtp rtcp client_rtp client_rtcp in
    omega (arith, length-packet_writes c udp pts ((sequence + 1) % 65536) rest)

-- What a delivery leaves: the unit's packets and what is not seen of the report, and a session that
-- can go on with the next unit.
pub record Sent (c : Config) (delivery : Delivery) (unit : EncodedAccessUnit) (s s' : Session)
    : Type 0 where
  pub behind : List Output
  pub grown :
      s'.out
      ≡ s.out
        ++ (packet_writes c delivery unit.pts_90khz s.sequence (marked_payloads unit.nal_units)
            ++ behind)
  pub unseen : (later : List Output) → viewed delivery (behind ++ later) ≡ viewed delivery later
  pub numbered_on : s'.sequence ≡ (s.sequence + length (marked_payloads unit.nal_units)) % 65536
  pub writes : s.writes_left ≤ s'.writes_left + 2 * length (marked_payloads unit.nal_units) + 2
  pub input : s'.input ≡ s.input
  pub playing : s'.subscription ≡ s.subscription
  pub set_up : s'.delivery ≡ s.delivery
  pub source : s'.source ≡ s.source

module _ (c : Config) (t : Tick) (delivery : Delivery) (unit : EncodedAccessUnit) (s : Session)
    (can : CanSend c delivery unit s) where
  unit_left : 2 ≤ (after_unit c t delivery unit s).writes_left
  unit_left = omega (
    arith,
    can.enough_writes,
    send_payloads-writes_left c delivery unit.pts_90khz (marked_payloads unit.nal_units) s
        (omega (arith, can.enough_writes)),
  )

  reported-Sent :
      (result : Result IoError (Unit {0}) × Session)
      → Unseen delivery (after_unit c t delivery unit s) result
      → Sent c delivery unit s result.1
  reported-Sent result report =
      let ps = marked_payloads unit.nal_units in
      let packets = packet_writes c delivery unit.pts_90khz s.sequence ps in
      let room : length packets ≤ s.writes_left = omega (arith, can.enough_writes) in
      let sent =
        send_payloads-packet_writes c delivery unit.pts_90khz ps s room can.sequence_fits in
      let left = send_payloads-writes_left c delivery unit.pts_90khz ps s room in
      let kept = send_payloads-Kept c delivery unit.pts_90khz ps s room in
      record {
        behind = report.written_after;
        grown =
            report.grown
            ∙ ap (λ os. os ++ report.written_after) sent.1
            ∙ append_assoc s.out packets report.written_after;
        unseen = report.unseen;
        numbered_on = report.numbered_on ∙ sent.2;
        writes = omega (
          arith,
          report.writes,
          left,
          room,
          length-packet_writes c delivery unit.pts_90khz s.sequence ps,
        );
        input = report.kept.input ∙ kept.input;
        playing = report.kept.subscription ∙ kept.subscription;
        set_up = report.kept.delivery ∙ kept.delivery;
        source = report.kept.source ∙ kept.source;
      }

-- A round in which no request is complete delivers, if the session plays.
round_delivers :
    (c : Config) (t : Tick) (id : ℕ) (s : Session)
    → s.subscription ≡ some id
    → (read_control t.socket s.input).0 ≡ incomplete
    → round c t s
      ≡ continue_with
          (λ _. pure next_round)
          (deliver c t s.subscription s.delivery
            (record s { input = (read_control t.socket s.input).1 }))
unfolding round on_taken serve_media is_idle
round_delivers c t id s playing quiet = rw (quiet, playing) refl

-- The session as its delivery finds it: what was read of the socket is in, and a unit is taken.
abbrev pub before_delivery : Tick → ℕ → Session → Session
before_delivery t id s = record s {
  input = (read_control t.socket s.input).1;
  source = (recv_timeout id s.source).0;
}

-- A quiet round sends the unit that is first.
pub round-Sent :
    (c : Config) (t : Tick) (delivery : Delivery) (unit : EncodedAccessUnit) (id : ℕ) (s : Session)
    → s.subscription ≡ some id
    → s.delivery ≡ some delivery
    → front (find id s.source.clients) ≡ some unit
    → (read_control t.socket s.input).0 ≡ incomplete
    → CanSend c delivery unit (before_delivery t id s)
    → ((round c t s).0 ≡ ok next_round)
      × Sent c delivery unit (before_delivery t id s) (round c t s).1
unfolding deliver
round-Sent c t delivery unit id s playing set_up first quiet can =
    let read : Session = record s { input = (read_control t.socket s.input).1 } in
    let before = before_delivery t id s in
    let got : (recv_timeout id s.source).1 ≡ some unit = unfold recv_timeout in first in
    let report =
      send_report-Unseen c t delivery (some (unit.pts_90khz, t.at_sent))
        (after_unit c t delivery unit before) (unit_left c t delivery unit before can) can.apart in
    let sent : ((deliver c t (some id) (some delivery) read).0 ≡ ok tt)
        × Sent c delivery unit before (deliver c t (some id) (some delivery) read).1 =
      rw (got, send_unit_ok c t delivery unit before can)
        (report.went, reported-Sent c t delivery unit before can _ report) in
    let on = λ (subscription : Option ℕ) (transport : Option Delivery).
      continue_with (λ _. pure next_round) (deliver c t subscription transport read) in
    let served : round c t s ≡ on (some id) (some delivery) =
      round_delivers c t id s playing quiet
      ∙ ap (λ subscription. on subscription s.delivery) playing
      ∙ ap (on (some id)) set_up in
    subst (λ result. (result.0 ≡ ok next_round) × Sent c delivery unit before result.1)
      (sym (
        served
        ∙ continue_ok (λ _. pure next_round) (deliver c t (some id) (some delivery) read) tt
            sent.0))
      (refl, sent.1)
