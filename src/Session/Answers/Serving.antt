-- ===== src/Session/Answers/Serving.antt =====
-- The delivery part of a round only adds to what was written.
use camrtsp.Common.{
  ℕ, ◌-◌, ap, sym, ◌∙◌, Bool, Option, none, some, List, [], ◌∷◌, ◌++◌, append-nil, append_assoc, ok,
  err, Result, Bool-cases, inl, inr, leb,
}
use camrtsp.Core.{EncodedAccessUnit}
use camrtsp.Io.{IoError}
use camrtsp.Broadcaster.{recv_timeout}
use camrtsp.Response.{rtcp_sender_report}
use camrtsp.Rtp.{rtp_packet}
use camrtsp.Transport.{Delivery, rtp_writes, rtcp_writes}
use camrtsp.Session.{
  Config, Tick, Session, Flow, next_round, serve, ended, continue_with, write_all, pure,
}
use camrtsp.Session.Media.{
  count_packet, send_payload, send_payloads, send_unit, marked_payloads, send_report,
  report_timestamp, deliver, is_idle, serve_media, after_request,
}
use camrtsp.Session.Answers.Growing.{Grows, write_all-Grows}

Grows-trans : (s s' s'' : Session) → Grows s s' → Grows s' s'' → Grows s s''
Grows-trans s s' s'' (more, e) (rest, k) =
    (more ++ rest, k ∙ ap (λ l. l ++ rest) e ∙ append_assoc s.out more rest)

Grows-refl : (s : Session) → Grows s s
Grows-refl s = ([], sym (append-nil s.out))

-- A step, and what follows it if it succeeds.
continue-Grows {ℓ κ} :
    {A : Type ℓ} {B : Type κ} (f : A → Session → Result IoError B × Session) (s : Session)
    (p : Result IoError A × Session)
    → Grows s p.1
    → ((a : A) → Grows p.1 (f a p.1).1)
    → Grows s (continue_with f p).1
continue-Grows f s (ok a, s') now later = Grows-trans s s' (f a s').1 now (later a)
continue-Grows f s (err e, s') now later = now

send_payloads-Grows :
    (c : Config) (delivery : Delivery) (pts : ℕ) (payloads : List (List ℕ × Bool)) (s : Session)
    → Grows s (send_payloads c delivery pts payloads s).1
unfolding send_payloads send_payload
send_payloads-Grows c delivery pts [] s = Grows-refl s
send_payloads-Grows c delivery pts ((payload, marker) ∷ rest) s =
    let os = rtp_writes delivery (rtp_packet payload s.sequence pts c.ssrc marker) in
    continue-Grows (λ _. send_payloads c delivery pts rest) s
      (continue_with (λ _ s'. (ok tt, count_packet payload s')) (write_all os s))
      (continue-Grows (λ _ s'. (ok tt, count_packet payload s')) s (write_all os s)
        (write_all-Grows os s) (λ _. Grows-refl (write_all os s).1))
      (λ _. send_payloads-Grows c delivery pts rest _)

send_unit-Grows :
    (c : Config) (t : Tick) (delivery : Delivery) (unit : Option EncodedAccessUnit) (s : Session)
    → Grows s (send_unit c t delivery unit s).1
unfolding send_unit
send_unit-Grows c t delivery none s = Grows-refl s
send_unit-Grows c t delivery (some unit) s =
    let sent = send_payloads c delivery unit.pts_90khz (marked_payloads unit.nal_units) s in
    continue-Grows
      (λ _ s'. (ok tt, record s' { last_timestamp = some (unit.pts_90khz, t.at_sent) })) s sent
      (send_payloads-Grows c delivery unit.pts_90khz (marked_payloads unit.nal_units) s)
      (λ _. Grows-refl sent.1)

send_report-Grows :
    (c : Config) (t : Tick) (delivery : Delivery) (last : Option (ℕ × ℕ)) (s : Session)
    → Grows s (send_report c t delivery last s).1
unfolding send_report
send_report-Grows c t delivery none s = Grows-refl s
send_report-Grows c t delivery (some (timestamp, sent)) s =
    let os = rtcp_writes delivery (
      rtcp_sender_report t.seconds t.nanos c.ssrc (report_timestamp timestamp sent t.at_report)
        s.packets s.octets) in
    elim (Bool-cases (leb 5000000 (t.at_report - s.last_report))) [
      | inl due ↦ rw due (
          continue-Grows (λ _ s'. (ok tt, record s' { last_report = t.at_report })) s
            (write_all os s) (write_all-Grows os s) (λ _. Grows-refl (write_all os s).1))
      | inr early ↦ rw early (Grows-refl s)
    ]

deliver-Grows :
    (c : Config) (t : Tick) (subscription : Option ℕ) (delivery : Option Delivery) (s : Session)
    → Grows s (deliver c t subscription delivery s).1
unfolding deliver
deliver-Grows c t (some id) (some delivery) s =
    let taken = recv_timeout id s.source in
    let read = record s { source = taken.0 } in
    continue-Grows (λ _ s'. send_report c t delivery s'.last_timestamp s') s
      (send_unit c t delivery taken.1 read) (send_unit-Grows c t delivery taken.1 read)
      (λ _. send_report-Grows c t delivery _ _)
deliver-Grows c t (some id) none s = Grows-refl s
deliver-Grows c t none delivery s = Grows-refl s

serve_media-Grows : (c : Config) (t : Tick) (s : Session) → Grows s (serve_media c t s).1
unfolding serve_media
serve_media-Grows c t s = elim (Bool-cases (is_idle t s)) [
  | inl idle ↦ rw idle (Grows-refl s)
  | inr busy ↦ rw busy (
      continue-Grows (λ _. pure next_round) s (deliver c t s.subscription s.delivery s)
        (deliver-Grows c t s.subscription s.delivery s)
        (λ _. Grows-refl (deliver c t s.subscription s.delivery s).1))
]

-- What follows a request in its round.
pub after_request-Grows :
    (c : Config) (t : Tick) (flow : Flow) (s : Session) → Grows s (after_request c t flow s).1
unfolding after_request
after_request-Grows c t serve s = serve_media-Grows c t s
after_request-Grows c t next_round s = Grows-refl s
after_request-Grows c t ended s = Grows-refl s
