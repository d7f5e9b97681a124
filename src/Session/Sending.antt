-- ===== src/Session/Sending.antt =====
-- What a session writes for an access unit.
use camrtsp.Common.{
  ℕ, suc, ◌+◌, ◌-◌, ◌%◌, ◌≤◌, ◌<◌, ◌≡◌, refl, sym, ap, ◌∙◌, Bool, List, [], ◌∷◌, ◌++◌, length,
  length-append, append_assoc, append-nil, arith, ok,
}
use camrtsp.Rtp.{rtp_packet}
use camrtsp.Transport.{Delivery, Output, rtp_writes}
use camrtsp.Session.{Config, Session, write_with, write, write_all}
use camrtsp.Session.Media.{count_packet, send_payload, send_payloads}

abbrev pub written : List Output → Session → Session
written os s = record s { out = s.out ++ os; writes_left = s.writes_left - length os }

monus_zero : (n : ℕ) → n - 0 ≡ n
monus_zero n = omega arith

pub write_ok :
    (n : ℕ) (o : Output) (s : Session)
    → s.writes_left ≡ suc n
    → write o s ≡ (ok tt, record s { out = s.out ++ o ∷ []; writes_left = n })
unfolding write write_with
write_ok n o s e = rw e refl

written-cons :
    (o : Output) (os : List Output) (s : Session) (n : ℕ)
    → s.writes_left ≡ suc n
    → written os (record s { out = s.out ++ o ∷ []; writes_left = n }) ≡ written (o ∷ os) s
written-cons o os s n e =
    let left : s.writes_left - length (o ∷ os) ≡ n - length os = omega arith in
    rw (append_assoc s.out (o ∷ []) os, left) refl

-- Writes that all succeed go out in order.
pub write_all_ok :
    (os : List Output) (s : Session)
    → length os ≤ s.writes_left
    → write_all os s ≡ (ok tt, written os s)
unfolding write_all
write_all_ok [] s h =
    let unchanged : s ≡ written [] s = rw (append-nil s.out, monus_zero s.writes_left) refl in
    ap (λ t. (ok tt, t)) unchanged
write_all_ok (o ∷ os) s h =
    let n = s.writes_left - 1 in
    rw (write_ok n o s (omega arith)) (
      write_all_ok os (record s { out = s.out ++ o ∷ []; writes_left = n }) (omega arith)
      ∙ ap (λ t. (ok tt, t)) (written-cons o os s n (omega arith)))

-- The packets of a list of payloads, with consecutive sequence numbers from `sequence` on.
unfoldable pub packet_writes : Config → Delivery → ℕ → ℕ → List (List ℕ × Bool) → List Output
packet_writes c delivery pts sequence [] = []
packet_writes c delivery pts sequence ((payload, marker) ∷ rest) =
    rtp_writes delivery (rtp_packet payload sequence pts c.ssrc marker)
    ++ packet_writes c delivery pts ((sequence + 1) % 65536) rest

-- The payloads of an access unit go out in order, as RTP packets with consecutive sequence numbers
-- that wrap at 2 ^ 16, and the session's sequence number ends behind the last, if no write fails.
pub send_payloads-packet_writes :
    (c : Config) (delivery : Delivery) (pts : ℕ) (payloads : List (List ℕ × Bool)) (s : Session)
    → length (packet_writes c delivery pts s.sequence payloads) ≤ s.writes_left
    → s.sequence < 65536
    → ((send_payloads c delivery pts payloads s).0 ≡ ok tt)
      × ((send_payloads c delivery pts payloads s).1.out
          ≡ s.out ++ packet_writes c delivery pts s.sequence payloads)
      × ((send_payloads c delivery pts payloads s).1.sequence
          ≡ (s.sequence + length payloads) % 65536)
unfolding send_payloads packet_writes send_payload
send_payloads-packet_writes c delivery pts [] s h b = (refl, sym (append-nil s.out), omega arith)
send_payloads-packet_writes c delivery pts ((payload, marker) ∷ rest) s h b =
    let first = rtp_writes delivery (rtp_packet payload s.sequence pts c.ssrc marker) in
    let later = packet_writes c delivery pts ((s.sequence + 1) % 65536) rest in
    let both = length-append first later in
    let (result, out, sequence) =
      send_payloads-packet_writes c delivery pts rest (count_packet payload (written first s))
        (omega (arith, h, both)) (omega arith) in
    rw (write_all_ok first s (omega (arith, h, both)))
      (result, out ∙ append_assoc s.out first later, sequence ∙ omega arith)

-- Each write takes one from the writes that are left.
pub send_payloads-writes_left :
    (c : Config) (delivery : Delivery) (pts : ℕ) (payloads : List (List ℕ × Bool)) (s : Session)
    → length (packet_writes c delivery pts s.sequence payloads) ≤ s.writes_left
    → (send_payloads c delivery pts payloads s).1.writes_left
      ≡ s.writes_left - length (packet_writes c delivery pts s.sequence payloads)
unfolding send_payloads packet_writes send_payload
send_payloads-writes_left c delivery pts [] s h = omega arith
send_payloads-writes_left c delivery pts ((payload, marker) ∷ rest) s h =
    let first = rtp_writes delivery (rtp_packet payload s.sequence pts c.ssrc marker) in
    let later = packet_writes c delivery pts ((s.sequence + 1) % 65536) rest in
    let both = length-append first later in
    let ih =
      send_payloads-writes_left c delivery pts rest (count_packet payload (written first s))
        (omega (arith, h, both)) in
    rw (write_all_ok first s (omega (arith, h, both))) (ih ∙ omega (arith, both))

-- What sending leaves as it was.
pub record Kept (s s' : Session) : Type 0 where
  pub input : s'.input ≡ s.input
  pub delivery : s'.delivery ≡ s.delivery
  pub subscription : s'.subscription ≡ s.subscription
  pub source : s'.source ≡ s.source

pub send_payloads-Kept :
    (c : Config) (delivery : Delivery) (pts : ℕ) (payloads : List (List ℕ × Bool)) (s : Session)
    → length (packet_writes c delivery pts s.sequence payloads) ≤ s.writes_left
    → Kept s (send_payloads c delivery pts payloads s).1
unfolding send_payloads packet_writes send_payload
send_payloads-Kept c delivery pts [] s h = record {
  input = refl;
  delivery = refl;
  subscription = refl;
  source = refl;
}
send_payloads-Kept c delivery pts ((payload, marker) ∷ rest) s h =
    let first = rtp_writes delivery (rtp_packet payload s.sequence pts c.ssrc marker) in
    let later = packet_writes c delivery pts ((s.sequence + 1) % 65536) rest in
    let both = length-append first later in
    let kept =
      send_payloads-Kept c delivery pts rest (count_packet payload (written first s))
        (omega (arith, h, both)) in
    rw (write_all_ok first s (omega (arith, h, both))) (record {
      input = kept.input;
      delivery = kept.delivery;
      subscription = kept.subscription;
      source = kept.source;
    })
