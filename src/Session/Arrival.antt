-- ===== src/Session/Arrival.antt =====
-- From `publish` to the viewer: a unit in the queue and the round that delivers it.
use camrtsp.Common.{
  ℕ, ◌≡◌, refl, sym, ap, ◌∙◌, some, [], ◌++◌, append-nil, length, drop, drop-length, ok, ◌⊎◌, true,
  false, inl, inr, Bool-cases,
}
use camrtsp.Core.{EncodedAccessUnit}
use camrtsp.Broadcaster.{
  BroadcastState, Client, find, front, prepare, overflow, offer, enqueue, enqueue_unless, publish,
}
use camrtsp.Broadcaster.Lookup.{find-offer_all}
use camrtsp.Request.{incomplete, read_control}
use camrtsp.Transport.{Delivery}
use camrtsp.Session.{Config, Tick, Session, next_round}
use camrtsp.Session.Media.{marked_payloads, round}
use camrtsp.Session.Sending.{packet_writes}
use camrtsp.Session.Viewer.{viewed, numbered}
use camrtsp.Session.Viewer.Reading.{viewed-nil, viewed-packet_writes}
use camrtsp.Session.Viewer.Units.{marked_payloads-Short, Arrived, numbered-Arrived}
use camrtsp.Session.Delivering.{written_since, CanSend, Sent, before_delivery, round-Sent}

-- The unit and the report after it, as the viewer reads them.
Sent-Arrived :
    (c : Config) (delivery : Delivery) (unit : EncodedAccessUnit) (s : Session)
    → CanSend c delivery unit s
    → (s' : Session) → Sent c delivery unit s s'
    → Arrived c.ssrc s.sequence unit (viewed delivery (written_since s s'))
Sent-Arrived c delivery unit s can s' sent =
    let ps = marked_payloads unit.nal_units in
    let packets = packet_writes c delivery unit.pts_90khz s.sequence ps in
    let nothing : viewed delivery sent.behind ≡ [] =
      ap (viewed delivery) (sym (append-nil sent.behind)) ∙ sent.unseen [] ∙ viewed-nil delivery in
    numbered-Arrived c.ssrc s.sequence unit _ can.units (
      ap (λ os. viewed delivery (drop (length s.out) os)) sent.grown
      ∙ ap (viewed delivery) (drop-length s.out (packets ++ sent.behind))
      ∙ viewed-packet_writes c delivery unit.pts_90khz s.sequence ps sent.behind can.source_fits
          can.time_fits can.sequence_fits (marked_payloads-Short unit.nal_units)
      ∙ ap (λ l. numbered c.ssrc unit.pts_90khz s.sequence ps ++ l) nothing
      ∙ append-nil _)

-- A unit that is offered to an empty queue is its first, unless the subscriber goes on waiting.
offered_first :
    (unit : EncodedAccessUnit) (client : Client)
    → client.frames ≡ []
    → (unit.keyframe ≡ true) ⊎ (client.waiting_for_keyframe ≡ false)
    → front (some (offer unit client)) ≡ some unit
unfolding offer overflow enqueue enqueue_unless
offered_first unit client drained (inl key) = rw (drained, key) refl
offered_first unit client drained (inr ready) = elim (Bool-cases unit.keyframe) [
  | inl key ↦ rw (drained, key) refl
  | inr inter ↦ rw (drained, inter, ready) refl
]

published_first :
    (now : ℕ) (unit : EncodedAccessUnit) (id : ℕ) (source : BroadcastState) (client : Client)
    → find id source.clients ≡ some client
    → client.alive ≡ true
    → client.frames ≡ []
    → ((prepare source.codec unit).keyframe ≡ true) ⊎ (client.waiting_for_keyframe ≡ false)
    → front (find id (publish now unit source).clients) ≡ some (prepare source.codec unit)
unfolding publish
published_first now unit id source client found live drained ready =
    ap front (find-offer_all id (prepare source.codec unit) source.clients client found live)
    ∙ offered_first (prepare source.codec unit) client drained ready

-- An access unit that is published while the queue of a playing viewer is empty has reached that
-- viewer after the next round of its session in which no request is complete: it reads, over TCP or
-- UDP, the RTP packets of the unit, with consecutive sequence numbers and the unit's time, and from
-- them the NAL units as `publish` prepared them; the report that may follow does not disturb it. It
-- is so for a keyframe, and for any unit if the viewer does not wait for one. The transport's RTP and
-- RTCP sides differ, the numbers fit their fields, no write fails, and no NAL unit is empty or a
-- fragment.
pub published_unit-Arrived :
    (now : ℕ) (c : Config) (t : Tick) (delivery : Delivery) (unit : EncodedAccessUnit) (id : ℕ)
    (s : Session) (client : Client)
    → s.subscription ≡ some id
    → s.delivery ≡ some delivery
    → find id s.source.clients ≡ some client
    → client.alive ≡ true
    → client.frames ≡ []
    → ((prepare s.source.codec unit).keyframe ≡ true) ⊎ (client.waiting_for_keyframe ≡ false)
    → (read_control t.socket s.input).0 ≡ incomplete
    → CanSend c delivery (prepare s.source.codec unit) s
    → let (result, s') = round c t (record s { source = publish now unit s.source }) in
      (result ≡ ok next_round)
      × Arrived c.ssrc s.sequence
          (prepare s.source.codec unit)
          (viewed delivery (written_since s s'))
published_unit-Arrived now c t delivery unit id s client playing set_up found live drained ready
      quiet can =
    let ready_unit = prepare s.source.codec unit in
    let published : Session = record s { source = publish now unit s.source } in
    let can' : CanSend c delivery ready_unit (before_delivery t id published) = record {
      apart = can.apart;
      source_fits = can.source_fits;
      time_fits = can.time_fits;
      sequence_fits = can.sequence_fits;
      units = can.units;
      enough_writes = can.enough_writes;
    } in
    let (went, sent) =
      round-Sent c t delivery ready_unit id published playing set_up
        (published_first now unit id s.source client found live drained ready) quiet can' in
    (
      went,
      Sent-Arrived c delivery ready_unit (before_delivery t id published) can'
          (round c t published).1 sent,
    )
