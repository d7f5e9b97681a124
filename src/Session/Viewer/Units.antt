-- ===== src/Session/Viewer/Units.antt =====
-- The packets of an access unit that a viewer has read, and the unit that it gets from them.
use camrtsp.Common.{ℕ, ◌≤◌, ◌≡◌, ap, ◌∙◌, Bool, true, false, none, List, [], ◌∷◌, ◌++◌, length, All}
use camrtsp.Core.{EncodedAccessUnit}
use camrtsp.Rtp.{packetize_h264}
use camrtsp.Rtp.Header.{RtpPacket}
use camrtsp.Rtp.Bounds.{packetize_bounded}
use camrtsp.Rtp.Reassembly.{Receiver, receive_all, IsUnit}
use camrtsp.Session.Media.{mark_last, marked_payloads}
use camrtsp.Session.Packets.{receive-marked_payloads}
use camrtsp.Session.Viewer.{numbered, bodies}
use camrtsp.Session.Viewer.Reading.{Short, bodies-numbered}

mark_last-Short :
    (last : Bool) (ps : List (List ℕ)) → All (λ p. length p ≤ 1400) ps → Short (mark_last last ps)
unfolding mark_last
mark_last-Short last [] h = tt
mark_last-Short last (p ∷ []) h = (h.0, tt)
mark_last-Short last (p ∷ q ∷ ps) h = (h.0, mark_last-Short last (q ∷ ps) h.1)

append-Short : (xs ys : List (List ℕ × Bool)) → Short xs → Short ys → Short (xs ++ ys)
append-Short [] ys h k = k
append-Short ((p, m) ∷ xs) ys h k = (h.0, append-Short xs ys h.1 k)

pub marked_payloads-Short : (nals : List (List ℕ)) → Short (marked_payloads nals)
unfolding marked_payloads
marked_payloads-Short [] = tt
marked_payloads-Short (nal ∷ []) = mark_last-Short true _ (packetize_bounded nal 1400)
marked_payloads-Short (nal ∷ next ∷ nals) =
    append-Short (mark_last false (packetize_h264 nal 1400)) (marked_payloads (next ∷ nals))
      (mark_last-Short false _ (packetize_bounded nal 1400)) (marked_payloads-Short (next ∷ nals))

abbrev pub empty_receiver : Receiver
empty_receiver = record { partial = none; units = [] }

-- What a viewer has read: the packets of the unit's payloads, from `sequence` on and with the unit's
-- time, and from them its NAL units.
pub record Arrived (ssrc sequence : ℕ) (unit : EncodedAccessUnit) (packets : List RtpPacket)
    : Type 0 where
  pub read : packets ≡ numbered ssrc unit.pts_90khz sequence (marked_payloads unit.nal_units)
  pub units : (receive_all empty_receiver (bodies packets)).units ≡ unit.nal_units

pub numbered-Arrived :
    (ssrc sequence : ℕ) (unit : EncodedAccessUnit) (packets : List RtpPacket)
    → All IsUnit unit.nal_units
    → packets ≡ numbered ssrc unit.pts_90khz sequence (marked_payloads unit.nal_units)
    → Arrived ssrc sequence unit packets
numbered-Arrived ssrc sequence unit packets h e = record {
  read = e;
  units =
      ap (λ ps. (receive_all empty_receiver (bodies ps)).units) e
      ∙ ap (λ ps. (receive_all empty_receiver ps).units)
          (bodies-numbered ssrc unit.pts_90khz sequence (marked_payloads unit.nal_units))
      ∙ receive-marked_payloads empty_receiver unit.nal_units h;
}
