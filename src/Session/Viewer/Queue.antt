-- ===== src/Session/Viewer/Queue.antt =====
-- What a viewer reads of several access units, one after the other.
use camrtsp.Common.{
  ℕ, ◌+◌, ◌%◌, ◌<◌, ◌≡◌, sym, ap, ◌∙◌, List, [], ◌∷◌, ◌++◌, append-nil, append_assoc, length, All,
}
use camrtsp.Core.{EncodedAccessUnit}
use camrtsp.Rtp.Header.{RtpPacket}
use camrtsp.Rtp.Reassembly.{Receiver, receive_all, receive_all-append, IsUnit}
use camrtsp.Session.Media.{marked_payloads}
use camrtsp.Session.Packets.{payloads, receive-marked_payloads}
use camrtsp.Session.Viewer.{numbered, bodies}
use camrtsp.Session.Viewer.Reading.{bodies-numbered, bodies-append}

-- The packets of a list of access units, with consecutive sequence numbers through all of them.
unfoldable pub all_numbered : ℕ → ℕ → List EncodedAccessUnit → List RtpPacket
all_numbered ssrc sequence [] = []
all_numbered ssrc sequence (unit ∷ units) =
    let payloads = marked_payloads unit.nal_units in
    numbered ssrc unit.pts_90khz sequence payloads
    ++ all_numbered ssrc ((sequence + length payloads) % 65536) units

-- The NAL units of a list of access units.
unfoldable pub all_nals : List EncodedAccessUnit → List (List ℕ)
all_nals [] = []
all_nals (unit ∷ units) = unit.nal_units ++ all_nals units

-- An access unit whose time fits its field, with NAL units that can be sent.
abbrev pub IsSendable : EncodedAccessUnit → Type 0
IsSendable unit = (unit.pts_90khz < 4294967296) × All IsUnit unit.nal_units

-- A receiver gets the NAL units of all access units from their packets.
pub receive-all_numbered :
    (r : Receiver) (ssrc sequence : ℕ) (units : List EncodedAccessUnit)
    → All IsSendable units
    → (receive_all r (bodies (all_numbered ssrc sequence units))).units ≡ r.units ++ all_nals units
unfolding all_numbered all_nals
receive-all_numbered r ssrc sequence [] ready =
    unfold bodies receive_all in sym (append-nil r.units)
receive-all_numbered r ssrc sequence (unit ∷ units) ready =
    let ps = marked_payloads unit.nal_units in
    let later = all_numbered ssrc ((sequence + length ps) % 65536) units in
    let first = receive_all r (payloads ps) in
    ap (λ bs. (receive_all r bs).units)
      (bodies-append (numbered ssrc unit.pts_90khz sequence ps) later
        ∙ ap (λ bs. bs ++ bodies later) (bodies-numbered ssrc unit.pts_90khz sequence ps))
    ∙ ap (λ r'. r'.units) (receive_all-append r (payloads ps) (bodies later))
    ∙ receive-all_numbered first ssrc ((sequence + length ps) % 65536) units ready.1
    ∙ ap (λ us. us ++ all_nals units) (receive-marked_payloads r unit.nal_units ready.0.1)
    ∙ append_assoc r.units unit.nal_units (all_nals units)
