-- ===== src/Response/Rtcp.antt =====
-- RTCP packets say their own length.
use camrtsp.Common.{
  ℕ, zero, suc, ◌*◌, ◌≡◌, refl, Option, none, some, List, [], ◌∷◌, length, drop, ltb, from_be16,
  if◌then◌else◌,
}
use camrtsp.Response.{rtcp_sender_report, rtcp_bye}

-- A receiver's walk over a compound packet: the packet types, by the length field of each header. It
-- fails where a packet goes past the end.
unfoldable pub packet_types : ℕ → List ℕ → Option (List ℕ)
packet_types zero bytes = none
packet_types (suc fuel) [] = some []
packet_types (suc fuel) (flags ∷ kind ∷ high ∷ low ∷ rest) =
    let size = from_be16 high low * 4 in
    let later = packet_types fuel (drop size rest) in
    if ltb (length rest) size
    then none
    else elim later [ none ↦ none | some kinds ↦ some (kind ∷ kinds) ]
packet_types (suc fuel) bytes = none

-- The length fields of a sender report cover it exactly, as a sender report and a source
-- description, and that of a BYE covers it, whatever the numbers in them.
pub packet_types_cover :
    (seconds nanos ssrc timestamp packets octets : ℕ)
    → (packet_types 3 (rtcp_sender_report seconds nanos ssrc timestamp packets octets)
        ≡ some (200 ∷ 202 ∷ []))
      × (packet_types 2 (rtcp_bye ssrc) ≡ some (203 ∷ []))
unfolding packet_types rtcp_sender_report rtcp_bye
packet_types_cover seconds nanos ssrc timestamp packets octets = (refl, refl)
