-- ===== src/Session/Viewer.antt =====
-- What a viewer reads: from the interleaved frames of its control connection, or from the datagrams
-- that reach its RTP port, to RTP packets and to NAL units. Written on its own, after RFC 2326,
-- RFC 3550 and RFC 6184.
pub mod Reading
pub mod Units
pub mod Report
pub mod Queue
use camrtsp.Common.{
  ℕ, zero, suc, ◌+◌, ◌%◌, ◌≤◌, ◌<◌, ◌≡◌, ◌≢◌, refl, ap, ◌∙◌, sym, Bool, true, false, ◌&&◌, Option,
  none, some, List, [], ◌∷◌, ◌++◌, length, length-append, length-drop, take, drop, take-length,
  drop-length, All, arith, ◌==◌, ==_refl, same, same_refl, if◌then◌else◌, from_be16, be16,
  u16_round, map,
}
use camrtsp.Rtp.{rtp_packet}
use camrtsp.Rtp.Header.{RtpPacket, read_rtp, read_rtp-rtp_packet, length-rtp_packet}
use camrtsp.Transport.{
  SocketAddr, Delivery, over_tcp, over_udp, Output, stream, datagram, frame_header, rtp_writes,
  rtcp_writes,
}
use camrtsp.Session.{Config}
use camrtsp.Session.Sending.{packet_writes}

-- The bytes of the control connection.
unfoldable pub stream_bytes : List Output → List ℕ
stream_bytes [] = []
stream_bytes (stream bs ∷ os) = bs ++ stream_bytes os
stream_bytes (datagram source destination bs ∷ os) = stream_bytes os

-- The interleaved frames of a byte stream that lie on one channel.
pub frames_fuel : ℕ → ℕ → List ℕ → List (List ℕ)
frames_fuel zero channel bs = []
frames_fuel (suc fuel) channel (mark ∷ ch ∷ high ∷ low ∷ rest) =
    let size = from_be16 high low in
    let later = frames_fuel fuel channel (drop size rest) in
    if mark == b'$' then if ch == channel then take size rest ∷ later else later else []
frames_fuel (suc fuel) channel bs = []

-- A frame takes at least four bytes, so the length is fuel enough.
pub frames : ℕ → List ℕ → List (List ℕ)
unfolding frames_fuel
frames channel bs = frames_fuel (length bs) channel bs

pub is_address : SocketAddr → SocketAddr → Bool
is_address a b = same a.ip b.ip && a.port == b.port

-- The datagrams that reach an address.
pub datagrams_to : SocketAddr → List Output → List (List ℕ)
unfolding is_address
datagrams_to port [] = []
datagrams_to port (stream bs ∷ os) = datagrams_to port os
datagrams_to port (datagram source destination bs ∷ os) =
    if is_address destination port then bs ∷ datagrams_to port os else datagrams_to port os

-- What a viewer takes for RTP packets, with the transport that it has agreed on.
pub raw_packets : Delivery → List Output → List (List ℕ)
unfolding frames stream_bytes datagrams_to
raw_packets (over_tcp rtp_channel rtcp_channel) os = frames rtp_channel (stream_bytes os)
raw_packets (over_udp rtp rtcp client_rtp client_rtcp) os = datagrams_to client_rtp os

abbrev pub if_read : Option RtpPacket → List RtpPacket → List RtpPacket
if_read none packets = packets
if_read (some packet) packets = packet ∷ packets

-- The packets with a header that it reads.
pub read_all : List (List ℕ) → List RtpPacket
read_all [] = []
read_all (packet ∷ packets) = if_read (read_rtp packet) (read_all packets)

pub viewed : Delivery → List Output → List RtpPacket
unfolding raw_packets read_all
viewed delivery os = read_all (raw_packets delivery os)

abbrev pub rtp_read : ℕ → ℕ → ℕ → List ℕ → Bool → RtpPacket
rtp_read ssrc pts sequence payload marker = record {
  marker = marker;
  payload_type = 96;
  sequence = sequence;
  timestamp = pts;
  ssrc = ssrc;
  payload = payload;
}

-- The packets of a list of payloads, in order, with consecutive sequence numbers.
pub numbered : ℕ → ℕ → ℕ → List (List ℕ × Bool) → List RtpPacket
numbered ssrc pts sequence [] = []
numbered ssrc pts sequence ((payload, marker) ∷ rest) =
    rtp_read ssrc pts sequence payload marker ∷ numbered ssrc pts ((sequence + 1) % 65536) rest

-- The payloads of a list of packets.
unfoldable pub bodies : List RtpPacket → List (List ℕ)
bodies [] = []
bodies (packet ∷ packets) = packet.payload ∷ bodies packets
