-- ===== src/Session/Viewer/Reading.antt =====
-- What a viewer reads of the packets that a session writes.
use camrtsp.Common.{
  ℕ, zero, suc, ◌+◌, ◌%◌, ◌≤◌, ◌<◌, ◌≡◌, ◌≢◌, refl, ap, ◌∙◌, Bool, false, some, List, [], ◌∷◌, ◌++◌,
  length, length-append, length-drop, take, drop, take-length, drop-length, arith, ◌==◌, ==_refl,
  same_refl, if◌then◌else◌, from_be16, u16_round,
}
use camrtsp.Rtp.{rtp_packet}
use camrtsp.Rtp.Header.{RtpPacket, read_rtp-rtp_packet, length-rtp_packet}
use camrtsp.Transport.{
  SocketAddr, Delivery, over_tcp, over_udp, Output, frame_header, rtp_writes, rtcp_writes,
}
use camrtsp.Session.{Config}
use camrtsp.Session.Sending.{packet_writes}
use camrtsp.Session.Packets.{payloads}
use camrtsp.Transport.{TransportPolicy}
use camrtsp.Transport.Policy.{IsFit}
use camrtsp.Session.Viewer.{
  stream_bytes, frames_fuel, frames, is_address, datagrams_to, raw_packets, if_read, read_all,
  viewed, rtp_read, numbered, bodies,
}

-- A frame at the front of a stream is read if it lies on the channel, and the rest after it.
frames_fuel-frame :
    (fuel channel ch : ℕ) (packet rest : List ℕ)
    → length packet < 65536
    → frames_fuel (suc fuel) channel (frame_header ch packet ++ (packet ++ rest)) ≡ (
        if ch == channel
        then packet ∷ frames_fuel fuel channel rest
        else frames_fuel fuel channel rest)
unfolding frames_fuel
frames_fuel-frame fuel channel ch packet rest short =
    rw (u16_round (length packet) short, take-length packet rest, drop-length packet rest) refl

-- Fuel of the length is as good as any above it.
frames_fuel_enough :
    (f g channel : ℕ) (bs : List ℕ)
    → length bs ≤ f
    → length bs ≤ g
    → frames_fuel f channel bs ≡ frames_fuel g channel bs
unfolding frames_fuel
frames_fuel_enough zero zero channel [] h k = refl
frames_fuel_enough zero (suc g) channel [] h k = refl
frames_fuel_enough (suc f) zero channel [] h k = refl
frames_fuel_enough (suc f) (suc g) channel [] h k = refl
frames_fuel_enough zero g channel (x ∷ xs) h k = absurd (omega arith)
frames_fuel_enough (suc f) zero channel (x ∷ xs) h k = absurd (omega arith)
frames_fuel_enough (suc f) (suc g) channel (a ∷ []) h k = refl
frames_fuel_enough (suc f) (suc g) channel (a ∷ b ∷ []) h k = refl
frames_fuel_enough (suc f) (suc g) channel (a ∷ b ∷ x ∷ []) h k = refl
frames_fuel_enough (suc f) (suc g) channel (a ∷ b ∷ x ∷ y ∷ rest) h k =
    let dropped = length-drop (from_be16 x y) rest in
    ap
      (λ (later : List (List ℕ)).
        if a == b'$' then if b == channel then take (from_be16 x y) rest ∷ later else later else [])
      (frames_fuel_enough f g channel (drop (from_be16 x y) rest) (omega (arith, h, dropped))
        (omega (arith, k, dropped)))

abbrev pub Short : List (List ℕ × Bool) → Type 0
Short [] = Unit
Short ((payload, marker) ∷ rest) = (length payload ≤ 1400) × Short rest

-- The packets before they are cut into frames or datagrams.
rtp_packets : ℕ → ℕ → ℕ → List (List ℕ × Bool) → List (List ℕ)
rtp_packets ssrc pts sequence [] = []
rtp_packets ssrc pts sequence ((payload, marker) ∷ rest) =
    rtp_packet payload sequence pts ssrc marker ∷ rtp_packets ssrc pts ((sequence + 1) % 65536) rest

module _ (c : Config) (pts : ℕ) (after : List Output) where
  -- Over TCP the frames on the RTP channel are the packets.
  frames_fuel-packet_writes :
      (a b fuel sequence : ℕ) (payloads : List (List ℕ × Bool))
      → length (stream_bytes (packet_writes c (over_tcp a b) pts sequence payloads ++ after)) ≤ fuel
      → Short payloads
      → frames_fuel fuel a
          (stream_bytes (packet_writes c (over_tcp a b) pts sequence payloads ++ after))
        ≡ rtp_packets c.ssrc pts sequence payloads ++ frames a (stream_bytes after)
  unfolding stream_bytes packet_writes rtp_packets rtp_writes frames
  frames_fuel-packet_writes a b fuel sequence [] h short =
      frames_fuel_enough fuel (length (stream_bytes after)) a (stream_bytes after) h (omega arith)
  frames_fuel-packet_writes a b zero sequence ((payload, marker) ∷ rest) h short =
      absurd (omega arith)
  frames_fuel-packet_writes a b (suc fuel) sequence ((payload, marker) ∷ rest) h short =
      let packet = rtp_packet payload sequence pts c.ssrc marker in
      let later =
        stream_bytes (packet_writes c (over_tcp a b) pts ((sequence + 1) % 65536) rest ++ after) in
      frames_fuel-frame fuel a a packet later
        (omega (arith, length-rtp_packet payload sequence pts c.ssrc marker, short.0))
      ∙ rw (==_refl a) (
          ap (λ ps. packet ∷ ps)
            (frames_fuel-packet_writes a b fuel ((sequence + 1) % 65536) rest
              (omega (arith, h, length-append packet later)) short.1))

  -- Over UDP the datagrams to the viewer's port are the packets.
  datagrams_to-packet_writes :
      (rtp rtcp client_rtp client_rtcp : SocketAddr) (sequence : ℕ)
      (payloads : List (List ℕ × Bool))
      → datagrams_to client_rtp (
          packet_writes c (over_udp rtp rtcp client_rtp client_rtcp) pts sequence payloads ++ after)
        ≡ rtp_packets c.ssrc pts sequence payloads ++ datagrams_to client_rtp after
  unfolding datagrams_to packet_writes rtp_packets rtp_writes is_address
  datagrams_to-packet_writes rtp rtcp client_rtp client_rtcp sequence [] = refl
  datagrams_to-packet_writes rtp rtcp client_rtp client_rtcp sequence ((payload, marker) ∷ rest) =
      rw (same_refl client_rtp.ip, ==_refl client_rtp.port)
        (ap (λ ps. rtp_packet payload sequence pts c.ssrc marker ∷ ps)
          (datagrams_to-packet_writes rtp rtcp client_rtp client_rtcp ((sequence + 1) % 65536)
            rest))

  raw_packets-packet_writes :
      (delivery : Delivery) (sequence : ℕ) (payloads : List (List ℕ × Bool))
      → Short payloads
      → raw_packets delivery (packet_writes c delivery pts sequence payloads ++ after)
        ≡ rtp_packets c.ssrc pts sequence payloads ++ raw_packets delivery after
  unfolding raw_packets frames
  raw_packets-packet_writes (over_tcp a b) sequence payloads short =
      frames_fuel-packet_writes a b _ sequence payloads (omega arith) short
  raw_packets-packet_writes (over_udp rtp rtcp client_rtp client_rtcp) sequence payloads short =
      datagrams_to-packet_writes rtp rtcp client_rtp client_rtcp sequence payloads

-- The RTP and the RTCP side of a transport can be told apart.
abbrev pub AreApart : Delivery → Type 0
AreApart (over_tcp a b) = a ≢ b
AreApart (over_udp rtp rtcp client_rtp client_rtcp) = client_rtp.port ≢ client_rtcp.port

-- They can in every transport that is negotiated.
IsFit-AreApart :
    (policy : TransportPolicy) (client_ip local_ip : List ℕ) (delivery : Delivery)
    → IsFit policy client_ip local_ip delivery
    → AreApart delivery
IsFit-AreApart policy client_ip local_ip (over_tcp a b) fit = fit.1
IsFit-AreApart policy client_ip local_ip (over_udp rtp rtcp client_rtp client_rtcp) fit = fit.5

-- A viewer does not take an RTCP packet for RTP.
raw_packets-rtcp_writes :
    (delivery : Delivery) (packet : List ℕ) (later : List Output)
    → AreApart delivery
    → length packet < 65536
    → raw_packets delivery (rtcp_writes delivery packet ++ later) ≡ raw_packets delivery later
unfolding raw_packets rtcp_writes stream_bytes datagrams_to is_address frames
raw_packets-rtcp_writes (over_tcp a b) packet later apart short =
    let other : (b == a) ≡ false = ground arith in
    let rest = stream_bytes later in
    frames_fuel-frame (suc (suc (suc (length (packet ++ rest))))) a b packet rest short
    ∙ rw other (
        frames_fuel_enough (suc (suc (suc (length (packet ++ rest))))) (length rest) a rest
          (omega (arith, length-append packet rest)) (omega arith))
raw_packets-rtcp_writes (over_udp rtp rtcp client_rtp client_rtcp) packet later apart short =
    ground arith

read_all-rtp_packets :
    (ssrc pts sequence : ℕ) (payloads : List (List ℕ × Bool)) (after : List (List ℕ))
    → ssrc < 4294967296
    → pts < 4294967296
    → sequence < 65536
    → read_all (rtp_packets ssrc pts sequence payloads ++ after)
      ≡ numbered ssrc pts sequence payloads ++ read_all after
unfolding read_all rtp_packets numbered
read_all-rtp_packets ssrc pts sequence [] after hc hp hs = refl
read_all-rtp_packets ssrc pts sequence ((payload, marker) ∷ rest) after hc hp hs =
    let later = read_all (rtp_packets ssrc pts ((sequence + 1) % 65536) rest ++ after) in
    ap (λ r. if_read r later) (read_rtp-rtp_packet payload sequence pts ssrc marker hs hp hc)
    ∙ ap (λ ps. if_read (some (rtp_read ssrc pts sequence payload marker)) ps)
        (read_all-rtp_packets ssrc pts ((sequence + 1) % 65536) rest after hc hp (omega arith))

-- What a viewer reads from the packets of a list of payloads, over either transport and with whatever
-- else follows, are these payloads with their markers, numbered.
pub viewed-packet_writes :
    (c : Config) (delivery : Delivery) (pts sequence : ℕ) (payloads : List (List ℕ × Bool))
    (after : List Output)
    → c.ssrc < 4294967296
    → pts < 4294967296
    → sequence < 65536
    → Short payloads
    → viewed delivery (packet_writes c delivery pts sequence payloads ++ after)
      ≡ numbered c.ssrc pts sequence payloads ++ viewed delivery after
unfolding viewed
viewed-packet_writes c delivery pts sequence payloads after hc hp hs short =
    ap read_all (raw_packets-packet_writes c pts after delivery sequence payloads short)
    ∙ read_all-rtp_packets c.ssrc pts sequence payloads (raw_packets delivery after) hc hp hs

-- A viewer sees nothing in an RTCP packet.
pub viewed-rtcp_writes :
    (delivery : Delivery) (packet : List ℕ) (later : List Output)
    → AreApart delivery
    → length packet < 65536
    → viewed delivery (rtcp_writes delivery packet ++ later) ≡ viewed delivery later
unfolding viewed
viewed-rtcp_writes delivery packet later apart short =
    ap read_all (raw_packets-rtcp_writes delivery packet later apart short)

pub viewed-nil : (delivery : Delivery) → viewed delivery [] ≡ []
unfolding viewed raw_packets read_all frames frames_fuel stream_bytes datagrams_to
viewed-nil (over_tcp a b) = refl
viewed-nil (over_udp rtp rtcp client_rtp client_rtcp) = refl

pub bodies-numbered :
    (ssrc pts sequence : ℕ) (ps : List (List ℕ × Bool))
    → bodies (numbered ssrc pts sequence ps) ≡ payloads ps
unfolding bodies numbered payloads
bodies-numbered ssrc pts sequence [] = refl
bodies-numbered ssrc pts sequence ((payload, marker) ∷ rest) =
    ap (λ ps. payload ∷ ps) (bodies-numbered ssrc pts ((sequence + 1) % 65536) rest)

pub bodies-append : (xs ys : List RtpPacket) → bodies (xs ++ ys) ≡ bodies xs ++ bodies ys
unfolding bodies
bodies-append [] ys = refl
bodies-append (x ∷ xs) ys = ap (λ ps. x.payload ∷ ps) (bodies-append xs ys)
