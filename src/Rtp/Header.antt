-- ===== src/Rtp/Header.antt =====
-- The fixed RTP header of RFC 3550, read back by a parser of its own.
use camrtsp.Common.{
  ℕ, ◌+◌, ◌/◌, ◌%◌, ◌<◌, ◌≡◌, Bool, true, false, Option, none, some, List, ◌∷◌, arith, ◌==◌,
  from_be16, from_be32, length,
}
use camrtsp.Rtp.{rtp_packet}

pub record RtpPacket : Type 0 where
  pub marker : Bool
  pub payload_type : ℕ
  pub sequence : ℕ
  pub timestamp : ℕ
  pub ssrc : ℕ
  pub payload : List ℕ

-- Version 2 with no padding, no extension and no contributing source, which is `0x80`.
pub read_rtp : List ℕ → Option RtpPacket
read_rtp (v ∷ m ∷ s1 ∷ s0 ∷ t3 ∷ t2 ∷ t1 ∷ t0 ∷ c3 ∷ c2 ∷ c1 ∷ c0 ∷ payload) = elim (v == 0x80) [
  | true ↦ some (record {
    marker = m / 128 == 1;
    payload_type = m % 128;
    sequence = from_be16 s1 s0;
    timestamp = from_be32 t3 t2 t1 t0;
    ssrc = from_be32 c3 c2 c1 c0;
    payload = payload;
  })
  | false ↦ none
]
read_rtp _ = none

-- Every field of a packet is read back: the marker, payload type 96, the sequence number, the
-- timestamp, the source and the payload, for numbers that fit their words.
pub read_rtp-rtp_packet :
    (payload : List ℕ) (sequence timestamp ssrc : ℕ) (marker : Bool)
    → sequence < 65536
    → timestamp < 4294967296
    → ssrc < 4294967296
    → read_rtp (rtp_packet payload sequence timestamp ssrc marker)
      ≡ some (record {
        marker = marker;
        payload_type = 96;
        sequence = sequence;
        timestamp = timestamp;
        ssrc = ssrc;
        payload = payload;
      })
unfolding read_rtp rtp_packet
read_rtp-rtp_packet payload sequence timestamp ssrc true hs ht hc = ground arith
read_rtp-rtp_packet payload sequence timestamp ssrc false hs ht hc = ground arith

pub length-rtp_packet :
    (payload : List ℕ) (sequence timestamp ssrc : ℕ) (marker : Bool)
    → length (rtp_packet payload sequence timestamp ssrc marker) ≡ length payload + 12
unfolding rtp_packet
length-rtp_packet payload sequence timestamp ssrc marker = omega arith
