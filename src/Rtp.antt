-- ===== src/Rtp.antt =====
-- crates/camrtsp-rtp/src/lib.rs: H.264 NAL units to RTP payloads, and the RTP header.
pub mod Bounds
pub mod Header
pub mod Reassembly
use camrtsp.Common.{
  ℕ, zero, suc, ◌+◌, ◌-◌, ◌*◌, ◌%◌, bit_and, bit_or, Bool, List, [], ◌∷◌, ◌++◌, length, take, drop,
  leb, ◌==◌, if◌then◌else◌, be16, be32,
}

-- `chunks(size)`. A chunk takes at least one element, so the length is fuel enough.
pub chunks_fuel : ℕ → ℕ → List ℕ → List (List ℕ)
chunks_fuel zero size xs = []
chunks_fuel (suc fuel) size [] = []
chunks_fuel (suc fuel) size (x ∷ xs) =
    take size (x ∷ xs) ∷ chunks_fuel fuel size (drop size (x ∷ xs))

pub chunks : ℕ → List ℕ → List (List ℕ)
unfolding chunks_fuel
chunks size xs = chunks_fuel (length xs) size xs

-- The packet of the `i`-th chunk: FU indicator, FU header with its start and end bits, and the chunk.
pub fragment : ℕ → ℕ → ℕ → ℕ → ℕ → List ℕ → List ℕ
fragment fu_indicator nal_type chunk rest i part =
    let end = leb rest ((i + 1) * chunk) in
    fu_indicator
    ∷ bit_or (bit_or nal_type (if i == 0 then 0x80 else 0)) (if end then 0x40 else 0)
    ∷ part

-- `enumerate().map(…)`, from index `i` on
pub fragments : ℕ → ℕ → ℕ → ℕ → ℕ → List (List ℕ) → List (List ℕ)
fragments fu_indicator nal_type chunk rest i [] = []
fragments fu_indicator nal_type chunk rest i (part ∷ parts) =
    fragment fu_indicator nal_type chunk rest i part
    ∷ fragments fu_indicator nal_type chunk rest (i + 1) parts

-- `nal.len() - 1` is the length of the tail.
unfoldable pub packetize_h264 : List ℕ → ℕ → List (List ℕ)
unfolding chunks fragments fragment
packetize_h264 [] mtu = []
packetize_h264 (header ∷ body) mtu =
    if leb mtu 2
    then []
    else if leb (suc (length body)) mtu
    then (header ∷ body) ∷ []
    else fragments (bit_or (bit_and header 0xe0) 28) (bit_and header 0x1f) (mtu - 2) (length body) 0
        (chunks (mtu - 2) body)

unfoldable pub rtp_packet : List ℕ → ℕ → ℕ → ℕ → Bool → List ℕ
rtp_packet payload sequence timestamp ssrc marker =
    0x80
    ∷ bit_or 96 (if marker then 0x80 else 0)
    ∷ (be16 sequence ++ (be32 timestamp ++ (be32 ssrc ++ payload)))
