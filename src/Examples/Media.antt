-- ===== src/Examples/Media.antt =====
-- Configurations and RTP payloads.
use camrtsp.Common.{ℕ, ◌≤◌, ◌≡◌, refl, ◌↔◌, none, List, [], ◌∷◌, length, All, arith, ok}
use camrtsp.Core.{StreamConfig, auto, resolve, validate, i32_max}
use camrtsp.Core.Bounds.{InRange, validate-InRange, resolve_bounds}
use camrtsp.Rtp.{packetize_h264}
use camrtsp.Rtp.Bounds.{packetize_bounded}
use camrtsp.Rtp.Reassembly.{Receiver, receive_all, packetize_all, receive-packetize_all}

-- The unit test of the crate.
abbrev slice : List ℕ
slice = 0x65 ∷ 1 ∷ 2 ∷ 3 ∷ 4 ∷ 5 ∷ []

fragments_large_nal_as_fu_a :
    packetize_h264 slice 4
    ≡ (0x7c ∷ 0x85 ∷ 1 ∷ 2 ∷ []) ∷ (0x7c ∷ 0x05 ∷ 3 ∷ 4 ∷ []) ∷ (0x7c ∷ 0x45 ∷ 5 ∷ []) ∷ []
unfolding packetize_h264
fragments_large_nal_as_fu_a = refl

abbrev fresh_receiver : Receiver
fresh_receiver = record { partial = none; units = [] }

receive-packetize_all_example :
    (receive_all fresh_receiver (packetize_all ((0x67 ∷ 1 ∷ []) ∷ slice ∷ []) 4)).units
    ≡ (0x67 ∷ 1 ∷ []) ∷ slice ∷ []
receive-packetize_all_example =
    receive-packetize_all fresh_receiver ((0x67 ∷ 1 ∷ []) ∷ slice ∷ []) 4 (omega arith)
      (omega arith)

packetize_bounded_example : All (λ p. length p ≤ 4) (packetize_h264 slice 4)
packetize_bounded_example = packetize_bounded slice 4

abbrev hd : StreamConfig
hd = record {
  camera = b'0' ∷ [];
  requested_width = 1280;
  requested_height = 720;
  requested_fps = 30;
  bitrate = auto;
  gop_seconds = 2;
}

hd_is_valid : validate hd ≡ ok tt
unfolding validate
hd_is_valid = refl

validate-InRange_example : (validate hd ≡ ok tt) ↔ InRange hd
validate-InRange_example = validate-InRange hd

resolve_bounds_example :
    (1 ≤ resolve hd.bitrate 1280 720 30) × (resolve hd.bitrate 1280 720 30 ≤ i32_max)
resolve_bounds_example = resolve_bounds hd 1280 720 30 hd_is_valid
