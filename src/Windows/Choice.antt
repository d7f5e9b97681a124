-- ===== src/Windows/Choice.antt =====
-- The media type that is chosen, and the clock of the samples.
use camrtsp.Common.{ℕ, ◌+◌, ◌*◌, ◌≤◌, ◌<◌, ◌≡◌, arith, pos, abs_diff}
use camrtsp.Core.{CameraFormat, StreamConfig, PixelFormat, h264, nv12, yuy2, unknown}
use camrtsp.Windows.H264.{hns_to_90khz}

-- The kinds of pixels, from the one that is wanted most.
pub data IsPreferred : PixelFormat → PixelFormat → Type 0 where
  h264_nv12 : IsPreferred h264 nv12
  nv12_yuy2 : IsPreferred nv12 yuy2
  yuy2_unknown : IsPreferred yuy2 unknown
  further : {a b c : PixelFormat} → IsPreferred a b → IsPreferred b c → IsPreferred a c

-- How far a format is from the size that is asked for, and from the rate.
abbrev pub size_gap : StreamConfig → CameraFormat → ℕ
size_gap config format =
    abs_diff format.width config.requested_width + abs_diff format.height config.requested_height

abbrev pub rate_gap : StreamConfig → CameraFormat → ℕ
rate_gap config format = abs_diff (config.requested_fps * format.fps_den) format.fps_num

-- A format is better than another by its kind, or as good by that and nearer in size, or as good by
-- both and nearer in rate.
pub data IsBetter (config : StreamConfig) (a b : CameraFormat) : Type 0 where
  by_kind : IsPreferred a.pixel_format b.pixel_format → IsBetter config a b
  by_size :
      a.pixel_format ≡ b.pixel_format → size_gap config a < size_gap config b → IsBetter config a b
  by_rate :
      a.pixel_format ≡ b.pixel_format
      → size_gap config a ≡ size_gap config b
      → rate_gap config a < rate_gap config b
      → IsBetter config a b

-- A time whose ninefold fits 64 bits keeps its value up to the rounding: the ticks, of which a
-- second has 90000, are at most one too few for its units, of which a second has 10000000.
pub hns_to_90khz_exact :
    (t : ℕ)
    → t * 9 < 4294967296000
    → (hns_to_90khz (pos t) * 1000 ≤ t * 9) × (t * 9 < (hns_to_90khz (pos t) + 1) * 1000)
unfolding hns_to_90khz
hns_to_90khz_exact t h = (omega arith, omega arith)
