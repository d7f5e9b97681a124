-- ===== src/Core.antt =====
-- crates/camrtsp-core/src/lib.rs: the data that the crates exchange, the check of a stream's
-- configuration and the choice of a bitrate. A `u32` is an ℕ below 2 ^ 32, `Bytes` a list of bytes.
pub mod Bounds
use camrtsp.Common.{
  ℕ, ◌*◌, ◌/◌, ◌<◌, ◌^◌, String, Bool, ◌&&◌, ◌||◌, not, Option, List, in_range, ltb, ◌==◌, min, max,
  if◌then◌else◌, Result, ok, err,
}

-- `CamRtspError`, with its message
abbrev pub CamRtspError : Type 0
CamRtspError = String

pub data CameraPosition : Type 0 where
  front back external unspecified : CameraPosition

pub data PixelFormat : Type 0 where
  nv12 yuy2 h264 unknown : PixelFormat

pub record CameraFormat : Type 0 where
  pub width : ℕ
  pub height : ℕ
  pub fps_num : ℕ
  pub fps_den : ℕ
  pub pixel_format : PixelFormat

-- `CameraId` wraps a text.
pub record CameraDescriptor : Type 0 where
  pub id : List ℕ
  pub name : List ℕ
  pub position : CameraPosition
  pub formats : List CameraFormat

pub data BitrateMode : Type 0 where
  auto : BitrateMode
  bits_per_second : ℕ → BitrateMode

abbrev pub u32_max : ℕ
u32_max = 4294967295

abbrev pub i32_max : ℕ
i32_max = 2147483647

abbrev pub saturating_mul : ℕ → ℕ → ℕ
saturating_mul a b = min (a * b) u32_max

abbrev pub clamp : ℕ → ℕ → ℕ → ℕ
clamp lo hi n = if ltb n lo then lo else if ltb hi n then hi else n

unfoldable pub resolve : BitrateMode → ℕ → ℕ → ℕ → ℕ
resolve auto width height fps =
    clamp 1000000 12000000 (saturating_mul (saturating_mul width height) fps / 10)
resolve (bits_per_second value) width height fps = value

pub record StreamConfig : Type 0 where
  pub camera : List ℕ
  pub requested_width : ℕ
  pub requested_height : ℕ
  pub requested_fps : ℕ
  pub bitrate : BitrateMode
  pub gop_seconds : ℕ

-- `matches!(self.bitrate, BitsPerSecond(n) if n == 0 || n > i32::MAX as u32)`
abbrev pub bad_bitrate : BitrateMode → Bool
bad_bitrate auto = Bool.false
bad_bitrate (bits_per_second n) = n == 0 || ltb i32_max n

unfoldable pub validate : StreamConfig → Result CamRtspError (Unit {0})
validate c =
    if not (in_range 1 16384 c.requested_width)
      || not (in_range 1 16384 c.requested_height)
      || not (in_range 1 240 c.requested_fps)
      || not (in_range 1 60 c.gop_seconds)
      || bad_bitrate c.bitrate
    then err
        "resolution must be 1–16384 per dimension, FPS 1–240, GOP 1–60 seconds, and bitrate 1–2147483647"
    else ok tt

pub record NegotiatedStreamConfig : Type 0 where
  pub camera : CameraDescriptor
  pub width : ℕ
  pub height : ℕ
  pub fps_num : ℕ
  pub fps_den : ℕ
  pub pixel_format : PixelFormat
  pub encoder_name : String
  pub hardware_encoder : Bool

pub record CodecConfig : Type 0 where
  pub sps : List ℕ
  pub pps : List ℕ
  pub profile_level_id : List ℕ

pub record EncodedAccessUnit : Type 0 where
  pub nal_units : List (List ℕ)
  pub pts_90khz : ℕ
  pub duration_90khz : ℕ
  pub keyframe : Bool
