-- ===== src/Macos/Pipeline.antt =====
-- `PlatformPipeline`: start, keyframe requests and stop. The answers of the system are one record,
-- `System`; what is computed with floats is a parameter. What is written down of a running pipeline is
-- its flag, the duration of a frame and the encoder's settings.
use Prim.Native.String.{◌++◌ as text_append}
use camrtsp.Common.{
  ℕ, ◌*◌, ◌/◌, ◌%◌, String, Bool, true, false, ◌&&◌, Option, none, some, List, [], ◌∷◌, map, leb,
  max, if◌then◌else◌, Result, ok, err, ◌>>=◌, ok_or, map_err, pos, is_positive, max_zero, as_u32,
  min_by,
}
use camrtsp.Core.{
  CamRtspError, CameraFormat, external, unknown, StreamConfig, resolve, NegotiatedStreamConfig,
}
use camrtsp.Macos.Devices.{Time, Range, DeviceFormat, Device, choose_preset}

-- What is computed with floats: whether the requested rate is below or above the range, whether the
-- rate of one duration is strictly closer to the requested one than that of another, and
-- `(scale / value).round().max(1.0) as u32`.
pub record Floats (Range : Type 0) : Type 0 where
  pub is_below : ℕ → Range → Bool
  pub is_above : ℕ → Range → Bool
  pub is_closer : ℕ → Time → Time → Bool
  pub rounded_rate : Time → ℕ

-- What `new_encoder` sets, and what it is made with.
pub record EncoderSettings : Type 0 where
  pub width : ℕ
  pub height : ℕ
  pub bitrate : ℕ
  pub fps : ℕ
  pub max_key_frame_interval : ℕ
  pub require_hardware : Bool

-- The results of creating the session, of `set_props` and of `prepare`.
pub record EncoderCalls : Type 0 where
  pub created : EncoderSettings → Result String (Unit {0})
  pub configured : EncoderSettings → Result String (Unit {0})
  pub prepared : EncoderSettings → Result String (Unit {0})

-- `fps * gop_seconds.max(1)` as a product of `u32`s that wraps
abbrev pub encoder_settings : ℕ → ℕ → ℕ → ℕ → ℕ → Bool → EncoderSettings
encoder_settings width height fps bitrate gop_seconds require_hardware = record {
  width = width;
  height = height;
  bitrate = bitrate;
  fps = fps;
  max_key_frame_interval = fps * max gop_seconds 1 % 4294967296;
  require_hardware = require_hardware;
}

unfoldable pub new_encoder : EncoderCalls → EncoderSettings → Result CamRtspError EncoderSettings
new_encoder calls settings = do
  created ← map_err (text_append "VideoToolbox H.264 setup failed: ") (calls.created settings)
  configured ←
      map_err (text_append "VideoToolbox configuration failed: ") (calls.configured settings)
  prepared ← map_err (text_append "VideoToolbox prepare failed: ") (calls.prepared settings)
  ok settings

-- The hardware encoder first, and a software encoder where that fails.
abbrev pub fall_back :
    Result CamRtspError EncoderSettings
    → Result CamRtspError EncoderSettings
    → Result CamRtspError EncoderSettings
fall_back (ok encoder) software = ok encoder
fall_back (err error) (ok encoder) = ok encoder
fall_back (err error) (err fallback_error) = err (
    text_append "hardware VideoToolbox setup failed (" (
      text_append error
        (text_append "); software fallback failed (" (text_append fallback_error ")"))))

unfoldable pub frame_duration : Floats Range → ℕ → Range → Time
frame_duration floats fps range =
    if floats.is_below fps range
    then range.max_frame_duration
    else if floats.is_above fps range
    then range.min_frame_duration
    else record { value = pos 1; scale = pos fps }

abbrev pub is_valid_duration : Time → Bool
is_valid_duration time =
    is_positive time.value && is_positive time.scale && leb (max_zero time.value) 4294967295

-- The answers of the system to `start`, in the order of its calls.
pub record System : Type 0 where
  pub permission : Result CamRtspError (Unit {0})  -- `ensure_camera_authorized`
  pub find_device : List ℕ → Option Device
  pub printed : List ℕ → String  -- the text of an identifier, for a message
  pub open_input : Result String (Unit {0})
  pub supports : ℕ × ℕ → Bool
  pub can_attach : Bool  -- `can_add_input` and `can_add_output`
  pub set_preset : ℕ × ℕ → Result String (Unit {0})
  pub active_format : Option DeviceFormat
  pub lock : Result String (Unit {0})
  pub set_min_duration : Time → Result String (Unit {0})
  pub set_max_duration : Time → Result String (Unit {0})
  pub encoder : EncoderCalls
  pub is_running : Bool  -- after `start_running`

pub record RunningPipeline : Type 0 where
  pub force_keyframe : Bool
  pub default_duration_90khz : ℕ
  pub encoder : EncoderSettings

abbrev pub CapturePipeline : Type 0
CapturePipeline = Option RunningPipeline

abbrev pub require : Bool → String → Result CamRtspError (Unit {0})
require true m = ok tt
require false m = err m

-- `90_000 * value as u64 / scale as u64`, as a `u32`
abbrev pub duration_90khz : Time → ℕ
duration_90khz time =
    90000 * max_zero time.value % 18446744073709551616 / max_zero time.scale % 4294967296

unfoldable pub open_camera : System → StreamConfig → Result CamRtspError (Device × DeviceFormat)
unfolding choose_preset
open_camera system config = do
  allowed_now ← system.permission
  device ←
      ok_or (text_append "camera '" (text_append (system.printed config.camera) "' was not found"))
        (system.find_device config.camera)
  opened ← map_err (text_append "unable to open camera: ") system.open_input
  attached ← require system.can_attach "camera session cannot attach capture input/output"
  preset ← map_err (text_append "camera rejected resolution preset: ") (
      system.set_preset
        (choose_preset system.supports config.requested_width config.requested_height))
  active ← ok_or "camera has no active format" system.active_format
  ok (device, active)

unfoldable pub set_rate : Floats Range → System → ℕ → List Range → Result CamRtspError Time
unfolding frame_duration min_by
set_rate floats system fps ranges = do
  duration ←
      ok_or "camera has no supported frame rates"
        (min_by (floats.is_closer fps) (map (frame_duration floats fps) ranges))
  valid ← require (is_valid_duration duration) "camera returned an invalid frame duration"
  locked ← map_err (text_append "cannot configure camera: ") system.lock
  shortest ←
      map_err (text_append "camera rejected minimum frame duration: ")
        (system.set_min_duration duration)
  longest ←
      map_err (text_append "camera rejected maximum frame duration: ")
        (system.set_max_duration duration)
  ok duration

unfoldable pub start_encoder :
    Floats Range → System → StreamConfig → ℕ → ℕ → Time → Result CamRtspError EncoderSettings
unfolding new_encoder resolve
start_encoder floats system config width height duration =
    let fps = floats.rounded_rate duration in
    let bitrate = resolve config.bitrate width height fps in
    let settings = encoder_settings width height fps bitrate config.gop_seconds in
    fall_back (new_encoder system.encoder (settings true))
      (new_encoder system.encoder (settings false))

unfoldable pub start_stopped :
    Floats Range
    → System
    → StreamConfig
    → Result CamRtspError (NegotiatedStreamConfig × RunningPipeline)
unfolding open_camera set_rate start_encoder
start_stopped floats system config = do
  (device, active) ← open_camera system config
  duration ← set_rate floats system config.requested_fps active.ranges
  encoder ← start_encoder floats system config active.width active.height duration
  started ← require system.is_running "AVFoundation could not start the camera session"
  let format : CameraFormat = record {
    width = active.width;
    height = active.height;
    fps_num = as_u32 duration.scale;
    fps_den = as_u32 duration.value;
    pixel_format = unknown;
  }
  ok (
    record {
      camera = record {
        id = config.camera;
        name = device.localized_name;
        position = external;
        formats = format ∷ [];
      };
      width = active.width;
      height = active.height;
      fps_num = as_u32 duration.scale;
      fps_den = as_u32 duration.value;
      pixel_format = unknown;
      encoder_name = "VideoToolbox H.264";
      hardware_encoder = encoder.require_hardware;
    },
    record {
      force_keyframe = false;
      default_duration_90khz = duration_90khz duration;
      encoder = encoder;
    },
  )

abbrev pub keep_running :
    Result CamRtspError (NegotiatedStreamConfig × RunningPipeline)
    → Result CamRtspError NegotiatedStreamConfig × CapturePipeline
keep_running (err e) = (err e, none)
keep_running (ok (negotiated, running)) = (ok negotiated, some running)

unfoldable pub start :
    Floats Range
    → System
    → StreamConfig
    → CapturePipeline
    → Result CamRtspError NegotiatedStreamConfig × CapturePipeline
unfolding start_stopped
start floats system config (some running) = (err "camera pipeline is already running", some running)
start floats system config none = keep_running (start_stopped floats system config)

unfoldable pub request_keyframe : CapturePipeline → Result CamRtspError (Unit {0}) × CapturePipeline
request_keyframe none = (err "camera is not running", none)
request_keyframe (some running) = (ok tt, some (record running { force_keyframe = true }))

-- The system's calls that stop the session and finish the encoder are not modelled.
unfoldable pub stop : CapturePipeline → Result CamRtspError (Unit {0}) × CapturePipeline
stop pipeline = (ok tt, none)
