-- ===== src/Windows/Pipeline.antt =====
-- The start of the worker, and `PlatformPipeline`, which starts it, asks it for keyframes and stops it.
use camrtsp.Common.{
  ℕ, String, Bool, true, false, Option, none, some, List, [], ◌∷◌, if◌then◌else◌, Result, ok, err,
  ◌>>=◌, ok_or, same,
}
use Prim.Native.String.{◌++◌ as text_append}
use camrtsp.Core.{
  CamRtspError, CameraFormat, CameraDescriptor, PixelFormat, h264, external, NegotiatedStreamConfig,
  StreamConfig,
}
use camrtsp.Sink.{SinkCall, configured}
use camrtsp.Windows.Formats.{
  WinError, in_context, MediaType, NativeTypes, choose_media_type, codec_config_from_media_type,
  DeviceActivation, enumerate_devices,
}
use camrtsp.Windows.Callbacks.{new_reader, set_reader}
use camrtsp.Windows.Synchronous.{Driver, asynchronous, synchronous, new_driver}
use camrtsp.Windows.Worker.{
  PipelineMode, passthrough, event_driven, driven, WorkerState, name_of, is_hardware,
}

-- `MediaFoundationRuntime::new`, from what `CoInitializeEx` and `MFStartup` answer.
unfoldable pub new_runtime :
    Result WinError (Unit {0}) → Result WinError (Unit {0}) → Result CamRtspError (Unit {0})
new_runtime initialized started = do
  apartment ← in_context "unable to initialize COM MTA" initialized
  in_context "unable to initialize Media Foundation" started

unfoldable pub enumerate :
    Result CamRtspError (Unit {0})
    → Result CamRtspError (List DeviceActivation)
    → Result CamRtspError (List CameraDescriptor)
unfolding enumerate_devices
enumerate runtime activations = do started ← runtime; enumerate_devices activations

unfoldable pub find_activation : List ℕ → List DeviceActivation → Option DeviceActivation
unfolding same
find_activation id [] = none
find_activation id (device ∷ devices) =
    if same device.id id then some device else find_activation id devices

-- `printed` is the text of an identifier, for the message.
unfoldable pub find_device :
    (List ℕ → String)
    → Result CamRtspError (List DeviceActivation)
    → List ℕ
    → Result CamRtspError DeviceActivation
unfolding find_activation
find_device printed activations id = do
  devices ← activations
  ok_or (text_append "camera '" (text_append (printed id) "' was not found"))
      (find_activation id devices)

-- The answers of the system to the start of the worker, in the order of its calls. `activations` is
-- what `video_device_activations` gives, and the last but one are the encoders of the two kinds, each
-- with what its activation gives.
pub record Startup : Type 0 where
  pub printed : List ℕ → String
  pub runtime : Result CamRtspError (Unit {0})
  pub activations : Result CamRtspError (List DeviceActivation)
  pub activated : Result WinError (Unit {0})
  pub attributes : Result CamRtspError (Unit {0})
  pub callback_set : Result WinError (Unit {0})
  pub low_latency_set : Result WinError (Unit {0})
  pub transforms_enabled : Result WinError (Unit {0})
  pub reader : Result WinError NativeTypes
  pub type_set : MediaType → Result WinError (Unit {0})
  pub hardware : CameraFormat → Result CamRtspError (List (Result CamRtspError (Unit {0})))
  pub software : CameraFormat → Result CamRtspError (List (Result CamRtspError (Unit {0})))
  pub first_read : Result WinError (Unit {0})

abbrev pub mode_of_driver : Driver → PipelineMode
mode_of_driver asynchronous = event_driven false
mode_of_driver synchronous = driven

-- The mode, with the call of the sink that a camera's own H.264 starts with.
abbrev pub chosen_mode :
    Startup
    → MediaType × CameraFormat
    → PixelFormat
    → Result CamRtspError (PipelineMode × List SinkCall)
chosen_mode s selected h264 = do
  codec ← codec_config_from_media_type selected.0
  ok (passthrough codec, configured codec ∷ [])
chosen_mode s selected _ = do
  driver ← new_driver (s.hardware selected.1) (s.software selected.1)
  ok (mode_of_driver driver, [])

unfoldable pub open_reader :
    Startup → StreamConfig → Result CamRtspError (DeviceActivation × (MediaType × CameraFormat))
unfolding find_device choose_media_type
open_reader s config = do
  runtime ← s.runtime
  device ← find_device s.printed s.activations config.camera
  source ← in_context "unable to activate selected camera" s.activated
  attributes ← s.attributes
  callback ← in_context "unable to set Source Reader callback" s.callback_set
  latency ← in_context "unable to set low latency capture" s.low_latency_set
  transforms ← in_context "unable to enable hardware transforms" s.transforms_enabled
  native ← in_context "unable to create Source Reader" s.reader
  selected ← choose_media_type config native
  accepted ← in_context "camera rejected selected media type" (s.type_set selected.0)
  ok (device, selected)

abbrev pub negotiated_of :
    StreamConfig → DeviceActivation → CameraFormat → PipelineMode → NegotiatedStreamConfig
negotiated_of config device format mode = record {
  camera = record {
    id = config.camera;
    name = device.name;
    position = external;
    formats = format ∷ [];
  };
  width = format.width;
  height = format.height;
  fps_num = format.fps_num;
  fps_den = format.fps_den;
  pixel_format = format.pixel_format;
  encoder_name = name_of mode;
  hardware_encoder = is_hardware mode;
}

-- The first read, after the mode is chosen: what was negotiated and the worker's state, or the error,
-- with the calls of the sink that were made all the same.
abbrev pub Started : Type 0
Started = Result CamRtspError (NegotiatedStreamConfig × WorkerState) × List SinkCall

abbrev pub first_state : PipelineMode → List SinkCall → WorkerState
first_state mode calls = record {
  reader = set_reader new_reader;
  mode = mode;
  calls = calls;
  requests = 0;
}

abbrev pub read_first :
    Startup
    → StreamConfig
    → DeviceActivation
    → CameraFormat
    → Result CamRtspError (PipelineMode × List SinkCall)
    → Started
read_first s config device format (err e) = (err e, [])
read_first s config device format (ok (mode, calls)) = (
  in_context "unable to start camera capture" s.first_read >>= λ _.
      ok (negotiated_of config device format mode, first_state mode calls),
  calls,
)

-- The worker up to its loop.
unfoldable pub start_worker : Startup → StreamConfig → Started
unfolding open_reader codec_config_from_media_type set_reader new_driver
start_worker s config = elim (open_reader s config) [
  | err e ↦ (err e, [])
  | ok (device, selected) ↦
      read_first s config device selected.1 (chosen_mode s selected selected.1.pixel_format)
]

-- `worker`: what it sends to the one that started it.
abbrev pub sent : Started → Result CamRtspError NegotiatedStreamConfig
sent (ok (negotiated, state), calls) = ok negotiated
sent (err e, calls) = err e

-- `PlatformPipeline`: whether it has a running pipeline.
abbrev pub CapturePipeline : Type 0
CapturePipeline = Bool

-- What the worker sends when it starts, or none if it is gone before.
abbrev pub started_with :
    Option (Result CamRtspError NegotiatedStreamConfig)
    → Result CamRtspError NegotiatedStreamConfig × CapturePipeline
started_with (some (ok negotiated)) = (ok negotiated, true)
started_with (some (err e)) = (err e, false)
started_with none = (err "Media Foundation worker exited during startup", false)

abbrev pub spawned_with :
    Result String (Unit {0})
    → Option (Result CamRtspError NegotiatedStreamConfig)
    → Result CamRtspError NegotiatedStreamConfig × CapturePipeline
spawned_with (err e) startup =
    (err (text_append "unable to start Media Foundation worker: " e), false)
spawned_with (ok _) startup = started_with startup

unfoldable pub start :
    Result String (Unit {0})
    → Option (Result CamRtspError NegotiatedStreamConfig)
    → CapturePipeline
    → Result CamRtspError NegotiatedStreamConfig × CapturePipeline
start spawned startup true = (err "camera pipeline is already running", true)
start spawned startup false = spawned_with spawned startup

-- `has_worker` is whether the worker still receives commands.
unfoldable pub request_keyframe : Bool → CapturePipeline → Result CamRtspError (Unit {0})
request_keyframe has_worker false = err "camera pipeline is not running"
request_keyframe has_worker true =
    if has_worker then ok tt else err "Media Foundation worker is no longer available"

-- A running worker is told to stop and joined.
unfoldable pub stop : CapturePipeline → Result CamRtspError (Unit {0}) × CapturePipeline
stop pipeline = (ok tt, false)
