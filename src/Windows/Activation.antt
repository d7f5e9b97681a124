-- ===== src/Windows/Activation.antt =====
-- What the worker asks of Media Foundation to reach the cameras, the encoders and the bytes of a
-- sample: each call's answer is an input, and the first that fails ends the operation.
use Prim.Native.String.{◌++◌ as text_append}
use camrtsp.Common.{
  ℕ, String, Bool, true, false, Option, List, [], ◌∷◌, ◌==◌, not, if◌then◌else◌, Result, ok, err,
  ◌>>=◌, ok_or, map_err,
}
use camrtsp.Core.{CamRtspError, CameraFormat}
use camrtsp.Windows.Formats.{WinError, in_context, DeviceActivation}
use camrtsp.Windows.Callbacks.{EventState, new_events, install}
use camrtsp.Windows.OutputType.{Setting}

-- `sample_bytes`: the buffer made contiguous, and its bytes once it is locked.
unfoldable pub sample_bytes :
    Result WinError (Unit {0}) → Result WinError (List ℕ) → Result CamRtspError (List ℕ)
sample_bytes contiguous locked = do
  buffer ← in_context "unable to access H.264 sample buffer" contiguous
  in_context "unable to lock H.264 sample buffer" locked

-- `allocated_string`: the text, or the error of its UTF-16.
unfoldable pub allocated_string :
    Result WinError (Result String (List ℕ)) → Result CamRtspError (List ℕ)
allocated_string answer = do
  text ← in_context "unable to read camera attribute" answer
  map_err (text_append "camera attribute is not valid UTF-16: ") text

unfoldable pub create_attributes :
    String → Result WinError (Option (Unit {0})) → Result CamRtspError (Unit {0})
create_attributes context answer = do
  attributes ← in_context context answer
  ok_or (text_append context ": Media Foundation returned no attribute store") attributes

-- A place of the array that `MFEnumDeviceSources` gives: its friendly name, its symbolic link, and
-- what enumerating its formats answers.
pub record Activate : Type 0 where
  pub friendly_name : Result WinError (Result String (List ℕ))
  pub symbolic_link : Result WinError (Result String (List ℕ))
  pub formats : Result CamRtspError (List CameraFormat)

abbrev pub activation_of : Option Activate → Result CamRtspError DeviceActivation
activation_of place = do
  activation ← ok_or "Media Foundation returned an invalid camera activation" place
  name ← allocated_string activation.friendly_name
  id ← allocated_string activation.symbolic_link
  ok (record { name = name; id = id; formats = activation.formats })

unfoldable pub activations_of : List (Option Activate) → Result CamRtspError (List DeviceActivation)
unfolding allocated_string
activations_of [] = ok []
activations_of (place ∷ places) =
    activation_of place >>= λ device. activations_of places >>= λ devices. ok (device ∷ devices)

unfoldable pub video_device_activations :
    Result WinError (Option (Unit {0}))
    → Result WinError (Unit {0})
    → Result WinError (List (Option Activate))
    → Result CamRtspError (List DeviceActivation)
unfolding create_attributes activations_of
video_device_activations created selected enumerated = do
  attributes ← create_attributes "unable to create device attributes" created
  chosen ← in_context "unable to select video capture devices" selected
  places ← in_context "unable to enumerate video devices" enumerated
  activations_of places

-- `output_buffer`: a sample is made unless the encoder brings its own.
pub record SampleCalls : Type 0 where
  pub created : Result WinError (Unit {0})
  pub allocated : Result WinError (Unit {0})
  pub attached : Result WinError (Unit {0})

abbrev pub made_sample : SampleCalls → Result CamRtspError (Unit {0})
made_sample calls = do
  sample ← in_context "unable to allocate encoder output sample" calls.created
  buffer ← in_context "unable to allocate encoder output buffer" calls.allocated
  in_context "unable to attach encoder output buffer" calls.attached

unfoldable pub output_buffer : Bool → SampleCalls → Result CamRtspError (Unit {0})
output_buffer provides_samples calls = if provides_samples then ok tt else made_sample calls

-- What an encoder answers when it is activated. `output` is what `h264_output_type` gives.
pub record EncoderAnswers : Type 0 where
  pub activated : Result WinError (Unit {0})
  pub attributes : Result WinError (Unit {0})
  pub transform_async : Result WinError ℕ
  pub generator : Result WinError (Unit {0})
  pub output : Result CamRtspError (List Setting)
  pub output_set : List Setting → Result WinError (Unit {0})
  pub input_set : Result WinError (Unit {0})
  pub stream_info : Result WinError (Unit {0})
  pub begun : Result WinError (Unit {0})

abbrev pub is_async : Result WinError ℕ → Bool
is_async (ok n) = not (n == 0)
is_async (err e) = false

abbrev pub require_async : Bool → Result CamRtspError (Unit {0})
require_async true = ok tt
require_async false = err "hardware H.264 encoder did not expose asynchronous MFT support"

-- The event-driven encoder: the state of its callback, once the first event is asked for.
unfoldable pub activate_asynchronous : EncoderAnswers → Result CamRtspError EventState
unfolding install
activate_asynchronous answers = do
  transform ← in_context "unable to activate hardware H.264 encoder" answers.activated
  attributes ← in_context "unable to query hardware H.264 encoder attributes" answers.attributes
  is_supported ← require_async (is_async answers.transform_async)
  generator ← in_context "hardware H.264 encoder has no event generator" answers.generator
  output ← answers.output
  typed ← in_context "hardware H.264 encoder rejected its output type" (answers.output_set output)
  fed ← in_context "hardware H.264 encoder rejected the camera media type" answers.input_set
  info ← in_context "unable to query hardware H.264 output" answers.stream_info
  let (begun, events) = install answers.begun new_events
  begun >>= λ _. ok events

unfoldable pub activate_synchronous : EncoderAnswers → Result CamRtspError (Unit {0})
activate_synchronous answers = do
  transform ← in_context "unable to activate H.264 encoder" answers.activated
  output ← answers.output
  typed ← in_context "H.264 encoder rejected its output type" (answers.output_set output)
  fed ← in_context "H.264 encoder rejected the camera media type" answers.input_set
  in_context "unable to query H.264 encoder output" answers.stream_info
