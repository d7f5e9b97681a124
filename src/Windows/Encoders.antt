-- ===== src/Windows/Encoders.antt =====
-- The two drivers of an encoder, and what they publish. What the transform answers is an input; what
-- a driver does is a trace.
use camrtsp.Common.{
  ℕ, ◌+◌, String, Bool, true, false, ◌||◌, not, Option, none, some, List, [], ◌∷◌, ◌++◌, any, ◌==◌,
  Result, ok, err, ℤ, pos,
}
use camrtsp.Core.{CamRtspError, CodecConfig, EncodedAccessUnit}
use camrtsp.Broadcaster.{has_type}
use camrtsp.Sink.{SinkCall, published, configured}
use camrtsp.Windows.H264.{split_h264, codec_config_from_nal_units, hns_to_90khz}
use camrtsp.Windows.Formats.{
  WinError, media_error, in_context, MediaType, codec_config_from_media_type,
}
use camrtsp.Windows.Callbacks.{
  TransformEvent, need_input, have_output, failure_event, Sample, CapturedSample,
}

abbrev pub unwrap_or {ℓ} : {A : Type ℓ} → A → Result WinError A → A
unwrap_or a (ok b) = b
unwrap_or a (err e) = a

-- `CleanPoint` or a unit of type 5
abbrev pub is_keyframe : Sample → List (List ℕ) → Bool
is_keyframe sample units = not (unwrap_or 0 sample.clean_point == 0) || any (has_type 5) units

abbrev pub unit_of : Sample → ℤ → List (List ℕ) → EncodedAccessUnit
unit_of sample timestamp units = record {
  nal_units = units;
  pts_90khz = hns_to_90khz timestamp;
  duration_90khz = hns_to_90khz (unwrap_or (pos 0) sample.duration);
  keyframe = is_keyframe sample units;
}

abbrev pub type_calls : Result WinError MediaType → List SinkCall
type_calls (err e) = []
type_calls (ok media_type) = elim (codec_config_from_media_type media_type) [
  | ok codec ↦ configured codec ∷ []
  | err e ↦ []
]

abbrev pub units_calls : Option CodecConfig → List SinkCall
units_calls none = []
units_calls (some codec) = configured codec ∷ []

-- The calls of the sink, and whether the access unit was good.
abbrev pub Published : Type 0
Published = Result CamRtspError (Unit {0}) × List SinkCall

abbrev pub publish_units : String → Sample → ℤ → List SinkCall → List (List ℕ) → Published
publish_units empty_text sample timestamp before [] = (err empty_text, before)
publish_units empty_text sample timestamp before (nal ∷ nals) = (
  ok tt,
  before
      ++ (units_calls (codec_config_from_nal_units (nal ∷ nals))
          ++ published (unit_of sample timestamp (nal ∷ nals)) ∷ []),
)

abbrev pub publish_bytes : Sample → List SinkCall → Result CamRtspError (List ℕ) → Published
publish_bytes sample before (err e) = (err e, before)
publish_bytes sample before (ok bytes) =
    publish_units "H.264 encoder emitted an empty access unit" sample
      (unwrap_or (pos 0) sample.time) before (split_h264 bytes)

-- `publish_encoded_sample`, with what `GetOutputCurrentType` answers
unfoldable pub publish_encoded_sample : Result WinError MediaType → Sample → Published
unfolding split_h264 codec_config_from_nal_units codec_config_from_media_type hns_to_90khz
publish_encoded_sample output_type sample =
    publish_bytes sample (type_calls output_type) sample.bytes

-- `publish_sample` of the synchronous driver has the same body.
unfoldable pub publish_sample : Result WinError MediaType → Sample → Published
unfolding publish_encoded_sample
publish_sample output_type sample = publish_encoded_sample output_type sample

-- What the transform answers to one `ProcessOutput`, the buffer for it included.
pub record Output : Type 0 where
  pub buffer : Result CamRtspError (Unit {0})  -- `output_buffer`
  pub processed : Result WinError (Unit {0})
  pub sample : Option Sample
  pub output_type : Result WinError MediaType

abbrev pub publish_some : Result WinError MediaType → Option Sample → Published
publish_some output_type none = (ok tt, [])
publish_some output_type (some sample) = publish_encoded_sample output_type sample

abbrev pub after_process : String → Output → Result WinError (Unit {0}) → Published
after_process context output (err e) = (err (media_error context e), [])
after_process context output (ok _) = publish_some output.output_type output.sample

unfoldable pub produce_output : Output → Published
unfolding publish_encoded_sample
produce_output output = elim output.buffer [
  | err e ↦ (err e, [])
  | ok _ ↦
      after_process "hardware H.264 encoder failed while producing output" output output.processed
]

-- What an event-driven driver does: it receives an event, gives the transform a sample, or calls the
-- sink.
pub data Act : Type 0 where
  received : TransformEvent → Act
  process_input : CapturedSample → Act
  sank : SinkCall → Act

abbrev pub sank_all : List SinkCall → List Act
sank_all [] = []
sank_all (call ∷ calls) = sank call ∷ sank_all calls

-- The result, the flag `needs_input`, and what was done.
pub record Pumped : Type 0 where
  pub result : Result CamRtspError (Unit {0})
  pub needs_input : Bool
  pub acts : List Act

abbrev pub after_acts : List Act → Pumped → Pumped
after_acts acts p = record p { acts = acts ++ p.acts }

-- `produce_output(sink)?` before the rest of the loop
abbrev pub then_pump : Bool → Published → Pumped → Pumped
then_pump needs_input (err e, calls) rest = record {
  result = err e;
  needs_input = needs_input;
  acts = sank_all calls;
}
then_pump needs_input (ok _, calls) rest = after_acts (sank_all calls) rest

-- The loop of `pump_events` over the events that have come, until there is none. `answers n` is what
-- the transform answers to the `n`-th output.
unfoldable pub pump_events : List TransformEvent → (ℕ → Output) → ℕ → Bool → Pumped
unfolding produce_output
pump_events [] answers n needs_input = record {
  result = ok tt;
  needs_input = needs_input;
  acts = [];
}
pump_events (need_input ∷ events) answers n needs_input =
    after_acts (received need_input ∷ []) (pump_events events answers n true)
pump_events (have_output ∷ events) answers n needs_input = after_acts (received have_output ∷ []) (
    then_pump needs_input (produce_output (answers n))
      (pump_events events answers (n + 1) needs_input))
pump_events (failure_event error ∷ events) answers n needs_input = record {
  result = err error;
  needs_input = needs_input;
  acts = received (failure_event error) ∷ [];
}

-- One call of `consume`: the events before it and those between `ProcessInput` and the second loop,
-- with the transform's answers.
pub record Consumed : Type 0 where
  pub events_before : List TransformEvent
  pub outputs_before : ℕ → Output
  pub input : Result WinError (Unit {0})
  pub events_after : List TransformEvent
  pub outputs_after : ℕ → Output

abbrev pub give_input : Consumed → CapturedSample → Result WinError (Unit {0}) → Pumped
give_input c captured (err e) = record {
  result = err (media_error "hardware H.264 encoder rejected an input sample" e);
  needs_input = true;
  acts = process_input captured ∷ [];
}
give_input c captured (ok _) =
    after_acts (process_input captured ∷ []) (pump_events c.events_after c.outputs_after 0 false)

-- A sample is dropped while the transform is busy.
abbrev pub input_if_needed : Consumed → CapturedSample → Bool → Pumped
input_if_needed c captured false = record { result = ok tt; needs_input = false; acts = [] }
input_if_needed c captured true = give_input c captured c.input

abbrev pub and_after : Pumped → (Bool → Pumped) → Pumped
and_after p next = elim p.result [ err e ↦ p | ok _ ↦ after_acts p.acts (next p.needs_input) ]

unfoldable pub consume : Consumed → CapturedSample → Bool → Pumped
unfolding pump_events
consume c captured needs_input =
    and_after (pump_events c.events_before c.outputs_before 0 needs_input)
      (input_if_needed c captured)

-- `request_keyframe`: whether there is a codec API, and what `SetValue` answers.
unfoldable pub force_keyframe :
    String → Option (Result WinError (Unit {0})) → Result CamRtspError (Unit {0})
force_keyframe context none =
    err "the selected H.264 encoder does not expose forced-keyframe control"
force_keyframe context (some answer) = in_context context answer
