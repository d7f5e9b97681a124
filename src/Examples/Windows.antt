-- ===== src/Examples/Windows.antt =====
-- The capture for Windows.
use camrtsp.Common.{ℕ, ◌≡◌, Bool, true, false, none, some, List, [], ◌∷◌, ok, err, pos, arith, refl}
use camrtsp.Core.{CodecConfig, StreamConfig, auto, CameraFormat, nv12}
use camrtsp.Macos.Avcc.{parse_avcc_config}
use camrtsp.Macos.AvccRecord.{avcc_record}
use camrtsp.Windows.H264.{codec_config_from_nal_units, split_h264, codec_config_from_avcc}
use camrtsp.Windows.AnnexB.{with_starts, has_start, units_of, split_h264-with_starts}
use camrtsp.Windows.Sequences.{codec_config_from_avcc_agrees}
use camrtsp.Windows.Formats.{WinError, MediaType, NativeTypes, h264_subtype, nv12_subtype}
use camrtsp.Windows.Callbacks.{Sample, CapturedSample, ReadCall, need_input, have_output}
use camrtsp.Windows.Encoders.{Consumed, Output, unit_of, publish_encoded_sample}
use camrtsp.Windows.Delivery.{encoded_sample-Reaches_viewers}
use camrtsp.Sink.{apply_calls}
use camrtsp.Sink.Reaching.{Reaches}
use camrtsp.Broadcaster.{BroadcastState, default}
use camrtsp.Windows.Synchronous.{Drain, accepted}
use camrtsp.Windows.Protocol.{consume_all, Obeys, consume_all-Obeys}
use camrtsp.Windows.Worker.{
  Turn, WorkerState, event_driven, no_command, Step, calls_back, goes_round, Shutdown, run_worker,
}
use camrtsp.Windows.Frames.{IsBounded, run_worker-IsBounded}

-- The first unit behind a start code of four bytes, the second behind one of three.
abbrev units : List (Bool × List ℕ)
units = (true, 0x67 ∷ 0 ∷ 0 ∷ 9 ∷ []) ∷ (false, 0x68 ∷ 5 ∷ []) ∷ []

split_h264-with_starts_example : split_h264 (with_starts units) ≡ units_of units
split_h264-with_starts_example = split_h264-with_starts units (
  (omega arith, unfold has_start in refl, refl),
  ((omega arith, unfold has_start in refl, refl), tt),
)

codec_config_from_avcc_agrees_example :
    codec_config_from_avcc (avcc_record 66 0 31 (0x67 ∷ 66 ∷ 0 ∷ 31 ∷ []) (0x68 ∷ 206 ∷ []) [])
    ≡ parse_avcc_config (avcc_record 66 0 31 (0x67 ∷ 66 ∷ 0 ∷ 31 ∷ []) (0x68 ∷ 206 ∷ []) [])
codec_config_from_avcc_agrees_example =
    codec_config_from_avcc_agrees 0x67 66 0 31 [] (0x68 ∷ 206 ∷ []) [] (omega arith) (omega arith)
      refl refl

abbrev failed : WinError
failed = record { code = 1; text = "failed" }

abbrev nv12_type : MediaType
nv12_type = record {
  subtype = ok nv12_subtype;
  frame_size = ok 5497558139600;
  frame_rate = err failed;
  blob_size = err failed;
  sequence_header = err failed;
}

abbrev h264_type : MediaType
h264_type = record nv12_type { subtype = ok h264_subtype }

abbrev native : NativeTypes
native = record { types = nv12_type ∷ h264_type ∷ []; stopped_by = none }

abbrev wanted : StreamConfig
wanted = record {
  camera = [];
  requested_width = 1280;
  requested_height = 720;
  requested_fps = 30;
  bitrate = auto;
  gop_seconds = 2;
}

abbrev format : CameraFormat
format = record { width = 1280; height = 720; fps_num = 30; fps_den = 1; pixel_format = nv12 }

abbrev sample : Sample
sample = record {
  bytes = ok (0 ∷ 0 ∷ 0 ∷ 1 ∷ 0x65 ∷ []);
  clean_point = ok 1;
  time = ok (pos 0);
  duration = ok (pos 333333);
}

abbrev captured : CapturedSample
captured = record { sample = sample; timestamp = pos 0 }

abbrev output : ℕ → Output
output n = record {
  buffer = ok tt;
  processed = ok tt;
  sample = some sample;
  output_type = err failed;
}

abbrev consumption : Consumed
consumption = record {
  events_before = need_input ∷ [];
  outputs_before = output;
  input = ok tt;
  events_after = have_output ∷ need_input ∷ [];
  outputs_after = output;
}

consume_all-Obeys_example :
    Obeys false (consume_all ((consumption, captured) ∷ (consumption, captured) ∷ []) false)
consume_all-Obeys_example =
    consume_all-Obeys ((consumption, captured) ∷ (consumption, captured) ∷ []) false

abbrev call : ReadCall
call = record {
  is_good = true;
  type_changed = false;
  status_text = "0";
  sample = some sample;
  timestamp = pos 0;
  next_read = ok tt;
}

abbrev nothing : Drain
nothing = record { rounds = []; last_buffer = ok tt; stopped_by = none }

abbrev turn : Turn
turn = record {
  polled = no_command;
  keyframe_answer = none;
  answers = record {
    asynchronous_answers = consumption;
    synchronous_answers = record {
      before = nothing;
      input = accepted;
      between = nothing;
      second_input = accepted;
      after = nothing;
    };
    not_accepting_error = failed;
  };
}

abbrev waiting : List CapturedSample
waiting =
    captured ∷ captured ∷ captured ∷ captured ∷ captured ∷ captured ∷ captured ∷ captured ∷ captured
    ∷ captured ∷ captured ∷ captured ∷ captured ∷ captured ∷ captured ∷ captured ∷ []

abbrev full : WorkerState
full = record {
  reader = record {
    samples = waiting;
    has_reader = true;
    alive = true;
    discontinuity = false;
    failure = none;
  };
  mode = event_driven false;
  calls = [];
  requests = 0;
}

abbrev last : Shutdown
last = record { events = []; outputs = output; drained = nothing }

abbrev steps : List Step
steps = calls_back call ∷ goes_round turn ∷ calls_back call ∷ []

run_worker-IsBounded_example : IsBounded (run_worker last steps full).1.reader
run_worker-IsBounded_example = run_worker-IsBounded last steps full (omega arith)

-- An SPS, a PPS and an IDR slice.
abbrev whole_unit : List (Bool × List ℕ)
whole_unit =
    (true, 0x67 ∷ 0x42 ∷ 0 ∷ 0x1f ∷ []) ∷ (false, 0x68 ∷ 0xce ∷ []) ∷ (true, 0x65 ∷ 0x88 ∷ []) ∷ []

abbrev encoded : Sample
encoded = record {
  bytes = ok (with_starts whole_unit);
  clean_point = err failed;
  time = ok (pos 20000);
  duration = ok (pos 333333);
}

abbrev found_config : CodecConfig
found_config = record {
  sps = 0x67 ∷ 0x42 ∷ 0 ∷ 0x1f ∷ [];
  pps = 0x68 ∷ 0xce ∷ [];
  profile_level_id = 0x42 ∷ 0 ∷ 0x1f ∷ [];
}

abbrev watched : BroadcastState
watched = record default {
  clients = record { id = 0; frames = []; waiting_for_keyframe = true; alive = true } ∷ [];
}

encoded_sample-Reaches_viewers_example :
    Reaches found_config
      (unit_of encoded (pos 20000) (units_of whole_unit))
      watched
      (apply_calls 5 (publish_encoded_sample (err failed) encoded).1 watched)
encoded_sample-Reaches_viewers_example =
    encoded_sample-Reaches_viewers 5 (err failed) encoded found_config true
      (0x67 ∷ 0x42 ∷ 0 ∷ 0x1f ∷ []) ((false, 0x68 ∷ 0xce ∷ []) ∷ (true, 0x65 ∷ 0x88 ∷ []) ∷ [])
      watched refl
      (
        (omega arith, unfold has_start in refl, refl),
        (
          (omega arith, unfold has_start in refl, refl),
          ((omega arith, unfold has_start in refl, refl), tt),
        ),
      )
      (unfold codec_config_from_nal_units in refl) refl
