-- ===== src/Examples/Capture.antt =====
-- The capture for macOS.
use camrtsp.Common.{ℕ, ◌≡◌, true, false, some, List, [], ◌∷◌, ok, err, pos, negsuc, arith, refl}
use camrtsp.Sink.{published, configured}
use camrtsp.Macos.Encoder.{Frame, encoded_frame}
use camrtsp.Macos.Pipeline.{RunningPipeline, request_keyframe}
use camrtsp.Macos.AvccRecord.{written_sample, encoded_frame-written_sample}
use camrtsp.Broadcaster.{BroadcastState, default}
use camrtsp.Sink.Reaching.{Reaches}
use camrtsp.Macos.Delivery.{
  written_config, written_unit, after_frame, written_keyframe-Reaches_viewers,
}
use camrtsp.Macos.Keyframes.{
  Event, requests, captures, run_events, first_taken, request_keyframe_honoured,
}

abbrev sps : List ℕ
sps = 0x67 ∷ 0x42 ∷ 0 ∷ 0x1f ∷ 9 ∷ []

abbrev pps : List ℕ
pps = 0x68 ∷ 0xce ∷ []

abbrev idr : List ℕ
idr = 0x65 ∷ 0x88 ∷ 0x80 ∷ []

-- The second unit is empty.
encoded_frame-written_sample_example :
    encoded_frame false
      (some 3000)
      (some (written_sample true 0x42 0 0x1f sps pps (1 ∷ []) (idr ∷ [] ∷ []) (negsuc 0) (pos 30)))
    ≡ configured (record { sps = sps; pps = pps; profile_level_id = 0x42 ∷ 0 ∷ 0x1f ∷ [] })
      ∷ published (record {
        nal_units = idr ∷ [] ∷ [];
        pts_90khz = 4294964296;
        duration_90khz = 3000;
        keyframe = true;
      })
      ∷ []
encoded_frame-written_sample_example =
    encoded_frame-written_sample 3000 0x42 0 0x1f sps pps (1 ∷ []) idr ([] ∷ []) (negsuc 0) 30
      (omega arith) (omega arith) (omega arith) (omega arith)

abbrev taken : Frame
taken = record { has_image = true; encoded = ok tt }

abbrev refused : Frame
refused = record { has_image = true; encoded = err "busy" }

abbrev events : List Event
events = captures refused ∷ requests ∷ captures taken ∷ captures taken ∷ []

abbrev pipeline : RunningPipeline
pipeline = record {
  force_keyframe = false;
  default_duration_90khz = 3000;
  encoder = record {
    width = 1280;
    height = 720;
    bitrate = 2000000;
    fps = 30;
    max_key_frame_interval = 60;
    require_hardware = true;
  };
}

request_keyframe_honoured_example :
    first_taken (run_events events (request_keyframe (some pipeline)).1) ≡ some true
request_keyframe_honoured_example = request_keyframe_honoured events pipeline

-- One viewer waits, and one has gone.
abbrev viewers : BroadcastState
viewers = record default {
  clients =
      record { id = 0; frames = []; waiting_for_keyframe = true; alive = true }
      ∷ record { id = 1; frames = []; waiting_for_keyframe = true; alive = false }
      ∷ [];
}

written_keyframe-Reaches_viewers_example :
    Reaches (written_config 0x42 0 0x1f sps pps) (written_unit 3000 (idr ∷ []) (pos 2) 30) viewers (
      after_frame 7 3000
        (written_sample true 0x42 0 0x1f sps pps [] (idr ∷ []) (pos 2) (pos 30))
        viewers)
written_keyframe-Reaches_viewers_example =
    written_keyframe-Reaches_viewers 7 3000 0x42 0 0x1f sps pps [] idr [] (pos 2) 30 viewers
      (omega arith) (omega arith) (omega arith) (omega arith) refl refl
