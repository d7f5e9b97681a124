-- ===== src/Examples/Hosts.antt =====
-- The accept loop, the Android bridge and the command line.
use camrtsp.Common.{ℕ, ◌≤◌, ◌≡◌, refl, true, false, none, List, [], ◌∷◌, length, arith, ok, ◌==◌}
use camrtsp.Io.{would_block, interrupted}
use camrtsp.Core.{CameraDescriptor, EncodedAccessUnit, auto, external}
use camrtsp.Text.{chars}
use camrtsp.Broadcaster.{default}
use camrtsp.Transport.{both}
use camrtsp.Server.{connection, no_connection, Round, run_until}
use camrtsp.Server.Limits.{sessions, run_until_bounded}
use camrtsp.Server.Table.{of_list}
use camrtsp.Server.Refinement.{forget_order, promised, run_until-promised}
use camrtsp.Split.{split_h264}
use camrtsp.Split.Avcc.{with_lengths, split_h264-with_lengths}
use camrtsp.Android.{ServerHandle, Servers, CreateCall}
use camrtsp.Cli.{Args, both_transports, stream_config, resolution, bitrate, ranged, find_camera}
use camrtsp.Cli.Arguments.{stream_config_accepts}

abbrev rounds : List Round
rounds =
    record { stopping = false; is_finished = λ _. false; accepted = connection 0 (ok tt) (ok tt) }
    ∷ record { stopping = false; is_finished = λ _. false; accepted = no_connection would_block }
    ∷ []

run_until_bounded_example : length (sessions (run_until rounds)) ≤ 128
run_until_bounded_example = run_until_bounded rounds

abbrev moved : List Round
moved =
    record { stopping = false; is_finished = λ _. false; accepted = connection 1 (ok tt) (ok tt) }
    ∷ record { stopping = false; is_finished = λ _. false; accepted = connection 2 (ok tt) (ok tt) }
    ∷ record { stopping = false; is_finished = λ _. false; accepted = connection 3 (ok tt) (ok tt) }
    ∷ record { stopping = false; is_finished = λ w. w == 1; accepted = no_connection interrupted }
    ∷ record { stopping = true; is_finished = λ _. false; accepted = no_connection would_block }
    ∷ []

run_until-promised_example : forget_order (run_until moved) ≡ promised (of_list []) moved
run_until-promised_example = run_until-promised moved

abbrev two_units : List (List ℕ)
two_units = (0x67 ∷ 1 ∷ []) ∷ (0x68 ∷ []) ∷ []

split_h264-with_lengths_example : split_h264 (with_lengths two_units) ≡ two_units
split_h264-with_lengths_example = split_h264-with_lengths two_units (omega arith) (omega arith)

abbrev create : CreateCall
create = record {
  port = 8554;
  path = ok (chars "/camera");
  username = ok [];
  password = ok [];
  transport = 0;
  listener = ok tt;
  spawned = ok tt;
}

abbrev host : ServerHandle
host = record {
  broadcaster = default;
  stopping = false;
  worker = record { path = chars "/camera"; credentials = none; transport = both };
}

abbrev second : Servers
second = record { next_handle = 2; servers = (1, host) ∷ [] }

abbrev pushed : EncodedAccessUnit
pushed = record {
  nal_units = (0x65 ∷ 1 ∷ []) ∷ [];
  pts_90khz = 90;
  duration_90khz = 0;
  keyframe = true;
}

abbrev webcam : CameraDescriptor
webcam = record { id = chars "cam"; name = chars "Webcam"; position = external; formats = [] }

abbrev arguments : Args
arguments = record {
  camera = chars "0";
  resolution = (640, 480);
  fps = 30;
  bitrate = auto;
  gop = 2;
  path = chars "/camera";
  transport = both_transports;
  username = none;
  password = none;
}

stream_config_accepts_example :
    stream_config arguments (webcam ∷ [])
    ≡ ok (record {
      camera = chars "cam";
      requested_width = 640;
      requested_height = 480;
      requested_fps = 30;
      bitrate = auto;
      gop_seconds = 2;
    })
stream_config_accepts_example =
    stream_config_accepts arguments (webcam ∷ []) webcam (chars "640x480") (chars "Auto")
      (chars "30") (chars "2") (unfold resolution in refl) (unfold bitrate in refl)
      (unfold ranged in refl) (unfold ranged in refl) (unfold find_camera in refl)
