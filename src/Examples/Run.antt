-- ===== src/Examples/Run.antt =====
-- The command line with the capture for macOS.
use camrtsp.Common.{Option, Result, true, false, none, some, [], ◌∷◌, ok, pos, ◌≡◌, refl}
use camrtsp.Text.{chars}
use camrtsp.Core.{auto, validate}
use camrtsp.Capture
use camrtsp.Cli.{Args, both_transports}
use camrtsp.Cli.Run.{RunCalls, WatchStep, Progress, still_watching, returned, RunError, run}
use camrtsp.Cli.Stopping.{WhenReturned}
use camrtsp.Macos.Devices.{Time, Range, DeviceFormat, Device}
use camrtsp.Macos.Pipeline.{Floats, System, CapturePipeline}
use camrtsp.Macos.Pipeline
use camrtsp.Macos.Camera.{macos_backend, IsStopped, run-IsStopped}

abbrev thirtieth : Time
thirtieth = record { value = pos 1; scale = pos 30 }

abbrev floats : Floats Range
floats = record {
  is_below = λ fps range. false;
  is_above = λ fps range. false;
  is_closer = λ fps a b. false;
  rounded_rate = λ time. 30;
}

abbrev device_format : DeviceFormat
device_format = record {
  width = 1280;
  height = 720;
  ranges = record { min_frame_duration = thirtieth; max_frame_duration = thirtieth } ∷ [];
}

abbrev camera : Device
camera = record {
  is_connected = true;
  has_video = true;
  unique_id = chars "cam";
  localized_name = chars "Camera";
  formats = device_format ∷ [];
}

abbrev system : System
system = record {
  permission = ok tt;
  find_device = λ id. some camera;
  printed = λ id. "cam";
  open_input = ok tt;
  supports = λ size. true;
  can_attach = true;
  set_preset = λ size. ok tt;
  active_format = some device_format;
  lock = ok tt;
  set_min_duration = λ time. ok tt;
  set_max_duration = λ time. ok tt;
  encoder = record {
    created = λ settings. ok tt;
    configured = λ settings. ok tt;
    prepared = λ settings. ok tt;
  };
  is_running = true;
}

abbrev args : Args
args = record {
  camera = chars "cam";
  resolution = (1280, 720);
  fps = 30;
  bitrate = auto;
  gop = 2;
  path = chars "/camera";
  transport = both_transports;
  username = none;
  password = none;
}

abbrev step : WatchStep
step = record {
  delivered = [];
  at = 100;
  seen = record { shutdown = true; server_finished = false; elapsed_ms = 50; now = 100 };
  signal = ok tt;
}

abbrev calls : RunCalls
calls = record {
  listener = ok tt;
  address = ok (record {
    is_ipv4 = true;
    is_unspecified = true;
    is_loopback = false;
    ip = chars "0.0.0.0";
    port = 8554;
  });
  at_start = [];
  runtime = ok tt;
  steps = step ∷ [];
  server_result = some (ok tt);
}

run-IsStopped_example :
    WhenReturned IsStopped (run (macos_backend floats system (camera ∷ [])) calls 7 args false none)
run-IsStopped_example = run-IsStopped floats system (camera ∷ []) calls 7 args false

abbrev result_of : Progress CapturePipeline → Option (Result RunError (Unit {0}))
result_of (still_watching s source) = none
result_of (returned result s source) = some result

-- The user ends this run.
run_interrupted :
    result_of (run (macos_backend floats system (camera ∷ [])) calls 7 args false none)
    ≡ some (ok tt)
unfolding run Capture.start Capture.enumerate Capture.stop Pipeline.start Pipeline.stop validate
    camrtsp.Macos.Devices.enumerate
run_interrupted = refl
