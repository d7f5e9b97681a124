-- ===== src/Macos/Camera.antt =====
-- `PlatformPipeline` of macOS as the backend of `NativeCamera`, and the command line that runs it.
use camrtsp.Common.{ℕ, Bool, none, some, List, Result, ok, err, ◌≡◌, refl}
use camrtsp.Core.{CamRtspError, StreamConfig, NegotiatedStreamConfig}
use camrtsp.Capture.{Backend, start_keeps}
use camrtsp.Capture
use camrtsp.Cli.{Args}
use camrtsp.Cli.Run.{RunCalls, run}
use camrtsp.Cli.Stopping.{WhenReturned, run-WhenReturned}
use camrtsp.Macos.Devices.{Device, Range, enumerate}
use camrtsp.Macos.Pipeline.{
  Floats, System, RunningPipeline, CapturePipeline, start_stopped, keep_running,
}
use camrtsp.Macos.Pipeline

-- For what is computed with floats, the system's answers and its devices.
abbrev pub macos_backend : Floats Range → System → List Device → Backend CapturePipeline
macos_backend floats system devices = record {
  enumerate = λ pipeline. enumerate devices;
  start = Pipeline.start floats system;
  request_keyframe = Pipeline.request_keyframe;
  stop = Pipeline.stop;
}

abbrev pub IsStopped : CapturePipeline → Type 0
IsStopped pipeline = pipeline ≡ none

kept-IsStopped :
    (started : Result CamRtspError (NegotiatedStreamConfig × RunningPipeline)) (e : CamRtspError)
    → (keep_running started).0 ≡ err e
    → IsStopped (keep_running started).1
kept-IsStopped (ok started) e failed = cc
kept-IsStopped (err error) e failed = refl

start-IsStopped :
    (floats : Floats Range) (system : System) (devices : List Device) (config : StreamConfig)
    (pipeline : CapturePipeline) (e : CamRtspError)
    → IsStopped pipeline
    → (Capture.start (macos_backend floats system devices) config pipeline).0 ≡ err e
    → IsStopped (Capture.start (macos_backend floats system devices) config pipeline).1
unfolding Pipeline.start
start-IsStopped floats system devices config (some running) e stopped failed = cc
start-IsStopped floats system devices config none e stopped failed =
    start_keeps (macos_backend floats system devices) IsStopped config none e stopped
      (kept-IsStopped (start_stopped floats system config) e) failed

stop-IsStopped : (pipeline : CapturePipeline) → IsStopped (Pipeline.stop pipeline).1
unfolding Pipeline.stop
stop-IsStopped pipeline = refl

-- When `run` has returned, the capture of macOS is stopped: after a start that failed, a server that
-- stopped, a camera that went silent, an interrupt of the user, and whatever fails while it stops.
pub run-IsStopped :
    (floats : Floats Range) (system : System) (devices : List Device) (calls : RunCalls) (now : ℕ)
    (args : Args) (lists_devices : Bool)
    → WhenReturned IsStopped
        (run (macos_backend floats system devices) calls now args lists_devices none)
run-IsStopped floats system devices calls now args lists_devices =
    run-WhenReturned (macos_backend floats system devices) IsStopped
      (unfold Capture.stop in stop-IsStopped)
      (λ config pipeline e. start-IsStopped floats system devices config pipeline e) calls now args
      lists_devices none refl
