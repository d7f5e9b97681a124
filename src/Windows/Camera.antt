-- ===== src/Windows/Camera.antt =====
-- `PlatformPipeline` of Windows as the backend of `NativeCamera`, and the command line that runs it.
use camrtsp.Common.{ℕ, String, Bool, true, false, Option, none, some, Result, ok, err, ◌≡◌, refl}
use camrtsp.Core.{CamRtspError, StreamConfig, NegotiatedStreamConfig}
use camrtsp.Capture.{Backend, start_keeps}
use camrtsp.Capture
use camrtsp.Cli.{Args}
use camrtsp.Cli.Run.{RunCalls, run}
use camrtsp.Cli.Stopping.{WhenReturned, run-WhenReturned}
use camrtsp.Windows.Pipeline.{
  Startup, start_worker, sent, started_with, spawned_with, CapturePipeline,
}
use camrtsp.Windows.Pipeline

-- What the system answers: to the spawning of the worker's thread, to its start, and whether the thread
-- survives its start and, later, still receives commands.
pub record WindowsSystem : Type 0 where
  pub spawned : Result String (Unit {0})
  pub startup : Startup
  pub survives : Bool
  pub has_worker : Bool

abbrev pub startup_of :
    WindowsSystem → StreamConfig → Option (Result CamRtspError NegotiatedStreamConfig)
startup_of system config = elim system.survives [
  | true ↦ some (sent (start_worker system.startup config))
  | false ↦ none
]

abbrev pub windows_backend : WindowsSystem → Backend CapturePipeline
windows_backend system = record {
  enumerate = λ pipeline. Pipeline.enumerate system.startup.runtime system.startup.activations;
  start = λ config. Pipeline.start system.spawned (startup_of system config);
  request_keyframe = λ pipeline. (Pipeline.request_keyframe system.has_worker pipeline, pipeline);
  stop = Pipeline.stop;
}

abbrev pub IsStopped : CapturePipeline → Type 0
IsStopped pipeline = pipeline ≡ false

started-IsStopped :
    (startup : Option (Result CamRtspError NegotiatedStreamConfig)) (e : CamRtspError)
    → (started_with startup).0 ≡ err e
    → IsStopped (started_with startup).1
started-IsStopped (some (ok negotiated)) e failed = cc
started-IsStopped (some (err e')) e failed = refl
started-IsStopped none e failed = refl

spawned-IsStopped :
    (spawned : Result String (Unit {0}))
    (startup : Option (Result CamRtspError NegotiatedStreamConfig)) (e : CamRtspError)
    → (spawned_with spawned startup).0 ≡ err e
    → IsStopped (spawned_with spawned startup).1
spawned-IsStopped (err e') startup e failed = refl
spawned-IsStopped (ok _) startup e failed = started-IsStopped startup e failed

start-IsStopped :
    (system : WindowsSystem) (config : StreamConfig) (pipeline : CapturePipeline) (e : CamRtspError)
    → IsStopped pipeline
    → (Capture.start (windows_backend system) config pipeline).0 ≡ err e
    → IsStopped (Capture.start (windows_backend system) config pipeline).1
unfolding Pipeline.start
start-IsStopped system config true e stopped failed = cc
start-IsStopped system config false e stopped failed =
    start_keeps (windows_backend system) IsStopped config false e stopped
      (spawned-IsStopped system.spawned (startup_of system config) e) failed

stop-IsStopped : (pipeline : CapturePipeline) → IsStopped (Pipeline.stop pipeline).1
unfolding Pipeline.stop
stop-IsStopped pipeline = refl

-- When `run` has returned, the capture of Windows is stopped, in whatever way it returns.
pub run_windows-IsStopped :
    (system : WindowsSystem) (calls : RunCalls) (now : ℕ) (args : Args) (lists_devices : Bool)
    → WhenReturned IsStopped (run (windows_backend system) calls now args lists_devices false)
run_windows-IsStopped system calls now args lists_devices =
    run-WhenReturned (windows_backend system) IsStopped (unfold Capture.stop in stop-IsStopped)
      (λ config pipeline e. start-IsStopped system config pipeline e) calls now args lists_devices
      false refl
