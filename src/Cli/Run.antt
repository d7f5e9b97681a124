-- ===== src/Cli/Run.antt =====
-- apps/cli/src/main.rs, `run`: the server, the capture and the loop that watches them, in the order in
-- which they are started and stopped. The capture is any backend.
use camrtsp.Common.{
  ℕ, String, Bool, true, false, ◌||◌, Option, none, some, List, [], ◌∷◌, if◌then◌else◌, Result, ok,
  err,
}
use camrtsp.Io.{IoError}
use camrtsp.Core.{CamRtspError, CameraDescriptor, StreamConfig, NegotiatedStreamConfig}
use camrtsp.Broadcaster.{BroadcastState, default, set_frame_rate, take_keyframe_request}
use camrtsp.Server.{RtspServer, bind_with_transport}
use camrtsp.Sink.{SinkCall, apply_calls}
use camrtsp.Capture.{Backend}
use camrtsp.Capture
use camrtsp.Cli.{
  Args, policy_of, credentials, stream_config, Address, Watch, watching, interrupted_by_user,
  failed, Seen, watch_round,
}

-- `Box<dyn Error>`, by where it comes from
pub data RunError : Type 0 where
  capture_error : CamRtspError → RunError
  server_error : IoError → RunError
  message : String → RunError

-- Before one round of the loop: what the capture hands to the sink, and when; then what the round
-- sees, and what `ctrl_c` gives.
pub record WatchStep : Type 0 where
  pub delivered : List SinkCall
  pub at : ℕ
  pub seen : Seen
  pub signal : Result IoError (Unit {0})

pub record RunCalls : Type 0 where
  pub listener : Result IoError (Unit {0})
  pub address : Result IoError Address
  pub at_start : List SinkCall  -- what the capture hands to the sink while it starts
  pub runtime : Result IoError (Unit {0})
  pub steps : List WatchStep
  pub server_result : Option (Result IoError (Unit {0}))  -- none where the thread panicked

abbrev pub of_io : Result IoError (Unit {0}) → Result RunError (Unit {0})
of_io (ok _) = ok tt
of_io (err e) = err (server_error e)

-- The results in the order of their `?`.
abbrev pub final_result :
    Result RunError (Unit {0})
    → Result CamRtspError (Unit {0})
    → Option (Result IoError (Unit {0}))
    → Result RunError (Unit {0})
final_result result capture none = err (message "RTSP server thread panicked")
final_result (err e) capture (some server) = err e
final_result (ok _) (err e) (some server) = err (capture_error e)
final_result (ok _) (ok _) (some server) = of_io server

-- Where `run` is, with the capture and the broadcaster: it still watches, or it has returned.
pub data Progress (S : Type 0) : Type 0 where
  still_watching : S → BroadcastState → Progress S
  returned : Result RunError (Unit {0}) → S → BroadcastState → Progress S

module _ {S : Type 0} (backend : Backend S) where
  -- `broadcaster.take_keyframe_request() && let Err(error) = capture.request_keyframe()`
  unfoldable pub pass_request : Seen → BroadcastState → S → S
  unfolding take_keyframe_request
  pass_request seen source s =
      if seen.shutdown || seen.server_finished
      then s
      else if (take_keyframe_request source).1
      then (Capture.request_keyframe backend s).1
      else s

  -- What the loop returns, or none while it goes on.
  abbrev pub ended_with : Watch → Result IoError (Unit {0}) → Option (Result RunError (Unit {0}))
  ended_with (watching announced) signal = none
  ended_with interrupted_by_user signal = some (of_io signal)
  ended_with (failed text) signal = some (err (message text))

  abbrev pub is_announced : Watch → Bool
  is_announced (watching announced) = announced
  is_announced _ = false

  -- `capture.stop()` and the join of the server's thread, after the loop.
  unfoldable pub shut_down :
      Option (Result IoError (Unit {0}))
      → Result RunError (Unit {0})
      → S
      → BroadcastState
      → Progress S
  shut_down server_result result s source =
      let (capture_result, s') = Capture.stop backend s in
      returned (final_result result capture_result server_result) s' source

  abbrev pub go_on_or_end :
      Option (Result IoError (Unit {0}))
      → Option (Result RunError (Unit {0}))
      → S
      → BroadcastState
      → Progress S
      → Progress S
  go_on_or_end server_result none s source later = later
  go_on_or_end server_result (some result) s source later = shut_down server_result result s source

  unfoldable pub watch_loop :
      Option (Result IoError (Unit {0})) → List WatchStep → Bool → S → BroadcastState → Progress S
  unfolding apply_calls watch_round pass_request shut_down
  watch_loop server_result [] announced s source = still_watching s source
  watch_loop server_result (step ∷ steps) announced s source =
      let fed = apply_calls step.at step.delivered source in
      let (watch, source') = watch_round step.seen announced fed in
      let s' = pass_request step.seen fed s in
      go_on_or_end server_result (ended_with watch step.signal) s' source'
        (watch_loop server_result steps (is_announced watch) s' source')

  -- From the start of the capture on.
  abbrev pub watch_started : RunCalls → Result IoError (Unit {0}) → S → BroadcastState → Progress S
  watch_started calls (err e) s source =
      shut_down calls.server_result (err (server_error e)) s source
  watch_started calls (ok _) s source = watch_loop calls.server_result calls.steps false s source

  abbrev pub with_capture :
      RunCalls → Result CamRtspError NegotiatedStreamConfig × S → BroadcastState → Progress S
  with_capture calls (err e, s) source = returned (err (capture_error e)) s source
  with_capture calls (ok negotiated, s) source =
      watch_started calls calls.runtime s
        (set_frame_rate negotiated.fps_num negotiated.fps_den source)

  abbrev pub with_address :
      RunCalls → ℕ → StreamConfig → Result IoError Address → S → BroadcastState → Progress S
  with_address calls now config (err e) s source = returned (err (server_error e)) s source
  with_address calls now config (ok address) s source =
      with_capture calls (Capture.start backend config s) (apply_calls now calls.at_start source)

  abbrev pub with_server :
      RunCalls → ℕ → StreamConfig → Result IoError RtspServer × BroadcastState → S → Progress S
  with_server calls now config (err e, source) s = returned (err (server_error e)) s source
  with_server calls now config (ok server, source) s =
      with_address calls now config calls.address s source

  abbrev pub with_config : RunCalls → ℕ → Args → Result CamRtspError StreamConfig → S → Progress S
  with_config calls now args (err e) s = returned (err (capture_error e)) s default
  with_config calls now args (ok config) s =
      with_server calls now config
        (bind_with_transport calls.listener args.path args.fps (credentials args)
          (policy_of args.transport) default)
        s

  abbrev pub with_devices :
      RunCalls → ℕ → Args → Bool → Result CamRtspError (List CameraDescriptor) → S → Progress S
  with_devices calls now args lists_devices (err e) s = returned (err (capture_error e)) s default
  with_devices calls now args true (ok devices) s = returned (ok tt) s default
  with_devices calls now args false (ok devices) s =
      with_config calls now args (stream_config args devices) s

  -- `lists_devices` is whether the subcommand `devices` was given, which prints them; `now` is when the
  -- capture starts.
  unfoldable pub run : RunCalls → ℕ → Args → Bool → S → Progress S
  unfolding watch_loop bind_with_transport set_frame_rate stream_config
  run calls now args lists_devices s =
      with_devices calls now args lists_devices (Capture.enumerate backend s) s
