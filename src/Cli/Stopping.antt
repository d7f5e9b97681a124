-- ===== src/Cli/Stopping.antt =====
-- The capture when `run` has returned.
use camrtsp.Common.{
  ℕ, Bool, true, false, Option, none, some, List, [], ◌∷◌, Result, ok, err, ◌≡◌, refl,
}
use camrtsp.Io.{IoError}
use camrtsp.Core.{CamRtspError, CameraDescriptor, StreamConfig, NegotiatedStreamConfig}
use camrtsp.Broadcaster.{BroadcastState, default}
use camrtsp.Server.{RtspServer, bind_with_transport}
use camrtsp.Sink.{apply_calls}
use camrtsp.Capture.{Backend}
use camrtsp.Capture
use camrtsp.Cli.{Args, Address, policy_of, credentials, stream_config, watch_round}
use camrtsp.Cli.Run.{
  RunError, server_error, WatchStep, RunCalls, Progress, still_watching, returned, pass_request,
  ended_with, is_announced, shut_down, go_on_or_end, watch_loop, watch_started, with_capture,
  with_address, with_server, with_config, with_devices, run,
}

-- What holds of the capture if `run` has returned.
abbrev pub WhenReturned {ℓ} : {S : Type 0} → (S → Type ℓ) → Progress S → Type ℓ
WhenReturned P (still_watching s source) = Unit
WhenReturned P (returned result s source) = P s

-- A property of captures that a stop brings about, and that a start which fails keeps.
module _ {S : Type 0} (backend : Backend S) (P : S → Type 0)
    (stops : (s : S) → P (Capture.stop backend s).1)
    (fails : (config : StreamConfig) (s : S) (e : CamRtspError)
      → P s
      → (Capture.start backend config s).0 ≡ err e
      → P (Capture.start backend config s).1) where
  shut_down-WhenReturned :
      (server_result : Option (Result IoError (Unit {0}))) (result : Result RunError (Unit {0}))
      (s : S) (source : BroadcastState)
      → WhenReturned P (shut_down backend server_result result s source)
  unfolding shut_down
  shut_down-WhenReturned server_result result s source = stops s

  go_on_or_end-WhenReturned :
      (server_result : Option (Result IoError (Unit {0})))
      (ended : Option (Result RunError (Unit {0}))) (s : S) (source : BroadcastState)
      (later : Progress S)
      → WhenReturned P later
      → WhenReturned P (go_on_or_end backend server_result ended s source later)
  go_on_or_end-WhenReturned server_result none s source later h = h
  go_on_or_end-WhenReturned server_result (some result) s source later h =
      shut_down-WhenReturned server_result result s source

  watch_loop-WhenReturned :
      (server_result : Option (Result IoError (Unit {0}))) (steps : List WatchStep)
      (announced : Bool) (s : S) (source : BroadcastState)
      → WhenReturned P (watch_loop backend server_result steps announced s source)
  unfolding watch_loop
  watch_loop-WhenReturned server_result [] announced s source = tt
  watch_loop-WhenReturned server_result (step ∷ steps) announced s source =
      let fed = apply_calls step.at step.delivered source in
      let (watch, source') = watch_round step.seen announced fed in
      let s' = pass_request backend step.seen fed s in
      go_on_or_end-WhenReturned server_result (ended_with backend watch step.signal) s' source' _
        (watch_loop-WhenReturned server_result steps (is_announced backend watch) s' source')

  watch_started-WhenReturned :
      (calls : RunCalls) (runtime : Result IoError (Unit {0})) (s : S) (source : BroadcastState)
      → WhenReturned P (watch_started backend calls runtime s source)
  watch_started-WhenReturned calls (err e) s source =
      shut_down-WhenReturned calls.server_result (err (server_error e)) s source
  watch_started-WhenReturned calls (ok _) s source =
      watch_loop-WhenReturned calls.server_result calls.steps false s source

  with_capture-WhenReturned :
      (calls : RunCalls) (result : Result CamRtspError NegotiatedStreamConfig) (s : S)
      (source : BroadcastState)
      → ((e : CamRtspError) → result ≡ err e → P s)
      → WhenReturned P (with_capture backend calls (result, s) source)
  with_capture-WhenReturned calls (err e) s source h = h e refl
  with_capture-WhenReturned calls (ok negotiated) s source h =
      watch_started-WhenReturned calls calls.runtime s _

  with_address-WhenReturned :
      (calls : RunCalls) (now : ℕ) (config : StreamConfig) (address : Result IoError Address)
      (s : S) (source : BroadcastState)
      → P s
      → WhenReturned P (with_address backend calls now config address s source)
  with_address-WhenReturned calls now config (err e) s source h = h
  with_address-WhenReturned calls now config (ok address) s source h =
      let (result, s') = Capture.start backend config s in
      with_capture-WhenReturned calls result s' (apply_calls now calls.at_start source)
        (λ e failed. fails config s e h failed)

  with_server-WhenReturned :
      (calls : RunCalls) (now : ℕ) (config : StreamConfig) (bound : Result IoError RtspServer)
      (source : BroadcastState) (s : S)
      → P s
      → WhenReturned P (with_server backend calls now config (bound, source) s)
  with_server-WhenReturned calls now config (err e) source s h = h
  with_server-WhenReturned calls now config (ok server) source s h =
      with_address-WhenReturned calls now config calls.address s source h

  with_config-WhenReturned :
      (calls : RunCalls) (now : ℕ) (args : Args) (config : Result CamRtspError StreamConfig) (s : S)
      → P s
      → WhenReturned P (with_config backend calls now args config s)
  with_config-WhenReturned calls now args (err e) s h = h
  with_config-WhenReturned calls now args (ok config) s h =
      let (bound, source) =
        bind_with_transport calls.listener args.path args.fps (credentials args)
          (policy_of args.transport) default in
      with_server-WhenReturned calls now config bound source s h

  with_devices-WhenReturned :
      (calls : RunCalls) (now : ℕ) (args : Args) (lists_devices : Bool)
      (devices : Result CamRtspError (List CameraDescriptor)) (s : S)
      → P s
      → WhenReturned P (with_devices backend calls now args lists_devices devices s)
  with_devices-WhenReturned calls now args lists_devices (err e) s h = h
  with_devices-WhenReturned calls now args true (ok devices) s h = h
  with_devices-WhenReturned calls now args false (ok devices) s h =
      with_config-WhenReturned calls now args (stream_config args devices) s h

  -- A property of the capture that holds at first, that every stop brings about and that a start which
  -- fails keeps, holds when `run` has returned, in whatever way it does: a capture that was started is
  -- stopped.
  pub run-WhenReturned :
      (calls : RunCalls) (now : ℕ) (args : Args) (lists_devices : Bool) (s : S)
      → P s
      → WhenReturned P (run backend calls now args lists_devices s)
  unfolding run
  run-WhenReturned calls now args lists_devices s h =
      with_devices-WhenReturned calls now args lists_devices (Capture.enumerate backend s) s h
