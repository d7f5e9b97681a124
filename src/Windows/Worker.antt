-- ===== src/Windows/Worker.antt =====
-- The worker: the mode of the pipeline, the worker's loop, and `PlatformPipeline`.
use camrtsp.Common.{
  ℕ, suc, String, Bool, true, false, Option, none, some, List, [], ◌∷◌, ◌++◌, Result, ok, err,
}
use camrtsp.Core.{CamRtspError, CodecConfig}
use camrtsp.Sink.{SinkCall, configured}
use camrtsp.Windows.H264.{split_h264, codec_config_from_nal_units}
use camrtsp.Windows.Formats.{WinError}
use camrtsp.Windows.Callbacks.{
  TransformEvent, CapturedSample, ReaderState, ReadCall, on_read_sample, take_discontinuity,
  stop_reader,
}
use camrtsp.Windows.Encoders.{
  Published, Output, Consumed, Act, sank, received, process_input, consume, unit_of, force_keyframe,
  pump_events,
}
use camrtsp.Windows.Synchronous.{SyncConsumed, consume_sync, Drain, drain}

-- `PipelineMode`. Of the event-driven driver the flag `needs_input` is kept.
pub data PipelineMode : Type 0 where
  passthrough : CodecConfig → PipelineMode
  event_driven : (needs_input : Bool) → PipelineMode
  driven : PipelineMode

-- What an encoder answers to one sample, by its kind.
pub record Answers : Type 0 where
  pub asynchronous_answers : Consumed
  pub synchronous_answers : SyncConsumed
  pub not_accepting_error : WinError

abbrev pub sink_calls : List Act → List SinkCall
sink_calls [] = []
sink_calls (sank call ∷ acts) = call ∷ sink_calls acts
sink_calls (received event ∷ acts) = sink_calls acts
sink_calls (process_input captured ∷ acts) = sink_calls acts

-- A sample of a camera that gives H.264 itself: its configuration replaces the mode's.
abbrev pub new_codec : CodecConfig → Option CodecConfig → CodecConfig
new_codec old none = old
new_codec old (some codec) = codec

abbrev pub codec_calls : Option CodecConfig → List SinkCall
codec_calls none = []
codec_calls (some codec) = configured codec ∷ []

-- What became of a sample: the result, the calls of the sink, and the mode afterwards.
pub data Consumption : Type 0 where
  consumed : Result CamRtspError (Unit {0}) → List SinkCall → PipelineMode → Consumption

abbrev pub passed_units : CapturedSample → List (List ℕ) → Published
passed_units captured [] = (err "camera emitted an empty H.264 access unit", [])
passed_units captured (nal ∷ nals) =
    (ok tt, SinkCall.published (unit_of captured.sample captured.timestamp (nal ∷ nals)) ∷ [])

abbrev pub pass_bytes : CodecConfig → CapturedSample → Result CamRtspError (List ℕ) → Consumption
pass_bytes codec captured (err e) = consumed (err e) [] (passthrough codec)
pass_bytes codec captured (ok bytes) =
    let config = codec_config_from_nal_units (split_h264 bytes) in
    let (result, calls) = passed_units captured (split_h264 bytes) in
    consumed result (codec_calls config ++ calls) (passthrough (new_codec codec config))

unfoldable pub consume_sample : Answers → CapturedSample → PipelineMode → Consumption
unfolding split_h264 codec_config_from_nal_units consume consume_sync
consume_sample answers captured (passthrough codec) =
    pass_bytes codec captured captured.sample.bytes
consume_sample answers captured (event_driven needs_input) =
    let p = consume answers.asynchronous_answers captured needs_input in
    consumed p.result (sink_calls p.acts) (event_driven p.needs_input)
consume_sample answers captured driven =
    let (result, calls) = consume_sync answers.not_accepting_error answers.synchronous_answers in
    consumed result calls driven

unfoldable pub request_of_mode :
    Option (Result WinError (Unit {0})) → PipelineMode → Result CamRtspError (Unit {0})
unfolding force_keyframe
request_of_mode answer (passthrough codec) =
    err "the selected camera exposes H.264 directly and does not support forced keyframes"
request_of_mode answer (event_driven needs_input) =
    force_keyframe "hardware H.264 encoder could not force a keyframe" answer
request_of_mode answer driven = force_keyframe "H.264 encoder could not force a keyframe" answer

abbrev pub name_of : PipelineMode → String
name_of (passthrough codec) = "Media Foundation native H.264 pass-through"
name_of (event_driven needs_input) = "Media Foundation H.264 hardware encoder"
name_of driven = "Media Foundation H.264 software encoder"

abbrev pub is_hardware : PipelineMode → Bool
is_hardware (event_driven needs_input) = true
is_hardware _ = false

pub data WorkerCommand : Type 0 where
  request_keyframe_command stop_command : WorkerCommand

-- What `try_recv` on the commands gives.
pub data Polled : Type 0 where
  command : WorkerCommand → Polled
  no_command disconnected : Polled

-- One round of the worker's loop: the commands, what the encoder answers to a request and to a
-- sample.
pub record Turn : Type 0 where
  pub polled : Polled
  pub keyframe_answer : Option (Result WinError (Unit {0}))
  pub answers : Answers

pub record WorkerState : Type 0 where
  pub reader : ReaderState
  pub mode : PipelineMode
  pub calls : List SinkCall
  pub requests : ℕ  -- how often the mode was asked for a keyframe

-- `break` or `?` with the result, or the next round
pub data Ending : Type 0 where
  goes_on : Ending
  ends : Result CamRtspError (Unit {0}) → Ending

abbrev pub ending_of : Result CamRtspError (Unit {0}) → Ending
ending_of (ok _) = goes_on
ending_of (err e) = ends (err e)

abbrev pub after_consumption : Consumption → WorkerState → Ending × WorkerState
after_consumption (consumed result calls mode) s =
    (ending_of result, record s { mode = mode; calls = s.calls ++ calls })

-- `recv_timeout`: the first sample of the channel, if there is one.
unfoldable pub receive_sample : Turn → List CapturedSample → WorkerState → Ending × WorkerState
unfolding consume_sample
receive_sample turn [] s = (goes_on, s)
receive_sample turn (captured ∷ rest) s =
    after_consumption (consume_sample turn.answers captured s.mode)
      (record s { reader = record s.reader { samples = rest } })

abbrev pub ask_keyframe : WorkerState → WorkerState
ask_keyframe s = record s { requests = suc s.requests }

unfoldable pub poll_commands : Turn → Polled → WorkerState → Ending × WorkerState
unfolding receive_sample
poll_commands turn (command request_keyframe_command) s =
    receive_sample turn s.reader.samples (ask_keyframe s)
poll_commands turn (command stop_command) s = (ends (ok tt), s)
poll_commands turn disconnected s = (ends (ok tt), s)
poll_commands turn no_command s = receive_sample turn s.reader.samples s

abbrev pub note_discontinuity : Bool → WorkerState → WorkerState
note_discontinuity true s = ask_keyframe s
note_discontinuity false s = s

unfoldable pub worker_round : Turn → WorkerState → Ending × WorkerState
unfolding poll_commands take_discontinuity
worker_round turn s = elim s.reader.failure [
  | some error ↦ (ends (err error), s)
  | none ↦
      let (seen, reader) = take_discontinuity s.reader in
      poll_commands turn turn.polled (note_discontinuity seen (record s { reader = reader }))
]

-- What the two threads do, in the order of their steps: Media Foundation calls back, or the worker
-- goes round its loop.
pub data Step : Type 0 where
  calls_back : ReadCall → Step
  goes_round : Turn → Step

abbrev pub step_back : ReadCall → WorkerState → WorkerState
step_back call s = record s { reader = on_read_sample call s.reader }

-- What the encoder still answers when the mode is shut down.
pub record Shutdown : Type 0 where
  pub events : List TransformEvent
  pub outputs : ℕ → Output
  pub drained : Drain

unfoldable pub shutdown_calls : Shutdown → PipelineMode → List SinkCall
unfolding pump_events drain
shutdown_calls last (passthrough codec) = []
shutdown_calls last (event_driven needs_input) =
    sink_calls (pump_events last.events last.outputs 0 needs_input).acts
shutdown_calls last driven = (drain last.drained).1

-- `callback_state.stop()`, and the shutdown of the mode, whose result is dropped
unfoldable pub shut_down : Shutdown → WorkerState → WorkerState
unfolding stop_reader shutdown_calls
shut_down last s = record s {
  reader = stop_reader s.reader;
  calls = s.calls ++ shutdown_calls last s.mode;
}

-- The worker after these steps, and how it ended, if it did.
unfoldable pub run_worker : Shutdown → List Step → WorkerState → Ending × WorkerState
unfolding worker_round on_read_sample shut_down
run_worker last [] s = (goes_on, s)
run_worker last (calls_back call ∷ steps) s = run_worker last steps (step_back call s)
run_worker last (goes_round turn ∷ steps) s =
    let (ending, s') = worker_round turn s in
    let later = run_worker last steps s' in
    elim ending [ goes_on ↦ later | ends result ↦ (ends result, shut_down last s') ]
