-- ===== src/Windows/Frames.antt =====
-- The captured samples between the callback and the worker.
use camrtsp.Common.{
  ◌≤◌, ◌≡◌, refl, Bool, true, false, Option, none, some, List, [], ◌∷◌, length, length-append, ltb,
  arith, Bool-cases, if_either, ltb→lt, String, ◌⊎◌, inl, inr, Option-cases, Result, ok, err, ℤ,
}
use camrtsp.Core.{CamRtspError}
use camrtsp.Windows.Formats.{WinError}
use camrtsp.Windows.Callbacks.{
  Sample, CapturedSample, ReaderState, ReadCall, keep_sample, note_failure, request_next_sample,
  on_read_sample, take_discontinuity, stop_reader,
}
use camrtsp.Windows.Worker.{
  Turn, WorkerState, Polled, command, no_command, disconnected, request_keyframe_command,
  stop_command, Consumption, consumed, Ending, goes_on, ends, after_consumption, consume_sample,
  receive_sample, poll_commands, worker_round, note_discontinuity, Step, calls_back, goes_round,
  step_back, Shutdown, shut_down, run_worker, ask_keyframe,
}

-- At most 16 samples wait.
abbrev pub IsBounded : ReaderState → Type 0
IsBounded s = length s.samples ≤ 16

keep_sample-IsBounded :
    (sample : Option Sample) (timestamp : ℤ) (s : ReaderState)
    → IsBounded s
    → IsBounded (keep_sample sample timestamp s)
keep_sample-IsBounded none timestamp s h = h
keep_sample-IsBounded (some sample) timestamp s h = elim (Bool-cases (ltb (length s.samples) 16)) [
  | inl free ↦
      let captured : CapturedSample = record { sample = sample; timestamp = timestamp } in
      let below = ltb→lt (length s.samples) 16 free in
      rw free (omega (arith, below, length-append s.samples (captured ∷ [])))
  | inr full ↦ rw full h
]

-- What a failure does not change and `keep_sample` keeps holds after the callback.
module _ {ℓ} (P : ReaderState → Type ℓ)
    (fails : (s : ReaderState) (failure : Option String)
      → P s
      → P (record s { failure = failure })) where
  note_failure_keeps :
      (read : Result WinError (Unit {0})) (s : ReaderState) → P s → P (note_failure read s)
  note_failure_keeps (ok _) s h = h
  note_failure_keeps (err e) s h = fails s _ h

  pub request_next_sample_keeps :
      (read : Result WinError (Unit {0})) (s : ReaderState) → P s → P (request_next_sample read s)
  unfolding request_next_sample
  request_next_sample_keeps read s h =
      if_either P s.alive (if_either P s.has_reader (note_failure_keeps read s h) h) h

  pub on_read_sample_keeps :
      (call : ReadCall) (s : ReaderState)
      → P (keep_sample call.sample call.timestamp s)
      → P s
      → P (on_read_sample call s)
  unfolding on_read_sample
  on_read_sample_keeps call s kept h =
      if_either P s.alive
        (if_either P call.is_good
          (if_either P call.type_changed (fails s _ h) (
            request_next_sample_keeps call.next_read (keep_sample call.sample call.timestamp s)
              kept))
          (fails s _ h))
        h

on_read_sample-IsBounded :
    (call : ReadCall) (s : ReaderState) → IsBounded s → IsBounded (on_read_sample call s)
on_read_sample-IsBounded call s h =
    on_read_sample_keeps IsBounded (λ s failure h. h) call s
      (keep_sample-IsBounded call.sample call.timestamp s h) h

after_consumption-IsBounded :
    (consumption : Consumption) (s : WorkerState)
    → IsBounded s.reader
    → IsBounded (after_consumption consumption s).1.reader
after_consumption-IsBounded (consumed result calls mode) s h = h

receive_sample-IsBounded :
    (turn : Turn) (samples : List CapturedSample) (s : WorkerState)
    → length samples ≤ 16
    → IsBounded s.reader
    → IsBounded (receive_sample turn samples s).1.reader
unfolding receive_sample
receive_sample-IsBounded turn [] s h h' = h'
receive_sample-IsBounded turn (captured ∷ rest) s h h' =
    after_consumption-IsBounded (consume_sample turn.answers captured s.mode)
      (record s { reader = record s.reader { samples = rest } }) (omega arith)

poll_commands-IsBounded :
    (turn : Turn) (polled : Polled) (s : WorkerState)
    → IsBounded s.reader
    → IsBounded (poll_commands turn polled s).1.reader
unfolding poll_commands
poll_commands-IsBounded turn (command request_keyframe_command) s h =
    receive_sample-IsBounded turn s.reader.samples (ask_keyframe s) h h
poll_commands-IsBounded turn (command stop_command) s h = h
poll_commands-IsBounded turn disconnected s h = h
poll_commands-IsBounded turn no_command s h = receive_sample-IsBounded turn s.reader.samples s h h

note_discontinuity-IsBounded :
    (seen : Bool) (s : WorkerState)
    → IsBounded s.reader
    → IsBounded (note_discontinuity seen s).reader
note_discontinuity-IsBounded true s h = h
note_discontinuity-IsBounded false s h = h

worker_round-IsBounded :
    (turn : Turn) (s : WorkerState) → IsBounded s.reader → IsBounded (worker_round turn s).1.reader
unfolding worker_round take_discontinuity
worker_round-IsBounded turn s h = elim (Option-cases s.reader.failure) [
  | inl e ↦ rw e (
      poll_commands-IsBounded turn turn.polled _
        (note_discontinuity-IsBounded s.reader.discontinuity _ h))
  | inr (_, e) ↦ rw e h
]

Ending-cases :
    (ending : Ending)
    → (ending ≡ goes_on) ⊎ ((result : Result CamRtspError (Unit {0})) × (ending ≡ ends result))
Ending-cases goes_on = inl refl
Ending-cases (ends result) = inr (result, refl)

shut_down-IsBounded :
    (last : Shutdown) (s : WorkerState) → IsBounded s.reader → IsBounded (shut_down last s).reader
unfolding shut_down stop_reader
shut_down-IsBounded last s h = h

-- In every run of the two threads, at most 16 captured samples wait for the worker, however slow it
-- is.
pub run_worker-IsBounded :
    (last : Shutdown) (steps : List Step) (s : WorkerState)
    → IsBounded s.reader
    → IsBounded (run_worker last steps s).1.reader
unfolding run_worker
run_worker-IsBounded last [] s h = h
run_worker-IsBounded last (calls_back call ∷ steps) s h =
    run_worker-IsBounded last steps (step_back call s) (on_read_sample-IsBounded call s.reader h)
run_worker-IsBounded last (goes_round turn ∷ steps) s h =
    elim (Ending-cases (worker_round turn s).0) [
      | inl e ↦
          rw (e, run_worker)
            (run_worker-IsBounded last steps (worker_round turn s).1
              (worker_round-IsBounded turn s h))
      | inr (_, e) ↦
          rw (e, run_worker)
            (shut_down-IsBounded last (worker_round turn s).1 (worker_round-IsBounded turn s h))
    ]
