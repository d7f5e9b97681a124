-- ===== src/Windows/Callbacks.antt =====
-- The two callbacks, which Media Foundation calls on its own threads. Each call is taken as one step
-- on the state, though the code locks one field at a time; a channel to the worker is the list of
-- what was sent and not received.
use Prim.Native.String.{◌++◌ as text_append}
use camrtsp.Common.{
  ℕ, String, Bool, true, false, Option, none, some, List, [], ◌∷◌, ◌++◌, length, ltb, if◌then◌else◌,
  Result, ok, err, ℤ,
}
use camrtsp.Core.{CamRtspError}
use camrtsp.Windows.Formats.{WinError, in_context}

abbrev pub capture_queue_capacity : ℕ
capture_queue_capacity = 16

-- The bound of the channel of encoder events
abbrev pub event_queue_capacity : ℕ
event_queue_capacity = 32

-- `try_send` on a bounded channel: what the channel holds then, and whether it took the value.
abbrev pub try_send {ℓ} : {A : Type ℓ} → ℕ → A → List A → List A × Bool
try_send capacity value queue =
    if ltb (length queue) capacity then (queue ++ value ∷ [], true) else (queue, false)

pub data TransformEvent : Type 0 where
  need_input have_output : TransformEvent
  failure_event : String → TransformEvent

pub record EventState : Type 0 where
  pub events : List TransformEvent
  pub has_generator : Bool
  pub alive : Bool

abbrev pub new_events : EventState
new_events = record { events = []; has_generator = false; alive = true }

unfoldable pub install :
    Result WinError (Unit {0}) → EventState → Result CamRtspError (Unit {0}) × EventState
install begun s = (
  in_context "unable to begin asynchronous encoder events" begun,
  record s { has_generator = true },
)

unfoldable pub stop_events : EventState → EventState
stop_events s = record s { alive = false; has_generator = false }

-- The type of the event that `EndGetEvent` gives.
pub data EventType : Type 0 where
  transform_need_input transform_have_output other_event : EventType

abbrev pub message_of : EventType → Option TransformEvent
message_of transform_need_input = some need_input
message_of transform_have_output = some have_output
message_of other_event = none

-- The message, and behind a full channel the report of that, by the same `try_send`.
abbrev pub send_or_report : Option TransformEvent → List TransformEvent → List TransformEvent
send_or_report none events = events
send_or_report (some event) events =
    let (sent, taken) = try_send event_queue_capacity event events in
    if taken
    then sent
    else (try_send event_queue_capacity
        (failure_event "asynchronous H.264 encoder event queue overflowed") events).0

-- `Invoke`: whether the result is there, and what `EndGetEvent` makes of it. That the next event is
-- asked for then has no effect here.
unfoldable pub invoke : Bool → Result WinError EventType → EventState → EventState
invoke has_result (ok event_type) s =
    if s.alive
    then if s.has_generator
      then if has_result
        then record s { events = send_or_report (message_of event_type) s.events }
        else s
      else s
    else s
invoke has_result (err error) s =
    if s.alive
    then if s.has_generator
      then if has_result
        then record s {
          events =
              (try_send event_queue_capacity
                (failure_event (text_append "asynchronous H.264 encoder event failed: " error.text))
                s.events).0;
        }
        else s
      else s
    else s

-- What a sample answers: its bytes, its attribute CleanPoint, its time and its duration.
pub record Sample : Type 0 where
  pub bytes : Result CamRtspError (List ℕ)
  pub clean_point : Result WinError ℕ
  pub time : Result WinError ℤ
  pub duration : Result WinError ℤ

pub record CapturedSample : Type 0 where
  pub sample : Sample
  pub timestamp : ℤ

pub record ReaderState : Type 0 where
  pub samples : List CapturedSample
  pub has_reader : Bool
  pub alive : Bool
  pub discontinuity : Bool
  pub failure : Option String

abbrev pub new_reader : ReaderState
new_reader = record {
  samples = [];
  has_reader = false;
  alive = true;
  discontinuity = false;
  failure = none;
}

unfoldable pub set_reader : ReaderState → ReaderState
set_reader s = record s { has_reader = true }

unfoldable pub stop_reader : ReaderState → ReaderState
stop_reader s = record s { alive = false; has_reader = false }

unfoldable pub take_discontinuity : ReaderState → Bool × ReaderState
take_discontinuity s = (s.discontinuity, record s { discontinuity = false })

-- `request_next_sample`, with what `ReadSample` answers.
abbrev pub note_failure : Result WinError (Unit {0}) → ReaderState → ReaderState
note_failure (ok _) s = s
note_failure (err error) s = record s {
  failure = some (text_append "Source Reader ReadSample failed: " error.text);
}

unfoldable pub request_next_sample : Result WinError (Unit {0}) → ReaderState → ReaderState
request_next_sample read s = if s.alive then if s.has_reader then note_failure read s else s else s

-- What `OnReadSample` is called with: whether the status is good and no error flag is set, whether a
-- flag says that the media type changed, the printed status, and the sample.
pub record ReadCall : Type 0 where
  pub is_good : Bool
  pub type_changed : Bool
  pub status_text : String
  pub sample : Option Sample
  pub timestamp : ℤ
  pub next_read : Result WinError (Unit {0})

-- A sample that finds the channel full is dropped, and the discontinuity noted.
abbrev pub keep_sample : Option Sample → ℤ → ReaderState → ReaderState
keep_sample none timestamp s = s
keep_sample (some sample) timestamp s =
    let (samples, taken) =
      try_send capture_queue_capacity (record { sample = sample; timestamp = timestamp })
        s.samples in
    if taken then record s { samples = samples } else record s { discontinuity = true }

unfoldable pub on_read_sample : ReadCall → ReaderState → ReaderState
unfolding request_next_sample
on_read_sample call s =
    if s.alive
    then if call.is_good
      then if call.type_changed
        then record s { failure = some "camera changed its media type while streaming" }
        else request_next_sample call.next_read (keep_sample call.sample call.timestamp s)
      else record s {
        failure = some (text_append "camera capture failed with status " call.status_text);
      }
    else s
