-- ===== src/Windows/Synchronous.antt =====
-- The synchronous driver, and the choice between the two.
use camrtsp.Common.{Option, none, some, List, [], ◌∷◌, ◌++◌, Result, ok, err, ◌>>=◌}
use camrtsp.Core.{CamRtspError}
use camrtsp.Windows.Formats.{WinError, media_error, MediaType}
use camrtsp.Windows.Callbacks.{Sample}
use camrtsp.Windows.Encoders.{Published, publish_sample}

-- One round of `drain` in which `ProcessOutput` succeeds.
pub record Drained : Type 0 where
  pub buffer : Result CamRtspError (Unit {0})
  pub sample : Option Sample
  pub output_type : Result WinError MediaType

-- The rounds of a `drain`, and its last: the buffer for it, and the error of `ProcessOutput`, or none
-- where the transform needs more input.
pub record Drain : Type 0 where
  pub rounds : List Drained
  pub last_buffer : Result CamRtspError (Unit {0})
  pub stopped_by : Option WinError

abbrev pub and_then_published : Published → Published → Published
and_then_published (err e, calls) rest = (err e, calls)
and_then_published (ok _, calls) (result, more) = (result, calls ++ more)

abbrev pub drained_sample : Drained → Option Sample → Published
drained_sample round none = (ok tt, [])
drained_sample round (some sample) = publish_sample round.output_type sample

abbrev pub drain_end : Result CamRtspError (Unit {0}) → Option WinError → Published
drain_end (err e) stopped_by = (err e, [])
drain_end (ok _) none = (ok tt, [])
drain_end (ok _) (some e) = (err (media_error "H.264 encoder failed while producing output" e), [])

unfoldable pub drain_rounds : List Drained → Published → Published
unfolding publish_sample
drain_rounds [] last = last
drain_rounds (round ∷ rounds) last =
    and_then_published (round.buffer, [])
      (and_then_published (drained_sample round round.sample) (drain_rounds rounds last))

unfoldable pub drain : Drain → Published
unfolding drain_rounds
drain d = drain_rounds d.rounds (drain_end d.last_buffer d.stopped_by)

-- What `ProcessInput` answers.
pub data Input : Type 0 where
  accepted not_accepting : Input
  rejected : WinError → Input

-- One call of `consume`: three times the transform is drained, and twice it is given the sample.
pub record SyncConsumed : Type 0 where
  pub before : Drain
  pub input : Input
  pub between : Drain
  pub second_input : Input
  pub after : Drain

abbrev pub input_error : WinError → Published
input_error e = (err (media_error "H.264 encoder rejected an input sample" e), [])

-- `MF_E_NOTACCEPTING` as an error, with its text
abbrev pub given_again : WinError → SyncConsumed → Input → Published
given_again not_accepting_error c accepted = drain c.after
given_again not_accepting_error c not_accepting = input_error not_accepting_error
given_again not_accepting_error c (rejected e) = input_error e

abbrev pub given_input : WinError → SyncConsumed → Input → Published
given_input not_accepting_error c accepted = drain c.after
given_input not_accepting_error c not_accepting =
    and_then_published (drain c.between) (given_again not_accepting_error c c.second_input)
given_input not_accepting_error c (rejected e) = input_error e

unfoldable pub consume_sync : WinError → SyncConsumed → Published
unfolding drain
consume_sync not_accepting_error c =
    and_then_published (drain c.before) (given_input not_accepting_error c c.input)

-- The first activation that gives an encoder, or the last error.
unfoldable pub first_encoder {ℓ} :
    {A : Type ℓ} → CamRtspError → List (Result CamRtspError A) → Result CamRtspError A
first_encoder last_error [] = err last_error
first_encoder last_error (ok encoder ∷ rest) = ok encoder
first_encoder last_error (err error ∷ rest) = first_encoder error rest

pub data Driver : Type 0 where
  asynchronous synchronous : Driver

-- `MftEncoder::new`, from what the activations of the two kinds give.
abbrev pub or_synchronous :
    Result CamRtspError (Unit {0}) → Result CamRtspError (Unit {0}) → Result CamRtspError Driver
or_synchronous (ok _) software = ok asynchronous
or_synchronous (err e) (ok _) = ok synchronous
or_synchronous (err e) (err e') = err e'

unfoldable pub new_driver :
    Result CamRtspError (List (Result CamRtspError (Unit {0})))
    → Result CamRtspError (List (Result CamRtspError (Unit {0})))
    → Result CamRtspError Driver
unfolding first_encoder
new_driver hardware software =
    or_synchronous
      (hardware >>= λ encoders.
        first_encoder "no compatible asynchronous hardware H.264 encoder is installed" encoders)
      (software >>= λ encoders.
        first_encoder "no synchronous Media Foundation H.264 encoder is installed" encoders)
