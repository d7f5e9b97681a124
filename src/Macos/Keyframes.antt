-- ===== src/Macos/Keyframes.antt =====
-- The flag `force_keyframe`, which `request_keyframe` sets on one thread and the callback of a
-- captured frame takes on another. Both are atomic, so a run is a list of these steps.
use camrtsp.Common.{
  ◌≡◌, refl, Bool, true, false, ◌&&◌, ◌||◌, Option, none, some, List, [], ◌∷◌, ◌++◌, if◌then◌else◌,
  Result, ok, err, String, Bool-cases, Result-cases, inl, inr,
}
use camrtsp.Macos.Encoder.{Frame, Asked, encode_frame, did_output_sample}
use camrtsp.Macos.Pipeline.{RunningPipeline, CapturePipeline, request_keyframe}

pub data Event : Type 0 where
  requests : Event
  captures : Frame → Event

-- What the encoder was asked for, with what it answered.
abbrev pub answered : Frame → List Asked → List (Asked × Result String (Unit {0}))
answered frame [] = []
answered frame (asked ∷ more) = (asked, frame.encoded) ∷ answered frame more

abbrev pub capture :
    Frame → CapturePipeline → CapturePipeline × List (Asked × Result String (Unit {0}))
capture frame none = (none, [])
capture frame (some running) =
    let (force, asked) = did_output_sample frame running.force_keyframe in
    (some (record running { force_keyframe = force }), answered frame asked)

unfoldable pub run_events : List Event → CapturePipeline → List (Asked × Result String (Unit {0}))
unfolding did_output_sample request_keyframe
run_events [] pipeline = []
run_events (requests ∷ events) pipeline = run_events events (request_keyframe pipeline).1
run_events (captures frame ∷ events) pipeline =
    let (pipeline', asked) = capture frame pipeline in asked ++ run_events events pipeline'

-- Whether the first frame that the encoder took was forced; none if it took none.
abbrev pub first_taken : List (Asked × Result String (Unit {0})) → Option Bool
first_taken [] = none
first_taken ((encode_frame force, ok _) ∷ asked) = some force
first_taken ((encode_frame force, err e) ∷ asked) = first_taken asked

-- Whether there is a frame that has an image and that the encoder takes.
abbrev pub takes_a_frame : List Event → Bool
takes_a_frame [] = false
takes_a_frame (requests ∷ events) = takes_a_frame events
takes_a_frame (captures frame ∷ events) =
    frame.has_image && elim frame.encoded [ ok _ ↦ true | err e ↦ false ] || takes_a_frame events

-- After a request, the first frame that the encoder takes is encoded as a keyframe, whatever frames
-- without an image, failures of the encoder and further requests come before it.
pub request_keyframe_honoured :
    (events : List Event) (running : RunningPipeline)
    → first_taken (run_events events (request_keyframe (some running)).1)
      ≡ (if takes_a_frame events then some true else none)
unfolding run_events did_output_sample request_keyframe
request_keyframe_honoured [] running = refl
request_keyframe_honoured (requests ∷ events) running = request_keyframe_honoured events running
request_keyframe_honoured (captures frame ∷ events) running = elim (Bool-cases frame.has_image) [
  | inl image ↦ elim (Result-cases frame.encoded) [
    | inl (_, taken) ↦ rw (image, taken) refl
    | inr (_, failed) ↦ rw (image, failed) (request_keyframe_honoured events running)
  ]
  | inr no_image ↦ rw no_image (request_keyframe_honoured events running)
]
