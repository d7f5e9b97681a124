-- ===== src/Windows/Protocol.antt =====
-- The protocol of the event-driven driver: a transform may be given a sample only after it asked for
-- one.
use camrtsp.Common.{
  ℕ, ◌+◌, ◌≡◌, refl, Bool, true, false, List, [], ◌∷◌, ◌++◌, Result, ok, err, Result-cases, subst,
  sym, inl, inr,
}
use camrtsp.Core.{CamRtspError}
use camrtsp.Sink.{SinkCall}
use camrtsp.Windows.Callbacks.{
  TransformEvent, need_input, have_output, failure_event, CapturedSample,
}
use camrtsp.Windows.Encoders.{
  Output, produce_output, Act, received, process_input, sank, sank_all, Pumped, Published,
  after_acts, then_pump, pump_events, Consumed, give_input, input_if_needed, and_after, consume,
}

-- The samples that the driver consumes one after the other, until one call fails.
abbrev then_all : Pumped → (Bool → List Act) → List Act
then_all p next = p.acts ++ elim p.result [ ok _ ↦ next p.needs_input | err e ↦ [] ]

unfoldable pub consume_all : List (Consumed × CapturedSample) → Bool → List Act
unfolding consume
consume_all [] needs_input = []
consume_all ((call, captured) ∷ calls) needs_input =
    then_all (consume call captured needs_input) λ needs_input'. consume_all calls needs_input'

-- Whether the transform has asked for a sample that it was not given.
abbrev pub asked_after : Bool → List Act → Bool
asked_after asked [] = asked
asked_after asked (received need_input ∷ acts) = asked_after true acts
asked_after asked (received have_output ∷ acts) = asked_after asked acts
asked_after asked (received (failure_event e) ∷ acts) = asked_after asked acts
asked_after asked (process_input captured ∷ acts) = asked_after false acts
asked_after asked (sank call ∷ acts) = asked_after asked acts

-- A sample is given only then.
abbrev pub Obeys : Bool → List Act → Type 0
Obeys asked [] = Unit
Obeys asked (received need_input ∷ acts) = Obeys true acts
Obeys asked (received have_output ∷ acts) = Obeys asked acts
Obeys asked (received (failure_event e) ∷ acts) = Obeys asked acts
Obeys asked (process_input captured ∷ acts) = (asked ≡ true) × Obeys false acts
Obeys asked (sank call ∷ acts) = Obeys asked acts

Obeys-append :
    (asked : Bool) (front back : List Act)
    → Obeys asked front
    → Obeys (asked_after asked front) back
    → Obeys asked (front ++ back)
Obeys-append asked [] back h h' = h'
Obeys-append asked (received need_input ∷ front) back h h' = Obeys-append true front back h h'
Obeys-append asked (received have_output ∷ front) back h h' = Obeys-append asked front back h h'
Obeys-append asked (received (failure_event e) ∷ front) back h h' =
    Obeys-append asked front back h h'
Obeys-append asked (process_input captured ∷ front) back h h' =
    (h.0, Obeys-append false front back h.1 h')
Obeys-append asked (sank call ∷ front) back h h' = Obeys-append asked front back h h'

asked_after-append :
    (asked : Bool) (front back : List Act)
    → asked_after asked (front ++ back) ≡ asked_after (asked_after asked front) back
asked_after-append asked [] back = refl
asked_after-append asked (received need_input ∷ front) back = asked_after-append true front back
asked_after-append asked (received have_output ∷ front) back = asked_after-append asked front back
asked_after-append asked (received (failure_event e) ∷ front) back =
    asked_after-append asked front back
asked_after-append asked (process_input captured ∷ front) back = asked_after-append false front back
asked_after-append asked (sank call ∷ front) back = asked_after-append asked front back

-- The calls of the sink are no part of the protocol.
sank_all_lem :
    (asked : Bool) (calls : List SinkCall)
    → Obeys asked (sank_all calls) × (asked_after asked (sank_all calls) ≡ asked)
sank_all_lem asked [] = (tt, refl)
sank_all_lem asked (call ∷ calls) = sank_all_lem asked calls

-- A part of the driver's work that keeps to the protocol and, where it succeeds, leaves the flag as
-- the protocol has it.
abbrev Agrees : Result CamRtspError (Unit {0}) → Bool → Bool → Type 0
Agrees (ok _) asked needs_input = asked ≡ needs_input
Agrees (err e) asked needs_input = Unit

Agrees-ok :
    (result : Result CamRtspError (Unit {0})) (a : Unit {0}) (asked needs_input : Bool)
    → result ≡ ok a
    → Agrees result asked needs_input
    → asked ≡ needs_input
Agrees-ok result a asked needs_input e h = subst (λ r. Agrees r asked needs_input) e h

Sound : Bool → Pumped → Type 0
Sound asked p = Obeys asked p.acts × Agrees p.result (asked_after asked p.acts) p.needs_input

after_acts-Sound :
    (asked : Bool) (front : List Act) (p : Pumped)
    → Obeys asked front
    → Sound (asked_after asked front) p
    → Sound asked (after_acts front p)
unfolding Sound
after_acts-Sound asked front p h h' =
    (Obeys-append asked front p.acts h h'.0, rw (asked_after-append asked front p.acts) h'.1)

then_pump-Sound :
    (asked : Bool) (published : Published) (rest : Pumped)
    → Sound asked rest
    → Sound asked (then_pump asked published rest)
unfolding Sound
then_pump-Sound asked (err e, calls) rest h = ((sank_all_lem asked calls).0, tt)
then_pump-Sound asked (ok _, calls) rest h =
    let (obeys, same) = sank_all_lem asked calls in
    after_acts-Sound asked (sank_all calls) rest obeys (rw same h)

pump_events-Sound :
    (events : List TransformEvent) (answers : ℕ → Output) (n : ℕ) (asked : Bool)
    → Sound asked (pump_events events answers n asked)
unfolding Sound pump_events
pump_events-Sound [] answers n asked = (tt, refl)
pump_events-Sound (need_input ∷ events) answers n asked = pump_events-Sound events answers n true
pump_events-Sound (have_output ∷ events) answers n asked =
    then_pump-Sound asked (produce_output (answers n)) (pump_events events answers (n + 1) asked)
      (pump_events-Sound events answers (n + 1) asked)
pump_events-Sound (failure_event e ∷ events) answers n asked = (tt, tt)

give_input-Sound :
    (call : Consumed) (captured : CapturedSample) (input : _)
    → Sound true (give_input call captured input)
unfolding Sound
give_input-Sound call captured (err e) = ((refl, tt), tt)
give_input-Sound call captured (ok _) =
    let (obeys, agrees) = pump_events-Sound call.events_after call.outputs_after 0 false in
    ((refl, obeys), agrees)

input_if_needed-Sound :
    (call : Consumed) (captured : CapturedSample) (needs_input : Bool)
    → Sound needs_input (input_if_needed call captured needs_input)
unfolding Sound
input_if_needed-Sound call captured false = (tt, refl)
input_if_needed-Sound call captured true = give_input-Sound call captured call.input

and_after-Sound :
    (asked : Bool) (p : Pumped) (next : Bool → Pumped)
    → Sound asked p
    → ((needs_input : Bool) → Sound needs_input (next needs_input))
    → Sound asked (and_after p next)
unfolding Sound
and_after-Sound asked p next h hs = elim (Result-cases p.result) [
  | inl (a, e) ↦ rw e (
      after_acts-Sound asked p.acts (next p.needs_input) h.0 (
        subst (λ now. Sound now (next p.needs_input)) (sym (Agrees-ok p.result a _ _ e h.1))
          (hs p.needs_input)))
  | inr (_, e) ↦ rw e (h.0, tt)
]

consume-Sound :
    (call : Consumed) (captured : CapturedSample) (asked : Bool)
    → Sound asked (consume call captured asked)
unfolding consume
consume-Sound call captured asked =
    and_after-Sound asked _ _ (pump_events-Sound call.events_before call.outputs_before 0 asked)
      (input_if_needed-Sound call captured)

then_all-Obeys :
    (asked : Bool) (p : Pumped) (next : Bool → List Act)
    → Sound asked p
    → ((needs_input : Bool) → Obeys needs_input (next needs_input))
    → Obeys asked (then_all p next)
unfolding Sound
then_all-Obeys asked p next h hs = elim (Result-cases p.result) [
  | inl (a, e) ↦ rw e (
      Obeys-append asked p.acts (next p.needs_input) h.0 (
        subst (λ now. Obeys now (next p.needs_input)) (sym (Agrees-ok p.result a _ _ e h.1))
          (hs p.needs_input)))
  | inr (_, e) ↦ rw e (Obeys-append asked p.acts [] h.0 tt)
]

-- Over any run of the driver, a sample is given to the transform only when the transform has asked for
-- one since the sample before: whatever events arrive between the calls, and whatever the transform
-- answers.
pub consume_all-Obeys :
    (calls : List (Consumed × CapturedSample)) (asked : Bool)
    → Obeys asked (consume_all calls asked)
unfolding consume_all
consume_all-Obeys [] asked = tt
consume_all-Obeys ((call, captured) ∷ calls) asked =
    then_all-Obeys asked (consume call captured asked) (λ now. consume_all calls now)
      (consume-Sound call captured asked) (consume_all-Obeys calls)
