-- ===== src/Examples/Publishing.antt =====
-- A publisher, a viewer that joins late, and one that is slow.
use camrtsp.Common.{ℕ, ◌≡◌, refl, true, false, some, List, [], ◌∷◌, All}
use camrtsp.Core.{CodecConfig, EncodedAccessUnit}
use camrtsp.Broadcaster.{Client, BroadcastState, default, find, recv_timeout, prepare, publish}
use camrtsp.Broadcaster.Run.{Call, subscribing, receiving, publishing, apply, run}
use camrtsp.Broadcaster.Bounds.{Queued, queues_bounded}
use camrtsp.Broadcaster.Trace.{InOrder, NoGaps}
use camrtsp.Broadcaster.Delivery.{subscribed, taken_without_gaps}
use camrtsp.Broadcaster.Publish.{IsComplete, prepare-IsComplete}
use camrtsp.Broadcaster.Overflow.{publications, publish_overflow}

abbrev unit_at : ℕ → ℕ → EncodedAccessUnit
unit_at header pts = record {
  nal_units = (header ∷ pts ∷ []) ∷ [];
  pts_90khz = pts;
  duration_90khz = 3000;
  keyframe = false;
}

abbrev key : ℕ → EncodedAccessUnit
key = unit_at 0x65

abbrev delta : ℕ → EncodedAccessUnit
delta = unit_at 0x41

-- What `publish` makes of a keyframe whose flag is not set.
abbrev marked : ℕ → EncodedAccessUnit
marked pts = record (key pts) { keyframe = true }

abbrev calls : List Call
calls =
    publishing 0 (delta 1)
    ∷ publishing 1 (key 2)
    ∷ publishing 2 (delta 3)
    ∷ receiving 0
    ∷ receiving 0
    ∷ []

joined_late : (subscribed default calls).given ≡ delta 3 ∷ marked 2 ∷ []
unfolding subscribed prepare recv_timeout apply
joined_late = refl

taken_without_gaps_example :
    InOrder (subscribed default calls).given (subscribed default calls).units
    × NoGaps (subscribed default calls).units (subscribed default calls).given
taken_without_gaps_example = taken_without_gaps default calls tt (tt, (tt, (tt, (tt, (tt, tt)))))

queues_bounded_example : All Queued (run default (subscribing ∷ calls)).clients
queues_bounded_example = queues_bounded (subscribing ∷ calls)

abbrev codec : CodecConfig
codec = record {
  sps = 0x67 ∷ 0x4d ∷ 0 ∷ 0x1f ∷ [];
  pps = 0x68 ∷ 0xee ∷ [];
  profile_level_id = 0x4d ∷ 0 ∷ 0x1f ∷ [];
}

prepare-IsComplete_example :
    ((prepare (some codec) (key 2)).keyframe ≡ true)
    × IsComplete codec (key 2).nal_units (prepare (some codec) (key 2)).nal_units
prepare-IsComplete_example = prepare-IsComplete codec (key 2) refl refl refl

-- A viewer with a full queue.
abbrev sixteen : List EncodedAccessUnit
sixteen =
    marked 0
    ∷ delta 1
    ∷ delta 2
    ∷ delta 3
    ∷ delta 4
    ∷ delta 5
    ∷ delta 6
    ∷ delta 7
    ∷ delta 8
    ∷ delta 9
    ∷ delta 10
    ∷ delta 11
    ∷ delta 12
    ∷ delta 13
    ∷ delta 14
    ∷ delta 15
    ∷ []

abbrev slow : Client
slow = record { id = 0; frames = sixteen; waiting_for_keyframe = false; alive = true }

abbrev full : BroadcastState
full = record default { clients = slow ∷ []; next_id = 1 }

publish_overflow_example :
    ((publish 9 (delta 16) full).keyframe_requested ≡ true)
    × (find 0 (run full (publications ((9, delta 16) ∷ (10, delta 17) ∷ []))).clients
        ≡ some (record slow { frames = []; waiting_for_keyframe = true }))
publish_overflow_example =
    publish_overflow 9 0 (delta 16) ((10, delta 17) ∷ []) full slow (unfold find in refl) refl refl
      (refl, (refl, tt))
