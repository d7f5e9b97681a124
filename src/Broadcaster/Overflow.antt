-- ===== src/Broadcaster/Overflow.antt =====
-- `publish` on a queue that is full, and what its subscriber gets from then on.
use camrtsp.Common.{
  ℕ, ◌≡◌, refl, ◌∙◌, true, false, ◌||◌, some, List, [], ◌∷◌, length, any, arith, ap,
}
use camrtsp.Core.{EncodedAccessUnit}
use camrtsp.Broadcaster.{
  Client, BroadcastState, retain_alive, find, has_type, prepare, overflow, enqueue, enqueue_unless,
  offer, publish,
}
use camrtsp.Broadcaster.Lookup.{find-offer_all}
use camrtsp.Broadcaster.Run.{Call, publishing, apply, run}

-- A subscriber whose queue was dropped.
abbrev pub dropped : Client → Client
dropped c = record c { frames = []; waiting_for_keyframe = true }

-- One full queue among the subscribers is enough for `any`.
any-overflow :
    (i : ℕ) (cs : List Client) (c : Client)
    → find i cs ≡ some c
    → c.alive ≡ true
    → overflow c ≡ true
    → any overflow (retain_alive cs) ≡ true
unfolding find retain_alive
any-overflow i [] c e live full = cc
any-overflow i (d ∷ cs) c e live full = ground (arith, any-overflow i cs c)

offer_full :
    (unit : EncodedAccessUnit) (c : Client)
    → overflow c ≡ true
    → unit.keyframe ≡ false
    → offer unit c ≡ dropped c
unfolding offer enqueue enqueue_unless
offer_full unit c full inter = rw (full, inter) refl

offer-dropped :
    (unit : EncodedAccessUnit) (c : Client)
    → unit.keyframe ≡ false
    → offer unit (dropped c) ≡ dropped c
unfolding offer overflow enqueue enqueue_unless
offer-dropped unit c inter = rw inter refl

-- Publications, each with the time of its call.
abbrev pub publications : List (ℕ × EncodedAccessUnit) → List Call
publications [] = []
publications ((now, unit) ∷ units) = publishing now unit ∷ publications units

-- No unit of a list is published as a keyframe or has an IDR slice.
abbrev pub NoKeyframe : List (ℕ × EncodedAccessUnit) → Type 0
NoKeyframe [] = Unit
NoKeyframe ((now, unit) ∷ units) =
    ((unit.keyframe || any (has_type 5) unit.nal_units) ≡ false) × NoKeyframe units

-- A subscriber whose queue was dropped gets nothing as long as no keyframe is published.
run-dropped :
    (i : ℕ) (units : List (ℕ × EncodedAccessUnit)) (s : BroadcastState) (c : Client)
    → c.alive ≡ true
    → NoKeyframe units
    → find i s.clients ≡ some (dropped c)
    → find i (run s (publications units)).clients ≡ some (dropped c)
unfolding run apply publish
run-dropped i [] s c live inter found = found
run-dropped i ((now, unit) ∷ units) s c live inter found =
    run-dropped i units (publish now unit s) c live inter.1 (
      find-offer_all i (prepare s.codec unit) s.clients (dropped c) found live
      ∙ ap some (offer-dropped (prepare s.codec unit) c (unfold prepare in inter.0)))

-- A unit that is no keyframe and meets a full queue of a subscriber that is alive, wherever it stands
-- in the list: every unit of that queue is dropped and the state asks the encoder for a keyframe; and whatever units are
-- published next, as long as none of them is a keyframe or has an IDR slice, the queue stays empty and
-- the subscriber waits.
pub publish_overflow :
    (now i : ℕ) (unit : EncodedAccessUnit) (units : List (ℕ × EncodedAccessUnit))
    (s : BroadcastState) (c : Client)
    → find i s.clients ≡ some c
    → c.alive ≡ true
    → length c.frames ≡ 16
    → NoKeyframe ((now, unit) ∷ units)
    → ((publish now unit s).keyframe_requested ≡ true)
      × (find i (run s (publications ((now, unit) ∷ units))).clients
          ≡ some (record c { frames = []; waiting_for_keyframe = true }))
unfolding run apply publish
publish_overflow now i unit units s c found live full inter =
    let is_full : overflow c ≡ true = unfold overflow in rw full refl in
    let asked = any-overflow i s.clients c found live is_full in
    (
      unfold prepare in ground (arith, asked),
      run-dropped i units (publish now unit s) c live inter.1 (
          find-offer_all i (prepare s.codec unit) s.clients c found live
          ∙ ap some (offer_full (prepare s.codec unit) c is_full (unfold prepare in inter.0))),
    )
