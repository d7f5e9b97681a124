-- ===== src/Broadcaster/Bounds.antt =====
-- The queues stay bounded, and a subscriber that waits for a keyframe has an empty queue.
use camrtsp.Common.{
  ℕ, ◌+◌, ◌<◌, ◌≤◌, ◌≡◌, refl, true, false, List, [], ◌∷◌, length, length-append, All, All-append,
  arith, ◌==◌, if_either,
}
use camrtsp.Core.{EncodedAccessUnit}
use camrtsp.Broadcaster.{
  Client, BroadcastState, default, max_queued_access_units, retain_alive, subscribe, update,
  pop_front, clear_all, codec_changed, set_codec_config, offer, offer_all,
}
use camrtsp.Broadcaster.Run.{
  Call, subscribing, dropping, receiving, configuring, rating, taking_request, publishing, apply,
  run,
}

pub record IsBounded (next : ℕ) (c : Client) : Type 0 where
  pub fits : length c.frames ≤ max_queued_access_units
  pub waits_empty : c.waiting_for_keyframe ≡ true → c.frames ≡ []
  pub known : c.id < next

abbrev pub IsWellFormed : BroadcastState → Type 0
IsWellFormed s = All (IsBounded s.next_id) s.clients

retain_alive-IsBounded :
    (n : ℕ) (cs : List Client) → All (IsBounded n) cs → All (IsBounded n) (retain_alive cs)
unfolding retain_alive
retain_alive-IsBounded n [] h = tt
retain_alive-IsBounded n (c ∷ cs) h =
    if_either (All (IsBounded n)) c.alive (h.0, retain_alive-IsBounded n cs h.1)
      (retain_alive-IsBounded n cs h.1)

weaken : (n : ℕ) (cs : List Client) → All (IsBounded n) cs → All (IsBounded (n + 1)) cs
weaken n [] h = tt
weaken n (c ∷ cs) h = (
  record { fits = h.0.fits; waits_empty = h.0.waits_empty; known = omega arith },
  weaken n cs h.1,
)

update-IsBounded :
    (n i : ℕ) (f : Client → Client) (cs : List Client)
    → ((c : Client) → IsBounded n c → IsBounded n (f c))
    → All (IsBounded n) cs
    → All (IsBounded n) (update i f cs)
unfolding update
update-IsBounded n i f [] keep h = tt
update-IsBounded n i f (c ∷ cs) keep h =
    if_either (All (IsBounded n)) (c.id == i) (keep c h.0, h.1)
      (h.0, update-IsBounded n i f cs keep h.1)

pop_front-IsBounded : (n : ℕ) (c : Client) → IsBounded n c → IsBounded n (pop_front c)
pop_front-IsBounded n c h = ground arith

kill-IsBounded : (n : ℕ) (c : Client) → IsBounded n c → IsBounded n (record c { alive = false })
kill-IsBounded n c h = record { fits = h.fits; waits_empty = h.waits_empty; known = h.known }

clear_all-IsBounded :
    (n : ℕ) (cs : List Client) → All (IsBounded n) cs → All (IsBounded n) (clear_all cs)
unfolding clear_all
clear_all-IsBounded n [] h = tt
clear_all-IsBounded n (c ∷ cs) h = (
  record { fits = omega arith; waits_empty = λ w. refl; known = h.0.known },
  clear_all-IsBounded n cs h.1,
)

pub offer-IsBounded :
    (n : ℕ) (u : EncodedAccessUnit) (c : Client) → IsBounded n c → IsBounded n (offer u c)
unfolding offer
offer-IsBounded n u c h = ground (arith, length-append c.frames (u ∷ []))

offer_all-IsBounded :
    (n : ℕ) (u : EncodedAccessUnit) (cs : List Client)
    → All (IsBounded n) cs
    → All (IsBounded n) (offer_all u cs)
unfolding offer_all
offer_all-IsBounded n u [] h = tt
offer_all-IsBounded n u (c ∷ cs) h =
    if_either (All (IsBounded n)) c.alive
      (offer-IsBounded n u c h.0, offer_all-IsBounded n u cs h.1) (offer_all-IsBounded n u cs h.1)

-- Every call keeps the state well formed.
apply-IsWellFormed :
    (call : Call) (s : BroadcastState) → IsWellFormed s → IsWellFormed (apply call s)
unfolding apply subscribe set_codec_config
apply-IsWellFormed subscribing s h =
    All-append _ (retain_alive s.clients) _
      (weaken s.next_id _ (retain_alive-IsBounded s.next_id s.clients h))
      (record { fits = omega arith; waits_empty = λ w. refl; known = omega arith }, tt)
apply-IsWellFormed (dropping i) s h = update-IsBounded _ i _ s.clients (kill-IsBounded _) h
apply-IsWellFormed (receiving i) s h = update-IsBounded _ i _ s.clients (pop_front-IsBounded _) h
apply-IsWellFormed (configuring codec) s h =
    if_either IsWellFormed (codec_changed s.codec codec) (clear_all-IsBounded _ s.clients h) h
apply-IsWellFormed (rating numerator denominator) s h = h
apply-IsWellFormed taking_request s h = h
apply-IsWellFormed (publishing now unit) s h = offer_all-IsBounded _ _ s.clients h

run-IsWellFormed :
    (s : BroadcastState) (calls : List Call) → IsWellFormed s → IsWellFormed (run s calls)
unfolding run
run-IsWellFormed s [] h = h
run-IsWellFormed s (call ∷ calls) h =
    run-IsWellFormed (apply call s) calls (apply-IsWellFormed call s h)

abbrev pub Queued : Client → Type 0
Queued c = (length c.frames ≤ 16) × (c.waiting_for_keyframe ≡ true → c.frames ≡ [])

queued : (next : ℕ) (cs : List Client) → All (IsBounded next) cs → All Queued cs
queued next [] h = tt
queued next (c ∷ cs) h = ((h.0.fits, h.0.waits_empty), queued next cs h.1)

-- After any calls on a new broadcaster, each queue holds at most 16 access units, and the queue of a
-- subscriber that waits for a keyframe is empty.
pub queues_bounded : (calls : List Call) → All Queued (run default calls).clients
queues_bounded calls = queued _ _ (run-IsWellFormed default calls tt)
