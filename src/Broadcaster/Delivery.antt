-- ===== src/Broadcaster/Delivery.antt =====
-- The subscriber's view of any run: its queue and what it took, against what was published.
use camrtsp.Common.{
  ℕ, ◌≡◌, ◌≢◌, refl, sym, ap, subst, ◌∙◌, true, some, List, [], ◌∷◌, arith, if◌then◌else◌,
  if_either, ==_refl, All,
}
use native.Mathlib.Decide.{ℕ_discrete}
use camrtsp.Core.{CodecConfig, EncodedAccessUnit}
use camrtsp.Broadcaster.{
  Client, BroadcastState, subscribe, update, find, drop_subscription, pop_front, front,
  recv_timeout, clear, codec_changed, set_codec_config, prepare, offer, publish,
}
use camrtsp.Broadcaster.Run.{
  Call, subscribing, dropping, receiving, configuring, rating, taking_request, publishing, apply,
}
use camrtsp.Broadcaster.Bounds.{IsWellFormed}
use camrtsp.Broadcaster.Trace.{
  NoGaps, Delivered-NoGaps, InOrder, Delivered-InOrder, Delivered, forget, rev_onto,
  rev_onto_append,
}
use camrtsp.Broadcaster.History.{History, push, taken, watch, watch_all}
use camrtsp.Broadcaster.Served.{
  Served, Served-clear, Served-offer, Served-pop_front, Served-fresh, took,
}
use camrtsp.Broadcaster.Lookup.{
  find-update_self, find-update_ne, find-clear_all, find-retain_alive, find-offer_all, find_fresh,
}

-- Subscriber `i` is found, and served.
data Watched (i : ℕ) (units given : List EncodedAccessUnit) (cs : List Client) : Type 0 where
  watched : (c : Client) → find i cs ≡ some c → Served units given c → Watched i units given cs

push-front :
    (c : Client) (given : List EncodedAccessUnit)
    → push (front (some c)) given ≡ took c.frames given
unfolding took
push-front c given = ground arith

taken_mine :
    (i : ℕ) (s : BroadcastState) (given : List EncodedAccessUnit) (c : Client)
    → find i s.clients ≡ some c
    → taken i (receiving i) s given ≡ took c.frames given
unfolding taken recv_timeout
taken_mine i s given c e =
    ap (λ b. if b then push (front (find i s.clients)) given else given) (==_refl i)
    ∙ ap (λ o. push (front o) given) e
    ∙ push-front c given

taken_other :
    (i j : ℕ) (s : BroadcastState) (given : List EncodedAccessUnit)
    → i ≢ j
    → taken i (receiving j) s given ≡ given
unfolding taken
taken_other i j s given ne = ground arith

-- The subscription stays open in a call.
abbrev pub Stays : ℕ → Call → Type 0
Stays i (dropping j) = i ≢ j
Stays i call = Unit

module _ (i : ℕ) (s : BroadcastState) (units given : List EncodedAccessUnit) (c : Client) where
  abbrev before : History
  before = record { state = s; units = units; given = given }

  abbrev Kept : Call → Type 0
  Kept call =
      Watched i (watch i call before).units (watch i call before).given
        (watch i call before).state.clients

  watch_receiving_mine : find i s.clients ≡ some c → Served units given c → Kept (receiving i)
  unfolding watch apply recv_timeout
  watch_receiving_mine e served =
      subst (λ g. Watched i units g (update i pop_front s.clients)) (sym (taken_mine i s given c e))
        (watched (pop_front c) (find-update_self i pop_front s.clients c (λ d. refl) e)
          (Served-pop_front units given c.id c.frames c.waiting_for_keyframe c.alive served))

  watch_receiving : (j : ℕ) → find i s.clients ≡ some c → Served units given c → Kept (receiving j)
  unfolding watch apply recv_timeout
  watch_receiving j e served = elim (ℕ_discrete i j) [
    | yes p ↦ subst (λ k. Kept (receiving k)) p (watch_receiving_mine e served)
    | no ne ↦
        subst (λ g. Watched i units g (update j pop_front s.clients))
          (sym (taken_other i j s given ne))
          (watched c (find-update_ne i j pop_front s.clients (λ d. refl) ne ∙ e) served)
  ]

  watch_configuring :
      (codec : CodecConfig)
      → find i s.clients ≡ some c
      → Served units given c
      → Kept (configuring codec)
  unfolding watch apply set_codec_config
  watch_configuring codec e served =
      if_either (λ (t : BroadcastState). Watched i units given t.clients)
        (codec_changed s.codec codec)
        (watched (clear c) (find-clear_all i s.clients c e) (Served-clear units given c served))
        (watched c e served)

  watch_call :
      (call : Call) → Stays i call → find i s.clients ≡ some c → Served units given c → Kept call
  unfolding watch apply subscribe drop_subscription publish
  watch_call subscribing stays e served =
      watched c (find-retain_alive i s.clients _ c e served.live) served
  watch_call (dropping j) stays e served =
      watched c (find-update_ne i j _ s.clients (λ d. refl) stays ∙ e) served
  watch_call (receiving j) stays e served = watch_receiving j e served
  watch_call (configuring codec) stays e served = watch_configuring codec e served
  watch_call (rating numerator denominator) stays e served = watched c e served
  watch_call taking_request stays e served = watched c e served
  watch_call (publishing now u) stays e served =
      watched (offer (prepare s.codec u) c) (find-offer_all i _ s.clients c e served.live)
        (Served-offer units given (prepare s.codec u) c served)

module _ (i : ℕ) where
  watch_all-Watched :
      (calls : List Call) (h : History)
      → All (Stays i) calls
      → Watched i h.units h.given h.state.clients
      → Watched i
          (watch_all i calls h).units
          (watch_all i calls h).given
          (watch_all i calls h).state.clients
  unfolding watch_all
  watch_all-Watched [] h stays w = w
  watch_all-Watched (call ∷ calls) h stays (watched c e served) =
      watch_all-Watched calls (watch i call h) stays.1
        (watch_call i h.state h.units h.given c call stays.0 e served)

-- What a new subscriber takes while `calls` run after its subscription, and what is published.
unfoldable pub subscribed : BroadcastState → List Call → History
unfolding watch_all subscribe
subscribed s calls =
    watch_all s.next_id calls (record { state = (subscribe s).0; units = []; given = [] })

given_history :
    {units given : List EncodedAccessUnit} {i : ℕ} {cs : List Client}
    → Watched i units given cs
    → Delivered units given true
given_history {given} (watched c e served) =
    forget (rev_onto c.frames []) given served.history (rev_onto_append c.frames given)

-- Whatever calls other sessions and the publisher make after a session has subscribed, as long as the
-- subscription is not dropped: the access units that the session takes are published ones, in the
-- order of publication and each at most once; and each of them that is no keyframe comes right behind
-- the unit that was published right before it. So a decoder that starts at a keyframe never meets a
-- gap, whether units were dropped by overflow or by a change of codec. The broadcaster is well formed,
-- as a new one is and every call keeps it.
pub taken_without_gaps :
    (s : BroadcastState) (calls : List Call)
    → IsWellFormed s
    → All (Stays s.next_id) calls
    → InOrder (subscribed s calls).given (subscribed s calls).units
      × NoGaps (subscribed s calls).units (subscribed s calls).given
unfolding subscribed
taken_without_gaps s calls wf stays =
    let history = given_history (
      watch_all-Watched s.next_id calls _ stays
        (watched _ (find_fresh s.next_id s.clients _ wf refl) (Served-fresh s.next_id))) in
    (Delivered-InOrder history, Delivered-NoGaps [] (subscribed s calls).given history refl)
