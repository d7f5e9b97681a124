-- ===== src/Broadcaster/Undisturbed.antt =====
-- Calls of other sessions and of the publisher that only add to a subscriber's queue.
use camrtsp.Common.{
  ℕ, ◌<◌, ◌≡◌, ◌≢◌, refl, sym, ap, ◌∙◌, true, false, Bool, Option, none, some, subst, List, [], ◌∷◌,
  ◌++◌, append-nil, append_assoc, length, arith, if◌then◌else◌,
}
use camrtsp.Core.{EncodedAccessUnit}
use camrtsp.Broadcaster.{
  Client, BroadcastState, subscribe, drop_subscription, find, pop_front, recv_timeout,
  codec_changed, set_codec_config, set_frame_rate, take_keyframe_request, prepare, overflow,
  enqueue, enqueue_unless, offer, publish,
}
use camrtsp.Broadcaster.Lookup.{find-update_ne, find-retain_alive, find-offer_all}
use camrtsp.Broadcaster.Run.{
  Call, subscribing, dropping, receiving, configuring, rating, taking_request, publishing, apply,
  run,
}

abbrev queue_of : Option Client → List EncodedAccessUnit
queue_of none = []
queue_of (some c) = c.frames

-- A call that neither ends a subscription nor takes from its queue, is no change of codec, and does
-- not publish while that queue is full.
abbrev pub IsHarmless : ℕ → Call → BroadcastState → Type 0
IsHarmless i subscribing s = Unit
IsHarmless i (dropping j) s = i ≢ j
IsHarmless i (receiving j) s = i ≢ j
IsHarmless i (configuring codec) s = codec_changed s.codec codec ≡ false
IsHarmless i (rating numerator denominator) s = Unit
IsHarmless i taking_request s = Unit
IsHarmless i (publishing now unit) s = length (queue_of (find i s.clients)) < 16

abbrev pub AllHarmless : ℕ → List Call → BroadcastState → Type 0
AllHarmless i [] s = Unit
AllHarmless i (call ∷ calls) s = IsHarmless i call s × AllHarmless i calls (apply call s)

-- The subscriber is there, with its queue and perhaps more behind it.
pub record IsGrown (i : ℕ) (frames : List EncodedAccessUnit) (s : BroadcastState) : Type 0 where
  pub client : Client
  pub found : find i s.clients ≡ some client
  pub live : client.alive ≡ true
  pub more : List EncodedAccessUnit
  pub queue : client.frames ≡ frames ++ more

unchanged :
    (i : ℕ) (c : Client) (s : BroadcastState)
    → find i s.clients ≡ some c
    → c.alive ≡ true
    → IsGrown i c.frames s
unchanged i c s found live = record {
  client = c;
  found = found;
  live = live;
  more = [];
  queue = sym (append-nil c.frames);
}

enqueued :
    (i : ℕ) (skipped : Bool) (unit : EncodedAccessUnit) (c : Client) (s : BroadcastState)
    → find i s.clients ≡ some (enqueue_unless skipped unit c)
    → c.alive ≡ true
    → IsGrown i c.frames s
unfolding enqueue_unless
enqueued i true unit c s found live = record {
  client = _;
  found = found;
  live = live;
  more = [];
  queue = sym (append-nil c.frames);
}
enqueued i false unit c s found live = record {
  client = _;
  found = found;
  live = live;
  more = unit ∷ [];
  queue = refl;
}

published :
    (i now : ℕ) (unit : EncodedAccessUnit) (c : Client) (s : BroadcastState)
    → find i s.clients ≡ some c
    → c.alive ≡ true
    → length c.frames < 16
    → IsGrown i c.frames (publish now unit s)
published i now unit c s found live room =
    let ready = prepare s.codec unit in
    let not_full : overflow c ≡ false = unfold overflow in ground arith in
    let skipped : Bool = if ready.keyframe then false else c.waiting_for_keyframe in
    let offered : offer ready c ≡ enqueue_unless skipped ready c =
      unfold offer enqueue in rw not_full refl in
    let offered_last : find i (publish now unit s).clients ≡ some (offer ready c) =
      unfold publish in find-offer_all i ready s.clients c found live in
    enqueued i skipped ready c (publish now unit s) (offered_last ∙ ap some offered) live

apply-IsGrown :
    (i : ℕ) (call : Call) (c : Client) (s : BroadcastState)
    → find i s.clients ≡ some c
    → c.alive ≡ true
    → IsHarmless i call s
    → IsGrown i c.frames (apply call s)
unfolding apply
apply-IsGrown i subscribing c s found live harmless =
    unchanged i c (subscribe s).0 (unfold subscribe in find-retain_alive i s.clients _ c found live)
      live
apply-IsGrown i (dropping j) c s found live ne =
    unchanged i c (drop_subscription j s)
      (unfold drop_subscription in find-update_ne i j _ s.clients (λ d. refl) ne ∙ found) live
apply-IsGrown i (receiving j) c s found live ne =
    unchanged i c (recv_timeout j s).0
      (unfold recv_timeout in find-update_ne i j pop_front s.clients (λ d. refl) ne ∙ found) live
apply-IsGrown i (configuring codec) c s found live same =
    unchanged i c (set_codec_config codec s) (unfold set_codec_config in rw same found) live
apply-IsGrown i (rating numerator denominator) c s found live harmless =
    unchanged i c (set_frame_rate numerator denominator s) (unfold set_frame_rate in found) live
apply-IsGrown i taking_request c s found live harmless =
    unchanged i c (take_keyframe_request s).0 (unfold take_keyframe_request in found) live
apply-IsGrown i (publishing now unit) c s found live room =
    published i now unit c s found live (subst (λ client. length (queue_of client) < 16) found room)

-- Over such calls the queue only grows.
pub run-IsGrown :
    (i : ℕ) (calls : List Call) (c : Client) (s : BroadcastState)
    → find i s.clients ≡ some c
    → c.alive ≡ true
    → AllHarmless i calls s
    → IsGrown i c.frames (run s calls)
unfolding run
run-IsGrown i [] c s found live harmless = unchanged i c s found live
run-IsGrown i (call ∷ calls) c s found live harmless =
    let first = apply-IsGrown i call c s found live harmless.0 in
    let rest = run-IsGrown i calls first.client (apply call s) first.found first.live harmless.1 in
    record {
      client = rest.client;
      found = rest.found;
      live = rest.live;
      more = first.more ++ rest.more;
      queue =
          rest.queue
          ∙ ap (λ l. l ++ rest.more) first.queue
          ∙ append_assoc c.frames first.more rest.more;
    }
