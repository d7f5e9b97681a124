-- ===== src/Broadcaster.antt =====
-- crates/camrtsp-server/src/lib.rs, `Broadcaster`: one bounded queue of access units for each
-- subscriber. The mutex makes each method one step on the shared state. A subscriber's queue and its
-- `alive` flag, which the source shares by `Arc`, are one record of the state, found by its `id`;
-- the counter `next_id` stands for the identity of a new allocation. An `Instant` is a number of
-- microseconds, and a method that reads the clock is given it as `now`.
pub mod Run
pub mod Bounds
pub mod Trace
pub mod History
pub mod Publish
pub mod Overflow
pub mod Undisturbed
mod Served
pub mod Lookup
pub mod Delivery
use camrtsp.Common.{
  ℕ, ◌+◌, ◌-◌, ◌/◌, ◌<◌, min, bit_and, Bool, true, false, ◌&&◌, ◌||◌, not, Option, none, some, List,
  [], ◌∷◌, ◌++◌, length, any, ltb, ◌==◌, same, if◌then◌else◌,
}
use camrtsp.Core.{CodecConfig, EncodedAccessUnit}

abbrev pub max_queued_access_units : ℕ
max_queued_access_units = 16

abbrev pub u64_max : ℕ
u64_max = 18446744073709551615

-- `Subscriber`, with its `FrameQueue`
pub record Client : Type 0 where
  pub id : ℕ
  pub frames : List EncodedAccessUnit
  pub waiting_for_keyframe : Bool
  pub alive : Bool

pub record BroadcastState : Type 0 where
  pub clients : List Client
  pub codec : Option CodecConfig
  pub frame_rate : Option (ℕ × ℕ)
  pub keyframe_requested : Bool
  pub frames : ℕ
  pub last_frame : Option ℕ
  pub next_id : ℕ

abbrev pub default : BroadcastState
default = record {
  clients = [];
  codec = none;
  frame_rate = none;
  keyframe_requested = false;
  frames = 0;
  last_frame = none;
  next_id = 0;
}

-- `clients.retain(|client| client.alive)`
unfoldable pub retain_alive : List Client → List Client
retain_alive [] = []
retain_alive (c ∷ cs) = let rest = retain_alive cs in if c.alive then c ∷ rest else rest

unfoldable pub subscribe : BroadcastState → BroadcastState × ℕ
unfolding retain_alive
subscribe s =
    let fresh : Client = record {
      id = s.next_id;
      frames = [];
      waiting_for_keyframe = true;
      alive = true;
    } in
    (
      record s {
        clients = retain_alive s.clients ++ fresh ∷ [];
        keyframe_requested = true;
        next_id = s.next_id + 1;
      },
      s.next_id,
    )

-- The change of one subscriber's record, through the `Arc` that it shares.
unfoldable pub update : ℕ → (Client → Client) → List Client → List Client
update i f [] = []
update i f (c ∷ cs) = if c.id == i then f c ∷ cs else c ∷ update i f cs

unfoldable pub find : ℕ → List Client → Option Client
find i [] = none
find i (c ∷ cs) = if c.id == i then some c else find i cs

-- `Drop for Subscription`
unfoldable pub drop_subscription : ℕ → BroadcastState → BroadcastState
unfolding update
drop_subscription i s = record s { clients = update i (λ c. record c { alive = false }) s.clients }

abbrev pub pop_front : Client → Client
pop_front c = record c { frames = elim c.frames [ [] ↦ [] | u ∷ rest ↦ rest ] }

abbrev pub front : Option Client → Option EncodedAccessUnit
front none = none
front (some c) = elim c.frames [ [] ↦ none | u ∷ rest ↦ some u ]

-- `recv_timeout`, at the moment when the wait is over: the queue has a unit, or the time is up.
unfoldable pub recv_timeout : ℕ → BroadcastState → BroadcastState × Option EncodedAccessUnit
unfolding update find
recv_timeout i s = (record s { clients = update i pop_front s.clients }, front (find i s.clients))

abbrev pub clear : Client → Client
clear c = record c { frames = []; waiting_for_keyframe = true }

unfoldable pub clear_all : List Client → List Client
clear_all [] = []
clear_all (c ∷ cs) = clear c ∷ clear_all cs

-- `is_some_and(|old| old.sps != codec.sps || old.pps != codec.pps)`
abbrev pub codec_changed : Option CodecConfig → CodecConfig → Bool
codec_changed none codec = false
codec_changed (some old) codec = not (same old.sps codec.sps) || not (same old.pps codec.pps)

unfoldable pub set_codec_config : CodecConfig → BroadcastState → BroadcastState
unfolding clear_all same
set_codec_config codec s =
    if codec_changed s.codec codec
    then record s { clients = clear_all s.clients; keyframe_requested = true; codec = some codec }
    else record s { codec = some codec }

unfoldable pub set_frame_rate : ℕ → ℕ → BroadcastState → BroadcastState
set_frame_rate numerator denominator s = record s {
  frame_rate = if ltb 0 numerator && ltb 0 denominator then some (numerator, denominator) else none;
}

unfoldable pub take_keyframe_request : BroadcastState → BroadcastState × Bool
take_keyframe_request s = (record s { keyframe_requested = false }, s.keyframe_requested)

pub record StreamStats : Type 0 where
  pub viewers : ℕ
  pub frames : ℕ
  pub ready : Bool
  pub last_frame_age_ms : Option ℕ

abbrev pub is_some {ℓ} : {A : Type ℓ} → Option A → Bool
is_some none = false
is_some (some a) = true

unfoldable pub stats : ℕ → BroadcastState → StreamStats
unfolding retain_alive
stats now s = record {
  viewers = length (retain_alive s.clients);
  frames = s.frames;
  ready = is_some s.codec && is_some s.last_frame;
  last_frame_age_ms = elim s.last_frame [ none ↦ none | some t ↦ some ((now - t) / 1000) ];
}

-- `nal.first().is_some_and(|byte| byte & 0x1f == t)`
abbrev pub has_type : ℕ → List ℕ → Bool
has_type t [] = false
has_type t (byte ∷ rest) = bit_and byte 0x1f == t

-- `if !nals.iter().any(…) { nals.insert(0, unit) }`
abbrev pub insert_missing : ℕ → List ℕ → List (List ℕ) → List (List ℕ)
insert_missing t unit nals = if any (has_type t) nals then nals else unit ∷ nals

abbrev pub with_parameter_sets : Option CodecConfig → List (List ℕ) → List (List ℕ)
with_parameter_sets none nals = nals
with_parameter_sets (some codec) nals = insert_missing 7 codec.sps (insert_missing 8 codec.pps nals)

-- What `publish` makes of an access unit before it offers it to the subscribers.
unfoldable pub prepare : Option CodecConfig → EncodedAccessUnit → EncodedAccessUnit
prepare codec unit =
    let key = unit.keyframe || any (has_type 5) unit.nal_units in
    record unit {
      keyframe = key;
      nal_units = if key then with_parameter_sets codec unit.nal_units else unit.nal_units;
    }

-- The body of the `retain` closure on a client that is alive, and whether its queue was full.
unfoldable pub overflow : Client → Bool
overflow c = length c.frames == max_queued_access_units

-- The unit is queued unless the client is still waiting, now that a keyframe has ended its wait.
unfoldable pub enqueue_unless : Bool → EncodedAccessUnit → Client → Client
enqueue_unless true unit c = record c { waiting_for_keyframe = true }
enqueue_unless false unit c = record c {
  waiting_for_keyframe = false;
  frames = c.frames ++ unit ∷ [];
}

unfoldable pub enqueue : EncodedAccessUnit → Client → Client
unfolding enqueue_unless
enqueue unit c = enqueue_unless (if unit.keyframe then false else c.waiting_for_keyframe) unit c

unfoldable pub offer : EncodedAccessUnit → Client → Client
unfolding overflow enqueue
offer unit c = enqueue unit (if overflow c then clear c else c)

unfoldable pub offer_all : EncodedAccessUnit → List Client → List Client
unfolding offer
offer_all unit [] = []
offer_all unit (c ∷ cs) =
    let rest = offer_all unit cs in if c.alive then offer unit c ∷ rest else rest

unfoldable pub publish : ℕ → EncodedAccessUnit → BroadcastState → BroadcastState
unfolding prepare offer_all retain_alive overflow
publish now unit s = record s {
  frames = min (s.frames + 1) u64_max;
  last_frame = some now;
  clients = offer_all (prepare s.codec unit) s.clients;
  keyframe_requested = s.keyframe_requested || any overflow (retain_alive s.clients);
}
