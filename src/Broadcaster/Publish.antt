-- ===== src/Broadcaster/Publish.antt =====
-- What `publish` makes of a unit, and what a keyframe does for every subscriber.
use camrtsp.Common.{
  ℕ, ◌+◌, ◌≡◌, ◌≢◌, refl, true, false, ◌||◌, some, List, [], ◌∷◌, ◌++◌, length, any, All, arith,
  if◌then◌else◌, if_either, Bool-cases, inl, inr, ap, ◌∙◌,
}
use camrtsp.Core.{CodecConfig, EncodedAccessUnit}
use camrtsp.Broadcaster.{
  Client, BroadcastState, retain_alive, subscribe, find, update, drop_subscription, stats, has_type,
  insert_missing, with_parameter_sets, prepare, overflow, offer, offer_all, publish,
}

-- What is put before a keyframe's units: a parameter set, or nothing if they bring one of its type.
pub data Supplied (t : ℕ) (set : List ℕ) (nals : List (List ℕ)) : List (List ℕ) → Type 0 where
  brought : any (has_type t) nals ≡ true → Supplied t set nals []
  added : any (has_type t) nals ≡ false → Supplied t set nals (set ∷ [])

-- A recovery point carries parameter sets, of the stream where its units bring none, before units
-- that are kept as they were.
pub record IsComplete (codec : CodecConfig) (nals complete : List (List ℕ)) : Type 0 where
  pub sps : any (has_type 7) complete ≡ true
  pub pps : any (has_type 8) complete ≡ true
  pub sps_front : List (List ℕ)
  pub pps_front : List (List ℕ)
  pub sps_supplied : Supplied 7 codec.sps nals sps_front
  pub pps_supplied : Supplied 8 codec.pps nals pps_front
  pub kept : complete ≡ sps_front ++ (pps_front ++ nals)

any-insert_missing :
    (t : ℕ) (unit : List ℕ) (nals : List (List ℕ))
    → has_type t unit ≡ true
    → any (has_type t) (insert_missing t unit nals) ≡ true
any-insert_missing t unit nals h = elim (Bool-cases (any (has_type t) nals)) [
  | inl there ↦ rw there there
  | inr missing ↦ rw missing (rw h refl)
]

any-insert_other :
    (t r : ℕ) (unit : List ℕ) (nals : List (List ℕ))
    → any (has_type t) nals ≡ true
    → any (has_type t) (insert_missing r unit nals) ≡ true
any-insert_other t r unit nals h = elim (Bool-cases (any (has_type r) nals)) [
  | inl there ↦ rw there h
  | inr missing ↦
      rw missing
        (elim (Bool-cases (has_type t unit)) [ inl same ↦ rw same refl | inr other ↦ rw other h ])
]

missing_front : ℕ → List ℕ → List (List ℕ) → List (List ℕ)
missing_front t unit nals = if any (has_type t) nals then [] else unit ∷ []

insert_missing-front :
    (t : ℕ) (unit : List ℕ) (nals : List (List ℕ))
    → insert_missing t unit nals ≡ missing_front t unit nals ++ nals
unfolding missing_front
insert_missing-front t unit nals = elim (Bool-cases (any (has_type t) nals)) [
  | inl there ↦ rw there
  | inr missing ↦ rw missing
]

missing_front-Supplied :
    (t : ℕ) (set : List ℕ) (nals : List (List ℕ)) → Supplied t set nals (missing_front t set nals)
unfolding missing_front
missing_front-Supplied t set nals = elim (Bool-cases (any (has_type t) nals)) [
  | inl there ↦ rw there (brought there)
  | inr missing ↦ rw missing (added missing)
]

-- A unit of one type is not of another.
has_type_one : (t r : ℕ) (nal : List ℕ) → t ≢ r → has_type t nal ≡ true → has_type r nal ≡ false
has_type_one t r [] ne h = cc
has_type_one t r (byte ∷ rest) ne h = ground arith

-- An inserted unit of one type makes no difference to another type.
missing_front-insert_other :
    (t r : ℕ) (set unit : List ℕ) (nals : List (List ℕ))
    → has_type t unit ≡ false
    → missing_front t set (insert_missing r unit nals) ≡ missing_front t set nals
unfolding missing_front
missing_front-insert_other t r set unit nals h = elim (Bool-cases (any (has_type r) nals)) [
  | inl there ↦ rw there
  | inr missing ↦ rw (missing, h)
]

with_parameter_sets-IsComplete :
    (codec : CodecConfig) (nals : List (List ℕ))
    → has_type 7 codec.sps ≡ true
    → has_type 8 codec.pps ≡ true
    → IsComplete codec nals (with_parameter_sets (some codec) nals)
with_parameter_sets-IsComplete codec nals h7 h8 =
    let inner = insert_missing 8 codec.pps nals in
    record {
      sps = any-insert_missing 7 codec.sps inner h7;
      pps = any-insert_other 8 7 codec.sps inner (any-insert_missing 8 codec.pps nals h8);
      sps_front = missing_front 7 codec.sps nals;
      pps_front = missing_front 8 codec.pps nals;
      sps_supplied = missing_front-Supplied 7 codec.sps nals;
      pps_supplied = missing_front-Supplied 8 codec.pps nals;
      kept =
          insert_missing-front 7 codec.sps inner
          ∙ ap (λ l. missing_front 7 codec.sps inner ++ l) (insert_missing-front 8 codec.pps nals)
          ∙ ap (λ l. l ++ (missing_front 8 codec.pps nals ++ nals))
              (missing_front-insert_other 7 8 codec.sps codec.pps nals
                (has_type_one 8 7 codec.pps (omega arith) h8));
    }

-- A unit that is published as a keyframe, or that has an IDR slice, goes out as a keyframe, with an
-- SPS and a PPS: first the stream's SPS unless the unit brings an SPS, then the stream's PPS unless it
-- brings a PPS, then its own NAL units as they were, once the codec is known and its parameter sets
-- are what their types say.
pub prepare-IsComplete :
    (codec : CodecConfig) (unit : EncodedAccessUnit)
    → (unit.keyframe || any (has_type 5) unit.nal_units) ≡ true
    → has_type 7 codec.sps ≡ true
    → has_type 8 codec.pps ≡ true
    → ((prepare (some codec) unit).keyframe ≡ true)
      × IsComplete codec unit.nal_units (prepare (some codec) unit).nal_units
unfolding prepare
prepare-IsComplete codec unit key h7 h8 =
    (key, rw key (with_parameter_sets-IsComplete codec unit.nal_units h7 h8))

length-offer_all :
    (unit : EncodedAccessUnit) (cs : List Client)
    → length (offer_all unit cs) ≡ length (retain_alive cs)
unfolding offer_all retain_alive
length-offer_all unit [] = refl
length-offer_all unit (c ∷ cs) = ground (arith, length-offer_all unit cs)

-- The subscriber was given `unit` last, and no longer waits.
pub record IsCaughtUp (unit : EncodedAccessUnit) (c : Client) : Type 0 where
  pub ready : c.waiting_for_keyframe ≡ false
  pub older : List EncodedAccessUnit
  pub last : c.frames ≡ older ++ unit ∷ []

offer_keyframe :
    (unit : EncodedAccessUnit) (c : Client) → unit.keyframe ≡ true → IsCaughtUp unit (offer unit c)
unfolding offer
offer_keyframe unit c key = elim (Bool-cases (overflow c)) [
  | inl full ↦ rw (full, key) (record { ready = refl; older = []; last = refl })
  | inr room ↦ rw (room, key) (record { ready = refl; older = c.frames; last = refl })
]

offer_all_keyframe :
    (unit : EncodedAccessUnit) (cs : List Client)
    → unit.keyframe ≡ true
    → All (IsCaughtUp unit) (offer_all unit cs)
unfolding offer_all
offer_all_keyframe unit [] key = tt
offer_all_keyframe unit (c ∷ cs) key =
    if_either (All (IsCaughtUp unit)) c.alive
      (offer_keyframe unit c key, offer_all_keyframe unit cs key) (offer_all_keyframe unit cs key)

-- A keyframe ends every subscriber's wait: after it is published, every subscriber that the state
-- keeps has it at the end of its queue, however full the queue was, and waits for no other. The
-- subscribers kept are those that were alive.
pub published_keyframe_is_queued :
    (now : ℕ) (unit : EncodedAccessUnit) (s : BroadcastState)
    → (unit.keyframe || any (has_type 5) unit.nal_units) ≡ true
    → All (IsCaughtUp (prepare s.codec unit)) (publish now unit s).clients
      × (length (publish now unit s).clients ≡ length (retain_alive s.clients))
unfolding publish
published_keyframe_is_queued now unit s key =
    (offer_all_keyframe (prepare s.codec unit) s.clients key, length-offer_all _ s.clients)

retain_fresh :
    (cs : List Client) (fresh : Client)
    → fresh.alive ≡ true
    → length (retain_alive (retain_alive cs ++ fresh ∷ [])) ≡ length (retain_alive cs) + 1
unfolding retain_alive
retain_fresh [] fresh live = ground arith
retain_fresh (c ∷ cs) fresh live = ground (arith, retain_fresh cs fresh live)

retain_dropped :
    (i : ℕ) (cs : List Client) (c : Client)
    → find i cs ≡ some c
    → c.alive ≡ true
    → length (retain_alive (update i (λ d. record d { alive = false }) cs)) + 1
      ≡ length (retain_alive cs)
unfolding retain_alive update find
retain_dropped i [] c e live = cc
retain_dropped i (d ∷ cs) c e live = ground (arith, retain_dropped i cs c)

-- The viewers that `stats` counts: a subscription adds one and asks for a keyframe, and the drop of
-- an open subscription takes one away.
pub viewers_follow_subscriptions :
    (now i : ℕ) (s : BroadcastState) (c : Client)
    → find i s.clients ≡ some c
    → c.alive ≡ true
    → ((stats now (subscribe s).0).viewers ≡ (stats now s).viewers + 1)
      × ((subscribe s).0.keyframe_requested ≡ true)
      × ((stats now (drop_subscription i s)).viewers + 1 ≡ (stats now s).viewers)
unfolding stats subscribe drop_subscription
viewers_follow_subscriptions now i s c e live =
    (retain_fresh s.clients _ refl, refl, retain_dropped i s.clients c e live)
