-- ===== src/Sink/Reaching.antt =====
-- A configuration and a keyframe that a backend sends through the sink: what the viewers get.
use camrtsp.Common.{
  ℕ, suc, ◌≡◌, refl, ap, ◌∙◌, true, some, List, [], ◌∷◌, length, All, any, ◌||◌, Bool-cases, inl,
  inr, subst,
}
use camrtsp.Core.{CodecConfig, EncodedAccessUnit}
use camrtsp.Broadcaster.{
  BroadcastState, Client, has_type, prepare, publish, set_codec_config, codec_changed, clear_all,
  retain_alive,
}
use camrtsp.Broadcaster.Publish.{
  IsCaughtUp, IsComplete, published_keyframe_is_queued, prepare-IsComplete,
}

length-clear_all :
    (cs : List Client) → length (retain_alive (clear_all cs)) ≡ length (retain_alive cs)
unfolding retain_alive clear_all
length-clear_all [] = refl
length-clear_all (c ∷ cs) = elim (Bool-cases c.alive) [
  | inl alive ↦ rw alive (ap suc (length-clear_all cs))
  | inr gone ↦ rw gone (length-clear_all cs)
]

-- A new configuration keeps the subscribers that are alive, and is the state's from then on.
pub set_codec_config_lem :
    (codec : CodecConfig) (s : BroadcastState)
    → ((set_codec_config codec s).codec ≡ some codec)
      × (length (retain_alive (set_codec_config codec s).clients) ≡ length (retain_alive s.clients))
unfolding set_codec_config
set_codec_config_lem codec s = elim (Bool-cases (codec_changed s.codec codec)) [
  | inl changed ↦ rw changed (refl, length-clear_all s.clients)
  | inr same ↦ rw same (refl, refl)
]

-- Every viewer that is alive has the keyframe last in its queue, with the codec's parameter sets in
-- front of the units unless these bring their own, and none of them is lost.
abbrev pub Reaches : CodecConfig → EncodedAccessUnit → BroadcastState → BroadcastState → Type 0
Reaches codec unit before after =
    All (IsCaughtUp (prepare (some codec) unit)) after.clients
    × (length after.clients ≡ length (retain_alive before.clients))
    × IsComplete codec unit.nal_units (prepare (some codec) unit).nal_units

pub publish_after_config :
    (now : ℕ) (codec : CodecConfig) (unit : EncodedAccessUnit) (source : BroadcastState)
    → unit.keyframe ≡ true
    → has_type 7 codec.sps ≡ true
    → has_type 8 codec.pps ≡ true
    → Reaches codec unit source (publish now unit (set_codec_config codec source))
publish_after_config now codec unit source key seven eight =
    let (known, alive) = set_codec_config_lem codec source in
    let is_key : (unit.keyframe || any (has_type 5) unit.nal_units) ≡ true = rw key refl in
    let (caught_up, count) =
      published_keyframe_is_queued now unit (set_codec_config codec source) is_key in
    (
      subst
          (λ known.
            All (IsCaughtUp (prepare known unit))
              (publish now unit (set_codec_config codec source)).clients)
          known caught_up,
      count ∙ alive,
      (prepare-IsComplete codec unit is_key seven eight).1,
    )
