-- ===== src/Macos/Delivery.antt =====
-- From the encoder to the viewers: the callback of VideoToolbox, the sink and the broadcaster
-- together.
use camrtsp.Common.{
  ℕ, ◌<◌, ◌≡◌, refl, true, false, some, List, [], ◌∷◌, length, All, ℤ, pos, as_u32, scaled, subst,
  sym,
}
use camrtsp.Core.{CodecConfig, EncodedAccessUnit}
use camrtsp.Broadcaster.{BroadcastState, has_type}
use camrtsp.Sink.{apply_call, apply_calls}
use camrtsp.Macos.Encoder.{SampleBuf, encoded_frame}
use camrtsp.Macos.AvccRecord.{FitsU32, written_sample, encoded_frame-written_sample}
use camrtsp.Sink.Reaching.{Reaches, publish_after_config}

abbrev pub written_config : ℕ → ℕ → ℕ → List ℕ → List ℕ → CodecConfig
written_config p c l sps pps = record { sps = sps; pps = pps; profile_level_id = p ∷ c ∷ l ∷ [] }

abbrev pub written_unit : ℕ → List (List ℕ) → ℤ → ℕ → EncodedAccessUnit
written_unit duration nals value scale = record {
  nal_units = nals;
  pts_90khz = as_u32 (scaled 90000 scale value);
  duration_90khz = duration;
  keyframe = true;
}

-- What a frame that the encoder calls back with does to the broadcaster.
abbrev pub after_frame : ℕ → ℕ → SampleBuf → BroadcastState → BroadcastState
after_frame now duration buffer source =
    apply_calls now (encoded_frame false (some duration) (some buffer)) source

-- A keyframe that the encoder wrote, with one parameter set of each kind of its right type, reaches
-- every viewer that is alive: it is the last unit of its queue, behind the record's SPS unless its
-- units bring an SPS and behind the record's PPS unless they bring a PPS, and the viewer waits for no
-- other. No viewer that is alive is lost.
pub written_keyframe-Reaches_viewers :
    (now duration p c l : ℕ) (sps pps rest nal : List ℕ) (nals : List (List ℕ)) (value : ℤ)
    (scale : ℕ) (source : BroadcastState)
    → length sps < 65536
    → length pps < 65536
    → All FitsU32 (nal ∷ nals)
    → 0 < scale
    → has_type 7 sps ≡ true
    → has_type 8 pps ≡ true
    → Reaches
        (written_config p c l sps pps)
        (written_unit duration (nal ∷ nals) value scale)
        source
        (after_frame now duration
          (written_sample true p c l sps pps rest (nal ∷ nals) value (pos scale))
          source)
written_keyframe-Reaches_viewers now duration p c l sps pps rest nal nals value scale source short
      short' fit positive seven eight =
    let codec = written_config p c l sps pps in
    let unit = written_unit duration (nal ∷ nals) value scale in
    subst (λ calls. Reaches codec unit source (apply_calls now calls source))
      (sym (
        encoded_frame-written_sample duration p c l sps pps rest nal nals value scale short short'
          fit positive))
      (unfold apply_calls apply_call in publish_after_config now codec unit source refl seven eight)
