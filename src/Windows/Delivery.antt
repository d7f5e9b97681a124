-- ===== src/Windows/Delivery.antt =====
-- From Media Foundation's encoder to the viewers: `publish_encoded_sample`, the sink and the
-- broadcaster together.
use camrtsp.Common.{
  ℕ, ◌≡◌, refl, sym, ap, ◌∙◌, subst, Bool, true, some, List, [], ◌∷◌, ◌++◌, length, All, arith,
  Result-cases, Option-cases, inl, inr, Bool-cases, Result, ok, err, pos,
}
use camrtsp.Core.{CodecConfig}
use camrtsp.Broadcaster.{BroadcastState, has_type, retain_alive, set_codec_config, publish}
use camrtsp.Sink.{SinkCall, published, configured, apply_call, apply_calls}
use camrtsp.Sink.Reaching.{Reaches, publish_after_config, set_codec_config_lem}
use camrtsp.Windows.Formats.{WinError, MediaType, codec_config_from_media_type}
use camrtsp.Windows.Callbacks.{Sample}
use camrtsp.Windows.H264.{find_type, config_of, codec_config_from_nal_units}
use camrtsp.Windows.AnnexB.{IsUnit, with_starts, units_of, split_h264-with_starts}
use camrtsp.Windows.Encoders.{unwrap_or, is_keyframe, unit_of, type_calls, publish_encoded_sample}

find_type-has_type :
    (t : ℕ) (nals : List (List ℕ)) (nal : List ℕ)
    → find_type t nals ≡ some nal
    → has_type t nal ≡ true
unfolding find_type
find_type-has_type t [] nal e = cc
find_type-has_type t (n ∷ nals) nal e = elim (Bool-cases (has_type t n)) [
  | inl here ↦ let same : n ≡ nal = cc (rw here at e) in subst (λ m. has_type t m ≡ true) same here
  | inr other ↦ find_type-has_type t nals nal (rw other at e)
]

config_of_sets :
    (sps pps : List ℕ) (codec : CodecConfig)
    → config_of sps pps ≡ some codec
    → (codec.sps ≡ sps) × (codec.pps ≡ pps)
config_of_sets [] pps codec e = cc
config_of_sets (h ∷ []) pps codec e = cc
config_of_sets (h ∷ p ∷ []) pps codec e = cc
config_of_sets (h ∷ p ∷ c ∷ []) pps codec e = cc
config_of_sets (h ∷ p ∷ c ∷ l ∷ more) pps codec e = ground arith

-- The sets that were found are of their types.
config_types :
    (nals : List (List ℕ)) (codec : CodecConfig)
    → codec_config_from_nal_units nals ≡ some codec
    → (has_type 7 codec.sps ≡ true) × (has_type 8 codec.pps ≡ true)
unfolding codec_config_from_nal_units
config_types nals codec e = elim (Option-cases (find_type 7 nals)) [
  | inl none_found ↦ cc (rw none_found at e)
  | inr (sps, seven) ↦ elim (Option-cases (find_type 8 nals)) [
    | inl none_found ↦ cc (rw (seven, none_found) at e)
    | inr (pps, eight) ↦
        let (sps_is, pps_is) = config_of_sets sps pps codec (rw (seven, eight) at e) in
        (
          subst (λ s. has_type 7 s ≡ true) (sym sps_is) (find_type-has_type 7 nals sps seven),
          subst (λ s. has_type 8 s ≡ true) (sym pps_is) (find_type-has_type 8 nals pps eight),
        )
  ]
]

apply_calls-append :
    (now : ℕ) (xs ys : List SinkCall) (source : BroadcastState)
    → apply_calls now (xs ++ ys) source ≡ apply_calls now ys (apply_calls now xs source)
unfolding apply_calls
apply_calls-append now [] ys source = refl
apply_calls-append now (x ∷ xs) ys source = apply_calls-append now xs ys (apply_call now x source)

-- The configuration of the encoder's media type loses no viewer.
type_calls-alive :
    (now : ℕ) (output_type : Result WinError MediaType) (source : BroadcastState)
    → length (retain_alive (apply_calls now (type_calls output_type) source).clients)
      ≡ length (retain_alive source.clients)
unfolding apply_calls apply_call
type_calls-alive now (err e) source = refl
type_calls-alive now (ok media_type) source =
    elim (Result-cases (codec_config_from_media_type media_type)) [
      | inl (codec, found) ↦ rw (found, type_calls) (set_codec_config_lem codec source).1
      | inr (e, missing) ↦ rw (missing, type_calls) refl
    ]

-- What is published for a sample whose units are behind start codes.
published_calls :
    (output_type : Result WinError MediaType) (sample : Sample) (codec : CodecConfig) (long : Bool)
    (nal : List ℕ) (nals : List (Bool × List ℕ))
    → sample.bytes ≡ ok (with_starts ((long, nal) ∷ nals))
    → All IsUnit ((long, nal) ∷ nals)
    → codec_config_from_nal_units (nal ∷ units_of nals) ≡ some codec
    → (publish_encoded_sample output_type sample).1
      ≡ type_calls output_type
        ++ (configured codec
            ∷ published (unit_of sample (unwrap_or (pos 0) sample.time) (nal ∷ units_of nals))
            ∷ [])
unfolding publish_encoded_sample
published_calls output_type sample codec long nal nals bytes clean config =
    rw (bytes, split_h264-with_starts ((long, nal) ∷ nals) clean, config) refl

-- An access unit that the encoder gives as a sample, with its units behind start codes, parameter
-- sets among them and the mark or the type of a keyframe, reaches every viewer that is alive: it is
-- the last unit of its queue, with an SPS and a PPS, and the viewer waits for no other. No viewer that is alive is
-- lost, whatever the encoder's media type says. Units are not empty, have no start code in them and
-- do not end in a zero byte.
pub encoded_sample-Reaches_viewers :
    (now : ℕ) (output_type : Result WinError MediaType) (sample : Sample) (codec : CodecConfig)
    (long : Bool) (nal : List ℕ) (nals : List (Bool × List ℕ)) (source : BroadcastState)
    → sample.bytes ≡ ok (with_starts ((long, nal) ∷ nals))
    → All IsUnit ((long, nal) ∷ nals)
    → codec_config_from_nal_units (nal ∷ units_of nals) ≡ some codec
    → is_keyframe sample (nal ∷ units_of nals) ≡ true
    → Reaches codec
        (unit_of sample (unwrap_or (pos 0) sample.time) (nal ∷ units_of nals))
        source
        (apply_calls now (publish_encoded_sample output_type sample).1 source)
encoded_sample-Reaches_viewers now output_type sample codec long nal nals source bytes clean config
      key =
    let unit = unit_of sample (unwrap_or (pos 0) sample.time) (nal ∷ units_of nals) in
    let calls = configured codec ∷ published unit ∷ [] in
    let typed = apply_calls now (type_calls output_type) source in
    let (seven, eight) = config_types (nal ∷ units_of nals) codec config in
    let (caught_up, count, whole) = publish_after_config now codec unit typed key seven eight in
    let opened : apply_calls now calls typed ≡ publish now unit (set_codec_config codec typed) =
      unfold apply_calls apply_call in refl in
    subst (Reaches codec unit source)
      (sym (
        ap (λ cs. apply_calls now cs source)
          (published_calls output_type sample codec long nal nals bytes clean config)
        ∙ apply_calls-append now (type_calls output_type) calls source
        ∙ opened))
      (caught_up, count ∙ type_calls-alive now output_type source, whole)
