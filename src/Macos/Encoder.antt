-- ===== src/Macos/Encoder.antt =====
-- The two callbacks: a captured frame goes to the encoder, and an encoded frame to the sink.
use camrtsp.Common.{
  ℕ, String, Bool, true, false, Option, none, some, List, [], ◌∷◌, ◌++◌, and_then, Result, ok, err,
  ℤ, is_positive, scaled, as_u32, pos, if◌then◌else◌,
}
use camrtsp.Core.{CodecConfig}
use camrtsp.Sink.{SinkCall, published, configured}
use camrtsp.Macos.Avcc.{parse_avcc_config, split_avcc}

-- A captured frame: whether it has an image, and whether the encoder takes it.
pub record Frame : Type 0 where
  pub has_image : Bool
  pub encoded : Result String (Unit {0})

-- What the encoder was asked for: a frame, and whether it must be a keyframe.
pub data Asked : Type 0 where
  encode_frame : (force : Bool) → Asked

abbrev pub after_encode : Result String (Unit {0}) → Bool
after_encode (ok _) = false
after_encode (err e) = true

-- The callback of a captured frame, on the flag `force_keyframe`: `swap(false)`, and `store(true)`
-- where the encoder fails.
unfoldable pub did_output_sample : Frame → Bool → Bool × List Asked
did_output_sample frame force =
    if frame.has_image then (after_encode frame.encoded, encode_frame force ∷ []) else (force, [])

-- An encoded frame: `format_desc` with its `avcc`, the bytes of `data_buf`, and the time.
pub record SampleBuf : Type 0 where
  pub is_key_frame : Bool
  pub format_desc : Option (Option (List ℕ))
  pub data_buf : Option (Option (List ℕ))
  pub pts_value : ℤ
  pub pts_scale : ℤ

unfoldable pub codec_config : SampleBuf → Option CodecConfig
unfolding parse_avcc_config
codec_config buffer =
    and_then buffer.format_desc λ description. and_then description λ avcc. parse_avcc_config avcc

abbrev pub config_calls : Bool → Option CodecConfig → List SinkCall
config_calls true (some config) = configured config ∷ []
config_calls _ _ = []

-- `(value * 90_000 / scale) as u32`
abbrev pub pts_90khz : ℤ → ℤ → ℕ
pts_90khz value (pos scale) = as_u32 (scaled 90000 scale value)
pts_90khz value scale = 0

unfoldable pub unit_calls : ℕ → SampleBuf → List (List ℕ) → List SinkCall
unit_calls default_duration_90khz buffer [] = []
unit_calls default_duration_90khz buffer (nal ∷ nals) =
    if is_positive buffer.pts_scale
    then published (record {
      nal_units = nal ∷ nals;
      pts_90khz = pts_90khz buffer.pts_value buffer.pts_scale;
      duration_90khz = default_duration_90khz;
      keyframe = buffer.is_key_frame;
    })
      ∷ []
    else []

abbrev pub data_calls : ℕ → SampleBuf → Option (List ℕ) → List SinkCall
data_calls default_duration_90khz buffer none = []
data_calls default_duration_90khz buffer (some bytes) =
    unit_calls default_duration_90khz buffer (split_avcc bytes)

-- `encoded_frame`, with the context's default duration; none is a null context.
unfoldable pub encoded_frame : Bool → Option ℕ → Option SampleBuf → List SinkCall
unfolding codec_config unit_calls split_avcc
encoded_frame status_is_err none buffer = []
encoded_frame status_is_err (some default_duration_90khz) none = []
encoded_frame status_is_err (some default_duration_90khz) (some buffer) =
    if status_is_err
    then []
    else config_calls buffer.is_key_frame (codec_config buffer)
      ++ data_calls default_duration_90khz buffer (and_then buffer.data_buf (λ slice. slice))
