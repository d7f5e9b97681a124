-- ===== src/Windows/OutputType.antt =====
-- The media type that the encoder is asked for, and the encoders that there are.
use camrtsp.Common.{
  ℕ, ◌+◌, ◌*◌, ◌/◌, Option, none, some, List, [], ◌∷◌, max, Result, ok, err, ◌>>=◌,
}
use camrtsp.Core.{
  CamRtspError, CameraFormat, PixelFormat, nv12, yuy2, StreamConfig, saturating_mul, resolve,
}
use camrtsp.Windows.Formats.{WinError, in_context}

-- The attributes of the media type that the encoder puts out.
pub data Setting : Type 0 where
  major_type_video subtype_h264 progressive main_profile : Setting
  frame_size : ℕ → Setting
  frame_rate : ℕ → Setting
  avg_bitrate : ℕ → Setting
  max_keyframe_spacing : ℕ → Setting

-- A size or a rate, in the halves of a `u64`
abbrev pub halves : ℕ → ℕ → ℕ
halves high low = high * 4294967296 + low

-- `set` is what setting an attribute answers; the type is the list of what was set.
unfoldable pub h264_output_type :
    Result WinError (Unit {0})
    → (Setting → Result WinError (Unit {0}))
    → CameraFormat
    → StreamConfig
    → Result CamRtspError (List Setting)
unfolding resolve
h264_output_type created set format config = do
  let size = frame_size (halves format.width format.height)
  let rate = frame_rate (halves (max format.fps_num 1) (max format.fps_den 1))
  let bitrate =
      avg_bitrate
        (resolve config.bitrate format.width format.height (format.fps_num / max format.fps_den 1))
  let spacing =
      max_keyframe_spacing
        (saturating_mul format.fps_num (max config.gop_seconds 1) / max format.fps_den 1)
  output ← in_context "unable to create H.264 encoder output media type" created
  major ← in_context "unable to set H.264 output major type" (set major_type_video)
  subtype ← in_context "unable to set H.264 output subtype" (set subtype_h264)
  sized ← in_context "unable to set H.264 output frame size" (set size)
  rated ← in_context "unable to set H.264 output frame rate" (set rate)
  limited ← in_context "unable to set H.264 output bitrate" (set bitrate)
  whole ← in_context "unable to set progressive H.264 output" (set progressive)
  profile ← in_context "unable to set H.264 Main profile" (set main_profile)
  spaced ← in_context "unable to set H.264 keyframe interval" (set spacing)
  ok (
      major_type_video ∷ subtype_h264 ∷ size ∷ rate ∷ bitrate ∷ progressive ∷ main_profile ∷ spacing
      ∷ [])

-- The encoders that `MFTEnumEx` finds for an input format, without the empty places.
abbrev pub present {ℓ} : {A : Type ℓ} → List (Option A) → List A
present [] = []
present (none ∷ rest) = present rest
present (some a ∷ rest) = a ∷ present rest

unfoldable pub encoder_activations :
    {A : Type 0}
    → PixelFormat
    → (PixelFormat → Result WinError (List (Option A)))
    → Result CamRtspError (List A)
encoder_activations nv12 enumerate =
    in_context "unable to enumerate H.264 encoder transforms" (enumerate nv12) >>= λ found.
    ok (present found)
encoder_activations yuy2 enumerate =
    in_context "unable to enumerate H.264 encoder transforms" (enumerate yuy2) >>= λ found.
    ok (present found)
encoder_activations _ enumerate = err "unsupported raw encoder input format"
