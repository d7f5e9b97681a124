-- ===== src/Windows/Formats.antt =====
-- The formats of a camera, the choice among them, and the configuration in a media type.
use Prim.Native.String.{◌++◌ as text_append}
use camrtsp.Common.{
  ℕ, ◌+◌, ◌*◌, ◌/◌, ◌%◌, String, Bool, ◌&&◌, ◌||◌, Option, none, some, List, [], ◌∷◌, ltb, ◌==◌,
  max, if◌then◌else◌, Result, ok, err, ◌>>=◌, ok_or, map_err, abs_diff, min_by,
}
use camrtsp.Core.{
  CamRtspError, CameraFormat, PixelFormat, nv12, yuy2, h264, unknown, StreamConfig, CodecConfig,
  CameraDescriptor, external,
}
use camrtsp.Windows.H264.{codec_config_from_sequence_header}

-- `windows::core::Error`: its code as a word, and its text.
pub record WinError : Type 0 where
  pub code : ℕ
  pub text : String

unfoldable pub media_error : String → WinError → CamRtspError
media_error context error = text_append context (
    text_append ": " (
      if error.code == 0x80070005
      then "camera access was denied; enable desktop camera access in Windows Settings > Privacy & security > Camera"
      else error.text))

-- `map_err(media_error(context))`
abbrev pub in_context {ℓ} : {A : Type ℓ} → String → Result WinError A → Result CamRtspError A
in_context context = map_err (media_error context)

pub data Subtype : Type 0 where
  h264_subtype h264_es_subtype nv12_subtype yuy2_subtype other_subtype : Subtype

-- What a media type answers. A size or a rate is a `u64` of two halves.
pub record MediaType : Type 0 where
  pub subtype : Result WinError Subtype
  pub frame_size : Result WinError ℕ
  pub frame_rate : Result WinError ℕ
  pub blob_size : Result WinError ℕ
  pub sequence_header : Result WinError (List ℕ)

abbrev pub pixel_format_of : Subtype → Result CamRtspError PixelFormat
pixel_format_of h264_subtype = ok h264
pixel_format_of h264_es_subtype = ok h264
pixel_format_of nv12_subtype = ok nv12
pixel_format_of yuy2_subtype = ok yuy2
pixel_format_of other_subtype = err "unsupported camera media subtype"

abbrev pub rate_or_30 : Result WinError ℕ → ℕ
rate_or_30 (ok rate) = rate
rate_or_30 (err e) = 30 * 4294967296 + 1

unfoldable pub camera_format : MediaType → Result CamRtspError CameraFormat
camera_format media_type = do
  subtype ← in_context "media type has no subtype" media_type.subtype
  pixel_format ← pixel_format_of subtype
  size ← in_context "media type has no frame size" media_type.frame_size
  let rate = rate_or_30 media_type.frame_rate
  ok (record {
    width = size / 4294967296;
    height = size % 4294967296;
    fps_num = rate / 4294967296;
    fps_den = max (rate % 4294967296) 1;
    pixel_format = pixel_format;
  })

-- The native media types of a reader, and the error that ends them where it is not that there are no
-- more.
pub record NativeTypes : Type 0 where
  pub types : List MediaType
  pub stopped_by : Option WinError

abbrev pub keep_format :
    MediaType
    → Result CamRtspError CameraFormat
    → List (MediaType × CameraFormat)
    → List (MediaType × CameraFormat)
keep_format media_type (ok format) later = (media_type, format) ∷ later
keep_format media_type (err e) later = later

unfoldable pub with_formats : List MediaType → List (MediaType × CameraFormat)
unfolding camera_format
with_formats [] = []
with_formats (media_type ∷ types) =
    keep_format media_type (camera_format media_type) (with_formats types)

abbrev pub formats_of : List (MediaType × CameraFormat) → List CameraFormat
formats_of [] = []
formats_of ((media_type, format) ∷ rest) = format ∷ formats_of rest

-- The formats of a camera, if it can be activated and a reader be made for it.
unfoldable pub enumerate_formats :
    Result WinError (Unit {0})
    → Result WinError NativeTypes
    → Result CamRtspError (List CameraFormat)
unfolding with_formats
enumerate_formats activated reader = do
  source ← in_context "unable to activate camera for format enumeration" activated
  native ← in_context "unable to create format Source Reader" reader
  elim native.stopped_by [
    | none ↦ ok (formats_of (with_formats native.types))
    | some e ↦ err (media_error "unable to inspect camera media type" e)
  ]

-- `format_score`, a triple that is compared from the left
abbrev pub kind_score : PixelFormat → ℕ
kind_score h264 = 0
kind_score nv12 = 1
kind_score yuy2 = 2
kind_score unknown = 9

unfoldable pub format_score : StreamConfig → CameraFormat → ℕ × ℕ × ℕ
format_score config format = (
  kind_score format.pixel_format,
  abs_diff format.width config.requested_width + abs_diff format.height config.requested_height,
  abs_diff (config.requested_fps * format.fps_den) format.fps_num,
)

abbrev pub lex_less : ℕ × ℕ × ℕ → ℕ × ℕ × ℕ → Bool
lex_less (a, b, c) (x, y, z) = ltb a x || a == x && (ltb b y || b == y && ltb c z)

abbrev pub scores_less : StreamConfig → MediaType × CameraFormat → MediaType × CameraFormat → Bool
scores_less config a b = lex_less (format_score config a.1) (format_score config b.1)

unfoldable pub choose_media_type :
    StreamConfig → NativeTypes → Result CamRtspError (MediaType × CameraFormat)
unfolding with_formats min_by format_score
choose_media_type config native = elim native.stopped_by [
  | some e ↦ err (media_error "unable to enumerate camera media types" e)
  | none ↦
      ok_or "camera has no H.264, NV12, or YUY2 capture format"
        (min_by (scores_less config) (with_formats native.types))
]

-- A device, as its friendly name and symbolic link; what enumerating its formats answers.
pub record DeviceActivation : Type 0 where
  pub name : List ℕ
  pub id : List ℕ
  pub formats : Result CamRtspError (List CameraFormat)

abbrev pub unwrap_or_default : Result CamRtspError (List CameraFormat) → List CameraFormat
unwrap_or_default (ok formats) = formats
unwrap_or_default (err e) = []

unfoldable pub descriptors : List DeviceActivation → List CameraDescriptor
descriptors [] = []
descriptors (device ∷ devices) =
    record {
      id = device.id;
      name = device.name;
      position = external;
      formats = unwrap_or_default device.formats;
    }
    ∷ descriptors devices

abbrev pub some_cameras : List CameraDescriptor → Result CamRtspError (List CameraDescriptor)
some_cameras [] = err "no Windows video cameras are available"
some_cameras (camera ∷ cameras) = ok (camera ∷ cameras)

unfoldable pub enumerate_devices :
    Result CamRtspError (List DeviceActivation) → Result CamRtspError (List CameraDescriptor)
unfolding descriptors
enumerate_devices activations = do devices ← activations; some_cameras (descriptors devices)

unfoldable pub codec_config_from_media_type : MediaType → Result CamRtspError CodecConfig
unfolding codec_config_from_sequence_header
codec_config_from_media_type media_type = do
  size ← map_err (λ e. "H.264 camera media type did not provide SPS/PPS") media_type.blob_size
  blob ← in_context "unable to read H.264 sequence header" media_type.sequence_header
  ok_or "H.264 sequence header did not contain SPS and PPS" (codec_config_from_sequence_header blob)
