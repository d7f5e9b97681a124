-- ===== src/Macos/Devices.antt =====
-- The cameras that there are, the permission to use them, and the choice of a resolution.
use Prim.Native.String.{◌++◌ as text_append}
use camrtsp.Common.{
  ℕ, ◌+◌, String, Bool, true, false, ◌&&◌, Option, none, some, List, [], ◌∷◌, ◌++◌, ltb,
  if◌then◌else◌, Result, ok, err, ℤ, as_u32, abs_diff, min_by, filter,
}
use camrtsp.Core.{CamRtspError, CameraDescriptor, CameraFormat, external, unknown}

-- `cm::Time`
pub record Time : Type 0 where
  pub value : ℤ
  pub scale : ℤ

pub record Range : Type 0 where
  pub min_frame_duration : Time
  pub max_frame_duration : Time

pub record DeviceFormat : Type 0 where
  pub width : ℕ
  pub height : ℕ
  pub ranges : List Range

pub record Device : Type 0 where
  pub is_connected : Bool
  pub has_video : Bool
  pub unique_id : List ℕ
  pub localized_name : List ℕ
  pub formats : List DeviceFormat

abbrev pub camera_formats : ℕ → ℕ → List Range → List CameraFormat
camera_formats width height [] = []
camera_formats width height (range ∷ ranges) =
    record {
      width = width;
      height = height;
      fps_num = as_u32 range.min_frame_duration.scale;
      fps_den = as_u32 range.min_frame_duration.value;
      pixel_format = unknown;
    }
    ∷ camera_formats width height ranges

unfoldable pub all_formats : List DeviceFormat → List CameraFormat
all_formats [] = []
all_formats (format ∷ formats) =
    camera_formats format.width format.height format.ranges ++ all_formats formats

unfoldable pub descriptors : List Device → List CameraDescriptor
unfolding all_formats
descriptors [] = []
descriptors (device ∷ devices) =
    let later = descriptors devices in
    if device.is_connected && device.has_video
    then record {
      id = device.unique_id;
      name = device.localized_name;
      position = external;
      formats = all_formats device.formats;
    }
      ∷ later
    else later

abbrev pub some_cameras : List CameraDescriptor → Result CamRtspError (List CameraDescriptor)
some_cameras [] = err "no camera devices are available"
some_cameras (camera ∷ cameras) = ok (camera ∷ cameras)

unfoldable pub enumerate : List Device → Result CamRtspError (List CameraDescriptor)
unfolding descriptors
enumerate devices = some_cameras (descriptors devices)

pub data AuthorizationStatus : Type 0 where
  allowed denied restricted not_determined : AuthorizationStatus

abbrev pub reply_of_user : Option Bool → Result CamRtspError (Unit {0})
reply_of_user (some true) = ok tt
reply_of_user (some false) =
    err "camera access was denied; enable camrtsp in System Settings > Privacy & Security > Camera"
reply_of_user none = err "timed out waiting for the macOS camera permission response"

-- The status, whether the request for access could be made, and the answer within a minute.
unfoldable pub ensure_camera_authorized :
    Result String AuthorizationStatus
    → Result String (Unit {0})
    → Option Bool
    → Result CamRtspError (Unit {0})
ensure_camera_authorized (err e) requested reply =
    err (text_append "unable to read macOS camera permission: " e)
ensure_camera_authorized (ok allowed) requested reply = ok tt
ensure_camera_authorized (ok denied) requested reply =
    err "camera access is denied; enable camrtsp in System Settings > Privacy & Security > Camera"
ensure_camera_authorized (ok restricted) requested reply =
    err "camera access is restricted by macOS policy"
ensure_camera_authorized (ok not_determined) (err e) reply =
    err (text_append "unable to request macOS camera permission: " e)
ensure_camera_authorized (ok not_determined) (ok _) reply = reply_of_user reply

abbrev pub candidates : List (ℕ × ℕ)
candidates = (1920, 1080) ∷ (1280, 720) ∷ (960, 540) ∷ (640, 480) ∷ []

-- `supports` is `supports_preset` of the candidate's preset.
unfoldable pub supported : (ℕ × ℕ → Bool) → List (ℕ × ℕ)
unfolding filter
supported supports = filter supports candidates

abbrev pub distance : ℕ → ℕ → ℕ × ℕ → ℕ
distance width height size = abs_diff size.0 width + abs_diff size.1 height

abbrev pub is_nearer : ℕ → ℕ → ℕ × ℕ → ℕ × ℕ → Bool
is_nearer width height a b = ltb (distance width height a) (distance width height b)

abbrev pub unwrap_or_vga : Option (ℕ × ℕ) → ℕ × ℕ
unwrap_or_vga none = (640, 480)
unwrap_or_vga (some size) = size

unfoldable pub choose_preset : (ℕ × ℕ → Bool) → ℕ → ℕ → ℕ × ℕ
unfolding supported min_by
choose_preset supports width height =
    unwrap_or_vga (min_by (is_nearer width height) (supported supports))
