-- ===== src/Cli/Arguments.antt =====
-- What the parsers of the arguments let through.
use camrtsp.Common.{
  String, ℕ, ◌≡◌, refl, true, false, Option, none, some, List, in_range, if◌then◌else◌, arith, ok,
  ok_or, Bool-cases, inl, inr,
}
use camrtsp.Core.{BitrateMode, auto, bits_per_second, bad_bitrate, CameraDescriptor, validate}
use camrtsp.Text.{chars, eq_ignore_ascii_case, split_once, parse_u32}
use camrtsp.Cli.{
  resolution, bitrate, ranged, both_numbers, filter_size, filter_bitrate, Args, stream_config,
  find_camera,
}

IsSize : ℕ × ℕ → Type 0
IsSize size = (in_range 1 16384 size.0 ≡ true) × (in_range 1 16384 size.1 ≡ true)

filtered-IsSize :
    (given : Option (ℕ × ℕ)) (size : ℕ × ℕ) → filter_size given ≡ some size → IsSize size
unfolding IsSize
filtered-IsSize none size e = cc
filtered-IsSize (some (w, h)) size e = ground arith

or_error {ℓ} :
    {A : Type ℓ} (m : String) (o : Option A) (a : A) → ok_or {E = String} m o ≡ ok a → o ≡ some a
or_error m none a e = cc
or_error m (some x) a e = cc

resolution-IsSize : (value : List ℕ) (size : ℕ × ℕ) → resolution value ≡ ok size → IsSize size
unfolding resolution
resolution-IsSize value size e = split (split_once b'x' value) (or_error _ _ size e)
  where
    split :
        (parts : Option (List ℕ × List ℕ))
        → elim parts [
          | none ↦ none
          | some (w, h) ↦ filter_size (both_numbers (parse_u32 w) (parse_u32 h))
        ]
          ≡ some size
        → IsSize size
    split none e = cc
    split (some (w, h)) e = filtered-IsSize (both_numbers (parse_u32 w) (parse_u32 h)) size e

filtered_bitrate :
    (given : Option ℕ) (mode : BitrateMode)
    → filter_bitrate given ≡ some mode
    → bad_bitrate mode ≡ false
filtered_bitrate none mode e = cc
filtered_bitrate (some n) auto e = refl
filtered_bitrate (some n) (bits_per_second k) e = ground arith

bitrate_good :
    (value : List ℕ) (mode : BitrateMode) → bitrate value ≡ ok mode → bad_bitrate mode ≡ false
unfolding bitrate
bitrate_good value mode e = elim (Bool-cases (eq_ignore_ascii_case value (chars "auto"))) [
  | inl is_auto ↦ named mode (or_error "" (some auto) mode (rw is_auto at e))
  | inr other ↦ filtered_bitrate (parse_u32 value) mode (or_error _ _ mode (rw other at e))
]
  where
    named : (mode : BitrateMode) → some auto ≡ some mode → bad_bitrate mode ≡ false
    named auto e = refl
    named (bits_per_second n) e = cc

ranged_good :
    (lo hi : ℕ) (value : List ℕ) (n : ℕ) → ranged lo hi value ≡ some n → in_range lo hi n ≡ true
unfolding ranged
ranged_good lo hi value n e = found (parse_u32 value) e
  where
    found :
        (o : Option ℕ)
        → elim o [ none ↦ none | some k ↦ if in_range lo hi k then some k else none ] ≡ some n
        → in_range lo hi n ≡ true
    found none e = cc
    found (some k) e = ground arith

-- What the parsers of the arguments accept is never refused by `validate`: with a camera that is
-- found, the stream's configuration is made, for that camera and with the parsed numbers.
pub stream_config_accepts :
    (args : Args) (devices : List CameraDescriptor) (camera : CameraDescriptor)
    (size rate fps gop : List ℕ)
    → resolution size ≡ ok args.resolution
    → bitrate rate ≡ ok args.bitrate
    → ranged 1 240 fps ≡ some args.fps
    → ranged 1 60 gop ≡ some args.gop
    → find_camera args.camera devices ≡ some camera
    → stream_config args devices
      ≡ ok (record {
        camera = camera.id;
        requested_width = args.resolution.0;
        requested_height = args.resolution.1;
        requested_fps = args.fps;
        bitrate = args.bitrate;
        gop_seconds = args.gop;
      })
unfolding stream_config validate
stream_config_accepts args devices camera size rate fps gop es er ef eg found =
    let sizes = resolution-IsSize size args.resolution es in
    let width : in_range 1 16384 args.resolution.0 ≡ true = unfold IsSize in sizes.0 in
    let height : in_range 1 16384 args.resolution.1 ≡ true = unfold IsSize in sizes.1 in
    rw
      (
        found,
        width,
        height,
        ranged_good 1 240 fps args.fps ef,
        ranged_good 1 60 gop args.gop eg,
        bitrate_good rate args.bitrate er,
      )
      refl
