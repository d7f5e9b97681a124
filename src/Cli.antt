-- ===== src/Cli.antt =====
-- apps/cli/src/main.rs: the parsers of the arguments, the choice of a camera and of the printed
-- addresses, and the loop that watches the stream. `clap` and the capture backend are inputs: the
-- arguments are a record of what the parsers give.
pub mod Arguments
pub mod Run
pub mod Stopping
use camrtsp.Common.{
  ℕ, zero, suc, ◌<◌, String, Bool, true, false, ◌&&◌, ◌||◌, not, Option, none, some, List, [], ◌∷◌,
  ◌++◌, get_elem?, in_range, leb, ltb, ◌==◌, same, if◌then◌else◌, Result, ok, err, ◌>>=◌, ok_or,
}
use camrtsp.Core.{
  BitrateMode, auto, bits_per_second, CameraDescriptor, CamRtspError, StreamConfig, i32_max,
  validate,
}
use camrtsp.Text.{chars, eq_ignore_ascii_case, split_once, parse_u32, parse_usize}
use camrtsp.Transport.{TransportPolicy, both, tcp, udp}
use camrtsp.Response.{valid_path}
use camrtsp.Broadcaster.{BroadcastState, StreamStats, stats, take_keyframe_request}

-- `Some((w.parse().ok()?, h.parse().ok()?))`
abbrev pub both_numbers : Option ℕ → Option ℕ → Option (ℕ × ℕ)
both_numbers (some w) (some h) = some (w, h)
both_numbers _ _ = none

abbrev pub filter_size : Option (ℕ × ℕ) → Option (ℕ × ℕ)
filter_size none = none
filter_size (some (w, h)) = if in_range 1 16384 w && in_range 1 16384 h then some (w, h) else none

unfoldable pub resolution : List ℕ → Result String (ℕ × ℕ)
unfolding split_once parse_u32
resolution value =
    ok_or "expected WIDTHxHEIGHT with each dimension in 1–16384" (elim (split_once b'x' value) [
      | none ↦ none
      | some (w, h) ↦ filter_size (both_numbers (parse_u32 w) (parse_u32 h))
    ])

abbrev pub filter_bitrate : Option ℕ → Option BitrateMode
filter_bitrate none = none
filter_bitrate (some n) = if ltb 0 n && leb n i32_max then some (bits_per_second n) else none

unfoldable pub bitrate : List ℕ → Result String BitrateMode
unfolding eq_ignore_ascii_case parse_u32
bitrate value =
    if eq_ignore_ascii_case value (chars "auto")
    then ok auto
    else ok_or "expected auto or bitrate in 1–2147483647" (filter_bitrate (parse_u32 value))

unfoldable pub stream_path : List ℕ → Result String (List ℕ)
unfolding valid_path
stream_path value =
    if valid_path value
    then ok value
    else err "expected an absolute RTSP path without whitespace, query, or fragment"

-- `clap::value_parser!(u32).range(lo..=hi)`, whose message is clap's
unfoldable pub ranged : ℕ → ℕ → List ℕ → Option ℕ
unfolding parse_u32
ranged lo hi value = elim (parse_u32 value) [
  | none ↦ none
  | some n ↦ if in_range lo hi n then some n else none
]

pub data Transport : Type 0 where
  both_transports tcp_only udp_only : Transport

abbrev pub policy_of : Transport → TransportPolicy
policy_of both_transports = both
policy_of tcp_only = tcp
policy_of udp_only = udp

-- `Args`, without the subcommand and the address
pub record Args : Type 0 where
  pub camera : List ℕ
  pub resolution : ℕ × ℕ
  pub fps : ℕ
  pub bitrate : BitrateMode
  pub gop : ℕ
  pub path : List ℕ
  pub transport : Transport
  pub username : Option (List ℕ)
  pub password : Option (List ℕ)

-- `devices.iter().find(|device| device.id.0 == camera)`
unfoldable pub find_id : List ℕ → List CameraDescriptor → Option CameraDescriptor
unfolding same
find_id camera [] = none
find_id camera (device ∷ devices) =
    if same device.id camera then some device else find_id camera devices

abbrev pub at_index : Option ℕ → List CameraDescriptor → Option CameraDescriptor
at_index none devices = none
at_index (some index) devices = get_elem? devices index

unfoldable pub find_camera : List ℕ → List CameraDescriptor → Option CameraDescriptor
unfolding find_id parse_usize
find_camera camera devices = elim (find_id camera devices) [
  | some device ↦ some device
  | none ↦ at_index (parse_usize camera) devices
]

unfoldable pub stream_config : Args → List CameraDescriptor → Result CamRtspError StreamConfig
unfolding find_camera validate
stream_config args devices = do
  camera ←
      ok_or "Camera not found. Run 'camrtsp devices' to list available cameras."
        (find_camera args.camera devices)
  let config : StreamConfig = record {
    camera = camera.id;
    requested_width = args.resolution.0;
    requested_height = args.resolution.1;
    requested_fps = args.fps;
    bitrate = args.bitrate;
    gop_seconds = args.gop;
  }
  valid ← validate config
  ok config

-- `args.username.zip(args.password)`
abbrev pub credentials : Args → Option (List ℕ × List ℕ)
credentials args = elim args.username [
  | none ↦ none
  | some u ↦ elim args.password [ none ↦ none | some p ↦ some (u, p) ]
]

-- An address: whether it is IPv4, its kind, its text and the port.
pub record Address : Type 0 where
  pub is_ipv4 : Bool
  pub is_unspecified : Bool
  pub is_loopback : Bool
  pub ip : List ℕ
  pub port : ℕ

abbrev pub loopback : Bool → ℕ → Address
loopback is_ipv4 port = record {
  is_ipv4 = is_ipv4;
  is_unspecified = false;
  is_loopback = true;
  ip = if is_ipv4 then chars "127.0.0.1" else chars "::1";
  port = port;
}

-- `local` is the address of a UDP socket that was bound and connected, if that worked.
unfoldable pub stream_addresses : Option Address → Address → List Address
stream_addresses local bound =
    if not bound.is_unspecified
    then bound ∷ []
    else loopback bound.is_ipv4 bound.port ∷ (elim local [
      | none ↦ []
      | some a ↦
          if not a.is_loopback && not a.is_unspecified
          then record a { port = bound.port } ∷ []
          else []
    ])

-- One round of the loop that watches the stream: what it does after the 50 ms.
pub data Watch : Type 0 where
  watching : (announced : Bool) → Watch
  interrupted_by_user : Watch
  failed : String → Watch

pub record Seen : Type 0 where
  pub shutdown : Bool
  pub server_finished : Bool
  pub elapsed_ms : ℕ
  pub now : ℕ

abbrev pub is_late : Option ℕ → Bool
is_late none = false
is_late (some age) = ltb 15000 age

unfoldable pub watch_stats : ℕ → StreamStats → Bool → Watch
watch_stats elapsed_ms seen announced =
    let announced' = announced || seen.ready in
    if not announced' && ltb 15000 elapsed_ms || is_late seen.last_frame_age_ms
    then failed
        "Camera stopped delivering H.264 frames. Check camera permissions, connection, and encoder availability."
    else watching announced'

-- A keyframe that the broadcaster asks for is passed on to the capture backend, whose failure is only
-- printed; what is left of it here is that the request is taken.
unfoldable pub watch_round : Seen → Bool → BroadcastState → Watch × BroadcastState
unfolding watch_stats take_keyframe_request stats
watch_round seen announced source =
    if seen.shutdown
    then (interrupted_by_user, source)
    else if seen.server_finished
    then (failed "RTSP server stopped unexpectedly", source)
    else let (source', wanted) = take_keyframe_request source in
      (watch_stats seen.elapsed_ms (stats seen.now source') announced, source')
