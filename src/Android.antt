-- ===== src/Android.antt =====
-- crates/camrtsp-android/src/lib.rs: the table of servers behind the calls of the Android
-- application, and the calls. A `jint` or `jlong` is its two's complement, a number below 2 ^ 32 or
-- 2 ^ 64; what JNI gives for an argument is a result; a call that throws is an error.
pub mod Handles
use camrtsp.Common.{
  ℕ, zero, suc, ◌+◌, ◌-◌, ◌*◌, ◌/◌, ◌%◌, String, Bool, true, false, ◌&&◌, ◌||◌, not, Option, none,
  some, List, [], ◌∷◌, ◌++◌, length, take, drop, leb, ltb, in_range, ◌==◌, bit_and, if◌then◌else◌,
  Result, ok, err, ◌>>=◌, ok_or, from_be32,
}
use camrtsp.Io.{IoError}
use camrtsp.Core.{CodecConfig, EncodedAccessUnit}
use camrtsp.Split.{split_h264}
use camrtsp.Transport.{TransportPolicy, both, tcp, udp}
use camrtsp.Broadcaster.{
  BroadcastState, default, set_codec_config, publish, set_frame_rate, StreamStats, stats, has_type,
  take_keyframe_request,
}
use camrtsp.Response.{valid_path}
use camrtsp.Server.{RtspServer, bind_with_transport}

pub record ServerHandle : Type 0 where
  pub broadcaster : BroadcastState
  pub stopping : Bool
  pub worker : RtspServer  -- what its thread runs

pub record Servers : Type 0 where
  pub next_handle : ℕ
  pub servers : List (ℕ × ServerHandle)

-- NEXT_HANDLE and SERVERS at the start
abbrev pub initial : Servers
initial = record { next_handle = 1; servers = [] }

-- The message of an exception, or the error that is printed as its message.
pub data Exception : Type 0 where
  message : String → Exception
  io_failed : IoError → Exception

abbrev pub Checked {ℓ} : Type ℓ → Type ℓ
Checked A = Result Exception A

abbrev pub ensure : Bool → String → Checked (Unit {0})
ensure true m = ok tt
ensure false m = err (message m)

abbrev pub io_result {ℓ} : {A : Type ℓ} → Result IoError A → Checked A
io_result (ok a) = ok a
io_result (err e) = err (io_failed e)

-- `HashMap`'s `get`, `insert` and `remove`
unfoldable pub get_server : ℕ → List (ℕ × ServerHandle) → Option ServerHandle
get_server handle [] = none
get_server handle ((k, v) ∷ rest) = if k == handle then some v else get_server handle rest

unfoldable pub remove_server : ℕ → List (ℕ × ServerHandle) → List (ℕ × ServerHandle)
remove_server handle [] = []
remove_server handle ((k, v) ∷ rest) =
    let later = remove_server handle rest in if k == handle then later else (k, v) ∷ later

unfoldable pub insert_server : ℕ → ServerHandle → List (ℕ × ServerHandle) → List (ℕ × ServerHandle)
unfolding remove_server
insert_server handle server servers = (handle, server) ∷ remove_server handle servers

-- A call on the broadcaster of one server, which the table shares.
unfoldable pub update_server :
    ℕ → (BroadcastState → BroadcastState) → List (ℕ × ServerHandle) → List (ℕ × ServerHandle)
update_server handle f [] = []
update_server handle f ((k, v) ∷ rest) =
    let later = update_server handle f rest in
    if k == handle then (k, record v { broadcaster = f v.broadcaster }) ∷ rest else (k, v) ∷ later

abbrev pub policy_of : ℕ → Checked TransportPolicy
policy_of transport =
    if transport == 0
    then ok both
    else if transport == 1
    then ok tcp
    else if transport == 2
    then ok udp
    else err (message "invalid transport policy")

-- The arguments of `nativeCreateServer`, and what binding the port and making the thread answer.
pub record CreateCall : Type 0 where
  pub port : ℕ
  pub path : Checked (List ℕ)
  pub username : Checked (List ℕ)
  pub password : Checked (List ℕ)
  pub transport : ℕ
  pub listener : Result IoError (Unit {0})
  pub spawned : Result IoError (Unit {0})

abbrev pub credentials_of : List ℕ → List ℕ → Option (List ℕ × List ℕ)
credentials_of [] password = none
credentials_of (c ∷ cs) password = some (c ∷ cs, password)

unfoldable pub new_server : CreateCall → Checked ServerHandle
unfolding valid_path bind_with_transport
new_server call = do
  checked_port ← ensure (in_range 1 65535 call.port) "RTSP port must be in 1..65535"
  path ← call.path
  checked_path ← ensure (valid_path path) "RTSP path must start with '/'"
  username ← call.username
  password ← call.password
  checked_credentials ←
      ensure (if length username == 0 then length password == 0 else not (length password == 0))
        "supply both username and password or neither"
  transport ← policy_of call.transport
  let bound =
      bind_with_transport call.listener path 0 (credentials_of username password) transport default
  worker ← io_result bound.0
  spawned ← io_result call.spawned
  ok (record { broadcaster = bound.1; stopping = false; worker = worker })

abbrev pub add_server : Checked ServerHandle → Servers → Checked ℕ × Servers
add_server (err e) s = (err e, s)
add_server (ok server) s = (
  ok s.next_handle,
  record {
    next_handle = (s.next_handle + 1) % 18446744073709551616;
    servers = insert_server s.next_handle server s.servers;
  },
)

unfoldable pub native_create_server : CreateCall → Servers → Checked ℕ × Servers
unfolding new_server insert_server
native_create_server call s = add_server (new_server call) s

-- A call that ends with `f` on the broadcaster of a server, if there is one.
unfoldable pub on_server :
    ℕ → Checked (BroadcastState → BroadcastState) → Servers → Checked (Unit {0}) × Servers
unfolding get_server update_server
on_server handle (err e) s = (err e, s)
on_server handle (ok f) s = elim (get_server handle s.servers) [
  | none ↦ (err (message "unknown native server handle"), s)
  | some server ↦ (ok tt, record s { servers = update_server handle f s.servers })
]

-- `sps.get(1..4)`, for an SPS of four bytes or more
unfoldable pub codec_of : List ℕ → List ℕ → Checked CodecConfig
codec_of sps pps =
    if ltb (length sps) 4 || not (has_type 7 sps) || not (has_type 8 pps)
    then err (message "SPS and PPS are required")
    else ok (record { sps = sps; pps = pps; profile_level_id = take 3 (drop 1 sps) })

unfoldable pub native_set_codec_config :
    ℕ → Checked (List ℕ) → Checked (List ℕ) → Servers → Checked (Unit {0}) × Servers
unfolding on_server codec_of set_codec_config
native_set_codec_config handle sps_given pps_given s =
    on_server handle
      (do sps ← sps_given; pps ← pps_given; codec ← codec_of sps pps; ok (set_codec_config codec)) s

abbrev pub is_negative_jint : ℕ → Bool
is_negative_jint n = leb 2147483648 n

abbrev pub is_negative_jlong : ℕ → Bool
is_negative_jlong n = leb 9223372036854775808 n

-- `buffer` is what JNI gives as the address and the capacity of the buffer: its bytes.
unfoldable pub access_unit : Checked (List ℕ) → ℕ → ℕ → ℕ → ℕ → Checked EncodedAccessUnit
unfolding split_h264
access_unit buffer offset size pts_us flags = do
  checked_range ←
      ensure (not (is_negative_jint offset || is_negative_jint size || is_negative_jlong pts_us))
        "encoded access-unit range is invalid"
  bytes ← buffer
  checked_end ←
      ensure (leb (offset + size) (length bytes)) "encoded access-unit range is outside the buffer"
  let units = split_h264 (take size (drop offset bytes))
  checked_units ← ensure (ltb 0 (length units)) "encoded access unit contains no H.264 NAL units"
  ok (record {
    nal_units = units;
    pts_90khz = pts_us * 90 / 1000 % 4294967296;
    duration_90khz = 0;
    keyframe = not (bit_and flags 1 == 0);
  })

unfoldable pub native_push_access_unit :
    ℕ → ℕ → Checked (List ℕ) → ℕ → ℕ → ℕ → ℕ → Servers → Checked (Unit {0}) × Servers
unfolding on_server access_unit publish
native_push_access_unit now handle buffer offset size pts_us flags s =
    on_server handle (do unit ← access_unit buffer offset size pts_us flags; ok (publish now unit))
      s

-- The statistics with `active`, or those of no server.
unfoldable pub native_get_stats : ℕ → ℕ → Servers → Bool × StreamStats
unfolding get_server stats
native_get_stats now handle s = elim (get_server handle s.servers) [
  | none ↦ (false, record { viewers = 0; frames = 0; ready = false; last_frame_age_ms = none })
  | some server ↦ (not server.stopping, stats now server.broadcaster)
]

-- `panicked` is what the thread's `join` answers, after `stopping` has been set.
unfoldable pub native_stop_server : Bool → ℕ → Servers → Checked (Unit {0}) × Servers
unfolding get_server remove_server
native_stop_server panicked handle s = elim (get_server handle s.servers) [
  | none ↦ (err (message "unknown native server handle"), s)
  | some server ↦ (
    ensure (not panicked) "RTSP server thread panicked",
    record s { servers = remove_server handle s.servers },
  )
]

unfoldable pub native_set_frame_rate : ℕ → ℕ → ℕ → Servers → Checked (Unit {0}) × Servers
unfolding on_server set_frame_rate
native_set_frame_rate handle numerator denominator s =
    on_server handle
      (if is_negative_jint numerator || is_negative_jint denominator || denominator == 0
        then err (message "invalid frame rate")
        else ok (set_frame_rate numerator denominator))
      s

unfoldable pub native_take_keyframe_request : ℕ → Servers → Bool × Servers
unfolding get_server update_server take_keyframe_request
native_take_keyframe_request handle s = elim (get_server handle s.servers) [
  | none ↦ (false, s)
  | some server ↦ (
    (take_keyframe_request server.broadcaster).1,
    record s { servers = update_server handle (λ b. (take_keyframe_request b).0) s.servers },
  )
]
