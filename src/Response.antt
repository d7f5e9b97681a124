-- ===== src/Response.antt =====
-- crates/camrtsp-server/src/lib.rs: the texts and packets that a session writes: `respond`, `sdp`,
-- `request_path`, `valid_path` and the RTCP packets.
pub mod Rtcp
pub mod Client
use camrtsp.Common.{
  ℕ, ◌+◌, ◌*◌, ◌/◌, ◌%◌, Bool, true, false, ◌&&◌, ◌||◌, not, Option, none, some, List, [], ◌∷◌,
  ◌++◌, length, all, any, leb, ◌==◌, if◌then◌else◌, be16, be32,
}
use camrtsp.Core.{CodecConfig}
use camrtsp.Text.{chars, before, strip_prefix, starts_with}
use camrtsp.Text.Utf8.{as_bytes}
use camrtsp.Text.Numbers.{show, show_hex}
use camrtsp.Auth.{Packages}

abbrev pub crlf : List ℕ
crlf = 13 ∷ 10 ∷ []

-- The bytes of a response; `headers` are whole lines.
unfoldable pub respond : List ℕ → List ℕ → List ℕ → List ℕ → List ℕ
unfolding as_bytes show
respond cseq status headers body = as_bytes (
    chars "RTSP/1.0 "
    ++ (status
        ++ (crlf
            ++ (chars "CSeq: "
                ++ (cseq
                    ++ (crlf
                        ++ (headers
                            ++ (chars "Content-Length: "
                                ++ (show (length (as_bytes body))
                                    ++ (crlf ++ (crlf ++ body)))))))))))

-- `path.contains("//")`
unfoldable pub double_slash : List ℕ → Bool
unfolding starts_with
double_slash [] = false
double_slash (c ∷ cs) = starts_with (b'/' ∷ b'/' ∷ []) (c ∷ cs) || double_slash cs

abbrev pub is_ascii_graphic : ℕ → Bool
is_ascii_graphic b = leb 33 b && leb b 126

-- The bytes of a text that are all ASCII are its characters.
unfoldable pub valid_path : List ℕ → Bool
unfolding starts_with double_slash as_bytes
valid_path path =
    starts_with (b'/' ∷ []) path
    && not (any (λ c. c == b'?' || c == b'#') path)
    && all is_ascii_graphic (as_bytes path)
    && not (double_slash path)

-- `&rest[rest.find('/')?..]`
unfoldable pub from_slash : List ℕ → Option (List ℕ)
from_slash [] = none
from_slash (c ∷ cs) = if c == b'/' then some (c ∷ cs) else from_slash cs

abbrev pub before_query : Option (List ℕ) → Option (List ℕ)
before_query none = none
before_query (some path) = some (before b'?' path)

unfoldable pub request_path : List ℕ → Option (List ℕ)
unfolding strip_prefix from_slash starts_with before
request_path uri = elim (strip_prefix (chars "rtsp://") uri) [
  | some rest ↦ before_query (from_slash rest)
  | none ↦ if starts_with (b'/' ∷ []) uri then some (before b'?' uri) else none
]

-- `a=framerate:{}` prints `n as f64 / d as f64`, which is the argument `show_rate`.
abbrev pub framerate : (ℕ → ℕ → List ℕ) → Option (ℕ × ℕ) → List ℕ
framerate show_rate none = []
framerate show_rate (some (n, d)) = chars "a=framerate:" ++ (show_rate n d ++ crlf)

abbrev pub show_hex_all : List ℕ → List ℕ
show_hex_all [] = []
show_hex_all (b ∷ bs) = show_hex b ++ show_hex_all bs

abbrev pub line : List ℕ → List ℕ → List ℕ
line text rest = text ++ (crlf ++ rest)

unfoldable pub sdp : Packages → (ℕ → ℕ → List ℕ) → Option (ℕ × ℕ) → CodecConfig → List ℕ
unfolding show_hex
sdp packages show_rate rate codec = line (chars "v=0") (
    line (chars "o=- 0 0 IN IP4 127.0.0.1") (
      line (chars "s=camrtsp") (
        line (chars "c=IN IP4 0.0.0.0") (
          line (chars "t=0 0") (
            line (chars "a=control:*") (
              line (chars "m=video 0 RTP/AVP 96") (
                line (chars "a=rtpmap:96 H264/90000") (
                  line
                    (chars "a=fmtp:96 packetization-mode=1;profile-level-id="
                      ++ (show_hex_all codec.profile_level_id
                          ++ (chars ";sprop-parameter-sets="
                              ++ (packages.base64_encode codec.sps
                                  ++ (b',' ∷ packages.base64_encode codec.pps)))))
                    (framerate show_rate rate ++ line (chars "a=control:trackID=0") [])))))))))

-- `rtcp_sender_report`: the clock is given as seconds since 1970 and nanoseconds.
unfoldable pub rtcp_sender_report : ℕ → ℕ → ℕ → ℕ → ℕ → ℕ → List ℕ
rtcp_sender_report seconds nanos ssrc rtp_timestamp packets octets =
    0x80 ∷ 200 ∷ 0 ∷ 6 ∷ []
    ++ (be32 ssrc
        ++ (be32 ((seconds + 2208988800) % 4294967296)
            ++ (be32 (nanos * 4294967296 / 1000000000)
                ++ (be32 rtp_timestamp
                    ++ (be32 packets
                        ++ (be32 octets
                            ++ (0x81 ∷ 202 ∷ 0 ∷ 4 ∷ []
                                ++ (be32 ssrc
                                    ++ (1 ∷ 7 ∷ [] ++ (chars "camrtsp" ++ 0 ∷ 0 ∷ 0 ∷ []))))))))))

unfoldable pub rtcp_bye : ℕ → List ℕ
rtcp_bye ssrc = 0x81 ∷ 203 ∷ 0 ∷ 1 ∷ be32 ssrc
