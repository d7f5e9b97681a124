-- ===== src/Transport.antt =====
-- crates/camrtsp-server/src/lib.rs: the choice of a transport (`negotiate_transport` and what it
-- calls) and `Delivery`. An IP address is its printed form; a bound `UdpSocket` is the address that
-- it was bound to; whether the system lets a port be bound is the argument `can_bind`.
pub mod Policy
use camrtsp.Common.{
  ℕ, zero, suc, ◌+◌, ◌/◌, ◌%◌, Bool, true, false, ◌&&◌, ◌||◌, not, Option, none, some, List, [],
  ◌∷◌, ◌++◌, length, any, leb, ◌==◌, same, if◌then◌else◌,
}
use camrtsp.Text.{
  chars, trim, to_ascii_lowercase, split, split_once, before, strip_prefix, parse_u16,
}
use camrtsp.Text.Numbers.{show}

pub data TransportPolicy : Type 0 where
  tcp udp both : TransportPolicy

abbrev pub is_tcp : TransportPolicy → Bool
is_tcp tcp = true
is_tcp _ = false

abbrev pub is_udp : TransportPolicy → Bool
is_udp udp = true
is_udp _ = false

pub record SocketAddr : Type 0 where
  pub ip : List ℕ
  pub port : ℕ

pub data Delivery : Type 0 where
  over_tcp : ℕ → ℕ → Delivery
  over_udp : (rtp rtcp client_rtp client_rtcp : SocketAddr) → Delivery

-- `value.split(';').find_map(|part| part.trim().strip_prefix("key="))`
unfoldable pub first_with_prefix : List ℕ → List (List ℕ) → Option (List ℕ)
unfolding trim strip_prefix
first_with_prefix prefix [] = none
first_with_prefix prefix (part ∷ parts) =
    let rest = first_with_prefix prefix parts in
    elim (strip_prefix prefix (trim part)) [ none ↦ rest | some value ↦ some value ]

unfoldable pub parameter : List ℕ → List ℕ → Option (List ℕ)
unfolding first_with_prefix split
parameter value key = first_with_prefix (key ++ b'=' ∷ []) (split b';' value)

abbrev pub both_parsed : Option ℕ → Option ℕ → Option (ℕ × ℕ)
both_parsed (some a) (some b) = some (a, b)
both_parsed _ _ = none

unfoldable pub parse_pair : List ℕ → Option (ℕ × ℕ)
unfolding split_once parse_u16
parse_pair value = elim (split_once b'-' value) [
  | none ↦ none
  | some (first, second) ↦ both_parsed (parse_u16 first) (parse_u16 second)
]

-- The rounds of `(50_000..60_000).step_by(2)` that are left, from `port` on.
unfoldable pub bind_from : (ℕ → Bool) → ℕ → ℕ → Option (ℕ × ℕ)
bind_from can_bind zero port = none
bind_from can_bind (suc rounds) port =
    let later = bind_from can_bind rounds (port + 2) in
    if can_bind port && can_bind (port + 1) then some (port, port + 1) else later

unfoldable pub bind_udp_pair : (ℕ → Bool) → Option (ℕ × ℕ)
unfolding bind_from
bind_udp_pair can_bind = bind_from can_bind 5000 50000

-- What one alternative of the header leads to: a transport, the next alternative, or an error.
pub data Choice : Type 0 where
  chosen : Delivery → Choice
  next_alternative : Choice
  refused : Choice

-- `None => (0, 1)`, and the guard on the channels of a pair
abbrev pub checked_channels : Option (ℕ × ℕ) → Choice
checked_channels none = next_alternative
checked_channels (some (a, b)) =
    if not (a == b) && leb a 255 && leb b 255 then chosen (over_tcp a b) else next_alternative

abbrev pub channels : Option (List ℕ) → Choice
channels none = chosen (over_tcp 0 1)
channels (some value) = checked_channels (parse_pair value)

unfoldable pub udp_sockets : List ℕ → List ℕ → Option (ℕ × ℕ) → ℕ → ℕ → Choice
udp_sockets client_ip local_ip none rtp_port rtcp_port = refused
udp_sockets client_ip local_ip (some (rtp, rtcp)) rtp_port rtcp_port = chosen (
    over_udp (record { ip = local_ip; port = rtp }) (record { ip = local_ip; port = rtcp })
      (record { ip = client_ip; port = rtp_port }) (record { ip = client_ip; port = rtcp_port }))

-- `parameter(&lower, "client_port").and_then(parse_pair)`
abbrev pub and_then_pair : Option (List ℕ) → Option (ℕ × ℕ)
and_then_pair none = none
and_then_pair (some value) = parse_pair value

module _ (can_bind : ℕ → Bool) (client_ip local_ip : List ℕ) where
  unfoldable pub client_ports : Option (ℕ × ℕ) → Choice
  unfolding udp_sockets bind_udp_pair
  client_ports none = next_alternative
  client_ports (some (rtp_port, rtcp_port)) =
      if rtp_port == 0 || rtcp_port == 0 || rtp_port == rtcp_port
      then next_alternative
      else udp_sockets client_ip local_ip (bind_udp_pair can_bind) rtp_port rtcp_port

  -- One alternative, in lower case.
  unfoldable pub alternative : TransportPolicy → List ℕ → Choice
  unfolding client_ports parameter parse_pair split before trim same
  alternative policy lower =
      let protocol = trim (before b';' lower) in
      if any (λ part. same (trim part) (chars "multicast")) (split b';' lower)
      then next_alternative
      else if same protocol (chars "rtp/avp/tcp") && not (is_udp policy)
      then channels (parameter lower (chars "interleaved"))
      else if (same protocol (chars "rtp/avp") || same protocol (chars "rtp/avp/udp"))
          && not (is_tcp policy)
      then client_ports (and_then_pair (parameter lower (chars "client_port")))
      else next_alternative

  unfoldable pub alternatives : TransportPolicy → List (List ℕ) → Option Delivery
  unfolding alternative to_ascii_lowercase
  alternatives policy [] = none
  alternatives policy (value ∷ values) =
      let rest = alternatives policy values in
      elim (alternative policy (to_ascii_lowercase value)) [
        | chosen delivery ↦ some delivery
        | next_alternative ↦ rest
        | refused ↦ none
      ]

  unfoldable pub negotiate_transport : List ℕ → TransportPolicy → Option Delivery
  unfolding alternatives split
  negotiate_transport value policy = alternatives policy (split b',' value)

-- `transport_header`
unfoldable pub transport_header : Delivery → List ℕ
unfolding show
transport_header (over_tcp a b) =
    chars "RTP/AVP/TCP;unicast;interleaved=" ++ (show a ++ (chars "-" ++ show b))
transport_header (over_udp rtp rtcp client_rtp client_rtcp) =
    chars "RTP/AVP;unicast;client_port="
    ++ (show client_rtp.port
        ++ (chars "-"
            ++ (show client_rtcp.port
                ++ (chars ";server_port="
                    ++ (show rtp.port
                        ++ (chars "-" ++ (show rtcp.port ++ (chars ";source=" ++ rtp.ip))))))))

-- What leaves the server: bytes on the control connection, or a datagram between two addresses.
pub data Output : Type 0 where
  stream : List ℕ → Output
  datagram : (source destination : SocketAddr) → List ℕ → Output

-- `[b'$', channel, (len >> 8) as u8, len as u8]`
abbrev pub frame_header : ℕ → List ℕ → List ℕ
frame_header channel packet =
    b'$' ∷ channel ∷ (length packet / 256 % 256) ∷ (length packet % 256) ∷ []

-- The writes of `send_rtp` and `send_rtcp`, in order.
unfoldable pub rtp_writes : Delivery → List ℕ → List Output
rtp_writes (over_tcp a b) packet = stream (frame_header a packet) ∷ stream packet ∷ []
rtp_writes (over_udp rtp rtcp client_rtp client_rtcp) packet = datagram rtp client_rtp packet ∷ []

unfoldable pub rtcp_writes : Delivery → List ℕ → List Output
rtcp_writes (over_tcp a b) packet = stream (frame_header b packet) ∷ stream packet ∷ []
rtcp_writes (over_udp rtp rtcp client_rtp client_rtcp) packet =
    datagram rtcp client_rtcp packet ∷ []
