-- ===== src/Session/Answers/Lines.antt =====
-- The header lines of the answers.
use camrtsp.Common.{
  ℕ, ◌≡◌, ◌≢◌, refl, sym, subst, some, List, [], ◌∷◌, ◌++◌, All-append, All-imp, arith, ◌==◌,
  if_either, Option-cases, inl, inr,
}
use camrtsp.Text.{chars, before, strip_prefix, trim_end_matches}
use camrtsp.Text.Numbers.{show}
use camrtsp.Text.Decimal.{IsDigit, show-IsDigit}
use camrtsp.Text.Lines.{NoReturn}
use camrtsp.Text.Kept.{before-All, strip_prefix-All, trim_end_matches-All}
use camrtsp.Text.Utf8.{as_bytes, encode_char}
use camrtsp.Request.{Request, header}
use camrtsp.Response.Client.{IsHeaderLine}
use camrtsp.Transport.{Delivery, over_tcp, over_udp, transport_header}
use camrtsp.Transport.Policy.{IsFit, negotiate_transport-IsFit}
use camrtsp.Session.{Config, Tick}
use camrtsp.Session.Control.{after_last, content_base, negotiated}

pub session_line :
    (c : Config) → NoReturn c.session_id → IsHeaderLine (chars "Session: " ++ c.session_id)
session_line c h = (
  All-append (λ b. b ≢ 13) (chars "Session: ") c.session_id (omega arith) h,
  tt,
  unfold as_bytes encode_char strip_prefix in refl,
)

pub transport_line : (value : List ℕ) → NoReturn value → IsHeaderLine (chars "Transport: " ++ value)
transport_line value h = (
  All-append (λ b. b ≢ 13) (chars "Transport: ") value (omega arith) h,
  tt,
  unfold as_bytes encode_char strip_prefix in refl,
)

pub base_line :
    (value : List ℕ)
    → NoReturn value
    → IsHeaderLine (chars "Content-Base: " ++ (value ++ chars "/"))
base_line value h = (
  All-append (λ b. b ≢ 13) (chars "Content-Base: ") (value ++ chars "/") (omega arith)
      (All-append (λ b. b ≢ 13) value (chars "/") h (omega arith)),
  tt,
  unfold as_bytes encode_char strip_prefix in refl,
)

-- A challenge: `nonce` stands between two literals.
pub challenge_line :
    (nonce rest : List ℕ)
    → NoReturn nonce
    → NoReturn rest
    → IsHeaderLine (chars "WWW-Authenticate: Digest realm=\"camrtsp\", nonce=\"" ++ (nonce ++ rest))
challenge_line nonce rest h k = (
  All-append (λ b. b ≢ 13) (chars "WWW-Authenticate: Digest realm=\"camrtsp\", nonce=\"")
      (nonce ++ rest) (omega arith) (All-append (λ b. b ≢ 13) nonce rest h k),
  tt,
  unfold as_bytes encode_char strip_prefix in refl,
)

after_last-NoReturn :
    (ch : ℕ) (whole s : List ℕ) → NoReturn whole → NoReturn s → NoReturn (after_last ch whole s)
unfolding after_last
after_last-NoReturn ch whole [] hw h = hw
after_last-NoReturn ch whole (c ∷ s) hw h =
    if_either NoReturn (c == ch) (after_last-NoReturn ch s s h.1 h.1)
      (after_last-NoReturn ch whole s hw h.1)

pub content_base-NoReturn :
    (c : Config) (request : Request)
    → NoReturn request.uri
    → NoReturn c.local_text
    → NoReturn c.path
    → NoReturn (content_base c request)
unfolding content_base
content_base-NoReturn c request hu hl hp =
    let kept = trim_end_matches-All (λ b. b ≢ 13) b'/' c.path hp in
    let path = trim_end_matches b'/' c.path in
    elim (Option-cases (strip_prefix (chars "rtsp://") request.uri)) [
      | inl other ↦ rw other (
          All-append (λ b. b ≢ 13) (chars "rtsp://") (c.local_text ++ path) (omega arith)
            (All-append (λ b. b ≢ 13) c.local_text path hl kept))
      | inr (rest, found) ↦
          let host =
            before-All (λ b. b ≢ 13) b'/' rest
              (strip_prefix-All (λ b. b ≢ 13) (chars "rtsp://") request.uri rest hu found) in
          let authority = after_last b'@' (before b'/' rest) (before b'/' rest) in
          rw found (
            All-append (λ b. b ≢ 13) (chars "rtsp://") (authority ++ path) (omega arith)
              (All-append (λ b. b ≢ 13) authority path
                (after_last-NoReturn b'@' (before b'/' rest) (before b'/' rest) host host) kept))
    ]

show-NoReturn : (n : ℕ) → NoReturn (show n)
show-NoReturn n = All-imp IsDigit (λ b. b ≢ 13) (λ b d. omega arith) (show n) (show-IsDigit n)

-- A literal, a number and more.
NoReturn-number :
    (p : List ℕ) (n : ℕ) (rest : List ℕ)
    → NoReturn p
    → NoReturn rest
    → NoReturn (p ++ (show n ++ rest))
NoReturn-number p n rest h k =
    All-append (λ b. b ≢ 13) p (show n ++ rest) h
      (All-append (λ b. b ≢ 13) (show n) rest (show-NoReturn n) k)

transport_header-NoReturn :
    (c : Config) (delivery : Delivery)
    → IsFit c.policy c.peer_ip c.local_ip delivery
    → NoReturn c.local_ip
    → NoReturn (transport_header delivery)
unfolding transport_header
transport_header-NoReturn c (over_tcp a b) fit h =
    NoReturn-number (chars "RTP/AVP/TCP;unicast;interleaved=") a (chars "-" ++ show b) (omega arith)
      (omega arith, show-NoReturn b)
transport_header-NoReturn c (over_udp rtp rtcp client_rtp client_rtcp) fit h =
    let ip =
      All-append (λ b. b ≢ 13) (chars ";source=") rtp.ip (omega arith)
        (subst NoReturn (sym fit.6) h) in
    NoReturn-number (chars "RTP/AVP;unicast;client_port=") client_rtp.port _ (omega arith) (
      NoReturn-number (chars "-") client_rtcp.port _ (omega arith) (
        NoReturn-number (chars ";server_port=") rtp.port _ (omega arith)
          (NoReturn-number (chars "-") rtcp.port (chars ";source=" ++ rtp.ip) (omega arith) ip)))

-- The transport that a SETUP was given is announced in one line.
pub negotiated-NoReturn :
    (c : Config) (t : Tick) (request : Request) (delivery : Delivery)
    → negotiated c t request ≡ some delivery
    → NoReturn c.local_ip
    → NoReturn (transport_header delivery)
unfolding negotiated
negotiated-NoReturn c t request delivery e h =
    elim (Option-cases (header request (chars "transport"))) [
      | inl missing ↦ cc (rw (missing, negotiated) at e)
      | inr (value, found) ↦
          transport_header-NoReturn c delivery
            (negotiate_transport-IsFit t.can_bind c.peer_ip c.local_ip value c.policy delivery
              (rw (found, negotiated) at e))
            h
    ]
