-- ===== src/Transport/Policy.antt =====
-- What a negotiated transport promises.
use camrtsp.Common.{
  ℕ, zero, suc, ◌+◌, ◌*◌, ◌≤◌, ◌<◌, ◌≡◌, ◌≢◌, refl, Bool, true, false, ◌&&◌, ◌||◌, subst, Option,
  none, some, List, [], ◌∷◌, not, ◌==◌, if◌then◌else◌, arith, inl, inr, ◌⊎◌, ap,
}
use camrtsp.Text.{chars, to_ascii_lowercase, split}
use camrtsp.Transport.{
  TransportPolicy, tcp, udp, Delivery, over_tcp, over_udp, parameter, parse_pair, bind_from,
  bind_udp_pair, Choice, chosen, next_alternative, refused, checked_channels, channels, is_tcp,
  is_udp, udp_sockets, client_ports, and_then_pair, alternative, alternatives, negotiate_transport,
}

-- The ports that the search finds are neighbours in the range that it walks.
bind_from_range :
    (can_bind : ℕ → Bool) (rounds port a b : ℕ)
    → bind_from can_bind rounds port ≡ some (a, b)
    → (port ≤ a) × (b ≡ a + 1) × (b < port + 2 * rounds)
unfolding bind_from
bind_from_range can_bind zero port a b e = cc
bind_from_range can_bind (suc rounds) port a b e =
    ground (arith, bind_from_range can_bind rounds (port + 2) a b)

-- A delivery that is fit for a policy, a client and a local address.
abbrev pub IsFit : TransportPolicy → List ℕ → List ℕ → Delivery → Type 0
IsFit policy client_ip local_ip (over_tcp a b) = (policy ≢ udp) × (a ≢ b) × (a ≤ 255) × (b ≤ 255)
IsFit policy client_ip local_ip (over_udp rtp rtcp client_rtp client_rtcp) =
    (policy ≢ tcp)
    × (client_rtp.ip ≡ client_ip)
    × (client_rtcp.ip ≡ client_ip)
    × (client_rtp.port ≢ 0)
    × (client_rtcp.port ≢ 0)
    × (client_rtp.port ≢ client_rtcp.port)
    × (rtp.ip ≡ local_ip)
    × (rtcp.ip ≡ local_ip)
    × (rtcp.port ≡ rtp.port + 1)
    × (50000 ≤ rtp.port)
    × (rtcp.port < 60000)

distinct_ports : (a b : ℕ) → (a == 0 || b == 0 || a == b) ≡ false → (a ≢ 0) × (b ≢ 0) × (a ≢ b)
distinct_ports a b h = ground arith

the_delivery : Delivery → Choice → Delivery
the_delivery d (chosen x) = x
the_delivery d next_alternative = d
the_delivery d refused = d

chosen-injective : (x d : Delivery) → chosen x ≡ chosen d → x ≡ d
unfolding the_delivery
chosen-injective x d e = ap (the_delivery d) e

if_chosen :
    (test : Bool) (d : Delivery) (rest : Choice)
    → (if test then rest else next_alternative) ≡ chosen d
    → (test ≡ true) × (rest ≡ chosen d)
if_chosen true d rest e = (refl, e)
if_chosen false d rest e = cc

unless_chosen :
    (test : Bool) (d : Delivery) (rest : Choice)
    → (if test then next_alternative else rest) ≡ chosen d
    → (test ≡ false) × (rest ≡ chosen d)
unless_chosen true d rest e = cc
unless_chosen false d rest e = (refl, e)

module _ (policy : TransportPolicy) (client_ip local_ip : List ℕ) where
  pair-IsFit :
      (pair : Option (ℕ × ℕ)) (d : Delivery)
      → policy ≢ udp
      → checked_channels pair ≡ chosen d
      → IsFit policy client_ip local_ip d
  pair-IsFit none d ne e = cc
  pair-IsFit (some (a, b)) d ne e =
      let (test, inner) = if_chosen _ d (chosen (over_tcp a b)) e in
      subst (IsFit policy client_ip local_ip) (chosen-injective (over_tcp a b) d inner)
        (ne, ground arith, ground arith, ground arith)

  channels-IsFit :
      (o : Option (List ℕ)) (d : Delivery)
      → policy ≢ udp
      → channels o ≡ chosen d
      → IsFit policy client_ip local_ip d
  channels-IsFit none d ne e =
      subst (IsFit policy client_ip local_ip) (chosen-injective (over_tcp 0 1) d e)
        (ne, omega arith, omega arith, omega arith)
  channels-IsFit (some value) d ne e = pair-IsFit (parse_pair value) d ne e

  udp_sockets-IsFit :
      (can_bind : ℕ → Bool) (bound : Option (ℕ × ℕ)) (a b : ℕ) (d : Delivery)
      → policy ≢ tcp
      → bind_udp_pair can_bind ≡ bound
      → (a ≢ 0) × (b ≢ 0) × (a ≢ b)
      → udp_sockets client_ip local_ip bound a b ≡ chosen d
      → IsFit policy client_ip local_ip d
  unfolding udp_sockets bind_udp_pair
  udp_sockets-IsFit can_bind none a b d ne eb h e = cc
  udp_sockets-IsFit can_bind (some (p, q)) a b d ne eb h e =
      let range = bind_from_range can_bind 5000 50000 p q eb in
      subst (IsFit policy client_ip local_ip) (chosen-injective _ d e)
        (ne, refl, refl, h.0, h.1, h.2, refl, refl, range.1, range.0, range.2)

  client_ports-IsFit :
      (can_bind : ℕ → Bool) (ports : Option (ℕ × ℕ)) (d : Delivery)
      → policy ≢ tcp
      → client_ports can_bind client_ip local_ip ports ≡ chosen d
      → IsFit policy client_ip local_ip d
  unfolding client_ports
  client_ports-IsFit can_bind none d ne e = cc
  client_ports-IsFit can_bind (some (a, b)) d ne e =
      let (test, inner) = unless_chosen (a == 0 || b == 0 || a == b) d _ e in
      udp_sockets-IsFit can_bind (bind_udp_pair can_bind) a b d ne refl (distinct_ports a b test)
        inner

  -- The three tests of an alternative, by their values.
  tests-IsFit :
      (can_bind : ℕ → Bool) (multicast by_tcp by_udp : Bool) (o p : Option (List ℕ)) (d : Delivery)
      → (by_tcp ≡ true → policy ≢ udp)
      → (by_udp ≡ true → policy ≢ tcp)
      → (if multicast
          then next_alternative
          else if by_tcp
          then channels o
          else if by_udp
          then client_ports can_bind client_ip local_ip (and_then_pair p)
          else next_alternative)
        ≡ chosen d
      → IsFit policy client_ip local_ip d
  tests-IsFit can_bind true t u o p d ht hu e = cc
  tests-IsFit can_bind false true u o p d ht hu e = channels-IsFit o d (ht refl) e
  tests-IsFit can_bind false false true o p d ht hu e =
      client_ports-IsFit can_bind (and_then_pair p) d (hu refl) e
  tests-IsFit can_bind false false false o p d ht hu e = cc

allows_tcp :
    (b : Bool) (policy : TransportPolicy) → (b && not (is_udp policy)) ≡ true → policy ≢ udp
allows_tcp b policy h e = ground arith

allows_udp :
    (b : Bool) (policy : TransportPolicy) → (b && not (is_tcp policy)) ≡ true → policy ≢ tcp
allows_udp b policy h e = ground arith

alternative-IsFit :
    (can_bind : ℕ → Bool) (client_ip local_ip : List ℕ) (policy : TransportPolicy) (lower : List ℕ)
    (d : Delivery)
    → alternative can_bind client_ip local_ip policy lower ≡ chosen d
    → IsFit policy client_ip local_ip d
unfolding alternative
alternative-IsFit can_bind client_ip local_ip policy lower d e =
    tests-IsFit policy client_ip local_ip can_bind _ _ _ (parameter lower (chars "interleaved"))
      (parameter lower (chars "client_port")) d (allows_tcp _ policy) (allows_udp _ policy) e

Choice-cases :
    (c : Choice) → ((d : Delivery) × (c ≡ chosen d)) ⊎ ((c ≡ next_alternative) ⊎ (c ≡ refused))
Choice-cases (chosen d) = inl (d, refl)
Choice-cases next_alternative = inr (inl refl)
Choice-cases refused = inr (inr refl)

alternatives-IsFit :
    (can_bind : ℕ → Bool) (client_ip local_ip : List ℕ) (policy : TransportPolicy)
    (values : List (List ℕ)) (d : Delivery)
    → alternatives can_bind client_ip local_ip policy values ≡ some d
    → IsFit policy client_ip local_ip d
unfolding alternatives
alternatives-IsFit can_bind client_ip local_ip policy [] d e = cc
alternatives-IsFit can_bind client_ip local_ip policy (value ∷ values) d e =
    elim (Choice-cases
      (alternative can_bind client_ip local_ip policy (to_ascii_lowercase value))) [
        | inl (x, is_x) ↦
            alternative-IsFit can_bind client_ip local_ip policy (to_ascii_lowercase value) d
              (cc (is_x, rw (is_x, alternatives) at e))
        | inr (inl next) ↦
            alternatives-IsFit can_bind client_ip local_ip policy values d
              (rw (next, alternatives) at e)
        | inr (inr stop) ↦ cc (rw (stop, alternatives) at e)
      ]

-- A transport that `negotiate_transport` selects keeps to the policy. Over TCP its channels are two
-- different bytes. Over UDP the client's ports are two different ports other than 0, at the client's
-- address, and the server's are a port and the next one, from 50000 to 59999, at the local address.
pub negotiate_transport-IsFit :
    (can_bind : ℕ → Bool) (client_ip local_ip value : List ℕ) (policy : TransportPolicy)
    (d : Delivery)
    → negotiate_transport can_bind client_ip local_ip value policy ≡ some d
    → IsFit policy client_ip local_ip d
unfolding negotiate_transport
negotiate_transport-IsFit can_bind client_ip local_ip value policy d e =
    alternatives-IsFit can_bind client_ip local_ip policy (split b',' value) d e
