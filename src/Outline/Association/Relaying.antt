-- ===== src/Outline/Association/Relaying.antt =====
-- core/outline/udp_association.go, relayFromClient: one datagram that the relay has read, where no
-- other goroutine takes a step in between.
use dobby_vpn.Common.{
  ℕ, Bool, true, false, ◌&&◌, ◌||◌, List, ◌∷◌, Option, none, some, ◌==◌, if◌then◌else◌,
}
use dobby_vpn.Tunnel.FlowOwner.{lookup}
use dobby_vpn.Outline.Association.{UdpAssociation, drop_upstream, dial, register, start}

-- An address of an AddrSpec or of a UDPAddr.
pub record Address : Type 0 where
  pub ip : ℕ
  pub port : ℕ

-- What happens while a datagram is handled: whether the dial, the Submit of the reply worker and the
-- write succeed.
pub record Luck : Type 0 where
  pub dials : Bool
  pub submits : Bool
  pub writes : Bool

-- The Submit for the connection that the second lock has led to, if it is the one just dialed.
unfoldable pub settle : UdpAssociation → ℕ → ℕ → Bool → Option ℕ → UdpAssociation × Option ℕ
unfolding start
settle a key c submits none = (a, none)
settle a key c submits (some u) =
    if u == c then (start a key c submits, if submits then some c else none) else (a, some u)

-- Both locks, on a key that the map does not have.
unfoldable pub connect : UdpAssociation → ℕ → Luck → UdpAssociation × Option ℕ
unfolding dial register settle
connect a key l =
    if l.dials
    then (let r = register (dial a key true) key a.fresh in settle r.0 key a.fresh l.submits r.1)
    else (a, none)

abbrev pub or_connect : UdpAssociation → ℕ → Luck → Option ℕ → UdpAssociation × Option ℕ
or_connect a key l none = connect a key l
or_connect a key l (some existing) = (a, some existing)

unfoldable pub upstream_for : UdpAssociation → ℕ → Luck → UdpAssociation × Option ℕ
unfolding connect
upstream_for a key l = or_connect a key l (lookup key a.upstream)

-- The write of the data, where there is a connection.
abbrev pub write : UdpAssociation → ℕ → Bool → Option ℕ → UdpAssociation
write a key writes none = a
write a key writes (some u) = if writes then a else drop_upstream a key u

-- A datagram that goes to the connection of its key.
unfoldable pub forward : UdpAssociation → ℕ → Luck → UdpAssociation
unfolding upstream_for drop_upstream
forward a key l = let r = upstream_for a key l in write r.0 key l.writes r.1

-- The net package: the unspecified addresses, and IP.Equal. statute.ParseDatagram: the destination of a
-- datagram, none where it is malformed. `key_of` is the text of the client and the destination.
module _ (is_unspecified : ℕ → Bool) (equal_ip : ℕ → ℕ → Bool) (parse_datagram : List ℕ → Option ℕ)
    (key_of : Address → ℕ → ℕ) where
  -- Whether the datagram comes from the client that the request has named.
  unfoldable pub is_client : Option Address → Address → Bool
  is_client none sender = false
  is_client (some client) sender =
      (is_unspecified client.ip || equal_ip client.ip sender.ip)
      && (client.port == 0 || client.port == sender.port)

  -- A SOCKS5 UDP header without fragments: three bytes of 0.
  unfoldable pub is_whole : List ℕ → Bool
  is_whole (a ∷ b ∷ c ∷ rest) = a == 0 && b == 0 && c == 0
  is_whole _ = false

  abbrev pub sent : UdpAssociation → Address → Luck → Option ℕ → UdpAssociation
  sent a sender l none = a
  sent a sender l (some destination) = forward a (key_of sender destination) l

  -- The body of the loop of relayFromClient.
  unfoldable pub relay_datagram :
      Option Address → UdpAssociation → Address → List ℕ → Luck → UdpAssociation
  unfolding is_client is_whole forward
  relay_datagram client a sender bytes l =
      if is_client client sender && is_whole bytes
      then sent a sender l (parse_datagram bytes)
      else a
