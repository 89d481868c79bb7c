-- ===== src/Tracker/Normalize/Laws.antt =====
-- What normalization keeps of a connection.
use collector.Prelude.{◌≡◌, refl, Bool, true, false, ◌||◌, arith, if◌then◌else◌}
use collector.KeyMap.{member}
use collector.Net.Address.{Address, is_null}
use collector.Net.IpNet.{ip_net, is_null_net}
use collector.Net.Endpoint.{
  Connection, connection, conn_l4proto, is_server, no_endpoint, L4Proto, l4proto_of, l4proto_code,
}
use collector.Net.Keys.{address_keys}
use collector.Radix.{find_address}
use collector.Tracker.State.{Tracker}
use collector.Tracker.Normalize.{
  normalize_connection, normalize_address, normalized_role, keep_addr,
}

code : (p : L4Proto) → (l4proto_of (l4proto_code p) ≡ p)
code L4Proto.unknown = refl
code L4Proto.tcp = refl
code L4Proto.udp = refl
code L4Proto.icmp = refl

-- The normalized connection has the container and the protocol of the connection, and the role by
-- which it is normalized. The server keeps its local port and no remote one, the client its remote
-- port and no local one.
normalize_connection-parts :
    (t : Tracker) (c : Connection)
    → ((normalize_connection t c).container ≡ c.container)
      × (conn_l4proto (normalize_connection t c) ≡ conn_l4proto c)
      × (is_server (normalize_connection t c) ≡ normalized_role c)
      × ((normalize_connection t c).local.port ≡ (if normalized_role c then c.local.port else 0))
      × ((normalize_connection t c).remote.port ≡ (if normalized_role c then 0 else c.remote.port))
unfolding normalize_connection connection no_endpoint conn_l4proto is_server
normalize_connection-parts t c = ground (arith, code (conn_l4proto c))

-- Whether the tracker knows an address by itself: it is private, of a network that is not aggregated,
-- or one of the known public addresses.
abbrev pub is_known : Tracker → Address → Bool
is_known t a = keep_addr t a || member address_keys a t.known_public_ips

-- The address of an endpoint that the tracker knows is kept as an address.
normalize_address-known :
    (t : Tracker) (a : Address) (external : Bool)
    → is_null a ≡ false
    → is_known t a ≡ true
    → ((normalize_address t a external).address ≡ a)
      × ((normalize_address t a external).is_addr ≡ true)
unfolding normalize_address ip_net
normalize_address-known t a external nonnull known = ground arith

-- An address that the tracker neither knows nor has a network for.
pub record IsStranger (t : Tracker) (a : Address) : Type 0 where
  pub nonnull : is_null a ≡ false
  pub unknown : is_known t a ≡ false
  pub nowhere : is_null_net (find_address a t.known_ip_networks) ≡ true

-- Two strangers of one family are told apart only where external addresses are reported: otherwise
-- both are replaced by the same network, and where they are reported each keeps its address.
normalize_address-strangers :
    (t : Tracker) (a b : Address)
    → IsStranger t a
    → IsStranger t b
    → a.family ≡ b.family
    → (normalize_address t a false ≡ normalize_address t b false)
      × ((normalize_address t a true).address ≡ a)
      × ((normalize_address t b true).address ≡ b)
unfolding normalize_address ip_net
normalize_address-strangers t a b sa sb same =
    ground (arith, sa.nonnull, sa.unknown, sa.nowhere, sb.nonnull, sb.unknown, sb.nowhere)
