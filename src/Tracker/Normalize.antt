-- ===== src/Tracker/Normalize.antt =====
-- NormalizeAddressNoLock, NormalizeConnectionNoLock, NormalizeContainerEndpoint and
-- ShouldNormalizeConnection (collector/lib/ConnTracker.cpp and ConnTracker.h).
pub mod Laws
use collector.Prelude.{
  ◌*◌, Bool, true, false, ◌&&◌, ◌||◌, not, Option, none, some, ltb, if◌then◌else◌,
}
use collector.KeyMap.{find, member}
use collector.Net.Address.{
  Address, Family, any, no_address, ipv4_address, ipv6_address, is_null, family_length,
  is_canonical_external_ip,
}
use collector.Net.IpNet.{IpNet, ip_net, no_net, address_net, is_null_net}
use collector.Net.Private.{is_public}
use collector.Net.Endpoint.{
  endpoint_address, no_endpoint, address_endpoint, Connection, connection, is_server, conn_l4proto,
  l4proto_eq, L4Proto, ContainerEndpoint, is_ephemeral_port,
}
use collector.Net.Keys.{family_keys, address_keys}
use collector.Radix.{find_address}
use collector.ExternalIps.{is_enabled, Direction}
use collector.Tracker.State.{Tracker}

abbrev pub canonical_external_ipv4_addr : Address
canonical_external_ipv4_addr = ipv4_address 255 255 255 255

abbrev pub canonical_external_ipv6_addr : Address
canonical_external_ipv6_addr = ipv6_address 0xffffffffffffffff 0xffffffffffffffff

-- The rest of the internet.
unfoldable pub rest_of_internet : Family → IpNet
rest_of_internet Family.ipv4 = ip_net canonical_external_ipv4_addr 0 true
rest_of_internet Family.ipv6 = ip_net canonical_external_ipv6_addr 0 true
rest_of_internet Family.unknown = no_net

-- known_private_networks_exists && !*known_private_networks_exists
abbrev known_false : Option Bool → Bool
known_false none = false
known_false (some b) = not b

-- We keep private addresses and those of the networks that are not to be aggregated.
unfoldable pub keep_addr : Tracker → Address → Bool
keep_addr t address =
    not (is_public address) || not (is_null_net (find_address address t.non_aggregated_networks))

unfoldable pub normalize_address : Tracker → Address → Bool → IpNet
normalize_address t address enable_external_ips =
    let network = find_address address t.known_ip_networks in
    if is_null address
    then no_net
    else if keep_addr t address
        && known_false (find family_keys address.family t.known_private_networks_exists)
    then ip_net address 0 true
    else if keep_addr t address || member address_keys address t.known_public_ips
    then ip_net address network.bits true
    else if not (is_null_net network)
    then network
    else if enable_external_ips
    then ip_net address (family_length address.family * 8) false
    else rest_of_internet address.family

unfoldable pub should_normalize_connection : Tracker → Connection → Bool
should_normalize_connection t conn =
    is_canonical_external_ip (normalize_address t (endpoint_address conn.remote) false).address

-- The role that NormalizeConnectionNoLock goes by: for UDP the ports decide.
unfoldable pub normalized_role : Connection → Bool
normalized_role conn =
    if l4proto_eq (conn_l4proto conn) L4Proto.udp
    then ltb (is_ephemeral_port conn.local.port) (is_ephemeral_port conn.remote.port)
    else is_server conn

unfoldable pub normalize_connection : Tracker → Connection → Connection
normalize_connection t conn =
    let ext_ips_ingress = is_enabled t.external_ips_config Direction.ingress in
    let ext_ips_egress = is_enabled t.external_ips_config Direction.egress in
    if normalized_role conn
    then connection conn.container
        (record { network = address_net no_address; port = conn.local.port })
        (record {
          network = normalize_address t (endpoint_address conn.remote) ext_ips_ingress;
          port = 0;
        })
        (conn_l4proto conn) true
    else connection conn.container no_endpoint
        (record {
          network = normalize_address t (endpoint_address conn.remote) ext_ips_egress;
          port = conn.remote.port;
        })
        (conn_l4proto conn) false

unfoldable pub normalize_container_endpoint : ContainerEndpoint → ContainerEndpoint
normalize_container_endpoint cep = record cep {
  endpoint = address_endpoint (any (endpoint_address cep.endpoint).family) cep.endpoint.port;
}
