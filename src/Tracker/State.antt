-- ===== src/Tracker/State.antt =====
-- The state of a ConnectionTracker, and the filters and counters that read it.
use collector.Prelude.{ℕ, ◌+◌, ◌%◌, ◌^◌, Bool, true, false, ◌&&◌, ◌||◌, not, [], ◌∷◌, if◌then◌else◌}
use collector.KeyMap.{KeyEq, UnorderedMap, UnorderedSet, member}
use collector.KeyMap.Keys.{pair_keys, nat_keys}
use collector.Net.Address.{Address, Family}
use collector.Net.IpNet.{is_null_net}
use collector.Net.Private.{is_public}
use collector.Net.Endpoint.{
  endpoint_address, Connection, ContainerEndpoint, L4Proto, is_server, conn_l4proto,
}
use collector.Net.Keys.{proto_keys}
use collector.Radix.Tree.{Node}
use collector.Radix.{find_address, is_empty, new_node}
use collector.ConnStatus.{ConnStatus}
use collector.ExternalIps.{ExternalIpsConfig, Direction}

-- Two unsigned int counters.
pub record Counts : Type 0 where
  pub public_count : ℕ
  pub private_count : ℕ

pub record Stats : Type 0 where
  pub inbound : Counts
  pub outbound : Counts

abbrev pub no_counts : Counts
no_counts = record { public_count = 0; private_count = 0 }

abbrev pub no_stats : Stats
no_stats = record { inbound = no_counts; outbound = no_counts }

abbrev pub ConnMap : Type 0
ConnMap = UnorderedMap Connection ConnStatus

abbrev pub EndpointMap : Type 0
EndpointMap = UnorderedMap ContainerEndpoint ConnStatus

pub record Tracker : Type 0 where
  pub conn_state : ConnMap
  pub endpoint_state : EndpointMap
  pub known_public_ips : UnorderedSet Address
  pub known_ip_networks : Node
  pub external_ips_config : ExternalIpsConfig
  pub known_private_networks_exists : UnorderedMap Family Bool
  pub ignored_l4proto_port_pairs : UnorderedSet (L4Proto × ℕ)
  pub ignored_networks : Node
  pub non_aggregated_networks : Node
  pub inserted_connections_counters : Stats

unfoldable pub new_tracker : Tracker
new_tracker = record {
  conn_state = [];
  endpoint_state = [];
  known_public_ips = [];
  known_ip_networks = new_node;
  external_ips_config = record { direction_enabled = Direction.none_enabled };
  known_private_networks_exists = [];
  ignored_l4proto_port_pairs = [];
  ignored_networks = new_node;
  non_aggregated_networks = new_node;
  inserted_connections_counters = no_stats;
}

abbrev pub port_pair_keys : KeyEq (L4Proto × ℕ)
unfolding pair_keys
port_pair_keys = pair_keys proto_keys nat_keys

unfoldable pub has_connection_filters : Tracker → Bool
unfolding is_empty
has_connection_filters t =
    not (elim t.ignored_l4proto_port_pairs [ [] ↦ true | _ ↦ false ])
    || not (is_empty t.ignored_networks)

unfoldable pub is_ignored_l4proto_port_pair : Tracker → L4Proto × ℕ → Bool
unfolding member pair_keys
is_ignored_l4proto_port_pair t p = member port_pair_keys p t.ignored_l4proto_port_pairs

unfoldable pub should_fetch_connection : Tracker → Connection → Bool
should_fetch_connection t conn =
    not (is_ignored_l4proto_port_pair t (conn_l4proto conn, conn.local.port))
    && (not (is_ignored_l4proto_port_pair t (conn_l4proto conn, conn.remote.port))
        && is_null_net (find_address (endpoint_address conn.remote) t.ignored_networks))

unfoldable pub should_fetch_container_endpoint : Tracker → ContainerEndpoint → Bool
should_fetch_container_endpoint t cep =
    not (is_ignored_l4proto_port_pair t (cep.l4proto, cep.endpoint.port))

abbrev pub increment : ℕ → ℕ
increment n = (n + 1) % 2 ^ 32

unfoldable pub count_one : Bool → Counts → Counts
count_one is_public_addr c =
    if is_public_addr
    then record c { public_count = increment c.public_count }
    else record c { private_count = increment c.private_count }

unfoldable pub increment_connection_stats : Tracker → Connection → Stats → Stats
unfolding count_one
increment_connection_stats t conn stats =
    let public_addr = is_public (endpoint_address conn.remote) in
    if not (should_fetch_connection t conn)
    then stats
    else if is_server conn
    then record stats { inbound = count_one public_addr stats.inbound }
    else record stats { outbound = count_one public_addr stats.outbound }

-- The loop of GetConnectionStats_StoredConnections.
unfoldable pub count_stored : Tracker → ConnMap → Stats → Stats
count_stored t [] stats = stats
count_stored t ((conn, status) ∷ rest) stats =
    count_stored t rest (increment_connection_stats t conn stats)

unfoldable pub stored_connections : Tracker → Stats
unfolding count_stored
stored_connections t = count_stored t t.conn_state no_stats

unfoldable pub new_connection_counters : Tracker → Stats
new_connection_counters t = t.inserted_connections_counters
