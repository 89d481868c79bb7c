-- ===== src/Tracker/Examples.antt =====
-- The laws of the tracker's maps at concrete maps, and of Update at a tracker with one connection.
use collector.Prelude.{ℕ, ◌≡◌, refl, true, false, none, some, [], ◌∷◌}
use collector.Prelude.Int.{pos}
use collector.KeyMap.{UnorderedMap, find, member}
use collector.KeyMap.Keys.{nat_keys}
use collector.Net.Endpoint.{
  Connection, ContainerEndpoint, tcp, no_endpoint, connection, address_endpoint, is_server,
}
use collector.Net.Keys.{connection_keys, container_endpoint_keys}
use collector.ConnStatus.{ConnStatus, conn_status, is_active, set_active, merge_from}
use collector.Tracker.State.{Tracker, new_tracker}
use collector.Net.Address.{ipv4_address, address_eq, is_canonical_external_ip}
use collector.Radix.{find_address, find_net, find_from, start, new_node}
use collector.Net.IpNet.{no_net, is_null_net}
use collector.Tracker.Update.{update}
use collector.Tracker.Update.Laws.{updated_at, find-update}
use collector.Tracker.Fetch.{fetch_state}
use collector.Tracker.Fetch.Laws.{merged_over, find-fetch_state}
use collector.Tracker.Close.{close_connections, closes_egress, should_close}
use collector.Tracker.Close.Laws.{find-close_connections}

abbrev stored : UnorderedMap ℕ ConnStatus
stored = (1, conn_status (pos 10) true) ∷ (2, conn_status (pos 12) false) ∷ []

-- Keys 1 and 2 are normalized to one.
find-fetch_state_example :
    find nat_keys 7 (fetch_state nat_keys (some (λ _. 7)) true none stored []).0
    ≡ some (merge_from (conn_status (pos 10) true) (conn_status (pos 12) false))
unfolding merged_over
find-fetch_state_example = find-fetch_state nat_keys (λ _. 7) true none 7 stored

abbrev conn : Connection
unfolding connection no_endpoint
conn = connection "c" no_endpoint no_endpoint tcp false

-- To the address that stands for all external ones, and to another one.
abbrev external_conn : Connection
unfolding connection address_endpoint
external_conn =
    connection "c" no_endpoint (address_endpoint (ipv4_address 255 255 255 255) 443) tcp false

abbrev other_conn : Connection
unfolding connection address_endpoint
other_conn = connection "c" no_endpoint (address_endpoint (ipv4_address 10 0 0 1) 443) tcp false

abbrev open_conns : UnorderedMap Connection ConnStatus
open_conns =
    (other_conn, conn_status (pos 9) true) ∷ (external_conn, conn_status (pos 10) true) ∷ []

find-close_connections_example :
    (find connection_keys external_conn
        (close_connections connection_keys (closes_egress new_tracker true) open_conns []).0
      ≡ none)
    × (find connection_keys external_conn
          (close_connections connection_keys (closes_egress new_tracker true) open_conns []).1
        ≡ some (set_active (conn_status (pos 10) true) false))
unfolding find conn_status is_active external_conn no_endpoint address_eq closes_egress is_server
    should_close is_canonical_external_ip connection_keys
find-close_connections_example =
    find-close_connections connection_keys (closes_egress new_tracker true) external_conn open_conns
      [] (refl, (refl, tt))

abbrev endpoint : ContainerEndpoint
unfolding no_endpoint
endpoint = record { container = "c"; endpoint = no_endpoint; l4proto = tcp; originator = none }

abbrev tracker : Tracker
unfolding new_tracker
tracker = record new_tracker { conn_state = (conn, conn_status (pos 10) false) ∷ [] }

find-update_example :
    (find connection_keys conn (update (conn ∷ []) (endpoint ∷ []) (pos 20) tracker).conn_state
      ≡ updated_at
          (member connection_keys conn (conn ∷ []))
          (pos 20)
          (find connection_keys conn tracker.conn_state))
    × (find container_endpoint_keys endpoint
          (update (conn ∷ []) (endpoint ∷ []) (pos 20) tracker).endpoint_state
        ≡ updated_at
            (member container_endpoint_keys endpoint (endpoint ∷ []))
            (pos 20)
            (find container_endpoint_keys endpoint tracker.endpoint_state))
unfolding find tracker
find-update_example =
    find-update (conn ∷ []) (endpoint ∷ []) (pos 20) tracker conn endpoint (refl, tt) tt

one-nothing : find_address (ipv4_address 1 1 1 1) new_node ≡ no_net
unfolding find_address find_net find_from start no_net is_null_net
one-nothing = refl

eight-nothing : find_address (ipv4_address 8 8 8 8) new_node ≡ no_net
unfolding find_address find_net find_from start no_net is_null_net
eight-nothing = refl
