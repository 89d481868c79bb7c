-- ===== src/Notifier/Message.antt =====
-- CreateInfoMessage, AddConnections and AddContainerEndpoints
-- (collector/lib/NetworkStatusNotifier.cpp). The time of the message and the log are left out.
pub mod Laws
use collector.Prelude.{Bool, true, false, not, Option, none, some, List, [], ◌∷◌, if◌then◌else◌}
use collector.Prelude.Int.{ℤ}
use collector.Net.Endpoint.{Connection, ContainerEndpoint}
use collector.ConnStatus.{ConnStatus, is_active, last_active_time}
use collector.RateLimit.{CountLimiter, count_limiter, count_allow}
use collector.Tracker.State.{ConnMap, EndpointMap}
use collector.Notifier.Proto.{
  NetworkConnection, NetworkEndpoint, conn_to_proto, container_endpoint_to_proto,
}

unfoldable pub closing : NetworkConnection → ConnStatus → NetworkConnection
closing proto status = record proto { close_timestamp = some (last_active_time status) }

-- The loop of AddConnections.
unfoldable pub add_from : CountLimiter → ConnMap → List NetworkConnection
unfolding closing
add_from rate_limiter [] = []
add_from rate_limiter ((conn, status) ∷ rest) =
    let closed = add_from rate_limiter rest in
    let (counted, allowed) = count_allow rate_limiter conn.container in
    let opened = add_from counted rest in
    if not (is_active status)
    then closing (conn_to_proto conn) status ∷ closed
    else if not allowed
    then opened
    else conn_to_proto conn ∷ opened

unfoldable pub add_connections : ℤ → ConnMap → List NetworkConnection
add_connections per_container_limit delta = add_from (count_limiter per_container_limit) delta

unfoldable pub add_container_endpoints : EndpointMap → List NetworkEndpoint
add_container_endpoints [] = []
add_container_endpoints ((cep, status) ∷ rest) =
    let proto = container_endpoint_to_proto cep in
    (if not (is_active status)
      then record proto { close_timestamp = some (last_active_time status) }
      else proto)
    ∷ add_container_endpoints rest

pub record InfoMessage : Type 0 where
  pub updated_connections : List NetworkConnection
  pub updated_endpoints : List NetworkEndpoint

-- `none` is the null pointer, where both deltas are empty.
unfoldable pub create_info_message : ℤ → ConnMap → EndpointMap → Option InfoMessage
unfolding add_connections add_container_endpoints
create_info_message per_container_limit conn_delta endpoint_delta =
    let message = some (record {
      updated_connections = add_connections per_container_limit conn_delta;
      updated_endpoints = add_container_endpoints endpoint_delta;
    }) in
    elim conn_delta [ [] ↦ elim endpoint_delta [ [] ↦ none | _ ↦ message ] | _ ↦ message ]
