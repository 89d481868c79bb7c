-- ===== src/Procfs/Sockets.antt =====
-- NSNetworkData, ConnsByNS, SocketsByContainer and ResolveSocketInodes
-- (collector/lib/ProcfsScraper.cpp): the connections and the listening endpoints of containers, from
-- their sockets and from what is known of each network namespace. Of a ProcessStore, the process that
-- it fetches for a pid is a parameter; a null pointer is `none`.
pub mod Laws
pub mod Complete
use Prim.Native.String.{String}
use collector.Prelude.{
  ℕ, Bool, true, false, not, Option, none, some, List, [], ◌∷◌, ◌++◌, if◌then◌else◌,
}
use collector.KeyMap.{UnorderedMap, UnorderedSet, find}
use collector.KeyMap.Keys.{nat_keys}
use collector.Net.Endpoint.{
  Endpoint, Connection, connection, ContainerEndpoint, Process, is_relevant_connection,
  is_relevant_endpoint,
}
use collector.Procfs.ConnFile.{ConnInfo, EndpointInfo}
use collector.Procfs.Links.{SocketInfo}

pub record NsNetworkData : Type 0 where
  pub connections : UnorderedMap ℕ ConnInfo
  pub listen_endpoints : UnorderedMap ℕ EndpointInfo

abbrev pub ConnsByNs : Type 0
ConnsByNs = UnorderedMap ℕ NsNetworkData

abbrev pub SocketsByNs : Type 0
SocketsByNs = UnorderedMap ℕ (UnorderedSet SocketInfo)

abbrev pub SocketsByContainer : Type 0
SocketsByContainer = UnorderedMap String SocketsByNs

abbrev pub ProcessStore : Type 0
ProcessStore = Option (ℕ → Process)

abbrev pub fetch : ProcessStore → ℕ → Option Process
fetch none pid = none
fetch (some store) pid = some (store pid)

-- The vectors of the caller. `listen_endpoints` is none if the caller's pointer is null.
pub record Found : Type 0 where
  pub connections : List Connection
  pub listen_endpoints : Option (List ContainerEndpoint)

unfoldable pub push_connection : Connection → Found → Found
push_connection c found =
    if not (is_relevant_connection c)
    then found
    else record found { connections = found.connections ++ c ∷ [] }

unfoldable pub push_endpoint : ProcessStore → String → SocketInfo → EndpointInfo → Found → Found
push_endpoint process_store container_id socket ep found = elim found.listen_endpoints [
  | none ↦ found
  | some endpoints ↦ if not (is_relevant_endpoint ep.endpoint) then found else record found {
    listen_endpoints = some (
        endpoints
        ++ record {
          container = container_id;
          endpoint = ep.endpoint;
          l4proto = ep.l4proto;
          originator = fetch process_store socket.pid;
        }
          ∷ []);
  }
]

-- The connection of a socket.
abbrev pub socket_connection : String → ConnInfo → Connection
socket_connection container_id conn =
    connection container_id conn.local conn.remote conn.l4proto conn.is_server

-- The body of the innermost loop. A socket has a connection or else may have a listening endpoint.
unfoldable pub resolve_socket : ProcessStore → NsNetworkData → String → SocketInfo → Found → Found
resolve_socket process_store ns_network_data container_id socket found =
    elim (find nat_keys socket.inode ns_network_data.connections) [
      | some conn ↦ push_connection (socket_connection container_id conn) found
      | none ↦ elim (find nat_keys socket.inode ns_network_data.listen_endpoints) [
        | none ↦ found
        | some ep ↦ push_endpoint process_store container_id socket ep found
      ]
    ]

unfoldable pub resolve_sockets :
    ProcessStore → NsNetworkData → String → UnorderedSet SocketInfo → Found → Found
resolve_sockets process_store ns_network_data container_id [] found = found
resolve_sockets process_store ns_network_data container_id (socket ∷ sockets) found =
    resolve_sockets process_store ns_network_data container_id sockets
      (resolve_socket process_store ns_network_data container_id socket found)

-- The body of the loop over the network namespaces of a container, and the loop.
unfoldable pub resolve_ns :
    ProcessStore → ConnsByNs → String → ℕ × UnorderedSet SocketInfo → Found → Found
resolve_ns process_store conns_by_ns container_id (netns, sockets) found =
    elim (find nat_keys netns conns_by_ns) [
      | none ↦ found
      | some ns_network_data ↦
          resolve_sockets process_store ns_network_data container_id sockets found
    ]

unfoldable pub resolve_container : ProcessStore → ConnsByNs → String → SocketsByNs → Found → Found
resolve_container process_store conns_by_ns container_id [] found = found
resolve_container process_store conns_by_ns container_id (netns_sockets ∷ rest) found =
    resolve_container process_store conns_by_ns container_id rest
      (resolve_ns process_store conns_by_ns container_id netns_sockets found)

unfoldable pub resolve_socket_inodes : SocketsByContainer → ConnsByNs → ProcessStore → Found → Found
resolve_socket_inodes [] conns_by_ns process_store found = found
resolve_socket_inodes ((container_id, sockets) ∷ rest) conns_by_ns process_store found =
    resolve_socket_inodes rest conns_by_ns process_store
      (resolve_container process_store conns_by_ns container_id sockets found)
