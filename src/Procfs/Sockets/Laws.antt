-- ===== src/Procfs/Sockets/Laws.antt =====
-- Where the connections come from that ResolveSocketInodes (collector/lib/ProcfsScraper.cpp) reports,
-- and which it reports.
use Prim.Native.String.{String}
use mathlib.Core.List.{append-nil}
use collector.Prelude.{
  ℕ, ◌≡◌, refl, true, Option, none, some, List, [], ◌∷◌, ◌++◌, arith, if◌then◌else◌, Bool-cases,
  Option-cases, inl, inr, Each, Each-append,
}
use collector.KeyMap.{UnorderedSet, find}
use collector.KeyMap.Keys.{nat_keys}
use collector.Net.Endpoint.{Connection, is_relevant_connection}
use collector.Procfs.ConnFile.{ConnInfo, EndpointInfo}
use collector.Procfs.Links.{SocketInfo}
use collector.Procfs.Sockets.{
  NsNetworkData, ConnsByNs, SocketsByNs, SocketsByContainer, ProcessStore, Found, push_connection,
  push_endpoint, socket_connection, resolve_socket, resolve_sockets, resolve_ns, resolve_container,
  resolve_socket_inodes,
}

-- What holds of each socket of a map, with its container and its network namespace.
module _ (S : String → ℕ → SocketInfo → Type 0) where
  abbrev pub EachInNs : String → SocketsByNs → Type 0
  EachInNs id = Each (λ ns. Each (S id ns.0) ns.1)

  abbrev pub EachSocket : SocketsByContainer → Type 0
  EachSocket = Each (λ c. EachInNs c.0 c.1)

  -- A connection of a socket that has one in what is known of its network namespace.
  pub record HasSocket (conns_by_ns : ConnsByNs) (c : Connection) : Type 0 where
    pub container_id : String
    pub netns : ℕ
    pub socket : SocketInfo
    pub ns_network_data : NsNetworkData
    pub conn : ConnInfo
    pub of_map : S container_id netns socket
    pub known : find nat_keys netns conns_by_ns ≡ some ns_network_data
    pub connected : find nat_keys socket.inode ns_network_data.connections ≡ some conn
    pub made : c ≡ socket_connection container_id conn
    pub relevant : is_relevant_connection c ≡ true

push_endpoint-connections :
    (store : ProcessStore) (id : String) (s : SocketInfo) (ep : EndpointInfo) (found : Found)
    → (push_endpoint store id s ep found).connections ≡ found.connections
unfolding push_endpoint
push_endpoint-connections store id s ep found = ground arith

push_connection-parts :
    (c : Connection) (found : Found)
    → (push_connection c found).connections
      ≡ (if is_relevant_connection c then found.connections ++ c ∷ [] else found.connections)
unfolding push_connection
push_connection-parts c found = ground arith

-- A socket adds its connection if that is a relevant one, and nothing else to the connections.
abbrev pub added : String → Option ConnInfo → List Connection
added id none = []
added id (some conn) =
    if is_relevant_connection (socket_connection id conn)
    then socket_connection id conn ∷ []
    else []

pub resolve_socket-connections :
    (store : ProcessStore) (network : NsNetworkData) (id : String) (s : SocketInfo) (found : Found)
    → (resolve_socket store network id s found).connections
      ≡ found.connections ++ added id (find nat_keys s.inode network.connections)
unfolding resolve_socket
resolve_socket-connections store network id s found =
    let nothing = append-nil found.connections in
    elim (Option-cases (find nat_keys s.inode network.connections)) [
      | inl absent ↦ elim (Option-cases (find nat_keys s.inode network.listen_endpoints)) [
        | inl silent ↦ ground (arith, absent, silent, nothing)
        | inr (ep, listening) ↦
            ground
              (arith, absent, listening, nothing, push_endpoint-connections store id s ep found)
      ]
      | inr (conn, there) ↦
          ground (arith, there, nothing, push_connection-parts (socket_connection id conn) found)
    ]

module _ (S : String → ℕ → SocketInfo → Type 0) (store : ProcessStore)
    (conns_by_ns : ConnsByNs) where
  added-HasSocket :
      (id : String) (netns : ℕ) (s : SocketInfo) (network : NsNetworkData) (o : Option ConnInfo)
      → find nat_keys netns conns_by_ns ≡ some network
      → S id netns s
      → find nat_keys s.inode network.connections ≡ o
      → Each (HasSocket S conns_by_ns) (added id o)
  added-HasSocket id netns s network none known of_map e = tt
  added-HasSocket id netns s network (some conn) known of_map e =
      elim (Bool-cases (is_relevant_connection (socket_connection id conn))) [
        | inl relevant ↦ rw relevant (
          record {
            container_id = id;
            netns = netns;
            socket = s;
            ns_network_data = network;
            conn = conn;
            of_map = of_map;
            known = known;
            connected = e;
            made = refl;
            relevant = relevant;
          },
          tt,
        )
        | inr irrelevant ↦ rw irrelevant tt
      ]

  resolve_sockets-HasSocket :
      (id : String) (netns : ℕ) (network : NsNetworkData) (sockets : UnorderedSet SocketInfo)
      (found : Found)
      → find nat_keys netns conns_by_ns ≡ some network
      → Each (S id netns) sockets
      → Each (HasSocket S conns_by_ns) found.connections
      → Each (HasSocket S conns_by_ns) (resolve_sockets store network id sockets found).connections
  unfolding resolve_sockets
  resolve_sockets-HasSocket id netns network [] found known h before = before
  resolve_sockets-HasSocket id netns network (s ∷ sockets) found known h before =
      resolve_sockets-HasSocket id netns network sockets (resolve_socket store network id s found)
        known h.1
        (rw (resolve_socket-connections store network id s found) (
          Each-append (HasSocket S conns_by_ns) found.connections
            (added id (find nat_keys s.inode network.connections)) before
            (added-HasSocket id netns s network (find nat_keys s.inode network.connections) known
              h.0 refl)))

  resolve_ns-HasSocket :
      (id : String) (netns : ℕ) (sockets : UnorderedSet SocketInfo) (found : Found)
      → Each (S id netns) sockets
      → Each (HasSocket S conns_by_ns) found.connections
      → Each
          (HasSocket S conns_by_ns)
          (resolve_ns store conns_by_ns id (netns, sockets) found).connections
  unfolding resolve_ns
  resolve_ns-HasSocket id netns sockets found h before =
      elim (Option-cases (find nat_keys netns conns_by_ns)) [
        | inl absent ↦ rw (resolve_ns, absent) before
        | inr (network, known) ↦
            rw (resolve_ns, known)
              (resolve_sockets-HasSocket id netns network sockets found known h before)
      ]

  resolve_container-HasSocket :
      (id : String) (m : SocketsByNs) (found : Found)
      → EachInNs S id m
      → Each (HasSocket S conns_by_ns) found.connections
      → Each (HasSocket S conns_by_ns) (resolve_container store conns_by_ns id m found).connections
  unfolding resolve_container
  resolve_container-HasSocket id [] found h before = before
  resolve_container-HasSocket id ((netns, sockets) ∷ rest) found h before =
      resolve_container-HasSocket id rest (resolve_ns store conns_by_ns id (netns, sockets) found)
        h.1 (resolve_ns-HasSocket id netns sockets found h.0 before)

  pub resolve_socket_inodes-HasSocket :
      (m : SocketsByContainer) (found : Found)
      → EachSocket S m
      → Each (HasSocket S conns_by_ns) found.connections
      → Each (HasSocket S conns_by_ns) (resolve_socket_inodes m conns_by_ns store found).connections
  unfolding resolve_socket_inodes
  resolve_socket_inodes-HasSocket [] found h before = before
  resolve_socket_inodes-HasSocket ((id, sockets) ∷ rest) found h before =
      resolve_socket_inodes-HasSocket rest (resolve_container store conns_by_ns id sockets found)
        h.1 (resolve_container-HasSocket id sockets found h.0 before)
