-- ===== src/Procfs/Scan/Scraped.antt =====
-- Where the connections come from that ConnScraper (collector/lib/ProcfsScraper.cpp) reports.
use Prim.Native.String.{String}
use collector.Prelude.{ℕ, ◌≡◌, subst, Bool, true, Option, some, List, [], ◌∷◌, arith, Each}
use collector.KeyMap.{find}
use collector.KeyMap.Keys.{nat_keys}
use collector.KeyMap.Entries.{find-Each}
use collector.Net.Endpoint.{Connection, ContainerEndpoint, is_relevant_connection}
use collector.Procfs.ConnFile.{ConnInfo}
use collector.Procfs.Links.{SocketInfo}
use collector.Procfs.Sockets.{
  NsNetworkData, ConnsByNs, ProcessStore, Found, socket_connection, resolve_socket_inodes,
}
use collector.Procfs.Sockets.Laws.{HasSocket, resolve_socket_inodes-HasSocket}
use collector.Procfs.Scan.{
  ProcEntry, scan_entries, nothing_scanned, read_container_connections, wants_endpoints,
}
use collector.Procfs.Scan.Origin.{HasOpen, IsRead, nat_same}
use collector.Procfs.Scan.Sound.{scan_entries-IsScanned}

module _ (little with_endpoints : Bool) (entries : List ProcEntry) where
  -- A connection that a process of a container has open, with what the files of a process in the same
  -- network namespace say of it.
  pub record IsScraped (c : Connection) : Type 0 where
    pub container_id : String
    pub netns : ℕ
    pub socket : SocketInfo
    pub network : NsNetworkData
    pub conn : ConnInfo
    pub held : HasOpen entries container_id netns socket
    pub read : IsRead little with_endpoints entries (netns, network)
    pub connected : find nat_keys socket.inode network.connections ≡ some conn
    pub made : c ≡ socket_connection container_id conn
    pub relevant : is_relevant_connection c ≡ true

  HasSocket-IsScraped :
      (conns : ConnsByNs) (cs : List Connection)
      → Each (IsRead little with_endpoints entries) conns
      → Each (HasSocket (HasOpen entries) conns) cs
      → Each IsScraped cs
  HasSocket-IsScraped conns [] h k = tt
  HasSocket-IsScraped conns (c ∷ cs) h (k, ks) = (
    record {
      container_id = k.container_id;
      netns = k.netns;
      socket = k.socket;
      network = k.ns_network_data;
      conn = k.conn;
      held = k.of_map;
      read =
          find-Each nat_keys nat_same (IsRead little with_endpoints entries) k.netns
            k.ns_network_data conns h k.known;
      connected = k.connected;
      made = k.made;
      relevant = k.relevant;
    },
    HasSocket-IsScraped conns cs h ks,
  )

abbrev pub nothing_found : Option (List ContainerEndpoint) → Found
nothing_found listen_endpoints = record { connections = []; listen_endpoints = listen_endpoints }

-- Each connection that a scrape of `/proc` into an empty vector reports is relevant, and is made of the
-- id of a container and of what the `net/tcp` files of a listed process in a network namespace say of a
-- socket; and a listed process of that container in that network namespace, which is no zombie, has the
-- socket open.
pub read_container_connections-IsScraped :
    (little : Bool) (entries : List ProcEntry) (store : ProcessStore)
    (endpoints : Option (List ContainerEndpoint)) (after : Found)
    → read_container_connections little (some entries) store (nothing_found endpoints) ≡ some after
    → Each (IsScraped little (wants_endpoints (nothing_found endpoints)) entries) after.connections
unfolding read_container_connections
read_container_connections-IsScraped little entries store endpoints after e =
    let with_endpoints = wants_endpoints (nothing_found endpoints) in
    let scanned = scan_entries little with_endpoints entries nothing_scanned in
    let kept =
      scan_entries-IsScanned little with_endpoints entries entries nothing_scanned (λ f m. m)
        (record { sockets = tt; networks = tt }) in
    let found =
      resolve_socket_inodes scanned.sockets_by_container_and_ns scanned.conns_by_ns store
        (nothing_found endpoints) in
    let same : found ≡ after = ground (arith, e) in
    subst (λ f. Each (IsScraped little with_endpoints entries) f.connections) same
      (HasSocket-IsScraped little with_endpoints entries scanned.conns_by_ns found.connections
        kept.networks
        (resolve_socket_inodes-HasSocket (HasOpen entries) store scanned.conns_by_ns
          scanned.sockets_by_container_and_ns (nothing_found endpoints) kept.sockets tt))
