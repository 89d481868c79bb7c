-- ===== src/Procfs/Scan.antt =====
-- ReadContainerConnections and ConnScraper::Scrape (collector/lib/ProcfsScraper.cpp): the walk over the
-- directories of the processes. What each of them holds is a parameter, and its network namespace is
-- read up to two times.
pub mod Origin
pub mod Sound
pub mod Scraped
pub mod Update
use Prim.Native.String.{String}
use collector.Prelude.{
  ℕ, ◌-◌, ◌^◌, Bool, true, false, ◌&&◌, not, Option, none, some, List, [], ◌∷◌, ltb, ◌==◌,
  if◌then◌else◌,
}
use collector.Prelude.Text.{string_of}
use collector.KeyMap.{UnorderedMap, UnorderedSet, find, insert, put}
use collector.KeyMap.Keys.{nat_keys, string_keys}
use collector.Procfs.Fields.{peek, isdigit, read_digits}
use collector.Procfs.ConnFile.{NetworkData, get_connections}
use collector.Procfs.Links.{
  SocketInfo, FdEntry, get_network_namespace, get_socket_inodes, read_process_state,
  dir_container_id,
}
use collector.Procfs.Sockets.{
  NsNetworkData, ConnsByNs, SocketsByNs, SocketsByContainer, ProcessStore, Found,
  resolve_socket_inodes,
}

-- The directory of a process.
pub record PidDir : Type 0 where
  pub stat : Option (List ℕ)
  pub cgroup : Option (List ℕ)
  pub netns : Option (List ℕ)
  pub fds : Option (List FdEntry)
  pub net_tcp : Option (List ℕ)
  pub net_tcp6 : Option (List ℕ)
  pub netns_again : Option (List ℕ)

-- An entry of `/proc`: `dir` is none if it cannot be opened.
pub record ProcEntry : Type 0 where
  pub name : List ℕ
  pub dir : Option PidDir

pub record ScanState : Type 0 where
  pub conns_by_ns : ConnsByNs
  pub sockets_by_container_and_ns : SocketsByContainer

-- strtoll of a name that starts with a digit.
unfoldable pub pid_of : List ℕ → ℕ
pid_of name = let pid = (read_digits 0 name).0 in if ltb pid (2 ^ 63) then pid else 2 ^ 63 - 1

-- A state that has been read and is 'Z'.
unfoldable pub is_zombie : Option ℕ → Bool
is_zombie none = false
is_zombie (some state) = state == b'Z'

-- m[key], which makes an empty entry if there is none.
abbrev pub sockets_of : String → SocketsByContainer → SocketsByNs
sockets_of container_id m = elim (find string_keys container_id m) [ none ↦ [] | some s ↦ s ]

abbrev pub ns_sockets_of : ℕ → SocketsByNs → UnorderedSet SocketInfo
ns_sockets_of netns m = elim (find nat_keys netns m) [ none ↦ [] | some s ↦ s ]

unfoldable pub store_sockets :
    String → ℕ → UnorderedSet SocketInfo → SocketsByContainer → SocketsByContainer
store_sockets container_id netns sockets m =
    put string_keys container_id (put nat_keys netns sockets (sockets_of container_id m)) m

abbrev pub is_empty : UnorderedSet SocketInfo → Bool
is_empty [] = true
is_empty (s ∷ sockets) = false

-- What GetConnections is given: a null pointer for the listening endpoints if the caller has one.
abbrev pub no_network : Bool → NetworkData
no_network with_endpoints = record {
  connections = [];
  listen_endpoints = if with_endpoints then some [] else none;
}

abbrev pub ns_data : NetworkData → NsNetworkData
ns_data network = record {
  connections = network.connections;
  listen_endpoints = elim network.listen_endpoints [ none ↦ [] | some m ↦ m ];
}

-- Whether what GetConnections has read counts, after an error.
abbrev pub still_there : ℕ → Option ℕ → Bool
still_there netns_inode none = false
still_there netns_inode (some netns_inode2) = netns_inode2 == netns_inode

-- The connections of a network namespace whose first sockets have been found. An entry that is erased
-- again is not inserted.
unfoldable pub note_namespace : Bool → Bool → PidDir → ℕ → ConnsByNs → ConnsByNs
note_namespace little_endian with_endpoints dir netns_inode conns_by_ns =
    elim (find nat_keys netns_inode conns_by_ns) [
      | some _ ↦ conns_by_ns
      | none ↦
          let (success, network) =
            get_connections little_endian dir.net_tcp dir.net_tcp6 (no_network with_endpoints) in
          if success
          then insert nat_keys netns_inode (ns_data network) conns_by_ns
          else if still_there netns_inode (get_network_namespace dir.netns_again)
          then insert nat_keys netns_inode (ns_data network) conns_by_ns
          else conns_by_ns
    ]

-- The body of the loop once the container and the network namespace are known.
unfoldable pub scan_sockets : Bool → Bool → ℕ → PidDir → String → ℕ → ScanState → ScanState
scan_sockets little_endian with_endpoints pid dir container_id netns_inode s =
    let before =
      ns_sockets_of netns_inode (sockets_of container_id s.sockets_by_container_and_ns) in
    let (success, after) = get_socket_inodes dir.fds pid before in
    record {
      conns_by_ns =
          if success && (is_empty before && not (is_empty after))
          then note_namespace little_endian with_endpoints dir netns_inode s.conns_by_ns
          else s.conns_by_ns;
      sockets_by_container_and_ns =
          store_sockets container_id netns_inode after s.sockets_by_container_and_ns;
    }

-- The body of the loop once the directory is open.
unfoldable pub scan_dir : Bool → Bool → ℕ → PidDir → ScanState → ScanState
scan_dir little_endian with_endpoints pid dir s =
    if is_zombie (read_process_state dir.stat) then s else elim (dir_container_id dir.cgroup) [
      | none ↦ s
      | some container_id ↦ elim (get_network_namespace dir.netns) [
        | none ↦ s
        | some netns_inode ↦
            scan_sockets little_endian with_endpoints pid dir (string_of container_id) netns_inode s
      ]
    ]

unfoldable pub scan_entry : Bool → Bool → ProcEntry → ScanState → ScanState
scan_entry little_endian with_endpoints entry s =
    if not (isdigit (peek entry.name)) then s else elim entry.dir [
      | none ↦ s
      | some dir ↦ scan_dir little_endian with_endpoints (pid_of entry.name) dir s
    ]

unfoldable pub scan_entries : Bool → Bool → List ProcEntry → ScanState → ScanState
scan_entries little_endian with_endpoints [] s = s
scan_entries little_endian with_endpoints (entry ∷ entries) s =
    scan_entries little_endian with_endpoints entries
      (scan_entry little_endian with_endpoints entry s)

abbrev pub nothing_scanned : ScanState
nothing_scanned = record { conns_by_ns = []; sockets_by_container_and_ns = [] }

abbrev pub wants_endpoints : Found → Bool
wants_endpoints found = elim found.listen_endpoints [ none ↦ false | some _ ↦ true ]

-- `none` if the directory of processes cannot be opened.
unfoldable pub read_container_connections :
    Bool → Option (List ProcEntry) → ProcessStore → Found → Option Found
read_container_connections little_endian none process_store found = none
read_container_connections little_endian (some entries) process_store found =
    let scanned = scan_entries little_endian (wants_endpoints found) entries nothing_scanned in
    some (
      resolve_socket_inodes scanned.sockets_by_container_and_ns scanned.conns_by_ns process_store
        found)

-- ConnScraper: what its directory holds, on which host, and its process_store_.
pub record ConnScraper : Type 0 where
  pub little_endian : Bool
  pub proc : Option (List ProcEntry)
  pub process_store : ProcessStore

unfoldable pub scrape : ConnScraper → Found → Option Found
scrape s found = read_container_connections s.little_endian s.proc s.process_store found
