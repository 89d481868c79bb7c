-- ===== src/Procfs/ConnFile.antt =====
-- LocalIsServer, ReadConnectionsFromFile and GetConnections (collector/lib/ProcfsScraper.cpp): the
-- sockets of a network namespace, from the `net/tcp` and `net/tcp6` files of one of its processes.
pub mod Entries
pub mod Laws
use collector.Prelude.{
  ℕ, ◌-◌, Bool, true, false, ◌&&◌, not, Option, none, some, List, [], ◌∷◌, ltb, ◌==◌, if◌then◌else◌,
  length,
}
use collector.KeyMap.{UnorderedMap, UnorderedSet, put, member, add_member}
use collector.KeyMap.Keys.{nat_keys}
use collector.Net.Address.{Family, any}
use collector.Net.Endpoint.{
  Endpoint, endpoint_address, address_endpoint, L4Proto, is_ephemeral_port,
}
use collector.Net.Keys.{endpoint_keys}
use collector.Procfs.Fields.{fgets_all}
use collector.Procfs.ConnLine.{ConnLineData, parse_conn_line}

pub record ConnInfo : Type 0 where
  pub local : Endpoint
  pub remote : Endpoint
  pub l4proto : L4Proto
  pub is_server : Bool

pub record EndpointInfo : Type 0 where
  pub endpoint : Endpoint
  pub l4proto : L4Proto

-- Of the kernel's enumeration of TCP states.
abbrev pub tcp_established : ℕ
tcp_established = 1

abbrev pub tcp_listen : ℕ
tcp_listen = 10

abbrev pub line_size : ℕ
line_size = 512

unfoldable pub local_is_server : Endpoint → Endpoint → UnorderedSet Endpoint → Bool
local_is_server local remote listen_endpoints =
    if member endpoint_keys local listen_endpoints
    then true
    else if member endpoint_keys (address_endpoint (any (endpoint_address local).family) local.port)
        listen_endpoints
    then true
    else ltb (is_ephemeral_port local.port) (is_ephemeral_port remote.port)

-- What the caller's pointers lead to: `none` is a null pointer.
pub record NetworkData : Type 0 where
  pub connections : UnorderedMap ℕ ConnInfo
  pub listen_endpoints : Option (UnorderedMap ℕ EndpointInfo)

-- all_listen_endpoints, and the caller's maps.
pub record ReadState : Type 0 where
  pub all_listen_endpoints : UnorderedSet Endpoint
  pub network : NetworkData

-- (*listen_endpoints)[d.inode], if there is an inode and a map.
unfoldable pub note_listen_endpoint :
    L4Proto
    → ConnLineData
    → Option (UnorderedMap ℕ EndpointInfo)
    → Option (UnorderedMap ℕ EndpointInfo)
note_listen_endpoint l4proto d none = none
note_listen_endpoint l4proto d (some m) =
    if not (d.inode == 0)
    then some (put nat_keys d.inode (record { endpoint = d.local; l4proto = l4proto }) m)
    else some m

-- The body of the loop after the parsing.
unfoldable pub read_data : L4Proto → ConnLineData → ReadState → ReadState
unfolding note_listen_endpoint
read_data l4proto d s =
    let network = s.network in
    if d.state == tcp_listen
    then record {
      all_listen_endpoints = add_member endpoint_keys d.local s.all_listen_endpoints;
      network = record network {
        listen_endpoints = note_listen_endpoint l4proto d network.listen_endpoints;
      };
    }
    else if not (d.state == tcp_established)
    then s
    else if d.inode == 0
    then s
    else record s {
      network = record network {
        connections =
            put nat_keys d.inode
              (record {
                local = d.local;
                remote = d.remote;
                l4proto = l4proto;
                is_server = local_is_server d.local d.remote s.all_listen_endpoints;
              })
              network.connections;
      };
    }

-- The loop over the lines after the first one.
unfoldable pub read_lines : Bool → Family → L4Proto → List (List ℕ) → ReadState → ReadState
read_lines little_endian family l4proto [] s = s
read_lines little_endian family l4proto (line ∷ lines) s =
    read_lines little_endian family l4proto lines
      (elim (parse_conn_line (line_size - length line) little_endian line family) [
        | none ↦ s
        | some d ↦ read_data l4proto d s
      ])

-- Whether there is a first line, which is skipped, and what is known after the others.
unfoldable pub read_after_header :
    Bool → Family → L4Proto → NetworkData → List (List ℕ) → Bool × NetworkData
read_after_header little_endian family l4proto network [] = (false, network)
read_after_header little_endian family l4proto network (header ∷ lines) = (
  true,
  (read_lines little_endian family l4proto lines
      (record { all_listen_endpoints = []; network = network })).network,
)

unfoldable pub read_connections_from_file :
    Bool → Family → L4Proto → List ℕ → NetworkData → Bool × NetworkData
read_connections_from_file little_endian family l4proto content network =
    read_after_header little_endian family l4proto network (fgets_all line_size content)

-- One of the blocks of GetConnections, for a file that may not be there.
unfoldable pub read_file : Bool → Family → Option (List ℕ) → Bool × NetworkData → Bool × NetworkData
read_file little_endian family none (success, network) = (false, network)
read_file little_endian family (some content) (success, network) =
    let (read, after) =
      read_connections_from_file little_endian family L4Proto.tcp content network in
    (read && success, after)

unfoldable pub get_connections :
    Bool → Option (List ℕ) → Option (List ℕ) → NetworkData → Bool × NetworkData
get_connections little_endian net_tcp net_tcp6 network =
    read_file little_endian Family.ipv6 net_tcp6
      (read_file little_endian Family.ipv4 net_tcp (true, network))
