-- ===== src/Procfs/Examples.antt =====
-- A process in a container with one connection: what its files say, and what is made of it.
use mathlib.Core.List.{Memᴰ}
use collector.Prelude.{ℕ, ◌≡◌, refl, true, none, some, List, [], ◌∷◌, ◌++◌, Each}
use collector.Prelude.Int.{pos}
use collector.Procfs.Fields.{
  isspace, isdigit, index_of, find_from, rep_find, rep_find_from, skip_word, skip_spaces, nextfield,
  rep_nextfield, strip_spaces, read_digits, signed_digits, strtoumax, fgets_all, fgets_from,
  getlines, getlines_from,
}
use collector.Procfs.Hex.{
  is_hex_char, hex_char_to_val, end_chunk, read_hex_from, read_hex_bytes, native_uint16, parse_port,
  parse_endpoint,
}
use collector.Procfs.ConnLine.{
  ConnLineData, parse_inode, parse_state, parse_remote, parse_conn_line,
}
use collector.Procfs.ConnFile.{
  local_is_server, read_data, read_lines, read_after_header, read_connections_from_file, read_file,
  get_connections, ConnInfo,
}
use collector.Procfs.Links.{
  last_char, parse_link_inode, read_inode, get_network_namespace, SocketInfo, note_socket,
  note_sockets, get_socket_inodes, first_char, extract_process_state, c_string, first_line_state,
  read_process_state, extract_container_id, lines_container_id, dir_container_id,
}
use collector.Procfs.Sockets.{
  Found, push_connection, resolve_socket, resolve_sockets, resolve_ns, resolve_container,
  resolve_socket_inodes, NsNetworkData,
}
use collector.Procfs.Scan.{
  PidDir, ProcEntry, read_container_connections, scan_entries, scan_entry, scan_dir, scan_sockets,
  note_namespace, store_sockets, pid_of, is_zombie,
}
use collector.Procfs.Scan.Scraped.{IsScraped, nothing_found, read_container_connections-IsScraped}
use collector.Procfs.Sockets.Complete.{mem-resolve_socket_inodes}
use collector.Procfs.ConnFile.Laws.{find-read_connections_from_file}
use collector.Procfs.Scan.Update.{update-IsScraped}
use collector.ContainerId.{
  rfind, starts_with, extract_container_id_from_cgroup, from_end, id_after, is_conmon,
  is_container_id,
}
use collector.Prelude.Text.{codes, string_of, char_of}
use collector.KeyMap.{sweep, find, put, insert, assign, member, add_member}
use collector.Net.Bytes.{address_of, word_of, big_endian}
use collector.Net.Address.{ipv4_address, is_local, Family, address_eq}
use collector.Net.IpNet.{address_net, ip_net, copy_mask}
use collector.Net.Endpoint.{
  Endpoint, Connection, address_endpoint, L4Proto, connection, is_ephemeral_port,
  is_relevant_connection,
}
use collector.Net.Keys.{connection_keys}
use collector.ConnStatus.{conn_status, is_active}
use collector.Tracker.State.{new_tracker}
use collector.Tracker.Update.{
  update, emplace_conns, emplace_endpoints, mark_inactive, emplace_or_update_conn,
  emplace_or_update,
}
use collector.KeyMap.Keys.{nat_keys}

abbrev container_hex : List ℕ
container_hex = codes "0123456789abcdef0123456789abcdef0123456789abcdef0123456789abcdef"

abbrev net_tcp : List ℕ
net_tcp =
    codes "  sl  local_address rem_address   st\n"
    ++ codes
        "   0: 0100000A:1F90 0200000A:C350 01 00000000:00000000 00:00000000 00000000 0 0 42 1 x\n"

abbrev pid_dir : PidDir
pid_dir = record {
  stat = some (codes "7 (server) S 1 7\n");
  cgroup = some (codes "0::/docker/" ++ container_hex ++ codes "\n");
  netns = some (codes "net:[99]");
  fds = some ((codes ".", none) ∷ (codes "3", some (codes "socket:[42]")) ∷ []);
  net_tcp = some net_tcp;
  net_tcp6 = some (codes "  sl\n");
  netns_again = none;
}

abbrev proc : List ProcEntry
proc =
    (record { name = codes "self"; dir = none })
    ∷ (record { name = codes "7"; dir = some pid_dir })
    ∷ []

abbrev local : Endpoint
local = address_endpoint (ipv4_address 10 0 0 1) 8080

abbrev remote : Endpoint
remote = address_endpoint (ipv4_address 10 0 0 2) 50000

abbrev found : Found
found = record {
  connections = connection "0123456789ab" local remote L4Proto.tcp true ∷ [];
  listen_endpoints = some [];
}

scraped : read_container_connections true (some proc) none (nothing_found (some [])) ≡ some found
unfolding read_container_connections scan_entries scan_entry scan_dir scan_sockets note_namespace
    store_sockets pid_of is_zombie read_process_state first_line_state fgets_all fgets_from
    extract_process_state rfind starts_with first_char c_string dir_container_id getlines
    getlines_from lines_container_id extract_container_id rep_find rep_find_from find_from index_of
    extract_container_id_from_cgroup from_end id_after is_conmon is_container_id string_of char_of
    get_network_namespace read_inode parse_link_inode last_char strtoumax signed_digits read_digits
    strip_spaces isspace isdigit get_socket_inodes note_sockets note_socket find put insert assign
    member add_member get_connections read_file read_connections_from_file read_after_header
    read_lines read_data parse_conn_line parse_remote parse_state parse_inode nextfield skip_word
    skip_spaces rep_nextfield parse_endpoint parse_port read_hex_bytes read_hex_from is_hex_char
    hex_char_to_val end_chunk native_uint16 address_of word_of big_endian address_endpoint
    address_net ip_net copy_mask local_is_server is_ephemeral_port resolve_socket_inodes
    resolve_container resolve_ns resolve_sockets resolve_socket push_connection connection
    is_relevant_connection is_local
scraped = refl

read_container_connections-IsScraped_example : Each (IsScraped true true proc) found.connections
read_container_connections-IsScraped_example =
    read_container_connections-IsScraped true proc none (some []) found scraped

stored :
    find connection_keys
      (connection "0123456789ab" local remote L4Proto.tcp true)
      (update found.connections [] (pos 5) new_tracker).conn_state
    ≡ some (conn_status (pos 5) true)
unfolding update find connection_keys emplace_conns emplace_endpoints mark_inactive sweep
    new_tracker emplace_or_update_conn emplace_or_update insert connection address_endpoint
    address_eq
stored = refl

-- The tracker knows nothing before the scrape.
update-IsScraped_example :
    (c : Connection) × (connection_keys.same c
        (connection "0123456789ab" local remote L4Proto.tcp true)
      ≡ true)
    × IsScraped true true proc c
unfolding is_active conn_status new_tracker
update-IsScraped_example =
    update-IsScraped true proc none (some []) found [] (pos 5) new_tracker
      (connection "0123456789ab" local remote L4Proto.tcp true) (conn_status (pos 5) true) scraped
      tt tt stored refl

abbrev conn : ConnInfo
conn = record { local = local; remote = remote; l4proto = L4Proto.tcp; is_server = true }

abbrev network : NsNetworkData
network = record { connections = (42, conn) ∷ []; listen_endpoints = [] }

abbrev socket : SocketInfo
socket = record { inode = 42; pid = 7 }

mem-resolve_socket_inodes_example :
    Memᴰ
      (connection "a" local remote L4Proto.tcp true)
      (resolve_socket_inodes
        (("a", (99, socket ∷ []) ∷ []) ∷ [])
        ((99, network) ∷ [])
        none
        (nothing_found none)).connections
unfolding find is_relevant_connection is_local address_endpoint address_net ip_net connection
mem-resolve_socket_inodes_example =
    mem-resolve_socket_inodes none ((99, network) ∷ []) "a" 99 socket network conn refl refl refl
      (socket ∷ []) ((99, socket ∷ []) ∷ []) (("a", (99, socket ∷ []) ∷ []) ∷ [])
      (nothing_found none) (Memᴰ.head refl) (Memᴰ.head refl) (Memᴰ.head refl)

abbrev entry : ConnLineData
entry = record { local = local; remote = remote; state = 1; inode = 42 }

find-read_connections_from_file_example :
    find nat_keys 42
      (read_connections_from_file true Family.ipv4 L4Proto.tcp net_tcp
        (record { connections = []; listen_endpoints = none })).1.connections
    ≡ some conn
unfolding fgets_all fgets_from parse_conn_line parse_remote parse_state parse_inode nextfield
    skip_word skip_spaces rep_nextfield parse_endpoint parse_port read_hex_bytes read_hex_from
    is_hex_char hex_char_to_val end_chunk native_uint16 address_of word_of big_endian
    address_endpoint address_net ip_net copy_mask strtoumax signed_digits read_digits strip_spaces
    isspace isdigit is_ephemeral_port
find-read_connections_from_file_example =
    find-read_connections_from_file true Family.ipv4 L4Proto.tcp net_tcp
      (record { connections = []; listen_endpoints = none })
      (codes "  sl  local_address rem_address   st\n")
      (codes
          "   0: 0100000A:1F90 0200000A:C350 01 00000000:00000000 00:00000000 00000000 0 0 42 1 x\n"
        ∷ [])
      [] (entry ∷ []) refl refl refl refl 42
