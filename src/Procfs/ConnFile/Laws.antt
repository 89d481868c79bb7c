-- ===== src/Procfs/ConnFile/Laws.antt =====
-- What ReadConnectionsFromFile (collector/lib/ProcfsScraper.cpp) knows of a file's sockets.
use collector.Prelude.{
  ℕ, ◌≡◌, refl, Bool, true, none, some, List, [], ◌∷◌, ◌++◌, arith, ap, ◌∙◌, Option-cases, inl, inr,
}
use collector.KeyMap.{find, member}
use collector.KeyMap.Keys.{nat_keys}
use collector.Net.Address.{Family, any}
use collector.Net.Endpoint.{Endpoint, endpoint_address, address_endpoint, L4Proto}
use collector.Net.Keys.{endpoint_keys}
use collector.Procfs.Fields.{fgets_all}
use collector.Procfs.ConnLine.{ConnLineData}
use collector.Procfs.ConnFile.{
  NetworkData, ReadState, local_is_server, read_after_header, read_connections_from_file, line_size,
}
use collector.Procfs.ConnFile.Entries.{
  entries, is_listen, is_established, none_are, listens_on, last_of, serves, read_all,
  read_lines-entries, read_all-append, connections-listening, member-listening, find-established,
  listens_on-append,
}

abbrev read_first : L4Proto → NetworkData → List ConnLineData → ReadState
read_first l4proto network ls =
    read_all l4proto ls (record { all_listen_endpoints = []; network = network })

member-listening_first :
    (l4proto : L4Proto) (network : NetworkData) (ls es : List ConnLineData) (e : Endpoint)
    → none_are is_listen es ≡ true
    → member endpoint_keys e (read_first l4proto network ls).all_listen_endpoints
      ≡ listens_on e (ls ++ es)
unfolding member
member-listening_first l4proto network ls es e h =
    let start : ReadState = record { all_listen_endpoints = []; network = network } in
    ground (arith, member-listening l4proto ls start e, listens_on-append e ls es h)

serves-middle :
    (l4proto : L4Proto) (network : NetworkData) (ls es : List ConnLineData) (d : ConnLineData)
    → none_are is_listen es ≡ true
    → local_is_server d.local d.remote (read_first l4proto network ls).all_listen_endpoints
      ≡ serves (ls ++ es) d
unfolding local_is_server
serves-middle l4proto network ls es d h =
    let local_any = address_endpoint (any (endpoint_address d.local).family) d.local.port in
    rw
      (
        member-listening_first l4proto network ls es d.local h,
        member-listening_first l4proto network ls es local_any h,
      )
      (ground arith)

read_connections_from_file-header :
    (little : Bool) (family : Family) (l4proto : L4Proto) (content : List ℕ) (network : NetworkData)
    (header : List ℕ) (lines : List (List ℕ))
    → fgets_all line_size content ≡ header ∷ lines
    → read_connections_from_file little family l4proto content network
      ≡ (true, (read_first l4proto network (entries little family lines)).network)
unfolding read_connections_from_file read_after_header
read_connections_from_file-header little family l4proto content network header lines read =
    ap (read_after_header little family l4proto network) read
    ∙ ap (λ s. (true, s.network))
        (read_lines-entries little family l4proto lines
          (record { all_listen_endpoints = []; network = network }))

-- The connections of a file in which, as in those of Linux, no entry listens after the first
-- established one: each socket has its last established connection there, or what was known of it
-- before; and the local end of one is the server if any entry of the file listens on it or on its port
-- at any address, or else if its port looks less like an ephemeral one than that of the remote end.
pub find-read_connections_from_file :
    (little : Bool) (family : Family) (l4proto : L4Proto) (content : List ℕ) (network : NetworkData)
    (header : List ℕ) (lines : List (List ℕ)) (ls es : List ConnLineData)
    → fgets_all line_size content ≡ header ∷ lines
    → entries little family lines ≡ ls ++ es
    → none_are is_established ls ≡ true
    → none_are is_listen es ≡ true
    → (inode : ℕ)
    → find nat_keys inode
        (read_connections_from_file little family l4proto content network).1.connections
      ≡ elim (last_of inode es) [
        | none ↦ find nat_keys inode network.connections
        | some d ↦ some (record {
          local = d.local;
          remote = d.remote;
          l4proto = l4proto;
          is_server = serves (ls ++ es) d;
        })
      ]
find-read_connections_from_file little family l4proto content network header lines ls es read parsed
      first last inode =
    let start : ReadState = record { all_listen_endpoints = []; network = network } in
    let middle = read_first l4proto network ls in
    rw
      (
        read_connections_from_file-header little family l4proto content network header lines read,
        parsed,
        read_all-append l4proto ls es start,
        find-established l4proto es middle inode last,
      )
      (elim (Option-cases (last_of inode es)) [
        | inl absent ↦
            rw absent (ap (find nat_keys inode) (connections-listening l4proto ls start first))
        | inr (d, there) ↦ rw (there, serves-middle l4proto network ls es d last) refl
      ])
