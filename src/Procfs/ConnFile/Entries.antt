-- ===== src/Procfs/ConnFile/Entries.antt =====
-- The lines of a `net/tcp` file as ReadConnectionsFromFile (collector/lib/ProcfsScraper.cpp) takes
-- them one after the other.
use collector.Prelude.{
  ℕ, ◌-◌, ◌≡◌, refl, Bool, true, false, ◌&&◌, ◌||◌, not, Option, none, some, List, [], ◌∷◌, ◌++◌,
  arith, ltb, ◌==◌, if◌then◌else◌, length, ◌∙◌, Option-cases, inl, inr,
}
use collector.KeyMap.{UnorderedSet, find, member}
use collector.KeyMap.Keys.{nat_keys}
use collector.KeyMap.Laws.{find-put, member-add_member}
use collector.Net.Address.{Family, any}
use collector.Net.Endpoint.{
  Endpoint, endpoint_address, address_endpoint, L4Proto, is_ephemeral_port,
}
use collector.Net.Keys.{endpoint_keys}
use collector.Procfs.ConnLine.{ConnLineData, parse_conn_line}
use collector.Procfs.ConnFile.{
  ConnInfo, ReadState, local_is_server, read_data, read_lines, line_size,
}

abbrev prepend : Option ConnLineData → List ConnLineData → List ConnLineData
prepend none ds = ds
prepend (some d) ds = d ∷ ds

-- What the lines of a file say, in their order.
abbrev pub entries : Bool → Family → List (List ℕ) → List ConnLineData
entries little family [] = []
entries little family (line ∷ lines) =
    prepend (parse_conn_line (line_size - length line) little line family)
      (entries little family lines)

abbrev pub is_listen : ConnLineData → Bool
is_listen d = d.state == 10

abbrev pub is_established : ConnLineData → Bool
is_established d = d.state == 1

abbrev pub none_are : (ConnLineData → Bool) → List ConnLineData → Bool
none_are test [] = true
none_are test (d ∷ ds) = not (test d) && none_are test ds

-- Whether one of the entries listens on an endpoint.
abbrev pub listens_on : Endpoint → List ConnLineData → Bool
listens_on e [] = false
listens_on e (d ∷ ds) = is_listen d && endpoint_keys.same d.local e || listens_on e ds

abbrev or_else : Option ConnLineData → Option ConnLineData → Option ConnLineData
or_else none other = other
or_else (some d) other = some d

-- The last established connection of a socket.
abbrev pub last_of : ℕ → List ConnLineData → Option ConnLineData
last_of inode [] = none
last_of inode (d ∷ ds) =
    or_else (last_of inode ds)
      (if is_established d && (d.inode == inode && not (inode == 0)) then some d else none)

-- The local end is the server if one of the entries listens on it or on its port at any address, or
-- else if its port looks less like an ephemeral one than that of the remote end.
abbrev pub serves : List ConnLineData → ConnLineData → Bool
serves ds d =
    (listens_on d.local ds
      || listens_on (address_endpoint (any (endpoint_address d.local).family) d.local.port) ds)
    || ltb (is_ephemeral_port d.local.port) (is_ephemeral_port d.remote.port)

abbrev pub read_all : L4Proto → List ConnLineData → ReadState → ReadState
read_all l4proto [] s = s
read_all l4proto (d ∷ ds) s = read_all l4proto ds (read_data l4proto d s)

pub read_lines-entries :
    (little : Bool) (family : Family) (l4proto : L4Proto) (lines : List (List ℕ)) (s : ReadState)
    → read_lines little family l4proto lines s ≡ read_all l4proto (entries little family lines) s
unfolding read_lines
read_lines-entries little family l4proto [] s = refl
read_lines-entries little family l4proto (line ∷ lines) s =
    elim (Option-cases (parse_conn_line (line_size - length line) little line family)) [
      | inl failed ↦ rw failed (read_lines-entries little family l4proto lines s)
      | inr (d, parsed) ↦
          rw parsed (read_lines-entries little family l4proto lines (read_data l4proto d s))
    ]

pub read_all-append :
    (l4proto : L4Proto) (ls es : List ConnLineData) (s : ReadState)
    → read_all l4proto (ls ++ es) s ≡ read_all l4proto es (read_all l4proto ls s)
read_all-append l4proto [] es s = refl
read_all-append l4proto (d ∷ ls) es s = read_all-append l4proto ls es (read_data l4proto d s)

module _ (l4proto : L4Proto) where
  connections-not_established :
      (d : ConnLineData) (s : ReadState)
      → is_established d ≡ false
      → (read_data l4proto d s).network.connections ≡ s.network.connections
  unfolding read_data
  connections-not_established d s h = ground arith

  member-read_data :
      (d : ConnLineData) (s : ReadState) (e : Endpoint)
      → member endpoint_keys e (read_data l4proto d s).all_listen_endpoints ≡ (
          is_listen d && endpoint_keys.same d.local e
          || member endpoint_keys e s.all_listen_endpoints)
  unfolding read_data
  member-read_data d s e =
      ground (arith, member-add_member endpoint_keys d.local e s.all_listen_endpoints)

  find-read_data :
      (d : ConnLineData) (s : ReadState) (inode : ℕ)
      → find nat_keys inode (read_data l4proto d s).network.connections ≡ (
          if is_established d && (d.inode == inode && not (inode == 0))
          then some (record {
            local = d.local;
            remote = d.remote;
            l4proto = l4proto;
            is_server = local_is_server d.local d.remote s.all_listen_endpoints;
          })
          else find nat_keys inode s.network.connections)
  unfolding read_data
  find-read_data d s inode = ground (
    arith,
    find-put nat_keys d.inode inode
        (record {
          local = d.local;
          remote = d.remote;
          l4proto = l4proto;
          is_server = local_is_server d.local d.remote s.all_listen_endpoints;
        })
        s.network.connections,
  )

  all_listen_endpoints-not_listen :
      (d : ConnLineData) (s : ReadState)
      → is_listen d ≡ false
      → (read_data l4proto d s).all_listen_endpoints ≡ s.all_listen_endpoints
  unfolding read_data
  all_listen_endpoints-not_listen d s h = ground arith

  -- While no entry is established, the connections stay and the listening endpoints are gathered.
  pub connections-listening :
      (ls : List ConnLineData) (s : ReadState)
      → none_are is_established ls ≡ true
      → (read_all l4proto ls s).network.connections ≡ s.network.connections
  connections-listening [] s h = refl
  connections-listening (d ∷ ls) s h =
      connections-listening ls (read_data l4proto d s) (ground (arith, h))
      ∙ connections-not_established d s (ground (arith, h))

  pub member-listening :
      (ls : List ConnLineData) (s : ReadState) (e : Endpoint)
      → member endpoint_keys e (read_all l4proto ls s).all_listen_endpoints
        ≡ (listens_on e ls || member endpoint_keys e s.all_listen_endpoints)
  member-listening [] s e = refl
  member-listening (d ∷ ls) s e =
      ground (arith, member-listening ls (read_data l4proto d s) e, member-read_data d s e)

  abbrev info : UnorderedSet Endpoint → ConnLineData → ConnInfo
  info listening d = record {
    local = d.local;
    remote = d.remote;
    l4proto = l4proto;
    is_server = local_is_server d.local d.remote listening;
  }

  -- Once no entry is a listening one, a socket has its last established connection.
  pub find-established :
      (es : List ConnLineData) (s : ReadState) (inode : ℕ)
      → none_are is_listen es ≡ true
      → find nat_keys inode (read_all l4proto es s).network.connections ≡ elim (last_of inode es) [
        | none ↦ find nat_keys inode s.network.connections
        | some d ↦ some (info s.all_listen_endpoints d)
      ]
  find-established [] s inode h = refl
  find-established (d ∷ es) s inode h =
      let after = read_data l4proto d s in
      elim (Option-cases (last_of inode es)) [
        | inl absent ↦
            ground (arith, h, absent, find-established es after inode, find-read_data d s inode)
        | inr (e, there) ↦
            ground (
              arith,
              h,
              there,
              find-established es after inode,
              all_listen_endpoints-not_listen d s,
            )
      ]

pub listens_on-append :
    (e : Endpoint) (ls es : List ConnLineData)
    → none_are is_listen es ≡ true
    → listens_on e (ls ++ es) ≡ listens_on e ls
listens_on-append e [] [] h = refl
listens_on-append e [] (d ∷ es) h = ground (arith, listens_on-append e [] es)
listens_on-append e (d ∷ ls) es h = ground (arith, listens_on-append e ls es)
