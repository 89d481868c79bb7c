-- ===== src/Procfs/Scan/Sound.antt =====
-- The maps that ReadContainerConnections (collector/lib/ProcfsScraper.cpp) fills, entry by entry.
use Prim.Native.String.{String}
use mathlib.Core.List.{Memᴰ}
use collector.Prelude.{
  ℕ, ◌≡◌, refl, Bool, true, ◌&&◌, not, some, List, [], ◌∷◌, Bool-cases, Option-cases, inl, inr,
  Each,
}
use collector.Prelude.Text.{string_of}
use collector.KeyMap.{UnorderedSet, find, put}
use collector.KeyMap.Keys.{nat_keys, string_keys}
use collector.KeyMap.Entries.{insert-Each, put-Each, find-Each}
use collector.Procfs.Fields.{peek, isdigit}
use collector.Procfs.ConnFile.{get_connections}
use collector.Procfs.Links.{
  SocketInfo, get_network_namespace, get_socket_inodes, read_process_state, dir_container_id,
}
use collector.Procfs.Sockets.{ConnsByNs, SocketsByNs, SocketsByContainer}
use collector.Procfs.Sockets.Laws.{EachInNs, EachSocket}
use collector.Procfs.Scan.{
  PidDir, ProcEntry, ScanState, pid_of, is_zombie, sockets_of, ns_sockets_of, store_sockets,
  is_empty, no_network, ns_data, still_there, note_namespace, scan_sockets, scan_dir, scan_entry,
  scan_entries,
}
use collector.Procfs.Scan.Origin.{
  InContainer, HasOpen, IsRead, string_same, nat_same, get_socket_inodes-Each,
}

module _ (little with_endpoints : Bool) (entries : List ProcEntry) where
  -- What the walk keeps true of its maps.
  pub record IsScanned (s : ScanState) : Type 0 where
    pub sockets : EachSocket (HasOpen entries) s.sockets_by_container_and_ns
    pub networks : Each (IsRead little with_endpoints entries) s.conns_by_ns

  sockets_of-Each :
      (id : String) (m : SocketsByContainer)
      → EachSocket (HasOpen entries) m
      → EachInNs (HasOpen entries) id (sockets_of id m)
  sockets_of-Each id m h = elim (Option-cases (find string_keys id m)) [
    | inl absent ↦ rw (sockets_of, absent) tt
    | inr (inner, there) ↦
        rw (sockets_of, there)
          (find-Each string_keys string_same (λ c. EachInNs (HasOpen entries) c.0 c.1) id inner m h
            there)
  ]

  ns_sockets_of-Each :
      (id : String) (netns : ℕ) (m : SocketsByNs)
      → EachInNs (HasOpen entries) id m
      → Each (HasOpen entries id netns) (ns_sockets_of netns m)
  ns_sockets_of-Each id netns m h = elim (Option-cases (find nat_keys netns m)) [
    | inl absent ↦ rw (ns_sockets_of, Each, absent) tt
    | inr (inner, there) ↦
        rw (ns_sockets_of, Each, there)
          (find-Each nat_keys nat_same (λ n. Each (HasOpen entries id n.0) n.1) netns inner m h
            there)
  ]

  store_sockets-Each :
      (id : String) (netns : ℕ) (sockets : UnorderedSet SocketInfo) (m : SocketsByContainer)
      → EachSocket (HasOpen entries) m
      → Each (HasOpen entries id netns) sockets
      → EachSocket (HasOpen entries) (store_sockets id netns sockets m)
  unfolding store_sockets
  store_sockets-Each id netns sockets m h k =
      put-Each string_keys string_same (λ c. EachInNs (HasOpen entries) c.0 c.1) id
        (put nat_keys netns sockets (sockets_of id m)) m
        (put-Each nat_keys nat_same (λ n. Each (HasOpen entries id n.0) n.1) netns sockets
          (sockets_of id m) k (sockets_of-Each id m h))
        h

  module _ (id : String) (netns : ℕ) (entry : ProcEntry) (dir : PidDir)
      (owner : InContainer entries id netns entry dir) where
    note_namespace-Each :
        (conns : ConnsByNs)
        → Each (IsRead little with_endpoints entries) conns
        → Each
            (IsRead little with_endpoints entries)
            (note_namespace little with_endpoints dir netns conns)
    unfolding note_namespace
    note_namespace-Each conns h =
        let read = get_connections little dir.net_tcp dir.net_tcp6 (no_network with_endpoints) in
        let inserted =
          insert-Each nat_keys nat_same (IsRead little with_endpoints entries) netns
            (ns_data read.1) conns
            (record { id = id; entry = entry; dir = dir; reader = owner; content = refl }) h in
        elim (Option-cases (find nat_keys netns conns)) [
          | inr (network, there) ↦ rw (note_namespace, there) h
          | inl absent ↦ elim (Bool-cases read.0) [
            | inl success ↦ rw (note_namespace, absent, success) inserted
            | inr failure ↦
                elim (Bool-cases (still_there netns (get_network_namespace dir.netns_again))) [
                  | inl still ↦ rw (note_namespace, absent, failure, still) inserted
                  | inr gone ↦ rw (note_namespace, absent, failure, gone) h
                ]
          ]
        ]

    scan_sockets-IsScanned :
        (s : ScanState)
        → entry.dir ≡ some dir
        → IsScanned s
        → IsScanned (scan_sockets little with_endpoints (pid_of entry.name) dir id netns s)
    unfolding scan_sockets
    scan_sockets-IsScanned s opened h =
        let before = ns_sockets_of netns (sockets_of id s.sockets_by_container_and_ns) in
        let got = get_socket_inodes dir.fds (pid_of entry.name) before in
        let found =
          get_socket_inodes-Each (HasOpen entries id netns) (pid_of entry.name) dir.fds before
            (λ fds readable fd among inode linked. record {
              entry = entry;
              dir = dir;
              owner = owner;
              fds = fds;
              fd = fd;
              readable = readable;
              among = among;
              linked = linked;
              owned = refl;
            })
            (ns_sockets_of-Each id netns (sockets_of id s.sockets_by_container_and_ns)
              (sockets_of-Each id s.sockets_by_container_and_ns h.sockets)) in
        let stored =
          store_sockets-Each id netns got.1 s.sockets_by_container_and_ns h.sockets found in
        elim (Bool-cases (got.0 && (is_empty before && not (is_empty got.1)))) [
          | inl first ↦
              rw (scan_sockets, first)
                (record {
                  sockets = stored;
                  networks = note_namespace-Each s.conns_by_ns h.networks;
                })
          | inr later ↦
              rw (scan_sockets, later) (record { sockets = stored; networks = h.networks })
        ]

  scan_dir-IsScanned :
      (entry : ProcEntry) (dir : PidDir) (s : ScanState)
      → Memᴰ entry entries
      → isdigit (peek entry.name) ≡ true
      → entry.dir ≡ some dir
      → IsScanned s
      → IsScanned (scan_dir little with_endpoints (pid_of entry.name) dir s)
  unfolding scan_dir
  scan_dir-IsScanned entry dir s listed numbered opened h =
      elim (Bool-cases (is_zombie (read_process_state dir.stat))) [
        | inl zombie ↦ rw (scan_dir, zombie) h
        | inr alive ↦ elim (Option-cases (dir_container_id dir.cgroup)) [
          | inl outside ↦ rw (scan_dir, alive, outside) h
          | inr (short_id, contained) ↦ elim (Option-cases (get_network_namespace dir.netns)) [
            | inl unknown ↦ rw (scan_dir, alive, contained, unknown) h
            | inr (netns, in_netns) ↦
                rw (scan_dir, alive, contained, in_netns)
                  (scan_sockets-IsScanned (string_of short_id) netns entry dir
                    (record {
                      listed = listed;
                      numbered = numbered;
                      opened = opened;
                      alive = alive;
                      short_id = short_id;
                      contained = contained;
                      named = refl;
                      in_netns = in_netns;
                    })
                    s opened h)
          ]
        ]
      ]

  scan_entry-IsScanned :
      (entry : ProcEntry) (s : ScanState)
      → Memᴰ entry entries
      → IsScanned s
      → IsScanned (scan_entry little with_endpoints entry s)
  unfolding scan_entry
  scan_entry-IsScanned entry s listed h = elim (Bool-cases (isdigit (peek entry.name))) [
    | inr other ↦ rw (scan_entry, other) h
    | inl numbered ↦ elim (Option-cases entry.dir) [
      | inl closed ↦ rw (scan_entry, numbered, closed) h
      | inr (dir, opened) ↦
          rw (scan_entry, numbered, opened)
            (scan_dir-IsScanned entry dir s listed numbered opened h)
    ]
  ]

  pub scan_entries-IsScanned :
      (some_entries : List ProcEntry) (s : ScanState)
      → ((e : ProcEntry) → Memᴰ e some_entries → Memᴰ e entries)
      → IsScanned s
      → IsScanned (scan_entries little with_endpoints some_entries s)
  unfolding scan_entries
  scan_entries-IsScanned [] s within h = h
  scan_entries-IsScanned (e ∷ rest) s within h =
      scan_entries-IsScanned rest (scan_entry little with_endpoints e s)
        (λ f m. within f (Memᴰ.tail m)) (scan_entry-IsScanned e s (within e (Memᴰ.head refl)) h)
