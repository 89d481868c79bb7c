-- ===== src/Procfs/Sockets/Complete.antt =====
-- Which connections ResolveSocketInodes (collector/lib/ProcfsScraper.cpp) reports.
use Prim.Native.String.{String}
use mathlib.Core.List.{Memᴰ}
use mathlib.Core.List.Memᴰ
use collector.Prelude.{ℕ, ◌≡◌, refl, subst, true, some, [], ◌∷◌, Option-cases, inl, inr}
use collector.KeyMap.{UnorderedSet, find}
use collector.KeyMap.Keys.{nat_keys}
use collector.Net.Endpoint.{Connection, is_relevant_connection}
use collector.Procfs.ConnFile.{ConnInfo}
use collector.Procfs.Links.{SocketInfo}
use collector.Procfs.Sockets.{
  NsNetworkData, ConnsByNs, SocketsByNs, SocketsByContainer, ProcessStore, Found, socket_connection,
  resolve_socket, resolve_sockets, resolve_ns, resolve_container, resolve_socket_inodes,
}
use collector.Procfs.Sockets.Laws.{added, resolve_socket-connections}

module _ (store : ProcessStore) (conns_by_ns : ConnsByNs) where
  -- What has been found is kept.
  kept_socket :
      (c : Connection) (network : NsNetworkData) (id : String) (s : SocketInfo) (found : Found)
      → Memᴰ c found.connections
      → Memᴰ c (resolve_socket store network id s found).connections
  kept_socket c network id s found m =
      rw (resolve_socket-connections store network id s found)
        (Memᴰ.append_left (added id (find nat_keys s.inode network.connections)) m)

  kept_sockets :
      (c : Connection) (network : NsNetworkData) (id : String) (sockets : UnorderedSet SocketInfo)
      (found : Found)
      → Memᴰ c found.connections
      → Memᴰ c (resolve_sockets store network id sockets found).connections
  unfolding resolve_sockets
  kept_sockets c network id [] found m = m
  kept_sockets c network id (s ∷ sockets) found m =
      kept_sockets c network id sockets (resolve_socket store network id s found)
        (kept_socket c network id s found m)

  kept_ns :
      (c : Connection) (id : String) (netns : ℕ) (sockets : UnorderedSet SocketInfo) (found : Found)
      → Memᴰ c found.connections
      → Memᴰ c (resolve_ns store conns_by_ns id (netns, sockets) found).connections
  unfolding resolve_ns
  kept_ns c id netns sockets found m = elim (Option-cases (find nat_keys netns conns_by_ns)) [
    | inl absent ↦ rw (resolve_ns, absent) m
    | inr (network, known) ↦ rw (resolve_ns, known) (kept_sockets c network id sockets found m)
  ]

  kept_container :
      (c : Connection) (id : String) (sockets : SocketsByNs) (found : Found)
      → Memᴰ c found.connections
      → Memᴰ c (resolve_container store conns_by_ns id sockets found).connections
  unfolding resolve_container
  kept_container c id [] found m = m
  kept_container c id ((netns, sockets) ∷ rest) found m =
      kept_container c id rest (resolve_ns store conns_by_ns id (netns, sockets) found)
        (kept_ns c id netns sockets found m)

  kept_all :
      (c : Connection) (m : SocketsByContainer) (found : Found)
      → Memᴰ c found.connections
      → Memᴰ c (resolve_socket_inodes m conns_by_ns store found).connections
  unfolding resolve_socket_inodes
  kept_all c [] found h = h
  kept_all c ((id, sockets) ∷ rest) found h =
      kept_all c rest (resolve_container store conns_by_ns id sockets found)
        (kept_container c id sockets found h)

  module _ (id : String) (netns : ℕ) (s : SocketInfo) (network : NsNetworkData) (conn : ConnInfo)
      (known : find nat_keys netns conns_by_ns ≡ some network)
      (connected : find nat_keys s.inode network.connections ≡ some conn)
      (relevant : is_relevant_connection (socket_connection id conn) ≡ true) where
    mem_socket :
        (found : Found)
        → Memᴰ (socket_connection id conn) (resolve_socket store network id s found).connections
    mem_socket found =
        rw (resolve_socket-connections store network id s found, connected, relevant)
          (Memᴰ.append_right found.connections (Memᴰ.head refl))

    mem_sockets :
        (sockets : UnorderedSet SocketInfo) (found : Found)
        → Memᴰ s sockets
        → Memᴰ
            (socket_connection id conn)
            (resolve_sockets store network id sockets found).connections
    unfolding resolve_sockets
    mem_sockets [] found m = absurd (Memᴰ.not-nil m)
    mem_sockets (t ∷ sockets) found m = elim (Memᴰ.cases_cons m) [
      | inl same ↦
          kept_sockets (socket_connection id conn) network id sockets
            (resolve_socket store network id t found)
            (subst
              (λ u.
                Memᴰ (socket_connection id conn)
                  (resolve_socket store network id u found).connections)
              same (mem_socket found))
      | inr rest ↦ mem_sockets sockets (resolve_socket store network id t found) rest
    ]

    mem_ns :
        (sockets : UnorderedSet SocketInfo) (found : Found)
        → Memᴰ s sockets
        → Memᴰ
            (socket_connection id conn)
            (resolve_ns store conns_by_ns id (netns, sockets) found).connections
    unfolding resolve_ns
    mem_ns sockets found m = rw (resolve_ns, known) (mem_sockets sockets found m)

    mem_container :
        (sockets : UnorderedSet SocketInfo) (m : SocketsByNs) (found : Found)
        → Memᴰ s sockets
        → Memᴰ (netns, sockets) m
        → Memᴰ
            (socket_connection id conn)
            (resolve_container store conns_by_ns id m found).connections
    unfolding resolve_container
    mem_container sockets [] found h m = absurd (Memᴰ.not-nil m)
    mem_container sockets (n ∷ rest) found h m = elim (Memᴰ.cases_cons m) [
      | inl same ↦
          kept_container (socket_connection id conn) id rest
            (resolve_ns store conns_by_ns id n found)
            (subst
              (λ u.
                Memᴰ (socket_connection id conn)
                  (resolve_ns store conns_by_ns id u found).connections)
              same (mem_ns sockets found h))
      | inr later ↦ mem_container sockets rest (resolve_ns store conns_by_ns id n found) h later
    ]

    -- The relevant connection of a socket that stands in the map and has one in what is known of its
    -- network namespace is among those that are reported.
    pub mem-resolve_socket_inodes :
        (sockets : UnorderedSet SocketInfo) (by_ns : SocketsByNs) (m : SocketsByContainer)
        (found : Found)
        → Memᴰ s sockets
        → Memᴰ (netns, sockets) by_ns
        → Memᴰ (id, by_ns) m
        → Memᴰ
            (socket_connection id conn)
            (resolve_socket_inodes m conns_by_ns store found).connections
    unfolding resolve_socket_inodes
    mem-resolve_socket_inodes sockets by_ns [] found h n m = absurd (Memᴰ.not-nil m)
    mem-resolve_socket_inodes sockets by_ns ((other, entry) ∷ rest) found h n m =
        elim (Memᴰ.cases_cons m) [
          | inl same ↦
              kept_all (socket_connection id conn) rest
                (resolve_container store conns_by_ns other entry found)
                (subst
                  (λ u.
                    Memᴰ (socket_connection id conn)
                      (resolve_container store conns_by_ns u.0 u.1 found).connections)
                  same (mem_container sockets by_ns found h n))
          | inr later ↦
              mem-resolve_socket_inodes sockets by_ns rest
                (resolve_container store conns_by_ns other entry found) h n later
        ]
