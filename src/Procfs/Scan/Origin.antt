-- ===== src/Procfs/Scan/Origin.antt =====
-- The processes of `/proc` and the sockets that GetSocketINodes (collector/lib/ProcfsScraper.cpp) finds.
use Prim.Native.String.{String}
use text.Mathlib.TextEquality.{eq_iff}
use mathlib.Core.List.{Memᴰ}
use collector.Prelude.{
  ℕ, ◌≡◌, refl, Bool, true, false, Option, none, some, List, [], ◌∷◌, arith, Bool-cases,
  Option-cases, inl, inr, Each,
}
use collector.Prelude.Text.{codes, string_of}
use collector.KeyMap.{UnorderedSet, member, add_member}
use collector.KeyMap.Keys.{nat_keys, string_keys}
use collector.Procfs.Fields.{peek, isdigit}
use collector.Procfs.ConnFile.{get_connections}
use collector.Procfs.Links.{
  SocketInfo, socket_keys, FdEntry, read_inode, get_network_namespace, note_socket, note_sockets,
  get_socket_inodes, read_process_state, dir_container_id,
}
use collector.Procfs.Sockets.{NsNetworkData}
use collector.Procfs.Scan.{PidDir, ProcEntry, pid_of, is_zombie, no_network, ns_data}

-- A process of a container that is no zombie: its entry, its directory, its container and its network
-- namespace.
pub record InContainer (entries : List ProcEntry) (id : String) (netns : ℕ) (entry : ProcEntry)
    (dir : PidDir) : Type 0 where
  pub listed : Memᴰ entry entries
  pub numbered : isdigit (peek entry.name) ≡ true
  pub opened : entry.dir ≡ some dir
  pub alive : is_zombie (read_process_state dir.stat) ≡ false
  pub short_id : List ℕ
  pub contained : dir_container_id dir.cgroup ≡ some short_id
  pub named : id ≡ string_of short_id
  pub in_netns : get_network_namespace dir.netns ≡ some netns

-- A socket that such a process has open.
pub record HasOpen (entries : List ProcEntry) (id : String) (netns : ℕ) (socket : SocketInfo)
    : Type 0 where
  pub entry : ProcEntry
  pub dir : PidDir
  pub owner : InContainer entries id netns entry dir
  pub fds : List FdEntry
  pub fd : FdEntry
  pub readable : dir.fds ≡ some fds
  pub among : Memᴰ fd fds
  pub linked : read_inode fd.1 (codes "socket") ≡ some socket.inode
  pub owned : socket.pid ≡ pid_of entry.name

-- What the files of such a process say of its network namespace.
pub record IsRead (little with_endpoints : Bool) (entries : List ProcEntry)
    (known : ℕ × NsNetworkData) : Type 0 where
  pub id : String
  pub entry : ProcEntry
  pub dir : PidDir
  pub reader : InContainer entries id known.0 entry dir
  pub content :
      known.1
      ≡ ns_data (get_connections little dir.net_tcp dir.net_tcp6 (no_network with_endpoints)).1

pub string_same : (j k : String) → string_keys.same j k ≡ true → j ≡ k
string_same j k h = (eq_iff j k).0 h

pub nat_same : (j k : ℕ) → nat_keys.same j k ≡ true → j ≡ k
nat_same j k h = ground (arith, h)

-- The sockets that a process adds.
module _ (P : SocketInfo → Type 0) (pid : ℕ) where
  add_member-Each :
      (s : SocketInfo) (sockets : UnorderedSet SocketInfo)
      → P s
      → Each P sockets
      → Each P (add_member socket_keys s sockets)
  unfolding add_member
  add_member-Each s sockets p h = elim (Bool-cases (member socket_keys s sockets)) [
    | inl there ↦ rw there h
    | inr absent ↦ rw absent (p, h)
  ]

  note_socket-Each :
      (fd : FdEntry) (sockets : UnorderedSet SocketInfo)
      → ((inode : ℕ)
          → read_inode fd.1 (codes "socket") ≡ some inode
          → P (record { inode = inode; pid = pid }))
      → Each P sockets
      → Each P (note_socket pid fd sockets)
  unfolding note_socket
  note_socket-Each (name, link) sockets p h = elim (Bool-cases (isdigit (peek name))) [
    | inl digit ↦ elim (Option-cases (read_inode link (codes "socket"))) [
      | inl absent ↦ rw (note_socket, digit, absent) h
      | inr (inode, there) ↦
          rw (note_socket, digit, there)
            (add_member-Each (record { inode = inode; pid = pid }) sockets (p inode there) h)
    ]
    | inr other ↦ rw (note_socket, other) h
  ]

  note_sockets-Each :
      (fds : List FdEntry) (sockets : UnorderedSet SocketInfo)
      → ((fd : FdEntry)
          → Memᴰ fd fds
          → (inode : ℕ) → read_inode fd.1 (codes "socket") ≡ some inode
          → P (record { inode = inode; pid = pid }))
      → Each P sockets
      → Each P (note_sockets pid fds sockets)
  unfolding note_sockets
  note_sockets-Each [] sockets p h = h
  note_sockets-Each (fd ∷ fds) sockets p h =
      note_sockets-Each fds (note_socket pid fd sockets) (λ f m. p f (Memᴰ.tail m))
        (note_socket-Each fd sockets (p fd (Memᴰ.head refl)) h)

  pub get_socket_inodes-Each :
      (o : Option (List FdEntry)) (sockets : UnorderedSet SocketInfo)
      → ((fds : List FdEntry)
          → o ≡ some fds
          → (fd : FdEntry) → Memᴰ fd fds
          → (inode : ℕ) → read_inode fd.1 (codes "socket") ≡ some inode
          → P (record { inode = inode; pid = pid }))
      → Each P sockets
      → Each P (get_socket_inodes o pid sockets).1
  unfolding get_socket_inodes
  get_socket_inodes-Each none sockets p h = h
  get_socket_inodes-Each (some fds) sockets p h = note_sockets-Each fds sockets (p fds refl) h
