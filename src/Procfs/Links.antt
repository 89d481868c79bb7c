-- ===== src/Procfs/Links.antt =====
-- ReadINode, GetNetworkNamespace, GetSocketINodes, ReadProcessState, GetContainerID, ExtractContainerID
-- and ExtractProcessState (collector/lib/ProcfsScraper.cpp): what the files and links of a process's
-- directory say. A link that cannot be read and a file that cannot be opened are `none`.
pub mod Laws
pub mod Cgroups
use collector.Prelude.{
  ℕ, ◌+◌, ◌-◌, Bool, true, false, ◌||◌, not, Option, none, some, List, [], ◌∷◌, leb, ◌==◌,
  if◌then◌else◌, length, drop,
}
use collector.Prelude.Text.{codes}
use collector.KeyMap.{KeyEq, UnorderedSet, add_member, and_then}
use collector.KeyMap.Keys.{nat_keys, on}
use collector.ContainerId.{starts_with, rfind, extract_container_id_from_cgroup}
use collector.Procfs.Fields.{peek, isdigit, rep_find, strtoumax, fgets_all, getlines}

abbrev pub linkbuf_size : ℕ
linkbuf_size = 64

-- The last character.
unfoldable pub last_char : List ℕ → ℕ
last_char [] = 0
last_char (c ∷ []) = c
last_char (c ∷ d ∷ str) = last_char (d ∷ str)

-- ReadINode from the parsing of the number on.
unfoldable pub parse_link_inode : List ℕ → Option ℕ
parse_link_inode p =
    let (parsed, endp) = strtoumax p in if not (peek endp == b']') then none else some parsed

unfoldable pub read_inode : Option (List ℕ) → List ℕ → Option ℕ
read_inode none prefix = none
read_inode (some link) prefix =
    if length link == 0 || leb (linkbuf_size - 1) (length link)
    then none
    else if not (last_char link == b']')
    then none
    else if not (starts_with prefix link)
    then none
    else if not (starts_with (codes ":[") (drop (length prefix) link))
    then none
    else parse_link_inode (drop 2 (drop (length prefix) link))

unfoldable pub get_network_namespace : Option (List ℕ) → Option ℕ
get_network_namespace link = read_inode link (codes "net")

pub record SocketInfo : Type 0 where
  pub inode : ℕ
  pub pid : ℕ

-- SocketInfo::operator== and SocketInfo::Hash
abbrev pub socket_keys : KeyEq SocketInfo
socket_keys = on (λ s. s.inode) nat_keys

-- An entry of the `fd` directory: its name, and what its link says.
abbrev pub FdEntry : Type 0
FdEntry = List ℕ × Option (List ℕ)

-- One round of the loop of GetSocketINodes.
unfoldable pub note_socket : ℕ → FdEntry → UnorderedSet SocketInfo → UnorderedSet SocketInfo
note_socket pid (name, link) sock_inodes =
    if not (isdigit (peek name)) then sock_inodes else elim (read_inode link (codes "socket")) [
      | none ↦ sock_inodes
      | some inode ↦ add_member socket_keys (record { inode = inode; pid = pid }) sock_inodes
    ]

unfoldable pub note_sockets : ℕ → List FdEntry → UnorderedSet SocketInfo → UnorderedSet SocketInfo
unfolding note_socket
note_sockets pid [] sock_inodes = sock_inodes
note_sockets pid (fd ∷ fds) sock_inodes = note_sockets pid fds (note_socket pid fd sock_inodes)

-- Whether the directory can be opened, and the sockets known then.
unfoldable pub get_socket_inodes :
    Option (List FdEntry) → ℕ → UnorderedSet SocketInfo → Bool × UnorderedSet SocketInfo
get_socket_inodes none pid sock_inodes = (false, sock_inodes)
get_socket_inodes (some fds) pid sock_inodes = (true, note_sockets pid fds sock_inodes)

unfoldable pub first_char : List ℕ → Option ℕ
first_char [] = none
first_char (c ∷ line) = some c

unfoldable pub extract_process_state : List ℕ → Option ℕ
extract_process_state line =
    and_then (rfind (codes ") ") line)
      (λ last_parenthese. first_char (drop (last_parenthese + 2) line))

-- A string_view of a `char*`.
unfoldable pub c_string : List ℕ → List ℕ
c_string [] = []
c_string (c ∷ str) = if c == 0 then [] else c ∷ c_string str

unfoldable pub first_line_state : List (List ℕ) → Option ℕ
first_line_state [] = some 0
first_line_state (line ∷ lines) = extract_process_state (c_string line)

-- `return false` makes an optional<char> that holds a NUL character.
unfoldable pub read_process_state : Option (List ℕ) → Option ℕ
read_process_state none = some 0
read_process_state (some stat) = first_line_state (fgets_all 512 stat)

unfoldable pub extract_container_id : List ℕ → Option (List ℕ)
extract_container_id cgroup_line =
    and_then (rep_find 2 cgroup_line b':')
      (λ start. extract_container_id_from_cgroup (drop (start + 1) cgroup_line))

-- The loop of GetContainerID over the lines.
unfoldable pub lines_container_id : List (List ℕ) → Option (List ℕ)
lines_container_id [] = none
lines_container_id (line ∷ lines) = elim (extract_container_id line) [
  | none ↦ lines_container_id lines
  | some short_container_id ↦ some short_container_id
]

unfoldable pub dir_container_id : Option (List ℕ) → Option (List ℕ)
dir_container_id none = none
dir_container_id (some cgroups) = lines_container_id (getlines cgroups)
