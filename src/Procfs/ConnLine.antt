-- ===== src/Procfs/ConnLine.antt =====
-- ConnLineData and ParseConnLine (collector/lib/ProcfsScraper.cpp): one line of a `net/tcp` file.
pub mod Laws
use collector.Prelude.{ℕ, ◌*◌, Bool, not, Option, none, some, List, ◌==◌, ◌&&◌, if◌then◌else◌, drop}
use collector.KeyMap.{and_then}
use collector.Net.Address.{Family}
use collector.Net.Endpoint.{Endpoint}
use collector.Procfs.Fields.{peek, isspace, strip_spaces, nextfield, rep_nextfield, strtoumax}
use collector.Procfs.Hex.{read_hex_bytes, parse_endpoint}

pub record ConnLineData : Type 0 where
  pub local : Endpoint
  pub remote : Endpoint
  pub state : ℕ
  pub inode : ℕ

-- From the inode on.
unfoldable pub parse_inode : Endpoint → Endpoint → ℕ → List ℕ → Option ConnLineData
parse_inode local remote state p =
    let (inode, parse_endp) = strtoumax p in
    if not (peek parse_endp == 0) && not (isspace (peek parse_endp))
    then none
    else some (record { local = local; remote = remote; state = state; inode = inode })

-- From the state on.
unfoldable pub parse_state : ℕ → Endpoint → Endpoint → List ℕ → Option ConnLineData
parse_state slack local remote p =
    let (nread, state) = read_hex_bytes slack p 1 1 Bool.false in
    if not (nread == 1)
    then none
    else and_then (rep_nextfield slack 6 (drop (nread * 2) p))
        (parse_inode local remote (peek state))

-- From the remote address on.
unfoldable pub parse_remote : ℕ → Bool → Family → Endpoint → List ℕ → Option ConnLineData
parse_remote slack little_endian family local p =
    and_then (parse_endpoint slack little_endian p family)
      (λ remote. and_then (nextfield slack remote.1) (parse_state slack local remote.0))

unfoldable pub parse_conn_line : ℕ → Bool → List ℕ → Family → Option ConnLineData
parse_conn_line slack little_endian p family = and_then (nextfield slack (strip_spaces p)) (λ field.
    and_then (parse_endpoint slack little_endian field family) (λ local.
      and_then (nextfield slack local.1) (parse_remote slack little_endian family local.0)))
