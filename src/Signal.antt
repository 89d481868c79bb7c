-- ===== src/Signal.antt =====
-- NetworkSignalHandler (collector/lib/NetworkSignalHandler.cpp): the events of the system inspector
-- that open and close connections. What the sinsp library gives of an event is a record; which
-- identifiers stand for an event's name (EventNames::GetEventIDs) and which of them are the cases of
-- the switch on sends and receives are parameters, as both are tables of that library.
pub mod Effect
pub mod Laws
mod Examples
use Prim.Native.String.{String}
use text.Mathlib.Text.{◌==◌ as str_eq}
use collector.Prelude.{
  ℕ, ◌*◌, ◌^◌, ◌/◌, Bool, true, false, ◌&&◌, ◌||◌, not, Option, none, some, List, [], ◌∷◌, ◌++◌,
  if◌then◌else◌,
}
use collector.Prelude.Int.{ℤ, pos, ltb_ℤ}
use collector.KeyMap.{member}
use collector.KeyMap.Keys.{nat_keys}
use collector.Net.Address.{Address, Family, ipv6_address}
use collector.Net.Endpoint.{
  Endpoint, address_endpoint, L4Proto, Connection, connection, is_relevant_connection,
}
use collector.Tracker.State.{Tracker}
use collector.Tracker.Update.{update_connection}

pub data Modifier : Type 0 where
  invalid add remove : Modifier

-- The initializer of `modifiers`.
unfoldable pub modifier_table : List (String × Modifier)
modifier_table =
    ("close<", Modifier.remove)
    ∷ ("shutdown<", Modifier.remove)
    ∷ ("connect<", Modifier.add)
    ∷ ("accept<", Modifier.add)
    ∷ ("accept4<", Modifier.add)
    ∷ ("getsockopt<", Modifier.add)
    ∷ ("sendto<", Modifier.add)
    ∷ ("sendto>", Modifier.add)
    ∷ ("sendmsg<", Modifier.add)
    ∷ ("sendmsg>", Modifier.add)
    ∷ ("sendmmsg<", Modifier.add)
    ∷ ("recvfrom<", Modifier.add)
    ∷ ("recvfrom>", Modifier.add)
    ∷ ("recvmsg<", Modifier.add)
    ∷ ("recvmsg>", Modifier.add)
    ∷ ("recvmmsg<", Modifier.add)
    ∷ ("recvmmsg>", Modifier.add)
    ∷ []

-- SCAP_L4_TCP, SCAP_L4_UDP and the others.
pub data ScapL4 : Type 0 where
  scap_tcp scap_udp scap_other : ScapL4

-- m_type and m_sockinfo, addresses and ports as numbers: source address and port, then the
-- destination's; an IPv6 address is two words.
pub data SockInfo : Type 0 where
  ipv4_sock : ℕ → ℕ → ℕ → ℕ → SockInfo
  ipv6_sock : ℕ × ℕ → ℕ → ℕ × ℕ → ℕ → SockInfo
  other_sock : SockInfo

pub record FdInfo : Type 0 where
  pub socket_failed : Bool
  pub socket_pending : Bool
  pub role_server : Bool
  pub role_client : Bool
  pub scap_l4 : ScapL4
  pub sockinfo : SockInfo

-- sinsp_evt: `container_id` is what GetContainerID finds in its thread's cgroups, "" if nothing.
pub record Event : Type 0 where
  pub event_type : ℕ
  pub fd_info : Option FdInfo
  pub rawres : Option ℤ
  pub container_id : String
  pub ts : ℕ

pub record Handler : Type 0 where
  pub collect_connection_status : Bool
  pub track_send_recv : Bool

-- SignalHandler::Result, of which these two are returned.
pub data Result : Type 0 where
  processed ignored : Result

abbrev pub succeeded : Option ℤ → Bool
succeeded none = false
succeeded (some res) = not (ltb_ℤ res (pos 0))

abbrev pub fd_l4proto : ScapL4 → Option L4Proto
fd_l4proto scap_tcp = some L4Proto.tcp
fd_l4proto scap_udp = some L4Proto.udp
fd_l4proto scap_other = none

-- Address(uint32_t)
abbrev pub ipv4_of : ℕ → Address
ipv4_of ip = record { family = Family.ipv4; hi = ip * 2 ^ 32; lo = 0 }

-- The client and the server.
unfoldable pub endpoints_of : SockInfo → Option (Endpoint × Endpoint)
unfolding address_endpoint
endpoints_of (ipv4_sock sip sport dip dport) =
    some (address_endpoint (ipv4_of sip) sport, address_endpoint (ipv4_of dip) dport)
endpoints_of (ipv6_sock sip sport dip dport) = some (
  address_endpoint (ipv6_address sip.0 sip.1) sport,
  address_endpoint (ipv6_address dip.0 dip.1) dport,
)
endpoints_of other_sock = none

module _ (event_ids : String → List ℕ) (send_recv_types : List ℕ) where
  -- EventMap::Set for each pair of the table, at one identifier.
  unfoldable pub set_all : List (String × Modifier) → ℕ → Modifier → Modifier
  set_all [] id value = value
  set_all ((name, modifier) ∷ rest) id value =
      set_all rest id (if member nat_keys id (event_ids name) then modifier else value)

  unfoldable pub modifier_of : ℕ → Modifier
  unfolding set_all modifier_table
  modifier_of id = set_all modifier_table id Modifier.invalid

  unfoldable pub get_connection : Handler → Event → Option Connection
  get_connection h evt = elim evt.fd_info [
    | none ↦ none
    | some fd ↦
        if h.collect_connection_status
          && (not (member nat_keys evt.event_type send_recv_types)
              && (fd.socket_failed || fd.socket_pending))
        then none
        else if not (succeeded evt.rawres)
        then none
        else if not fd.role_server && not fd.role_client
        then none
        else elim (fd_l4proto fd.scap_l4) [
          | none ↦ none
          | some l4proto ↦ elim (endpoints_of fd.sockinfo) [
            | none ↦ none
            | some (client, server) ↦
                let local = if fd.role_server then server else client in
                let remote = if fd.role_server then client else server in
                if str_eq evt.container_id ""
                then none
                else some (connection evt.container_id local remote l4proto fd.role_server)
          ]
        ]
  ]

  unfoldable pub handle_signal : Handler → Event → Tracker → Tracker × Result
  handle_signal h evt t =
      let connect : Bool → Tracker × Result = λ added. elim (get_connection h evt) [
        | none ↦ (t, Result.ignored)
        | some conn ↦
            if not (is_relevant_connection conn)
            then (t, Result.ignored)
            else (update_connection conn (pos (evt.ts / 1000)) added t, Result.processed)
      ] in
      elim (modifier_of evt.event_type) [
        | Modifier.invalid ↦ (t, Result.ignored)
        | Modifier.add ↦ connect true
        | Modifier.remove ↦ connect false
      ]

unfoldable pub relevant_events : Handler → List String
relevant_events h =
    "close<"
    ∷ "shutdown<"
    ∷ "connect<"
    ∷ "accept<"
    ∷ "accept4<"
    ∷ "getsockopt<"
    ∷ (if h.track_send_recv
        then "sendto<" ∷ "sendto>" ∷ "sendmsg<" ∷ "sendmsg>" ∷ "sendmmsg<" ∷ "recvfrom<"
          ∷ "recvfrom>" ∷ "recvmsg<" ∷ "recvmsg>" ∷ "recvmmsg<" ∷ "recvmmsg>" ∷ "recvmsg<"
          ∷ "recvmsg>" ∷ []
        else [])
