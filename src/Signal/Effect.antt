-- ===== src/Signal/Effect.antt =====
-- What an event of NetworkSignalHandler (collector/lib/NetworkSignalHandler.cpp) stands for, by the name of
-- its call and the file descriptor that it is about.
use Prim.Native.String.{String}
use text.Mathlib.Text.{◌==◌ as str_eq}
use collector.Prelude.{
  ℕ, Bool, true, false, ◌&&◌, ◌||◌, not, Option, none, some, List, [], ◌∷◌, if◌then◌else◌,
}
use collector.KeyMap.{member}
use collector.KeyMap.Keys.{nat_keys}
use collector.Net.Address.{ipv6_address}
use collector.Net.Endpoint.{
  Endpoint, address_endpoint, no_endpoint, L4Proto, Connection, connection, is_relevant_connection,
}
use collector.Signal.{
  Handler, Event, FdInfo, ScapL4, scap_tcp, scap_udp, scap_other, SockInfo, ipv4_sock, ipv6_sock,
  other_sock, ipv4_of, succeeded,
}

-- The names of the events that open and that close connections.
abbrev pub closing_names : List String
closing_names = "close<" ∷ "shutdown<" ∷ []

abbrev pub opening_names : List String
opening_names =
    "connect<" ∷ "accept<" ∷ "accept4<" ∷ "getsockopt<" ∷ "sendto<" ∷ "sendto>" ∷ "sendmsg<"
    ∷ "sendmsg>" ∷ "sendmmsg<" ∷ "recvfrom<" ∷ "recvfrom>" ∷ "recvmsg<" ∷ "recvmsg>" ∷ "recvmmsg<"
    ∷ "recvmmsg>" ∷ []

-- An identifier is one of the events of these names.
abbrev pub is_named : (String → List ℕ) → List String → ℕ → Bool
is_named event_ids [] id = false
is_named event_ids (name ∷ names) id =
    member nat_keys id (event_ids name) || is_named event_ids names id

-- The file descriptor is a socket with a role, of TCP or UDP and of an IP family, and
-- the event has succeeded in a container. An event of another kind than sends and receives is of no use
-- where the status of connections is collected and the connecting has failed or is pending.
abbrev pub is_tcp_or_udp : ScapL4 → Bool
is_tcp_or_udp scap_tcp = true
is_tcp_or_udp scap_udp = true
is_tcp_or_udp scap_other = false

abbrev pub is_ip : SockInfo → Bool
is_ip other_sock = false
is_ip _ = true

abbrev pub is_of_use : List ℕ → Handler → Event → FdInfo → Bool
is_of_use send_recv_types h evt fd =
    (not h.collect_connection_status
      || (member nat_keys evt.event_type send_recv_types
          || (not fd.socket_failed && not fd.socket_pending)))
    && (succeeded evt.rawres
        && ((fd.role_server || fd.role_client)
            && (is_tcp_or_udp fd.scap_l4
                && (is_ip fd.sockinfo && not (str_eq evt.container_id "")))))

-- The two ends, where there are any.
abbrev pub source_of : SockInfo → Endpoint
source_of (ipv4_sock sip sport dip dport) = address_endpoint (ipv4_of sip) sport
source_of (ipv6_sock sip sport dip dport) = address_endpoint (ipv6_address sip.0 sip.1) sport
source_of other_sock = no_endpoint

abbrev pub destination_of : SockInfo → Endpoint
destination_of (ipv4_sock sip sport dip dport) = address_endpoint (ipv4_of dip) dport
destination_of (ipv6_sock sip sport dip dport) = address_endpoint (ipv6_address dip.0 dip.1) dport
destination_of other_sock = no_endpoint

abbrev pub transport_of : ScapL4 → L4Proto
transport_of scap_tcp = L4Proto.tcp
transport_of scap_udp = L4Proto.udp
transport_of scap_other = L4Proto.unknown

-- The connection as this end sees it: a server is the destination.
abbrev pub as_seen : Event → FdInfo → Connection
as_seen evt fd =
    if fd.role_server
    then connection evt.container_id (destination_of fd.sockinfo) (source_of fd.sockinfo)
        (transport_of fd.scap_l4) true
    else connection evt.container_id (source_of fd.sockinfo) (destination_of fd.sockinfo)
        (transport_of fd.scap_l4) false

-- The connection of an event, if it has one to an address that is not local.
abbrev pub seen_connection : List ℕ → Handler → Event → Option FdInfo → Option Connection
seen_connection send_recv_types h evt none = none
seen_connection send_recv_types h evt (some fd) =
    if is_of_use send_recv_types h evt fd && is_relevant_connection (as_seen evt fd)
    then some (as_seen evt fd)
    else none

-- The connection that an event of an identifier opens or closes, with whether it opens it.
abbrev pub opened_or_closed : (String → List ℕ) → ℕ → Option Connection → Option (Connection × Bool)
opened_or_closed event_ids id none = none
opened_or_closed event_ids id (some c) =
    if is_named event_ids opening_names id
    then some (c, true)
    else if is_named event_ids closing_names id
    then some (c, false)
    else none
