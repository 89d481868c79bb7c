-- ===== src/Notifier/Proto.antt =====
-- ConnToProto, ContainerEndpointToProto, EndpointToProto and ProcessToProto
-- (collector/lib/NetworkStatusNotifier.cpp): what a message says of a connection or an endpoint. The
-- messages are generated code; a field that may be unset is an Option.
use Prim.Native.String.{String}
use collector.Prelude.{
  ℕ, ◌/◌, ◌%◌, ◌^◌, Option, none, some, List, [], ◌∷◌, ◌++◌, ltb, if◌then◌else◌, take,
}
use collector.Net.Address.{Address, Family, family_length}
use collector.Net.Endpoint.{
  Endpoint, endpoint_address, is_null_endpoint, Connection, ContainerEndpoint, Process, L4Proto,
  is_server, conn_l4proto,
}

pub data L4Protocol : Type 0 where
  l4_protocol_unknown l4_protocol_tcp l4_protocol_udp l4_protocol_icmp : L4Protocol

pub data SocketFamily : Type 0 where
  socket_family_unknown socket_family_ipv4 socket_family_ipv6 : SocketFamily

pub data Role : Type 0 where
  role_client role_server : Role

unfoldable pub translate_l4_protocol : L4Proto → L4Protocol
translate_l4_protocol L4Proto.tcp = l4_protocol_tcp
translate_l4_protocol L4Proto.udp = l4_protocol_udp
translate_l4_protocol L4Proto.icmp = l4_protocol_icmp
translate_l4_protocol L4Proto.unknown = l4_protocol_unknown

unfoldable pub translate_address_family : Family → SocketFamily
translate_address_family Family.ipv4 = socket_family_ipv4
translate_address_family Family.ipv6 = socket_family_ipv6
translate_address_family Family.unknown = socket_family_unknown

-- The bytes of a word, the most significant first.
abbrev pub word_bytes : ℕ → List ℕ
word_bytes w =
    w / 2 ^ 56 % 256
    ∷ w / 2 ^ 48 % 256
    ∷ w / 2 ^ 40 % 256
    ∷ w / 2 ^ 32 % 256
    ∷ w / 2 ^ 24 % 256
    ∷ w / 2 ^ 16 % 256
    ∷ w / 2 ^ 8 % 256
    ∷ w % 256
    ∷ []

-- The first length() bytes of data().
unfoldable pub address_bytes : Address → List ℕ
address_bytes a = take (family_length a.family) (word_bytes a.hi ++ word_bytes a.lo)

pub record NetworkAddress : Type 0 where
  pub address_data : Option (List ℕ)
  pub ip_network : Option (List ℕ)
  pub port : ℕ

unfoldable pub endpoint_to_proto : Endpoint → Option NetworkAddress
unfolding address_bytes
endpoint_to_proto e =
    if is_null_endpoint e
    then none
    else some (record {
      address_data = if e.network.is_addr then some (address_bytes (endpoint_address e)) else none;
      ip_network =
          if ltb 0 e.network.bits
          then some (address_bytes (endpoint_address e) ++ (e.network.bits % 256) ∷ [])
          else none;
      port = e.port;
    })

pub record ProcessKey : Type 0 where
  pub process_name : String
  pub process_exec_file_path : String
  pub process_args : String

unfoldable pub process_to_proto : Process → ProcessKey
process_to_proto p = record {
  process_name = p.comm;
  process_exec_file_path = p.exe_path;
  process_args = p.args;
}

pub record NetworkConnection : Type 0 where
  pub container_id : String
  pub role : Role
  pub protocol : L4Protocol
  pub socket_family : SocketFamily
  pub local_address : Option NetworkAddress
  pub remote_address : Option NetworkAddress
  pub close_timestamp : Option ℕ

unfoldable pub conn_to_proto : Connection → NetworkConnection
unfolding translate_l4_protocol translate_address_family endpoint_to_proto
conn_to_proto conn = record {
  container_id = conn.container;
  role = if is_server conn then role_server else role_client;
  protocol = translate_l4_protocol (conn_l4proto conn);
  socket_family = translate_address_family (endpoint_address conn.local).family;
  local_address = endpoint_to_proto conn.local;
  remote_address = endpoint_to_proto conn.remote;
  close_timestamp = none;
}

pub record NetworkEndpoint : Type 0 where
  pub container_id : String
  pub protocol : L4Protocol
  pub socket_family : SocketFamily
  pub listen_address : Option NetworkAddress
  pub originator : Option ProcessKey
  pub close_timestamp : Option ℕ

abbrev originator_to_proto : Option Process → Option ProcessKey
originator_to_proto none = none
originator_to_proto (some p) = some (process_to_proto p)

unfoldable pub container_endpoint_to_proto : ContainerEndpoint → NetworkEndpoint
unfolding translate_l4_protocol translate_address_family endpoint_to_proto process_to_proto
container_endpoint_to_proto cep = record {
  container_id = cep.container;
  protocol = translate_l4_protocol cep.l4proto;
  socket_family = translate_address_family (endpoint_address cep.endpoint).family;
  listen_address = endpoint_to_proto cep.endpoint;
  originator = originator_to_proto cep.originator;
  close_timestamp = none;
}
