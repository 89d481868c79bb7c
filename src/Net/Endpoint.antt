-- ===== src/Net/Endpoint.antt =====
-- Endpoint, L4Proto, ContainerEndpoint, Connection and IsEphemeralPort
-- (collector/lib/NetworkConnection.h). A process is known by its identity, which stands for the
-- pointer to it, and by the attributes that are advertised.
pub mod Laws
use Prim.Native.String.{String}
use text.Mathlib.Text.{◌==◌ as str_eq}
use collector.Prelude.{
  ℕ, zero, suc, ◌+◌, ◌*◌, ◌/◌, ◌%◌, Bool, true, false, ◌&&◌, not, Option, none, some, leb, ◌==◌,
  if◌then◌else◌,
}
use collector.Net.Address.{Address, is_local}
use collector.Net.IpNet.{IpNet, ip_net_eq, no_net, address_net, is_null_net}

pub record Endpoint : Type 0 where
  pub network : IpNet
  pub port : ℕ

unfoldable pub no_endpoint : Endpoint
unfolding no_net
no_endpoint = record { network = no_net; port = 0 }

-- Endpoint(address, port)
unfoldable pub address_endpoint : Address → ℕ → Endpoint
unfolding address_net
address_endpoint address port = record { network = address_net address; port = port }

abbrev pub endpoint_address : Endpoint → Address
endpoint_address e = e.network.address

unfoldable pub endpoint_eq : Endpoint → Endpoint → Bool
unfolding ip_net_eq
endpoint_eq e other = e.port == other.port && ip_net_eq e.network other.network

unfoldable pub is_null_endpoint : Endpoint → Bool
unfolding is_null_net
is_null_endpoint e = e.port == 0 && is_null_net e.network

pub data L4Proto : Type 0 where
  unknown tcp udp icmp : L4Proto

abbrev pub l4proto_code : L4Proto → ℕ
l4proto_code L4Proto.unknown = 0
l4proto_code L4Proto.tcp = 1
l4proto_code L4Proto.udp = 2
l4proto_code L4Proto.icmp = 3

-- static_cast<L4Proto>, on the enumerators' values.
abbrev pub l4proto_of : ℕ → L4Proto
l4proto_of zero = L4Proto.unknown
l4proto_of (suc zero) = L4Proto.tcp
l4proto_of (suc (suc zero)) = L4Proto.udp
l4proto_of (suc (suc (suc n))) = L4Proto.icmp

abbrev pub l4proto_eq : L4Proto → L4Proto → Bool
l4proto_eq a b = l4proto_code a == l4proto_code b

pub record Process : Type 0 where
  pub identity : ℕ
  pub comm : String
  pub exe_path : String
  pub args : String

pub record ContainerEndpoint : Type 0 where
  pub container : String
  pub endpoint : Endpoint
  pub l4proto : L4Proto
  pub originator : Option Process

-- Pointers to processes are equal if both are null or they point to one process.
abbrev pub pointer_eq : Option Process → Option Process → Bool
pointer_eq none none = true
pointer_eq (some p) (some q) = p.identity == q.identity
pointer_eq _ _ = false

unfoldable pub container_endpoint_eq : ContainerEndpoint → ContainerEndpoint → Bool
unfolding endpoint_eq
container_endpoint_eq c other =
    str_eq c.container other.container
    && (endpoint_eq c.endpoint other.endpoint
        && (l4proto_eq c.l4proto other.l4proto && pointer_eq c.originator other.originator))

-- AdvertisedEndpointEquality (collector/lib/ConnTracker.cpp), on the originators.
abbrev pub advertised_originator_eq : Option Process → Option Process → Bool
advertised_originator_eq none none = true
advertised_originator_eq (some p) (some q) =
    if not (str_eq p.comm q.comm)
    then false
    else if not (str_eq p.exe_path q.exe_path)
    then false
    else if not (str_eq p.args q.args)
    then false
    else true
advertised_originator_eq _ _ = false

unfoldable pub advertised_endpoint_eq : ContainerEndpoint → ContainerEndpoint → Bool
unfolding endpoint_eq
advertised_endpoint_eq lhs rhs =
    if not (advertised_originator_eq lhs.originator rhs.originator)
    then false
    else str_eq lhs.container rhs.container
      && (endpoint_eq lhs.endpoint rhs.endpoint && l4proto_eq lhs.l4proto rhs.l4proto)

pub record Connection : Type 0 where
  pub container : String
  pub local : Endpoint
  pub remote : Endpoint
  pub flags : ℕ

-- Connection(container, local, remote, l4proto, is_server)
unfoldable pub connection : String → Endpoint → Endpoint → L4Proto → Bool → Connection
connection container local remote l4proto is_server = record {
  container = container;
  local = local;
  remote = remote;
  flags = l4proto_code l4proto * 2 + (if is_server then 1 else 0);
}

unfoldable pub is_server : Connection → Bool
is_server c = not (c.flags % 2 == 0)

unfoldable pub conn_l4proto : Connection → L4Proto
conn_l4proto c = l4proto_of (c.flags / 2)

unfoldable pub connection_eq : Connection → Connection → Bool
unfolding endpoint_eq
connection_eq c other =
    str_eq c.container other.container
    && (endpoint_eq c.local other.local
        && (endpoint_eq c.remote other.remote && c.flags == other.flags))

unfoldable pub is_relevant_connection : Connection → Bool
unfolding is_local
is_relevant_connection c = not (is_local (endpoint_address c.remote))

unfoldable pub is_relevant_endpoint : Endpoint → Bool
unfolding is_local
is_relevant_endpoint e = not (is_local (endpoint_address e))

-- The confidence that a port is ephemeral, from 0 to 4.
unfoldable pub is_ephemeral_port : ℕ → ℕ
is_ephemeral_port port =
    if leb 49152 port
    then 4
    else if leb 32768 port
    then 3
    else if leb 1025 port && leb port 5000
    then 2
    else if port == 1024
    then 1
    else 0
