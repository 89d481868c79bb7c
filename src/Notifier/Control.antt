-- ===== src/Notifier/Control.antt =====
-- OnRecvControlMessage, ReceivePublicIPs, ReceiveIPNetworks and readNetworks
-- (collector/lib/NetworkStatusNotifier.cpp): what Sensor sends.
pub mod Laws
pub mod Roundtrip
use collector.Prelude.{
  ℕ, zero, suc, ◌+◌, ◌-◌, ◌*◌, ◌/◌, ◌%◌, ◌^◌, false, not, Option, none, some, List, [], ◌∷◌, ◌++◌,
  leb, ◌==◌, if◌then◌else◌, length, take, drop,
}
use collector.KeyMap.{UnorderedSet, member}
use collector.Net.Address.{Address, Family, family_length, to_v6, ipv6_address}
use collector.Net.Bytes.{address_of}
use collector.Net.IpNet.{IpNet, ip_net}
use collector.Net.Keys.{address_keys}
use collector.Tracker.State.{Tracker}
use collector.Tracker.Config.{update_known_public_ips, update_known_ip_networks}

-- known_public_ips.insert(address)
unfoldable pub set_insert : Address → UnorderedSet Address → UnorderedSet Address
set_insert a s = if member address_keys a s then s else a ∷ s

-- static_cast<int> of a signed char, as a size_t.
abbrev pub char_to_size : ℕ → ℕ
char_to_size c = if leb 128 c then 2 ^ 64 - (256 - c) else c

abbrev byte_at : List ℕ → ℕ
byte_at [] = 0
byte_at (b ∷ rest) = b

-- The loop of readNetworks, on the bytes from the next network on.
unfoldable pub read_from : ℕ → List ℕ → Family → List IpNet
unfolding address_of
read_from zero networks family = []
read_from (suc num_nets) networks family =
    ip_net (address_of family networks)
      (char_to_size (byte_at (drop (family_length family) networks))) false
    ∷ read_from num_nets (drop (family_length family + 1) networks) family

unfoldable pub read_networks : List ℕ → Family → List IpNet
unfolding read_from
read_networks networks family =
    read_from (length networks / (family_length family + 1)) networks family

-- IPAddressList and IPNetworkList of the message.
pub record IpAddressList : Type 0 where
  pub ipv4_addresses : List ℕ
  pub ipv6_addresses : List ℕ

pub record IpNetworkList : Type 0 where
  pub ipv4_networks : List ℕ
  pub ipv6_networks : List ℕ

-- NetworkFlowsControlMessage. A message field that is not set reads as an empty one.
pub record ControlMessage : Type 0 where
  pub public_ip_addresses : Option IpAddressList
  pub ip_networks : Option IpNetworkList

unfoldable pub add_ipv4_ips : List ℕ → UnorderedSet Address → UnorderedSet Address
unfolding set_insert
add_ipv4_ips [] known = known
add_ipv4_ips (public_ip ∷ rest) known =
    let addr : Address = record { family = Family.ipv4; hi = public_ip * 2 ^ 32; lo = 0 } in
    add_ipv4_ips rest (set_insert (to_v6 addr) (set_insert addr known))

unfoldable pub add_ipv6_ips : List ℕ → UnorderedSet Address → UnorderedSet Address
unfolding set_insert
add_ipv6_ips (high ∷ low ∷ rest) known =
    add_ipv6_ips rest (set_insert (ipv6_address high low) known)
add_ipv6_ips _ known = known

unfoldable pub receive_public_ips : IpAddressList → Tracker → Tracker
unfolding add_ipv4_ips add_ipv6_ips
receive_public_ips public_ips t =
    let known = add_ipv4_ips public_ips.ipv4_addresses [] in
    update_known_public_ips
      (if not (length public_ips.ipv6_addresses % 2 == 0)
        then known
        else add_ipv6_ips public_ips.ipv6_addresses known)
      t

-- The networks of one family, or nothing where the length is wrong.
unfoldable pub family_networks : List ℕ → Family → List (Family × List IpNet)
unfolding read_networks
family_networks networks family =
    if not (length networks % (family_length family + 1) == 0)
    then []
    else (family, read_networks networks family) ∷ []

unfoldable pub receive_ip_networks : IpNetworkList → Tracker → Tracker
unfolding family_networks
receive_ip_networks networks t =
    update_known_ip_networks
      (family_networks networks.ipv4_networks Family.ipv4
        ++ family_networks networks.ipv6_networks Family.ipv6)
      t

abbrev pub address_list : Option IpAddressList → IpAddressList
address_list none = record { ipv4_addresses = []; ipv6_addresses = [] }
address_list (some l) = l

-- `none` is the null pointer.
unfoldable pub on_recv_control_message : Option ControlMessage → Tracker → Tracker
on_recv_control_message none t = t
on_recv_control_message (some msg) t = elim msg.ip_networks [
  | none ↦ t
  | some networks ↦
      receive_ip_networks networks (receive_public_ips (address_list msg.public_ip_addresses) t)
]
