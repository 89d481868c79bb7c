-- ===== src/Net/Private.antt =====
-- PrivateNetworks and Address::IsPublic (collector/lib/NetworkConnection.h, NetworkConnection.cpp).
pub mod Ranges
use collector.Prelude.{◌+◌, Bool, true, false, List, [], ◌∷◌, ◌++◌, map, if◌then◌else◌}
use collector.Net.Address.{Address, Family, ipv4_address, ipv6_address, to_v6}
use collector.Net.IpNet.{IpNet, ip_net, contains}

unfoldable pub private_ipv4_networks : List IpNet
unfolding ip_net
private_ipv4_networks =
    ip_net (ipv4_address 10 0 0 0) 8 false
    ∷ ip_net (ipv4_address 100 64 0 0) 10 false
    ∷ ip_net (ipv4_address 169 254 0 0) 16 false
    ∷ ip_net (ipv4_address 172 16 0 0) 12 false
    ∷ ip_net (ipv4_address 192 168 0 0) 16 false
    ∷ []

unfoldable pub private_ipv6_networks : List IpNet
unfolding private_ipv4_networks ip_net to_v6
private_ipv6_networks =
    ip_net (ipv6_address 0xfd00000000000000 0) 8 false
    ∷ map (λ n. ip_net (to_v6 n.address) (n.bits + 96) false) private_ipv4_networks

unfoldable pub private_networks_of : Family → List IpNet
unfolding private_ipv4_networks private_ipv6_networks
private_networks_of Family.ipv4 = private_ipv4_networks
private_networks_of Family.ipv6 = private_ipv6_networks
private_networks_of Family.unknown = []

unfoldable pub private_networks : List IpNet
unfolding private_ipv4_networks private_ipv6_networks
private_networks = private_ipv4_networks ++ private_ipv6_networks

-- The loop of IsPublic.
unfoldable pub outside_all : List IpNet → Address → Bool
unfolding contains
outside_all [] address = true
outside_all (n ∷ rest) address = if contains n address then false else outside_all rest address

unfoldable pub is_public : Address → Bool
unfolding outside_all private_networks_of
is_public address = outside_all (private_networks_of address.family) address
