-- ===== src/Net/Private/Ranges.antt =====
-- The private addresses, as ranges of their bytes.
use collector.Prelude.{ℕ, ◌/◌, ◌<◌, ◌≡◌, Bool, ◌&&◌, ◌||◌, not, arith, ◌==◌}
use collector.Net.Address.{ipv4_address, to_v6}
use collector.Net.IpNet.{ip_net, contains, same_prefix, copy_mask}
use collector.Net.Private.{
  is_public, outside_all, private_networks_of, private_ipv4_networks, private_ipv6_networks,
}

-- 10.0.0.0/8, 100.64.0.0/10, 169.254.0.0/16, 172.16.0.0/12 and 192.168.0.0/16.
abbrev pub in_private_range : ℕ → ℕ → Bool
in_private_range a b =
    a == 10
    || (a == 100 && b / 64 == 1)
    || (a == 169 && b == 254)
    || (a == 172 && b / 16 == 1)
    || (a == 192 && b == 168)

-- An IPv4 address is public unless its first two bytes are in the ranges of the private networks.
pub is_public-ipv4_address :
    (a b c d : ℕ)
    → a < 256
    → b < 256
    → c < 256
    → d < 256
    → is_public (ipv4_address a b c d) ≡ not (in_private_range a b)
unfolding is_public outside_all private_networks_of private_ipv4_networks contains same_prefix
    ip_net copy_mask
is_public-ipv4_address a b c d ha hb hc hd = ground arith

-- An IPv4 address and the IPv6 address that it is mapped to are both public or both private.
is_public-to_v6 :
    (a b c d : ℕ)
    → a < 256
    → b < 256
    → c < 256
    → d < 256
    → is_public (to_v6 (ipv4_address a b c d)) ≡ is_public (ipv4_address a b c d)
unfolding is_public outside_all private_networks_of private_ipv4_networks private_ipv6_networks
    contains same_prefix ip_net copy_mask to_v6
is_public-to_v6 a b c d ha hb hc hd = ground arith
