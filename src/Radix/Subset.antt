-- ===== src/Radix/Subset.antt =====
-- IsAnyIPNetSubset (collector/lib/NRadix.cpp): whether a network of one tree lies in one of another.
use collector.Prelude.{Bool, true, false, ◌&&◌, ◌||◌, Option, none, some, if◌then◌else◌}
use collector.Net.Address.{Family, family_eq}
use collector.Net.IpNet.{IpNet, net_family}
use collector.Radix.Tree.{Node, null, node, child}

-- The first test of isAnyIPNetSubsetUtil, on the networks last seen on the way.
pub families_match : Family → Option IpNet → Option IpNet → Bool
families_match Family.unknown (some a) (some b) = family_eq (net_family a) (net_family b)
families_match family (some a) (some b) =
    family_eq (net_family a) family && family_eq (net_family b) family
families_match family _ _ = false

abbrev pub latest : Option IpNet → Option IpNet → Option IpNet
latest none before = before
latest (some n) before = some n

abbrev pub node_value : Node → Option IpNet
node_value null = none
node_value (node value l r) = value

-- Recursion is on the second tree; the children of a null pointer of the first are null.
pub is_any_subset : Family → Node → Node → Option IpNet → Option IpNet → Bool
unfolding families_match
is_any_subset family n1 null containing contained = families_match family containing contained
is_any_subset family n1 (node value l r) containing contained =
    let containing' = latest (node_value n1) containing in
    let contained' = latest value contained in
    if families_match family containing contained
    then true
    else is_any_subset family (child false n1) l containing' contained'
      || is_any_subset family (child true n1) r containing' contained'

-- tree.IsAnyIPNetSubset(family, other)
unfoldable pub is_any_ip_net_subset : Family → Node → Node → Bool
unfolding is_any_subset
is_any_ip_net_subset family root other_root = is_any_subset family root other_root none none
