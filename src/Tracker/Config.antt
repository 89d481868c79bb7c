-- ===== src/Tracker/Config.antt =====
-- The operations that replace a part of a ConnectionTracker's configuration
-- (collector/lib/ConnTracker.cpp and ConnTracker.h).
use collector.Prelude.{ℕ, Bool, ◌||◌, List, [], ◌∷◌, none, some}
use collector.KeyMap.{UnorderedMap, UnorderedSet, find, insert, assign}
use collector.Net.Address.{Address, Family}
use collector.Net.IpNet.{IpNet}
use collector.Net.Private.{private_networks}
use collector.Net.Endpoint.{L4Proto}
use collector.Net.Keys.{family_keys}
use collector.Radix.Tree.{Node}
use collector.Radix.{new_node, insert_all, radix_tree}
use collector.Radix.Subset.{is_any_ip_net_subset}
use collector.ExternalIps.{ExternalIpsConfig}
use collector.Tracker.State.{Tracker}

unfoldable pub private_networks_tree : Node
private_networks_tree = radix_tree private_networks

unfoldable pub contains_private_network : Family → Node → Bool
contains_private_network family tree =
    is_any_ip_net_subset family tree private_networks_tree
    || is_any_ip_net_subset family private_networks_tree tree

unfoldable pub update_known_public_ips : UnorderedSet Address → Tracker → Tracker
update_known_public_ips known_public_ips t = record t { known_public_ips = known_public_ips }

-- The loop that inserts all networks of all families in one tree.
unfoldable pub insert_families : List (Family × List IpNet) → Node → Node
insert_families [] tree = tree
insert_families ((family, networks) ∷ rest) tree = insert_families rest (insert_all networks tree)

-- The loop that looks for private networks, family by family.
unfoldable pub find_private :
    Node → List (Family × List IpNet) → UnorderedMap Family Bool → UnorderedMap Family Bool
find_private tree [] exists = exists
find_private tree ((family, networks) ∷ rest) exists =
    let contains_private = contains_private_network family tree in
    find_private tree rest (elim (find family_keys family exists) [
      | none ↦ insert family_keys family contains_private exists
      | some _ ↦ assign family_keys family contains_private exists
    ])

unfoldable pub update_known_ip_networks : List (Family × List IpNet) → Tracker → Tracker
update_known_ip_networks known_ip_networks t =
    let tree = insert_families known_ip_networks new_node in
    record t {
      known_ip_networks = tree;
      known_private_networks_exists = find_private tree known_ip_networks [];
    }

unfoldable pub set_external_ips_config : ExternalIpsConfig → Tracker → Tracker
set_external_ips_config config t = record t { external_ips_config = config }

unfoldable pub update_ignored_l4proto_port_pairs : UnorderedSet (L4Proto × ℕ) → Tracker → Tracker
update_ignored_l4proto_port_pairs pairs t = record t { ignored_l4proto_port_pairs = pairs }

unfoldable pub update_ignored_networks : List IpNet → Tracker → Tracker
update_ignored_networks network_list t = record t { ignored_networks = radix_tree network_list }

unfoldable pub update_non_aggregated_networks : List IpNet → Tracker → Tracker
update_non_aggregated_networks network_list t = record t {
  non_aggregated_networks = radix_tree network_list;
}
