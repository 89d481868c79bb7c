-- ===== src/Radix/Examples.antt =====
-- The laws of the radix tree at two nested networks.
use mathlib.Core.List.{Memᴰ}
use collector.Radix.All.{get_all-IsTree}
use collector.Prelude.{
  ◌≡◌, ◌↔◌, ◌⊎◌, refl, true, false, none, some, [], ◌∷◌, arith, ◌&&◌, if◌then◌else◌, ◌∙◌, sym,
}
use collector.Net.Address.{ipv4_address}
use collector.Net.IpNet.{IpNet, ip_net}
use collector.Radix.{radix_tree, get_all, insert, new_node, find_net, walk_fuel, start}
use collector.Radix.Tree.{Node, at}
use collector.Radix.Walk.{path, ends}
use collector.Radix.Lookup.{same_path}
use collector.Radix.Path.{address_bits, address_bit, path-start}
use collector.Radix.Keyed.{IsTree, key, fits, first_at, at-insert, radix_tree-IsTree, at-radix_tree}
use collector.Radix.Find.{IsBest, find_net-best}

abbrev net_8 : IpNet
unfolding ip_net
net_8 = ip_net (ipv4_address 10 0 0 0) 8 false

abbrev net_3 : IpNet
unfolding ip_net
net_3 = ip_net (ipv4_address 0 0 0 0) 3 false

abbrev nested : Node
nested = radix_tree (net_3 ∷ net_8 ∷ [])

-- 10.1.0.0/16
abbrev query : IpNet
unfolding ip_net
query = ip_net (ipv4_address 10 1 0 0) 16 false

-- 192.168.0.0/16
abbrev stranger : IpNet
unfolding ip_net
stranger = ip_net (ipv4_address 192 168 0 0) 16 false

at_key : (n m : IpNet) → first_at (key n) (net_3 ∷ net_8 ∷ []) ≡ some m → (m ≡ net_3) ⊎ (m ≡ net_8)
at_key n m h = ground arith

net_8-IsBest : IsBest nested query net_8
unfolding address_bits address_bit net_3 net_8 query stranger
net_8-IsBest = (
  (at-radix_tree (net_3 ∷ net_8 ∷ []) (key net_8), refl),
  λ m c.
      let known = at_key m m (sym (at-radix_tree (net_3 ∷ net_8 ∷ []) (key m)) ∙ c.0) in
      ground (arith, known),
)

find_net-best_example : find_net query nested ≡ net_8
unfolding query net_8
find_net-best_example =
    find_net-best query nested (radix_tree-IsTree (net_3 ∷ net_8 ∷ [])) refl net_8 net_8-IsBest

radix_tree-IsTree_example : IsTree nested
radix_tree-IsTree_example = radix_tree-IsTree (net_3 ∷ net_8 ∷ [])

at-insert_example :
    (((insert net_8 new_node).1 ≡ true) ↔ ((fits net_8 ≡ true) × (at (key net_8) new_node ≡ none)))
    × (at (key net_8) (insert net_8 new_node).0 ≡ (
        if (insert net_8 new_node).1 && same_path (key net_8) (key net_8)
        then some net_8
        else at (key net_8) new_node))
at-insert_example = at-insert net_8 new_node (key net_8) refl

path-start_example :
    (path walk_fuel 8 (start net_8)
      ≡ false ∷ false ∷ false ∷ false ∷ true ∷ false ∷ true ∷ false ∷ [])
    × (ends walk_fuel 8 (start net_8) ≡ true)
unfolding address_bits address_bit net_3 net_8 query stranger
path-start_example = path-start net_8 (omega arith)

get_all-IsTree_example : Memᴰ net_8 (get_all nested) ↔ (at (key net_8) nested ≡ some net_8)
get_all-IsTree_example = get_all-IsTree nested (radix_tree-IsTree (net_3 ∷ net_8 ∷ [])) net_8
