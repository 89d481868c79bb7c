-- ===== src/Radix/Tree.antt =====
-- nRadixNode (collector/lib/NRadix.h), and insertion and lookup along a given path of bits.
use collector.Prelude.{Bool, true, false, Option, none, some, List, [], ◌∷◌}
use collector.Net.IpNet.{IpNet}

-- A pointer to a node: its value, and its left and right child.
pub data Node : Type 0 where
  null : Node
  node : Option IpNet → Node → Node → Node

abbrev pub child : Bool → Node → Node
child right null = null
child true (node value l r) = r
child false (node value l r) = l

abbrev pub set_child : Bool → Node → Node → Node
set_child right next null = null
set_child true next (node value l r) = node value l next
set_child false next (node value l r) = node value next r

-- if (node->value_) ret = *node->value_
abbrev pub value_or : Option IpNet → IpNet → IpNet
value_or none ret = ret
value_or (some n) ret = n

-- The value at the end of a path.
unfoldable pub at : List Bool → Node → Option IpNet
at p null = none
at [] (node value l r) = value
at (true ∷ p) (node value l r) = at p r
at (false ∷ p) (node value l r) = at p l

-- The tree with a value put at the end of a path.
unfoldable pub put : List Bool → IpNet → Node → Node
put [] n null = node (some n) null null
put [] n (node value l r) = node (some n) l r
put (true ∷ p) n null = node none null (put p n null)
put (false ∷ p) n null = node none (put p n null) null
put (true ∷ p) n (node value l r) = node value l (put p n r)
put (false ∷ p) n (node value l r) = node value (put p n l) r

-- The last value on the way along a path.
unfoldable pub longest : List Bool → Node → IpNet → IpNet
longest p null ret = ret
longest [] (node value l r) ret = value_or value ret
longest (true ∷ p) (node value l r) ret = longest p r (value_or value ret)
longest (false ∷ p) (node value l r) ret = longest p l (value_or value ret)
