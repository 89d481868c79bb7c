-- ===== src/Radix.antt =====
-- NRadixTree (collector/lib/NRadix.h and NRadix.cpp): a binary tree of networks, walked by the bits
-- of an address from the most significant one. A null pointer is `null`; the root is never null.
pub mod Tree
pub mod Walk
pub mod Path
pub mod Lookup
pub mod Keyed
pub mod Find
pub mod Subset
pub mod All
mod Examples
use collector.Prelude.{
  ℕ, zero, suc, ◌+◌, ◌-◌, ◌*◌, ◌/◌, ◌%◌, ◌^◌, Bool, true, false, ◌&&◌, ◌||◌, not, Option, none,
  some, List, [], ◌∷◌, ◌++◌, ltb, leb, ◌==◌, if◌then◌else◌,
}
use collector.Net.Address.{Address, Family, family_eq, words}
use collector.Net.IpNet.{IpNet, net_mask_array, no_net, address_net, is_null_net, net_family}
use Tree.{Node, null, node, child, set_child, value_or}

abbrev pub top_bit : ℕ
top_bit = 2 ^ 63

-- The variables of the two walks: the words from addr_p and from net_mask_p on, the single bit `bit`,
-- and `i`.
pub record Cursor : Type 0 where
  pub addr : List ℕ
  pub net_mask : List ℕ
  pub bit : ℕ
  pub i : ℕ

unfoldable pub start : IpNet → Cursor
unfolding net_mask_array
start network = record {
  addr = words network.address;
  net_mask = net_mask_array network;
  bit = top_bit;
  i = 0;
}

abbrev head_word : List ℕ → ℕ
head_word [] = 0
head_word (word ∷ rest) = word

abbrev tail_words : List ℕ → List ℕ
tail_words [] = []
tail_words (word ∷ rest) = rest

-- word & bit, for a `bit` that is a power of two.
unfoldable pub test_bit : ℕ → ℕ → Bool
test_bit word bit = word / bit % 2 == 1

-- ntohll(*addr_p) & bit
unfoldable pub goes_right : Cursor → Bool
unfolding test_bit
goes_right c = test_bit (head_word c.addr) c.bit

-- bit & *net_mask_p
unfoldable pub in_mask : Cursor → Bool
unfolding test_bit
in_mask c = test_bit (head_word c.net_mask) c.bit

-- bit >>= 1 and what follows it; `none` is the break after 128 bits.
unfoldable pub advance : ℕ → Cursor → Option Cursor
advance network_bits c =
    if c.bit / 2 == 0
    then (if leb 2 (c.i + 1)
        then none
        else if leb 64 network_bits
        then some (record {
          addr = tail_words c.addr;
          net_mask = tail_words c.net_mask;
          bit = top_bit;
          i = c.i + 1;
        })
        else some (record c { bit = top_bit; i = c.i + 1 }))
    else some (record c { bit = c.bit / 2 })

-- The end of a walk that found its node: `none` is `return false`.
unfoldable pub fill : IpNet → Node → Option Node
fill network null = none
fill network (node (some value) left right) = none
fill network (node none left right) = some (node (some network) left right)

abbrev set_value : IpNet → Node → Node
set_value network null = null
set_value network (node value left right) = node (some network) left right

abbrev pub new_node : Node
new_node = node none null null

-- The second loop of Insert, from a node without the child that comes next.
unfoldable pub grow : ℕ → IpNet → Cursor → Node → Node
unfolding in_mask goes_right advance
grow zero network c n = n
grow (suc fuel) network c n = elim (in_mask c) [
  | false ↦ set_value network n
  | true ↦
      set_child (goes_right c)
        (elim (advance network.bits c) [
          | none ↦ set_value network new_node
          | some d ↦ grow fuel network d new_node
        ])
        n
]

abbrev attach : Bool → Node → Option Node → Option Node
attach right n none = none
attach right n (some next) = some (set_child right next n)

abbrev is_null_node : Node → Bool
is_null_node null = true
is_null_node (node value left right) = false

-- The first loop of Insert, and the rest of it where the loop ends.
unfoldable pub insert_from : ℕ → IpNet → Cursor → Node → Option Node
unfolding fill grow in_mask goes_right advance
insert_from zero network c n = none
insert_from (suc fuel) network c n = elim (in_mask c) [
  | false ↦ fill network n
  | true ↦ elim (is_null_node (child (goes_right c) n)) [
    | true ↦ some (grow (suc fuel) network c n)
    | false ↦ attach (goes_right c) n (elim (advance network.bits c) [
      | none ↦ fill network (child (goes_right c) n)
      | some d ↦ insert_from fuel network d (child (goes_right c) n)
    ])
  ]
]

-- More rounds than a walk of 128 bits makes.
abbrev pub walk_fuel : ℕ
walk_fuel = 130

-- Insert: the tree after it, and what it returns.
unfoldable pub insert : IpNet → Node → Node × Bool
insert network root =
    if is_null_net network
    then (root, false)
    else if ltb network.bits 1 || ltb 128 network.bits
    then (root, false)
    else elim (insert_from walk_fuel network (start network) root) [
      | none ↦ (root, false)
      | some tree ↦ (tree, true)
    ]

-- NRadixTree(networks)
unfoldable pub insert_all : List IpNet → Node → Node
insert_all [] root = root
insert_all (network ∷ rest) root = insert_all rest (insert network root).0

unfoldable pub radix_tree : List IpNet → Node
unfolding insert_all
radix_tree networks = insert_all networks new_node

-- The loop of Find.
unfoldable pub find_from : ℕ → ℕ → Cursor → Node → IpNet → IpNet
unfolding in_mask goes_right advance
find_from zero bits c n ret = ret
find_from (suc fuel) bits c null ret = ret
find_from (suc fuel) bits c (node value left right) ret =
    let best = value_or value ret in
    let next = if goes_right c then right else left in
    elim (in_mask c) [
      | false ↦ best
      | true ↦ elim (advance bits c) [
        | none ↦ elim next [ null ↦ best | node v l r ↦ value_or v best ]
        | some d ↦ find_from fuel bits d next best
      ]
    ]

unfoldable pub find_net : IpNet → Node → IpNet
find_net network root =
    if is_null_net network
    then no_net
    else if network.bits == 0
    then no_net
    else let ret = find_from walk_fuel network.bits (start network) root no_net in
      if family_eq (net_family network) (net_family ret) then ret else no_net

-- Find(addr)
unfoldable pub find_address : Address → Node → IpNet
unfolding address_net
find_address addr root = find_net (address_net addr) root

unfoldable pub get_all : Node → List IpNet
get_all null = []
get_all (node none left right) = get_all left ++ get_all right
get_all (node (some value) left right) = value ∷ (get_all left ++ get_all right)

unfoldable pub is_empty : Node → Bool
is_empty (node none null null) = true
is_empty _ = false
