-- ===== src/Radix/Keyed.antt =====
-- The invariant of the trees that Insert makes (collector/lib/NRadix.cpp), and Insert and the
-- constructor over such trees.
use collector.Prelude.{
  ◌≡◌, refl, Bool, true, false, ◌&&◌, Option, none, some, List, [], ◌∷◌, arith, leb, if◌then◌else◌,
  ◌↔◌,
}
use collector.Net.IpNet.{IpNet, is_null_net}
use collector.Radix.Tree.{Node, null, node, at, put}
use collector.Radix.{start, walk_fuel, insert, insert_all, radix_tree, new_node, is_null_node}
use collector.Radix.Walk.{insert_from-insert_at, at-null}
use collector.Radix.Path.{address_bits, path-start}
use collector.Radix.Lookup.{same_path, same_path-eq, at-put}

-- The path of a network.
abbrev pub key : IpNet → List Bool
key n = address_bits n.address 0 n.bits

-- The prefix lengths that a tree takes.
abbrev pub fits : IpNet → Bool
fits n = leb 1 n.bits && leb n.bits 128

abbrev pub insert_spec : IpNet → Node → Node × Bool
insert_spec n t =
    if fits n
    then elim (at (key n) t) [ none ↦ (put (key n) n t, true) | some _ ↦ (t, false) ]
    else (t, false)

-- On every branch: Insert refuses a network of no bits or of more than 128, or whose path has a
-- value already, and changes nothing then; otherwise it puts the network at its path.
insert-put :
    (n : IpNet) (v : Option IpNet) (l r : Node) → insert n (node v l r) ≡ insert_spec n (node v l r)
unfolding insert is_null_net
insert-put n v l r = ground (arith, path-start n, insert_from-insert_at walk_fuel n (start n) v l r)

pub record IsTree (t : Node) : Type 0 where
  pub rooted : is_null_node t ≡ false
  pub keyed : (q : List Bool) (n : IpNet) → at q t ≡ some n → (key n ≡ q) × (fits n ≡ true)

-- On every branch: Insert returns true exactly for a network of 1 to 128 bits whose path has no value
-- yet; the value of that path is then the network, and all other values stay. Otherwise it returns
-- false and all values stay.
pub at-insert :
    (n : IpNet) (t : Node) (q : List Bool)
    → is_null_node t ≡ false
    → (((insert n t).1 ≡ true) ↔ ((fits n ≡ true) × (at (key n) t ≡ none)))
      × (at q (insert n t).0 ≡ (if (insert n t).1 && same_path (key n) q then some n else at q t))
at-insert n null q h = cc
at-insert n (node v l r) q h =
    rw insert-put (let step = at-put (key n) q n (node v l r) in ground arith)

is_null_node-put :
    (p : List Bool) (n : IpNet) (v : Option IpNet) (l r : Node)
    → is_null_node (put p n (node v l r)) ≡ false
unfolding put
is_null_node-put [] n v l r = refl
is_null_node-put (true ∷ p) n v l r = refl
is_null_node-put (false ∷ p) n v l r = refl

pub is_null_node-insert :
    (n : IpNet) (t : Node) → is_null_node t ≡ false → is_null_node (insert n t).0 ≡ false
is_null_node-insert n null h = cc
is_null_node-insert n (node v l r) h =
    rw insert-put (ground (arith, is_null_node-put (key n) n v l r))

pub insert-IsTree : (n : IpNet) (t : Node) → IsTree t → IsTree (insert n t).0
insert-IsTree n t h = record {
  rooted = is_null_node-insert n t h.rooted;
  keyed = λ q m e.
      let step = at-insert n t q h.rooted in
      ground (arith, step, h.keyed q m, same_path-eq (key n) q);
}

at-new_node : (q : List Bool) → at q new_node ≡ none
unfolding at
at-new_node [] = refl
at-new_node (true ∷ q) = at-null q
at-new_node (false ∷ q) = at-null q

pub new_node-IsTree : IsTree new_node
new_node-IsTree = record { rooted = refl; keyed = λ q n e. ground (arith, at-new_node q) }

pub insert_all-IsTree : (ns : List IpNet) (t : Node) → IsTree t → IsTree (insert_all ns t)
unfolding insert_all
insert_all-IsTree [] t h = h
insert_all-IsTree (n ∷ ns) t h = insert_all-IsTree ns (insert n t).0 (insert-IsTree n t h)

-- The trees of the constructor hold each network at the path of its first bits, and only networks of
-- 1 to 128 bits.
pub radix_tree-IsTree : (ns : List IpNet) → IsTree (radix_tree ns)
unfolding radix_tree
radix_tree-IsTree ns = insert_all-IsTree ns new_node new_node-IsTree

-- The first network of a list with a path, of those that a tree takes.
abbrev pub first_at : List Bool → List IpNet → Option IpNet
first_at q [] = none
first_at q (n ∷ ns) = if fits n && same_path (key n) q then some n else first_at q ns

abbrev pub or_else : Option IpNet → Option IpNet → Option IpNet
or_else none b = b
or_else (some n) b = some n

at-insert_all :
    (ns : List IpNet) (t : Node) (q : List Bool)
    → is_null_node t ≡ false
    → at q (insert_all ns t) ≡ or_else (at q t) (first_at q ns)
unfolding insert_all
at-insert_all [] t q h = ground arith
at-insert_all (n ∷ ns) t q h =
    let step = at-insert n t q h in
    ground (
      arith,
      step,
      at-insert_all ns (insert n t).0 q (is_null_node-insert n t h),
      same_path-eq (key n) q,
    )

-- A tree made from a list holds at each path the first network of the list with that path, whatever
-- its family, among those of 1 to 128 bits.
pub at-radix_tree : (ns : List IpNet) (q : List Bool) → at q (radix_tree ns) ≡ first_at q ns
unfolding radix_tree
at-radix_tree ns q = rw at-insert_all (ground (arith, at-new_node q))
