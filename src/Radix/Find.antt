-- ===== src/Radix/Find.antt =====
-- What Find returns (NRadixTree::Find in collector/lib/NRadix.cpp).
use collector.Prelude.{
  ℕ, zero, suc, ◌+◌, ◌≤◌, ◌≡◌, refl, ap, Bool, true, some, List, [], ◌∷◌, arith, if◌then◌else◌,
  length,
}
use collector.Net.Address.{Address, family_eq}
use collector.Net.IpNet.{IpNet, no_net, net_family, is_null_net}
use collector.Radix.Tree.{Node, at, longest}
use collector.Radix.{start, walk_fuel, find_net}
use collector.Radix.Walk.{find_from-longest}
use collector.Radix.Path.{address_bits, path-start}
use collector.Radix.Lookup.{is_prefix, IsLongest, missing, found, longest-IsLongest}
use collector.Radix.Keyed.{key, fits, IsTree}

-- The network is in the tree, and its bits are the first bits of the one that is looked up.
abbrev pub Covers : Node → IpNet → IpNet → Type 0
Covers t q m = (at (key m) t ≡ some m) × (is_prefix (key m) (key q) ≡ true)

find_net-longest :
    (q : IpNet) (t : Node)
    → fits q ≡ true
    → find_net q t ≡ (
        if family_eq (net_family q) (net_family (longest (key q) t no_net))
        then longest (key q) t no_net
        else no_net)
unfolding find_net is_null_net
find_net-longest q t h =
    ground (arith, path-start q, find_from-longest walk_fuel q.bits (start q) t no_net)

length-address_bits : (a : Address) (j count : ℕ) → length (address_bits a j count) ≡ count
unfolding address_bits
length-address_bits a j zero = refl
length-address_bits a j (suc count) = ap suc (length-address_bits a (j + 1) count)

-- `w` covers, and no network that covers is longer.
abbrev pub IsBest : Node → IpNet → IpNet → Type 0
IsBest t q w = Covers t q w × ((m : IpNet) → Covers t q m → m.bits ≤ w.bits)

longest-IsBest :
    (q m w : IpNet) (t : Node)
    → IsTree t
    → Covers t q m
    → IsLongest (key q) t no_net w
    → IsBest t q w
longest-IsBest q m w t tree c (missing nothing e) = absurd (cc (nothing (key m) c.1, c.0))
longest-IsBest q m w t tree c (found s k a most) =
    let at_s = (tree.keyed s w a).0 in
    (
      (rw at_s a, rw at_s k),
      λ n d. omega (
        arith,
        most (key n) n d.1 d.0,
        ap length at_s,
        length-address_bits w.address 0 w.bits,
        length-address_bits n.address 0 n.bits,
      ),
    )

prefix_unique :
    (a b p : List Bool) → is_prefix a p ≡ true → is_prefix b p ≡ true → length a ≡ length b → a ≡ b
prefix_unique [] [] p h k e = refl
prefix_unique [] (c ∷ b) p h k e = absurd (omega arith)
prefix_unique (c ∷ a) [] p h k e = absurd (omega arith)
prefix_unique (c ∷ a) (d ∷ b) [] h k e = cc
prefix_unique (c ∷ a) (d ∷ b) (x ∷ p) h k e = ground (arith, prefix_unique a b p)

module _ (q : IpNet) (t : Node) (tree : IsTree t) (query_fits : fits q ≡ true) where
  best_unique : (v w : IpNet) → IsBest t q v → IsBest t q w → v ≡ w
  best_unique v w bv bw =
      let same_key = prefix_unique (key v) (key w) (key q) bv.0.1 bw.0.1 (
        omega (
          arith,
          bv.1 w bw.0,
          bw.1 v bv.0,
          length-address_bits v.address 0 v.bits,
          length-address_bits w.address 0 w.bits,
        )) in
      cc (bv.0.0, bw.0.0, ap (λ k. at k t) same_key)

  -- In a tree that Insert made, looking up a network of 1 to 128 bits finds the longest network that
  -- covers it if the two are of one family, and the null network if they are not, even where a
  -- shorter network of the family covers it too.
  pub find_net-best :
      (w : IpNet)
      → IsBest t q w
      → find_net q t ≡ (if family_eq (net_family q) (net_family w) then w else no_net)
  find_net-best w best =
      let same =
        best_unique (longest (key q) t no_net) w
          (longest-IsBest q w _ t tree best.0 (longest-IsLongest (key q) t no_net)) best in
      ground (arith, find_net-longest q t query_fits, same)

  -- Where no network of such a tree covers the one that is looked up, the null network is found.
  find_net-none : ((m : IpNet) → ¬ Covers t q m) → find_net q t ≡ no_net
  find_net-none none_covers = go (longest-IsLongest (key q) t no_net)
    where
      go : IsLongest (key q) t no_net (longest (key q) t no_net) → find_net q t ≡ no_net
      go (missing nothing e) = ground (arith, find_net-longest q t query_fits, e)
      go (found s k a most) =
          let at_s = (tree.keyed s (longest (key q) t no_net) a).0 in
          absurd (none_covers (longest (key q) t no_net) (rw at_s a, rw at_s k))
