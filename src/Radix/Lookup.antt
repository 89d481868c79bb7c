-- ===== src/Radix/Lookup.antt =====
-- Laws of insertion and lookup along paths of bits.
use collector.Prelude.{
  ◌≤◌, ◌≡◌, refl, Bool, true, false, ◌&&◌, Option, none, some, List, [], ◌∷◌, arith, if◌then◌else◌,
  length, not, xor,
}
use collector.Net.IpNet.{IpNet}
use collector.Radix.Tree.{Node, null, node, child, value_or, at, put, longest}
use collector.Radix.Walk.{at-null}

abbrev pub is_prefix : List Bool → List Bool → Bool
is_prefix [] p = true
is_prefix (b ∷ q) [] = false
is_prefix (b ∷ q) (c ∷ p) = not (xor b c) && is_prefix q p

abbrev pub same_path : List Bool → List Bool → Bool
same_path [] [] = true
same_path (b ∷ q) (c ∷ p) = not (xor b c) && same_path q p
same_path _ _ = false

pub same_path-eq : (p q : List Bool) → same_path p q ≡ true → p ≡ q
same_path-eq [] [] h = refl
same_path-eq (b ∷ p) (c ∷ q) h = ground (arith, same_path-eq p q)
same_path-eq [] (c ∷ q) h = cc
same_path-eq (b ∷ p) [] h = cc

pub same_path_refl : (p : List Bool) → same_path p p ≡ true
same_path_refl [] = refl
same_path_refl (true ∷ p) = same_path_refl p
same_path_refl (false ∷ p) = same_path_refl p

-- Putting a value at one path leaves what is at the others.
pub at-put :
    (p q : List Bool) (n : IpNet) (t : Node)
    → at q (put p n t) ≡ (if same_path p q then some n else at q t)
unfolding at put
at-put [] [] n null = refl
at-put [] [] n (node v l r) = refl
at-put [] (c ∷ q) n null = ground (arith, at-null q)
at-put [] (c ∷ q) n (node v l r) = ground arith
at-put (b ∷ p) [] n null = ground arith
at-put (b ∷ p) [] n (node v l r) = ground arith
at-put (b ∷ p) (c ∷ q) n null = ground (arith, at-put p q n null, at-null q)
at-put (b ∷ p) (c ∷ q) n (node v l r) = ground (arith, at-put p q n l, at-put p q n r)

-- `r` is the value on the longest prefix of `p` that has one, or `ret` if none has.
pub data IsLongest (p : List Bool) (t : Node) (ret r : IpNet) : Type 0 where
  missing : ((q : List Bool) → is_prefix q p ≡ true → at q t ≡ none) → r ≡ ret → IsLongest p t ret r
  found :
      (q : List Bool)
      → is_prefix q p ≡ true
      → at q t ≡ some r
      → ((s : List Bool) (n : IpNet) → is_prefix s p ≡ true → at s t ≡ some n → length s ≤ length q)
      → IsLongest p t ret r

module _ (b : Bool) (p : List Bool) (v : Option IpNet) (l r : Node) (ret out : IpNet) where
  IsLongest-step :
      IsLongest p (child b (node v l r)) (value_or v ret) out
      → IsLongest (b ∷ p) (node v l r) ret out
  unfolding at
  IsLongest-step (missing nothing e) = top v refl
    where
      top : (w : Option IpNet) → v ≡ w → IsLongest (b ∷ p) (node v l r) ret out
      top none h = missing below (ground arith)
        where
          below : (q : List Bool) → is_prefix q (b ∷ p) ≡ true → at q (node v l r) ≡ none
          below [] _ = h
          below (c ∷ q) k = ground (arith, nothing q)
      top (some n) h = found [] refl (ground arith) deepest
        where
          deepest :
              (s : List Bool) (m : IpNet)
              → is_prefix s (b ∷ p) ≡ true
              → at s (node v l r) ≡ some m
              → length s ≤ 0
          deepest [] m k a = omega arith
          deepest (c ∷ s) m k a = ground (arith, nothing s)
  IsLongest-step (found q k a most) = found (b ∷ q) (ground arith) (ground arith) deepest
    where
      deepest :
          (s : List Bool) (m : IpNet)
          → is_prefix s (b ∷ p) ≡ true
          → at s (node v l r) ≡ some m
          → length s ≤ length (b ∷ q)
      deepest [] m k' a' = omega arith
      deepest (c ∷ s) m k' a' = ground (arith, most s m)

root-IsLongest :
    (v : Option IpNet) (l r : Node) (ret : IpNet) → IsLongest [] (node v l r) ret (value_or v ret)
unfolding at
root-IsLongest none l r ret = missing alone refl
  where
    alone : (q : List Bool) → is_prefix q [] ≡ true → at q (node none l r) ≡ none
    alone [] h = refl
    alone (b ∷ q) h = cc
root-IsLongest (some n) l r ret = found [] refl refl alone
  where
    alone :
        (s : List Bool) (m : IpNet)
        → is_prefix s [] ≡ true
        → at s (node (some n) l r) ≡ some m
        → length s ≤ 0
    alone [] m h k = omega arith
    alone (b ∷ s) m h k = cc

pub longest-IsLongest :
    (p : List Bool) (t : Node) (ret : IpNet) → IsLongest p t ret (longest p t ret)
unfolding longest
longest-IsLongest p null ret = missing (λ q h. at-null q) refl
longest-IsLongest [] (node v l r) ret = root-IsLongest v l r ret
longest-IsLongest (true ∷ p) (node v l r) ret =
    IsLongest-step true p v l r ret _ (longest-IsLongest p r (value_or v ret))
longest-IsLongest (false ∷ p) (node v l r) ret =
    IsLongest-step false p v l r ret _ (longest-IsLongest p l (value_or v ret))
