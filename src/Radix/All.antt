-- ===== src/Radix/All.antt =====
-- GetAll (collector/lib/NRadix.cpp) and the values of a tree.
use mathlib.Core.List.{Memᴰ}
use mathlib.Core.List.Memᴰ
use collector.Prelude.{
  ◌≡◌, sym, ◌∙◌, ap, ◌↔◌, inl, inr, Bool, true, false, none, some, List, [], ◌∷◌, arith,
}
use collector.Net.IpNet.{IpNet}
use collector.Radix.{get_all}
use collector.Radix.Tree.{Node, null, node, at}
use collector.Radix.Keyed.{key, IsTree}

path-get_all : (n : IpNet) (t : Node) → Memᴰ n (get_all t) → (p : List Bool) × (at p t ≡ some n)
unfolding get_all at
path-get_all n null m = absurd (Memᴰ.not-nil m)
path-get_all n (node none l r) m = elim (Memᴰ.append_cases (get_all l) m) [
  | inl in_l ↦ let found = path-get_all n l in_l in (false ∷ found.0, found.1)
  | inr in_r ↦ let found = path-get_all n r in_r in (true ∷ found.0, found.1)
]
path-get_all n (node (some w) l r) m = elim (Memᴰ.cases_cons m) [
  | inl e ↦ ([], ap some (sym e))
  | inr rest ↦ elim (Memᴰ.append_cases (get_all l) rest) [
    | inl in_l ↦ let found = path-get_all n l in_l in (false ∷ found.0, found.1)
    | inr in_r ↦ let found = path-get_all n r in_r in (true ∷ found.0, found.1)
  ]
]

get_all-at : (p : List Bool) (n : IpNet) (t : Node) → at p t ≡ some n → Memᴰ n (get_all t)
unfolding get_all at
get_all-at p n null e = cc
get_all-at [] n (node none l r) e = cc
get_all-at [] n (node (some w) l r) e = Memᴰ.head (ground arith)
get_all-at (false ∷ p) n (node none l r) e = Memᴰ.append_left (get_all r) (get_all-at p n l e)
get_all-at (true ∷ p) n (node none l r) e = Memᴰ.append_right (get_all l) (get_all-at p n r e)
get_all-at (false ∷ p) n (node (some w) l r) e =
    Memᴰ.tail (Memᴰ.append_left (get_all r) (get_all-at p n l e))
get_all-at (true ∷ p) n (node (some w) l r) e =
    Memᴰ.tail (Memᴰ.append_right (get_all l) (get_all-at p n r e))

-- In a tree that Insert made, GetAll lists exactly the networks that are at their path.
pub get_all-IsTree :
    (t : Node) → IsTree t → (n : IpNet) → Memᴰ n (get_all t) ↔ (at (key n) t ≡ some n)
get_all-IsTree t tree n = (
  λ m.
      let found = path-get_all n t m in
      ap (λ q. at q t) ((tree.keyed found.0 n found.1).0) ∙ found.1,
  get_all-at (key n) n t,
)
