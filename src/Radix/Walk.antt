-- ===== src/Radix/Walk.antt =====
-- The walks of Insert and Find (collector/lib/NRadix.cpp) as insertion and lookup along one path of
-- bits.
use collector.Prelude.{
  ℕ, zero, suc, ◌≡◌, ◌⊎◌, refl, Bool, true, false, Option, none, some, List, [], ◌∷◌, arith,
  Bool-cases, Option-cases, inl, inr,
}
use collector.Net.IpNet.{IpNet}
use collector.Radix.Tree.{Node, null, node, child, set_child, value_or, at, put, longest}
use collector.Radix.{
  Cursor, goes_right, in_mask, advance, fill, new_node, grow, attach, insert_from, find_from,
}

-- The bits that a walk from a cursor goes by.
unfoldable pub path : ℕ → ℕ → Cursor → List Bool
path zero bits c = []
path (suc fuel) bits c = elim (in_mask c) [
  | false ↦ []
  | true ↦ goes_right c ∷ (elim (advance bits c) [ none ↦ [] | some d ↦ path fuel bits d ])
]

-- The walk ends before its fuel does.
unfoldable pub ends : ℕ → ℕ → Cursor → Bool
ends zero bits c = false
ends (suc fuel) bits c = elim (in_mask c) [
  | false ↦ true
  | true ↦ elim (advance bits c) [ none ↦ true | some d ↦ ends fuel bits d ]
]

put-null : (p : List Bool) (network : IpNet) → put p network null ≡ put p network new_node
unfolding put
put-null [] network = refl
put-null (true ∷ p) network = refl
put-null (false ∷ p) network = refl

put-child :
    (b : Bool) (p : List Bool) (network : IpNet) (v : Option IpNet) (l r : Node)
    → put (b ∷ p) network (node v l r)
      ≡ set_child b (put p network (child b (node v l r))) (node v l r)
unfolding put
put-child true p network v l r = refl
put-child false p network v l r = refl

pub at-child :
    (b : Bool) (p : List Bool) (v : Option IpNet) (l r : Node)
    → at (b ∷ p) (node v l r) ≡ at p (child b (node v l r))
unfolding at
at-child true p v l r = refl
at-child false p v l r = refl

pub longest-child :
    (b : Bool) (p : List Bool) (v : Option IpNet) (l r : Node) (ret : IpNet)
    → longest (b ∷ p) (node v l r) ret ≡ longest p (child b (node v l r)) (value_or v ret)
unfolding longest
longest-child true p v l r ret = refl
longest-child false p v l r ret = refl

grow-new_node :
    (fuel : ℕ) (network : IpNet) (c : Cursor)
    → ends fuel network.bits c ≡ true
    → grow fuel network c new_node ≡ put (path fuel network.bits c) network null
unfolding grow path ends put
grow-new_node zero network c h = cc
grow-new_node (suc fuel) network c h = elim (Option-cases (advance network.bits c)) [
  | inl a ↦ ground (arith, a)
  | inr (d, a) ↦ ground (arith, a, grow-new_node fuel network d)
]

grow-put :
    (fuel : ℕ) (network : IpNet) (c : Cursor) (v : Option IpNet) (l r : Node)
    → ends fuel network.bits c ≡ true
    → in_mask c ≡ true
    → child (goes_right c) (node v l r) ≡ null
    → grow fuel network c (node v l r) ≡ put (path fuel network.bits c) network (node v l r)
unfolding grow path ends put
grow-put zero network c v l r h m e = cc
grow-put (suc fuel) network c v l r h m e = elim (Option-cases (advance network.bits c)) [
  | inl a ↦ ground (arith, a)
  | inr (d, a) ↦ ground (arith, a, grow-new_node fuel network d)
]

-- Insertion along a path: refused where a value is, and otherwise the value is put there.
abbrev pub insert_at : List Bool → IpNet → Node → Option Node
insert_at p network t = elim (at p t) [ none ↦ some (put p network t) | some _ ↦ none ]

fill-insert_at :
    (network : IpNet) (v : Option IpNet) (l r : Node)
    → fill network (node v l r) ≡ insert_at [] network (node v l r)
unfolding fill at put
fill-insert_at network none l r = refl
fill-insert_at network (some w) l r = refl

pub at-null : (p : List Bool) → at p null ≡ none
unfolding at
at-null [] = refl
at-null (b ∷ p) = refl

attach-insert_at :
    (b : Bool) (p : List Bool) (network : IpNet) (v : Option IpNet) (l r : Node)
    → attach b (node v l r) (insert_at p network (child b (node v l r)))
      ≡ insert_at (b ∷ p) network (node v l r)
unfolding at put
attach-insert_at true p network v l r = ground arith
attach-insert_at false p network v l r = ground arith

pub insert_from-insert_at :
    (fuel : ℕ) (network : IpNet) (c : Cursor) (v : Option IpNet) (l r : Node)
    → ends fuel network.bits c ≡ true
    → insert_from fuel network c (node v l r)
      ≡ insert_at (path fuel network.bits c) network (node v l r)
unfolding insert_from path ends
insert_from-insert_at zero network c v l r h = cc
insert_from-insert_at (suc fuel) network c v l r h =
    step (insert_from-insert_at fuel network) (child (goes_right c) (node v l r))
      (Bool-cases (in_mask c)) refl (Option-cases (advance network.bits c))
  where
    step :
        ((d : Cursor) (w : Option IpNet) (x y : Node)
          → ends fuel network.bits d ≡ true
          → insert_from fuel network d (node w x y)
            ≡ insert_at (path fuel network.bits d) network (node w x y))
        → (n : Node) → (in_mask c ≡ true) ⊎ (in_mask c ≡ false)
        → child (goes_right c) (node v l r) ≡ n
        → (advance network.bits c ≡ none) ⊎ ((d : Cursor) × (advance network.bits c ≡ some d))
        → insert_from (suc fuel) network c (node v l r)
          ≡ insert_at (path (suc fuel) network.bits c) network (node v l r)
    step ih n (inr m) e a = rw (m, insert_from, path) (fill-insert_at network v l r)
    step ih null (inl m) e a = ground (
      arith,
      grow-put (suc fuel) network c v l r h m e,
      attach-insert_at (goes_right c)
          (elim (advance network.bits c) [ none ↦ [] | some d ↦ path fuel network.bits d ]) network
          v l r,
      at-null (elim (advance network.bits c) [ none ↦ [] | some d ↦ path fuel network.bits d ]),
    )
    step ih (node w x y) (inl m) e (inl a) = ground (
      arith,
      m,
      a,
      e,
      fill-insert_at network w x y,
      attach-insert_at (goes_right c) [] network v l r,
    )
    step ih (node w x y) (inl m) e (inr (d, a)) = ground (
      arith,
      m,
      a,
      e,
      ih d w x y,
      attach-insert_at (goes_right c) (path fuel network.bits d) network v l r,
    )

pub find_from-longest :
    (fuel bits : ℕ) (c : Cursor) (n : Node) (ret : IpNet)
    → ends fuel bits c ≡ true
    → find_from fuel bits c n ret ≡ longest (path fuel bits c) n ret
unfolding find_from path ends longest
find_from-longest zero bits c n ret h = cc
find_from-longest (suc fuel) bits c null ret h = ground arith
find_from-longest (suc fuel) bits c (node v l r) ret h = elim (Option-cases (advance bits c)) [
  | inl a ↦ ground (arith, a)
  | inr (d, a) ↦ ground (
    arith,
    a,
    find_from-longest fuel bits d l (value_or v ret),
    find_from-longest fuel bits d r (value_or v ret),
  )
]
