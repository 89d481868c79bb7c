-- ===== src/KeyMap.antt =====
-- std::unordered_map and std::unordered_set as the collector uses them: association lists under a
-- key comparison. An iteration visits the entries in the order of the list; what is said of a map
-- is said of its lookups, and so holds for every order.
pub mod Laws
pub mod Keys
pub mod Entries
use collector.Prelude.{
  ◌≡◌, Bool, true, false, Option, none, some, List, [], ◌∷◌, if◌then◌else◌, refl, arith, Bool-cases,
  inl, inr,
}

-- The key comparison of a container, with what the container requires of it: it is an equivalence.
pub record KeyEq {ℓ} (K : Type ℓ) : Type ℓ where
  pub same : K → K → Bool
  pub same_refl : (a : K) → same a a ≡ true
  pub same_cong : (a b c : K) → same a b ≡ true → same a c ≡ same b c

abbrev pub UnorderedMap {ℓ κ} : Type ℓ → Type κ → Type (ℓ ⊔ κ)
UnorderedMap K V = List (K × V)

-- find and erase of a value that may be missing: what a loop leaves of an entry.
abbrev pub and_then {ℓ κ} : {A : Type ℓ} {B : Type κ} → Option A → (A → Option B) → Option B
and_then none f = none
and_then (some a) f = f a

module _ {ℓ κ} {K : Type ℓ} {V : Type κ} (E : KeyEq K) where
  open E use {same}

  unfoldable pub find : K → UnorderedMap K V → Option V
  find k [] = none
  find k ((j, v) ∷ m) = if same j k then some v else find k m

  -- m.insert({k, v}), m.emplace(k, v): nothing happens if the key is there.
  unfoldable pub insert : K → V → UnorderedMap K V → UnorderedMap K V
  insert k v m = elim (find k m) [ none ↦ (k, v) ∷ m | some _ ↦ m ]

  -- it->second = v, for the iterator it of the key.
  unfoldable pub assign : K → V → UnorderedMap K V → UnorderedMap K V
  assign k v [] = []
  assign k v ((j, w) ∷ m) = if same j k then (j, v) ∷ m else (j, w) ∷ assign k v m

  -- m[k] = v
  unfoldable pub put : K → V → UnorderedMap K V → UnorderedMap K V
  put k v m = elim (find k m) [ none ↦ insert k v m | some _ ↦ assign k v m ]

  -- m.erase(it), for the iterator it of the key.
  unfoldable pub erase : K → UnorderedMap K V → UnorderedMap K V
  erase k [] = []
  erase k ((j, w) ∷ m) = let rest = erase k m in if same j k then rest else (j, w) ∷ rest

  -- No two entries have the same key.
  abbrev pub Unique : UnorderedMap K V → Type κ
  Unique [] = Unit
  Unique ((k, v) ∷ m) = (find k m ≡ none) × Unique m

-- for (it = m.begin(); it != m.end();) whose body rewrites the entry and moves on, or erases it.
-- `none` stands for the erasure.
module _ {ℓ κ} {K : Type ℓ} {V : Type κ} where
  unfoldable pub sweep : (K → V → Option V) → UnorderedMap K V → UnorderedMap K V
  sweep body [] = []
  sweep body ((k, v) ∷ m) =
      let rest = sweep body m in elim (body k v) [ none ↦ rest | some w ↦ (k, w) ∷ rest ]

abbrev pub UnorderedSet {ℓ} : Type ℓ → Type ℓ
UnorderedSet K = List K

module _ {ℓ} {K : Type ℓ} (E : KeyEq K) where
  -- Contains(container, key), of collector/lib/Containers.h, for a set.
  unfoldable pub member : K → UnorderedSet K → Bool
  member k [] = false
  member k (j ∷ s) = if E.same j k then true else member k s

  -- s.insert(key), s.emplace(key)
  unfoldable pub add_member : K → UnorderedSet K → UnorderedSet K
  add_member k s = if member k s then s else k ∷ s
