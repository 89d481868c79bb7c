-- ===== src/KeyMap/Laws.antt =====
-- Lookups after each operation of a map, and that its keys stay distinct.
use collector.Prelude.{
  ◌≡◌, true, Option, none, some, List, [], ◌∷◌, if◌then◌else◌, refl, sym, ◌∙◌, arith,
}
use collector.KeyMap.{
  KeyEq, UnorderedMap, find, insert, assign, erase, put, Unique, sweep, and_then, member,
  add_member,
}

module _ {ℓ} {K : Type ℓ} (E : KeyEq K) where
  open E use {same, same_refl, same_cong}

  pub same_sym : (a b : K) → same a b ≡ true → same b a ≡ true
  same_sym a b h = sym (same_cong a b a h) ∙ same_refl a

  pub same_cong_right : (j a b : K) → same a b ≡ true → same j a ≡ same j b
  same_cong_right j a b h = ground (arith, same_cong j a b, same_cong j b a, same_sym a b h, h)

module _ {ℓ κ} {K : Type ℓ} {V : Type κ} (E : KeyEq K) where
  open E use {same, same_cong}

  pub find_cong : (a b : K) (m : UnorderedMap K V) → same a b ≡ true → find E a m ≡ find E b m
  unfolding find
  find_cong a b [] h = refl
  find_cong a b ((j, v) ∷ m) h = ground (arith, find_cong a b m h, same_cong_right E j a b h)

  pub find-insert :
      (k j : K) (v : V) (m : UnorderedMap K V)
      → find E j (insert E k v m)
        ≡ (if same k j then elim (find E k m) [ none ↦ some v | some w ↦ some w ] else find E j m)
  unfolding insert find
  find-insert k j v m = ground (arith, find_cong k j m)

  pub find-assign :
      (k j : K) (v : V) (m : UnorderedMap K V)
      → find E j (assign E k v m)
        ≡ (if same k j then elim (find E k m) [ none ↦ none | some w ↦ some v ] else find E j m)
  unfolding assign find
  find-assign k j v [] = ground arith
  find-assign k j v ((i, w) ∷ m) =
      ground (arith, find-assign k j v m, same_cong i k j, same_cong_right E i k j)

  pub find-put :
      (k j : K) (v : V) (m : UnorderedMap K V)
      → find E j (put E k v m) ≡ (if same k j then some v else find E j m)
  unfolding put
  find-put k j v m = ground (arith, find-insert k j v m, find-assign k j v m)

  pub find-erase :
      (k j : K) (m : UnorderedMap K V)
      → find E j (erase E k m) ≡ (if same k j then none else find E j m)
  unfolding erase find
  find-erase k j [] = ground arith
  find-erase k j ((i, w) ∷ m) =
      ground (arith, find-erase k j m, same_cong i k j, same_cong_right E i k j)

  pub insert-Unique :
      (k : K) (v : V) (m : UnorderedMap K V) → Unique E m → Unique E (insert E k v m)
  unfolding insert
  insert-Unique k v m u = ground arith

  pub assign-Unique :
      (k : K) (v : V) (m : UnorderedMap K V) → Unique E m → Unique E (assign E k v m)
  unfolding assign
  assign-Unique k v [] u = tt
  assign-Unique k v ((i, w) ∷ m) u =
      ground (arith, assign-Unique k v m u.1, find-assign k i v m, same_sym E k i)

  pub erase-Unique : (k : K) (m : UnorderedMap K V) → Unique E m → Unique E (erase E k m)
  unfolding erase
  erase-Unique k [] u = tt
  erase-Unique k ((i, w) ∷ m) u = ground (arith, erase-Unique k m u.1, find-erase k i m)

  -- What a sweep leaves at a key is what its body makes of the entry there.
  module _ (body : K → V → Option V)
      (respects : (a b : K) (v : V) → same a b ≡ true → body a v ≡ body b v) where
    pub find-sweep :
        (k : K) (m : UnorderedMap K V)
        → Unique E m
        → find E k (sweep body m) ≡ and_then (find E k m) (body k)
    unfolding find sweep
    find-sweep k [] u = refl
    find-sweep k ((j, v) ∷ m) u =
        ground (arith, find-sweep k m u.1, respects j k v, find_cong j k m)

    pub sweep-Unique : (m : UnorderedMap K V) → Unique E m → Unique E (sweep body m)
    unfolding sweep
    sweep-Unique [] u = tt
    sweep-Unique ((j, v) ∷ m) u = ground (arith, sweep-Unique m u.1, find-sweep j m u.1)

module _ {ℓ} {K : Type ℓ} (E : KeyEq K) where
  pub member_cong : (a b : K) (s : List K) → E.same a b ≡ true → member E a s ≡ member E b s
  unfolding member
  member_cong a b [] h = refl
  member_cong a b (j ∷ s) h = ground (arith, member_cong a b s h, same_cong_right E j a b h)

  pub member-add_member :
      (k j : K) (s : List K)
      → member E j (add_member E k s) ≡ (if E.same k j then true else member E j s)
  unfolding add_member member
  member-add_member k j s = ground (arith, member_cong k j s)
