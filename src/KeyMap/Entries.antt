-- ===== src/KeyMap/Entries.antt =====
-- What holds of every entry of a map, where keys that count as the same are equal.
use collector.Prelude.{
  ◌≡◌, sym, subst, true, some, [], ◌∷◌, arith, Each, Bool-cases, Option-cases, inl, inr,
}
use collector.KeyMap.{KeyEq, UnorderedMap, find, insert, assign, put}

module _ {ℓ κ μ} {K : Type ℓ} {V : Type κ} (E : KeyEq K)
    (same-eq : (j k : K) → E.same j k ≡ true → j ≡ k) (P : K × V → Type μ) where
  assign-Each :
      (k : K) (v : V) (m : UnorderedMap K V) → P (k, v) → Each P m → Each P (assign E k v m)
  unfolding assign
  assign-Each k v [] p h = tt
  assign-Each k v ((j, w) ∷ m) p (q, h) = elim (Bool-cases (E.same j k)) [
    | inl same ↦ rw same (subst (λ i. P (i, v)) (sym (same-eq j k same)) p, h)
    | inr other ↦ rw other (q, assign-Each k v m p h)
  ]

  pub insert-Each :
      (k : K) (v : V) (m : UnorderedMap K V) → P (k, v) → Each P m → Each P (insert E k v m)
  unfolding insert
  insert-Each k v m p h = elim (Option-cases (find E k m)) [
    | inl absent ↦ rw (insert, absent) (p, h)
    | inr (w, there) ↦ rw (insert, there) h
  ]

  pub put-Each : (k : K) (v : V) (m : UnorderedMap K V) → P (k, v) → Each P m → Each P (put E k v m)
  unfolding put
  put-Each k v m p h = elim (Option-cases (find E k m)) [
    | inl absent ↦ rw (put, absent) (insert-Each k v m p h)
    | inr (w, there) ↦ rw (put, there) (assign-Each k v m p h)
  ]

  pub find-Each : (k : K) (v : V) (m : UnorderedMap K V) → Each P m → find E k m ≡ some v → P (k, v)
  unfolding find
  find-Each k v [] h e = absurd (ground (arith, e))
  find-Each k v ((j, w) ∷ m) (q, h) e = elim (Bool-cases (E.same j k)) [
    | inl same ↦ subst P (ground (arith, same, e, same-eq j k same)) q
    | inr other ↦ find-Each k v m h (ground (arith, other, e))
  ]
