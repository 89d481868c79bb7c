-- ===== src/Delta/Pointwise.antt =====
-- ComputeDelta at one key, against a table of its cases.
use collector.Prelude.{
  ◌≡◌, refl, true, false, Option, none, some, [], ◌∷◌, arith, ltb, if◌then◌else◌, ◌∙◌,
}
use collector.KeyMap.{KeyEq, UnorderedMap, find, Unique, and_then}
use collector.KeyMap.Laws.{
  find_cong, find-insert, find-assign, find-erase, insert-Unique, assign-Unique, erase-Unique,
  find-sweep, sweep-Unique,
}
use collector.ConnStatus.{ConnStatus, last_active_time, is_active, set_active}
use collector.Delta.{merge_new, merge_all, close_missing, compute_delta}

-- Both states know the key.
abbrev pub changed : ConnStatus → ConnStatus → Option ConnStatus
changed new old = elim (is_active new) [
  | true ↦ elim (is_active old) [ true ↦ none | false ↦ some new ]
  | false ↦ elim (is_active old) [
    | true ↦ some new
    | false ↦ if ltb (last_active_time old) (last_active_time new) then some new else none
  ]
]

-- Only the old state knows the key.
abbrev pub closed : ConnStatus → Option ConnStatus
closed old = if is_active old then some (set_active old false) else none

-- The delta at a key, from the new and the old status there.
abbrev pub delta_at : Option ConnStatus → Option ConnStatus → Option ConnStatus
delta_at none none = none
delta_at none (some old) = closed old
delta_at (some new) none = some new
delta_at (some new) (some old) = changed new old

abbrev merged_at : Option ConnStatus → Option ConnStatus → Option ConnStatus
merged_at none old = old
merged_at (some new) none = some new
merged_at (some new) (some old) = changed new old

module _ {ℓ} {K : Type ℓ} (E : KeyEq K) where
  open E use {same, same_refl}

  find-merge_new :
      (k j : K) (s : ConnStatus) (m : UnorderedMap K ConnStatus)
      → find E j (merge_new E k s m)
        ≡ (if same k j then merged_at (some s) (find E k m) else find E j m)
  unfolding merge_new
  find-merge_new k j s m =
      ground (arith, find-insert E k j s m, find-assign E k j s m, find-erase E k j m)

  merge_new-Unique :
      (k : K) (s : ConnStatus) (m : UnorderedMap K ConnStatus)
      → Unique E m
      → Unique E (merge_new E k s m)
  unfolding merge_new
  merge_new-Unique k s m u =
      ground (arith, insert-Unique E k s m u, assign-Unique E k s m u, erase-Unique E k m u)

  merge_all-Unique : (n m : UnorderedMap K ConnStatus) → Unique E m → Unique E (merge_all E n m)
  unfolding merge_all
  merge_all-Unique [] m u = u
  merge_all-Unique ((k, s) ∷ n) m u =
      merge_all-Unique n (merge_new E k s m) (merge_new-Unique k s m u)

  find-merge_all :
      (j : K) (n m : UnorderedMap K ConnStatus)
      → Unique E n
      → find E j (merge_all E n m) ≡ merged_at (find E j n) (find E j m)
  unfolding merge_all find
  find-merge_all j [] m u = refl
  find-merge_all j ((k, s) ∷ n) m u = ground (
    arith,
    find-merge_all j n (merge_new E k s m) u.1,
    find-merge_new k j s m,
    find_cong E k j m,
    find_cong E k j n,
  )

  close_missing-respects :
      (n : UnorderedMap K ConnStatus) (a b : K) (s : ConnStatus)
      → same a b ≡ true
      → close_missing E n a s ≡ close_missing E n b s
  unfolding close_missing
  close_missing-respects n a b s h = ground (arith, find_cong E a b n h)

  pub compute_delta-Unique :
      (n m : UnorderedMap K ConnStatus) → Unique E m → Unique E (compute_delta E n m)
  unfolding compute_delta
  compute_delta-Unique n m u =
      sweep-Unique E (close_missing E n) (close_missing-respects n) (merge_all E n m)
        (merge_all-Unique n m u)

  -- For maps without repeated keys, at every key ComputeDelta leaves what the table says: a new
  -- object as it is, a resurrected or newly closed one with its new status, one that is inactive in
  -- both states only if its time advanced, a vanished active one marked inactive, and nothing else.
  pub find-compute_delta :
      (j : K) (n m : UnorderedMap K ConnStatus)
      → Unique E n
      → Unique E m
      → find E j (compute_delta E n m) ≡ delta_at (find E j n) (find E j m)
  unfolding compute_delta
  find-compute_delta j n m un um =
      find-sweep E (close_missing E n) (close_missing-respects n) j (merge_all E n m)
        (merge_all-Unique n m um)
      ∙ at_key
    where
      at_key :
          and_then (find E j (merge_all E n m)) (close_missing E n j)
          ≡ delta_at (find E j n) (find E j m)
      at_key = rw (find-merge_all j n m un) (unfold close_missing in ground arith)
