-- ===== src/Tracker/Fetch/Laws.antt =====
-- What FetchState returns and what it leaves, key by key.
use collector.Prelude.{
  Option-cases, inl, inr, ◌≡◌, refl, ap, ◌∙◌, Bool, true, ◌&&◌, not, Option, none, some, [], ◌∷◌,
  arith, if◌then◌else◌,
}
use collector.KeyMap.{KeyEq, UnorderedMap, find, insert, Unique, sweep, and_then}
use collector.KeyMap.Laws.{
  find_cong, find-insert, find-assign, find-sweep, insert-Unique, assign-Unique,
}
use collector.ConnStatus.{ConnStatus, is_active, merge_from}
use collector.Tracker.Fetch.{fetch_entry, fetch_state}

-- What the loop leaves of an entry: with clear_inactive, nothing of an inactive one.
abbrev pub cleared : Bool → ConnStatus → Option ConnStatus
cleared clear_inactive status =
    if clear_inactive && not (is_active status) then none else some status

abbrev pub passes {ℓ} : {K : Type ℓ} → Option (K → Bool) → K → Bool
passes none key = true
passes (some filter_fn) key = filter_fn key

-- The merge of two statuses that may be missing.
abbrev pub merged : Option ConnStatus → Option ConnStatus → Option ConnStatus
merged none b = b
merged (some a) none = some a
merged (some a) (some b) = some (merge_from a b)

module _ {ℓ} {K : Type ℓ} (E : KeyEq K) where
  open E use {same, same_cong}

  fetch_state-sweep :
      (process : Option (K → K)) (clear : Bool) (filter : Option (K → Bool))
      (m d : UnorderedMap K ConnStatus)
      → (fetch_state E process clear filter m d).1 ≡ sweep (λ _ s. cleared clear s) m
  unfolding fetch_state sweep
  fetch_state-sweep process clear filter [] d = refl
  fetch_state-sweep process clear filter ((k, s) ∷ m) d = ground (
    arith,
    fetch_state-sweep process clear filter m d,
    fetch_state-sweep process clear filter m (fetch_entry E process k s d),
  )

  -- In a map without repeated keys FetchState keeps every entry, or with clear_inactive those that
  -- are active, whatever it returns.
  find-fetch_state_kept :
      (process : Option (K → K)) (clear : Bool) (filter : Option (K → Bool)) (j : K)
      (m : UnorderedMap K ConnStatus)
      → Unique E m
      → find E j (fetch_state E process clear filter m []).1 ≡ and_then (find E j m) (cleared clear)
  find-fetch_state_kept process clear filter j m u =
      ap (find E j) (fetch_state-sweep process clear filter m [])
      ∙ find-sweep E (λ _ s. cleared clear s) (λ a b v h. refl) j m u

  -- The merge of the statuses of all entries that pass the filter and are normalized to a key.
  unfoldable pub merged_over :
      (K → K) → Option (K → Bool) → K → UnorderedMap K ConnStatus → Option ConnStatus
  merged_over f filter j [] = none
  merged_over f filter j ((k, s) ∷ m) =
      if passes filter k && same (f k) j
      then merged (some s) (merged_over f filter j m)
      else merged_over f filter j m

  merged_assoc : (a b c : Option ConnStatus) → merged (merged a b) c ≡ merged a (merged b c)
  unfolding merge_from
  merged_assoc none b c = refl
  merged_assoc (some a) none c = refl
  merged_assoc (some a) (some b) none = refl
  merged_assoc (some a) (some b) (some c) = ground arith

  find-fetch_entry :
      (f : K → K) (k j : K) (s : ConnStatus) (d : UnorderedMap K ConnStatus)
      → find E j (fetch_entry E (some f) k s d)
        ≡ (if same (f k) j then merged (find E j d) (some s) else find E j d)
  unfolding fetch_entry
  find-fetch_entry f k j s d = elim (Option-cases (find E (f k) d)) [
    | inl e ↦ ground (arith, e, find-insert E (f k) j s d, find_cong E (f k) j d)
    | inr (old, e) ↦
        ground (arith, e, find-assign E (f k) j (merge_from old s) d, find_cong E (f k) j d)
  ]

  fetched_over :
      (f : K → K) (clear : Bool) (filter : Option (K → Bool)) (j : K)
      (m d : UnorderedMap K ConnStatus)
      → find E j (fetch_state E (some f) clear filter m d).0
        ≡ merged (find E j d) (merged_over f filter j m)
  unfolding fetch_state merged_over
  fetched_over f clear filter j [] d = ground arith
  fetched_over f clear filter j ((k, s) ∷ m) d = ground (
    arith,
    fetched_over f clear filter j m d,
    fetched_over f clear filter j m (fetch_entry E (some f) k s d),
    find-fetch_entry f k j s d,
    merged_assoc (find E j d) (some s) (merged_over f filter j m),
  )

  -- Fetched with normalization, a key holds the merge of the statuses of all stored entries that pass
  -- the filter and are normalized to it, and is missing if there are none.
  pub find-fetch_state :
      (f : K → K) (clear : Bool) (filter : Option (K → Bool)) (j : K)
      (m : UnorderedMap K ConnStatus)
      → find E j (fetch_state E (some f) clear filter m []).0 ≡ merged_over f filter j m
  unfolding find
  find-fetch_state f clear filter j m = fetched_over f clear filter j m []

  -- Without normalization and filter, and from distinct keys, all entries are fetched.
  plain_over :
      (clear : Bool) (j : K) (m d : UnorderedMap K ConnStatus)
      → Unique E m
      → find E j (fetch_state E none clear none m d).0
        ≡ elim (find E j d) [ some s ↦ some s | none ↦ find E j m ]
  unfolding fetch_state fetch_entry find
  plain_over clear j [] d u = ground arith
  plain_over clear j ((k, s) ∷ m) d u = ground (
    arith,
    plain_over clear j m (insert E k s d) u.1,
    find-insert E k j s d,
    find_cong E k j d,
    find_cong E k j m,
  )

  -- Fetched without normalization and filter, a map without repeated keys is returned whole.
  find-fetch_state_plain :
      (clear : Bool) (j : K) (m : UnorderedMap K ConnStatus)
      → Unique E m
      → find E j (fetch_state E none clear none m []).0 ≡ find E j m
  unfolding find
  find-fetch_state_plain clear j m u = plain_over clear j m [] u

  fetch_entry-Unique :
      (k : K) (s : ConnStatus) (process : Option (K → K)) (d : UnorderedMap K ConnStatus)
      → Unique E d
      → Unique E (fetch_entry E process k s d)
  unfolding fetch_entry
  fetch_entry-Unique k s none d u = insert-Unique E k s d u
  fetch_entry-Unique k s (some f) d u = elim (Option-cases (find E (f k) d)) [
    | inl e ↦ ground (arith, e, insert-Unique E (f k) s d u)
    | inr (old, e) ↦ ground (arith, e, assign-Unique E (f k) (merge_from old s) d u)
  ]

  -- The fetched map has no repeated keys.
  pub fetch_state-Unique :
      (process : Option (K → K)) (clear : Bool) (filter : Option (K → Bool))
      (m d : UnorderedMap K ConnStatus)
      → Unique E d
      → Unique E (fetch_state E process clear filter m d).0
  unfolding fetch_state
  fetch_state-Unique process clear filter [] d u = u
  fetch_state-Unique process clear filter ((k, s) ∷ m) d u = ground (
    arith,
    fetch_state-Unique process clear filter m d u,
    fetch_state-Unique process clear filter m (fetch_entry E process k s d)
        (fetch_entry-Unique k s process d u),
  )
