-- ===== src/Tracker/Close/Laws.antt =====
-- What CloseConnections moves, key by key.
use collector.Prelude.{◌≡◌, refl, Bool, false, Option, none, some, [], ◌∷◌, arith, if◌then◌else◌}
use collector.KeyMap.{KeyEq, UnorderedMap, find, insert, Unique, and_then}
use collector.KeyMap.Laws.{find_cong, find-insert}
use collector.ConnStatus.{ConnStatus, is_active, set_active}
use collector.Afterglow.Pointwise.{first}
use collector.Tracker.Close.{close_connections}

-- The status that is put in the delta.
abbrev pub shut : Bool → ConnStatus → Option ConnStatus
shut matches status =
    if matches then some (if is_active status then set_active status false else status) else none

-- What stays in the old state.
abbrev pub stays : Bool → ConnStatus → Option ConnStatus
stays matches status = if matches then none else some status

-- The entry of a key, with the key as it is stored.
abbrev pub entry_at {ℓ} :
    {K : Type ℓ} → KeyEq K → K → UnorderedMap K ConnStatus → Option (K × ConnStatus)
entry_at E j [] = none
entry_at E j ((k, s) ∷ m) = if E.same k j then some (k, s) else entry_at E j m

module _ {ℓ} {K : Type ℓ} (E : KeyEq K) where
  entry_at-find :
      (j : K) (m : UnorderedMap K ConnStatus)
      → and_then (entry_at E j m) (λ e. some e.1) ≡ find E j m
  unfolding find
  entry_at-find j [] = refl
  entry_at-find j ((k, s) ∷ m) = ground (arith, entry_at-find j m)

module _ {ℓ} {K : Type ℓ} (E : KeyEq K) (predicate : K → Bool) where
  -- From a map without repeated keys CloseConnections takes out the entries whose stored keys match, and
  -- puts each in the delta, inactive, unless the delta has its key already; nothing else changes. Equal
  -- keys need not match alike.
  pub find-close_connections :
      (j : K) (old delta : UnorderedMap K ConnStatus)
      → Unique E old
      → (find E j (close_connections E predicate old delta).0
          ≡ and_then (entry_at E j old) (λ e. stays (predicate e.0) e.1))
        × (find E j (close_connections E predicate old delta).1
            ≡ first (find E j delta) (and_then (entry_at E j old) (λ e. shut (predicate e.0) e.1)))
  unfolding close_connections find
  find-close_connections j [] delta u = ground arith
  find-close_connections j ((k, s) ∷ old) delta u =
      let closed = if is_active s then set_active s false else s in
      let later = find-close_connections j old (insert E k closed delta) u.1 in
      let same = find-close_connections j old delta u.1 in
      ground (
        arith,
        later,
        same,
        find-insert E k j closed delta,
        find_cong E k j delta,
        find_cong E k j old,
        entry_at-find E j old,
      )
