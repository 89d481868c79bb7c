-- ===== src/Delta/Stream.antt =====
-- What the receiver of the deltas knows: which objects are open.
use collector.Prelude.{
  ◌≡◌, Bool, false, Option, none, some, arith, ◌⊎◌, inl, inr, ◌≢◌, ℕ, ◌<◌, refl,
}
use collector.KeyMap.{KeyEq, UnorderedMap, find, Unique}
use collector.ConnStatus.{ConnStatus, last_active_time, is_active}
use collector.ConnStatus.Laws.{is_active-set_active}
use collector.Delta.{compute_delta}
use collector.Delta.Pointwise.{delta_at, find-compute_delta}

abbrev pub open_at : Option ConnStatus → Bool
open_at none = false
open_at (some s) = is_active s

-- An update carries a status for each object that it names, the others stay as they were.
abbrev pub updated : Option ConnStatus → Bool → Bool
updated none seen = seen
updated (some s) seen = is_active s

open_at-delta_at :
    (new old : Option ConnStatus) → updated (delta_at new old) (open_at old) ≡ open_at new
open_at-delta_at none none = ground arith
open_at-delta_at none (some o) = ground (arith, is_active-set_active o false)
open_at-delta_at (some n) none = ground arith
open_at-delta_at (some n) (some o) = ground arith

-- The time at which an object was last seen active.
abbrev pub last_at : Option ConnStatus → ℕ
last_at none = 0
last_at (some s) = last_active_time s

-- Why an object is in the delta: it opened or closed, it is new, or it was seen active since.
abbrev pub Reason : Option ConnStatus → Option ConnStatus → Type 0
Reason new old = (open_at new ≢ open_at old) ⊎ ((old ≡ none) ⊎ (last_at old < last_at new))

delta_at-Reason :
    (new old : Option ConnStatus) (s : ConnStatus) → delta_at new old ≡ some s → Reason new old
delta_at-Reason none none s h = inr (inl refl)
delta_at-Reason none (some o) s h = ground arith
delta_at-Reason (some n) none s h = inr (inl refl)
delta_at-Reason (some n) (some o) s h = ground arith

module _ {ℓ} {K : Type ℓ} (E : KeyEq K) (new_state old_state : UnorderedMap K ConnStatus)
    (new_unique : Unique E new_state) (old_unique : Unique E old_state) where
  -- For states without repeated keys, a receiver that knew which objects of the old state were open
  -- knows the same of the new state once it has applied the delta.
  pub compute_delta-updates :
      (k : K)
      → updated (find E k (compute_delta E new_state old_state)) (open_at (find E k old_state))
        ≡ open_at (find E k new_state)
  compute_delta-updates k =
      rw (find-compute_delta E k new_state old_state new_unique old_unique)
        (open_at-delta_at (find E k new_state) (find E k old_state))

  -- For states without repeated keys, the delta names no object in vain: one that it names has opened or closed, was not known
  -- before, or was last active later than the old state says.
  compute_delta-Reason :
      (k : K) (s : ConnStatus)
      → find E k (compute_delta E new_state old_state) ≡ some s
      → Reason (find E k new_state) (find E k old_state)
  compute_delta-Reason k s h =
      delta_at-Reason (find E k new_state) (find E k old_state) s
        (rw (find-compute_delta E k new_state old_state new_unique old_unique) at h)
