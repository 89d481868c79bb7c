-- ===== src/Delta.antt =====
-- ConnectionTracker::ComputeDelta (collector/lib/ConnTracker.h): the difference between the state of
-- this scrape and that of the last, which the code leaves in *old_state.
pub mod Pointwise
pub mod Stream
mod Examples
use collector.Prelude.{Bool, true, false, not, Option, none, some, [], ◌∷◌, ltb, xor, if◌then◌else◌}
use collector.KeyMap.{KeyEq, UnorderedMap, find, insert, assign, erase, sweep}
use collector.ConnStatus.{ConnStatus, last_active_time, is_active, set_active}

module _ {ℓ} {K : Type ℓ} (E : KeyEq K) where
  -- The body of the first loop, for one entry of the new state.
  pub merge_new : K → ConnStatus → UnorderedMap K ConnStatus → UnorderedMap K ConnStatus
  merge_new key status old_state = elim (find E key old_state) [
    | none ↦ insert E key status old_state
    | some old_status ↦
        if xor (is_active status) (is_active old_status)
        then assign E key status old_state
        else if is_active status
        then erase E key old_state
        else if ltb (last_active_time old_status) (last_active_time status)
        then assign E key status old_state
        else erase E key old_state
  ]

  pub merge_all : UnorderedMap K ConnStatus → UnorderedMap K ConnStatus → UnorderedMap K ConnStatus
  merge_all [] old_state = old_state
  merge_all ((key, status) ∷ rest) old_state = merge_all rest (merge_new key status old_state)

  -- The body of the second loop.
  pub close_missing : UnorderedMap K ConnStatus → K → ConnStatus → Option ConnStatus
  close_missing new_state key status = elim (find E key new_state) [
    | some _ ↦ some status
    | none ↦ if is_active status then some (set_active status false) else none
  ]

  pub compute_delta :
      UnorderedMap K ConnStatus → UnorderedMap K ConnStatus → UnorderedMap K ConnStatus
  unfolding close_missing
  compute_delta new_state old_state =
      sweep (close_missing new_state) (merge_all new_state old_state)
