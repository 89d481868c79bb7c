-- ===== src/Afterglow.antt =====
-- ComputeDeltaAfterglow and UpdateOldState (collector/lib/ConnTracker.h): a connection counts as
-- active until the afterglow period has passed since it was last seen.
pub mod Pointwise
pub mod Stream
pub mod Reported
mod Examples
use collector.Prelude.{
  ◌≡◌, Bool, true, false, not, Option, none, some, [], ◌∷◌, ◌&&◌, ltb, xor, if◌then◌else◌,
}
use collector.Prelude.Int.{ℤ, pos}
use collector.KeyMap.{KeyEq, UnorderedMap, find, insert, assign, sweep}
use collector.ConnStatus.{
  ConnStatus, conn_status, last_active_time, is_active, set_active, is_in_afterglow_period,
  was_recently_active,
}

-- The statuses that ChangeConnToActiveIfNeeded pairs with the unchanged key.
pub change_conn_to_active_if_needed : ConnStatus → Bool → ConnStatus
change_conn_to_active_if_needed conn_status' new_recently_active =
    if new_recently_active && not (is_active conn_status')
    then conn_status (pos (last_active_time conn_status')) true
    else conn_status'

module _ {ℓ} {K : Type ℓ} (E : KeyEq K)
    (time_micros time_at_last_scrape afterglow_period_micros : ℤ) where
  pub delta_for_a_connection_in_old_and_new_states :
      K → ConnStatus → ConnStatus → UnorderedMap K ConnStatus → UnorderedMap K ConnStatus
  delta_for_a_connection_in_old_and_new_states key status old_status delta =
      let new_recently_active = was_recently_active status time_micros afterglow_period_micros in
      let old_recently_active =
        was_recently_active old_status time_at_last_scrape afterglow_period_micros in
      if xor new_recently_active old_recently_active
      then insert E key (change_conn_to_active_if_needed status new_recently_active) delta
      else if not new_recently_active
      then (if ltb (last_active_time old_status) (last_active_time status)
          then insert E key status delta
          else delta)
      else delta

  pub delta_for_a_connection_in_new_state :
      K → ConnStatus → UnorderedMap K ConnStatus → UnorderedMap K ConnStatus
  delta_for_a_connection_in_new_state key status delta =
      let new_recently_active = was_recently_active status time_micros afterglow_period_micros in
      insert E key (change_conn_to_active_if_needed status new_recently_active) delta

  pub check_if_old_conn_should_be_inactive_in_delta :
      K → ConnStatus → UnorderedMap K ConnStatus → Bool
  check_if_old_conn_should_be_inactive_in_delta key status new_state = elim (find E key new_state) [
    | some _ ↦ false
    | none ↦
        if not (was_recently_active status time_at_last_scrape afterglow_period_micros)
        then false
        else if is_in_afterglow_period status time_micros afterglow_period_micros
        then false
        else true
  ]

  -- The loop over the new state.
  pub add_new :
      UnorderedMap K ConnStatus
      → UnorderedMap K ConnStatus
      → UnorderedMap K ConnStatus
      → UnorderedMap K ConnStatus
  unfolding delta_for_a_connection_in_old_and_new_states delta_for_a_connection_in_new_state
  add_new [] old_state delta = delta
  add_new ((key, status) ∷ rest) old_state delta =
      add_new rest old_state (elim (find E key old_state) [
        | some old_status ↦ delta_for_a_connection_in_old_and_new_states key status old_status delta
        | none ↦ delta_for_a_connection_in_new_state key status delta
      ])

  -- The loop over the old state.
  pub add_closed :
      UnorderedMap K ConnStatus
      → UnorderedMap K ConnStatus
      → UnorderedMap K ConnStatus
      → UnorderedMap K ConnStatus
  unfolding check_if_old_conn_should_be_inactive_in_delta
  add_closed [] new_state delta = delta
  add_closed ((key, status) ∷ rest) new_state delta = add_closed rest new_state (
      if check_if_old_conn_should_be_inactive_in_delta key status new_state
      then insert E key (conn_status (pos (last_active_time status)) false) delta
      else delta)

  pub compute_delta_afterglow :
      UnorderedMap K ConnStatus
      → UnorderedMap K ConnStatus
      → UnorderedMap K ConnStatus
      → UnorderedMap K ConnStatus
  compute_delta_afterglow new_state old_state delta =
      add_closed old_state new_state (add_new new_state old_state delta)

module _ {ℓ} {K : Type ℓ} (E : KeyEq K) where
  pub keep_in_afterglow : ℤ → ℤ → K → ConnStatus → Option ConnStatus
  keep_in_afterglow time_micros afterglow_period_micros key status =
      if is_in_afterglow_period status time_micros afterglow_period_micros
      then some status
      else none

  -- The loop of UpdateOldState over the new state.
  pub add_unexpired :
      UnorderedMap K ConnStatus → UnorderedMap K ConnStatus → UnorderedMap K ConnStatus
  add_unexpired [] old_state = old_state
  add_unexpired ((key, status) ∷ rest) old_state = add_unexpired rest (elim (find E key old_state) [
    | none ↦ insert E key status old_state
    | some _ ↦ assign E key status old_state
  ])

  pub update_old_state :
      UnorderedMap K ConnStatus → UnorderedMap K ConnStatus → ℤ → ℤ → UnorderedMap K ConnStatus
  unfolding keep_in_afterglow
  update_old_state old_state new_state time_micros afterglow_period_micros =
      add_unexpired new_state
        (sweep (keep_in_afterglow time_micros afterglow_period_micros) old_state)
