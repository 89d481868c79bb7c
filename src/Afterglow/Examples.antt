-- ===== src/Afterglow/Examples.antt =====
-- The laws of ComputeDeltaAfterglow and UpdateOldState at two concrete states.
use collector.Prelude.{ℕ, ◌≡◌, refl, ap, true, false, some, none, [], ◌∷◌, arith}
use collector.Prelude.Int.{pos, ◌-ℤ◌}
use collector.KeyMap.{UnorderedMap, find}
use collector.KeyMap.Keys.{nat_keys}
use collector.ConnStatus.{
  ConnStatus, conn_status, is_active, last_active_time, was_recently_active, is_in_afterglow_period,
}
use collector.Delta.Stream.{updated}
use collector.Afterglow.{compute_delta_afterglow, update_old_state}
use collector.Afterglow.Pointwise.{find-update_old_state}
use collector.Afterglow.Reported.{parts, parts-compute_delta_afterglow}
use collector.Afterglow.Stream.{
  open_in, compute_delta_afterglow-updates, compute_delta_afterglow-quiet,
}

abbrev new_state : UnorderedMap ℕ ConnStatus
new_state = (1, conn_status (pos 28) false) ∷ []

-- Object 2 has vanished, within the afterglow period of 20; object 3 before it.
abbrev old_state : UnorderedMap ℕ ConnStatus
old_state =
    (1, conn_status (pos 20) true)
    ∷ (2, conn_status (pos 15) true)
    ∷ (3, conn_status (pos 5) true)
    ∷ []

-- Object 3 is reported as closed, with its old time.
parts-compute_delta_afterglow_example :
    parts (
      find nat_keys 3
        (compute_delta_afterglow nat_keys (pos 30) (pos 20) (pos 20) new_state old_state []))
    ≡ some (5, false)
unfolding find is_active conn_status last_active_time ◌-ℤ◌
parts-compute_delta_afterglow_example =
    parts-compute_delta_afterglow (pos 30) (pos 20) (pos 20) nat_keys 3 new_state old_state
      (refl, tt) (refl, (refl, (refl, tt)))

find-update_old_state_example :
    find nat_keys 2 (update_old_state nat_keys old_state new_state (pos 30) (pos 20))
    ≡ some (conn_status (pos 15) true)
unfolding find is_active conn_status last_active_time was_recently_active is_in_afterglow_period
    ◌-ℤ◌
find-update_old_state_example =
    find-update_old_state nat_keys (pos 30) (pos 20) 2 new_state old_state (refl, tt)
      (refl, (refl, (refl, tt)))

compute_delta_afterglow-updates_example :
    updated
      (find nat_keys 3
        (compute_delta_afterglow nat_keys (pos 30) (pos 20) (pos 20) new_state old_state []))
      (open_in (pos 20) (pos 20) (find nat_keys 3 old_state))
    ≡ open_in
        (pos 30)
        (pos 20)
        (find nat_keys 3 (update_old_state nat_keys old_state new_state (pos 30) (pos 20)))
unfolding find conn_status
compute_delta_afterglow-updates_example =
    compute_delta_afterglow-updates nat_keys new_state old_state (refl, tt)
      (refl, (refl, (refl, tt))) (pos 30) (pos 20) (pos 20) (omega arith) 3

compute_delta_afterglow-quiet_example :
    find nat_keys 2
      (compute_delta_afterglow nat_keys (pos 30) (pos 20) (pos 20) new_state old_state [])
    ≡ none
unfolding find is_active conn_status last_active_time was_recently_active is_in_afterglow_period
    ◌-ℤ◌
compute_delta_afterglow-quiet_example =
    compute_delta_afterglow-quiet nat_keys new_state old_state (refl, tt) (refl, (refl, (refl, tt)))
      (pos 30) (pos 20) (pos 20) 2 refl
      (ap (open_in (pos 30) (pos 20)) (
        find-update_old_state nat_keys (pos 30) (pos 20) 2 new_state old_state (refl, tt)
          (refl, (refl, (refl, tt)))))
