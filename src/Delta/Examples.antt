-- ===== src/Delta/Examples.antt =====
-- The laws of ComputeDelta at two concrete states.
use collector.Prelude.{ℕ, ◌≡◌, refl, true, false, some, [], ◌∷◌}
use collector.Prelude.Int.{pos}
use collector.KeyMap.{UnorderedMap, find}
use collector.KeyMap.Keys.{nat_keys}
use collector.ConnStatus.{ConnStatus, conn_status, is_active, set_active}
use collector.Delta.{compute_delta}
use collector.Delta.Pointwise.{find-compute_delta}
use collector.Delta.Stream.{updated, compute_delta-updates}

abbrev new_state : UnorderedMap ℕ ConnStatus
new_state = (1, conn_status (pos 20) true) ∷ (2, conn_status (pos 20) true) ∷ []

-- Object 3 has vanished.
abbrev old_state : UnorderedMap ℕ ConnStatus
old_state = (1, conn_status (pos 10) false) ∷ (3, conn_status (pos 10) true) ∷ []

find-compute_delta_example :
    find nat_keys 3 (compute_delta nat_keys new_state old_state)
    ≡ some (set_active (conn_status (pos 10) true) false)
unfolding find is_active conn_status
find-compute_delta_example =
    find-compute_delta nat_keys 3 new_state old_state (refl, (refl, tt)) (refl, (refl, tt))

compute_delta-updates_example :
    updated (find nat_keys 1 (compute_delta nat_keys new_state old_state)) false ≡ true
unfolding find is_active conn_status
compute_delta-updates_example =
    compute_delta-updates nat_keys new_state old_state (refl, (refl, tt)) (refl, (refl, tt)) 1
