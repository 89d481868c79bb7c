-- ===== src/Tracker/Update.antt =====
-- UpdateConnection, Update and EmplaceOrUpdateNoLock (collector/lib/ConnTracker.cpp).
pub mod Laws
use collector.Prelude.{Bool, true, false, List, [], ◌∷◌, Option, none, some, ltb, if◌then◌else◌}
use collector.Prelude.Int.{ℤ}
use collector.KeyMap.{KeyEq, UnorderedMap, find, insert, assign, sweep}
use collector.Net.Endpoint.{Connection, ContainerEndpoint}
use collector.Net.Keys.{connection_keys, container_endpoint_keys}
use collector.ConnStatus.{ConnStatus, conn_status, last_active_time, set_active}
use collector.Tracker.State.{Tracker, increment_connection_stats}

module _ {ℓ} {K : Type ℓ} (E : KeyEq K) where
  -- The map after the update, and whether the element has been added.
  unfoldable pub emplace_or_update :
      K → ConnStatus → UnorderedMap K ConnStatus → UnorderedMap K ConnStatus × Bool
  emplace_or_update obj status m = elim (find E obj m) [
    | none ↦ (insert E obj status m, true)
    | some stored ↦ (
      if ltb (last_active_time stored) (last_active_time status) then assign E obj status m else m,
      false,
    )
  ]

  -- One of the loops of Update over what a scrape has found.
  unfoldable pub emplace_all :
      List K → ConnStatus → UnorderedMap K ConnStatus → UnorderedMap K ConnStatus
  unfolding emplace_or_update
  emplace_all [] status m = m
  emplace_all (obj ∷ rest) status m = emplace_all rest status (emplace_or_update obj status m).0

-- One of the loops of Update that mark all objects inactive.
unfoldable pub mark_inactive {ℓ} :
    {K : Type ℓ} → UnorderedMap K ConnStatus → UnorderedMap K ConnStatus
unfolding sweep
mark_inactive = sweep (λ obj status. some (set_active status false))

unfoldable pub emplace_or_update_conn : Connection → ConnStatus → Tracker → Tracker
emplace_or_update_conn conn status t =
    let (conns, added) = emplace_or_update connection_keys conn status t.conn_state in
    let counters = t.inserted_connections_counters in
    record t {
      conn_state = conns;
      inserted_connections_counters =
          if added then increment_connection_stats t conn counters else counters;
    }

unfoldable pub emplace_or_update_endpoint : ContainerEndpoint → ConnStatus → Tracker → Tracker
emplace_or_update_endpoint ep status t = record t {
  endpoint_state = (emplace_or_update container_endpoint_keys ep status t.endpoint_state).0;
}

unfoldable pub update_connection : Connection → ℤ → Bool → Tracker → Tracker
update_connection conn timestamp added t =
    emplace_or_update_conn conn (conn_status timestamp added) t

-- AddConnection and RemoveConnection.
unfoldable pub add_connection : Connection → ℤ → Tracker → Tracker
add_connection conn timestamp t = update_connection conn timestamp true t

unfoldable pub remove_connection : Connection → ℤ → Tracker → Tracker
remove_connection conn timestamp t = update_connection conn timestamp false t

unfoldable pub emplace_conns : List Connection → ConnStatus → Tracker → Tracker
emplace_conns [] status t = t
emplace_conns (conn ∷ rest) status t =
    emplace_conns rest status (emplace_or_update_conn conn status t)

unfoldable pub emplace_endpoints : List ContainerEndpoint → ConnStatus → Tracker → Tracker
emplace_endpoints [] status t = t
emplace_endpoints (ep ∷ rest) status t =
    emplace_endpoints rest status (emplace_or_update_endpoint ep status t)

unfoldable pub update : List Connection → List ContainerEndpoint → ℤ → Tracker → Tracker
update all_conns all_listen_endpoints timestamp t =
    let inactive = record t {
      conn_state = mark_inactive t.conn_state;
      endpoint_state = mark_inactive t.endpoint_state;
    } in
    let new_status = conn_status timestamp true in
    emplace_endpoints all_listen_endpoints new_status (emplace_conns all_conns new_status inactive)
