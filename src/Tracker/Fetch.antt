-- ===== src/Tracker/Fetch.antt =====
-- FetchConnState and FetchEndpointState (collector/lib/ConnTracker.cpp).
pub mod Laws
use collector.Prelude.{
  Bool, true, false, ◌&&◌, not, List, [], ◌∷◌, Option, none, some, if◌then◌else◌,
}
use collector.KeyMap.{KeyEq, UnorderedMap, find, insert, assign}
use collector.Net.Endpoint.{Connection, ContainerEndpoint}
use collector.Net.Keys.{connection_keys, advertised_endpoint_keys}
use collector.ConnStatus.{ConnStatus, is_active, merge_from}
use collector.Tracker.State.{
  Tracker, ConnMap, EndpointMap, has_connection_filters, should_fetch_connection,
  should_fetch_container_endpoint,
}
use collector.Tracker.Normalize.{normalize_connection, normalize_container_endpoint}

-- What FetchState does to an entry that passes the filter: `none` is dont_normalize.
module _ {ℓ} {K : Type ℓ} (E : KeyEq K) (process : Option (K → K)) where
  unfoldable pub fetch_entry :
      K → ConnStatus → UnorderedMap K ConnStatus → UnorderedMap K ConnStatus
  fetch_entry key status fetched = elim process [
    | none ↦ insert E key status fetched
    | some process_fn ↦ elim (find E (process_fn key) fetched) [
      | none ↦ insert E (process_fn key) status fetched
      | some old ↦ assign E (process_fn key) (merge_from old status) fetched
    ]
  ]

  -- FetchState's loop: the fetched state, and what stays in *state. `none` is dont_filter.
  unfoldable pub fetch_state :
      Bool
      → Option (K → Bool)
      → UnorderedMap K ConnStatus
      → UnorderedMap K ConnStatus
      → UnorderedMap K ConnStatus × UnorderedMap K ConnStatus
  unfolding fetch_entry
  fetch_state clear_inactive filter [] fetched = (fetched, [])
  fetch_state clear_inactive filter ((key, status) ∷ rest) fetched =
      let passes : Bool = elim filter [ none ↦ true | some filter_fn ↦ filter_fn key ] in
      let (out, kept) =
        fetch_state clear_inactive filter rest
          (if passes then fetch_entry key status fetched else fetched) in
      if clear_inactive && not (is_active status) then (out, kept) else (out, (key, status) ∷ kept)

unfoldable pub fetch_conn_state : Bool → Bool → Tracker → ConnMap × Tracker
fetch_conn_state normalize clear_inactive t =
    let process : Option (Connection → Connection) =
      if normalize then some (normalize_connection t) else none in
    let filter : Option (Connection → Bool) =
      if has_connection_filters t then some (should_fetch_connection t) else none in
    let (cm, kept) = fetch_state connection_keys process clear_inactive filter t.conn_state [] in
    (cm, record t { conn_state = kept })

unfoldable pub fetch_endpoint_state : Bool → Bool → Tracker → EndpointMap × Tracker
fetch_endpoint_state normalize clear_inactive t =
    let process : Option (ContainerEndpoint → ContainerEndpoint) =
      if normalize then some normalize_container_endpoint else none in
    let filter : Option (ContainerEndpoint → Bool) =
      if has_connection_filters t then some (should_fetch_container_endpoint t) else none in
    let (cem, kept) =
      fetch_state advertised_endpoint_keys process clear_inactive filter t.endpoint_state [] in
    (cem, record t { endpoint_state = kept })
