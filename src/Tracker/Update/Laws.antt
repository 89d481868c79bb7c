-- ===== src/Tracker/Update/Laws.antt =====
-- What the tracker's maps hold after an update, key by key.
use collector.Prelude.{
  ◌≡◌, refl, ap, ◌∙◌, Bool, true, false, Option, none, some, List, [], ◌∷◌, arith, ltb,
  if◌then◌else◌,
}
use collector.Prelude.Int.{ℤ}
use collector.KeyMap.{KeyEq, UnorderedMap, find, Unique, member, and_then}
use collector.KeyMap.Laws.{
  find_cong, find-insert, find-assign, insert-Unique, assign-Unique, find-sweep,
}
use collector.ConnStatus.{ConnStatus, conn_status, last_active_time, set_active}
use collector.Net.Endpoint.{Connection, ContainerEndpoint}
use collector.Net.Keys.{connection_keys, container_endpoint_keys}
use collector.Tracker.State.{Tracker}
use collector.Tracker.Update.{
  emplace_or_update, emplace_all, mark_inactive, emplace_conns, emplace_endpoints,
  emplace_or_update_conn, emplace_or_update_endpoint, update,
}

-- The later of a status and the one that is stored; a tie leaves the stored one.
abbrev pub later : ConnStatus → Option ConnStatus → Option ConnStatus
later status none = some status
later status (some stored) =
    if ltb (last_active_time stored) (last_active_time status) then some status else some stored

-- What marking leaves of a status.
abbrev pub inactive : ConnStatus → Option ConnStatus
inactive status = some (set_active status false)

module _ {ℓ} {K : Type ℓ} (E : KeyEq K) where
  open E use {same}

  -- EmplaceOrUpdate stores the status at its key if the key is new or the status is later than the
  -- stored one, leaves every other key, and returns whether the key is new.
  pub find-emplace_or_update :
      (k j : K) (s : ConnStatus) (m : UnorderedMap K ConnStatus)
      → (find E j (emplace_or_update E k s m).0
          ≡ (if same k j then later s (find E k m) else find E j m))
        × ((emplace_or_update E k s m).1 ≡ elim (find E k m) [ none ↦ true | some _ ↦ false ])
  unfolding emplace_or_update
  find-emplace_or_update k j s m =
      ground (arith, find-insert E k j s m, find-assign E k j s m, find_cong E k j m)

  emplace_or_update-Unique :
      (k : K) (s : ConnStatus) (m : UnorderedMap K ConnStatus)
      → Unique E m
      → Unique E (emplace_or_update E k s m).0
  unfolding emplace_or_update
  emplace_or_update-Unique k s m u =
      ground (arith, insert-Unique E k s m u, assign-Unique E k s m u)

  pub emplace_all-Unique :
      (ks : List K) (s : ConnStatus) (m : UnorderedMap K ConnStatus)
      → Unique E m
      → Unique E (emplace_all E ks s m)
  unfolding emplace_all
  emplace_all-Unique [] s m u = u
  emplace_all-Unique (k ∷ ks) s m u = emplace_all-Unique ks s _ (emplace_or_update-Unique k s m u)

  find-emplace_all :
      (ks : List K) (j : K) (s : ConnStatus) (m : UnorderedMap K ConnStatus)
      → find E j (emplace_all E ks s m)
        ≡ (if member E j ks then later s (find E j m) else find E j m)
  unfolding emplace_all member
  find-emplace_all [] j s m = refl
  find-emplace_all (k ∷ ks) j s m =
      let step = find-emplace_or_update k j s m in
      ground (arith, step, find-emplace_all ks j s (emplace_or_update E k s m).0, find_cong E k j m)

  find-mark_inactive :
      (j : K) (m : UnorderedMap K ConnStatus)
      → Unique E m
      → find E j (mark_inactive m) ≡ and_then (find E j m) inactive
  unfolding mark_inactive
  find-mark_inactive j m u = find-sweep E (λ _ s. inactive s) (λ a b v h. refl) j m u

  find-scraped :
      (ks : List K) (j : K) (s : ConnStatus) (m : UnorderedMap K ConnStatus)
      → Unique E m
      → find E j (emplace_all E ks s (mark_inactive m)) ≡ (
          if member E j ks
          then later s (and_then (find E j m) inactive)
          else and_then (find E j m) inactive)
  find-scraped ks j s m u =
      ground (arith, find-emplace_all ks j s (mark_inactive m), find-mark_inactive j m u)

-- The maps of a tracker after the loops over what was scraped.
maps-emplace_conns :
    (ks : List Connection) (s : ConnStatus) (t : Tracker)
    → ((emplace_conns ks s t).conn_state ≡ emplace_all connection_keys ks s t.conn_state)
      × ((emplace_conns ks s t).endpoint_state ≡ t.endpoint_state)
unfolding emplace_conns emplace_all emplace_or_update_conn
maps-emplace_conns [] s t = (refl, refl)
maps-emplace_conns (k ∷ ks) s t = maps-emplace_conns ks s (emplace_or_update_conn k s t)

maps-emplace_endpoints :
    (ks : List ContainerEndpoint) (s : ConnStatus) (t : Tracker)
    → ((emplace_endpoints ks s t).endpoint_state
        ≡ emplace_all container_endpoint_keys ks s t.endpoint_state)
      × ((emplace_endpoints ks s t).conn_state ≡ t.conn_state)
unfolding emplace_endpoints emplace_all emplace_or_update_endpoint
maps-emplace_endpoints [] s t = (refl, refl)
maps-emplace_endpoints (k ∷ ks) s t = maps-emplace_endpoints ks s (emplace_or_update_endpoint k s t)

-- What Update leaves of an object, from the status that was stored.
abbrev pub updated_at : Bool → ℤ → Option ConnStatus → Option ConnStatus
updated_at scraped timestamp stored =
    if scraped
    then later (conn_status timestamp true) (and_then stored inactive)
    else and_then stored inactive

-- After Update on maps without repeated keys, a connection or endpoint of the scrape is active at the
-- time of the scrape if it is new or was last active before; every other one, and one whose stored
-- time is not before the scrape's, has its stored status, marked inactive.
pub find-update :
    (conns : List Connection) (endpoints : List ContainerEndpoint) (timestamp : ℤ) (t : Tracker)
    (k : Connection) (e : ContainerEndpoint)
    → Unique connection_keys t.conn_state
    → Unique container_endpoint_keys t.endpoint_state
    → (find connection_keys k (update conns endpoints timestamp t).conn_state
        ≡ updated_at
            (member connection_keys k conns)
            timestamp
            (find connection_keys k t.conn_state))
      × (find container_endpoint_keys e (update conns endpoints timestamp t).endpoint_state
          ≡ updated_at
              (member container_endpoint_keys e endpoints)
              timestamp
              (find container_endpoint_keys e t.endpoint_state))
unfolding update
find-update conns endpoints timestamp t k e uc ue =
    let s = conn_status timestamp true in
    let marked : Tracker = record t {
      conn_state = mark_inactive t.conn_state;
      endpoint_state = mark_inactive t.endpoint_state;
    } in
    let after = emplace_conns conns s marked in
    (
      ap (find connection_keys k)
            ((maps-emplace_endpoints endpoints s after).1 ∙ (maps-emplace_conns conns s marked).0)
          ∙ find-scraped connection_keys conns k s t.conn_state uc,
      ap (find container_endpoint_keys e) (
            (maps-emplace_endpoints endpoints s after).0
            ∙ ap (emplace_all container_endpoint_keys endpoints s)
                (maps-emplace_conns conns s marked).1)
          ∙ find-scraped container_endpoint_keys endpoints e s t.endpoint_state ue,
    )
