-- ===== src/Procfs/Scan/Update.antt =====
-- What ConnectionTracker::Update (collector/lib/ConnTracker.cpp) makes of a scrape by ConnScraper
-- (collector/lib/ProcfsScraper.cpp).
use collector.Prelude.{
  ◌≡◌, refl, sym, ◌∙◌, Bool, true, false, Option, none, some, List, [], ◌∷◌, arith, Each,
  Bool-cases, inl, inr,
}
use collector.Prelude.Int.{ℤ}
use collector.KeyMap.{KeyEq, find, member, Unique}
use collector.Net.Endpoint.{Connection, ContainerEndpoint, L4Proto, no_endpoint}
use collector.Net.Keys.{connection_keys, container_endpoint_keys}
use collector.ConnStatus.{ConnStatus, is_active}
use collector.ConnStatus.Laws.{is_active-set_active}
use collector.Tracker.State.{Tracker}
use collector.Tracker.Update.{update}
use collector.Tracker.Update.Laws.{updated_at, find-update}
use collector.Procfs.Sockets.{ProcessStore, Found}
use collector.Procfs.Scan.{ProcEntry, read_container_connections, wants_endpoints}
use collector.Procfs.Scan.Scraped.{IsScraped, nothing_found, read_container_connections-IsScraped}

abbrev no_container_endpoint : ContainerEndpoint
no_container_endpoint = record {
  container = "";
  endpoint = no_endpoint;
  l4proto = L4Proto.unknown;
  originator = none;
}

module _ {ℓ κ} {K : Type ℓ} (E : KeyEq K) (P : K → Type κ) where
  member-Each :
      (k : K) (ks : List K) → member E k ks ≡ true → Each P ks → (j : K) × (E.same j k ≡ true) × P j
  unfolding member
  member-Each k [] m h = absurd (ground (arith, m))
  member-Each k (j ∷ ks) m (p, h) = elim (Bool-cases (E.same j k)) [
    | inl same ↦ (j, same, p)
    | inr other ↦ member-Each k ks (ground (arith, m, other)) h
  ]

-- A stored status that is not scraped is not active.
scraped-active :
    (scraped : Bool) (timestamp : ℤ) (stored : Option ConnStatus) (status : ConnStatus)
    → updated_at scraped timestamp stored ≡ some status
    → is_active status ≡ true
    → scraped ≡ true
scraped-active true timestamp stored status e active = refl
scraped-active false timestamp none status e active = absurd (ground (arith, e))
scraped-active false timestamp (some old) status e active =
    ground (arith, e, active, is_active-set_active old false)

-- Once a tracker without repeated keys is updated by a scrape of `/proc`, each connection that is
-- active in it is one that the scrape has found: a relevant one of a socket that a process of its
-- container has open.
pub update-IsScraped :
    (little : Bool) (entries : List ProcEntry) (store : ProcessStore)
    (endpoints : Option (List ContainerEndpoint)) (found : Found)
    (listening : List ContainerEndpoint) (timestamp : ℤ) (t : Tracker) (k : Connection)
    (status : ConnStatus)
    → read_container_connections little (some entries) store (nothing_found endpoints) ≡ some found
    → Unique connection_keys t.conn_state
    → Unique container_endpoint_keys t.endpoint_state
    → find connection_keys k (update found.connections listening timestamp t).conn_state
      ≡ some status
    → is_active status ≡ true
    → (c : Connection) × (connection_keys.same c k ≡ true)
      × IsScraped little (wants_endpoints (nothing_found endpoints)) entries c
update-IsScraped little entries store endpoints found listening timestamp t k status scraped uc ue e
      active =
    let at = find-update found.connections listening timestamp t k (no_container_endpoint) uc ue in
    member-Each connection_keys
      (IsScraped little (wants_endpoints (nothing_found endpoints)) entries) k found.connections
      (scraped-active (member connection_keys k found.connections) timestamp
        (find connection_keys k t.conn_state) status (sym at.0 ∙ e) active)
      (read_container_connections-IsScraped little entries store endpoints found scraped)
