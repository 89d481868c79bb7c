-- ===== src/Notifier/OneRound.antt =====
-- What a receiver of the reports of RunSingle (collector/lib/NetworkStatusNotifier.cpp) knows after one
-- round.
use collector.Prelude.{◌≡◌, refl, ◌∙◌, Bool, true, [], arith, if◌then◌else◌, Bool-cases, inl, inr}
use collector.Prelude.Int.{ℤ, ◌≤ℤ◌}
use collector.KeyMap.{KeyEq, UnorderedMap, find, Unique}
use collector.Net.Endpoint.{Connection, ContainerEndpoint}
use collector.Net.Keys.{connection_keys, advertised_endpoint_keys}
use collector.ConnStatus.{ConnStatus}
use collector.ExternalIps.{ExternalIpsConfig}
use collector.Delta.Stream.{open_at, updated, compute_delta-updates}
use collector.Afterglow.{compute_delta_afterglow}
use collector.Afterglow.Pointwise.{update_old_state-Unique}
use collector.Afterglow.Stream.{open_in, compute_delta_afterglow-updates}
use collector.Tracker.State.{Tracker, ConnMap, EndpointMap}
use collector.Tracker.Fetch.{fetch_conn_state, fetch_endpoint_state}
use collector.Tracker.Fetch.Laws.{fetch_state-Unique}
use collector.Tracker.Close.{close_connections_on_external_ips_config_change}
use collector.Tracker.Config.{set_external_ips_config}
use collector.Notifier.{Config, Round, RunState, report_conns, report_round}

-- What the old state says of a connection: with afterglow it counts as open while it is active or in
-- the afterglow period of the last scrape.
abbrev pub known : Config → ℤ → ConnMap → Connection → Bool
known config time_at_last_scrape old k =
    if config.enable_afterglow
    then open_in time_at_last_scrape config.afterglow_period (find connection_keys k old)
    else open_at (find connection_keys k old)

-- What a receiver knows after one more delta.
abbrev pub learn {ℓ} : {K : Type ℓ} → KeyEq K → UnorderedMap K ConnStatus → (K → Bool) → K → Bool
learn E delta seen k = updated (find E k delta) (seen k)

pub record IsReported (config : Config) (seen : Connection → Bool)
    (seen_endpoints : ContainerEndpoint → Bool) (s : RunState) : Type 0 where
  pub conns : (k : Connection) → seen k ≡ known config s.time_at_last_scrape s.old_conn_state k
  pub endpoints :
      (k : ContainerEndpoint)
      → seen_endpoints k ≡ open_at (find advertised_endpoint_keys k s.old_cep_state)
  pub conns_unique : Unique connection_keys s.old_conn_state
  pub endpoints_unique : Unique advertised_endpoint_keys s.old_cep_state

fetch_conn_state-Unique : (t : Tracker) → Unique connection_keys (fetch_conn_state true true t).0
unfolding fetch_conn_state
fetch_conn_state-Unique t = fetch_state-Unique connection_keys _ true _ t.conn_state [] tt

fetch_endpoint_state-Unique :
    (t : Tracker) → Unique advertised_endpoint_keys (fetch_endpoint_state true true t).0
unfolding fetch_endpoint_state
fetch_endpoint_state-Unique t =
    fetch_state-Unique advertised_endpoint_keys _ true _ t.endpoint_state [] tt

external_ips_config-fetch_conn_state :
    (t : Tracker) → (fetch_conn_state true true t).1.external_ips_config ≡ t.external_ips_config
unfolding fetch_conn_state
external_ips_config-fetch_conn_state t = refl

-- Nothing is closed where the configuration has not changed.
close_unchanged :
    (prev : ExternalIpsConfig) (t : Tracker) (old delta : ConnMap)
    → t.external_ips_config ≡ prev
    → close_connections_on_external_ips_config_change prev t old delta ≡ (old, delta)
unfolding close_connections_on_external_ips_config_change
close_unchanged prev t old delta h = ground arith

module _ (config : Config) (round : Round) (s : RunState) (t : Tracker) (new_state : ConnMap)
    (new_unique : Unique connection_keys new_state)
    (old_unique : Unique connection_keys s.old_conn_state) where
  report_conns-known :
      (config.enable_afterglow ≡ true
        → (s.time_at_last_scrape ≤ℤ round.time_micros)
          × (t.external_ips_config ≡ s.prev_external_ips))
      → (k : Connection)
      → updated
          (find connection_keys k (report_conns config round s t new_state).0)
          (known config s.time_at_last_scrape s.old_conn_state k)
        ≡ known config round.time_micros (report_conns config round s t new_state).1 k
  unfolding report_conns
  report_conns-known steady k = elim (Bool-cases config.enable_afterglow) [
    | inl on ↦
        rw
          (
            on,
            close_unchanged s.prev_external_ips t s.old_conn_state
                (compute_delta_afterglow connection_keys round.time_micros s.time_at_last_scrape
                  config.afterglow_period new_state s.old_conn_state [])
                (steady on).1,
          )
          (compute_delta_afterglow-updates connection_keys new_state s.old_conn_state new_unique
            old_unique round.time_micros s.time_at_last_scrape config.afterglow_period (steady on).0
            k)
    | inr off ↦
        rw off
          (compute_delta-updates connection_keys new_state s.old_conn_state new_unique old_unique k)
  ]

  report_conns-Unique :
      (config.enable_afterglow ≡ true → t.external_ips_config ≡ s.prev_external_ips)
      → Unique connection_keys (report_conns config round s t new_state).1
  unfolding report_conns
  report_conns-Unique steady = elim (Bool-cases config.enable_afterglow) [
    | inl on ↦ ground (
      arith,
      on,
      close_unchanged s.prev_external_ips t s.old_conn_state
          (compute_delta_afterglow connection_keys round.time_micros s.time_at_last_scrape
            config.afterglow_period new_state s.old_conn_state [])
          (steady on),
      update_old_state-Unique connection_keys round.time_micros config.afterglow_period new_state
          s.old_conn_state old_unique,
    )
    | inr off ↦ ground (arith, off, new_unique)
  ]

module _ (config : Config) (round : Round) (s : RunState) (scraped : Tracker)
    (seen : Connection → Bool) (seen_endpoints : ContainerEndpoint → Bool)
    (reported : IsReported config seen seen_endpoints s) where
  abbrev configured : Tracker
  configured = set_external_ips_config round.external_ips (round.before_fetch scraped)

  abbrev fetched : Tracker
  fetched = (fetch_conn_state true true configured).1

  abbrev new_conns : ConnMap
  new_conns = (fetch_conn_state true true configured).0

  abbrev new_endpoints : EndpointMap
  new_endpoints = (fetch_endpoint_state true true (round.before_fetch_endpoints fetched)).0

  fetched_config : fetched.external_ips_config ≡ round.external_ips
  unfolding set_external_ips_config
  fetched_config = external_ips_config-fetch_conn_state configured

  pub round-IsReported :
      (s.time_at_last_scrape ≤ℤ round.time_micros)
      → (round.external_ips ≡ s.prev_external_ips)
      → IsReported config
          (learn connection_keys (report_round config round s scraped).1.conn_delta seen)
          (learn advertised_endpoint_keys
            (report_round config round s scraped).1.endpoint_delta
            seen_endpoints)
          (report_round config round s scraped).0
  unfolding report_round
  round-IsReported time config_same =
      let new_unique = fetch_conn_state-Unique configured in
      let same_config = fetched_config ∙ config_same in
      record {
        conns = λ k. rw (reported.conns k) (
            report_conns-known config round s fetched new_conns new_unique reported.conns_unique
              (λ on. (time, same_config)) k);
        endpoints = λ k. rw (reported.endpoints k) (
            compute_delta-updates advertised_endpoint_keys new_endpoints s.old_cep_state
              (fetch_endpoint_state-Unique _) reported.endpoints_unique k);
        conns_unique =
            report_conns-Unique config round s fetched new_conns new_unique reported.conns_unique
              (λ on. same_config);
        endpoints_unique = fetch_endpoint_state-Unique _;
      }
