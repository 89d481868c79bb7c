-- ===== src/Notifier.antt =====
-- NetworkStatusNotifier (collector/lib/NetworkStatusNotifier.h and NetworkStatusNotifier.cpp): the
-- thread that reports what changed in the connection tracker to Sensor, round by round.
pub mod Proto
pub mod Message
pub mod Control
pub mod OneRound
pub mod Reports
mod Examples
use collector.Prelude.{
  ℕ, Bool, true, false, ◌&&◌, not, Option, none, some, List, [], ◌∷◌, if◌then◌else◌,
}
use collector.Prelude.Int.{ℤ}
use collector.KeyMap.{UnorderedMap}
use collector.Net.Endpoint.{Connection, ContainerEndpoint}
use collector.Net.Keys.{connection_keys, advertised_endpoint_keys}
use collector.ConnStatus.{ConnStatus}
use collector.ExternalIps.{ExternalIpsConfig}
use collector.Delta.{compute_delta}
use collector.Afterglow.{compute_delta_afterglow, update_old_state}
use collector.Tracker.State.{Tracker, ConnMap, EndpointMap}
use collector.Tracker.Update.{update}
use collector.Tracker.Fetch.{fetch_conn_state, fetch_endpoint_state}
use collector.Tracker.Config.{set_external_ips_config}
use collector.Tracker.Close.{close_connections_on_external_ips_config_change}

-- What the notifier reads of the CollectorConfig, other than GetExternalIPsConf.
pub record Config : Type 0 where
  pub turn_off_scrape : Bool
  pub scrape_listen_endpoints : Bool
  pub enable_afterglow : Bool
  pub afterglow_period : ℤ

-- What a round meets: what other threads do to the tracker before each of its steps, the result of the
-- scrape (`none` if it fails), the readings of the clock, the configuration of external addresses and
-- whether the message can be written.
pub record Round : Type 0 where
  pub before_update : Tracker → Tracker
  pub before_fetch : Tracker → Tracker
  pub before_fetch_endpoints : Tracker → Tracker
  pub scrape : Option (List Connection × List ContainerEndpoint)
  pub scrape_time : ℤ
  pub time_micros : ℤ
  pub external_ips : ExternalIpsConfig
  pub write_succeeds : Bool

-- The variables of RunSingle, and the tracker.
pub record RunState : Type 0 where
  pub old_conn_state : ConnMap
  pub old_cep_state : EndpointMap
  pub time_at_last_scrape : ℤ
  pub prev_external_ips : ExternalIpsConfig
  pub tracker : Tracker

-- The deltas that CreateInfoMessage is given.
pub record Report : Type 0 where
  pub conn_delta : ConnMap
  pub endpoint_delta : EndpointMap

-- UpdateAllConnsAndEndpoints: `none` is a failed scrape.
unfoldable pub update_all : Config → Round → Tracker → Option Tracker
update_all config round tracker =
    if config.turn_off_scrape then some tracker else elim round.scrape [
      | none ↦ none
      | some (all_conns, all_listen_endpoints) ↦ some (
          update all_conns (if config.scrape_listen_endpoints then all_listen_endpoints else [])
            round.scrape_time tracker)
    ]

-- The connections of a round: the delta, and old_conn_state after the closing of connections and at
-- the end of the round.
unfoldable pub report_conns : Config → Round → RunState → Tracker → ConnMap → ConnMap × ConnMap
report_conns config round s tracker new_conn_state =
    if config.enable_afterglow
    then (let delta =
          compute_delta_afterglow connection_keys round.time_micros s.time_at_last_scrape
            config.afterglow_period new_conn_state s.old_conn_state [] in
        let (old, delta_conn) =
          close_connections_on_external_ips_config_change s.prev_external_ips tracker
            s.old_conn_state delta in
        (
          delta_conn,
          update_old_state connection_keys old new_conn_state round.time_micros
              config.afterglow_period,
        ))
    else (compute_delta connection_keys new_conn_state s.old_conn_state, new_conn_state)

-- The body of the loop of RunSingle after the scrape.
unfoldable pub report_round : Config → Round → RunState → Tracker → RunState × Report
report_round config round s scraped =
    let configured = set_external_ips_config round.external_ips (round.before_fetch scraped) in
    let (new_conn_state, fetched) = fetch_conn_state true true configured in
    let (conn_delta, old_conn_state) = report_conns config round s fetched new_conn_state in
    let (new_cep_state, fetched_all) =
      fetch_endpoint_state true true (round.before_fetch_endpoints fetched) in
    (
      record {
        old_conn_state = old_conn_state;
        old_cep_state = new_cep_state;
        time_at_last_scrape = round.time_micros;
        prev_external_ips =
            if config.enable_afterglow then round.external_ips else s.prev_external_ips;
        tracker = fetched_all;
      },
      record {
        conn_delta = conn_delta;
        endpoint_delta = compute_delta advertised_endpoint_keys new_cep_state s.old_cep_state;
      },
    )

-- CreateInfoMessage makes no message of an empty report.
unfoldable pub has_message : Report → Bool
has_message r = elim r.conn_delta [
  | [] ↦ elim r.endpoint_delta [ [] ↦ false | _ ↦ true ]
  | _ ↦ true
]

-- The loop of RunSingle over the rounds until Sleep returns false: the state at its end and the
-- reports that were delivered, the empty ones included. A failed scrape skips the round; a message
-- that cannot be written ends the loop.
unfoldable pub run_single : Config → List Round → RunState → RunState × List Report
run_single config [] s = (s, [])
run_single config (round ∷ rest) s =
    elim (update_all config round (round.before_update s.tracker)) [
      | none ↦ run_single config rest (record s { tracker = round.before_update s.tracker })
      | some scraped ↦
          let (after, report) = report_round config round s scraped in
          let more = run_single config rest after in
          if has_message report && not round.write_succeeds
          then (after, [])
          else (more.0, report ∷ more.1)
    ]
