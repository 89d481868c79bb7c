-- ===== src/Notifier/Examples.antt =====
-- The laws of the notifier at a run of two rounds, of which the scrape of the second fails.
use collector.Prelude.{◌*◌, ◌^◌, ◌≡◌, refl, true, false, none, some, List, [], ◌∷◌, arith}
use collector.Prelude.Int.{pos}
use collector.KeyMap.{find, member}
use collector.Net.Address.{Family, ipv4_address, ipv6_address}
use collector.Net.IpNet.{ip_net}
use collector.Net.Keys.{address_keys}
use collector.Notifier.Control.{ControlMessage, on_recv_control_message, read_networks}
use collector.Notifier.Control.Laws.{listed_ipv4, listed_ipv6, member-on_recv_control_message}
use collector.Notifier.Control.Roundtrip.{written_ipv4, written_ipv6, read_networks-written}
use collector.Net.Endpoint.{Connection, tcp, no_endpoint, connection}
use collector.ConnStatus.{conn_status, is_active}
use collector.ExternalIps.{ExternalIpsConfig, Direction}
use collector.Tracker.State.{ConnMap, new_tracker}
use collector.Notifier.{Config, Round, RunState, run_single}
use collector.Notifier.Message.{add_connections}
use collector.Notifier.Message.Laws.{message_events, message_events-add_connections, delta_events}
use collector.Notifier.Reports.{learn_conns, learn_endpoints, run_single-IsReported}
use collector.Notifier.OneRound.{IsReported}

abbrev no_external : ExternalIpsConfig
no_external = record { direction_enabled = Direction.none_enabled }

abbrev conn : Connection
unfolding connection no_endpoint
conn = connection "c" no_endpoint no_endpoint tcp false

abbrev config : Config
config = record {
  turn_off_scrape = false;
  scrape_listen_endpoints = true;
  enable_afterglow = true;
  afterglow_period = pos 20;
}

abbrev first_round : Round
first_round = record {
  before_update = λ t. t;
  before_fetch = λ t. t;
  before_fetch_endpoints = λ t. t;
  scrape = some (conn ∷ [], []);
  scrape_time = pos 10;
  time_micros = pos 10;
  external_ips = no_external;
  write_succeeds = true;
}

abbrev rounds : List Round
rounds = first_round ∷ record first_round { scrape = none; time_micros = pos 15 } ∷ []

abbrev before : RunState
before = record {
  old_conn_state = [];
  old_cep_state = [];
  time_at_last_scrape = pos 5;
  prev_external_ips = no_external;
  tracker = new_tracker;
}

before-IsReported : IsReported config (λ _. false) (λ _. false) before
unfolding find
before-IsReported = record {
  conns = λ _. refl;
  endpoints = λ _. refl;
  conns_unique = tt;
  endpoints_unique = tt;
}

run_single-IsReported_example :
    IsReported config
      (learn_conns (run_single config rounds before).1 (λ _. false))
      (learn_endpoints (run_single config rounds before).1 (λ _. false))
      (run_single config rounds before).0
run_single-IsReported_example =
    run_single-IsReported config rounds before (λ _. false) (λ _. false) before-IsReported
      (omega arith, refl, refl, (omega arith, refl, refl, tt))

-- Two of three opening events fit a limit of two, and the closing one is added too.
abbrev delta : ConnMap
unfolding conn_status
delta =
    (conn, conn_status (pos 1) true)
    ∷ (conn, conn_status (pos 2) false)
    ∷ (conn, conn_status (pos 3) true)
    ∷ (conn, conn_status (pos 4) true)
    ∷ []

message_events-add_connections_example :
    (message_events true "c" (add_connections (pos 2) delta) ≡ 1)
    × (message_events false "c" (add_connections (pos 2) delta) ≡ 2)
unfolding delta conn delta_events is_active
message_events-add_connections_example = message_events-add_connections 2 "c" delta

abbrev message : ControlMessage
message = record {
  public_ip_addresses = some (record { ipv4_addresses = 134744072 ∷ []; ipv6_addresses = 1 ∷ [] });
  ip_networks = some (record { ipv4_networks = []; ipv6_networks = [] });
}

-- 8.8.8.8 is known after a message that lists it.
member-on_recv_control_message_example :
    member address_keys
      (ipv4_address 8 8 8 8)
      (on_recv_control_message (some message) new_tracker).known_public_ips
    ≡ true
unfolding listed_ipv4 listed_ipv6 address_keys
member-on_recv_control_message_example =
    member-on_recv_control_message (some message) new_tracker (ipv4_address 8 8 8 8)

-- 10.0.0.0/8, and ::1/128, at port 0.
read_networks-written_example :
    (read_networks (written_ipv4 0 ((10 * 2 ^ 24, 8) ∷ [])) Family.ipv4
      ≡ ip_net (ipv4_address 10 0 0 0) 8 false ∷ [])
    × (read_networks (written_ipv6 0 (((0, 1), 128) ∷ [])) Family.ipv6
        ≡ ip_net (ipv6_address 0 1) 128 false ∷ [])
read_networks-written_example =
    read_networks-written 0 ((10 * 2 ^ 24, 8) ∷ []) (((0, 1), 128) ∷ [])
      (omega arith, omega arith, omega arith, tt)
      (omega arith, omega arith, omega arith, omega arith, tt)
