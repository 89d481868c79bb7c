-- ===== src/Signal/Examples.antt =====
-- The laws of the signal handler at a connect event to 10.0.0.1:80.
use Prim.Native.String.{String}
use collector.Prelude.{
  ℕ, ◌≡◌, Bool, true, false, refl, Option, some, List, [], ◌∷◌, ◌+◌, ◌*◌, ◌^◌, if◌then◌else◌,
}
use collector.Prelude.Int.{pos}
use collector.KeyMap.{find, member}
use collector.KeyMap.Keys.{string_keys}
use collector.Net.Endpoint.{
  Connection, connection, L4Proto, address_endpoint, is_relevant_connection,
}
use collector.Net.Keys.{connection_keys}
use collector.Tracker.State.{new_tracker}
use collector.Signal.{Handler, Event, FdInfo, scap_tcp, ipv4_sock, ipv4_of, handle_signal}
use collector.Signal.Laws.{status_after, result_of, find-handle_signal}
use collector.Signal.Effect.{opened_or_closed, seen_connection}

-- One identifier for connect, and none for a send or receive.
abbrev event_ids : String → List ℕ
event_ids name = if string_keys.same name "connect<" then 23 ∷ [] else []

abbrev handler : Handler
handler = record { collect_connection_status = true; track_send_recv = false }

abbrev fd : FdInfo
fd = record {
  socket_failed = false;
  socket_pending = false;
  role_server = false;
  role_client = true;
  scap_l4 = scap_tcp;
  sockinfo = ipv4_sock (10 * 2 ^ 24 + 2) 40000 (10 * 2 ^ 24 + 1) 80;
}

abbrev event : Event
event = record {
  event_type = 23;
  fd_info = some fd;
  rawres = some (pos 0);
  container_id = "c";
  ts = 5000;
}

abbrev conn : Connection
conn =
    connection "c" (address_endpoint (ipv4_of (10 * 2 ^ 24 + 2)) 40000)
      (address_endpoint (ipv4_of (10 * 2 ^ 24 + 1)) 80) L4Proto.tcp false

abbrev effect : Option (Connection × Bool)
effect = opened_or_closed event_ids 23 (seen_connection [] handler event (some fd))

find-handle_signal_example :
    (find connection_keys conn (handle_signal event_ids [] handler event new_tracker).0.conn_state
      ≡ status_after effect 5000 new_tracker.conn_state conn)
    × ((handle_signal event_ids [] handler event new_tracker).1 ≡ result_of effect)
find-handle_signal_example = find-handle_signal event_ids [] handler event new_tracker conn

-- It opens the connection of the client.
effect_lem : effect ≡ some (conn, true)
unfolding connection address_endpoint member is_relevant_connection
effect_lem = refl
