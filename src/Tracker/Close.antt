-- ===== src/Tracker/Close.antt =====
-- CloseConnections and CloseConnectionsOnExternalIPsConfigChange (collector/lib/ConnTracker.cpp).
pub mod Laws
use collector.Prelude.{Bool, true, false, ◌&&◌, not, xor, List, [], ◌∷◌, if◌then◌else◌}
use collector.KeyMap.{KeyEq, UnorderedMap, insert}
use collector.Net.Address.{is_canonical_external_ip}
use collector.Net.Endpoint.{Connection, endpoint_address, is_server}
use collector.Net.Keys.{connection_keys}
use collector.ConnStatus.{ConnStatus, is_active, set_active}
use collector.ExternalIps.{ExternalIpsConfig, is_enabled, ingress, egress}
use collector.Tracker.State.{Tracker, ConnMap}
use collector.Tracker.Normalize.{should_normalize_connection}

-- The old state and the delta after the loop.
unfoldable pub close_connections {ℓ} :
    {K : Type ℓ}
    → KeyEq K
    → (K → Bool)
    → UnorderedMap K ConnStatus
    → UnorderedMap K ConnStatus
    → UnorderedMap K ConnStatus × UnorderedMap K ConnStatus
close_connections E predicate [] delta_conn = ([], delta_conn)
close_connections E predicate ((key, status) ∷ rest) delta_conn =
    let closed = if is_active status then set_active status false else status in
    let (old, delta) =
      close_connections E predicate rest
        (if predicate key then insert E key closed delta_conn else delta_conn) in
    if predicate key then (old, delta) else ((key, status) ∷ old, delta)

unfoldable pub should_close : Tracker → Connection → Bool → Bool
should_close t conn enabling_ext_ips =
    let canonical = is_canonical_external_ip (endpoint_address conn.remote) in
    if enabling_ext_ips then canonical else not canonical && should_normalize_connection t conn

unfoldable pub closes_egress : Tracker → Bool → Connection → Bool
closes_egress t enabling conn = not (is_server conn) && should_close t conn enabling

unfoldable pub closes_ingress : Tracker → Bool → Connection → Bool
closes_ingress t enabling conn = is_server conn && should_close t conn enabling

unfoldable pub close_connections_on_external_ips_config_change :
    ExternalIpsConfig → Tracker → ConnMap → ConnMap → ConnMap × ConnMap
close_connections_on_external_ips_config_change prev_config t old_conn_state delta_conn =
    let ingress_now = is_enabled t.external_ips_config ingress in
    let egress_now = is_enabled t.external_ips_config egress in
    let (old, delta) =
      if xor egress_now (is_enabled prev_config egress)
      then close_connections connection_keys (closes_egress t egress_now) old_conn_state delta_conn
      else (old_conn_state, delta_conn) in
    if xor ingress_now (is_enabled prev_config ingress)
    then close_connections connection_keys (closes_ingress t ingress_now) old delta
    else (old, delta)
