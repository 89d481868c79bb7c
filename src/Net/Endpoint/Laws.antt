-- ===== src/Net/Endpoint/Laws.antt =====
-- The role and the protocol that a Connection packs in its flags.
use Prim.Native.String.{String}
use collector.Prelude.{◌≡◌, refl, Bool, true, false}
use collector.Net.Endpoint.{Endpoint, L4Proto, connection, conn_l4proto, is_server}

-- A connection has the protocol and the role that it is made of.
pub conn_l4proto-connection :
    (container : String) (local remote : Endpoint) (l4proto : L4Proto) (server : Bool)
    → (conn_l4proto (connection container local remote l4proto server) ≡ l4proto)
      × (is_server (connection container local remote l4proto server) ≡ server)
unfolding conn_l4proto connection is_server
conn_l4proto-connection container local remote L4Proto.unknown true = (refl, refl)
conn_l4proto-connection container local remote L4Proto.unknown false = (refl, refl)
conn_l4proto-connection container local remote L4Proto.tcp true = (refl, refl)
conn_l4proto-connection container local remote L4Proto.tcp false = (refl, refl)
conn_l4proto-connection container local remote L4Proto.udp true = (refl, refl)
conn_l4proto-connection container local remote L4Proto.udp false = (refl, refl)
conn_l4proto-connection container local remote L4Proto.icmp true = (refl, refl)
conn_l4proto-connection container local remote L4Proto.icmp false = (refl, refl)
