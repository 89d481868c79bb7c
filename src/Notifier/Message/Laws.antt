-- ===== src/Notifier/Message/Laws.antt =====
-- The per-container limit of a message.
use Prim.Native.String.{String}
use collector.Prelude.{
  ℕ, ◌+◌, ◌-◌, ◌≡◌, refl, Bool, true, false, not, ◌&&◌, none, some, List, [], ◌∷◌, arith, min,
  Bool-cases, inl, inr, if◌then◌else◌,
}
use collector.Prelude.Int.{pos}
use collector.KeyMap.{find}
use collector.Net.Endpoint.{Connection}
use collector.ConnStatus.{ConnStatus, is_active}
use collector.RateLimit.{CountLimiter, count_limiter, count_allow}
use collector.RateLimit.Count.{str_same, seen, seen-count_allow, seen_cong, one_more}
use collector.Tracker.State.{ConnMap}
use collector.Notifier.Proto.{NetworkConnection, conn_to_proto}
use collector.Notifier.Message.{add_from, add_connections, closing}

abbrev pub is_closing : NetworkConnection → Bool
is_closing m = elim m.close_timestamp [ none ↦ false | some _ ↦ true ]

-- The events of a container that open a connection, and those that close one: in a delta, and in a
-- message.
unfoldable pub delta_events : Bool → String → ConnMap → ℕ
delta_events closes container [] = 0
delta_events closes container ((conn, status) ∷ rest) =
    (if str_same conn.container container
        && (if closes then not (is_active status) else is_active status)
      then 1
      else 0)
    + delta_events closes container rest

pub message_events : Bool → String → List NetworkConnection → ℕ
message_events closes container [] = 0
message_events closes container (m ∷ rest) =
    (if str_same m.container_id container && (if closes then is_closing m else not (is_closing m))
      then 1
      else 0)
    + message_events closes container rest

container-conn_to_proto :
    (c : Connection)
    → ((conn_to_proto c).container_id ≡ c.container) × (is_closing (conn_to_proto c) ≡ false)
unfolding conn_to_proto
container-conn_to_proto c = (refl, refl)

container-closing :
    (c : Connection) (s : ConnStatus)
    → ((closing (conn_to_proto c) s).container_id ≡ c.container)
      × (is_closing (closing (conn_to_proto c) s) ≡ true)
unfolding closing conn_to_proto
container-closing c s = (refl, refl)

closes-add_from :
    (l : CountLimiter) (container : String) (delta : ConnMap)
    → message_events true container (add_from l delta) ≡ delta_events true container delta
unfolding add_from message_events delta_events
closes-add_from l container [] = refl
closes-add_from l container ((c, s) ∷ delta) = ground (
  arith,
  container-conn_to_proto c,
  container-closing c s,
  closes-add_from l container delta,
  closes-add_from (count_allow l c.container).0 container delta,
)

opens-add_from :
    (n m : ℕ) (l : CountLimiter) (container : String) (delta : ConnMap)
    → l.count ≡ pos n
    → seen l container ≡ pos m
    → message_events false container (add_from l delta)
      ≡ min (delta_events false container delta) (n - m)
unfolding add_from message_events delta_events
opens-add_from n m l container [] hc hs = omega arith
opens-add_from n m l container ((c, s) ∷ delta) hc hs =
    elim (Bool-cases (str_same c.container container)) [
      | inl e ↦ ground (
        arith,
        e,
        container-conn_to_proto c,
        container-closing c s,
        seen-count_allow l c.container container,
        seen_cong l c.container container e,
        one_more m,
        opens-add_from n m l container delta,
        opens-add_from n (m + 1) (count_allow l c.container).0 container delta,
      )
      | inr e ↦ ground (
        arith,
        e,
        container-conn_to_proto c,
        container-closing c s,
        seen-count_allow l c.container container,
        opens-add_from n m l container delta,
        opens-add_from n m (count_allow l c.container).0 container delta,
      )
    ]

-- A message has every closing event of a delta, and of the opening events of each container the first
-- n, for the limit n, or as many as there are.
pub message_events-add_connections :
    (n : ℕ) (container : String) (delta : ConnMap)
    → (message_events true container (add_connections (pos n) delta)
        ≡ delta_events true container delta)
      × (message_events false container (add_connections (pos n) delta)
          ≡ min (delta_events false container delta) n)
unfolding add_connections count_limiter find
message_events-add_connections n container delta = (
  closes-add_from _ container delta,
  omega (arith, opens-add_from n 0 (count_limiter (pos n)) container delta refl refl),
)
