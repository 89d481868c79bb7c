-- ===== src/Signal/Laws.antt =====
-- What HandleSignal does to the tracker, and the two ends of a connection.
use Prim.Native.String.{String}
use text.Mathlib.Text.{◌==◌ as str_eq}
use collector.Prelude.{
  ℕ, ◌/◌, ◌≡◌, refl, ap, ◌∙◌, subst, Bool, true, false, ◌&&◌, ◌||◌, not, Option, none, some, List,
  [], ◌∷◌, arith, ◌⊎◌, inl, inr, if◌then◌else◌, Bool-cases,
}
use collector.Prelude.Int.{pos}
use collector.KeyMap.{find, member}
use collector.KeyMap.Keys.{string_keys, nat_keys}
use collector.Net.Endpoint.{L4Proto, Connection, connection, conn_l4proto, is_relevant_connection}
use collector.Net.Keys.{connection_keys}
use collector.ConnStatus.{conn_status}
use collector.Tracker.State.{Tracker, ConnMap}
use collector.Tracker.Update.{update_connection, emplace_or_update_conn}
use collector.Tracker.Update.Laws.{later, find-emplace_or_update}
use collector.Signal.Effect.{
  closing_names, opening_names, is_named, seen_connection, opened_or_closed,
}
use collector.Signal.{
  Modifier, Handler, Event, FdInfo, Result, get_connection, handle_signal, modifier_of,
  relevant_events, modifier_table, set_all, endpoints_of,
}

-- What every connection is that is made of an event.
pub record IsReportable (c : Connection) : Type 0 where
  pub has_container : str_eq c.container "" ≡ false
  pub transport : (conn_l4proto c ≡ L4Proto.tcp) ⊎ (conn_l4proto c ≡ L4Proto.udp)

abbrev pub relevant : Option Connection → Option Connection
relevant none = none
relevant (some c) = if is_relevant_connection c then some c else none

abbrev with_flag : Bool → Option Connection → Option (Connection × Bool)
with_flag added none = none
with_flag added (some c) = some (c, added)

abbrev taken : Modifier → Option Connection → Option (Connection × Bool)
taken Modifier.invalid c = none
taken Modifier.add c = with_flag true (relevant c)
taken Modifier.remove c = with_flag false (relevant c)

-- The status of a key after it.
abbrev pub status_after :
    Option (Connection × Bool) → ℕ → ConnMap → Connection → Option collector.ConnStatus.ConnStatus
status_after none ts conns k = find connection_keys k conns
status_after (some (c, added)) ts conns k =
    if connection_keys.same c k
    then later (conn_status (pos (ts / 1000)) added) (find connection_keys c conns)
    else find connection_keys k conns

abbrev pub result_of : Option (Connection × Bool) → Result
result_of none = Result.ignored
result_of (some _) = Result.processed

find-update_connection :
    (c k : Connection) (ts : ℕ) (added : Bool) (t : Tracker)
    → find connection_keys k (update_connection c (pos (ts / 1000)) added t).conn_state
      ≡ status_after (some (c, added)) ts t.conn_state k
unfolding update_connection emplace_or_update_conn
find-update_connection c k ts added t =
    (find-emplace_or_update connection_keys c k (conn_status (pos (ts / 1000)) added)
      t.conn_state).0

abbrev connected : Option Connection → ℕ → Tracker → Bool → Tracker × Result
connected c ts t added = elim c [
  | none ↦ (t, Result.ignored)
  | some conn ↦
      if not (is_relevant_connection conn)
      then (t, Result.ignored)
      else (update_connection conn (pos (ts / 1000)) added t, Result.processed)
]

abbrev stepped : Modifier → Option Connection → ℕ → Tracker → Tracker × Result
stepped m c ts t = elim m [
  | Modifier.invalid ↦ (t, Result.ignored)
  | Modifier.add ↦ connected c ts t true
  | Modifier.remove ↦ connected c ts t false
]

find-stepped :
    (m : Modifier) (c : Option Connection) (ts : ℕ) (t : Tracker) (k : Connection)
    → (find connection_keys k (stepped m c ts t).0.conn_state
        ≡ status_after (taken m c) ts t.conn_state k)
      × ((stepped m c ts t).1 ≡ result_of (taken m c))
find-stepped Modifier.invalid c ts t k = (refl, refl)
find-stepped Modifier.add none ts t k = (refl, refl)
find-stepped Modifier.remove none ts t k = (refl, refl)
find-stepped Modifier.add (some c) ts t k = ground (arith, find-update_connection c k ts true t)
find-stepped Modifier.remove (some c) ts t k = ground (arith, find-update_connection c k ts false t)

-- The table of modifiers as its names.
abbrev adds : List String → List (String × Modifier)
adds [] = []
adds (name ∷ names) = (name, Modifier.add) ∷ adds names

set_all-adds :
    (event_ids : String → List ℕ) (send_recv_types : List ℕ) (names : List String) (id : ℕ)
    (value : Modifier)
    → set_all event_ids send_recv_types (adds names) id value
      ≡ (if is_named event_ids names id then Modifier.add else value)
unfolding set_all
set_all-adds event_ids types [] id value = refl
set_all-adds event_ids types (name ∷ names) id value = ground (
  arith,
  set_all-adds event_ids types names id
      (if member nat_keys id (event_ids name) then Modifier.add else value),
)

closing-value :
    (shut closed : Bool)
    → (if shut then Modifier.remove else if closed then Modifier.remove else Modifier.invalid)
      ≡ (if closed || (shut || false) then Modifier.remove else Modifier.invalid)
closing-value true true = refl
closing-value true false = refl
closing-value false true = refl
closing-value false false = refl

-- Openings are set after closings.
modifier_of-names :
    (event_ids : String → List ℕ) (send_recv_types : List ℕ) (id : ℕ)
    → modifier_of event_ids send_recv_types id ≡ (
        if is_named event_ids opening_names id
        then Modifier.add
        else if is_named event_ids closing_names id
        then Modifier.remove
        else Modifier.invalid)
unfolding modifier_of set_all modifier_table
modifier_of-names event_ids types id =
    let shut = member nat_keys id (event_ids "shutdown<") in
    let closed = member nat_keys id (event_ids "close<") in
    let value =
      if shut then Modifier.remove else if closed then Modifier.remove else Modifier.invalid in
    set_all-adds event_ids types opening_names id value
    ∙ ap (λ m. if is_named event_ids opening_names id then Modifier.add else m)
        (closing-value shut closed)

effect_of : Bool → Bool → Option Connection → Option (Connection × Bool)
effect_of opens closes none = none
effect_of opens closes (some c) =
    if opens then some (c, true) else if closes then some (c, false) else none

taken-effect_of :
    (opens closes : Bool) (c : Option Connection)
    → taken (if opens then Modifier.add else if closes then Modifier.remove else Modifier.invalid) c
      ≡ effect_of opens closes (relevant c)
unfolding effect_of
taken-effect_of opens closes none = ground arith
taken-effect_of opens closes (some c) = ground arith

opened-effect_of :
    (event_ids : String → List ℕ) (id : ℕ) (c : Option Connection)
    → effect_of (is_named event_ids opening_names id) (is_named event_ids closing_names id) c
      ≡ opened_or_closed event_ids id c
unfolding effect_of
opened-effect_of event_ids id none = refl
opened-effect_of event_ids id (some c) = refl

module _ (event_ids : String → List ℕ) (send_recv_types : List ℕ) (h : Handler) (evt : Event) where
  relevant-get_connection :
      relevant (get_connection event_ids send_recv_types h evt)
      ≡ seen_connection send_recv_types h evt evt.fd_info
  unfolding get_connection endpoints_of
  relevant-get_connection = ground arith

  abbrev taken_of : Option (Connection × Bool)
  taken_of =
      opened_or_closed event_ids evt.event_type (seen_connection send_recv_types h evt evt.fd_info)

  taken-taken_of :
      taken
        (modifier_of event_ids send_recv_types evt.event_type)
        (get_connection event_ids send_recv_types h evt)
      ≡ taken_of
  taken-taken_of =
      let opens = is_named event_ids opening_names evt.event_type in
      let closes = is_named event_ids closing_names evt.event_type in
      let c = get_connection event_ids send_recv_types h evt in
      ap (λ m. taken m c) (modifier_of-names event_ids send_recv_types evt.event_type)
      ∙ taken-effect_of opens closes c
      ∙ ap (effect_of opens closes) relevant-get_connection
      ∙ opened-effect_of event_ids evt.event_type
          (seen_connection send_recv_types h evt evt.fd_info)

  abbrev handled : Tracker → Tracker × Result
  handled t = handle_signal event_ids send_recv_types h evt t

  -- An event of one of the names of the opening or the closing calls, that has succeeded in a container on
  -- a socket of TCP or UDP and of an IP family with a role, to an address that is not local, is processed:
  -- its connection, whose local end is the destination for a server and the source for a client, gets the
  -- event's time in microseconds and is active exactly if the name opens, unless its stored status is as
  -- late. Every other event is ignored, also one that collects the status of a connection that has failed
  -- or is pending and that neither sends nor receives; and every other connection keeps its status.
  pub find-handle_signal :
      (t : Tracker) (k : Connection)
      → (find connection_keys k (handled t).0.conn_state
          ≡ status_after taken_of evt.ts t.conn_state k)
        × ((handled t).1 ≡ result_of taken_of)
  unfolding handle_signal
  find-handle_signal t k =
      let m = modifier_of event_ids send_recv_types evt.event_type in
      let c = get_connection event_ids send_recv_types h evt in
      subst
        (λ effect.
          (find connection_keys k (stepped m c evt.ts t).0.conn_state
            ≡ status_after effect evt.ts t.conn_state k)
          × ((stepped m c evt.ts t).1 ≡ result_of effect))
        taken-taken_of (find-stepped m c evt.ts t k)

  -- A connection that is made of an event has a container and is of TCP or UDP.
  get_connection-IsReportable :
      (c : Connection) → get_connection event_ids send_recv_types h evt ≡ some c → IsReportable c
  unfolding get_connection connection conn_l4proto
  get_connection-IsReportable c e = record {
    has_container = ground arith;
    transport = ground arith;
  }

abbrev listed : String → List (String × Modifier) → Bool
listed name [] = false
listed name ((other, _) ∷ table) = string_keys.same other name || listed name table

abbrev pub all_listed : List String → List (String × Modifier) → Bool
all_listed [] table = true
all_listed (name ∷ rest) table = listed name table && all_listed rest table

-- The event as the other end of the connection would see it.
abbrev pub with_role : Bool → FdInfo → FdInfo
with_role server fd = record fd { role_server = server; role_client = not server }

abbrev pub as_role : Bool → FdInfo → Event → Event
as_role server fd evt = record evt { fd_info = some (with_role server fd) }

module _ (event_ids : String → List ℕ) (send_recv_types : List ℕ) (h : Handler) (evt : Event)
    (fd : FdInfo) where
  -- The server of a connection sees what the client sees, with the ends swapped and the other role.
  get_connection-swapped :
      (c : Connection)
      → get_connection event_ids send_recv_types h (as_role false fd evt) ≡ some c
      → get_connection event_ids send_recv_types h (as_role true fd evt)
        ≡ some (connection c.container c.remote c.local (conn_l4proto c) true)
  unfolding get_connection connection conn_l4proto
  get_connection-swapped c e = ground arith

-- Every event that the handler asks for is in the table of modifiers.
relevant_events-modifier_table :
    (h : Handler) → all_listed (relevant_events h) modifier_table ≡ true
unfolding relevant_events modifier_table
relevant_events-modifier_table h = elim (Bool-cases h.track_send_recv) [
  | inl e ↦ rw e refl
  | inr e ↦ rw e refl
]
