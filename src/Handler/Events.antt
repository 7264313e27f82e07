-- ===== src/Handler/Events.antt =====
-- The runs of the handler (src/handler.cpp) as sequences of the events that libevent, the resolver,
-- the proxies and the application may bring.
pub mod Keeps
pub mod Serves
pub mod Tests
use libbtcnet.Base.{
  ℕ, ◌+◌, ◌≤◌, Bool, true, false, not, ◌&&◌, ◌||◌, Option, none, some, ◌≡◌, is_some,
}
use libbtcnet.Base.Int.{ℤ}
use libbtcnet.Map.{lookup}
use libbtcnet.Connection.{SockAddr, CConnection}
use libbtcnet.Peer.{on_some}
use libbtcnet.Transport.Reports.{ConnEvent, run_event}
use libbtcnet.Transport.Phases.{ConnBytes, conn_raises}
use libbtcnet.Live.{LiveEvent, raises}
use libbtcnet.Live.Healthy.{EventBytes}
use libbtcnet.Handler.State.{Client, Handler, new_handler, max_index}
use libbtcnet.Handler.Ops.{on_connecting, on_resolving}
use libbtcnet.Handler.Loop.{
  bind, on_accept, on_listen_error, request_outgoing, shutdown_int, start, pump_end, is_zero,
}
use libbtcnet.Handler.Calls.{on_live, Request, run_request}
use libbtcnet.Handler.Requests.{Accepted}
use libbtcnet.Handler.Run.{ResolveEvent, run_resolve, request_width}
use libbtcnet.Handler.Sound.{Usable}
use libbtcnet.Handler.Sound.Looks.{look_raises}
use libbtcnet.Handler.Sound.Starts.{AllUsable, offered}

-- An event of an object with an id, a call of the application, or one of the handler's own events.
pub data Event : Type 0 where
  of_connecting : ℕ → ConnEvent → Event
  of_lookup : ℕ → ResolveEvent → Event
  of_live : ℕ → LiveEvent → Event
  of_listener : ℕ → Option SockAddr → Event
  asked : ℤ → Request → Event
  bound : Bool → Bool → CConnection → Event
  need_connections shut_down pump_ended : Event
  started : ℤ → Event

-- What the handler does; `none` is a failed assertion. A listener reports a new connection, or an
-- error.
unfoldable pub run : Client → Event → Handler → Option Handler
run i (of_connecting id e) h = on_connecting i id (run_event e) h
run i (of_lookup id e) h = on_resolving i id (run_resolve e) h
run i (of_live id e) h = on_live i id e h
run i (of_listener id none) h = on_listen_error id h
run i (of_listener id (some a)) h = on_accept i id a h
run i (asked id r) h = on_some (λ p. p.0) (run_request id r h)
run i (bound could_bind enabled c) h = on_some (λ p. p.0) (bind could_bind enabled c h)
run i need_connections h = request_outgoing i h
run i shut_down h = shutdown_int h
run i pump_ended h = some (pump_end h)
run i (started limit) h = start limit h

-- The object is there and passes a test.
abbrev pub holds {ℓ} : {A : Type ℓ} → (A → Bool) → Option A → Bool
holds p none = false
holds p (some a) = p a

-- Before `Start` there is nothing left of an earlier one.
abbrev pub can_start : Handler → Bool
can_start h =
    not (
      not (is_zero h.outgoing_conn_count && is_zero h.incoming_conn_count) || h.running || h.events)

-- When an event may come: what it ends is under way, what it reads is enabled, and what is brought
-- are bytes. The application binds only behind `Start`, asks for connections and listeners with a
-- configuration that suits them and for limits that libevent accepts, and an answer to a request must
-- fit into the ids that are left. The event of the shutdown exists only behind `Start`.
abbrev pub MayCome : Client → Event → Handler → Type 0
MayCome i (of_connecting id e) h =
    ConnBytes e × (holds (conn_raises e) (lookup id h.connecting) ≡ true)
MayCome i (of_lookup id e) h = holds (look_raises e) (lookup id h.dns_resolves) ≡ true
MayCome i (of_live id e) h = EventBytes e × (holds (raises e) (lookup id h.connected) ≡ true)
MayCome i (of_listener id a) h = is_some (lookup id h.binds) ≡ true
MayCome i (asked id r) h = Accepted r
MayCome i (bound could_bind enabled c) h = (h.running ≡ true) × Usable c.net_config
MayCome i need_connections h =
    (h.events ≡ true)
    × (h.connection_index + request_width i h ≤ max_index)
    × AllUsable (offered i h)
MayCome i shut_down h = h.running ≡ true
MayCome i pump_ended h = (h.running ≡ true) × (h.shutdown ≡ true)
MayCome i (started limit) h = can_start h ≡ true

-- The handlers of a run from a new one, by events that may come, while 16 ids are left before they
-- wrap around.
pub data Run (i : Client) : Handler → Type 0 where
  run_new : Run i new_handler
  run_next :
      {h g : Handler} (x : Event)
      → Run i h
      → h.connection_index + 16 ≤ max_index
      → MayCome i x h
      → run i x h ≡ some g
      → Run i g
