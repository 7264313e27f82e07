-- ===== src/Handler/Loop.antt =====
-- The life of `CConnectionHandlerInt` (src/handler.cpp): start, requests, events, shutdown.
use libbtcnet.Base.{
  ℕ, Bool, true, false, not, ◌&&◌, ◌||◌, List, [], ◌∷◌, Option, none, some, ◌==◌, if◌then◌else◌,
  length, take, min, is_empty,
}
use libbtcnet.Base.Int.{ℤ, pos, negsuc, ◌-ℤ◌, ltb_ℤ}
use libbtcnet.Connection.{SockAddr, CConnection, is_resolve_only}
use libbtcnet.Channel.{unlimited_rate, size_of}
use libbtcnet.Map.{Map, lookup, modify, emplace}
use libbtcnet.Listener.{new_listener, bind_listener, enable_listener, unbind_listener}
use libbtcnet.ResolveOnly.{new_resolve, resolve}
use libbtcnet.Object.{
  ConnectionBase, ConnKind, incoming, direct, proxy, dns, new_connection, is_outgoing,
}
use libbtcnet.Transport.{connect}
use libbtcnet.Handler.State.{
  Client, Handler, notify, next_index, on_need_outgoing_connections, on_connection_failure,
  on_disconnected, on_shutdown, on_startup,
}
use libbtcnet.Handler.Ops.{uncount, on_connecting, on_resolving, listen_failed}

-- A fresh id is taken.
abbrev pub take_index : Handler → Handler
take_index h = record h { connection_index = next_index h.connection_index }

-- The class of the new connection.
abbrev pub kind_for : CConnection → ConnKind
kind_for c = if c.proxy.base.is_set then proxy else if c.base.is_dns then dns else direct

-- `StartConnection`. A lookup through a proxy is still to be written in the source.
unfoldable pub start_connection : Client → CConnection → Handler → Option Handler
unfolding on_connecting on_resolving
start_connection i conn h =
    let id = h.connection_index in
    let g = take_index h in
    if conn.base.is_dns && is_resolve_only conn.opts.do_resolve
    then if conn.proxy.base.is_set
      then some g
      else on_resolving i id resolve
          (record g { dns_resolves = emplace id (new_resolve conn id) g.dns_resolves })
    else on_connecting i id connect (record g {
      connecting = emplace id (new_connection (kind_for conn) conn id none) g.connecting;
    })

-- `OnIncomingConnection`.
unfoldable pub accept_conn : Client → CConnection → SockAddr → Handler → Option Handler
unfolding on_connecting
accept_conn i bind address h =
    let id = h.connection_index in
    let g = take_index h in
    on_connecting i id connect (record g {
      connecting = emplace id (new_connection incoming bind id (some address)) g.connecting;
    })

-- `Bind`; the flags tell whether libevent could bind the address, and enable the listener. The event
-- base is there from `Start` until the end of `PumpEvents` behind a shutdown.
unfoldable pub bind : Bool → Bool → CConnection → Handler → Option (Handler × Bool)
unfolding new_listener bind_listener enable_listener
bind bound done conn h =
    let id = h.connection_index in
    let g = take_index h in
    elim (bind_listener h.running bound (new_listener id conn)) [
      | none ↦ none
      | some (l, ret) ↦
          if ret
          then elim (enable_listener done l) [
            | none ↦ none
            | some (k, _) ↦ some (record g { binds = emplace id k g.binds }, true)
          ]
          else some (listen_failed id conn g, false)
    ]

-- `CConnListener::accept_conn`, called by libevent for one of the listeners.
unfoldable pub on_accept : Client → ℕ → SockAddr → Handler → Option Handler
unfolding accept_conn
on_accept i id address h = elim (lookup id h.binds) [
  | none ↦ none
  | some l ↦ accept_conn i l.connection address h
]

-- `CConnListener::listen_error_cb`.
unfoldable pub on_listen_error : ℕ → Handler → Option Handler
unfolding unbind_listener
on_listen_error id h = elim (lookup id h.binds) [
  | none ↦ none
  | some l ↦
      some
        (listen_failed l.id l.connection (record h { binds = modify id unbind_listener h.binds }))
]

abbrev pub min_ℤ : ℤ → ℤ → ℤ
min_ℤ a b = if ltb_ℤ b a then b else a

-- `need` before its cast to `size_t`.
abbrev pub needed : Handler → ℤ
needed h =
    min_ℤ (pos 8) (h.outgoing_conn_limit -ℤ h.outgoing_conn_count -ℤ pos (length h.connecting))

-- The candidates up to `end`: `need` is cast to `size_t`.
abbrev pub chosen : ℤ → List CConnection → List CConnection
chosen need conns = take (min (length conns) (size_of need)) conns

unfoldable pub start_connections : Client → List CConnection → Handler → Option Handler
unfolding start_connection
start_connections i [] h = some h
start_connections i (c ∷ cs) h = elim (if c.base.is_set then start_connection i c h else some h) [
  | none ↦ none
  | some g ↦ start_connections i cs g
]

abbrev pub is_zero : ℤ → Bool
is_zero (pos n) = n == 0
is_zero (negsuc n) = false

-- `RequestOutgoingInt`.
unfoldable pub request_outgoing : Client → Handler → Option Handler
unfolding start_connections
request_outgoing i h =
    let need = needed h in
    let g = notify (on_need_outgoing_connections need) h in
    if is_zero need then some h else start_connections i (chosen need (i.candidates g.calls need)) g

-- The two loops of `ShutdownInt`.
unfoldable pub disconnect_all : Map ConnectionBase → Handler → Handler
disconnect_all [] h = h
disconnect_all ((id, c) ∷ m) h = disconnect_all m (notify (on_disconnected id false) (uncount c h))

unfoldable pub fail_all : Map ConnectionBase → Handler → Handler
fail_all [] h = h
fail_all ((id, c) ∷ m) h =
    fail_all m (
      if is_outgoing c then notify (on_connection_failure c.connection c.connection false) h else h)

abbrev pub all_done : Handler → Bool
all_done h =
    is_empty h.connecting
    && is_empty h.connected
    && is_empty h.binds
    && is_empty h.dns_resolves
    && is_zero h.outgoing_conn_count
    && is_zero h.incoming_conn_count

-- `ShutdownInt`, with the assertions at its end. It runs from an event that `Start` makes, so that
-- there is an event base to break the loop of.
unfoldable pub shutdown_int : Handler → Option Handler
unfolding disconnect_all fail_all
shutdown_int h =
    if h.shutdown
    then some h
    else let a =
        disconnect_all h.connected (record h { connected = []; binds = []; shutdown = true }) in
      let b = fail_all a.connecting a in
      let d = record b {
        connecting = [];
        dns_resolves = [];
        incoming_rate = none;
        outgoing_rate = none;
        events = false;
        request_active = false;
        shutdown_active = false;
      } in
      if all_done d then some d else none

-- `Start`.
unfoldable pub start : ℤ → Handler → Option Handler
start limit h =
    if not (is_zero h.outgoing_conn_count && is_zero h.incoming_conn_count) || h.running || h.events
    then none
    else some
        (record (notify on_startup (record h {
          shutdown = false;
          outgoing_conn_limit = limit;
          incoming_rate = some unlimited_rate;
          outgoing_rate = some unlimited_rate;
          running = true;
          events = true;
        })) { request_active = true })

-- `Shutdown`.
unfoldable pub shutdown_request : Handler → Option Handler
shutdown_request h = if h.events then some (record h { shutdown_active = true }) else none

-- The end of `PumpEvents` behind a shutdown.
abbrev pub pump_end : Handler → Handler
pump_end h = notify on_shutdown (record h { running = false })

-- `PumpEvents`; `loop` is one run of libevent's loop.
unfoldable pub pump_events : (Handler → Option Handler) → Handler → Option (Handler × Bool)
pump_events loop h = if not h.running || h.shutdown then some (h, false) else elim (loop h) [
  | none ↦ none
  | some g ↦ if g.shutdown then some (pump_end g, false) else some (g, true)
]
