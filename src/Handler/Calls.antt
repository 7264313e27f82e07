-- ===== src/Handler/Calls.antt =====
-- What the connections that stand bring to the handler, and what the application asks of them by
-- their ids: src/handler.cpp. src/interface.cpp passes the application's calls on.
use libbtcnet.Base.{ℕ, Bool, false, ◌&&◌, Option, none, some, if◌then◌else◌, Bytes, is_some, map}
use libbtcnet.Base.Int.{ℤ, pos, negsuc}
use libbtcnet.Map.{lookup, modify}
use libbtcnet.Channel.{CRateLimit}
use libbtcnet.Object.{ConnectionBase, is_outgoing}
use libbtcnet.Peer
use libbtcnet.Peer.{
  LiveCall, receive_messages, malformed_message, write_buffer_full, write_buffer_ready, bytes_read,
  bytes_written, ping_timeout, Turn, on_some,
}
use libbtcnet.Live.{LiveEvent, run_live}
use libbtcnet.Handler.State.{
  Call, Client, Handler, notify_all, on_receive_messages, on_malformed_message,
  on_write_buffer_full, on_write_buffer_ready, on_bytes_read, on_bytes_written, on_ping_timeout,
}
use libbtcnet.Handler.Ops.{disconnected}

-- `OnReceiveMessages`, `OnMalformedMessage`, `OnWriteBufferFull`, `OnWriteBufferReady`,
-- `OnPingTimeout`, and the two calls that the object makes itself.
abbrev pub live_call : ℕ → LiveCall → Call
live_call id (receive_messages messages size) = on_receive_messages id messages size
live_call id malformed_message = on_malformed_message id
live_call id (write_buffer_full size) = on_write_buffer_full id size
live_call id (write_buffer_ready size) = on_write_buffer_ready id size
live_call id (bytes_read n total) = on_bytes_read id n total
live_call id (bytes_written n total) = on_bytes_written id n total
live_call id ping_timeout = on_ping_timeout id

-- What a connection that stands has done: its calls, and `OnDisconnected` at the end of
-- `DisconnectInt`.
unfoldable pub take_turn : Client → ℕ → Turn → Handler → Option Handler
unfolding disconnected
take_turn i id t h =
    let c = t.object in
    let g =
      notify_all (map (live_call c.id) t.calls)
        (record h { connected = modify id (λ _. c) h.connected }) in
    if t.closed
    then disconnected i c.id (c.connection.opts.persistent && is_outgoing c) g
    else some g

-- An event of a connection that stands.
unfoldable pub on_live : Client → ℕ → LiveEvent → Handler → Option Handler
unfolding take_turn run_live
on_live i id e h = elim (lookup id h.connected) [
  | none ↦ none
  | some c ↦ elim (run_live e c) [ none ↦ none | some t ↦ take_turn i id t h ]
]

-- `find` of an id that is not negative; `none` is `end()`.
abbrev pub find_connected : ℤ → Handler → Option ConnectionBase
find_connected id h = elim id [ pos k ↦ lookup k h.connected | negsuc _ ↦ none ]

abbrev pub set_connected : ℤ → ConnectionBase → Handler → Handler
set_connected id c h = elim id [
  | pos k ↦ record h { connected = modify k (λ _. c) h.connected }
  | negsuc _ ↦ h
]

-- A call by id: an id that is negative or that no connection has does nothing.
abbrev pub by_id : ℤ → (ConnectionBase → Option ConnectionBase) → Handler → Option Handler
by_id id op h = elim (find_connected id h) [
  | none ↦ some h
  | some c ↦ on_some (λ d. set_connected id d h) (op c)
]

-- `CloseConnection`.
unfoldable pub close_connection : ℤ → Bool → Handler → Option Handler
close_connection id immediately h =
    by_id id
      (λ c. some (if immediately then Peer.disconnect c else Peer.disconnect_when_finished c)) h

-- `PauseRecv`, `UnpauseRecv` and `ResetPingTimeout`.
unfoldable pub pause_recv : ℤ → Handler → Option Handler
pause_recv id h = by_id id Peer.pause_recv h

unfoldable pub unpause_recv : ℤ → Handler → Option Handler
unpause_recv id h = by_id id Peer.unpause_recv h

unfoldable pub reset_ping_timeout : ℤ → ℤ → Handler → Option Handler
reset_ping_timeout id seconds h = by_id id (λ c. some (Peer.reset_ping_timeout seconds c)) h

-- `SetRateLimit`; the flag tells whether libevent accepts the limits.
unfoldable pub set_rate_limit : ℤ → Bool → CRateLimit → Handler → Option Handler
set_rate_limit id accepted limit h = by_id id (Peer.set_rate_limit accepted limit) h

-- `Send`; the flag tells whether libevent takes the bytes.
unfoldable pub send : ℤ → Bool → Bytes → Handler → Option (Handler × Bool)
unfolding Peer.write
send id accepted bytes h = elim (find_connected id h) [
  | none ↦ some (h, false)
  | some c ↦ on_some (λ r. (set_connected id r.0 h, r.1)) (Peer.write accepted bytes c)
]

-- `SetIncomingRateLimit` and `SetOutgoingRateLimit`, which need the group.
unfoldable pub set_incoming_rate_limit : Bool → CRateLimit → Handler → Option Handler
set_incoming_rate_limit accepted limit h =
    if accepted && is_some h.incoming_rate
    then some (record h { incoming_rate = some limit })
    else none

unfoldable pub set_outgoing_rate_limit : Bool → CRateLimit → Handler → Option Handler
set_outgoing_rate_limit accepted limit h =
    if accepted && is_some h.outgoing_rate
    then some (record h { outgoing_rate = some limit })
    else none

-- The calls of the application at an object by its id. The flags tell whether libevent accepts the
-- limits, and takes the bytes.
pub data Request : Type 0 where
  ask_close : Bool → Request
  ask_pause ask_unpause : Request
  ask_ping : ℤ → Request
  ask_limit : Bool → CRateLimit → Request
  ask_send : Bool → Bytes → Request

-- `src/interface.cpp`: each of them goes to the function of the same name.
unfoldable pub run_request : ℤ → Request → Handler → Option (Handler × Bool)
unfolding close_connection pause_recv unpause_recv reset_ping_timeout set_rate_limit send
run_request id (ask_close immediately) h =
    on_some (λ g. (g, false)) (close_connection id immediately h)
run_request id ask_pause h = on_some (λ g. (g, false)) (pause_recv id h)
run_request id ask_unpause h = on_some (λ g. (g, false)) (unpause_recv id h)
run_request id (ask_ping seconds) h = on_some (λ g. (g, false)) (reset_ping_timeout id seconds h)
run_request id (ask_limit accepted limit) h =
    on_some (λ g. (g, false)) (set_rate_limit id accepted limit h)
run_request id (ask_send accepted bytes) h = send id accepted bytes h
