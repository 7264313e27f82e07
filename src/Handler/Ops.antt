-- ===== src/Handler/Ops.antt =====
-- What the connections report to `CConnectionHandlerInt` (src/handler.cpp).
use libbtcnet.Base.{ℕ, Bool, not, ◌&&◌, List, Option, none, some, if◌then◌else◌}
use libbtcnet.Base.Int.{pos, ◌+ℤ◌, ◌-ℤ◌}
use libbtcnet.Connection.{CConnection}
use libbtcnet.Map.{lookup, erase, emplace, modify}
use libbtcnet.ResolveOnly.{
  CResolveOnly, ResolveReport, resolving, resolve_failure, resolve_complete, retry_resolve,
}
use libbtcnet.Object.{
  ConnectionBase, ConnectionFailureType, connect_failed, resolve_failed, proxy_failed, Report,
  pending, connection_failure, incoming_connected, outgoing_connected, is_outgoing, retry, go_live,
}
use libbtcnet.Channel.{incoming_rate_limit, outgoing_rate_limit}
use libbtcnet.Peer.{on_some}
use libbtcnet.Handler.State.{
  Call, Client, Handler, notify, answer, next_index, request_again, on_bind_failure,
  on_dns_response, on_dns_failure, on_connection_failure, on_proxy_failure, on_outgoing_connection,
  on_incoming_connection, on_disconnected, on_ready_for_first_send,
}

-- The object goes back among the connecting ones, under a new id, and waits for its next attempt.
unfoldable pub requeue : ConnectionBase → Handler → Handler
requeue c h = record h {
  connection_index = next_index h.connection_index;
  connecting =
      modify h.connection_index (retry h.connection_index)
        (emplace h.connection_index c h.connecting);
}

-- The end of `OnDisconnected` and of `OnConnectionFailure`, behind the call of the interface.
unfoldable pub requeue_or_request : Client → Bool → ConnectionBase → Handler → Handler
unfolding requeue
requeue_or_request i retry c h = if retry && answer i h then requeue c h else request_again h

abbrev pub failure_call : ConnectionFailureType → CConnection → Bool → Call
failure_call proxy_failed failed retry = on_proxy_failure failed retry
failure_call resolve_failed failed retry = on_dns_failure failed retry
failure_call connect_failed failed retry = on_connection_failure failed failed retry

-- `OnConnectionFailure`.
unfoldable pub connection_failed :
    Client → ℕ → ConnectionFailureType → CConnection → Bool → Handler → Option Handler
unfolding requeue_or_request
connection_failed i id type failed retry h = elim (lookup id h.connecting) [
  | none ↦ none
  | some c ↦ some (
      requeue_or_request i (retry && not h.shutdown) c (
        notify (failure_call type failed (retry && not h.shutdown))
          (record h { connecting = erase id h.connecting })))
]

-- One connection less.
abbrev pub uncount : ConnectionBase → Handler → Handler
uncount c h =
    if is_outgoing c
    then record h { outgoing_conn_count = h.outgoing_conn_count -ℤ pos 1 }
    else record h { incoming_conn_count = h.incoming_conn_count -ℤ pos 1 }

-- `OnDisconnected`.
unfoldable pub disconnected : Client → ℕ → Bool → Handler → Option Handler
unfolding requeue_or_request
disconnected i id reconnect h = elim (lookup id h.connected) [
  | none ↦ none
  | some c ↦ some (
      requeue_or_request i (reconnect && not h.shutdown) c (
        notify (on_disconnected id (reconnect && not h.shutdown))
          (uncount c (record h { connected = erase id h.connected }))))
]

-- The parts of the two `On...Connected` behind the interface's consent.
abbrev pub admit_incoming : ℕ → ConnectionBase → Handler → Handler
admit_incoming id c h = record h {
  connected = emplace id c h.connected;
  incoming_conn_count = h.incoming_conn_count +ℤ pos 1;
}

abbrev pub admit_outgoing : ℕ → ConnectionBase → Handler → Handler
admit_outgoing id c h = notify (on_ready_for_first_send id) (record h {
  connected = emplace id c h.connected;
  outgoing_conn_count = h.outgoing_conn_count +ℤ pos 1;
})

-- `OnIncomingConnected`.
unfoldable pub incoming_up : Client → ℕ → CConnection → CConnection → Handler → Option Handler
unfolding go_live
incoming_up i id conn resolved h = elim (lookup id h.connecting) [
  | none ↦ none
  | some c ↦
      let g =
        notify (on_incoming_connection id conn resolved)
          (record h { connecting = erase id h.connecting }) in
      if answer i g
      then on_some (λ d. admit_incoming id d g) (go_live incoming_rate_limit c)
      else some g
]

-- `OnOutgoingConnected`.
unfoldable pub outgoing_up : Client → ℕ → CConnection → CConnection → Handler → Option Handler
unfolding go_live
outgoing_up i id conn resolved h = elim (lookup id h.connecting) [
  | none ↦ none
  | some c ↦
      let g =
        notify (on_outgoing_connection id conn resolved)
          (record h { connecting = erase id h.connecting }) in
      if answer i g
      then on_some (λ d. admit_outgoing id d g) (go_live outgoing_rate_limit c)
      else some g
]

-- An object of the connecting ones has changed, and reports. It names itself by its own id.
unfoldable pub take_report : Client → ℕ → ConnectionBase → Report → Handler → Option Handler
unfolding connection_failed incoming_up outgoing_up
take_report i id c r h =
    let g = record h { connecting = modify id (λ _. c) h.connecting } in
    elim r [
      | pending ↦ some g
      | connection_failure t f b ↦ connection_failed i c.id t f b g
      | incoming_connected resolved ↦ incoming_up i c.id c.connection resolved g
      | outgoing_connected resolved ↦ outgoing_up i c.id c.connection resolved g
    ]

-- An operation on one of the connecting objects, and what the handler makes of its report.
unfoldable pub on_connecting :
    Client → ℕ → (ConnectionBase → Option (ConnectionBase × Report)) → Handler → Option Handler
unfolding take_report
on_connecting i id op h = elim (lookup id h.connecting) [
  | none ↦ none
  | some c ↦ elim (op c) [ none ↦ none | some (d, r) ↦ take_report i id d r h ]
]

-- `OnResolveComplete`.
unfoldable pub resolve_done : ℕ → CConnection → List CConnection → Handler → Handler
resolve_done id conn resolved h =
    notify (on_dns_response conn resolved) (record h { dns_resolves = erase id h.dns_resolves })

-- `OnResolveFailure`. The lookup is searched for behind the call of the interface.
unfoldable pub resolve_failed_up : Client → ℕ → CConnection → Bool → Handler → Option Handler
resolve_failed_up i id conn retry h =
    let r = retry && not h.shutdown in
    let g = notify (on_dns_failure conn r) h in
    elim (lookup id g.dns_resolves) [
      | none ↦ none
      | some c ↦ some (
          request_again (
            if r && answer i g
            then record g { dns_resolves = modify id retry_resolve g.dns_resolves }
            else record g { dns_resolves = erase id g.dns_resolves }))
    ]

-- An operation on one of the lookups, and what the handler makes of its report.
unfoldable pub on_resolving :
    Client → ℕ → (CResolveOnly → Option (CResolveOnly × ResolveReport)) → Handler → Option Handler
unfolding resolve_done resolve_failed_up
on_resolving i id op h = elim (lookup id h.dns_resolves) [
  | none ↦ none
  | some c ↦ elim (op c) [
    | none ↦ none
    | some (d, r) ↦
        let g = record h { dns_resolves = modify id (λ _. d) h.dns_resolves } in
        elim r [
          | resolving ↦ some g
          | resolve_failure b ↦ resolve_failed_up i d.id d.connection b g
          | resolve_complete l ↦ some (resolve_done d.id d.connection l g)
        ]
  ]
]

-- `OnListenFailure`.
abbrev pub listen_failed : ℕ → CConnection → Handler → Handler
listen_failed id bind h =
    let g = notify (on_bind_failure bind) h in record g { binds = erase id g.binds }
