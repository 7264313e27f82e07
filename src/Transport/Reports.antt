-- ===== src/Transport/Reports.antt =====
-- What the operations of a connection may report, and that they keep its id.
use libbtcnet.Base.{Bytes, is_some, Bool, true, false, List, Option, none, some, ◌≡◌, arith}
use libbtcnet.Connection.{SockAddr, CConnection}
use libbtcnet.Object.{
  ConnectionBase, incoming, proxy, dns, Report, pending, connection_failure, incoming_connected,
  outgoing_connected, is_outgoing, base_connected, init_connection,
}
use libbtcnet.Transport.{
  bare_connect, incoming_connect, direct_connect, proxy_connect, dns_connect, dns_do_resolve,
  dns_connect_resolved, dns_connect_failure, dns_connect_success, connect, conn_event,
  dns_resolve_success, dns_resolve_failure, on_connect_success, on_connect_failure,
  on_proxy_failure, on_proxy_success,
}

-- The report of a connection that is up tells its direction, and comes with a `bufferevent`.
abbrev pub Fits : ConnectionBase → Report → Type 0
Fits d pending = Unit
Fits d (connection_failure t f b) = Unit
Fits d (incoming_connected r) = (is_outgoing d ≡ false) × (is_some d.bev ≡ true)
Fits d (outgoing_connected r) = (is_outgoing d ≡ true) × (is_some d.bev ≡ true)

-- What an operation keeps to: the id, and what it may report.
abbrev pub Allows : ConnectionBase → Option (ConnectionBase × Report) → Type 0
Allows c none = Unit
Allows c (some (d, r)) = (d.id ≡ c.id) × Fits d r

bare_connect-Allows : (a : Option SockAddr) (c : ConnectionBase) → Allows c (bare_connect a c)
unfolding bare_connect
bare_connect-Allows a c = ground arith

incoming_connect-Allows : (c : ConnectionBase) → c.kind ≡ incoming → Allows c (incoming_connect c)
unfolding incoming_connect init_connection
incoming_connect-Allows c k = ground arith

direct_connect-Allows : (c : ConnectionBase) → Allows c (direct_connect c)
unfolding direct_connect
direct_connect-Allows c = ground (arith, bare_connect-Allows c.connection.base.addr c)

proxy_connect-Allows : (c : ConnectionBase) → Allows c (proxy_connect c)
unfolding proxy_connect
proxy_connect-Allows c = ground (arith, bare_connect-Allows c.connection.proxy.base.addr c)

dns_connect_failure-Allows : (c : ConnectionBase) → Allows c (dns_connect_failure c)
unfolding dns_connect_failure
dns_connect_failure-Allows c = ground arith

dns_connect_resolved-Allows : (c : ConnectionBase) → Allows c (dns_connect_resolved c)
unfolding dns_connect_resolved
dns_connect_resolved-Allows c =
    let f : (a : Option SockAddr) → Allows c (bare_connect a c) = λ a. bare_connect-Allows a c in
    ground (arith, f, dns_connect_failure-Allows c)

dns_resolve_failure-Allows : (c : ConnectionBase) → Allows c (dns_resolve_failure c)
unfolding dns_resolve_failure
dns_resolve_failure-Allows c = ground arith

dns_do_resolve-Allows : (c : ConnectionBase) → Allows c (dns_do_resolve c)
unfolding dns_do_resolve
dns_do_resolve-Allows c = ground (arith, dns_resolve_failure-Allows c)

dns_connect-Allows : (c : ConnectionBase) → Allows c (dns_connect c)
unfolding dns_connect
dns_connect-Allows c = ground (arith, dns_do_resolve-Allows c, dns_connect_resolved-Allows c)

pub connect-Allows : (c : ConnectionBase) → Allows c (connect c)
unfolding connect
connect-Allows c = ground (
  arith,
  incoming_connect-Allows c,
  direct_connect-Allows c,
  proxy_connect-Allows c,
  dns_connect-Allows c,
)

dns_connect_success-Allows : (c : ConnectionBase) → c.kind ≡ dns → Allows c (dns_connect_success c)
unfolding dns_connect_success base_connected init_connection
dns_connect_success-Allows c k = ground arith

on_connect_success-Allows : (c : ConnectionBase) → Allows c (on_connect_success c)
unfolding on_connect_success base_connected init_connection
on_connect_success-Allows c = ground (arith, dns_connect_success-Allows c)

on_connect_failure-Allows : (c : ConnectionBase) → Allows c (on_connect_failure c)
unfolding on_connect_failure
on_connect_failure-Allows c = ground (arith, dns_connect_failure-Allows c)

conn_event-Allows : (up : Bool) (c : ConnectionBase) → Allows c (conn_event up c)
unfolding conn_event
conn_event-Allows true c =
    on_connect_success-Allows (record c { connecting_bev = false; dialled = none })
conn_event-Allows false c =
    on_connect_failure-Allows (record c { connecting_bev = false; dialled = none })

dns_resolve_success-Allows :
    (l : List SockAddr) (c : ConnectionBase) → Allows c (dns_resolve_success c l)
unfolding dns_resolve_success
dns_resolve_success-Allows l c =
    ground
      (arith, dns_connect_resolved-Allows (record c { request = false; resolved = l; iter = l }))

-- What can happen to an object that is under way: its own timer, the end of a connect, of a lookup,
-- or of the negotiation with a proxy.
pub data ConnEvent : Type 0 where
  reconnect_timer : ConnEvent
  connect_ended : Bool → ConnEvent
  lookup_ended : Option (List SockAddr) → ConnEvent
  proxy_ended : Option (Bytes × CConnection) → ConnEvent

-- The class of the object has the callback; the callback of another class is never called.
unfoldable pub run_event : ConnEvent → ConnectionBase → Option (ConnectionBase × Report)
unfolding connect conn_event dns_resolve_success dns_resolve_failure on_proxy_success
    on_proxy_failure
run_event reconnect_timer c = elim c.reconnect [
  | none ↦ none
  | some _ ↦ connect (record c { reconnect = none })
]
run_event (connect_ended up) c = conn_event up c
run_event (lookup_ended answer) c = elim c.kind [
  | dns ↦ elim answer [ none ↦ dns_resolve_failure c | some l ↦ dns_resolve_success c l ]
  | _ ↦ none
]
run_event (proxy_ended answer) c = elim c.kind [
  | proxy ↦
      some (elim answer [ none ↦ on_proxy_failure c | some (rest, r) ↦ on_proxy_success rest r c ])
  | _ ↦ none
]

-- Every event keeps the id of the object, and reports a connection that is up in the direction of the
-- object only.
pub run_event-Allows : (e : ConnEvent) (c : ConnectionBase) → Allows c (run_event e c)
unfolding run_event connect conn_event dns_resolve_success dns_resolve_failure
run_event-Allows reconnect_timer c = ground (arith, connect-Allows (record c { reconnect = none }))
run_event-Allows (connect_ended up) c = conn_event-Allows up c
run_event-Allows (lookup_ended none) c = ground (arith, dns_resolve_failure-Allows c)
run_event-Allows (lookup_ended (some l)) c = ground (arith, dns_resolve_success-Allows l c)
run_event-Allows (proxy_ended none) c = ground arith
run_event-Allows (proxy_ended (some (rest, r))) c = ground arith
