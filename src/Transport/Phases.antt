-- ===== src/Transport/Phases.antt =====
-- Where a connection that is under way stands, and that no event which libevent may report for it
-- fails an assertion: src/bareconn.cpp and the four classes that build on it.
use libbtcnet.Base.{
  ℕ, Bool, true, false, not, ◌&&◌, Option, none, some, ◌≡◌, if◌then◌else◌, is_some, is_empty, arith,
}
use libbtcnet.Message.Framing.{IsBytes}
use libbtcnet.Channel.{Channel, choose_read_cb, init_channel}
use libbtcnet.Object.{
  incoming, direct, proxy, dns, ConnectionBase, Report, pending, connection_failure,
  incoming_connected, outgoing_connected, base_connected, init_connection, retry,
}
use libbtcnet.Connection.{SockAddr}
use libbtcnet.Transport.{
  bare_connect, incoming_connect, direct_connect, proxy_connect, dns_connect, dns_do_resolve,
  dns_connect_resolved, dns_connect_failure, dns_connect_success, connect, conn_event,
  dns_resolve_success, dns_resolve_failure, on_connect_success, on_connect_failure,
  on_proxy_failure, on_proxy_success,
}
use libbtcnet.Transport.Reports.{
  ConnEvent, reconnect_timer, connect_ended, lookup_ended, proxy_ended, run_event,
}

-- No connect, lookup or negotiation is under way.
abbrev pub idle : ConnectionBase → Bool
idle c = not c.connecting_bev && not c.request && not c.proxy_bev

-- One thing is under way at most, which the class of the object can bring to an end, and while it
-- is, no reconnect is due.
abbrev pub staged : ConnectionBase → Bool
staged c =
    if idle c
    then true
    else if is_some c.reconnect
    then false
    else if c.connecting_bev
    then not c.request
      && not c.proxy_bev
      && elim c.kind [ incoming ↦ false | dns ↦ not (is_empty c.iter) | _ ↦ true ]
    else if c.request
    then not c.proxy_bev && elim c.kind [ dns ↦ is_empty c.iter | _ ↦ false ]
    else elim c.kind [ proxy ↦ true | _ ↦ false ]

-- What the class of the object asks of it.
abbrev pub suited : ConnectionBase → Bool
suited c = elim c.kind [
  | incoming ↦ is_some c.peer
  | direct ↦ c.connection.base.is_set
  | proxy ↦ c.connection.base.is_set && c.connection.proxy.base.is_set
  | dns ↦ true
]

-- The iterator is at the end exactly if the answer of the resolver was dropped.
abbrev pub paired : ConnectionBase → Bool
paired c = if is_empty c.resolved then is_empty c.iter else not (is_empty c.iter)

abbrev pub Phase : ConnectionBase → Type 0
Phase c = (staged c ≡ true) × (suited c ≡ true) × (paired c ≡ true)

abbrev pub AtRest : ConnectionBase → Type 0
AtRest c = (idle c ≡ true) × (suited c ≡ true) × (paired c ≡ true)

-- The `bufferevent` is as `InitConnection` leaves it, as far as what comes in is concerned.
abbrev pub Opened : ConnectionBase → Option Channel → Type 0
Opened c none = ⊥
Opened c (some b) =
    (b.read_cb ≡ c.read_cb_ptr)
    × (c.read_cb_ptr ≡ (choose_read_cb c.connection.net_config).0)
    × IsBytes b.input

-- What an object must satisfy behind a report.
abbrev pub Fit : ConnectionBase → Report → Type 0
Fit d pending = Phase d
Fit d (connection_failure t f b) = AtRest d
Fit d (incoming_connected r) = AtRest d × Opened d d.bev
Fit d (outgoing_connected r) = AtRest d × Opened d d.bev

-- The operation fails no assertion, keeps what the connection was asked to be, and ends as its report
-- says.
abbrev pub Ends : ConnectionBase → Option (ConnectionBase × Report) → Type 0
Ends c none = ⊥
Ends c (some (d, r)) = (d.connection ≡ c.connection) × Fit d r

bare_connect-Ends :
    (a : Option SockAddr) (c : ConnectionBase)
    → AtRest c
    → staged (record c { connecting_bev = true }) ≡ true
    → Ends c (bare_connect a c)
unfolding bare_connect
bare_connect-Ends a c r s = ground arith

incoming_connect-Ends :
    (c : ConnectionBase) → c.kind ≡ incoming → AtRest c → Ends c (incoming_connect c)
unfolding incoming_connect init_connection init_channel
incoming_connect-Ends c k r = ground arith

direct_connect-Ends :
    (c : ConnectionBase)
    → c.kind ≡ direct
    → c.reconnect ≡ none
    → AtRest c
    → Ends c (direct_connect c)
unfolding direct_connect
direct_connect-Ends c k n r = ground (arith, bare_connect-Ends c.connection.base.addr c)

proxy_connect-Ends :
    (c : ConnectionBase) → c.kind ≡ proxy → c.reconnect ≡ none → AtRest c → Ends c (proxy_connect c)
unfolding proxy_connect
proxy_connect-Ends c k n r = ground (arith, bare_connect-Ends c.connection.proxy.base.addr c)

dns_connect_failure-Ends :
    (c : ConnectionBase) → is_empty c.iter ≡ false → AtRest c → Ends c (dns_connect_failure c)
unfolding dns_connect_failure
dns_connect_failure-Ends c n r = ground arith

dns_connect_resolved-Ends :
    (c : ConnectionBase)
    → c.kind ≡ dns
    → c.reconnect ≡ none
    → is_empty c.iter ≡ false
    → AtRest c
    → Ends c (dns_connect_resolved c)
unfolding dns_connect_resolved
dns_connect_resolved-Ends c k e n r =
    let f : (a : Option SockAddr)
        → AtRest c
        → staged (record c { connecting_bev = true }) ≡ true
        → Ends c (bare_connect a c) =
      λ a. bare_connect-Ends a c in
    ground (arith, f, dns_connect_failure-Ends c)

dns_resolve_failure-Ends :
    (c : ConnectionBase)
    → is_empty c.iter ≡ true
    → c.connecting_bev ≡ false
    → c.proxy_bev ≡ false
    → suited c ≡ true
    → paired c ≡ true
    → Ends c (dns_resolve_failure c)
unfolding dns_resolve_failure
dns_resolve_failure-Ends c i n x s p = ground arith

dns_connect-Ends :
    (c : ConnectionBase) → c.kind ≡ dns → c.reconnect ≡ none → AtRest c → Ends c (dns_connect c)
unfolding dns_connect dns_do_resolve
dns_connect-Ends c k n r =
    ground (arith, dns_resolve_failure-Ends c, dns_connect_resolved-Ends c k n)

-- `Connect` of an object at rest, with no reconnect due.
pub connect-Ends : (c : ConnectionBase) → c.reconnect ≡ none → AtRest c → Ends c (connect c)
unfolding connect
connect-Ends c n r = ground (
  arith,
  incoming_connect-Ends c,
  direct_connect-Ends c,
  proxy_connect-Ends c,
  dns_connect-Ends c,
)

on_connect_success-Ends :
    (c : ConnectionBase)
    → AtRest c
    → c.reconnect ≡ none
    → elim c.kind [ incoming ↦ false | dns ↦ not (is_empty c.iter) | _ ↦ true ] ≡ true
    → Ends c (on_connect_success c)
unfolding on_connect_success dns_connect_success base_connected init_connection init_channel
on_connect_success-Ends c r n k = ground arith

on_connect_failure-Ends :
    (c : ConnectionBase)
    → AtRest c
    → elim c.kind [ incoming ↦ false | dns ↦ not (is_empty c.iter) | _ ↦ true ] ≡ true
    → Ends c (on_connect_failure c)
unfolding on_connect_failure
on_connect_failure-Ends c r k = ground (arith, dns_connect_failure-Ends c)

-- When libevent and the resolver may report the event: the timer runs, or what ends is under way.
-- A resolver that succeeds answers with an address.
abbrev pub conn_raises : ConnEvent → ConnectionBase → Bool
conn_raises reconnect_timer c = is_some c.reconnect
conn_raises (connect_ended up) c = c.connecting_bev
conn_raises (lookup_ended answer) c =
    c.request && elim answer [ none ↦ true | some l ↦ not (is_empty l) ]
conn_raises (proxy_ended answer) c = c.proxy_bev

-- What a proxy has sent behind its answer are bytes.
abbrev pub ConnBytes : ConnEvent → Type 0
ConnBytes (proxy_ended (some (rest, resolved))) = IsBytes rest
ConnBytes e = Unit

conn_event-Ends :
    (up : Bool) (c : ConnectionBase) → Phase c → c.connecting_bev ≡ true → Ends c (conn_event up c)
unfolding conn_event
conn_event-Ends true c p k =
    ground (arith, on_connect_success-Ends (record c { connecting_bev = false; dialled = none }))
conn_event-Ends false c p k =
    ground (arith, on_connect_failure-Ends (record c { connecting_bev = false; dialled = none }))

-- An event that may be reported for an object in one of its phases fails no assertion: the object
-- goes on in one of them, or is at rest behind its report, and one that came up has the callback
-- that suits its configuration. What it was asked to be does not change.
pub run_event-Ends :
    (e : ConnEvent) (c : ConnectionBase)
    → Phase c
    → ConnBytes e
    → conn_raises e c ≡ true
    → Ends c (run_event e c)
unfolding run_event dns_resolve_success on_proxy_success on_proxy_failure base_connected
    init_connection init_channel
run_event-Ends reconnect_timer c p l k =
    ground (arith, connect-Ends (record c { reconnect = none }))
run_event-Ends (connect_ended up) c p l k = conn_event-Ends up c p k
run_event-Ends (lookup_ended none) c p l k = ground (arith, dns_resolve_failure-Ends c)
run_event-Ends (lookup_ended (some a)) c p l k =
    ground (arith, dns_connect_resolved-Ends (record c { request = false; resolved = a; iter = a }))
run_event-Ends (proxy_ended none) c p l k = ground arith
run_event-Ends (proxy_ended (some (rest, r))) c p l k = ground arith

-- An object that goes back among the connecting ones.
pub retry-Phase : (k : ℕ) (c : ConnectionBase) → AtRest c → Phase (retry k c)
unfolding retry
retry-Phase k c r = ground arith
