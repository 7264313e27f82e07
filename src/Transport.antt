-- ===== src/Transport.antt =====
-- How a connection comes up or fails: `CIncomingConn`, `CDirectConnection`, `CProxyConn` and
-- `CDNSConnection` (src/incomingconn.cpp, src/directconn.cpp, src/proxyconn.cpp, src/dnsconn.cpp),
-- and `CBareConnection` (src/bareconn.cpp). libevent and evdns report the end of a connect or a
-- lookup in a later event. `none` is a failed assertion.
pub mod Retries
pub mod Counters
pub mod Dns
pub mod Reports
pub mod Phases
pub mod Tests
use mathlib.Core.Option
use libbtcnet.Base.{
  ℕ, zero, suc, ◌+◌, ◌%◌, ◌^◌, Bool, true, false, not, ◌&&◌, ◌||◌, List, [], ◌∷◌, Option, none,
  some, ltb, ◌==◌, if◌then◌else◌, is_some, is_empty, Bytes,
}
use libbtcnet.Base.Int.{ℤ, pos, negsuc}
use libbtcnet.Object.{
  ConnKind, incoming, direct, proxy, dns, ConnectionBase, ConnectionFailureType, connect_failed,
  resolve_failed, proxy_failed, Report, pending, connection_failure, incoming_connected,
  outgoing_connected, new_connection, is_outgoing, retry, init_connection, go_live, take_retry,
  has_retry, base_connected, fail_retry,
}
use libbtcnet.Connection.{
  SockAddr, CConnection, CConnectionOptions, resolved_connection, can_connect_direct,
  can_connect_proxy, can_connect_family, can_resolve, set_resolve_family,
}

-- `CBareConnection::BareConnect`. An address that is not set is an empty `sockaddr_storage`.
unfoldable pub bare_connect : Option SockAddr → ConnectionBase → Option (ConnectionBase × Report)
bare_connect address c =
    if c.connecting_bev
    then none
    else some (record c { connecting_bev = true; dialled = address }, pending)

-- `CIncomingConn::Connect`, on a socket that is already connected.
unfoldable pub incoming_connect : ConnectionBase → Option (ConnectionBase × Report)
unfolding init_connection
incoming_connect c = elim c.peer [
  | none ↦ none
  | some a ↦ some (
    init_connection [] c,
    incoming_connected (resolved_connection c.connection.opts c.connection.net_config a),
  )
]

-- `CDirectConnection::Connect`.
unfoldable pub direct_connect : ConnectionBase → Option (ConnectionBase × Report)
unfolding bare_connect
direct_connect c =
    if not c.connection.base.is_set
    then none
    else if can_connect_direct c.connection
    then bare_connect c.connection.base.addr c
    else some (c, connection_failure connect_failed c.connection false)

-- `CProxyConn::Connect`.
unfoldable pub proxy_connect : ConnectionBase → Option (ConnectionBase × Report)
unfolding bare_connect
proxy_connect c =
    if not c.connection.base.is_set || not c.connection.proxy.base.is_set
    then none
    else if can_connect_proxy c.connection
    then bare_connect c.connection.proxy.base.addr c
    else some (c, connection_failure proxy_failed c.connection false)

-- `CDNSConnection::OnResolveFailure`.
unfoldable pub dns_resolve_failure : ConnectionBase → Option (ConnectionBase × Report)
unfolding take_retry
dns_resolve_failure c =
    if is_empty c.resolved && is_empty c.iter
    then some (fail_retry (record c { request = false }) resolve_failed c.connection)
    else none

-- The hint for a lookup, if `CanResolve` and `SetResolveFamily` allow one.
abbrev pub lookup_allowed : CConnection → Bool
lookup_allowed c = can_resolve c && is_some (set_resolve_family c.opts.family)

-- `CDNSConnection::DoResolve`.
unfoldable pub dns_do_resolve : ConnectionBase → Option (ConnectionBase × Report)
unfolding dns_resolve_failure
dns_do_resolve c =
    if c.request || not (is_empty c.resolved && is_empty c.iter)
    then none
    else if lookup_allowed c.connection
    then some (record c { request = true }, pending)
    else dns_resolve_failure c

-- `CDNSConnection::OnConnectFailure`: the next address is up, and a last one ends the list.
unfoldable pub dns_connect_failure : ConnectionBase → Option (ConnectionBase × Report)
dns_connect_failure c = elim c.iter [
  | [] ↦ none
  | a ∷ rest ↦
      if c.request || is_empty c.resolved
      then none
      else some (
        record c { iter = rest; resolved = if is_empty rest then [] else c.resolved },
        connection_failure connect_failed
            (resolved_connection c.connection.opts c.connection.net_config a)
            (not (is_empty rest) || has_retry c.retries),
      )
]

-- `CDNSConnection::ConnectResolved`.
unfoldable pub dns_connect_resolved : ConnectionBase → Option (ConnectionBase × Report)
unfolding bare_connect dns_connect_failure
dns_connect_resolved c = elim c.iter [
  | [] ↦ none
  | a ∷ rest ↦
      if is_empty c.resolved
      then none
      else if can_connect_family a c.connection.opts.family
      then bare_connect (some a) c
      else dns_connect_failure c
]

-- `CDNSConnection::OnResolveSuccess`.
unfoldable pub dns_resolve_success :
    ConnectionBase → List SockAddr → Option (ConnectionBase × Report)
unfolding dns_connect_resolved
dns_resolve_success c response =
    if is_empty c.resolved && is_empty c.iter
    then dns_connect_resolved (record c { request = false; resolved = response; iter = response })
    else none

-- `CDNSConnection::Connect`.
unfoldable pub dns_connect : ConnectionBase → Option (ConnectionBase × Report)
unfolding dns_do_resolve dns_connect_resolved
dns_connect c =
    if c.request then none else if is_empty c.iter then dns_do_resolve c else dns_connect_resolved c

-- `CDNSConnection::OnConnectSuccess`.
unfoldable pub dns_connect_success : ConnectionBase → Option (ConnectionBase × Report)
unfolding base_connected
dns_connect_success c = elim c.iter [
  | [] ↦ none
  | a ∷ rest ↦
      if c.request || is_empty c.resolved
      then none
      else some (
          base_connected []
            (record c { resolved = []; iter = []; retries = c.connection.opts.retries })
            (resolved_connection c.connection.opts c.connection.net_config a))
]

-- The virtual `Connect`.
unfoldable pub connect : ConnectionBase → Option (ConnectionBase × Report)
connect c = elim c.kind [
  | incoming ↦ incoming_connect c
  | direct ↦ direct_connect c
  | proxy ↦ proxy_connect c
  | dns ↦ dns_connect c
]

-- The virtual `OnConnectSuccess`. A proxy goes on to the SOCKS5 negotiation.
unfoldable pub on_connect_success : ConnectionBase → Option (ConnectionBase × Report)
unfolding base_connected
on_connect_success c = elim c.kind [
  | incoming ↦ none
  | direct ↦
      some (base_connected [] (record c { retries = c.connection.opts.retries }) c.connection)
  | proxy ↦
      if c.proxy_bev || not c.connection.proxy.base.is_set
      then none
      else some (record c { proxy_bev = true }, pending)
  | dns ↦ dns_connect_success c
]

-- The virtual `OnConnectFailure`.
unfoldable pub on_connect_failure : ConnectionBase → Option (ConnectionBase × Report)
unfolding take_retry
on_connect_failure c = elim c.kind [
  | incoming ↦ none
  | direct ↦ some (fail_retry c connect_failed c.connection)
  | proxy ↦ some (fail_retry c proxy_failed c.connection)
  | dns ↦ dns_connect_failure c
]

-- `CBareConnection::conn_event`; the flag is `BEV_EVENT_CONNECTED`.
unfoldable pub conn_event : Bool → ConnectionBase → Option (ConnectionBase × Report)
conn_event connected c =
    let d = record c { connecting_bev = false; dialled = none } in
    if connected then on_connect_success d else on_connect_failure d

-- `CBareProxy::ProxyFailure` with `CProxyConn::OnProxyFailure`.
unfoldable pub on_proxy_failure : ConnectionBase → ConnectionBase × Report
unfolding take_retry
on_proxy_failure c = fail_retry (record c { proxy_bev = false }) connect_failed c.connection

-- `CProxyConn::OnProxySuccess`.
unfoldable pub on_proxy_success : Bytes → CConnection → ConnectionBase → ConnectionBase × Report
unfolding base_connected
on_proxy_success rest resolved c = base_connected rest (record c { proxy_bev = false }) resolved

-- `read_data` and `wrote_data`: the new total is an `unsigned long`, and is reported if there are new
-- bytes. The total of a counter that was never set is not determined.
unfoldable pub add_bytes : ℕ → Option ℕ → Option ℕ × List (ℕ × Option ℕ)
add_bytes n total =
    if n == 0
    then (total, [])
    else let sum = Option.map (λ t. (t + n) % 2 ^ 64) total in (sum, (n, sum) ∷ [])

unfoldable pub read_data : ℕ → ConnectionBase → ConnectionBase × List (ℕ × Option ℕ)
unfolding add_bytes
read_data n c =
    (record c { bytes_read = (add_bytes n c.bytes_read).0 }, (add_bytes n c.bytes_read).1)

unfoldable pub wrote_data : ℕ → ConnectionBase → ConnectionBase × List (ℕ × Option ℕ)
unfolding add_bytes
wrote_data n c =
    (record c { bytes_written = (add_bytes n c.bytes_written).0 }, (add_bytes n c.bytes_written).1)
