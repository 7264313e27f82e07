-- ===== src/Object.antt =====
-- `ConnectionBase` of src/connectionbase.cpp: one record holds the fields of it and of its four
-- subclasses, and of `CBareConnection` (src/bareconn.cpp). `none` is a failed assertion.
use libbtcnet.Base.{ℕ, zero, suc, Bool, true, false, not, List, [], Option, none, some, ◌==◌, Bytes}
use libbtcnet.Base.Int.{ℤ, pos, negsuc}
use libbtcnet.Channel.{
  ReadCb, no_callback, Channel, RateGroup, init_channel, choose_read_cb, enable_channel,
}
use libbtcnet.Connection.{SockAddr, CConnection}

pub data ConnKind : Type 0 where
  incoming direct proxy dns : ConnKind

pub record ConnectionBase : Type 0 where
  pub kind : ConnKind
  pub connection : CConnection
  pub id : ℕ
  -- The address that an incoming connection comes from.
  pub peer : Option SockAddr
  pub retries : ℤ
  -- The answer of the resolver, and the part of it from `m_iter` on.
  pub resolved : List SockAddr
  pub iter : List SockAddr
  -- A lookup is under way.
  pub request : Bool
  -- `m_bev` of `CBareConnection` holds a bufferevent, and that of `ConnectionBase`.
  pub connecting_bev : Bool
  -- The address that the first of them was told to connect to, while it connects.
  pub dialled : Option SockAddr
  pub bev : Option Channel
  -- And so does the one of `CBareProxy`.
  pub proxy_bev : Bool
  -- `none` is a counter that was never set.
  pub bytes_read : Option ℕ
  pub bytes_written : Option ℕ
  pub read_cb_ptr : ReadCb
  -- The seconds after which `m_reconnect_func` calls `Connect`, if it is pending.
  pub reconnect : Option ℤ
  -- The other events of the object: whether each is active, the seconds of the ping timeout, and
  -- `m_first_data_func`, which is made when the connection is up (`some`), and then added (`true`).
  pub disconnect_active : Bool
  pub disconnect_wait_active : Bool
  pub check_write_buffer_active : Bool
  pub ping_timeout : Option ℤ
  pub first_data : Option Bool

pub data ConnectionFailureType : Type 0 where
  connect_failed resolve_failed proxy_failed : ConnectionFailureType

-- What an operation tells the handler.
pub data Report : Type 0 where
  pending : Report
  connection_failure : ConnectionFailureType → CConnection → Bool → Report
  incoming_connected : CConnection → Report
  outgoing_connected : CConnection → Report

-- The constructors. The two counters are not in the list of initialisers.
unfoldable pub new_connection : ConnKind → CConnection → ℕ → Option SockAddr → ConnectionBase
new_connection kind conn id peer = record {
  kind = kind;
  connection = conn;
  id = id;
  peer = peer;
  retries = conn.opts.retries;
  resolved = [];
  iter = [];
  request = false;
  connecting_bev = false;
  dialled = none;
  bev = none;
  proxy_bev = false;
  bytes_read = none;
  bytes_written = none;
  read_cb_ptr = no_callback;
  reconnect = none;
  disconnect_active = false;
  disconnect_wait_active = false;
  check_write_buffer_active = false;
  ping_timeout = none;
  first_data = none;
}

-- `IsOutgoing`.
abbrev pub is_outgoing : ConnectionBase → Bool
is_outgoing c = elim c.kind [ incoming ↦ false | _ ↦ true ]

-- `ConnectionBase::Retry`.
unfoldable pub retry : ℕ → ConnectionBase → ConnectionBase
retry new_id c = record c {
  bev = none;
  bytes_read = some 0;
  bytes_written = some 0;
  id = new_id;
  reconnect = some c.connection.opts.retry_interval;
}

-- `InitConnection`, of a connection that is handed a `bufferevent` with this input.
unfoldable pub init_connection : Bytes → ConnectionBase → ConnectionBase
unfolding init_channel
init_connection input c = record c {
  bev = some (init_channel c.connection input);
  read_cb_ptr = (choose_read_cb c.connection.net_config).0;
  first_data = some false;
}

-- `SetRateLimitGroup` and `Enable`.
unfoldable pub go_live : RateGroup → ConnectionBase → Option ConnectionBase
go_live g c = elim c.bev [
  | none ↦ none
  | some b ↦ some (record c {
    bev = some (enable_channel g b);
    first_data = elim c.first_data [ none ↦ none | some _ ↦ some true ];
  })
]

-- `m_retries > 0 ? m_retries-- != 0 : m_retries != 0`.
unfoldable pub take_retry : ℤ → ℤ × Bool
take_retry (pos zero) = (pos zero, false)
take_retry (pos (suc n)) = (pos n, true)
take_retry (negsuc n) = (negsuc n, true)

-- `m_retries != 0`.
abbrev pub has_retry : ℤ → Bool
has_retry r = elim r [ pos n ↦ not (n == 0) | negsuc n ↦ true ]

-- `ConnectionBase::OnOutgoingConnected` up to the call of the handler.
unfoldable pub base_connected : Bytes → ConnectionBase → CConnection → ConnectionBase × Report
unfolding init_connection
base_connected input c resolved = (init_connection input c, outgoing_connected resolved)

-- A failure that uses up a retry.
abbrev pub fail_retry :
    ConnectionBase → ConnectionFailureType → CConnection → ConnectionBase × Report
fail_retry c type failed = (
  record c { retries = (take_retry c.retries).0 },
  connection_failure type failed (take_retry c.retries).1,
)
