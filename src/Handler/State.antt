-- ===== src/Handler/State.antt =====
-- The state of `CConnectionHandlerInt` (src/handler.h), and what it exchanges with the application.
use Prim.Native.Nat.{◌^◌}
use libbtcnet.Base.{
  ℕ, ◌+◌, ◌-◌, Option, none, Bytes, Bool, true, false, List, [], ◌∷◌, ◌++◌, ◌==◌, if◌then◌else◌,
}
use libbtcnet.Base.Int.{ℤ, pos}
use libbtcnet.Connection.{CConnection}
use libbtcnet.Listener.{CConnListener}
use libbtcnet.Map.{Map}
use libbtcnet.ResolveOnly.{CResolveOnly}
use libbtcnet.Object.{ConnectionBase}
use libbtcnet.Channel.{CRateLimit}

-- The calls of `CConnectionHandler`'s virtual functions.
pub data Call : Type 0 where
  on_need_outgoing_connections : ℤ → Call
  on_bind_failure : CConnection → Call
  on_dns_response : CConnection → List CConnection → Call
  on_dns_failure : CConnection → Bool → Call
  on_connection_failure : CConnection → CConnection → Bool → Call
  on_proxy_failure : CConnection → Bool → Call
  on_outgoing_connection : ℕ → CConnection → CConnection → Call
  on_incoming_connection : ℕ → CConnection → CConnection → Call
  on_disconnected : ℕ → Bool → Call
  on_ready_for_first_send : ℕ → Call
  on_shutdown : Call
  on_startup : Call
  on_receive_messages : ℕ → List Bytes → ℕ → Call
  on_malformed_message : ℕ → Call
  on_write_buffer_full on_write_buffer_ready : ℕ → ℕ → Call
  on_bytes_read on_bytes_written : ℕ → ℕ → Option ℕ → Call
  on_ping_timeout : ℕ → Call

-- The application's answers, which may depend on all that it was told, and its candidates.
pub record Client : Type 0 where
  pub answer : List Call → Bool
  pub candidates : List Call → ℤ → List CConnection

pub record Handler : Type 0 where
  pub connected : Map ConnectionBase
  pub connecting : Map ConnectionBase
  pub binds : Map CConnListener
  pub dns_resolves : Map CResolveOnly
  pub connection_index : ℕ
  pub outgoing_conn_count : ℤ
  pub incoming_conn_count : ℤ
  pub outgoing_conn_limit : ℤ
  -- The limits of the two rate limit groups, while the groups exist.
  pub incoming_rate : Option CRateLimit
  pub outgoing_rate : Option CRateLimit
  pub shutdown : Bool
  -- `m_event_base` and the two events exist.
  pub running : Bool
  pub events : Bool
  -- The two events are active, that is, their callbacks are due.
  pub request_active : Bool
  pub shutdown_active : Bool
  pub calls : List Call

-- The constructor.
abbrev pub new_handler : Handler
new_handler = record {
  connected = [];
  connecting = [];
  binds = [];
  dns_resolves = [];
  connection_index = 0;
  outgoing_conn_count = pos 0;
  incoming_conn_count = pos 0;
  outgoing_conn_limit = pos 0;
  incoming_rate = none;
  outgoing_rate = none;
  shutdown = false;
  running = false;
  events = false;
  request_active = false;
  shutdown_active = false;
  calls = [];
}

-- A call of the interface, and one whose answer counts.
abbrev pub notify : Call → Handler → Handler
notify c h = record h { calls = h.calls ++ c ∷ [] }

-- Several of them.
abbrev pub notify_all : List Call → Handler → Handler
notify_all calls h = record h { calls = h.calls ++ calls }

abbrev pub answer : Client → Handler → Bool
answer i h = i.answer h.calls

-- The largest `int64_t`.
abbrev pub max_index : ℕ
max_index = 2 ^ 63 - 1

-- `GetNextConnectionIndex`: the id, and the index behind it.
abbrev pub next_index : ℕ → ℕ
next_index n = if n == max_index then 0 else n + 1

-- `if (m_request_event) m_request_event.active();`
abbrev pub request_again : Handler → Handler
request_again h = if h.events then record h { request_active = true } else h
