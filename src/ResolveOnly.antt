-- ===== src/ResolveOnly.antt =====
-- `CResolveOnly` of src/resolveonly.cpp: a lookup for the application. `none` is a failed assertion;
-- evdns reports the result of a lookup in a later event.
use libbtcnet.Base.{ℕ, Bool, true, false, not, List, Option, none, some, if◌then◌else◌, map}
use libbtcnet.Base.Int.{ℤ}
use libbtcnet.Connection.{SockAddr, CConnection, resolved_connection}
use libbtcnet.Object.{take_retry}
use libbtcnet.Transport.{lookup_allowed}

pub record CResolveOnly : Type 0 where
  pub id : ℕ
  pub connection : CConnection
  pub retries : ℤ
  pub request : Bool
  -- `m_retry_event` is active.
  pub retry_active : Bool

pub data ResolveReport : Type 0 where
  resolving : ResolveReport
  resolve_failure : Bool → ResolveReport
  resolve_complete : List CConnection → ResolveReport

unfoldable pub new_resolve : CConnection → ℕ → CResolveOnly
new_resolve conn id = record {
  id = id;
  connection = conn;
  retries = conn.opts.retries;
  request = false;
  retry_active = false;
}

-- `OnResolveFailure`.
unfoldable pub on_resolve_failure : CResolveOnly → CResolveOnly × ResolveReport
unfolding take_retry
on_resolve_failure r = (
  record r { request = false; retries = (take_retry r.retries).0 },
  resolve_failure (take_retry r.retries).1,
)

-- `Resolve`.
unfoldable pub resolve : CResolveOnly → Option (CResolveOnly × ResolveReport)
unfolding on_resolve_failure
resolve r =
    if r.request
    then none
    else if not r.connection.base.is_dns
    then none
    else if lookup_allowed r.connection
    then some (record r { request = true }, resolving)
    else some (on_resolve_failure r)

-- `OnResolveSuccess`.
unfoldable pub on_resolve_success : List SockAddr → CResolveOnly → CResolveOnly × ResolveReport
on_resolve_success response r = (
  record r { request = false; retries = r.connection.opts.retries },
  resolve_complete (map (resolved_connection r.connection.opts r.connection.net_config) response),
)

-- `Retry`.
abbrev pub retry_resolve : CResolveOnly → CResolveOnly
retry_resolve r = record r { retry_active = true }
