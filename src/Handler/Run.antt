-- ===== src/Handler/Run.antt =====
-- The runs of the handler (src/handler.cpp), as steps of its event loop.
use libbtcnet.Base.{ℕ, ◌+◌, ◌*◌, ◌≤◌, Bool, true, false, List, Option, none, some, ◌≡◌, length}
use libbtcnet.Base.Int.{ℤ}
use libbtcnet.Connection.{SockAddr, CConnection}
use libbtcnet.ResolveOnly.{
  CResolveOnly, ResolveReport, resolve, on_resolve_failure, on_resolve_success,
}
use libbtcnet.Transport.Reports.{ConnEvent, run_event}
use libbtcnet.Handler.State.{
  Client, Handler, new_handler, notify, max_index, on_need_outgoing_connections,
}
use libbtcnet.Handler.Ops.{on_connecting, on_resolving}
use libbtcnet.Handler.Loop.{
  bind, on_accept, on_listen_error, needed, chosen, request_outgoing, shutdown_int, pump_end, start,
}
use libbtcnet.Live.{LiveEvent}
use libbtcnet.Handler.Calls.{on_live, Request, run_request}
use libbtcnet.Handler.Bound.{load, Bound}

-- What can happen to a lookup: its own event, or the end of the request.
pub data ResolveEvent : Type 0 where
  resolve_timer : ResolveEvent
  request_ended : Option (List SockAddr) → ResolveEvent

unfoldable pub run_resolve : ResolveEvent → CResolveOnly → Option (CResolveOnly × ResolveReport)
unfolding resolve on_resolve_failure on_resolve_success
run_resolve resolve_timer c = resolve (record c { retry_active = false })
run_resolve (request_ended none) c = some (on_resolve_failure c)
run_resolve (request_ended (some l)) c = some (on_resolve_success l c)

-- The ids that a request for connections may use up.
abbrev pub request_width : Client → Handler → ℕ
request_width i h =
    let need = needed h in
    2
    * length (chosen need (i.candidates (notify (on_need_outgoing_connections need) h).calls need))

-- One step of the event loop that ends without a failed assertion.
pub data Step (i : Client) (h : Handler) : Handler → Type 0 where
  connecting_step :
      {g : Handler} (id : ℕ) (e : ConnEvent)
      → on_connecting i id (run_event e) h ≡ some g
      → Step i h g
  resolving_step :
      {g : Handler} (id : ℕ) (e : ResolveEvent)
      → on_resolving i id (run_resolve e) h ≡ some g
      → Step i h g
  live_step : {g : Handler} (id : ℕ) (e : LiveEvent) → on_live i id e h ≡ some g → Step i h g
  ask_step :
      {g : Handler} (id : ℤ) (r : Request) (said : Bool)
      → run_request id r h ≡ some (g, said)
      → Step i h g
  accept_step : {g : Handler} (id : ℕ) (a : SockAddr) → on_accept i id a h ≡ some g → Step i h g
  bind_step :
      {g : Handler} (bound done said : Bool) (c : CConnection)
      → bind bound done c h ≡ some (g, said)
      → Step i h g
  listen_step : {g : Handler} (id : ℕ) → on_listen_error id h ≡ some g → Step i h g
  request_step :
      {g : Handler}
      → h.events ≡ true
      → h.connection_index + request_width i h ≤ max_index
      → request_outgoing i h ≡ some g
      → Step i h g
  shutdown_step : {g : Handler} → shutdown_int h ≡ some g → Step i h g
  end_step : h.running ≡ true → h.shutdown ≡ true → Step i h (pump_end h)
  start_step : {g : Handler} (limit : ℤ) → start limit h ≡ some g → Step i h g

-- The handlers of a run from a new one, while 16 ids are left before they wrap around.
pub data Reach (i : Client) : Handler → Type 0 where
  reach_new : Reach i new_handler
  reach_step :
      {h g : Handler} → Reach i h → h.connection_index + 16 ≤ max_index → Step i h g → Reach i g

-- The invariant, with the least bounds.
abbrev pub Invariant : Handler → Type 0
Invariant h = Bound (load h) h.connection_index h
