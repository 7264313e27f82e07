-- ===== src/Handler/Accepts.antt =====
-- `OnIncomingConnection` (src/handler.cpp): an incoming connection is up at once, so it is not one
-- of those under way for longer than the call.
use libbtcnet.Base.{ℕ, ◌+◌, ◌≤◌, [], some, refl, arith}
use libbtcnet.Map.{emplace}
use libbtcnet.Map.Laws.{lookup-emplace_self, lookup-modify_self}
use libbtcnet.Connection.{SockAddr, CConnection, resolved_connection}
use libbtcnet.Object.{new_connection, incoming, init_connection}
use libbtcnet.Transport.{connect, incoming_connect}
use libbtcnet.Handler.State.{Client, Handler, max_index}
use libbtcnet.Handler.Ops.{take_report, on_connecting}
use libbtcnet.Handler.Loop.{take_index, accept_conn}
use libbtcnet.Handler.Tidy.{fresh}
use libbtcnet.Handler.Bound.{Bound, Gives, Bound-mono}
use libbtcnet.Handler.Reports.{incoming_up-Gives}
use libbtcnet.Handler.Steps.{Bound-modify_connecting}
use libbtcnet.Handler.Starts.{Bound-emplace}

pub accept_conn-Gives :
    {n m : ℕ} {h : Handler} (i : Client) (b : CConnection) (a : SockAddr)
    → m + 2 ≤ max_index
    → Bound n m h
    → Gives n (m + 1) (accept_conn i b a h)
unfolding accept_conn on_connecting connect incoming_connect init_connection new_connection
    take_report
accept_conn-Gives {n} {m} {h} i b a lt v =
    let k = h.connection_index in
    let c = new_connection incoming b k (some a) in
    let d = init_connection [] c in
    let r = resolved_connection b.opts b.net_config a in
    let g : Handler = record (take_index h) { connecting = emplace k c h.connecting } in
    let free = fresh k k h.connecting v.tidy.connecting_named (omega arith) in
    let here = lookup-emplace_self k c h.connecting free in
    let started = Bound-emplace {h = h} c refl (omega arith) v in
    let changed = Bound-modify_connecting {h = g} k c d here refl started in
    let stored = lookup-modify_self k (λ _. d) c g.connecting here in
    let (f, done, bound) =
      incoming_up-Gives {n = n + 1} {m = m + 1} i k d b r (refl, refl) stored changed in
    (f, rw (here, on_connecting) done, Bound-mono (omega arith) (omega arith) bound)
