-- ===== src/Handler/Told/Starts.antt =====
-- What the application is told through the calls by id and the start of new connections
-- (src/handler.cpp).
use libbtcnet.Base.{
  ℕ, ◌+◌, ◌*◌, ◌≤◌, ◌<◌, Bool, false, ◌&&◌, List, [], ◌∷◌, Option, none, some, ◌≡◌, refl, subst,
  sym, inl, inr, Option-cases, if◌then◌else◌, length, Bytes, arith,
}
use libbtcnet.Base.Int.{ℤ, pos, negsuc}
use libbtcnet.Connection.{SockAddr, CConnection, is_resolve_only}
use libbtcnet.Map.{emplace, Each}
use libbtcnet.Map.Laws.{has-emplace, has-modify, Each-emplace, Each-mono, Ascending-emplace}
use libbtcnet.Object.{ConnectionBase, incoming, new_connection}
use libbtcnet.Peer
use libbtcnet.Peer.{on_some}
use libbtcnet.ResolveOnly.{resolve}
use libbtcnet.Transport.{connect}
use libbtcnet.Transport.Reports.{connect-Allows}
use libbtcnet.Handler.State.{Client, Handler, max_index}
use libbtcnet.Handler.Ops.{on_connecting}
use libbtcnet.Handler.Loop.{take_index, kind_for, start_connection, start_connections, accept_conn}
use libbtcnet.Handler.Calls.{
  find_connected, set_connected, by_id, Request, ask_close, ask_pause, ask_unpause, ask_ping,
  ask_limit, ask_send, run_request, close_connection, pause_recv, unpause_recv, reset_ping_timeout,
  set_rate_limit, send,
}
use libbtcnet.Handler.Tidy.{Named}
use libbtcnet.Handler.Bound.{Bound, Gives-if, Bound-mono, next_index-suc}
use libbtcnet.Handler.Starts.{start_connection-Gives}
use libbtcnet.Handler.Told.{Told, Told-maps}
use libbtcnet.Handler.Told.Reports.{Tells, Tells-if, Told-same}
use libbtcnet.Handler.Told.Steps.{on_connecting-Tells, on_resolving-Tells}

-- The same for a call that has an answer.
abbrev pub TellsSaid : Option (Handler × Bool) → Type 0
TellsSaid none = Unit
TellsSaid (some (g, said)) = Told g

set_connected-Told :
    {h : Handler} (id : ℤ) (d : ConnectionBase) → Told h → Told (set_connected id d h)
set_connected-Told {h} (pos j) d t =
    Told-maps _ refl (λ k x. ground (arith, x, has-modify k j (λ _. d) h.connected))
      (λ k x. ground (arith, x)) (omega arith) t
set_connected-Told (negsuc j) d t = t

by_id-TellsSaid :
    {h : Handler} (id : ℤ) (op : ConnectionBase → Option ConnectionBase)
    → Told h
    → TellsSaid (on_some (λ g. (g, false)) (by_id id op h))
by_id-TellsSaid {h} id op t = elim (Option-cases (find_connected id h)) [
  | inl e ↦ rw (e, by_id) t
  | inr (c, e) ↦ elim (Option-cases (op c)) [
    | inl n ↦ rw (e, by_id, n) tt
    | inr (d, n) ↦ rw (e, by_id, n) (set_connected-Told id d t)
  ]
]

send-TellsSaid :
    {h : Handler} (id : ℤ) (accepted : Bool) (bytes : Bytes)
    → Told h
    → TellsSaid (send id accepted bytes h)
unfolding send
send-TellsSaid {h} id accepted bytes t = elim (Option-cases (find_connected id h)) [
  | inl e ↦ rw (e, send) t
  | inr (c, e) ↦ elim (Option-cases (Peer.write accepted bytes c)) [
    | inl n ↦ rw (e, send, n) tt
    | inr ((d, said), n) ↦ rw (e, send, n) (set_connected-Told id d t)
  ]
]

pub run_request-TellsSaid :
    {h : Handler} (id : ℤ) (r : Request) → Told h → TellsSaid (run_request id r h)
unfolding run_request close_connection pause_recv unpause_recv reset_ping_timeout set_rate_limit
run_request-TellsSaid id (ask_close immediately) t =
    by_id-TellsSaid id
      (λ c. some (if immediately then Peer.disconnect c else Peer.disconnect_when_finished c)) t
run_request-TellsSaid id ask_pause t = by_id-TellsSaid id Peer.pause_recv t
run_request-TellsSaid id ask_unpause t = by_id-TellsSaid id Peer.unpause_recv t
run_request-TellsSaid id (ask_ping seconds) t =
    by_id-TellsSaid id (λ c. some (Peer.reset_ping_timeout seconds c)) t
run_request-TellsSaid id (ask_limit accepted l) t =
    by_id-TellsSaid id (Peer.set_rate_limit accepted l) t
run_request-TellsSaid id (ask_send accepted bytes) t = send-TellsSaid id accepted bytes t

-- A new object under an id that was not in use.
new_object-Tells :
    {n m : ℕ} {h : Handler} (i : Client) (c : ConnectionBase)
    → c.id ≡ h.connection_index
    → m + 1 < max_index
    → Bound n m h
    → Told h
    → Tells (
        on_connecting i h.connection_index connect
          (record (take_index h) { connecting = emplace h.connection_index c h.connecting }))
new_object-Tells {n} {m} {h} i c own lt b t =
    let k = h.connection_index in
    let next = next_index-suc k (omega (arith, b.index_le)) in
    let g = record (take_index h) { connecting = emplace k c h.connecting } in
    let started : Told g =
      Told-maps g refl (λ j x. x) (λ j x. ground (arith, x, has-emplace j k c h.connecting))
        (omega (arith, next)) t in
    let named : Each (Named (k + 1)) (emplace k c h.connecting) =
      Each-emplace (Named (k + 1)) k c h.connecting (omega arith, own)
        (Each-mono (Named k) h.connecting (λ j v x. (omega (arith, x.0), x.1))
          b.tidy.connecting_named) in
    on_connecting-Tells i k connect connect-Allows
      (Ascending-emplace 0 k c h.connecting (omega arith) b.tidy.connecting_keys)
      (subst (λ j. Each (Named j) g.connecting) (sym next) named) (omega (arith, next, b.index_le))
      started

pub accept_conn-Tells :
    {n m : ℕ} {h : Handler} (i : Client) (b : CConnection) (a : SockAddr)
    → m + 1 < max_index
    → Bound n m h
    → Told h
    → Tells (accept_conn i b a h)
unfolding accept_conn new_connection
accept_conn-Tells {h = h} i b a lt v t =
    new_object-Tells i (new_connection incoming b h.connection_index (some a)) refl lt v t

pub take_index-Told :
    {n m : ℕ} {h : Handler} → m < max_index → Bound n m h → Told h → Told (take_index h)
take_index-Told {h = h} lt b t =
    let next = next_index-suc h.connection_index (omega (arith, b.index_le)) in
    Told-maps _ refl (λ k x. x) (λ k x. ground (arith, x)) (omega (arith, next)) t

start_connection-Tells :
    {n m : ℕ} {h : Handler} (i : Client) (c : CConnection)
    → m + 1 < max_index
    → Bound n m h
    → Told h
    → Tells (start_connection i c h)
unfolding start_connection new_connection
start_connection-Tells {h = h} i c lt b t =
    let k = h.connection_index in
    let counted = take_index-Told (omega arith) b t in
    Tells-if (c.base.is_dns && is_resolve_only c.opts.do_resolve) _ _
      (Tells-if c.proxy.base.is_set (some (take_index h)) _ counted
        (on_resolving-Tells i k resolve (Told-same refl refl refl refl counted)))
      (new_object-Tells i (new_connection (kind_for c) c k none) refl lt b t)

pub start_connections-Tells :
    {n m : ℕ} {h : Handler} (i : Client) (cs : List CConnection)
    → m + 2 * length cs ≤ max_index
    → Bound n m h
    → Told h
    → Tells (start_connections i cs h)
unfolding start_connections
start_connections-Tells i [] lt b t = t
start_connections-Tells {n} {m} {h} i (c ∷ cs) lt b t =
    let (g, done, b') =
      Gives-if c.base.is_set (λ set. start_connection-Gives i c set (omega arith) b)
        (λ _. (h, refl, Bound-mono (omega arith) (omega arith) b)) in
    let first =
      Tells-if c.base.is_set (start_connection i c h) (some h)
        (start_connection-Tells i c (omega arith) b t) t in
    rw (done, start_connections)
      (start_connections-Tells {n = n + 1} {m = m + 2} i cs (omega arith) b'
        (subst Tells done first))
