-- ===== src/Handler/Frame.antt =====
-- What an operation of the handler leaves alone: the limit of `Start`, and whether its two events
-- exist (src/handler.cpp).
use libbtcnet.Base.{
  ℕ, Bool, true, false, ◌&&◌, List, [], ◌∷◌, Option, none, some, ◌≡◌, refl, subst, ◌∙◌, inl, inr,
  Bool-cases, Option-cases, if◌then◌else◌, arith,
}
use libbtcnet.Base.Int.{ℤ}
use libbtcnet.Map.{lookup}
use libbtcnet.Connection.{SockAddr, CConnection, is_resolve_only}
use libbtcnet.Object.{
  ConnectionBase, ConnectionFailureType, Report, pending, connection_failure, incoming_connected,
  outgoing_connected, go_live,
}
use libbtcnet.ResolveOnly.{
  CResolveOnly, ResolveReport, resolving, resolve_failure, resolve_complete,
}
use libbtcnet.Peer
use libbtcnet.Peer.{Turn}
use libbtcnet.Live.{LiveEvent, run_live}
use libbtcnet.Handler.State.{Client, Handler, notify, on_need_outgoing_connections}
use libbtcnet.Handler.Ops.{
  requeue, requeue_or_request, connection_failed, disconnected, incoming_up, outgoing_up,
  take_report, on_connecting, resolve_done, resolve_failed_up, on_resolving,
}
use libbtcnet.Handler.Loop.{
  start_connection, start_connections, accept_conn, on_accept, bind, on_listen_error,
  request_outgoing, needed, chosen, is_zero,
}
use libbtcnet.Handler.Binds.{bind-cases}
use libbtcnet.Handler.Calls.{
  take_turn, on_live, Request, ask_close, ask_pause, ask_unpause, ask_ping, ask_limit, ask_send,
  run_request, close_connection, pause_recv, unpause_recv, reset_ping_timeout, set_rate_limit, send,
}

abbrev pub Keeps : Handler → Handler → Type 0
Keeps h g = (g.outgoing_conn_limit ≡ h.outgoing_conn_limit) × (g.events ≡ h.events)

abbrev pub Frame : Handler → Option Handler → Type 0
Frame h none = Unit
Frame h (some g) = Keeps h g

requeue_or_request-Keeps :
    (i : Client) (r : Bool) (c : ConnectionBase) (h : Handler)
    → Keeps h (requeue_or_request i r c h)
unfolding requeue_or_request requeue
requeue_or_request-Keeps i r c h = ground arith

connection_failed-Frame :
    (i : Client) (id : ℕ) (t : ConnectionFailureType) (failed : CConnection) (r : Bool)
    (h : Handler)
    → Frame h (connection_failed i id t failed r h)
unfolding connection_failed requeue_or_request requeue
connection_failed-Frame i id t failed r h = ground arith

disconnected-Frame :
    (i : Client) (id : ℕ) (r : Bool) (h : Handler) → Frame h (disconnected i id r h)
unfolding disconnected requeue_or_request requeue
disconnected-Frame i id r h = ground arith

incoming_up-Frame :
    (i : Client) (id : ℕ) (c d : CConnection) (h : Handler) → Frame h (incoming_up i id c d h)
unfolding incoming_up go_live
incoming_up-Frame i id c d h = ground arith

outgoing_up-Frame :
    (i : Client) (id : ℕ) (c d : CConnection) (h : Handler) → Frame h (outgoing_up i id c d h)
unfolding outgoing_up go_live
outgoing_up-Frame i id c d h = ground arith

take_report-Frame :
    (i : Client) (id : ℕ) (c : ConnectionBase) (r : Report) (h : Handler)
    → Frame h (take_report i id c r h)
unfolding take_report
take_report-Frame i id c pending h = (refl, refl)
take_report-Frame i id c (connection_failure t f b) h = connection_failed-Frame i c.id t f b _
take_report-Frame i id c (incoming_connected d) h = incoming_up-Frame i c.id c.connection d _
take_report-Frame i id c (outgoing_connected d) h = outgoing_up-Frame i c.id c.connection d _

pub on_connecting-Frame :
    (i : Client) (id : ℕ) (op : ConnectionBase → Option (ConnectionBase × Report)) (h : Handler)
    → Frame h (on_connecting i id op h)
unfolding on_connecting
on_connecting-Frame i id op h = elim (Option-cases (lookup id h.connecting)) [
  | inl e ↦ rw (e, on_connecting) tt
  | inr (c, e) ↦ elim (Option-cases (op c)) [
    | inl n ↦ rw (e, on_connecting, n) tt
    | inr ((d, r), n) ↦ rw (e, on_connecting, n) (take_report-Frame i id d r h)
  ]
]

resolve_failed_up-Frame :
    (i : Client) (id : ℕ) (conn : CConnection) (r : Bool) (h : Handler)
    → Frame h (resolve_failed_up i id conn r h)
unfolding resolve_failed_up
resolve_failed_up-Frame i id conn r h = ground arith

resolve_report-Frame :
    (i : Client) (c : CResolveOnly) (r : ResolveReport) (h : Handler)
    → Frame h (elim r [
      | resolving ↦ some h
      | resolve_failure b ↦ resolve_failed_up i c.id c.connection b h
      | resolve_complete l ↦ some (resolve_done c.id c.connection l h)
    ])
unfolding resolve_done
resolve_report-Frame i c resolving h = (refl, refl)
resolve_report-Frame i c (resolve_failure b) h = resolve_failed_up-Frame i c.id c.connection b h
resolve_report-Frame i c (resolve_complete l) h = (refl, refl)

pub on_resolving-Frame :
    (i : Client) (id : ℕ) (op : CResolveOnly → Option (CResolveOnly × ResolveReport)) (h : Handler)
    → Frame h (on_resolving i id op h)
unfolding on_resolving
on_resolving-Frame i id op h = elim (Option-cases (lookup id h.dns_resolves)) [
  | inl e ↦ rw (e, on_resolving) tt
  | inr (c, e) ↦ elim (Option-cases (op c)) [
    | inl n ↦ rw (e, on_resolving, n) tt
    | inr ((d, r), n) ↦ rw (e, on_resolving, n) (resolve_report-Frame i d r _)
  ]
]

take_turn-Frame : (i : Client) (id : ℕ) (t : Turn) (h : Handler) → Frame h (take_turn i id t h)
unfolding take_turn
take_turn-Frame i id t h = elim (Bool-cases t.closed) [
  | inl e ↦ rw (e, take_turn) (disconnected-Frame i t.object.id _ _)
  | inr e ↦ rw (e, take_turn) (refl, refl)
]

pub on_live-Frame : (i : Client) (id : ℕ) (e : LiveEvent) (h : Handler) → Frame h (on_live i id e h)
unfolding on_live
on_live-Frame i id x h = elim (Option-cases (lookup id h.connected)) [
  | inl e ↦ rw (e, on_live) tt
  | inr (c, e) ↦ elim (Option-cases (run_live x c)) [
    | inl n ↦ rw (e, on_live, n) tt
    | inr (t, n) ↦ rw (e, on_live, n) (take_turn-Frame i id t h)
  ]
]

pub accept_conn-Frame :
    (i : Client) (b : CConnection) (a : SockAddr) (h : Handler) → Frame h (accept_conn i b a h)
unfolding accept_conn
accept_conn-Frame i b a h = on_connecting-Frame i h.connection_index _ _

Frame-if :
    (b : Bool) (h : Handler) (x y : Option Handler)
    → Frame h x
    → Frame h y
    → Frame h (if b then x else y)
Frame-if true h x y p q = p
Frame-if false h x y p q = q

start_connection-Frame :
    (i : Client) (c : CConnection) (h : Handler) → Frame h (start_connection i c h)
unfolding start_connection
start_connection-Frame i c h =
    elim (Bool-cases (c.base.is_dns && is_resolve_only c.opts.do_resolve)) [
      | inl e ↦ elim (Bool-cases c.proxy.base.is_set) [
        | inl f ↦ rw (start_connection, e, f) (refl, refl)
        | inr f ↦ rw (start_connection, e, f) (on_resolving-Frame i h.connection_index _ _)
      ]
      | inr e ↦ rw (start_connection, e) (on_connecting-Frame i h.connection_index _ _)
    ]

Frame-trans : (h g : Handler) (o : Option Handler) → Keeps h g → Frame g o → Frame h o
Frame-trans h g none p q = tt
Frame-trans h g (some f) p q = (q.0 ∙ p.0, q.1 ∙ p.1)

start_connections-Frame :
    (i : Client) (cs : List CConnection) (h : Handler) → Frame h (start_connections i cs h)
unfolding start_connections
start_connections-Frame i [] h = (refl, refl)
start_connections-Frame i (c ∷ cs) h =
    let first : Option Handler = if c.base.is_set then start_connection i c h else some h in
    let kept : Frame h first =
      Frame-if c.base.is_set h (start_connection i c h) (some h) (start_connection-Frame i c h)
        (refl, refl) in
    elim (Option-cases first) [
      | inl e ↦ rw (start_connections, e) tt
      | inr (g, e) ↦
          rw (start_connections, e)
            (Frame-trans h g (start_connections i cs g) (subst (Frame h) e kept)
              (start_connections-Frame i cs g))
    ]

pub request_outgoing-Frame : (i : Client) (h : Handler) → Frame h (request_outgoing i h)
unfolding request_outgoing
request_outgoing-Frame i h =
    let need = needed h in
    let g = notify (on_need_outgoing_connections need) h in
    Frame-if (is_zero need) h (some h)
      (start_connections i (chosen need (i.candidates g.calls need)) g) (refl, refl)
      (Frame-trans h g (start_connections i (chosen need (i.candidates g.calls need)) g)
        (refl, refl) (start_connections-Frame i (chosen need (i.candidates g.calls need)) g))

pub on_accept-Frame :
    (i : Client) (id : ℕ) (a : SockAddr) (h : Handler) → Frame h (on_accept i id a h)
unfolding on_accept
on_accept-Frame i id a h = elim (Option-cases (lookup id h.binds)) [
  | inl e ↦ rw (e, on_accept) tt
  | inr (l, e) ↦ rw (e, on_accept) (accept_conn-Frame i l.connection a h)
]

pub on_listen_error-Frame : (id : ℕ) (h : Handler) → Frame h (on_listen_error id h)
unfolding on_listen_error
on_listen_error-Frame id h = ground arith

-- The same for an operation that has an answer.
abbrev pub FrameSaid : Handler → Option (Handler × Bool) → Type 0
FrameSaid h none = Unit
FrameSaid h (some (g, said)) = Keeps h g

pub bind-Frame :
    (bound done : Bool) (c : CConnection) (h : Handler) → FrameSaid h (bind bound done c h)
bind-Frame true done c h = bind-cases (FrameSaid h) true done c h (λ off. tt) (λ on. (refl, refl))
bind-Frame false done c h = bind-cases (FrameSaid h) false done c h (λ off. tt) (λ on. (refl, refl))

pub run_request-Frame : (id : ℤ) (r : Request) (h : Handler) → FrameSaid h (run_request id r h)
unfolding run_request close_connection pause_recv unpause_recv reset_ping_timeout set_rate_limit
    send Peer.write
run_request-Frame id (ask_close immediately) h = ground arith
run_request-Frame id ask_pause h = ground arith
run_request-Frame id ask_unpause h = ground arith
run_request-Frame id (ask_ping seconds) h = ground arith
run_request-Frame id (ask_limit accepted l) h = ground arith
run_request-Frame id (ask_send accepted bytes) h = ground arith
