-- ===== src/Handler/Reach.antt =====
-- The invariant of every run of the handler (src/handler.cpp).
use libbtcnet.Base.{
  ℕ, ◌+◌, ◌≤◌, Bool, true, false, not, ◌&&◌, ◌||◌, [], Option, none, some, ◌≡◌, refl, subst, inl,
  inr, Bool-cases, Option-cases, arith,
}
use libbtcnet.Base.Int.{ℤ, pos}
use libbtcnet.Map.{lookup, count}
use libbtcnet.Connection.{SockAddr, CConnection}
use libbtcnet.ResolveOnly.{
  CResolveOnly, ResolveReport, resolve, on_resolve_failure, on_resolve_success,
}
use libbtcnet.Object.{ConnectionBase, Report}
use libbtcnet.Transport.Reports.{run_event}
use libbtcnet.Handler.State.{Client, Handler, notify, max_index, on_need_outgoing_connections}
use libbtcnet.Handler.Ops.{on_connecting, on_resolving}
use libbtcnet.Handler.Loop.{
  on_accept, on_listen_error, accept_conn, needed, chosen, request_outgoing, shutdown_int, start,
  is_zero,
}
use libbtcnet.Handler.Tidy.{Tidy}
use libbtcnet.Handler.Bound.{load, Bound, Gives, Gives-if, Bound-notify, Bound-mono}
use libbtcnet.Peer.{Turn}
use libbtcnet.Live.{LiveEvent, run_live}
use libbtcnet.Handler.Calls.{on_live, Request, run_request}
use libbtcnet.Handler.Lives.{on_live-Gives}
use libbtcnet.Listener.{CConnListener}
use libbtcnet.Handler.Accepts.{accept_conn-Gives}
use libbtcnet.Handler.Binds.{bind-Bound, on_listen_error-Bound}
use libbtcnet.Handler.Requests.{run_request-Bound}
use libbtcnet.Handler.Steps.{run_event-Gives}
use libbtcnet.Handler.Resolves.{on_resolving-Gives}
use libbtcnet.Handler.Starts.{start_connections-Gives}
use libbtcnet.Handler.Shutdown.{stopped, shutdown_int-stopped}
use libbtcnet.Handler.Run.{
  ResolveEvent, resolve_timer, request_ended, run_resolve, request_width, Step, connecting_step,
  resolving_step, live_step, ask_step, accept_step, bind_step, listen_step, request_step,
  shutdown_step, end_step, start_step, Reach, reach_new, reach_step, Invariant,
}

Invariant-Bound : {n m : ℕ} {h : Handler} → Bound n m h → Invariant h
Invariant-Bound b = record {
  tidy = b.tidy;
  resolves_named = b.resolves_named;
  listeners = b.listeners;
  load_le = omega arith;
  index_le = omega arith;
}

pub same_some {ℓ} : {A : Type ℓ} {o : Option A} {x y : A} → o ≡ some x → o ≡ some y → x ≡ y
same_some p q = cc (p, q)

Invariant-Gives :
    {n m : ℕ} {o : Option Handler} {g : Handler} → o ≡ some g → Gives n m o → Invariant g
Invariant-Gives e (f, done, b) = subst Invariant (same_some done e) (Invariant-Bound b)

pub shut_down : (h : Handler) → h.shutdown ≡ true → shutdown_int h ≡ some h
unfolding shutdown_int
shut_down h s = rw s refl

-- A step that succeeds found its object, and the operation of the object succeeded.
pub on_connecting_found :
    (i : Client) (id : ℕ) (op : ConnectionBase → Option (ConnectionBase × Report)) (h g : Handler)
    → on_connecting i id op h ≡ some g
    → (c d : ConnectionBase) × (r : Report) × (lookup id h.connecting ≡ some c)
      × (op c ≡ some (d, r))
unfolding on_connecting
on_connecting_found i id op h g e = elim (Option-cases (lookup id h.connecting)) [
  | inl n ↦ cc (rw (n, on_connecting) at e)
  | inr (c, s) ↦ elim (Option-cases (op c)) [
    | inl n ↦ cc (rw (s, on_connecting, n) at e)
    | inr ((d, r), s') ↦ (c, d, r, s, s')
  ]
]

pub on_resolving_found :
    (i : Client) (id : ℕ) (op : CResolveOnly → Option (CResolveOnly × ResolveReport))
    (h g : Handler)
    → on_resolving i id op h ≡ some g
    → (c d : CResolveOnly) × (r : ResolveReport) × (lookup id h.dns_resolves ≡ some c)
      × (op c ≡ some (d, r))
unfolding on_resolving
on_resolving_found i id op h g e = elim (Option-cases (lookup id h.dns_resolves)) [
  | inl n ↦ cc (rw (n, on_resolving) at e)
  | inr (c, s) ↦ elim (Option-cases (op c)) [
    | inl n ↦ cc (rw (s, on_resolving, n) at e)
    | inr ((d, r), s') ↦ (c, d, r, s, s')
  ]
]

pub run_resolve-id :
    (e : ResolveEvent) (c d : CResolveOnly) (r : ResolveReport)
    → run_resolve e c ≡ some (d, r)
    → d.id ≡ c.id
unfolding run_resolve resolve on_resolve_failure on_resolve_success
run_resolve-id resolve_timer c d r h = ground (arith, h)
run_resolve-id (request_ended none) c d r h = ground (arith, h)
run_resolve-id (request_ended (some l)) c d r h = ground (arith, h)

pub on_live_found :
    (i : Client) (id : ℕ) (x : LiveEvent) (h g : Handler)
    → on_live i id x h ≡ some g
    → (c : ConnectionBase) × (t : Turn) × (lookup id h.connected ≡ some c) × (run_live x c ≡ some t)
unfolding on_live
on_live_found i id x h g e = elim (Option-cases (lookup id h.connected)) [
  | inl n ↦ cc (rw (n, on_live) at e)
  | inr (c, s) ↦ elim (Option-cases (run_live x c)) [
    | inl n ↦ cc (rw (s, on_live, n) at e)
    | inr (t, s') ↦ (c, t, s, s')
  ]
]

ask_step-Invariant :
    (id : ℤ) (r : Request) (said : Bool) (h g : Handler)
    → run_request id r h ≡ some (g, said)
    → Invariant h
    → Invariant g
ask_step-Invariant id r said h g e v = Invariant-Bound (run_request-Bound id r said e v)

pub on_accept_found :
    (i : Client) (id : ℕ) (a : SockAddr) (h g : Handler)
    → on_accept i id a h ≡ some g
    → (b : CConnection) × (accept_conn i b a h ≡ some g)
unfolding on_accept
on_accept_found i id a h g e = elim (Option-cases (lookup id h.binds)) [
  | inl n ↦ cc (rw (n, on_accept) at e)
  | inr (l, s) ↦ (l.connection, rw (s, on_accept) at e)
]

pub on_listen_error_found :
    (id : ℕ) (h g : Handler)
    → on_listen_error id h ≡ some g
    → (l : CConnListener) × (lookup id h.binds ≡ some l)
unfolding on_listen_error
on_listen_error_found id h g e = elim (Option-cases (lookup id h.binds)) [
  | inl n ↦ cc (rw (n, on_listen_error) at e)
  | inr (l, s) ↦ (l, s)
]

-- A request for which enough ids are left.
pub request_outgoing-Gives :
    (i : Client) (h : Handler)
    → h.connection_index + request_width i h ≤ max_index
    → Invariant h
    → let width = request_width i h in
      Gives (load h + width) (h.connection_index + width) (request_outgoing i h)
unfolding request_outgoing
request_outgoing-Gives i h room v =
    let need = needed h in
    let asked = notify (on_need_outgoing_connections need) h in
    let cs = chosen need (i.candidates asked.calls need) in
    let v' : Bound (load h) h.connection_index asked = Bound-notify _ v in
    Gives-if (is_zero need) (λ _. (h, refl, Bound-mono (omega arith) (omega arith) v))
      (λ _.
        let (g, done, b) = start_connections-Gives i cs room v' in
        (g, done, Bound-mono (omega arith) (omega arith) b))

empty_Tidy : (index : ℕ) → Tidy [] [] index (pos 0) (pos 0)
unfolding lookup count
empty_Tidy index = record {
  connected_keys = tt;
  connecting_keys = tt;
  connected_named = tt;
  connecting_named = tt;
  standing = tt;
  disjoint = λ k. inl refl;
  outgoing_counted = refl;
  incoming_counted = refl;
}

stopped-Invariant : (h : Handler) → Invariant (stopped h)
unfolding count
stopped-Invariant h = record {
  tidy = empty_Tidy h.connection_index;
  resolves_named = tt;
  listeners = (tt, tt);
  load_le = omega arith;
  index_le = omega arith;
}

shutdown_step-Invariant : (h g : Handler) → shutdown_int h ≡ some g → Invariant h → Invariant g
shutdown_step-Invariant h g e v = elim (Bool-cases h.shutdown) [
  | inl s ↦ subst Invariant (same_some (shut_down h s) e) v
  | inr s ↦ subst Invariant (same_some (shutdown_int-stopped h v.tidy s) e) (stopped-Invariant h)
]

start_step-Invariant :
    (limit : ℤ) (h g : Handler) → start limit h ≡ some g → Invariant h → Invariant g
unfolding start
start_step-Invariant limit h g e v =
    elim (Bool-cases (
      not (is_zero h.outgoing_conn_count && is_zero h.incoming_conn_count)
      || h.running
      || h.events)) [
        | inl s ↦ cc (rw s at e)
        | inr s ↦ subst Invariant (same_some refl (rw s at e)) (record {
          tidy = v.tidy;
          resolves_named = v.resolves_named;
          listeners = v.listeners;
          load_le = v.load_le;
          index_le = v.index_le;
        })
      ]

ended_Bound : {n m : ℕ} {h : Handler} → Bound n m h → Bound n m (record h { running = false })
ended_Bound v = record {
  tidy = v.tidy;
  resolves_named = v.resolves_named;
  listeners = v.listeners;
  load_le = v.load_le;
  index_le = v.index_le;
}

pub Step-Invariant :
    {i : Client} {h g : Handler}
    → h.connection_index + 16 ≤ max_index
    → Step i h g
    → Invariant h
    → Invariant g
Step-Invariant {i} {h} room (connecting_step {g} id e s) v =
    let (c, d, r, l, o) = on_connecting_found i id (run_event e) h g s in
    Invariant-Gives s (run_event-Gives i id e c d r (omega arith) l o v)
Step-Invariant {i} {h} room (resolving_step {g} id e s) v =
    let (c, d, r, l, o) = on_resolving_found i id (run_resolve e) h g s in
    Invariant-Gives s
      (on_resolving-Gives i id (run_resolve e) c d r l o (run_resolve-id e c d r o) v)
Step-Invariant {i} {h} room (live_step {g} id e s) v =
    let (c, t, l, r) = on_live_found i id e h g s in
    Invariant-Gives s (on_live-Gives i id e c t (omega arith) l r v)
Step-Invariant {i} {h} room (ask_step {g} id r said s) v = ask_step-Invariant id r said h g s v
Step-Invariant {i} {h} room (accept_step {g} id a s) v =
    let (b, s') = on_accept_found i id a h g s in
    Invariant-Gives s' (accept_conn-Gives i b a (omega arith) v)
Step-Invariant {i} {h} room (bind_step {g} bound done said c s) v =
    Invariant-Bound (bind-Bound bound done said c (omega arith) s v)
Step-Invariant {i} {h} room (listen_step {g} id s) v =
    let (l, e) = on_listen_error_found id h g s in
    let (f, did, _, _, b) = on_listen_error-Bound id l e v in
    subst Invariant (same_some did s) (Invariant-Bound b)
Step-Invariant {i} {h} room (request_step {g} on width s) v =
    Invariant-Gives s (request_outgoing-Gives i h width v)
Step-Invariant {i} {h} room (shutdown_step {g} s) v = shutdown_step-Invariant h g s v
Step-Invariant {i} {h} room (end_step on down) v = Bound-notify _ (ended_Bound v)
Step-Invariant {i} {h} room (start_step {g} limit s) v = start_step-Invariant limit h g s v

-- Every handler of a run, from a new one and while 16 ids are left before they wrap around,
-- satisfies the invariant: each connection stands in at most one of the two maps, under its own id;
-- those that are connected have their `bufferevent`; the two counters are the numbers of outgoing
-- and incoming connections that stand; each lookup and each listener stands under its own id, and
-- the latter holds its socket.
pub Reach-Invariant : {i : Client} {h : Handler} → Reach i h → Invariant h
unfolding count
Reach-Invariant reach_new = record {
  tidy = empty_Tidy 0;
  resolves_named = tt;
  listeners = (tt, tt);
  load_le = omega arith;
  index_le = omega arith;
}
Reach-Invariant (reach_step r room s) = Step-Invariant room s (Reach-Invariant r)

-- At any point of a run, from a new handler and while 16 ids are left before they wrap around, if
-- there was no shutdown yet, a shutdown passes the assertions at its end. It leaves no connection,
-- lookup or listening socket and both counters at 0, and tells the application once of every
-- connection that stood and of every outgoing attempt, in the order of their ids.
pub Reach-shutdown_int :
    {i : Client} {h : Handler} → Reach i h → h.shutdown ≡ false → shutdown_int h ≡ some (stopped h)
Reach-shutdown_int {h = h} r s = shutdown_int-stopped h (Reach-Invariant r).tidy s
