-- ===== src/Handler/Lives.antt =====
-- The handler's invariant through what the connections that stand do (src/handler.cpp).
use libbtcnet.Base.{
  ℕ, ◌+◌, ◌<◌, Bool, true, false, ◌&&◌, List, some, ◌≡◌, refl, sym, ap, subst, ◌∙◌, is_some, map,
  arith,
}
use libbtcnet.Map.{lookup, modify}
use libbtcnet.Map.Laws.{lookup-modify_self, count-modify, Each-lookup}
use libbtcnet.Object.{ConnectionBase, incoming, is_outgoing}
use libbtcnet.Peer.{Turn}
use libbtcnet.Live.{LiveEvent, run_live}
use libbtcnet.Live.Keeps.{Same, Stays, run_live-Stays}
use libbtcnet.Handler.State.{Call, Client, Handler, notify_all, max_index}
use libbtcnet.Handler.Calls.{live_call, take_turn, on_live}
use libbtcnet.Handler.Tidy.{Named, Standing, Tidy-modify_connected}
use libbtcnet.Handler.Bound.{Bound, Gives, Gives-if, Bound-mono}
use libbtcnet.Handler.Reports.{disconnected-Gives}

-- The object is another state of the same one.
abbrev pub Continues : ConnectionBase → ConnectionBase → Type 0
Continues c d = (d.id ≡ c.id) × (is_outgoing d ≡ is_outgoing c) × (is_some d.bev ≡ true)

Same-Continues : (c d : ConnectionBase) → Same c d → Continues c d
Same-Continues c d (id, kind, connection, ptr, up) =
    (id, ap (λ k. elim k [ incoming ↦ false | _ ↦ true ]) kind, up)

pub Bound-modify_connected :
    {n m : ℕ} {h : Handler} (id : ℕ) (c d : ConnectionBase)
    → lookup id h.connected ≡ some c
    → Continues c d
    → Bound n m h
    → Bound n m (record h { connected = modify id (λ _. d) h.connected })
Bound-modify_connected {h = h} id c d e (same, kind, up) b = record {
  tidy = Tidy-modify_connected b.tidy id c d e same kind up;
  resolves_named = b.resolves_named;
  listeners = b.listeners;
  load_le = omega (arith, count-modify is_outgoing id c d h.connected e kind, b.load_le);
  index_le = b.index_le;
}

Bound-notify_all :
    {n m : ℕ} {h : Handler} (l : List Call) → Bound n m h → Bound n m (notify_all l h)
Bound-notify_all l b = record {
  tidy = b.tidy;
  resolves_named = b.resolves_named;
  listeners = b.listeners;
  load_le = b.load_le;
  index_le = b.index_le;
}

persistent_outgoing : (p o : Bool) → (p && o) ≡ true → o ≡ true
persistent_outgoing true o h = h
persistent_outgoing false o h = cc h

take_turn-Gives :
    {n m : ℕ} {h : Handler} (i : Client) (id : ℕ) (c : ConnectionBase) (t : Turn)
    → m < max_index
    → lookup id h.connected ≡ some c
    → Continues c t.object
    → Bound n m h
    → Gives n (m + 1) (take_turn i id t h)
unfolding take_turn
take_turn-Gives {n} {m} {h} i id c t lt e keeps b =
    let d = t.object in
    let calls = map (live_call d.id) t.calls in
    let own : d.id ≡ id =
      keeps.0
      ∙ (Each-lookup (Named h.connection_index) id h.connected b.tidy.connected_named e).1 in
    let stored : lookup d.id (modify id (λ _. d) h.connected) ≡ some d =
      subst (λ k. lookup k (modify id (λ _. d) h.connected) ≡ some d) (sym own)
        (lookup-modify_self id (λ _. d) c h.connected e) in
    let changed = Bound-notify_all calls (Bound-modify_connected id c d e keeps b) in
    let again = d.connection.opts.persistent && is_outgoing d in
    Gives-if t.closed
      (λ _.
        disconnected-Gives i d.id d again
          (persistent_outgoing d.connection.opts.persistent (is_outgoing d)) lt stored changed)
      (λ _. (_, refl, Bound-mono (omega arith) (omega arith) changed))

pub stands :
    {n m : ℕ} {h : Handler} (id : ℕ) (c : ConnectionBase)
    → lookup id h.connected ≡ some c
    → Bound n m h
    → is_some c.bev ≡ true
stands {h = h} id c e b = Each-lookup Standing id h.connected b.tidy.standing e

-- An event of a connection that stands and that fails no assertion of the object fails none of the
-- handler either, if the handler satisfies its invariant and has an id left. The invariant is kept
-- and the load stays within its bound, also if the event ends the connection, whatever the
-- application answers.
pub on_live-Gives :
    {n m : ℕ} {h : Handler} (i : Client) (id : ℕ) (e : LiveEvent) (c : ConnectionBase) (t : Turn)
    → m < max_index
    → lookup id h.connected ≡ some c
    → run_live e c ≡ some t
    → Bound n m h
    → Gives n (m + 1) (on_live i id e h)
unfolding on_live
on_live-Gives i id e c t lt l r b =
    let keeps : Same c t.object = subst (Stays c) r (run_live-Stays e c (stands id c l b)) in
    let (g, done, b') = take_turn-Gives i id c t lt l (Same-Continues c t.object keeps) b in
    (g, rw (l, on_live, r) done, b')
