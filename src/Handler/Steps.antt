-- ===== src/Handler/Steps.antt =====
-- Every operation on a connection that is under way, with what the handler makes of its report
-- (src/handler.cpp).
use libbtcnet.Base.{ℕ, ◌+◌, ◌<◌, Option, some, ◌≡◌, refl, sym, subst, ◌∙◌, arith}
use libbtcnet.Map.{lookup, modify}
use libbtcnet.Map.Laws.{Each-lookup, lookup-modify_self, length-modify}
use libbtcnet.Object.{
  ConnectionBase, Report, pending, connection_failure, incoming_connected, outgoing_connected,
}
use libbtcnet.Transport.{connect}
use libbtcnet.Transport.Reports.{
  Fits, Allows, ConnEvent, run_event, run_event-Allows, connect-Allows,
}
use libbtcnet.Handler.State.{Client, Handler, max_index}
use libbtcnet.Handler.Ops.{connection_failed, incoming_up, outgoing_up, take_report, on_connecting}
use libbtcnet.Handler.Tidy.{Named, Tidy-modify_connecting}
use libbtcnet.Handler.Bound.{Bound, Gives, Bound-mono}
use libbtcnet.Handler.Reports.{connection_failed-Gives, outgoing_up-Gives, incoming_up-Gives}

pub Bound-modify_connecting :
    {n m : ℕ} {h : Handler} (id : ℕ) (c d : ConnectionBase)
    → lookup id h.connecting ≡ some c
    → d.id ≡ c.id
    → Bound n m h
    → Bound n m (record h { connecting = modify id (λ _. d) h.connecting })
Bound-modify_connecting {h = h} id c d e same b = record {
  tidy = Tidy-modify_connecting b.tidy id c d e same;
  resolves_named = b.resolves_named;
  listeners = b.listeners;
  load_le = omega (arith, length-modify id (λ _. d) h.connecting, b.load_le);
  index_le = b.index_le;
}

-- What the handler makes of a report, once the changed object is stored.
dispatch-Gives :
    {n m : ℕ} (h : Handler) (i : Client) (id : ℕ) (c : ConnectionBase) (r : Report)
    → m < max_index
    → let g = record h { connecting = modify id (λ _. c) h.connecting } in
      lookup c.id g.connecting ≡ some c
      → Fits c r
      → Bound n m g
      → Gives n (m + 1) (take_report i id c r h)
unfolding take_report connection_failed incoming_up outgoing_up
dispatch-Gives h i id c pending lt e f b = (_, refl, Bound-mono (omega arith) (omega arith) b)
dispatch-Gives h i id c (connection_failure t g a) lt e f b =
    connection_failed-Gives i c.id c t g a lt e b
dispatch-Gives {n} {m} h i id c (incoming_connected r) lt e f b =
    let (g, done, b') = incoming_up-Gives i c.id c c.connection r f e b in
    (g, done, Bound-mono (omega arith) (omega arith) b')
dispatch-Gives {n} {m} h i id c (outgoing_connected r) lt e f b =
    let (g, done, b') = outgoing_up-Gives i c.id c c.connection r f e b in
    (g, done, Bound-mono (omega arith) (omega arith) b')

take_report-Gives :
    {n m : ℕ} {h : Handler} (i : Client) (id : ℕ) (c d : ConnectionBase) (r : Report)
    → m < max_index
    → lookup id h.connecting ≡ some c
    → d.id ≡ c.id
    → d.id ≡ id
    → Fits d r
    → Bound n m h
    → Gives n (m + 1) (take_report i id d r h)
take_report-Gives {h = h} i id c d r lt e same own f b =
    let stored = lookup-modify_self id (λ _. d) c h.connecting e in
    dispatch-Gives h i id d r lt
      (subst (λ k. lookup k (modify id (λ _. d) h.connecting) ≡ some d) (sym own) stored) f
      (Bound-modify_connecting id c d e same b)

on_connecting-Gives :
    {n m : ℕ} {h : Handler} (i : Client) (id : ℕ)
    (op : ConnectionBase → Option (ConnectionBase × Report)) (c d : ConnectionBase) (r : Report)
    → m < max_index
    → lookup id h.connecting ≡ some c
    → op c ≡ some (d, r)
    → (d.id ≡ c.id) × Fits d r
    → Bound n m h
    → Gives n (m + 1) (on_connecting i id op h)
unfolding on_connecting
on_connecting-Gives {n} {m} {h} i id op c d r lt e o f b =
    let own : c.id ≡ id =
      (Each-lookup (Named h.connection_index) id h.connecting b.tidy.connecting_named e).1 in
    let (g, done, b') = take_report-Gives i id c d r lt e f.0 (f.0 ∙ own) f.1 b in
    (g, rw (e, on_connecting, o) done, b')

-- An event of an object that is under way, which does not fail an assertion of the object, does
-- not fail one of the handler either, if the handler satisfies its invariant and has an id left.
-- The invariant is kept and the load stays within its bound, whatever the object reports and the
-- application answers.
pub run_event-Gives :
    {n m : ℕ} {h : Handler} (i : Client) (id : ℕ) (e : ConnEvent) (c d : ConnectionBase)
    (r : Report)
    → m < max_index
    → lookup id h.connecting ≡ some c
    → run_event e c ≡ some (d, r)
    → Bound n m h
    → Gives n (m + 1) (on_connecting i id (run_event e) h)
run_event-Gives i id e c d r lt l o b =
    on_connecting-Gives i id (run_event e) c d r lt l o (subst (Allows c) o (run_event-Allows e c))
      b

-- `Connect` of an object that was just made.
pub connect-Gives :
    {n m : ℕ} {h : Handler} (i : Client) (id : ℕ) (c d : ConnectionBase) (r : Report)
    → m < max_index
    → lookup id h.connecting ≡ some c
    → connect c ≡ some (d, r)
    → Bound n m h
    → Gives n (m + 1) (on_connecting i id connect h)
connect-Gives i id c d r lt l o b =
    on_connecting-Gives i id connect c d r lt l o (subst (Allows c) o (connect-Allows c)) b
