-- ===== src/Handler/Shutdown.antt =====
-- `ShutdownInt` (src/handler.cpp).
use libbtcnet.Base.{
  ℕ, ◌+◌, true, false, List, [], ◌∷◌, ◌++◌, some, ◌≡◌, refl, ap, ◌∙◌, inl, inr, Bool-cases,
  if◌then◌else◌, append-nil, append_assoc, none, arith,
}
use libbtcnet.Base.Int.{pos, ◌-ℤ◌}
use libbtcnet.Map.{Map, count}
use libbtcnet.Object.{ConnectionBase, is_outgoing}
use libbtcnet.Handler.State.{Call, Handler, on_disconnected, on_connection_failure}
use libbtcnet.Handler.Loop.{disconnect_all, fail_all, shutdown_int}
use libbtcnet.Handler.Tidy.{IsTidy, is_incoming}

-- The calls that the application gets: one for each connection that stands, and one for each outgoing
-- connection that is under way, in the order of their ids.
abbrev pub disconnect_calls : Map ConnectionBase → List Call
disconnect_calls [] = []
disconnect_calls ((id, c) ∷ m) = on_disconnected id false ∷ disconnect_calls m

abbrev pub failure_calls : Map ConnectionBase → List Call
failure_calls [] = []
failure_calls ((id, c) ∷ m) =
    if is_outgoing c
    then on_connection_failure c.connection c.connection false ∷ failure_calls m
    else failure_calls m

abbrev counted : Map ConnectionBase → Handler → Handler
counted m h = record h {
  outgoing_conn_count = pos (count is_outgoing m);
  incoming_conn_count = pos (count is_incoming m);
}

minus_one : (n : ℕ) → pos (1 + n) -ℤ pos 1 ≡ pos n
unfolding ◌-ℤ◌
minus_one n = ground arith

disconnect_all_lem :
    (m : Map ConnectionBase) (h : Handler)
    → disconnect_all m (counted m h) ≡ record h {
      outgoing_conn_count = pos 0;
      incoming_conn_count = pos 0;
      calls = h.calls ++ disconnect_calls m;
    }
unfolding disconnect_all count
disconnect_all_lem [] h = rw (append-nil h.calls)
disconnect_all_lem ((id, c) ∷ m) h =
    let g : Handler = record h { calls = h.calls ++ on_disconnected id false ∷ [] } in
    let rest = disconnect_all_lem m g in
    let calls = append_assoc h.calls (on_disconnected id false ∷ []) (disconnect_calls m) in
    let same : 0 + count is_outgoing m ≡ count is_outgoing m = omega arith in
    let same' : 0 + count is_incoming m ≡ count is_incoming m = omega arith in
    elim (Bool-cases (is_outgoing c)) [
      | inl o ↦ rw (o, minus_one (count is_outgoing m), same', ← calls) rest
      | inr o ↦ rw (o, minus_one (count is_incoming m), same, ← calls) rest
    ]

fail_all_lem :
    (m : Map ConnectionBase) (h : Handler)
    → fail_all m h ≡ record h { calls = h.calls ++ failure_calls m }
unfolding fail_all
fail_all_lem [] h = rw (append-nil h.calls)
fail_all_lem ((id, c) ∷ m) h =
    let call : Call = on_connection_failure c.connection c.connection false in
    let g : Handler = record h { calls = h.calls ++ call ∷ [] } in
    let calls = append_assoc h.calls (call ∷ []) (failure_calls m) in
    elim (Bool-cases (is_outgoing c)) [
      | inl o ↦ rw (o, ← calls) (fail_all_lem m g)
      | inr o ↦ rw o (fail_all_lem m h)
    ]

-- What a shutdown leaves.
abbrev pub stopped : Handler → Handler
stopped h = record h {
  connected = [];
  connecting = [];
  binds = [];
  dns_resolves = [];
  outgoing_conn_count = pos 0;
  incoming_conn_count = pos 0;
  incoming_rate = none;
  outgoing_rate = none;
  shutdown = true;
  events = false;
  request_active = false;
  shutdown_active = false;
  calls = h.calls ++ disconnect_calls h.connected ++ failure_calls h.connecting;
}

-- The two loops one after the other, from a handler whose counters are right.
disconnect_all-tidy :
    (h : Handler)
    → IsTidy h
    → disconnect_all h.connected (record h { connected = []; binds = []; shutdown = true })
      ≡ record h {
        connected = [];
        binds = [];
        shutdown = true;
        outgoing_conn_count = pos 0;
        incoming_conn_count = pos 0;
        calls = h.calls ++ disconnect_calls h.connected;
      }
disconnect_all-tidy h t =
    let m = h.connected in
    let g : Handler = record h { connected = []; binds = []; shutdown = true } in
    let start : g ≡ counted m g = λ i. record g {
      outgoing_conn_count = t.outgoing_counted i;
      incoming_conn_count = t.incoming_counted i;
    } in
    ap (disconnect_all m) start ∙ disconnect_all_lem m g

-- From a handler with tidy maps that is not shut down, a shutdown passes the assertions at its
-- end: nothing is left and both counters are 0. The application is told of every connection and of
-- every outgoing attempt, once and in the order of their ids, and of nothing else.
pub shutdown_int-stopped :
    (h : Handler) → IsTidy h → h.shutdown ≡ false → shutdown_int h ≡ some (stopped h)
unfolding shutdown_int
shutdown_int-stopped h t s = rw (s, disconnect_all-tidy h t, fail_all_lem h.connecting _) refl
