-- ===== src/Handler/Told/Runs.antt =====
-- What the application is told in every run of the handler (src/handler.cpp).
use libbtcnet.Base.{
  ℕ, suc, ◌+◌, ◌≤◌, ◌<◌, Bool, true, false, not, ◌&&◌, [], ◌∷◌, ◌++◌, none, some, ◌≡◌, refl, ap,
  subst, sym, ◌∙◌, inl, inr, Option-cases, Bool-cases, ◌==◌, arith,
}
use libbtcnet.Base.Int.{ℤ}
use libbtcnet.Connection.{SockAddr, CConnection}
use libbtcnet.Map.{Map, lookup, Ascending}
use libbtcnet.Map.Laws.{has, lookup_below}
use libbtcnet.Object.{ConnectionBase, is_outgoing}
use libbtcnet.Handler.Binds.{bind-cases}
use libbtcnet.Transport.Reports.{run_event, run_event-Allows}
use libbtcnet.Handler.State.{
  Client, Handler, notify, max_index, on_need_outgoing_connections, on_bind_failure, on_startup,
  on_shutdown,
}
use libbtcnet.Handler.Loop.{
  on_accept, bind, on_listen_error, needed, chosen, request_outgoing, is_zero, start,
}
use libbtcnet.Handler.Bound.{Bound, Bound-notify}
use libbtcnet.Handler.Run.{
  Step, connecting_step, resolving_step, live_step, ask_step, accept_step, bind_step, listen_step,
  request_step, shutdown_step, end_step, start_step, Reach, reach_new, reach_step, Invariant,
  request_width,
}
use libbtcnet.Handler.Reach.{same_some, shut_down, Reach-Invariant}
use libbtcnet.Handler.Shutdown.{stopped, disconnect_calls, failure_calls, shutdown_int-stopped}
use libbtcnet.Handler.Told.{
  open_in, view, fits_all, none_open, view-append, fits_all-append, Told, Told-plain,
}
use libbtcnet.Handler.Told.Reports.{Tells, Tells-if, Told-same}
use libbtcnet.Handler.Told.Steps.{on_connecting-Tells, on_resolving-Tells, on_live-Tells}
use libbtcnet.Handler.Told.Starts.{
  TellsSaid, run_request-TellsSaid, accept_conn-Tells, take_index-Told, start_connections-Tells,
}

bind-TellsSaid :
    {n m : ℕ} {h : Handler} (b d : Bool) (c : CConnection)
    → m < max_index
    → Bound n m h
    → Told h
    → TellsSaid (bind b d c h)
bind-TellsSaid {h = h} true d c lt v t =
    bind-cases TellsSaid true d c h (λ off. tt)
      (λ on. Told-same refl refl refl refl (take_index-Told lt v t))
bind-TellsSaid {h = h} false d c lt v t =
    bind-cases TellsSaid false d c h (λ off. tt)
      (λ on.
        Told-same refl refl refl refl
          (Told-plain (on_bind_failure c) refl (λ k. refl) (take_index-Told lt v t)))

on_listen_error-Tells : {h : Handler} (id : ℕ) → Told h → Tells (on_listen_error id h)
unfolding on_listen_error
on_listen_error-Tells {h} id t = elim (Option-cases (lookup id h.binds)) [
  | inl e ↦ rw (e, on_listen_error) tt
  | inr (l, e) ↦
      rw (e, on_listen_error)
        (Told-same refl refl refl refl
          (Told-plain (on_bind_failure l.connection) refl (λ k. refl) t))
]

on_accept-Tells :
    {n m : ℕ} {h : Handler} (i : Client) (id : ℕ) (a : SockAddr)
    → m + 1 < max_index
    → Bound n m h
    → Told h
    → Tells (on_accept i id a h)
unfolding on_accept
on_accept-Tells {h = h} i id a lt v t = elim (Option-cases (lookup id h.binds)) [
  | inl e ↦ rw (e, on_accept) tt
  | inr (l, e) ↦ rw (e, on_accept) (accept_conn-Tells i l.connection a lt v t)
]

request_outgoing-Tells :
    {h : Handler} (i : Client)
    → h.connection_index + request_width i h ≤ max_index
    → Invariant h
    → Told h
    → Tells (request_outgoing i h)
unfolding request_outgoing
request_outgoing-Tells {h} i room v t =
    let need = needed h in
    let g = notify (on_need_outgoing_connections need) h in
    Tells-if (is_zero need) (some h) _ t (
      start_connections-Tells i (chosen need (i.candidates g.calls need)) room (Bound-notify _ v)
        (Told-plain (on_need_outgoing_connections need) refl (λ k. refl) t))

failure_calls_fit :
    (m : Map ConnectionBase) (s : ℕ → Bool)
    → (fits_all s (failure_calls m) ≡ true) × (view s (failure_calls m) ≡ s)
unfolding fits_all view
failure_calls_fit [] s = (refl, refl)
failure_calls_fit ((id, c) ∷ m) s = elim (Bool-cases (is_outgoing c)) [
  | inl e ↦ rw e (failure_calls_fit m s)
  | inr e ↦ rw e (failure_calls_fit m s)
]

disconnect_calls_fit :
    (lo : ℕ) (m : Map ConnectionBase) (s : ℕ → Bool)
    → Ascending lo m
    → ((k : ℕ) → has k m ≡ true → s k ≡ true)
    → fits_all s (disconnect_calls m) ≡ true
unfolding fits_all lookup
disconnect_calls_fit lo [] s a each = refl
disconnect_calls_fit lo ((id, c) ∷ m) s a each = rw (each id (ground arith)) (
    disconnect_calls_fit (suc id) m (λ k. s k && not (id == k)) a.1
      (λ k x. ground (arith, x, each k, lookup_below (suc id) k m a.1)))

disconnect_calls_close :
    (m : Map ConnectionBase) (s : ℕ → Bool) (k : ℕ)
    → s k ≡ false
    → view s (disconnect_calls m) k ≡ false
unfolding view
disconnect_calls_close [] s k e = e
disconnect_calls_close ((id, c) ∷ m) s k e =
    disconnect_calls_close m (λ j. s j && not (id == j)) k (rw e refl)

-- What `ShutdownInt` tells.
Told-stopped : {h : Handler} → Ascending 0 h.connected → Told h → Told (stopped h)
unfolding lookup
Told-stopped {h} a t =
    let gone = disconnect_calls h.connected in
    let failed = failure_calls h.connecting in
    let s = open_in h in
    let (fit, same) = failure_calls_fit h.connecting (view s gone) in
    let mid : view none_open (h.calls ++ gone) ≡ view s gone = view-append none_open h.calls gone in
    let now : view none_open (h.calls ++ gone ++ failed) ≡ view s gone =
      view-append none_open (h.calls ++ gone) failed ∙ ap (λ x. view x failed) mid ∙ same in
    record {
      proper =
          fits_all-append none_open (h.calls ++ gone) failed
            (fits_all-append none_open h.calls gone t.proper
              (disconnect_calls_fit 0 h.connected s a t.shown))
            (subst (λ x. fits_all x failed ≡ true) (sym mid) fit);
      shown = λ k x. cc x;
      hidden = λ k x. cc x;
      later = λ k x. ap (λ f. f k) now ∙ disconnect_calls_close h.connected s k (t.later k x);
    }

start-Tells : {h : Handler} (limit : ℤ) → Told h → Tells (start limit h)
unfolding start
start-Tells {h} limit t =
    Tells-if _ none (some _) tt
      (Told-same refl refl refl refl (Told-plain on_startup refl (λ k. refl) t))

Step-Told :
    {i : Client} {h g : Handler}
    → h.connection_index + 16 ≤ max_index
    → Step i h g
    → Invariant h
    → Told h
    → Told g
Step-Told {i} {h} room (connecting_step id e s) v t = subst Tells s (
    on_connecting-Tells i id (run_event e) (run_event-Allows e) v.tidy.connecting_keys
      v.tidy.connecting_named (omega arith) t)
Step-Told {i} {h} room (resolving_step id e s) v t = subst Tells s (on_resolving-Tells i id _ t)
Step-Told {i} {h} room (live_step id e s) v t = subst Tells s (
    on_live-Tells i id e v.tidy.connected_keys v.tidy.connected_named v.tidy.standing (omega arith)
      t)
Step-Told {i} {h} room (ask_step id r said s) v t = subst TellsSaid s (run_request-TellsSaid id r t)
Step-Told {i} {h} room (accept_step id a s) v t =
    subst Tells s (on_accept-Tells i id a (omega arith) v t)
Step-Told {i} {h} room (bind_step b d said c s) v t =
    subst TellsSaid s (bind-TellsSaid b d c (omega arith) v t)
Step-Told {i} {h} room (listen_step id s) v t = subst Tells s (on_listen_error-Tells id t)
Step-Told {i} {h} room (request_step on width s) v t =
    subst Tells s (request_outgoing-Tells i width v t)
Step-Told {i} {h} room (shutdown_step s) v t = elim (Bool-cases h.shutdown) [
  | inl x ↦ subst Told (same_some (shut_down h x) s) t
  | inr x ↦
      subst Told (same_some (shutdown_int-stopped h v.tidy x) s)
        (Told-stopped v.tidy.connected_keys t)
]
Step-Told {i} {h} room (end_step on down) v t =
    Told-plain on_shutdown refl (λ k. refl) (Told-same refl refl refl refl t)
Step-Told {i} {h} room (start_step limit s) v t = subst Tells s (start-Tells limit t)

Reach-Told : {i : Client} {h : Handler} → Reach i h → Told h
unfolding view fits_all lookup
Reach-Told reach_new = record {
  proper = refl;
  shown = λ k x. cc x;
  hidden = λ k x. refl;
  later = λ k x. refl;
}
Reach-Told (reach_step r room s) = Step-Told room s (Reach-Invariant r) (Reach-Told r)

-- At any point of a run, from a new handler and while 16 ids are left before they wrap around, the
-- calls that the application got are proper for every connection: it is opened (by
-- `OnIncomingConnection` or `OnReadyForFirstSend`) only while it is not open, and messages, buffer
-- reports, byte counts, ping timeouts and `OnDisconnected` come only while it is open, which
-- `OnDisconnected` ends. Every connection that stands is open, none that is under way is, and no id
-- that is still to be given out is.
pub Reach-fits_all :
    {i : Client} {h : Handler}
    → Reach i h
    → (fits_all none_open h.calls ≡ true)
      × ((k : ℕ) → has k h.connected ≡ true → view none_open h.calls k ≡ true)
      × ((k : ℕ) → has k h.connecting ≡ true → view none_open h.calls k ≡ false)
      × ((k : ℕ) → h.connection_index ≤ k → view none_open h.calls k ≡ false)
Reach-fits_all r = let t = Reach-Told r in (t.proper, t.shown, t.hidden, t.later)
