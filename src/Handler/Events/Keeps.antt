-- ===== src/Handler/Events/Keeps.antt =====
-- What holds of every object of the handler is kept in every run (src/handler.cpp).
use libbtcnet.Base.{
  ℕ, ◌+◌, ◌≤◌, ◌<◌, Bool, true, false, Option, none, some, ◌≡◌, refl, subst, inl, inr, Bool-cases,
  Option-cases, arith,
}
use libbtcnet.Base.Int.{ℤ}
use libbtcnet.Map.{lookup, modify, emplace, Each}
use libbtcnet.Map.Laws.{Each-lookup, Each-emplace, Each-erase, Each-modify}
use libbtcnet.Connection.{SockAddr, CConnection}
use libbtcnet.Listener.{CConnListener, unbind_listener}
use libbtcnet.Object.{ConnectionBase}
use libbtcnet.Peer.{on_some}
use libbtcnet.ResolveOnly.{CResolveOnly}
use libbtcnet.Handler.State.{Client, Handler, max_index}
use libbtcnet.Handler.Loop.{take_index, bind, on_accept, on_listen_error, shutdown_int, start}
use libbtcnet.Handler.Calls.{run_request}
use libbtcnet.Handler.Tidy.{Named}
use libbtcnet.Handler.Bound.{NamedResolve}
use libbtcnet.Handler.Shutdown.{shutdown_int-stopped}
use libbtcnet.Handler.Run.{
  run_resolve, Step, connecting_step, resolving_step, live_step, ask_step, accept_step, bind_step,
  listen_step, request_step, shutdown_step, end_step, start_step, Reach, reach_new, reach_step,
  Invariant,
}
use libbtcnet.Handler.Reach.{shut_down, Reach-Invariant}
use libbtcnet.Handler.Binds.{bind-cases, bind_result}
use libbtcnet.Handler.Sound.{Usable, Listening, Looking, Sound, Sounds, Sounds-if, Sound-same}
use libbtcnet.Handler.Sound.Reports.{Numbered}
use libbtcnet.Handler.Sound.Stands.{SoundsSaid, run_request-SoundsSaid, on_live-Sounds}
use libbtcnet.Handler.Sound.Looks.{run_resolve-LookEnds, on_resolving-Sounds}
use libbtcnet.Handler.Sound.Starts.{
  run_event-Sounds, accept_conn-Sounds, request_outgoing-Sounds, Bound-Numbered,
}
use libbtcnet.Handler.Events
use libbtcnet.Handler.Events.{
  Event, of_connecting, of_lookup, of_live, of_listener, asked, bound, need_connections, pump_ended,
  started, run, MayCome, holds, can_start, Run, run_new, run_next,
}

-- A run is one of the runs that the handler's invariant is about.
said_run :
    (o : Option (Handler × Bool)) (g : Handler)
    → on_some (λ p. p.0) o ≡ some g
    → (said : Bool) × (o ≡ some (g, said))
said_run none g e = cc e
said_run (some (f, said)) g e = (said, cc e)

run-Step :
    {i : Client} {h g : Handler} (x : Event) → MayCome i x h → run i x h ≡ some g → Step i h g
unfolding run
run-Step (of_connecting id e) m s = connecting_step id e s
run-Step (of_lookup id e) m s = resolving_step id e s
run-Step (of_live id e) m s = live_step id e s
run-Step (of_listener id none) m s = listen_step id s
run-Step (of_listener id (some a)) m s = accept_step id a s
run-Step {i} {h} {g} (asked id r) m s =
    let (said, e) = said_run (run_request id r h) g s in ask_step id r said e
run-Step {i} {h} {g} (bound b d c) m s =
    let (said, e) = said_run (bind b d c h) g s in bind_step b d said c e
run-Step need_connections (on, room, _) s = request_step on room s
run-Step Events.shut_down m s = shutdown_step s
run-Step {i} {h} {g} pump_ended m s = subst (Step i h) (cc s) (end_step m.0 m.1)
run-Step (started limit) m s = start_step limit s

pub Run-Reach : {i : Client} {h : Handler} → Run i h → Reach i h
Run-Reach run_new = reach_new
Run-Reach (run_next x r room m s) = reach_step (Run-Reach r) room (run-Step x m s)

Sound-binds :
    {h : Handler} (g : Handler)
    → g.connected ≡ h.connected
    → g.connecting ≡ h.connecting
    → g.dns_resolves ≡ h.dns_resolves
    → Each (λ k. Listening) g.binds
    → Sound h
    → Sound g
Sound-binds g p q t e s = record {
  up = rw p s.up;
  under_way = rw q s.under_way;
  listening = e;
  looking = rw t s.looking;
}

bind-SoundsSaid :
    {h : Handler} (b d : Bool) (c : CConnection)
    → Usable c.net_config
    → Sound h
    → SoundsSaid (bind b d c h)
bind-SoundsSaid {h} true d c u s =
    let k = h.connection_index in
    let l : CConnListener = record { id = k; connection = c; listening = true; enabled = true } in
    bind-cases SoundsSaid true d c h (λ off. tt)
      (λ on.
        Sound-binds (record (take_index h) { binds = emplace k l h.binds }) refl refl refl
          (Each-emplace (λ j. Listening) k l h.binds u s.listening) s)
bind-SoundsSaid {h} false d c u s =
    bind-cases SoundsSaid false d c h (λ off. tt)
      (λ on.
        Sound-binds (bind_result false c h).0 refl refl refl
          (Each-erase (λ j. Listening) h.connection_index h.binds s.listening) s)

on_listen_error-Sounds : {h : Handler} (id : ℕ) → Sound h → Sounds (on_listen_error id h)
unfolding on_listen_error unbind_listener
on_listen_error-Sounds {h} id s = elim (Option-cases (lookup id h.binds)) [
  | inl e ↦ rw (e, on_listen_error) tt
  | inr (l, e) ↦
      rw (e, on_listen_error)
        (Sound-binds _ refl refl refl
          (Each-erase (λ j. Listening) l.id (modify id unbind_listener h.binds)
            (Each-modify (λ j. Listening) id unbind_listener h.binds (λ v _ u. u) s.listening))
          s)
]

on_accept-Sounds :
    {h : Handler} (i : Client) (id : ℕ) (a : SockAddr)
    → h.connection_index < max_index
    → Numbered h
    → Sound h
    → Sounds (on_accept i id a h)
unfolding on_accept
on_accept-Sounds {h} i id a lt named s = elim (Option-cases (lookup id h.binds)) [
  | inl e ↦ rw (e, on_accept) tt
  | inr (l, e) ↦
      rw (e, on_accept)
        (accept_conn-Sounds i l.connection a (Each-lookup (λ k. Listening) id h.binds s.listening e)
          lt named s)
]

shutdown_int-Sounds : {h : Handler} → Invariant h → Sound h → Sounds (shutdown_int h)
shutdown_int-Sounds {h} v s = elim (Bool-cases h.shutdown) [
  | inl x ↦ rw (shut_down h x) s
  | inr x ↦
      rw (shutdown_int-stopped h v.tidy x)
        (record { up = tt; under_way = tt; listening = tt; looking = tt })
]

start-Sounds : {h : Handler} (limit : ℤ) → Sound h → Sounds (start limit h)
unfolding start
start-Sounds {h} limit s =
    Sounds-if _ none (some _) (λ _. tt) (λ _. Sound-same refl refl refl refl s)

fst_Sounds : (o : Option (Handler × Bool)) → SoundsSaid o → Sounds (on_some (λ p. p.0) o)
fst_Sounds none s = tt
fst_Sounds (some (g, said)) s = s

-- The object that a test found.
pub holds_found {ℓ} :
    {A : Type ℓ} (p : A → Bool) (o : Option A)
    → holds p o ≡ true
    → (a : A) × (o ≡ some a) × (p a ≡ true)
holds_found p none h = cc h
holds_found p (some a) h = (a, refl, h)

pub connecting_named :
    {h : Handler} (id : ℕ) (c : ConnectionBase)
    → lookup id h.connecting ≡ some c
    → Invariant h
    → c.id ≡ id
connecting_named {h} id c e v =
    (Each-lookup (Named h.connection_index) id h.connecting v.tidy.connecting_named e).1

pub lookup_named :
    {h : Handler} (id : ℕ) (c : CResolveOnly)
    → lookup id h.dns_resolves ≡ some c
    → Invariant h
    → c.id ≡ id
lookup_named {h} id c e v =
    (Each-lookup (NamedResolve h.connection_index) id h.dns_resolves v.resolves_named e).1

pub run-Sounds :
    (i : Client) (h : Handler) (x : Event)
    → h.connection_index + 16 ≤ max_index
    → MayCome i x h
    → Invariant h
    → Sound h
    → Sounds (run i x h)
unfolding run
run-Sounds i h (of_connecting id e) room (bytes, k) v s =
    let (c, l, q) = holds_found _ (lookup id h.connecting) k in
    run_event-Sounds i id e c l (connecting_named id c l v) bytes q (Bound-Numbered v) s
run-Sounds i h (of_lookup id e) room k v s =
    let (c, l, q) = holds_found _ (lookup id h.dns_resolves) k in
    on_resolving-Sounds i id (run_resolve e) c l (lookup_named id c l v)
      (run_resolve-LookEnds e c (Each-lookup (λ j. Looking) id h.dns_resolves s.looking l) q) s
run-Sounds i h (of_live id e) room (bytes, k) v s =
    let (c, l, q) = holds_found _ (lookup id h.connected) k in
    on_live-Sounds i id e c l bytes q (Bound-Numbered v) s
run-Sounds i h (of_listener id none) room m v s = on_listen_error-Sounds id s
run-Sounds i h (of_listener id (some a)) room m v s =
    on_accept-Sounds i id a (omega arith) (Bound-Numbered v) s
run-Sounds i h (asked id r) room m v s =
    fst_Sounds (run_request id r h) (run_request-SoundsSaid id r s)
run-Sounds i h (bound b d c) room m v s = fst_Sounds (bind b d c h) (bind-SoundsSaid b d c m.1 s)
run-Sounds i h need_connections room (on, width, u) v s = request_outgoing-Sounds i width u v s
run-Sounds i h Events.shut_down room m v s = shutdown_int-Sounds v s
run-Sounds i h pump_ended room m v s = Sound-same refl refl refl refl s
run-Sounds i h (started limit) room m v s = start-Sounds limit s

-- In every run each object that stands or is under way, each lookup and each listener stands in one
-- of the phases of its kind.
pub Run-Sound : {i : Client} {h : Handler} → Run i h → Sound h
Run-Sound run_new = record { up = tt; under_way = tt; listening = tt; looking = tt }
Run-Sound {i} (run_next {h} x r room m e) =
    subst Sounds e (run-Sounds i h x room m (Reach-Invariant (Run-Reach r)) (Run-Sound r))
