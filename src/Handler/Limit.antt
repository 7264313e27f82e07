-- ===== src/Handler/Limit.antt =====
-- The limit on the outgoing connections, over every run of the handler (src/handler.cpp).
use libbtcnet.Base.{
  ℕ, ◌+◌, ◌≤◌, Bool, true, false, not, ◌&&◌, ◌||◌, Option, some, ◌≡◌, refl, sym, ap, subst, ◌∙◌,
  inl, inr, Bool-cases, arith,
}
use libbtcnet.Base.Int.{ℤ, pos}
use libbtcnet.Map.{count}
use libbtcnet.Transport.Reports.{run_event}
use libbtcnet.Handler.State.{Client, Handler, max_index}
use libbtcnet.Handler.Loop.{start, is_zero}
use libbtcnet.Handler.Bound.{load, Bound, Gives}
use libbtcnet.Handler.Lives.{on_live-Gives}
use libbtcnet.Handler.Requests.{run_request-Bound}
use libbtcnet.Handler.Steps.{run_event-Gives}
use libbtcnet.Handler.Resolves.{on_resolving-Gives}
use libbtcnet.Handler.Accepts.{accept_conn-Gives}
use libbtcnet.Handler.Binds.{bind-Bound, on_listen_error-Bound}
use libbtcnet.Handler.Outgoing.{request_outgoing-limit}
use libbtcnet.Handler.Shutdown.{stopped, shutdown_int-stopped}
use libbtcnet.Handler.Frame.{
  Keeps, Frame, FrameSaid, on_connecting-Frame, on_resolving-Frame, on_live-Frame,
  accept_conn-Frame, on_listen_error-Frame, request_outgoing-Frame, bind-Frame, run_request-Frame,
}
use libbtcnet.Handler.Run.{
  run_resolve, Step, connecting_step, resolving_step, live_step, ask_step, accept_step, bind_step,
  listen_step, request_step, shutdown_step, end_step, start_step, Reach, reach_new, reach_step,
  Invariant,
}
use libbtcnet.Handler.Reach.{
  same_some, on_connecting_found, on_resolving_found, run_resolve-id, on_live_found,
  on_accept_found, on_listen_error_found, shut_down, Reach-Invariant,
}

-- The load is within a limit that is not negative, and there is none while the events of `Start` do
-- not exist.
pub record Within (h : Handler) : Type 0 where
  pub within : (l : ℕ) → h.outgoing_conn_limit ≡ pos l → load h ≤ l
  pub before : h.events ≡ false → load h ≡ 0

Within-Keeps : (h g : Handler) → Keeps h g → load g ≤ load h → Within h → Within g
Within-Keeps h g (limit, events) le w = record {
  within = λ l e. omega (arith, w.within l (sym limit ∙ e));
  before = λ e. omega (arith, w.before (sym events ∙ e));
}

-- A step that gives no more load than there was.
Within-Gives :
    {m : ℕ} (h g : Handler) (o : Option Handler)
    → o ≡ some g
    → Frame h o
    → Gives (load h) m o
    → Within h
    → Within g
Within-Gives h g o e frame (f, done, b) w =
    Within-Keeps h g (subst (Frame h) e frame)
      (subst (λ x. load x ≤ load h) (same_some done e) b.load_le) w

Within-said :
    {m : ℕ} (h g f : Handler) (o : Option (Handler × Bool)) (said said' : Bool)
    → o ≡ some (g, said)
    → FrameSaid h o
    → o ≡ some (f, said')
    → Bound (load h) m f
    → Within h
    → Within g
Within-said h g f o said said' e frame done b w =
    Within-Keeps h g (subst (FrameSaid h) e frame)
      (subst (λ x. load x ≤ load h) (ap (λ p. p.0) (same_some done e)) b.load_le) w

Within-stopped : (h : Handler) → Within h → Within (stopped h)
unfolding count
Within-stopped h w = record { within = λ l e. omega arith; before = λ e. refl }

last_false : (x y z : Bool) → (x || y || z) ≡ false → z ≡ false
last_false x y false h = refl
last_false false false true h = h
last_false false true true h = h
last_false true y true h = h

-- `Start` passes its assertions only while its events do not exist, when there is no load.
Within-start : (limit : ℤ) (h g : Handler) → start limit h ≡ some g → Within h → Within g
unfolding start
Within-start limit h g e w =
    let idle = is_zero h.outgoing_conn_count && is_zero h.incoming_conn_count in
    elim (Bool-cases (not idle || h.running || h.events)) [
      | inl s ↦ cc (rw s at e)
      | inr s ↦
          let none_yet = w.before (last_false (not idle) h.running h.events s) in
          subst Within (same_some refl (rw s at e))
            (record { within = λ l x. omega arith; before = λ x. cc x })
    ]

Step-Within :
    {i : Client} {h g : Handler}
    → h.connection_index + 16 ≤ max_index
    → Step i h g
    → Invariant h
    → Within h
    → Within g
Step-Within {i} {h} {g} room (connecting_step id e s) v w =
    let (c, d, r, l, o) = on_connecting_found i id (run_event e) h g s in
    Within-Gives h g _ s (on_connecting-Frame i id (run_event e) h)
      (run_event-Gives i id e c d r (omega arith) l o v) w
Step-Within {i} {h} {g} room (resolving_step id e s) v w =
    let (c, d, r, l, o) = on_resolving_found i id (run_resolve e) h g s in
    Within-Gives h g _ s (on_resolving-Frame i id (run_resolve e) h)
      (on_resolving-Gives i id (run_resolve e) c d r l o (run_resolve-id e c d r o) v) w
Step-Within {i} {h} {g} room (live_step id e s) v w =
    let (c, t, l, r) = on_live_found i id e h g s in
    Within-Gives h g _ s (on_live-Frame i id e h) (on_live-Gives i id e c t (omega arith) l r v) w
Step-Within {i} {h} {g} room (ask_step id r said s) v w =
    Within-said h g g _ said said s (run_request-Frame id r h) s (run_request-Bound id r said s v) w
Step-Within {i} {h} {g} room (accept_step id a s) v w =
    let (b, s') = on_accept_found i id a h g s in
    Within-Gives h g _ s' (accept_conn-Frame i b a h) (accept_conn-Gives i b a (omega arith) v) w
Step-Within {i} {h} {g} room (bind_step bound done said c s) v w =
    Within-said h g g _ said said s (bind-Frame bound done c h) s
      (bind-Bound bound done said c (omega arith) s v) w
Step-Within {i} {h} {g} room (listen_step id s) v w =
    let (l, e) = on_listen_error_found id h g s in
    let (f, did, _, _, b) = on_listen_error-Bound id l e v in
    Within-Gives h g _ s (on_listen_error-Frame id h) (f, did, b) w
Step-Within {i} {h} {g} room (request_step on width s) v w =
    let (limit, events) = subst (Frame h) s (request_outgoing-Frame i h) in
    record {
      within = λ l e.
          let (f, done, b) = request_outgoing-limit i l (sym limit ∙ e) (omega arith) (record {
            tidy = v.tidy;
            resolves_named = v.resolves_named;
            listeners = v.listeners;
            load_le = w.within l (sym limit ∙ e);
            index_le = v.index_le;
          }) in
          subst (λ x. load x ≤ l) (same_some done s) b.load_le;
      before = λ e. cc (on, events, e);
    }
Step-Within {i} {h} {g} room (shutdown_step s) v w = elim (Bool-cases h.shutdown) [
  | inl x ↦ subst Within (same_some (shut_down h x) s) w
  | inr x ↦ subst Within (same_some (shutdown_int-stopped h v.tidy x) s) (Within-stopped h w)
]
Step-Within {i} {h} {g} room (end_step on down) v w = record {
  within = w.within;
  before = w.before;
}
Step-Within {i} {h} {g} room (start_step limit s) v w = Within-start limit h g s w

Reach-Within : {i : Client} {h : Handler} → Reach i h → Within h
unfolding count
Reach-Within reach_new = record { within = λ l e. omega arith; before = λ e. refl }
Reach-Within (reach_step r room s) = Step-Within room s (Reach-Invariant r) (Reach-Within r)

-- At any point of a run, also after a shutdown and another start, from a new handler and while 16
-- ids are left before they wrap around: if the limit that `Start` set is not negative, the outgoing
-- connections that stand and all the connections under way together are no more than the limit,
-- whatever the application and the network do.
pub Reach-load :
    {i : Client} {h : Handler} (l : ℕ) → Reach i h → h.outgoing_conn_limit ≡ pos l → load h ≤ l
Reach-load l r e = (Reach-Within r).within l e
