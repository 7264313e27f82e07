-- ===== src/Handler/Sound/Stands.antt =====
-- Every object of the handler stands in a phase of its own, through what the connections that stand
-- do and what the application asks of them (src/handler.cpp).
use libbtcnet.Base.{
  ℕ, zero, suc, Bool, true, false, ◌++◌, Option, none, some, ◌≡◌, refl, sym, subst, ◌∙◌, inl, inr,
  Option-cases, if◌then◌else◌, Bytes,
}
use libbtcnet.Base.Int.{ℤ, pos, negsuc}
use libbtcnet.Map.{lookup, modify}
use libbtcnet.Map.Laws.{Each-lookup, Each-modify}
use libbtcnet.Channel.{Channel}
use libbtcnet.Object.{ConnectionBase}
use libbtcnet.Peer
use libbtcnet.Peer.{Turn, on_some}
use libbtcnet.Transport.Phases.{AtRest}
use libbtcnet.Live.{LiveEvent, run_live, raises}
use libbtcnet.Live.Keeps.{Same, Stays, run_live-Stays}
use libbtcnet.Live.Rest.{Rests, run_live-Rests}
use libbtcnet.Live.Healthy.{EventBytes, run_live-Healthy}
use libbtcnet.Handler.State.{Client, Handler}
use libbtcnet.Handler.Calls.{
  take_turn, on_live, find_connected, set_connected, by_id, Request, ask_close, ask_pause,
  ask_unpause, ask_ping, ask_limit, ask_send, run_request, close_connection, pause_recv,
  unpause_recv, reset_ping_timeout, set_rate_limit, send,
}
use libbtcnet.Handler.Sound.{Usable, Working, Sound, Sounds, Sounds-if, Sound-connected, Sound-same}
use libbtcnet.Handler.Sound.Reports.{Numbered, disconnected-Sounds}

-- An event that may be raised for a connection that works: it runs, and the connection still works.
pub run_live-Working :
    (e : LiveEvent) (c : ConnectionBase)
    → Working c
    → EventBytes e
    → raises e c ≡ true
    → (t : Turn) × (run_live e c ≡ some t) × Working t.object
run_live-Working e c (r, u, b, y) l k =
    let (t, d, done, well) = run_live-Healthy e c b y l k in
    let rest : AtRest t.object = subst Rests done (run_live-Rests e c r) in
    let same : Same c t.object = subst (Stays c) done (run_live-Stays e c (rw y.here refl)) in
    (t, done, (rest, subst (λ x. Usable x.net_config) (sym same.2) u, d, well))

modify_connected-Sound :
    {h : Handler} (id : ℕ) (d : ConnectionBase)
    → Working d
    → Sound h
    → Sound (record h { connected = modify id (λ _. d) h.connected })
modify_connected-Sound {h} id d w s =
    Sound-connected (modify id (λ _. d) h.connected)
      (Each-modify (λ k. Working) id (λ _. d) h.connected (λ v _ _. w) s.up) s

take_turn-Sounds :
    {h : Handler} (i : Client) (id : ℕ) (t : Turn)
    → Working t.object
    → Numbered h
    → Sound h
    → Sounds (take_turn i id t h)
unfolding take_turn
take_turn-Sounds {h} i id t w named s =
    let d = t.object in
    let changed = Sound-same refl refl refl refl (modify_connected-Sound id d w s) in
    Sounds-if t.closed _ (some _) (λ _. disconnected-Sounds i d.id _ named changed) (λ _. changed)

same_some {ℓ} : {A : Type ℓ} {x y z : A} → some x ≡ some y → some x ≡ some z → y ≡ z
same_some p q = cc (p, q)

-- A call by id.
KeepsWorking : (ConnectionBase → Option ConnectionBase) → Type 0
KeepsWorking op = (c d : ConnectionBase) → op c ≡ some d → Working c → Working d

set_connected-Sound :
    {h : Handler} (id : ℤ) (d : ConnectionBase) → Working d → Sound h → Sound (set_connected id d h)
set_connected-Sound (pos k) d w s = modify_connected-Sound k d w s
set_connected-Sound (negsuc k) d w s = s

found-Working :
    {h : Handler} (id : ℤ) (c : ConnectionBase) → find_connected id h ≡ some c → Sound h → Working c
found-Working {h} (pos k) c e s = Each-lookup (λ k. Working) k h.connected s.up e
found-Working (negsuc k) c e s = cc e

by_id-Sounds :
    {h : Handler} (id : ℤ) (op : ConnectionBase → Option ConnectionBase)
    → KeepsWorking op
    → Sound h
    → Sounds (by_id id op h)
unfolding KeepsWorking
by_id-Sounds {h} id op keeps s = elim (Option-cases (find_connected id h)) [
  | inl e ↦ rw (e, by_id) s
  | inr (c, e) ↦ elim (Option-cases (op c)) [
    | inl n ↦ rw (e, by_id, n) tt
    | inr (d, n) ↦
        rw (e, by_id, n) (set_connected-Sound id d (keeps c d n (found-Working id c e s)) s)
  ]
]

-- An operation on the `bufferevent` that leaves what comes in alone.
with_bev-Working :
    (f : Channel → Channel)
    → ((b : Channel) → ((f b).read_cb ≡ b.read_cb) × ((f b).input ≡ b.input))
    → KeepsWorking (λ c. Peer.with_bev c (λ b. record c { bev = some (f b) }))
unfolding KeepsWorking
with_bev-Working f same c d e (r, u, b, y) =
    let made : record c { bev = some (f b) } ≡ d = cc (rw y.here at e) in
    subst Working made (
      r,
      u,
      f b,
      record {
        here = refl;
        suits = y.suits;
        callback = rw (same b).0 y.callback;
        bytes = rw (same b).1 y.bytes;
      },
    )

-- Another state of the object with the same `bufferevent`.
Working-events :
    (c d : ConnectionBase)
    → d.bev ≡ c.bev
    → d.read_cb_ptr ≡ c.read_cb_ptr
    → d.connection ≡ c.connection
    → AtRest d
    → Working c
    → Working d
Working-events c d e p q r (_, u, b, y) = (
  r,
  rw q u,
  b,
  record {
    here = e ∙ y.here;
    suits = rw (p, q) y.suits;
    callback = rw p y.callback;
    bytes = y.bytes;
  },
)

close-Working :
    (immediately : Bool)
    → KeepsWorking
        (λ c. some (if immediately then Peer.disconnect c else Peer.disconnect_when_finished c))
unfolding KeepsWorking
close-Working true c d e w =
    subst Working (same_some refl e) (Working-events c _ refl refl refl w.0 w)
close-Working false c d e w =
    subst Working (same_some refl e) (Working-events c _ refl refl refl w.0 w)

ping-Working : (seconds : ℤ) → KeepsWorking (λ c. some (Peer.reset_ping_timeout seconds c))
unfolding KeepsWorking
ping-Working (pos zero) c d e w =
    subst Working (same_some refl e) (Working-events c _ refl refl refl w.0 w)
ping-Working (pos (suc n)) c d e w =
    subst Working (same_some refl e) (Working-events c _ refl refl refl w.0 w)
ping-Working (negsuc n) c d e w =
    subst Working (same_some refl e) (Working-events c _ refl refl refl w.0 w)

write-Working :
    (accepted said : Bool) (bytes : Bytes) (c d : ConnectionBase)
    → Peer.write accepted bytes c ≡ some (d, said)
    → Working c
    → Working d
unfolding Peer.write
write-Working true said bytes c d e (r, u, b, y) =
    let made : record c {
      bev = some (record b { output = b.output ++ bytes });
      check_write_buffer_active = true;
    }
        ≡ d =
      cc (rw y.here at e) in
    subst Working made (
      r,
      u,
      record b { output = b.output ++ bytes },
      record { here = refl; suits = y.suits; callback = y.callback; bytes = y.bytes },
    )
write-Working false said bytes c d e (r, u, b, y) =
    subst Working (cc (rw y.here at e)) (let w : Working c = (r, u, b, y) in w)

-- The same for a call that has an answer.
abbrev pub SoundsSaid : Option (Handler × Bool) → Type 0
SoundsSaid none = Unit
SoundsSaid (some (g, said)) = Sound g

said_Sounds : (o : Option Handler) → Sounds o → SoundsSaid (on_some (λ g. (g, false)) o)
said_Sounds none s = tt
said_Sounds (some g) s = s

quiet-SoundsSaid :
    {h : Handler} (id : ℤ) (op : ConnectionBase → Option ConnectionBase)
    → KeepsWorking op
    → Sound h
    → SoundsSaid (on_some (λ g. (g, false)) (by_id id op h))
quiet-SoundsSaid {h} id op keeps s = said_Sounds (by_id id op h) (by_id-Sounds id op keeps s)

send-SoundsSaid :
    {h : Handler} (id : ℤ) (accepted : Bool) (bytes : Bytes)
    → Sound h
    → SoundsSaid (send id accepted bytes h)
unfolding send
send-SoundsSaid {h} id accepted bytes s = elim (Option-cases (find_connected id h)) [
  | inl e ↦ rw (e, send) s
  | inr (c, e) ↦ elim (Option-cases (Peer.write accepted bytes c)) [
    | inl n ↦ rw (e, send, n) tt
    | inr ((d, said), n) ↦
        rw (e, send, n)
          (set_connected-Sound id d
            (write-Working accepted said bytes c d n (found-Working id c e s)) s)
  ]
]

-- Every call of the application by id keeps what holds of the objects.
pub run_request-SoundsSaid :
    {h : Handler} (id : ℤ) (r : Request) → Sound h → SoundsSaid (run_request id r h)
unfolding run_request close_connection pause_recv unpause_recv reset_ping_timeout set_rate_limit
    KeepsWorking
run_request-SoundsSaid id (ask_close immediately) s =
    quiet-SoundsSaid id _ (close-Working immediately) s
run_request-SoundsSaid id ask_pause s =
    quiet-SoundsSaid id Peer.pause_recv
      (with_bev-Working (λ x. record x { read_enabled = false }) (λ b. (refl, refl))) s
run_request-SoundsSaid id ask_unpause s =
    quiet-SoundsSaid id Peer.unpause_recv
      (with_bev-Working (λ x. record x { read_enabled = true }) (λ b. (refl, refl))) s
run_request-SoundsSaid id (ask_ping seconds) s = quiet-SoundsSaid id _ (ping-Working seconds) s
run_request-SoundsSaid id (ask_limit true l) s =
    quiet-SoundsSaid id (Peer.set_rate_limit true l)
      (with_bev-Working (λ x. record x { rate_limit = some l }) (λ b. (refl, refl))) s
run_request-SoundsSaid id (ask_limit false l) s =
    quiet-SoundsSaid id (Peer.set_rate_limit false l) (λ c d e. absurd (cc e)) s
run_request-SoundsSaid id (ask_send accepted bytes) s = send-SoundsSaid id accepted bytes s

-- An event that may be raised for a connection that works, with what the handler makes of it.
pub on_live-Sounds :
    {h : Handler} (i : Client) (id : ℕ) (e : LiveEvent) (c : ConnectionBase)
    → lookup id h.connected ≡ some c
    → EventBytes e
    → raises e c ≡ true
    → Numbered h
    → Sound h
    → Sounds (on_live i id e h)
unfolding on_live
on_live-Sounds {h} i id e c l bytes k named s =
    let working = Each-lookup (λ k. Working) id h.connected s.up l in
    let (t, run, w) = run_live-Working e c working bytes k in
    rw (l, on_live, run) (take_turn-Sounds i id t w named s)
