-- ===== src/Handler/Sound/Reports.antt =====
-- Every object of the handler stands in a phase of its own, through every report of a connection
-- (src/handler.cpp).
use libbtcnet.Base.{
  ℕ, Bool, true, false, not, ◌&&◌, some, ◌≡◌, refl, sym, subst, inl, inr, Option-cases,
  if◌then◌else◌, arith,
}
use libbtcnet.Map.{lookup, modify, emplace, erase, KeysBelow}
use libbtcnet.Map.Laws.{
  Each-lookup, Each-erase, Each-emplace, Each-modify, lookup-modify_self, lookup_fresh,
  modify-emplace,
}
use libbtcnet.Connection.{CConnection}
use libbtcnet.Channel.{RateGroup, incoming_rate_limit, outgoing_rate_limit, enable_channel}
use libbtcnet.Object.{
  ConnectionBase, ConnectionFailureType, Report, pending, connection_failure, incoming_connected,
  outgoing_connected, retry, go_live, is_outgoing,
}
use libbtcnet.Transport.Phases.{Phase, AtRest, Opened, Fit, retry-Phase}
use libbtcnet.Live.Healthy.{Suits}
use libbtcnet.Handler.State.{Client, Handler, answer}
use libbtcnet.Handler.Ops.{
  requeue, requeue_or_request, connection_failed, disconnected, incoming_up, outgoing_up,
  take_report, uncount,
}
use libbtcnet.Handler.Sound.{
  Usable, UnderWay, Working, Sound, Sounds, Sound-if, Sounds-if, Sound-connecting, Sound-connected,
  Sound-same, Sound-request_again,
}

-- The objects that are under way have ids below the next one.
abbrev pub Numbered : Handler → Type 0
Numbered h = KeysBelow h.connection_index h.connecting

retry-UnderWay :
    (k : ℕ) (c : ConnectionBase) → AtRest c → Usable c.connection.net_config → UnderWay (retry k c)
unfolding retry
retry-UnderWay k c r u = (retry-Phase k c r, u)

requeue-Sound :
    {h : Handler} (c : ConnectionBase)
    → AtRest c
    → Usable c.connection.net_config
    → Numbered h
    → Sound h
    → Sound (requeue c h)
unfolding requeue
requeue-Sound {h} c r u named s =
    let k = h.connection_index in
    let free = lookup_fresh k k h.connecting named (omega arith) in
    rw (modify-emplace k (retry k) c h.connecting free) (
      Sound-connecting (emplace k (retry k c) h.connecting)
        (Each-emplace (λ j. UnderWay) k (retry k c) h.connecting (retry-UnderWay k c r u)
          s.under_way)
        (Sound-same refl refl refl refl s))

pub requeue_or_request-Sound :
    {h : Handler} (i : Client) (again : Bool) (c : ConnectionBase)
    → AtRest c
    → Usable c.connection.net_config
    → Numbered h
    → Sound h
    → Sound (requeue_or_request i again c h)
unfolding requeue_or_request
requeue_or_request-Sound {h} i again c r u named s =
    Sound-if (again && answer i h) (requeue-Sound c r u named s) (Sound-request_again s)

connection_failed-Sounds :
    {h : Handler} (i : Client) (id : ℕ) (t : ConnectionFailureType) (failed : CConnection)
    (again : Bool) (c : ConnectionBase)
    → lookup id h.connecting ≡ some c
    → AtRest c
    → Usable c.connection.net_config
    → Numbered h
    → Sound h
    → Sounds (connection_failed i id t failed again h)
unfolding connection_failed
connection_failed-Sounds {h} i id t failed again c e r u named s =
    rw (e, connection_failed)
      (requeue_or_request-Sound i (again && not h.shutdown) c r u
        (Each-erase _ id h.connecting named)
        (Sound-connecting (erase id h.connecting)
          (Each-erase (λ k. UnderWay) id h.connecting s.under_way)
          (Sound-same refl refl refl refl s)))

-- An object that came up, once it is enabled.
go_live-Working :
    (g : RateGroup) (c : ConnectionBase)
    → AtRest c
    → Opened c c.bev
    → Usable c.connection.net_config
    → (d : ConnectionBase) × (go_live g c ≡ some d) × Working d
unfolding go_live
go_live-Working g c r o u = elim (Option-cases c.bev) [
  | inl e ↦ absurd (subst (Opened c) e o)
  | inr (b, e) ↦
      let (same, chosen, bytes) = subst (Opened c) e o in
      rw (e, go_live)
        (
          _,
          refl,
          (
            r,
            u,
            enable_channel g b,
            record {
              here = refl;
              suits = subst (λ k. Suits k c.connection.net_config) (sym chosen) u;
              callback = inr same;
              bytes = bytes;
            },
          ),
        )
]

-- An object that came up leaves those that are under way, and joins those that stand if the
-- application consents.
module _ {h : Handler} (i : Client) (id : ℕ) (conn resolved : CConnection) (c : ConnectionBase)
    (e : lookup id h.connecting ≡ some c) (r : AtRest c) (o : Opened c c.bev)
    (u : Usable c.connection.net_config) (s : Sound h) where
  left_Sound : Sound (record h { connecting = erase id h.connecting })
  left_Sound =
      Sound-connecting (erase id h.connecting)
        (Each-erase (λ k. UnderWay) id h.connecting s.under_way) s

  incoming_up-Sounds : Sounds (incoming_up i id conn resolved h)
  unfolding incoming_up
  incoming_up-Sounds =
      let (d, live, w) = go_live-Working incoming_rate_limit c r o u in
      let joined = Each-emplace (λ k. Working) id d h.connected w s.up in
      rw (e, incoming_up, live)
        (Sounds-if _ (some _) (some _)
          (λ _.
            Sound-same refl refl refl refl
              (Sound-connected (emplace id d h.connected) joined left_Sound))
          (λ _. Sound-same refl refl refl refl left_Sound))

  outgoing_up-Sounds : Sounds (outgoing_up i id conn resolved h)
  unfolding outgoing_up
  outgoing_up-Sounds =
      let (d, live, w) = go_live-Working outgoing_rate_limit c r o u in
      let joined = Each-emplace (λ k. Working) id d h.connected w s.up in
      rw (e, outgoing_up, live)
        (Sounds-if _ (some _) (some _)
          (λ _.
            Sound-same refl refl refl refl
              (Sound-connected (emplace id d h.connected) joined left_Sound))
          (λ _. Sound-same refl refl refl refl left_Sound))

Fit-Phase : (c : ConnectionBase) (r : Report) → Fit c r → Phase c
Fit-Phase c pending f = f
Fit-Phase c (connection_failure t g b) f = ground arith
Fit-Phase c (incoming_connected g) f = ground arith
Fit-Phase c (outgoing_connected g) f = ground arith

report-Sounds :
    (h : Handler) (i : Client) (id : ℕ) (c : ConnectionBase) (r : Report)
    → let g = record h { connecting = modify id (λ _. c) h.connecting } in
      lookup c.id g.connecting ≡ some c
      → Fit c r
      → Usable c.connection.net_config
      → Numbered g
      → Sound g
      → Sounds (take_report i id c r h)
unfolding take_report
report-Sounds h i id c pending e f u named s = s
report-Sounds h i id c (connection_failure t g b) e f u named s =
    connection_failed-Sounds i c.id t g b c e f u named s
report-Sounds h i id c (incoming_connected g) e f u named s =
    incoming_up-Sounds i c.id c.connection g c e f.0 f.1 u s
report-Sounds h i id c (outgoing_connected g) e f u named s =
    outgoing_up-Sounds i c.id c.connection g c e f.0 f.1 u s

-- The report of an object that is under way, once the changed object is stored under its id.
pub take_report-Sounds :
    {h : Handler} (i : Client) (id : ℕ) (c d : ConnectionBase) (r : Report)
    → lookup id h.connecting ≡ some c
    → d.id ≡ id
    → Fit d r
    → Usable d.connection.net_config
    → Numbered h
    → Sound h
    → Sounds (take_report i id d r h)
take_report-Sounds {h} i id c d r e own f u named s =
    let stored = lookup-modify_self id (λ _. d) c h.connecting e in
    report-Sounds h i id d r
      (subst (λ k. lookup k (modify id (λ _. d) h.connecting) ≡ some d) (sym own) stored) f u
      (Each-modify _ id (λ _. d) h.connecting (λ v _ n. n) named)
      (Sound-connecting (modify id (λ _. d) h.connecting)
        (Each-modify (λ k. UnderWay) id (λ _. d) h.connecting (λ v _ w. (Fit-Phase d r f, u))
          s.under_way)
        s)

Sound-uncount : {h : Handler} (c : ConnectionBase) → Sound h → Sound (uncount c h)
Sound-uncount c s =
    Sound-if (is_outgoing c) (Sound-same refl refl refl refl s) (Sound-same refl refl refl refl s)

Numbered-if : (b : Bool) (g h : Handler) → Numbered g → Numbered h → Numbered (if b then g else h)
Numbered-if true g h p q = p
Numbered-if false g h p q = q

-- The end of a connection that stands.
pub disconnected-Sounds :
    {h : Handler} (i : Client) (id : ℕ) (again : Bool)
    → Numbered h
    → Sound h
    → Sounds (disconnected i id again h)
unfolding disconnected
disconnected-Sounds {h} i id again named s = elim (Option-cases (lookup id h.connected)) [
  | inl e ↦ rw (e, disconnected) tt
  | inr (c, e) ↦
      let (r, u, _, _) = Each-lookup (λ k. Working) id h.connected s.up e in
      let left =
        Sound-connected (erase id h.connected) (Each-erase (λ k. Working) id h.connected s.up) s in
      rw (e, disconnected)
        (requeue_or_request-Sound i (again && not h.shutdown) c r u
          (Numbered-if (is_outgoing c) _ _ named named)
          (Sound-same refl refl refl refl (Sound-uncount c left)))
]
