-- ===== src/Handler/Sound/Starts.antt =====
-- Every object of the handler stands in a phase of its own, through the events of those that are
-- under way and the start of new ones (src/handler.cpp).
use libbtcnet.Channel.{size_of}
use libbtcnet.Base.{
  min, ℕ, ◌+◌, ◌*◌, ◌<◌, ◌≤◌, length, true, ◌&&◌, List, [], ◌∷◌, Option, none, some, ◌≡◌, refl, sym,
  subst, ◌∙◌, inl, inr, Option-cases, All, take, zero, suc, arith,
}
use libbtcnet.Base.Int.{ℤ}
use libbtcnet.Map.{lookup, emplace, KeysBelow}
use libbtcnet.Map.Laws.{Each-lookup, Each-emplace, Each-mono, lookup-emplace_self, lookup_fresh}
use libbtcnet.Connection.{SockAddr, CConnection, is_resolve_only}
use libbtcnet.Object.{ConnectionBase, incoming, Report, new_connection}
use libbtcnet.Transport.{connect}
use libbtcnet.Transport.Phases.{AtRest, Ends, ConnBytes, conn_raises, connect-Ends, run_event-Ends}
use libbtcnet.Transport.Reports.{ConnEvent, run_event, Allows, run_event-Allows, connect-Allows}
use libbtcnet.Handler.State.{Client, Handler, notify, max_index, on_need_outgoing_connections}
use libbtcnet.Handler.Ops.{on_connecting}
use libbtcnet.Handler.Loop.{
  take_index, kind_for, start_connection, start_connections, accept_conn, needed, chosen,
  request_outgoing, is_zero,
}
use libbtcnet.Handler.Bound.{next_index-suc, Bound, Gives-if, Bound-mono, Bound-notify}
use libbtcnet.Handler.Tidy.{Named}
use libbtcnet.Handler.Starts.{fresh_resolve, start_connection-Gives}
use libbtcnet.Handler.Sound.Looks.{new_lookup-Sounds}
use libbtcnet.Handler.Sound.{
  Usable, UnderWay, Sound, Sounds, Sounds-if, Sound-connecting, Sound-same,
}
use libbtcnet.Handler.Sound.Reports.{Numbered, take_report-Sounds}

pub on_connecting-Sounds :
    {h : Handler} (i : Client) (id : ℕ) (op : ConnectionBase → Option (ConnectionBase × Report))
    (c : ConnectionBase)
    → lookup id h.connecting ≡ some c
    → c.id ≡ id
    → Allows c (op c)
    → Ends c (op c)
    → Usable c.connection.net_config
    → Numbered h
    → Sound h
    → Sounds (on_connecting i id op h)
unfolding on_connecting
on_connecting-Sounds {h} i id op c e own allows ends u named s = elim (Option-cases (op c)) [
  | inl n ↦ absurd (subst (Ends c) n ends)
  | inr ((d, r), n) ↦
      let (kept, fit) = subst (Ends c) n ends in
      let (same, _) = subst (Allows c) n allows in
      rw (e, on_connecting, n)
        (take_report-Sounds i id c d r e (same ∙ own) fit
          (subst (λ x. Usable x.net_config) (sym kept) u) named s)
]

-- An event that may be reported for an object that is under way.
pub run_event-Sounds :
    {h : Handler} (i : Client) (id : ℕ) (e : ConnEvent) (c : ConnectionBase)
    → lookup id h.connecting ≡ some c
    → c.id ≡ id
    → ConnBytes e
    → conn_raises e c ≡ true
    → Numbered h
    → Sound h
    → Sounds (on_connecting i id (run_event e) h)
run_event-Sounds {h} i id e c l own bytes k named s =
    let (phase, u) = Each-lookup (λ j. UnderWay) id h.connecting s.under_way l in
    on_connecting-Sounds i id (run_event e) c l own (run_event-Allows e c)
      (run_event-Ends e c phase bytes k) u named s

-- A new object under an id that was not in use.
new_object-Sounds :
    {h : Handler} (i : Client) (c : ConnectionBase)
    → c.id ≡ h.connection_index
    → c.reconnect ≡ none
    → AtRest c
    → Usable c.connection.net_config
    → h.connection_index < max_index
    → Numbered h
    → Sound h
    → Sounds (
        on_connecting i h.connection_index connect
          (record (take_index h) { connecting = emplace h.connection_index c h.connecting }))
new_object-Sounds {h} i c own quiet r u lt named s =
    let k = h.connection_index in
    let g = record (take_index h) { connecting = emplace k c h.connecting } in
    let free = lookup_fresh k k h.connecting named (omega arith) in
    let next = next_index-suc k lt in
    let later : KeysBelow (k + 1) (emplace k c h.connecting) =
      Each-emplace (λ j v. j < k + 1) k c h.connecting (omega arith)
        (Each-mono _ h.connecting (λ j v below. omega arith) named) in
    let stored =
      Sound-connecting (emplace k c h.connecting)
        (Each-emplace (λ j. UnderWay) k c h.connecting (ground (arith, r), u) s.under_way)
        (Sound-same {g = take_index h} refl refl refl refl s) in
    on_connecting-Sounds {h = g} i k connect c (lookup-emplace_self k c h.connecting free) own
      (connect-Allows c) (connect-Ends c quiet r) u
      (subst (λ n. KeysBelow n g.connecting) (sym next) later) stored

new_connection-AtRest :
    (c : CConnection) (id : ℕ)
    → c.base.is_set ≡ true
    → AtRest (new_connection (kind_for c) c id none)
unfolding new_connection
new_connection-AtRest c id e = ground (arith, e)

incoming-AtRest :
    (c : CConnection) (id : ℕ) (a : SockAddr) → AtRest (new_connection incoming c id (some a))
unfolding new_connection
incoming-AtRest c id a = (refl, refl, refl)

pub accept_conn-Sounds :
    {h : Handler} (i : Client) (b : CConnection) (a : SockAddr)
    → Usable b.net_config
    → h.connection_index < max_index
    → Numbered h
    → Sound h
    → Sounds (accept_conn i b a h)
unfolding accept_conn new_connection
accept_conn-Sounds {h} i b a u lt named s =
    let k = h.connection_index in
    new_object-Sounds i (new_connection incoming b k (some a)) refl refl (incoming-AtRest b k a) u
      lt named s

-- All the connections have a configuration that suits them.
abbrev pub AllUsable : List CConnection → Type 0
AllUsable = All (λ c. Usable c.net_config)

pub Bound-Numbered : {n m : ℕ} {h : Handler} → Bound n m h → Numbered h
Bound-Numbered {h = h} b =
    Each-mono (Named h.connection_index) h.connecting (λ k c p. p.0) b.tidy.connecting_named

start_connection-Sounds :
    {n m : ℕ} {h : Handler} (i : Client) (c : CConnection)
    → c.base.is_set ≡ true
    → Usable c.net_config
    → m < max_index
    → Bound n m h
    → Sound h
    → Sounds (start_connection i c h)
unfolding start_connection new_connection
start_connection-Sounds {n} {m} {h} i c set u lt b s =
    let k = h.connection_index in
    Sounds-if (c.base.is_dns && is_resolve_only c.opts.do_resolve) _ _
      (λ e.
        Sounds-if c.proxy.base.is_set _ _ (λ _. Sound-same {g = take_index h} refl refl refl refl s)
          (λ _.
            new_lookup-Sounds i c (ground arith) (fresh_resolve k h.dns_resolves b.resolves_named)
              s))
      (λ _.
        new_object-Sounds i (new_connection (kind_for c) c k none) refl refl
          (new_connection-AtRest c k set) u (omega (arith, b.index_le)) (Bound-Numbered b) s)

-- What the first start leaves, if it fails no assertion, is what the others start from.
pub start_connections-Sounds :
    {n m : ℕ} {h : Handler} (i : Client) (cs : List CConnection)
    → m + 2 * length cs ≤ max_index
    → AllUsable cs
    → Bound n m h
    → Sound h
    → Sounds (start_connections i cs h)
unfolding start_connections
start_connections-Sounds i [] lt u b s = s
start_connections-Sounds {n} {m} {h} i (c ∷ cs) lt u b s =
    let (g, done, b') =
      Gives-if c.base.is_set (λ set. start_connection-Gives i c set (omega arith) b)
        (λ _. (h, refl, Bound-mono (omega arith) (omega arith) b)) in
    let first =
      Sounds-if c.base.is_set (start_connection i c h) (some h)
        (λ set. start_connection-Sounds i c set u.0 (omega arith) b s) (λ _. s) in
    rw (done, start_connections)
      (start_connections-Sounds {n = n + 1} {m = m + 2} i cs (omega arith) u.1 b'
        (subst Sounds done first))

AllUsable-take : (k : ℕ) (cs : List CConnection) → AllUsable cs → AllUsable (take k cs)
AllUsable-take zero cs u = tt
AllUsable-take (suc k) [] u = tt
AllUsable-take (suc k) (c ∷ cs) u = (u.0, AllUsable-take k cs u.1)

AllUsable-chosen : (need : ℤ) (cs : List CConnection) → AllUsable cs → AllUsable (chosen need cs)
AllUsable-chosen need cs u = AllUsable-take (min (length cs) (size_of need)) cs u

-- What the application offers when it is asked now.
abbrev pub offered : Client → Handler → List CConnection
offered i h =
    let need = needed h in i.candidates (notify (on_need_outgoing_connections need) h).calls need

pub request_outgoing-Sounds :
    {n m : ℕ} {h : Handler} (i : Client)
    → m + 2 * length (chosen (needed h) (offered i h)) ≤ max_index
    → AllUsable (offered i h)
    → Bound n m h
    → Sound h
    → Sounds (request_outgoing i h)
unfolding request_outgoing
request_outgoing-Sounds {n} {m} {h} i lt u b s =
    Sounds-if (is_zero (needed h)) (some h) _ (λ _. s)
      (λ _.
        start_connections-Sounds i (chosen (needed h) (offered i h)) lt
          (AllUsable-chosen (needed h) (offered i h) u) (Bound-notify _ b)
          (Sound-same refl refl refl refl s))
