-- ===== src/Handler/Told/Steps.antt =====
-- What the application is told through every operation of the handler (src/handler.cpp).
use libbtcnet.Base.{
  ℕ, ◌<◌, Bool, true, not, ◌&&◌, List, [], ◌∷◌, ◌++◌, Option, some, ◌≡◌, refl, ap, subst, sym, ◌∙◌,
  inl, inr, Option-cases, is_some, map, arith,
}
use libbtcnet.Connection.{CConnection}
use libbtcnet.Map.{Map, lookup, erase, modify, Ascending, Each}
use libbtcnet.Map.Laws.{has, has-modify, Ascending-modify, Each-lookup}
use libbtcnet.Object.{
  ConnectionBase, Report, pending, connection_failure, incoming_connected, outgoing_connected,
}
use libbtcnet.Peer.{
  LiveCall, Turn, receive_messages, malformed_message, write_buffer_full, write_buffer_ready,
  bytes_read, bytes_written, ping_timeout,
}
use libbtcnet.Live.{LiveEvent, run_live}
use libbtcnet.Live.Keeps.{Same, Stays, run_live-Stays}
use libbtcnet.ResolveOnly.{
  CResolveOnly, ResolveReport, resolving, resolve_failure, resolve_complete, retry_resolve,
}
use libbtcnet.Transport.Reports.{Allows}
use libbtcnet.Handler.State.{
  Client, Handler, notify, notify_all, answer, max_index, on_dns_response, on_dns_failure,
}
use libbtcnet.Handler.Ops.{
  take_report, on_connecting, resolve_done, resolve_failed_up, on_resolving,
}
use libbtcnet.Handler.Calls.{live_call, take_turn, on_live}
use libbtcnet.Handler.Tidy.{Named}
use libbtcnet.Handler.Told.{
  open_in, view, fits, after, fits_all, none_open, Told, view-append, fits_all-append, Told-plain,
  Told-maps,
}
use libbtcnet.Handler.Told.Reports.{
  Tells, Tells-if, Told-if, Told-same, Told-request_again, connection_failed-Tells,
  disconnected-Tells, incoming_up-Tells, outgoing_up-Tells,
}

modify_connecting-Told :
    {h : Handler} (id : ℕ) (d : ConnectionBase)
    → Told h
    → Told (record h { connecting = modify id (λ _. d) h.connecting })
modify_connecting-Told {h} id d t =
    Told-maps _ refl (λ k x. x) (λ k x. ground (arith, x, has-modify k id (λ _. d) h.connecting))
      (omega arith) t

take_report-Tells :
    {h : Handler} (i : Client) (id : ℕ) (d : ConnectionBase) (r : Report)
    → Ascending 0 h.connecting
    → d.id < h.connection_index
    → h.connection_index < max_index
    → Told h
    → Tells (take_report i id d r h)
unfolding take_report
take_report-Tells {h} i id d pending a own lt t = modify_connecting-Told id d t
take_report-Tells {h} i id d (connection_failure f c b) a own lt t =
    connection_failed-Tells i d.id f c b (Ascending-modify 0 id (λ _. d) h.connecting a) lt
      (modify_connecting-Told id d t)
take_report-Tells {h} i id d (incoming_connected c) a own lt t =
    incoming_up-Tells i d.id d.connection c (Ascending-modify 0 id (λ _. d) h.connecting a) own
      (modify_connecting-Told id d t)
take_report-Tells {h} i id d (outgoing_connected c) a own lt t =
    outgoing_up-Tells i d.id d.connection c (Ascending-modify 0 id (λ _. d) h.connecting a) own
      (modify_connecting-Told id d t)

pub on_connecting-Tells :
    {h : Handler} (i : Client) (id : ℕ) (op : ConnectionBase → Option (ConnectionBase × Report))
    → ((c : ConnectionBase) → Allows c (op c))
    → Ascending 0 h.connecting
    → Each (Named h.connection_index) h.connecting
    → h.connection_index < max_index
    → Told h
    → Tells (on_connecting i id op h)
unfolding on_connecting
on_connecting-Tells {h} i id op allows a named lt t = elim (Option-cases (lookup id h.connecting)) [
  | inl e ↦ rw (e, on_connecting) tt
  | inr (c, e) ↦ elim (Option-cases (op c)) [
    | inl n ↦ rw (e, on_connecting, n) tt
    | inr ((d, r), n) ↦
        let (below, own) = Each-lookup (Named h.connection_index) id h.connecting named e in
        let (same, _) = subst (Allows c) n (allows c) in
        rw (e, on_connecting, n)
          (take_report-Tells i id d r a (omega (arith, same, own, below)) lt t)
  ]
]

Told-resolves : {h : Handler} (m : Map CResolveOnly) → Told h → Told (record h { dns_resolves = m })
Told-resolves m t = Told-same refl refl refl refl t

resolve_failed_up-Tells :
    {h : Handler} (i : Client) (id : ℕ) (conn : CConnection) (again : Bool)
    → Told h
    → Tells (resolve_failed_up i id conn again h)
unfolding resolve_failed_up
resolve_failed_up-Tells {h} i id conn again t =
    let r = again && not h.shutdown in
    let g = notify (on_dns_failure conn r) h in
    let told : Told g = Told-plain (on_dns_failure conn r) refl (λ k. refl) t in
    elim (Option-cases (lookup id h.dns_resolves)) [
      | inl e ↦ rw (e, resolve_failed_up) tt
      | inr (c, e) ↦
          rw (e, resolve_failed_up)
            (Told-request_again (
              Told-if (r && answer i g)
                (Told-resolves (modify id retry_resolve g.dns_resolves) told)
                (Told-resolves (erase id g.dns_resolves) told)))
    ]

resolve_report-Tells :
    (h : Handler) (i : Client) (c : CResolveOnly) (r : ResolveReport)
    → Told h
    → Tells (elim r [
      | resolving ↦ some h
      | resolve_failure b ↦ resolve_failed_up i c.id c.connection b h
      | resolve_complete l ↦ some (resolve_done c.id c.connection l h)
    ])
unfolding resolve_done
resolve_report-Tells h i c resolving t = t
resolve_report-Tells h i c (resolve_failure b) t = resolve_failed_up-Tells i c.id c.connection b t
resolve_report-Tells h i c (resolve_complete l) t =
    Told-plain (on_dns_response c.connection l) refl (λ k. refl) (Told-same refl refl refl refl t)

pub on_resolving-Tells :
    {h : Handler} (i : Client) (id : ℕ) (op : CResolveOnly → Option (CResolveOnly × ResolveReport))
    → Told h
    → Tells (on_resolving i id op h)
unfolding on_resolving
on_resolving-Tells {h} i id op t = elim (Option-cases (lookup id h.dns_resolves)) [
  | inl e ↦ rw (e, on_resolving) tt
  | inr (c, e) ↦ elim (Option-cases (op c)) [
    | inl n ↦ rw (e, on_resolving, n) tt
    | inr ((d, r), n) ↦
        rw (e, on_resolving, n) (resolve_report-Tells _ i d r (Told-same refl refl refl refl t))
  ]
]

live_fits : (id : ℕ) (c : LiveCall) (s : ℕ → Bool) → s id ≡ true → fits (live_call id c) s ≡ true
live_fits id (receive_messages l n) s e = e
live_fits id malformed_message s e = e
live_fits id (write_buffer_full n) s e = e
live_fits id (write_buffer_ready n) s e = e
live_fits id (bytes_read n o) s e = e
live_fits id (bytes_written n o) s e = e
live_fits id ping_timeout s e = e

live_after : (id : ℕ) (c : LiveCall) (s : ℕ → Bool) → after (live_call id c) s ≡ s
live_after id (receive_messages l n) s = refl
live_after id malformed_message s = refl
live_after id (write_buffer_full n) s = refl
live_after id (write_buffer_ready n) s = refl
live_after id (bytes_read n o) s = refl
live_after id (bytes_written n o) s = refl
live_after id ping_timeout s = refl

live_view : (id : ℕ) (cs : List LiveCall) (s : ℕ → Bool) → view s (map (live_call id) cs) ≡ s
unfolding view
live_view id [] s = refl
live_view id (c ∷ cs) s =
    ap (λ x. view x (map (live_call id) cs)) (live_after id c s) ∙ live_view id cs s

live_fits_all :
    (id : ℕ) (cs : List LiveCall) (s : ℕ → Bool)
    → s id ≡ true
    → fits_all s (map (live_call id) cs) ≡ true
unfolding fits_all
live_fits_all id [] s e = refl
live_fits_all id (c ∷ cs) s e = rw (live_fits id c s e, live_after id c s) (live_fits_all id cs s e)

-- What a connection that is open has to tell.
Told-live :
    {h : Handler} (id : ℕ) (cs : List LiveCall)
    → open_in h id ≡ true
    → Told h
    → Told (notify_all (map (live_call id) cs) h)
Told-live {h} id cs is_open t =
    let same : view none_open (h.calls ++ map (live_call id) cs) ≡ open_in h =
      view-append none_open h.calls (map (live_call id) cs) ∙ live_view id cs (open_in h) in
    record {
      proper =
          fits_all-append none_open h.calls (map (live_call id) cs) t.proper
            (live_fits_all id cs (open_in h) is_open);
      shown = λ k x. ap (λ s. s k) same ∙ t.shown k x;
      hidden = λ k x. ap (λ s. s k) same ∙ t.hidden k x;
      later = λ k x. ap (λ s. s k) same ∙ t.later k x;
    }

take_turn-Tells :
    {h : Handler} (i : Client) (id : ℕ) (t : Turn)
    → has id h.connected ≡ true
    → t.object.id ≡ id
    → Ascending 0 h.connected
    → h.connection_index < max_index
    → Told h
    → Tells (take_turn i id t h)
unfolding take_turn
take_turn-Tells {h} i id t e own a lt told =
    let d = t.object in
    let changed : Told (record h { connected = modify id (λ _. d) h.connected }) =
      Told-maps _ refl (λ k x. ground (arith, x, has-modify k id (λ _. d) h.connected))
        (λ k x. ground (arith, x)) (omega arith) told in
    let spoken =
      Told-live d.id t.calls (subst (λ k. open_in h k ≡ true) (sym own) (told.shown id e))
        changed in
    Tells-if t.closed _ (some _)
      (disconnected-Tells i d.id _ (Ascending-modify 0 id (λ _. d) h.connected a) lt spoken) spoken

pub on_live-Tells :
    {h : Handler} (i : Client) (id : ℕ) (x : LiveEvent)
    → Ascending 0 h.connected
    → Each (Named h.connection_index) h.connected
    → Each (λ k c. is_some c.bev ≡ true) h.connected
    → h.connection_index < max_index
    → Told h
    → Tells (on_live i id x h)
unfolding on_live
on_live-Tells {h} i id x a named up lt t = elim (Option-cases (lookup id h.connected)) [
  | inl e ↦ rw (e, on_live) tt
  | inr (c, e) ↦ elim (Option-cases (run_live x c)) [
    | inl n ↦ rw (e, on_live, n) tt
    | inr (turn, n) ↦
        let (_, own) = Each-lookup (Named h.connection_index) id h.connected named e in
        let same : Same c turn.object =
          subst (Stays c) n
            (run_live-Stays x c (Each-lookup (λ k v. is_some v.bev ≡ true) id h.connected up e)) in
        rw (e, on_live, n) (take_turn-Tells i id turn (rw e refl) (same.0 ∙ own) a lt t)
  ]
]
