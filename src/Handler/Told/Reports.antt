-- ===== src/Handler/Told/Reports.antt =====
-- What the application is told through the reports of a connection (src/handler.cpp).
use libbtcnet.Base.{
  ℕ, ◌<◌, Bool, true, false, not, ◌&&◌, Option, none, some, ◌≡◌, refl, ◌∙◌, inl, inr, Option-cases,
  if◌then◌else◌, arith,
}
use libbtcnet.Connection.{CConnection}
use libbtcnet.Map.{Map, lookup, erase, emplace, Ascending}
use libbtcnet.Map.Laws.{has, has-erase, has-emplace, has-modify}
use libbtcnet.Object.{
  ConnectionBase, ConnectionFailureType, connect_failed, resolve_failed, proxy_failed, retry,
  go_live, is_outgoing,
}
use libbtcnet.Handler.State.{
  Client, Handler, notify, answer, max_index, request_again, on_disconnected,
  on_incoming_connection, on_outgoing_connection, on_ready_for_first_send,
}
use libbtcnet.Handler.Ops.{
  requeue, requeue_or_request, failure_call, connection_failed, uncount, disconnected, incoming_up,
  outgoing_up, admit_incoming, admit_outgoing,
}
use libbtcnet.Peer.{on_some}
use libbtcnet.Channel.{incoming_rate_limit, outgoing_rate_limit}
use libbtcnet.Handler.Bound.{next_index-suc}
use libbtcnet.Handler.Told.{open_in, Told, view_call, Told-call, Told-plain, Told-maps}

-- What an operation leaves, if it fails no assertion.
abbrev pub Tells : Option Handler → Type 0
Tells none = Unit
Tells (some g) = Told g

pub Told-if : (b : Bool) {g h : Handler} → Told g → Told h → Told (if b then g else h)
Told-if true p q = p
Told-if false p q = q

-- Neither the calls nor the connections change.
pub Told-same :
    {h g : Handler}
    → g.calls ≡ h.calls
    → g.connected ≡ h.connected
    → g.connecting ≡ h.connecting
    → g.connection_index ≡ h.connection_index
    → Told h
    → Told g
Told-same {h} {g} p q r n t =
    Told-maps g p (λ k x. rw (← q) x) (λ k x. rw (← r, x)) (omega (arith, n)) t

has_found {ℓ} : {V : Type ℓ} (k : ℕ) (v : V) (m : Map V) → lookup k m ≡ some v → has k m ≡ true
has_found k v m e = rw e refl

pub Told-request_again : {h : Handler} → Told h → Told (request_again h)
Told-request_again {h} t = Told-if h.events (Told-same refl refl refl refl t) t

pub requeue-Told :
    {h : Handler} (c : ConnectionBase)
    → h.connection_index < max_index
    → Told h
    → Told (requeue c h)
unfolding requeue
requeue-Told {h} c lt t =
    let k = h.connection_index in
    let next = next_index-suc k lt in
    Told-maps _ refl (λ j x. x)
      (λ j x. ground (
        arith,
        x,
        has-modify j k (retry k) (emplace k c h.connecting),
        has-emplace j k c h.connecting,
      ))
      (omega (arith, next)) t

pub requeue_or_request-Told :
    {h : Handler} (i : Client) (again : Bool) (c : ConnectionBase)
    → h.connection_index < max_index
    → Told h
    → Told (requeue_or_request i again c h)
unfolding requeue_or_request
requeue_or_request-Told {h} i again c lt t =
    Told-if (again && answer i h) (requeue-Told c lt t) (Told-request_again t)

erase_connecting-Told :
    {h : Handler} (id : ℕ)
    → Ascending 0 h.connecting
    → Told h
    → Told (record h { connecting = erase id h.connecting })
erase_connecting-Told {h} id a t =
    Told-maps _ refl (λ k x. x) (λ k x. ground (arith, x, has-erase 0 k id h.connecting a))
      (omega arith) t

failure-Told :
    {h : Handler} (t : ConnectionFailureType) (failed : CConnection) (again : Bool)
    → Told h
    → Told (notify (failure_call t failed again) h)
failure-Told connect_failed f b t = Told-plain _ refl (λ k. refl) t
failure-Told resolve_failed f b t = Told-plain _ refl (λ k. refl) t
failure-Told proxy_failed f b t = Told-plain _ refl (λ k. refl) t

pub connection_failed-Tells :
    {h : Handler} (i : Client) (id : ℕ) (t : ConnectionFailureType) (failed : CConnection)
    (again : Bool)
    → Ascending 0 h.connecting
    → h.connection_index < max_index
    → Told h
    → Tells (connection_failed i id t failed again h)
unfolding connection_failed
connection_failed-Tells {h} i id t failed again a lt told =
    elim (Option-cases (lookup id h.connecting)) [
      | inl e ↦ rw (e, connection_failed) tt
      | inr (c, e) ↦
          rw (e, connection_failed)
            (requeue_or_request-Told i (again && not h.shutdown) c lt
              (failure-Told t failed (again && not h.shutdown) (erase_connecting-Told id a told)))
    ]

-- A connection that is open is taken out, and closed.
pub close-Told :
    {h : Handler} (id : ℕ) (again : Bool)
    → has id h.connected ≡ false
    → open_in h id ≡ true
    → Told h
    → Told (notify (on_disconnected id again) h)
close-Told {h} id again gone is_open t =
    Told-call _ (on_disconnected id again) refl is_open
      (λ k x. ground (arith, x, gone, t.shown k x)) (λ k x. ground (arith, t.hidden k x))
      (λ k x. ground (arith, t.later k x)) t

pub uncount-Told : {h : Handler} (c : ConnectionBase) → Told h → Told (uncount c h)
uncount-Told c t =
    Told-if (is_outgoing c) (Told-same refl refl refl refl t) (Told-same refl refl refl refl t)

pub uncount_lem :
    (c : ConnectionBase) (h : Handler)
    → ((uncount c h).connected ≡ h.connected)
      × ((uncount c h).calls ≡ h.calls)
      × ((uncount c h).connection_index ≡ h.connection_index)
uncount_lem c h = ground arith

pub disconnected-Tells :
    {h : Handler} (i : Client) (id : ℕ) (again : Bool)
    → Ascending 0 h.connected
    → h.connection_index < max_index
    → Told h
    → Tells (disconnected i id again h)
unfolding disconnected
disconnected-Tells {h} i id again a lt t = elim (Option-cases (lookup id h.connected)) [
  | inl e ↦ rw (e, disconnected) tt
  | inr (c, e) ↦
      let g = record h { connected = erase id h.connected } in
      let (same, calls, index) = uncount_lem c g in
      let gone = has-erase 0 id id h.connected a in
      let left : Told g =
        Told-maps g refl (λ k x. ground (arith, x, has-erase 0 k id h.connected a))
          (λ k x. ground (arith, x)) (omega arith) t in
      rw (e, disconnected)
        (requeue_or_request-Told i (again && not h.shutdown) c (omega (arith, index, lt)) (
          close-Told id (again && not h.shutdown) (rw same (ground (arith, gone)))
            (rw calls (t.shown id (has_found id c h.connected e))) (uncount-Told c left)))
]

pub Tells-if : (b : Bool) (x y : Option Handler) → Tells x → Tells y → Tells (if b then x else y)
Tells-if true x y p q = p
Tells-if false x y p q = q

admit_some :
    (f : ConnectionBase → Handler) (o : Option ConnectionBase)
    → ((d : ConnectionBase) → Told (f d))
    → Tells (on_some f o)
admit_some f none t = tt
admit_some f (some d) t = t d

-- A connection that was announced joins those that stand.
admit_incoming-Told :
    {h : Handler} (id : ℕ) (d : ConnectionBase)
    → open_in h id ≡ true
    → Told h
    → Told (admit_incoming id d h)
admit_incoming-Told {h} id d is_open t = record {
  proper = t.proper;
  shown = λ k x. ground (arith, x, has-emplace k id d h.connected, t.shown k, is_open);
  hidden = t.hidden;
  later = t.later;
}

-- One that is ready for its first send.
admit_outgoing-Told :
    {h : Handler} (id : ℕ) (d : ConnectionBase)
    → open_in h id ≡ false
    → has id h.connecting ≡ false
    → id < h.connection_index
    → Told h
    → Told (admit_outgoing id d h)
admit_outgoing-Told {h} id d closed gone lt t =
    Told-call _ (on_ready_for_first_send id) refl (rw closed refl)
      (λ k x. ground (arith, x, has-emplace k id d h.connected, t.shown k))
      (λ k x. ground (arith, x, gone, t.hidden k)) (λ k x. ground (arith, t.later k x)) t

-- An object that came up.
module _ {h : Handler} (i : Client) (id : ℕ) (conn resolved : CConnection)
    (a : Ascending 0 h.connecting) (lt : id < h.connection_index) (t : Told h) where
  gone_connecting : has id (erase id h.connecting) ≡ false
  gone_connecting = ground (arith, has-erase 0 id id h.connecting a)

  pub incoming_up-Tells : Tells (incoming_up i id conn resolved h)
  unfolding incoming_up
  incoming_up-Tells = elim (Option-cases (lookup id h.connecting)) [
    | inl e ↦ rw (e, incoming_up) tt
    | inr (c, e) ↦
        let g =
          notify (on_incoming_connection id conn resolved)
            (record h { connecting = erase id h.connecting }) in
        let left = erase_connecting-Told id a t in
        let closed = t.hidden id (has_found id c h.connecting e) in
        let announced : Told g =
          Told-call g (on_incoming_connection id conn resolved) refl (rw closed refl)
            (λ k x. ground (arith, left.shown k x))
            (λ k x. ground (arith, x, gone_connecting, left.hidden k x))
            (λ k x. ground (arith, left.later k x)) left in
        let is_open = view_call (on_incoming_connection id conn resolved) h.calls in
        let admitted : (d : ConnectionBase) → Told (admit_incoming id d g) =
          λ d. admit_incoming-Told id d (is_open id ∙ ground arith) announced in
        rw (e, incoming_up)
          (Tells-if (answer i g) _ (some g)
            (admit_some (λ d. admit_incoming id d g) (go_live incoming_rate_limit c) admitted)
            announced)
  ]

  pub outgoing_up-Tells : Tells (outgoing_up i id conn resolved h)
  unfolding outgoing_up
  outgoing_up-Tells = elim (Option-cases (lookup id h.connecting)) [
    | inl e ↦ rw (e, outgoing_up) tt
    | inr (c, e) ↦
        let g =
          notify (on_outgoing_connection id conn resolved)
            (record h { connecting = erase id h.connecting }) in
        let left : Told g =
          Told-plain (on_outgoing_connection id conn resolved) refl (λ k. refl)
            (erase_connecting-Told id a t) in
        let closed : open_in g id ≡ false =
          view_call (on_outgoing_connection id conn resolved) h.calls id
          ∙ t.hidden id (has_found id c h.connecting e) in
        rw (e, outgoing_up)
          (Tells-if (answer i g) _ (some g)
            (admit_some (λ d. admit_outgoing id d g) (go_live outgoing_rate_limit c)
              (λ d. admit_outgoing-Told id d closed gone_connecting lt left))
            left)
  ]
