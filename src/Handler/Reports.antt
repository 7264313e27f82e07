-- ===== src/Handler/Reports.antt =====
-- The handler's invariant through every report of a connection (src/handler.cpp).
use libbtcnet.Base.{
  ℕ, ◌+◌, ◌-◌, ◌≤◌, ◌<◌, Bool, true, false, not, ◌&&◌, none, some, ◌≡◌, refl, ◌∙◌, inl, inr,
  Bool-cases, Option-cases, is_some, if◌then◌else◌, length, arith,
}
use libbtcnet.Base.Int.{pos, ◌+ℤ◌}
use libbtcnet.Connection.{CConnection}
use libbtcnet.Map.{lookup, erase, emplace, count}
use libbtcnet.Map.Laws.{length-erase, count-erase, count-emplace, Each-lookup, lookup-erase_self}
use libbtcnet.Object.{ConnectionBase, ConnectionFailureType, is_outgoing, go_live}
use libbtcnet.Channel.{RateGroup, incoming_rate_limit, outgoing_rate_limit}
use libbtcnet.Handler.State.{
  Client, Handler, notify, answer, on_incoming_connection, on_outgoing_connection, on_disconnected,
  max_index,
}
use libbtcnet.Handler.Ops.{
  admit_incoming, admit_outgoing, failure_call, connection_failed, uncount, disconnected,
  incoming_up, outgoing_up,
}
use libbtcnet.Handler.Bound.{
  Bound, Gives, Gives-if, Bound-notify, Bound-mono, Bound-requeue_or_request,
}
use libbtcnet.Handler.Tidy.{
  Tidy, Named, Tidy-erase_connecting, Tidy-erase_connected, Tidy-emplace_connected, not_connected,
}

-- An object leaves the connecting ones.
pub Bound-erase_connecting :
    {n m : ℕ} {h : Handler} (k : ℕ) (c : ConnectionBase)
    → lookup k h.connecting ≡ some c
    → Bound n m h
    → Bound (n - 1) m (record h { connecting = erase k h.connecting }) × (0 < n)
Bound-erase_connecting {n} {h = h} k c e b = (
  record {
    tidy = Tidy-erase_connecting b.tidy k;
    resolves_named = b.resolves_named;
    listeners = b.listeners;
    load_le = omega (arith, length-erase k c h.connecting e, b.load_le);
    index_le = b.index_le;
  },
  omega (arith, length-erase k c h.connecting e, b.load_le),
)

-- A failed attempt is answered: the load does not grow, since a retry takes the place of the object.
pub connection_failed-Gives :
    {n m : ℕ} {h : Handler} (i : Client) (id : ℕ) (c : ConnectionBase)
    (type : ConnectionFailureType) (failed : CConnection) (again : Bool)
    → m < max_index
    → lookup id h.connecting ≡ some c
    → Bound n m h
    → Gives n (m + 1) (connection_failed i id type failed again h)
unfolding connection_failed
connection_failed-Gives {n} {m} {h} i id c type failed again lt e b =
    let (gone, pos_n) = Bound-erase_connecting id c e b in
    rw (e, connection_failed)
      (
        _,
        refl,
        Bound-mono (ground arith) (omega arith) (
            Bound-requeue_or_request i (again && not h.shutdown) c lt
              (Bound-notify (failure_call type failed (again && not h.shutdown)) gone)),
      )

-- A `bufferevent` can be enabled, and the object keeps its id and direction.
go_live-Live :
    (group : RateGroup) (c : ConnectionBase)
    → is_some c.bev ≡ true
    → (d : ConnectionBase) × (go_live group c ≡ some d)
      × (d.id ≡ c.id)
      × (is_outgoing d ≡ is_outgoing c)
      × (is_some d.bev ≡ true)
unfolding go_live
go_live-Live group c h = elim (Option-cases c.bev) [
  | inl e ↦ cc (rw e at h)
  | inr (b, e) ↦ rw e (_, refl, refl, refl, refl)
]

-- The object is taken over from the connecting ones.
module _ {n m : ℕ} {h : Handler} (id : ℕ) (c d : ConnectionBase)
    (e : lookup id h.connecting ≡ some c) (same : d.id ≡ c.id) (up : is_some d.bev ≡ true)
    (b : Bound n m h) where
  taken-Named : Named h.connection_index id d
  taken-Named =
      let named =
        Each-lookup (Named h.connection_index) id h.connecting b.tidy.connecting_named e in
      (named.0, same ∙ named.1)

  taken_gone : lookup id (erase id h.connecting) ≡ none
  taken_gone = lookup-erase_self 0 id h.connecting b.tidy.connecting_keys

  taken_Tidy :
      Tidy
        (emplace id d h.connected)
        (erase id h.connecting)
        h.connection_index
        (if is_outgoing d then h.outgoing_conn_count +ℤ pos 1 else h.outgoing_conn_count)
        (if is_outgoing d then h.incoming_conn_count else h.incoming_conn_count +ℤ pos 1)
  taken_Tidy =
      Tidy-emplace_connected (Tidy-erase_connecting b.tidy id) id d taken-Named up
        (not_connected b.tidy id c e) taken_gone

  taken_load : count is_outgoing (emplace id d h.connected) + length (erase id h.connecting) ≤ n
  taken_load = ground (
    arith,
    b.load_le,
    count-emplace is_outgoing id d h.connected (not_connected b.tidy id c e),
    length-erase id c h.connecting e,
  )

-- A connection that is up is counted, if the application wants it.
pub outgoing_up-Gives :
    {n m : ℕ} {h : Handler} (i : Client) (id : ℕ) (c : ConnectionBase) (conn resolved : CConnection)
    → (is_outgoing c ≡ true) × (is_some c.bev ≡ true)
    → lookup id h.connecting ≡ some c
    → Bound n m h
    → Gives n m (outgoing_up i id conn resolved h)
unfolding outgoing_up
outgoing_up-Gives {n} {m} {h} i id c conn resolved (o, up) e b =
    let (d, live, same, kind, still) = go_live-Live outgoing_rate_limit c up in
    let g : Handler =
      notify (on_outgoing_connection id conn resolved)
        (record h { connecting = erase id h.connecting }) in
    rw (e, outgoing_up, live)
      (Gives-if (answer i g) {x = some (admit_outgoing id d g)} {y = some g}
        (λ _. (
          _,
          refl,
          record {
            tidy = rw (kind, o) at (taken_Tidy id c d e same still b);
            resolves_named = b.resolves_named;
            listeners = b.listeners;
            load_le = taken_load id c d e same still b;
            index_le = b.index_le;
          },
        ))
        (λ _. (
          _,
          refl,
          Bound-notify _
              (Bound-mono (omega arith) (omega arith) (Bound-erase_connecting id c e b).0),
        )))

-- The same for an incoming connection, after which there is one object less that is connecting.
pub incoming_up-Gives :
    {n m : ℕ} {h : Handler} (i : Client) (id : ℕ) (c : ConnectionBase) (conn resolved : CConnection)
    → (is_outgoing c ≡ false) × (is_some c.bev ≡ true)
    → lookup id h.connecting ≡ some c
    → Bound n m h
    → Gives (n - 1) m (incoming_up i id conn resolved h)
unfolding incoming_up
incoming_up-Gives {n} {m} {h} i id c conn resolved (o, up) e b =
    let (d, live, same, kind, still) = go_live-Live incoming_rate_limit c up in
    let inward : is_outgoing d ≡ false = kind ∙ o in
    let g : Handler =
      notify (on_incoming_connection id conn resolved)
        (record h { connecting = erase id h.connecting }) in
    rw (e, incoming_up, live)
      (Gives-if (answer i g) {x = some (admit_incoming id d g)} {y = some g}
        (λ _. (
          _,
          refl,
          record {
            tidy = rw inward at (taken_Tidy id c d e same still b);
            resolves_named = b.resolves_named;
            listeners = b.listeners;
            load_le = ground (
              arith,
              b.load_le,
              inward,
              count-emplace is_outgoing id d h.connected (not_connected b.tidy id c e),
              length-erase id c h.connecting e,
            );
            index_le = b.index_le;
          },
        ))
        (λ _. (_, refl, Bound-notify _ (Bound-erase_connecting id c e b).0)))

-- An object leaves the connected ones.
Bound-uncount :
    {n m : ℕ} {h : Handler} (id : ℕ) (c : ConnectionBase)
    → lookup id h.connected ≡ some c
    → Bound n m h
    → Bound
        (n - (if is_outgoing c then 1 else 0))
        m
        (uncount c (record h { connected = erase id h.connected }))
      × ((if is_outgoing c then 1 else 0) ≤ n)
Bound-uncount {n} {m} {h} id c e b =
    let t = Tidy-erase_connected b.tidy id c e in
    let k = count-erase is_outgoing id c h.connected e in
    elim (Bool-cases (is_outgoing c)) [
      | inl o ↦ rw o (
        record {
          tidy = rw o at t;
          resolves_named = b.resolves_named;
          listeners = b.listeners;
          load_le = ground (arith, o, k, b.load_le);
          index_le = b.index_le;
        },
        ground (arith, o, k, b.load_le),
      )
      | inr o ↦ rw o (
        record {
          tidy = rw o at t;
          resolves_named = b.resolves_named;
          listeners = b.listeners;
          load_le = ground (arith, o, k, b.load_le);
          index_le = b.index_le;
        },
        omega arith,
      )
    ]

disconnected_load :
    (n : ℕ) (again shut outgoing : Bool)
    → (again ≡ true → outgoing ≡ true)
    → (if outgoing then 1 else 0) ≤ n
    → n - (if outgoing then 1 else 0) + (if again && not shut then 1 else 0) ≤ n
disconnected_load n again shut true only h = ground arith
disconnected_load n true shut false only h = cc (only refl)
disconnected_load n false shut false only h = omega arith

-- A connection that stands is lost, and may ask to be taken up again only if it is outgoing. With
-- an id left, no assertion fails, the invariant is kept, and the load, of which a retry is a part,
-- stays within its bound.
pub disconnected-Gives :
    {n m : ℕ} {h : Handler} (i : Client) (id : ℕ) (c : ConnectionBase) (again : Bool)
    → (again ≡ true → is_outgoing c ≡ true)
    → m < max_index
    → lookup id h.connected ≡ some c
    → Bound n m h
    → Gives n (m + 1) (disconnected i id again h)
unfolding disconnected
disconnected-Gives {n} {m} {h} i id c again only lt e b =
    let r = again && not h.shutdown in
    let (gone, pos_n) = Bound-uncount id c e b in
    rw (e, disconnected)
      (
        _,
        refl,
        Bound-mono (disconnected_load n again h.shutdown (is_outgoing c) only pos_n) (omega arith)
            (Bound-requeue_or_request i r c lt (Bound-notify (on_disconnected id r) gone)),
      )
