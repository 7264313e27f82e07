-- ===== src/Handler/Starts.antt =====
-- `StartConnection` (src/handler.cpp): a new connection or lookup keeps the handler's invariant.
use libbtcnet.Base.{
  ℕ, ◌+◌, ◌*◌, ◌≤◌, ◌<◌, true, ◌&&◌, List, [], ◌∷◌, Option, none, some, ◌≡◌, refl, subst, length,
  is_some, arith,
}
use libbtcnet.Map.{Map, lookup, emplace, Each}
use libbtcnet.Map.Laws.{lookup_fresh, Each-emplace, Each-mono, length-emplace, lookup-emplace_self}
use libbtcnet.Connection.{CConnection, is_resolve_only}
use libbtcnet.ResolveOnly.{CResolveOnly, ResolveReport, new_resolve, resolve, on_resolve_failure}
use libbtcnet.Object.{ConnectionBase, new_connection}
use libbtcnet.Transport.{
  connect, direct_connect, proxy_connect, dns_connect, dns_do_resolve, dns_resolve_failure,
  bare_connect,
}
use libbtcnet.Handler.State.{Client, Handler, max_index}
use libbtcnet.Handler.Ops.{on_connecting, on_resolving}
use libbtcnet.Handler.Loop.{take_index, kind_for, start_connection, start_connections}
use libbtcnet.Handler.Tidy.{Tidy-index, Tidy-emplace_connecting, fresh}
use libbtcnet.Handler.Bound.{
  Bound, Gives, Gives-if, NamedResolve, NamedResolve-mono, Listeners-mono, Bound-mono,
  next_index-suc,
}
use libbtcnet.Handler.Steps.{connect-Gives}
use libbtcnet.Handler.Resolves.{on_resolving-Gives}

-- The first `Connect` of an object of the class that `StartConnection` chooses fails no assertion.
connect_new-is_some :
    (c : CConnection) (id : ℕ)
    → c.base.is_set ≡ true
    → is_some (connect (new_connection (kind_for c) c id none)) ≡ true
unfolding connect direct_connect proxy_connect dns_connect dns_do_resolve dns_resolve_failure
    bare_connect new_connection
connect_new-is_some c id s = ground (arith, s)

given {ℓ ℓ'} :
    {A : Type ℓ} {B : Type ℓ'} (o : Option (A × B))
    → is_some o ≡ true
    → (d : A) × (r : B) × (o ≡ some (d, r))
given none h = cc h
given (some (d, r)) h = (d, r, refl)

SameId : ℕ → Option (CResolveOnly × ResolveReport) → Type 0
SameId id none = Unit
SameId id (some (d, r)) = d.id ≡ id

resolve_new-is_some :
    (c : CConnection) (id : ℕ) → c.base.is_dns ≡ true → is_some (resolve (new_resolve c id)) ≡ true
unfolding resolve new_resolve on_resolve_failure
resolve_new-is_some c id s = ground (arith, s)

resolve_new-SameId : (c : CConnection) (id : ℕ) → SameId id (resolve (new_resolve c id))
unfolding resolve new_resolve on_resolve_failure SameId
resolve_new-SameId c id = ground arith

pub fresh_resolve : (k : ℕ) (m : Map CResolveOnly) → Each (NamedResolve k) m → lookup k m ≡ none
fresh_resolve k m e =
    lookup_fresh k k m (Each-mono (NamedResolve k) m (λ j c n. n.0) e) (omega arith)

-- A new object, under an id that was not in use.
pub Bound-emplace :
    {n m : ℕ} {h : Handler} (c : ConnectionBase)
    → c.id ≡ h.connection_index
    → m < max_index
    → Bound n m h
    → Bound
        (n + 1)
        (m + 1)
        (record (take_index h) { connecting = emplace h.connection_index c h.connecting })
Bound-emplace {n} {m} {h} c own lt b =
    let k = h.connection_index in
    let next = next_index-suc k (omega (arith, b.index_le)) in
    let free = fresh k k h.connecting b.tidy.connecting_named (omega arith) in
    let free' = fresh k k h.connected b.tidy.connected_named (omega arith) in
    record {
      tidy = rw next (
          Tidy-emplace_connecting (Tidy-index b.tidy (k + 1) (omega arith)) k c (omega arith, own)
            free');
      resolves_named = rw next (NamedResolve-mono h.dns_resolves (omega arith) b.resolves_named);
      listeners = rw next (Listeners-mono h.binds (omega arith) b.listeners);
      load_le = omega (arith, length-emplace k c h.connecting free, b.load_le);
      index_le = omega (arith, b.index_le);
    }

Bound-emplace_resolve :
    {n m : ℕ} {h : Handler} (c : CResolveOnly)
    → c.id ≡ h.connection_index
    → m < max_index
    → Bound n m h
    → Bound n
        (m + 1)
        (record (take_index h) { dns_resolves = emplace h.connection_index c h.dns_resolves })
Bound-emplace_resolve {n} {m} {h} c own lt b =
    let k = h.connection_index in
    let next = next_index-suc k (omega (arith, b.index_le)) in
    record {
      tidy = rw next (Tidy-index b.tidy (k + 1) (omega arith));
      resolves_named = rw next (
          Each-emplace (NamedResolve (k + 1)) k c h.dns_resolves (omega arith, own)
            (NamedResolve-mono h.dns_resolves (omega arith) b.resolves_named));
      listeners = rw next (Listeners-mono h.binds (omega arith) b.listeners);
      load_le = b.load_le;
      index_le = omega (arith, b.index_le);
    }

pub new_connecting-Gives :
    {n m : ℕ} {h : Handler} (i : Client) (c : ConnectionBase)
    → c.id ≡ h.connection_index
    → is_some (connect c) ≡ true
    → m + 2 ≤ max_index
    → Bound n m h
    → Gives (n + 1) (m + 2) (
        on_connecting i h.connection_index connect
          (record (take_index h) { connecting = emplace h.connection_index c h.connecting }))
new_connecting-Gives {n} {m} {h} i c own s lt b =
    let k = h.connection_index in
    let (d, r, up) = given (connect c) s in
    let free = fresh k k h.connecting b.tidy.connecting_named (omega arith) in
    let (g, done, bound) =
      connect-Gives {n = n + 1} {m = m + 1} i k c d r (omega arith)
        (lookup-emplace_self k c h.connecting free) up
        (Bound-emplace {h = h} c own (omega arith) b) in
    (g, done, Bound-mono (omega arith) (omega arith) bound)

new_resolving-Gives :
    {n m : ℕ} {h : Handler} (i : Client) (c : CConnection)
    → c.base.is_dns ≡ true
    → m + 2 ≤ max_index
    → Bound n m h
    → Gives (n + 1) (m + 2) (
        on_resolving i h.connection_index resolve (record (take_index h) {
          dns_resolves =
              emplace h.connection_index (new_resolve c h.connection_index) h.dns_resolves;
        }))
unfolding SameId new_resolve
new_resolving-Gives {n} {m} {h} i c named lt b =
    let k = h.connection_index in
    let object = new_resolve c k in
    let (d, r, e) = given (resolve object) (resolve_new-is_some c k named) in
    let free = fresh_resolve k h.dns_resolves b.resolves_named in
    let (g, done, bound) =
      on_resolving-Gives {n = n} {m = m + 1} i k resolve object d r
        (lookup-emplace_self k object h.dns_resolves free) e
        (subst (SameId k) e (resolve_new-SameId c k))
        (Bound-emplace_resolve {h = h} object refl (omega arith) b) in
    (g, done, Bound-mono (omega arith) (omega arith) bound)

pub took_index :
    {n m : ℕ} {h : Handler} → m < max_index → Bound n m h → Bound n (m + 1) (take_index h)
took_index {n} {m} {h} lt b =
    let k = h.connection_index in
    let next = next_index-suc k (omega (arith, b.index_le)) in
    record {
      tidy = rw next (Tidy-index b.tidy (k + 1) (omega arith));
      resolves_named = rw next (NamedResolve-mono h.dns_resolves (omega arith) b.resolves_named);
      listeners = rw next (Listeners-mono h.binds (omega arith) b.listeners);
      load_le = omega (arith, b.load_le);
      index_le = omega (arith, b.index_le);
    }

-- A start takes two ids at most, and adds one connection.
pub start_connection-Gives :
    {n m : ℕ} {h : Handler} (i : Client) (c : CConnection)
    → c.base.is_set ≡ true
    → m + 2 ≤ max_index
    → Bound n m h
    → Gives (n + 1) (m + 2) (start_connection i c h)
unfolding start_connection new_connection on_connecting on_resolving
start_connection-Gives {n} {m} {h} i c s lt b =
    let k = h.connection_index in
    Gives-if (c.base.is_dns && is_resolve_only c.opts.do_resolve)
      (λ e.
        Gives-if c.proxy.base.is_set
          (λ _. (_, refl, Bound-mono (omega arith) (omega arith) (took_index (omega arith) b)))
          (λ _. new_resolving-Gives i c (ground arith) lt b))
      (λ _.
        new_connecting-Gives i (new_connection (kind_for c) c k none) refl
          (connect_new-is_some c k s) lt b)

pub start_connections-Gives :
    {n m : ℕ} {h : Handler} (i : Client) (cs : List CConnection)
    → m + 2 * length cs ≤ max_index
    → Bound n m h
    → Gives (n + length cs) (m + 2 * length cs) (start_connections i cs h)
unfolding start_connections
start_connections-Gives {n} {m} {h} i [] lt b = (h, refl, Bound-mono (omega arith) (omega arith) b)
start_connections-Gives {n} {m} {h} i (c ∷ cs) lt b =
    let (g, done, b') =
      Gives-if c.base.is_set (λ s. start_connection-Gives i c s (omega arith) b)
        (λ _. (h, refl, Bound-mono (omega arith) (omega arith) b)) in
    let (g', done', b'') = start_connections-Gives {n = n + 1} {m = m + 2} i cs (omega arith) b' in
    (g', rw (done, start_connections) done', Bound-mono (omega arith) (omega arith) b'')
