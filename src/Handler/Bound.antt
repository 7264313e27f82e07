-- ===== src/Handler/Bound.antt =====
-- The handler's invariant together with its bounds, through every report of a connection
-- (src/handler.cpp).
use libbtcnet.Base.{
  ℕ, ◌+◌, ◌≤◌, ◌<◌, Bool, true, false, Option, some, ◌≡◌, refl, if◌then◌else◌, length, arith,
}
use libbtcnet.Map.{Map, count, Each, Ascending}
use libbtcnet.Listener.{CConnListener}
use libbtcnet.Map.Laws.{modify-emplace, length-emplace, Each-mono}
use libbtcnet.ResolveOnly.{CResolveOnly}
use libbtcnet.Object.{ConnectionBase, is_outgoing, retry}
use libbtcnet.Handler.State.{
  Call, Client, Handler, notify, answer, max_index, next_index, request_again,
}
use libbtcnet.Handler.Ops.{requeue, requeue_or_request}
use libbtcnet.Handler.Tidy.{IsTidy, fresh, Tidy-index, Tidy-emplace_connecting}

-- The outgoing connections that stand or are under way, and any other that is connecting.
abbrev pub load : Handler → ℕ
load h = count is_outgoing h.connected + length h.connecting

abbrev pub NamedResolve : ℕ → ℕ → CResolveOnly → Type 0
NamedResolve index k r = (k < index) × (r.id ≡ k)

-- What listens stands under its own id and holds its listener.
abbrev pub Listens : ℕ → ℕ → CConnListener → Type 0
Listens index k l = (k < index) × (l.id ≡ k) × (l.listening ≡ true)

abbrev pub Listeners : ℕ → Map CConnListener → Type 0
Listeners index m = Ascending 0 m × Each (Listens index) m

pub record Bound (n m : ℕ) (h : Handler) : Type 0 where
  pub tidy : IsTidy h
  pub resolves_named : Each (NamedResolve h.connection_index) h.dns_resolves
  pub listeners : Listeners h.connection_index h.binds
  pub load_le : load h ≤ n
  pub index_le : h.connection_index ≤ m

-- The operation does not fail an assertion, and keeps the invariant.
abbrev pub Gives : ℕ → ℕ → Option Handler → Type 0
Gives n m o = (h : Handler) × (o ≡ some h) × Bound n m h

pub Bound-notify : {n m : ℕ} {h : Handler} (c : Call) → Bound n m h → Bound n m (notify c h)
Bound-notify c b = record {
  tidy = b.tidy;
  resolves_named = b.resolves_named;
  listeners = b.listeners;
  load_le = b.load_le;
  index_le = b.index_le;
}

pub Bound-mono : {n m n' m' : ℕ} {h : Handler} → n ≤ n' → m ≤ m' → Bound n m h → Bound n' m' h
Bound-mono p q b = record {
  tidy = b.tidy;
  resolves_named = b.resolves_named;
  listeners = b.listeners;
  load_le = omega arith;
  index_le = omega arith;
}

pub Bound-if :
    {n m : ℕ} (b : Bool) {g h : Handler}
    → Bound n m g
    → Bound n m h
    → Bound n m (if b then g else h)
Bound-if true p q = p
Bound-if false p q = q

pub Gives-if :
    {n m : ℕ} (b : Bool) {x y : Option Handler}
    → (b ≡ true → Gives n m x)
    → (b ≡ false → Gives n m y)
    → Gives n m (if b then x else y)
Gives-if true p q = p refl
Gives-if false p q = q refl

pub Bound-request_again : {n m : ℕ} {h : Handler} → Bound n m h → Bound n m (request_again h)
Bound-request_again {h = h} b =
    Bound-if h.events
      (record {
        tidy = b.tidy;
        resolves_named = b.resolves_named;
        listeners = b.listeners;
        load_le = b.load_le;
        index_le = b.index_le;
      })
      b

-- An index that is not the largest is counted up.
pub next_index-suc : (k : ℕ) → k < max_index → next_index k ≡ k + 1
next_index-suc k h = ground arith

pub NamedResolve-mono :
    {index index' : ℕ} (m : Map CResolveOnly)
    → index ≤ index'
    → Each (NamedResolve index) m
    → Each (NamedResolve index') m
NamedResolve-mono {index} m h = Each-mono (NamedResolve index) m (λ k c n. (omega arith, n.1))

pub Listeners-mono :
    {index index' : ℕ} (m : Map CConnListener)
    → index ≤ index'
    → Listeners index m
    → Listeners index' m
Listeners-mono {index} m h (keys, each) =
    (keys, Each-mono (Listens index) m (λ k c (lt, own, on). (omega arith, own, on)) each)

retry_id : (k : ℕ) (c : ConnectionBase) → (retry k c).id ≡ k
unfolding retry
retry_id k c = refl

pub Bound-requeue :
    {n m : ℕ} {h : Handler} (c : ConnectionBase)
    → m < max_index
    → Bound n m h
    → Bound (n + 1) (m + 1) (requeue c h)
unfolding requeue
Bound-requeue {n} {m} {h} c lt b =
    let k = h.connection_index in
    let next = next_index-suc k (omega (arith, b.index_le)) in
    let free = fresh k k h.connecting b.tidy.connecting_named (omega arith) in
    let free' = fresh k k h.connected b.tidy.connected_named (omega arith) in
    let moved = modify-emplace k (retry k) c h.connecting free in
    let t = Tidy-index b.tidy (k + 1) (omega arith) in
    record {
      tidy =
          rw (next, moved)
            (Tidy-emplace_connecting t k (retry k c) (omega arith, retry_id k c) free');
      resolves_named = rw next (NamedResolve-mono h.dns_resolves (omega arith) b.resolves_named);
      listeners = rw next (Listeners-mono h.binds (omega arith) b.listeners);
      load_le = rw moved (omega (arith, length-emplace k (retry k c) h.connecting free, b.load_le));
      index_le = omega (arith, b.index_le);
    }

pub Bound-requeue_or_request :
    {n m : ℕ} {h : Handler} (i : Client) (again : Bool) (c : ConnectionBase)
    → m < max_index
    → Bound n m h
    → Bound (n + (if again then 1 else 0)) (m + 1) (requeue_or_request i again c h)
unfolding requeue_or_request
Bound-requeue_or_request {h = h} i true c lt b =
    Bound-if (answer i h) (Bound-requeue c lt b)
      (Bound-request_again (Bound-mono (omega arith) (omega arith) b))
Bound-requeue_or_request i false c lt b =
    Bound-request_again (Bound-mono (omega arith) (omega arith) b)
