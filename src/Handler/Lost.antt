-- ===== src/Handler/Lost.antt =====
-- `OnDisconnected` (src/handler.cpp) in full.
use libbtcnet.Base.{
  ℕ, ◌+◌, ◌<◌, Bool, true, not, ◌&&◌, List, ◌∷◌, [], ◌++◌, none, some, ◌≡◌, ◌≢◌, refl, ap, subst,
  ◌∙◌, if◌then◌else◌, arith,
}
use libbtcnet.Base.Int.{pos, ◌-ℤ◌}
use libbtcnet.Map.{Map, lookup, erase, emplace, modify}
use libbtcnet.Map.Laws.{lookup-erase_self, lookup-erase_ne, modify-emplace}
use libbtcnet.Object.{ConnectionBase, is_outgoing, retry}
use libbtcnet.Handler.State.{Call, Client, Handler, notify, answer, on_disconnected, max_index}
use libbtcnet.Handler.Ops.{disconnected, uncount, requeue_or_request, requeue}
use libbtcnet.Handler.Tidy.{fresh}
use libbtcnet.Handler.Bound.{Bound}
use libbtcnet.Handler.Reports.{disconnected-Gives}

-- Behind a connection that is lost: it is gone, every other one stands as it did, it alone is counted
-- down, the application was told once, and if it is to be retried and the application agrees, it
-- waits among the connecting ones under the id that was next.
pub record Lost (i : Client) (id : ℕ) (c : ConnectionBase) (again : Bool) (h g : Handler)
    : Type 0 where
  pub gone : lookup id g.connected ≡ none
  pub others : (k : ℕ) → id ≢ k → lookup k g.connected ≡ lookup k h.connected
  pub outgoing :
      g.outgoing_conn_count
      ≡ (if is_outgoing c then h.outgoing_conn_count -ℤ pos 1 else h.outgoing_conn_count)
  pub incoming :
      g.incoming_conn_count
      ≡ (if is_outgoing c then h.incoming_conn_count else h.incoming_conn_count -ℤ pos 1)
  pub told : g.calls ≡ h.calls ++ on_disconnected id again ∷ []
  pub queued : g.connecting ≡ (
      if again && i.answer (h.calls ++ on_disconnected id again ∷ [])
      then emplace h.connection_index (retry h.connection_index c) h.connecting
      else h.connecting)

-- The object without its connection.
abbrev dropped : ℕ → ConnectionBase → Bool → Handler → Handler
dropped id c r h =
    notify (on_disconnected id r) (uncount c (record h { connected = erase id h.connected }))

module _ (id : ℕ) (c : ConnectionBase) (h : Handler) where
  uncount_fields :
      let g = uncount c (record h { connected = erase id h.connected }) in
      (g.connected ≡ erase id h.connected)
      × (g.calls ≡ h.calls)
      × (g.connecting ≡ h.connecting)
      × (g.connection_index ≡ h.connection_index)
      × (g.outgoing_conn_count
          ≡ (if is_outgoing c then h.outgoing_conn_count -ℤ pos 1 else h.outgoing_conn_count))
      × (g.incoming_conn_count
          ≡ (if is_outgoing c then h.incoming_conn_count else h.incoming_conn_count -ℤ pos 1))
  uncount_fields = ground arith

requeue_fields :
    (i : Client) (r : Bool) (c : ConnectionBase) (h : Handler)
    → let g = requeue_or_request i r c h in
      (g.connected ≡ h.connected)
      × (g.calls ≡ h.calls)
      × (g.outgoing_conn_count ≡ h.outgoing_conn_count)
      × (g.incoming_conn_count ≡ h.incoming_conn_count)
      × (g.connecting ≡ (
          if r && answer i h
          then modify h.connection_index
              (retry h.connection_index)
              (emplace h.connection_index c h.connecting)
          else h.connecting))
unfolding requeue_or_request requeue
requeue_fields i r c h = ground arith

queue_same :
    (i : Client) (r : Bool) (c : ConnectionBase) (l l' : List Call) (k k' : ℕ)
    (m m' : Map ConnectionBase)
    → l ≡ l'
    → k ≡ k'
    → m ≡ m'
    → lookup k' m' ≡ none
    → (if r && i.answer l then modify k (retry k) (emplace k c m) else m)
      ≡ (if r && i.answer l' then emplace k' (retry k' c) m' else m')
queue_same i r c l l' k k' m m' p q s free =
    rw (p, q, s)
      (ap (λ z. if r && i.answer l' then z else m') (modify-emplace k' (retry k') c m' free))

disconnected_found :
    (i : Client) (id : ℕ) (c : ConnectionBase) (again : Bool) (h : Handler)
    → lookup id h.connected ≡ some c
    → disconnected i id again h
      ≡ some (
          requeue_or_request i
            (again && not h.shutdown)
            c
            (dropped id c (again && not h.shutdown) h))
unfolding disconnected
disconnected_found i id c again h e = rw (e, disconnected) refl

-- A connection that stands is lost, and may ask to be taken up again only if it is outgoing. With
-- an id left, no assertion fails, and the invariant is kept with the load, of which a retry is a part,
-- within its bound. The connection is gone and every other one stands as it did; the counter of its
-- direction alone goes down by one; the application is told once, with whether it may be retried,
-- which a shutdown excludes; and if the application agrees to a retry, the connection waits among
-- the connecting ones under the id that was next.
pub disconnected-Lost :
    {n m : ℕ} {h : Handler} (i : Client) (id : ℕ) (c : ConnectionBase) (again : Bool)
    → (again ≡ true → is_outgoing c ≡ true)
    → m < max_index
    → lookup id h.connected ≡ some c
    → Bound n m h
    → (g : Handler) × (disconnected i id again h ≡ some g)
      × Bound n (m + 1) g
      × Lost i id c (again && not h.shutdown) h g
disconnected-Lost {n} {m} {h} i id c again only lt e b =
    let r = again && not h.shutdown in
    let x = dropped id c r h in
    let g = requeue_or_request i r c x in
    let (f, done, kept) = disconnected-Gives i id c again only lt e b in
    let found : disconnected i id again h ≡ some g = disconnected_found i id c again h e in
    let same : f ≡ g = cc in
    let (stand, calls, way, index, out, in_) = uncount_fields id c h in
    let (stand', calls', out', in', queue) = requeue_fields i r c x in
    let k = h.connection_index in
    (
      g,
      found,
      subst (Bound n (m + 1)) same kept,
      record {
        gone = rw (stand', stand) (lookup-erase_self 0 id h.connected b.tidy.connected_keys);
        others = λ j ne. rw (stand', stand) (lookup-erase_ne id j h.connected ne);
        outgoing = out' ∙ out;
        incoming = in' ∙ in_;
        told = calls' ∙ ap (λ l. l ++ on_disconnected id r ∷ []) calls;
        queued =
            queue
            ∙ queue_same i r c x.calls (h.calls ++ on_disconnected id r ∷ []) x.connection_index k
                x.connecting h.connecting (ap (λ l. l ++ on_disconnected id r ∷ []) calls) index way
                (fresh k k h.connecting b.tidy.connecting_named (omega arith));
      },
    )
