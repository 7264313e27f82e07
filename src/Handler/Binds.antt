-- ===== src/Handler/Binds.antt =====
-- Binding an address, and the listeners of the handler (src/handler.cpp, src/listener.cpp).
use libbtcnet.Base.{
  ℕ, ◌+◌, ◌<◌, Bool, true, false, List, ◌∷◌, [], ◌++◌, Option, none, some, ◌≡◌, refl, ap, subst,
  if◌then◌else◌, inl, inr, Bool-cases, ◌==◌, ==_iff, arith,
}
use libbtcnet.Map.{Map, lookup, erase, emplace, Ascending}
use libbtcnet.Map.Laws.{
  Ascending-emplace, Ascending-erase, Each-emplace, Each-erase, Each-mono, Each-lookup,
  lookup_fresh, lookup-erase_self, lookup-erase_ne, lookup-emplace_self, erase-modify,
}
use libbtcnet.Connection.{CConnection}
use libbtcnet.Listener.{
  CConnListener, new_listener, bind_listener, enable_listener, unbind_listener,
}
use libbtcnet.Handler.State.{Call, Handler, max_index, on_bind_failure, next_index}
use libbtcnet.Handler.Ops.{listen_failed}
use libbtcnet.Handler.Loop.{take_index, bind, on_listen_error}
use libbtcnet.Handler.Bound.{Bound, Listens, Listeners, Listeners-mono, next_index-suc}
use libbtcnet.Handler.Starts.{took_index}

-- The listeners and the calls do not matter to the rest of the invariant.
Bound-binds :
    {n m : ℕ} {h : Handler} (d : Map CConnListener) (calls : List Call)
    → Listeners h.connection_index d
    → Bound n m h
    → Bound n m (record h { binds = d; calls = calls })
Bound-binds d calls e b = record {
  tidy = b.tidy;
  resolves_named = b.resolves_named;
  listeners = e;
  load_le = b.load_le;
  index_le = b.index_le;
}

free_listener : {n m : ℕ} {h : Handler} → Bound n m h → lookup h.connection_index h.binds ≡ none
free_listener {h = h} b =
    let k = h.connection_index in
    lookup_fresh k k h.binds (Each-mono (Listens k) h.binds (λ j c n. n.0) b.listeners.1)
      (omega arith)

lookup-erase_fresh :
    (id k : ℕ) (m : Map CConnListener)
    → Ascending 0 m
    → lookup id m ≡ none
    → lookup k (erase id m) ≡ lookup k m
lookup-erase_fresh id k m a e = elim (Bool-cases (id == k)) [
  | inl x ↦ let same = (==_iff id k).0 x in rw (← same, e) (lookup-erase_self 0 id m a)
  | inr x ↦ lookup-erase_ne id k m (λ y. ground arith)
]

-- What a call of `Bind` comes to, for one that succeeds and for one that fails.
abbrev pub BindOutcome : Bool → CConnection → Handler → Handler → Type 0
BindOutcome true c h g =
    (l : CConnListener) × (lookup h.connection_index g.binds ≡ some l)
    × (l.listening ≡ true)
    × (l.connection ≡ c)
    × (g.calls ≡ h.calls)
BindOutcome false c h g =
    ((k : ℕ) → lookup k g.binds ≡ lookup k h.binds) × (g.calls ≡ h.calls ++ on_bind_failure c ∷ [])

-- What `Bind` makes of a handler with an event base, and its answer.
abbrev pub bind_result : Bool → CConnection → Handler → Handler × Bool
bind_result true c h =
    let k = h.connection_index in
    let l : CConnListener = record { id = k; connection = c; listening = true; enabled = true } in
    (record (take_index h) { binds = emplace k l h.binds }, true)
bind_result false c h = (
  record (take_index h) {
    binds = erase h.connection_index h.binds;
    calls = h.calls ++ on_bind_failure c ∷ [];
  },
  false,
)

bind_at : Bool → Bool → Bool → CConnection → Handler → Option (Handler × Bool)
unfolding new_listener bind_listener enable_listener
bind_at base bound done c h = elim (bind_listener base bound (new_listener h.connection_index c)) [
  | none ↦ none
  | some (l, ret) ↦
      if ret
      then elim (enable_listener done l) [
        | none ↦ none
        | some (k, _) ↦
            some (record (take_index h) { binds = emplace h.connection_index k h.binds }, true)
      ]
      else some (listen_failed h.connection_index c (take_index h), false)
]

bind-cases_at {ℓ} :
    (P : Option (Handler × Bool) → Type ℓ) (base b d : Bool) (c : CConnection) (h : Handler)
    → (base ≡ false → P none)
    → (base ≡ true → P (some (bind_result b c h)))
    → P (bind_at base b d c h)
unfolding bind_at new_listener bind_listener enable_listener
bind-cases_at P true true d c h off on = on refl
bind-cases_at P true false d c h off on = on refl
bind-cases_at P false b d c h off on = off refl

-- `Bind` fails its assertion without an event base.
pub bind-cases {ℓ} :
    (P : Option (Handler × Bool) → Type ℓ) (b d : Bool) (c : CConnection) (h : Handler)
    → (h.running ≡ false → P none)
    → (h.running ≡ true → P (some (bind_result b c h)))
    → P (bind b d c h)
unfolding bind bind_at
bind-cases P b d c h off on = bind-cases_at P h.running b d c h off on

bind_result-Outcome :
    {n m : ℕ} {h : Handler} (bound : Bool) (c : CConnection)
    → m < max_index
    → Bound n m h
    → (bind_result bound c h).1 ≡ bound
      × BindOutcome bound c h (bind_result bound c h).0
      × Bound n (m + 1) (bind_result bound c h).0
bind_result-Outcome {n} {m} {h} true c lt b =
    let k = h.connection_index in
    let l : CConnListener = record { id = k; connection = c; listening = true; enabled = true } in
    let next = next_index-suc k (omega (arith, b.index_le)) in
    let (keys, each) = Listeners-mono {index' = k + 1} h.binds (omega arith) b.listeners in
    (
      refl,
      (l, lookup-emplace_self k l h.binds (free_listener b), refl, refl, refl),
      Bound-binds (emplace k l h.binds) h.calls
          (rw next (
            Ascending-emplace 0 k l h.binds (omega arith) keys,
            Each-emplace (Listens (k + 1)) k l h.binds (omega arith, refl, refl) each,
          ))
          (took_index lt b),
    )
bind_result-Outcome {n} {m} {h} false c lt b =
    let k = h.connection_index in
    let took = took_index lt b in
    let (keys, each) = took.listeners in
    (
      refl,
      ((λ j. lookup-erase_fresh k j h.binds b.listeners.0 (free_listener b)), refl),
      Bound-binds (erase k h.binds) (h.calls ++ on_bind_failure c ∷ [])
          (Ascending-erase 0 k h.binds keys, Each-erase (Listens (next_index k)) k h.binds each)
          took,
    )

-- From a handler that is started, satisfies its invariant and has an id left, `Bind` fails no
-- assertion and answers whether libevent could bind the address. If it could, a listener for the
-- connection stands under the id that was next, and the application is not called; if not, the
-- application is told of the failure once, and the listeners are as before. The invariant is kept.
pub bind-Answers :
    {n m : ℕ} {h : Handler} (bound done : Bool) (c : CConnection)
    → h.running ≡ true
    → m < max_index
    → Bound n m h
    → (g : Handler) × (bind bound done c h ≡ some (g, bound))
      × BindOutcome bound c h g
      × Bound n (m + 1) g
bind-Answers {n} {m} {h} bound done c on lt b =
    let (said, outcome, kept) = bind_result-Outcome bound c lt b in
    (
      (bind_result bound c h).0,
      bind-cases (λ o. o ≡ some ((bind_result bound c h).0, bound)) bound done c h (λ off. cc)
          (λ x. ap (λ s. some ((bind_result bound c h).0, s)) said),
      outcome,
      kept,
    )

-- A call of `Bind` that came back kept the invariant.
pub bind-Bound :
    {n m : ℕ} {h g : Handler} (bound done said : Bool) (c : CConnection)
    → m < max_index
    → bind bound done c h ≡ some (g, said)
    → Bound n m h
    → Bound n (m + 1) g
bind-Bound {n} {m} {h} {g} bound done said c lt e b =
    bind-cases (λ o. o ≡ some (g, said) → Bound n (m + 1) g) bound done c h (λ off x. cc x)
      (λ on x. subst (Bound n (m + 1)) (cc x) (bind_result-Outcome bound c lt b).2) e

-- A listener that fails is gone, and the application is told once.
pub on_listen_error-Bound :
    {n m : ℕ} {h : Handler} (id : ℕ) (l : CConnListener)
    → lookup id h.binds ≡ some l
    → Bound n m h
    → (g : Handler) × (on_listen_error id h ≡ some g)
      × (lookup id g.binds ≡ none)
      × (g.calls ≡ h.calls ++ on_bind_failure l.connection ∷ [])
      × Bound n m g
unfolding on_listen_error
on_listen_error-Bound {h = h} id l e b =
    let (keys, each) = b.listeners in
    let own = (Each-lookup (Listens h.connection_index) id h.binds each e).1 in
    rw (e, on_listen_error, own, erase-modify id unbind_listener h.binds)
      (
        _,
        refl,
        lookup-erase_self 0 id h.binds keys,
        refl,
        Bound-binds (erase id h.binds) (h.calls ++ on_bind_failure l.connection ∷ [])
            (
              Ascending-erase 0 id h.binds keys,
              Each-erase (Listens h.connection_index) id h.binds each,
            )
            b,
      )
