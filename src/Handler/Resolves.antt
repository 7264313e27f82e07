-- ===== src/Handler/Resolves.antt =====
-- The lookups of the application (src/resolveonly.cpp) inside the handler (src/handler.cpp).
use libbtcnet.Base.{ℕ, Bool, Option, some, ◌≡◌, refl, sym, subst, ◌∙◌}
use libbtcnet.Map.{Map, lookup, modify, erase, Each}
use libbtcnet.Map.Laws.{Each-lookup, Each-erase, Each-modify, lookup-modify_self}
use libbtcnet.Connection.{CConnection}
use libbtcnet.ResolveOnly.{
  CResolveOnly, ResolveReport, resolving, resolve_failure, resolve_complete, retry_resolve,
}
use libbtcnet.Handler.State.{Client, Handler}
use libbtcnet.Handler.Ops.{resolve_done, resolve_failed_up, on_resolving}
use libbtcnet.Handler.Bound.{
  Bound, Gives, NamedResolve, Bound-notify, Bound-if, Bound-request_again,
}

-- Only the lookups change.
Bound-resolves :
    {n m : ℕ} {h : Handler} (d : Map CResolveOnly)
    → Each (NamedResolve h.connection_index) d
    → Bound n m h
    → Bound n m (record h { dns_resolves = d })
Bound-resolves d e b = record {
  tidy = b.tidy;
  resolves_named = e;
  listeners = b.listeners;
  load_le = b.load_le;
  index_le = b.index_le;
}

pub Bound-erase_resolve :
    {n m : ℕ} {h : Handler} (id : ℕ)
    → Bound n m h
    → Bound n m (record h { dns_resolves = erase id h.dns_resolves })
Bound-erase_resolve {h = h} id b =
    Bound-resolves _
      (Each-erase (NamedResolve h.connection_index) id h.dns_resolves b.resolves_named) b

pub Bound-modify_resolve :
    {n m : ℕ} {h : Handler} (id : ℕ) (f : CResolveOnly → CResolveOnly)
    → ((r : CResolveOnly) → r.id ≡ id → (f r).id ≡ id)
    → Bound n m h
    → Bound n m (record h { dns_resolves = modify id f h.dns_resolves })
Bound-modify_resolve {h = h} id f same b =
    Bound-resolves _
      (Each-modify (NamedResolve h.connection_index) id f h.dns_resolves
        (λ v _ n. (n.0, same v n.1)) b.resolves_named)
      b

pub resolve_failed_up-Gives :
    {n m : ℕ} {h : Handler} (i : Client) (id : ℕ) (c : CResolveOnly) (conn : CConnection)
    (again : Bool)
    → lookup id h.dns_resolves ≡ some c
    → Bound n m h
    → Gives n m (resolve_failed_up i id conn again h)
unfolding resolve_failed_up
resolve_failed_up-Gives i id c conn again e b =
    let told = Bound-notify _ b in
    rw (e, resolve_failed_up)
      (
        _,
        refl,
        Bound-request_again (
            Bound-if _ (Bound-modify_resolve id retry_resolve (λ r e. e) told)
              (Bound-erase_resolve id told)),
      )

stored-Gives :
    {n m : ℕ} (h : Handler) (i : Client) (c : CResolveOnly) (r : ResolveReport)
    → lookup c.id h.dns_resolves ≡ some c
    → Bound n m h
    → Gives n m (elim r [
      | resolving ↦ some h
      | resolve_failure b ↦ resolve_failed_up i c.id c.connection b h
      | resolve_complete l ↦ some (resolve_done c.id c.connection l h)
    ])
unfolding resolve_done
stored-Gives h i c resolving e b = (h, refl, b)
stored-Gives h i c (resolve_failure again) e b =
    resolve_failed_up-Gives i c.id c c.connection again e b
stored-Gives h i c (resolve_complete l) e b = (_, refl, Bound-notify _ (Bound-erase_resolve c.id b))

-- A step of a lookup that keeps its id never fails an assertion of the handler, and keeps its
-- invariant.
pub on_resolving-Gives :
    {n m : ℕ} {h : Handler} (i : Client) (id : ℕ)
    (op : CResolveOnly → Option (CResolveOnly × ResolveReport)) (c d : CResolveOnly)
    (r : ResolveReport)
    → lookup id h.dns_resolves ≡ some c
    → op c ≡ some (d, r)
    → d.id ≡ c.id
    → Bound n m h
    → Gives n m (on_resolving i id op h)
unfolding on_resolving
on_resolving-Gives {n} {m} {h} i id op c d r e o same b =
    let own : c.id ≡ id =
      (Each-lookup (NamedResolve h.connection_index) id h.dns_resolves b.resolves_named e).1 in
    let stored = lookup-modify_self id (λ _. d) c h.dns_resolves e in
    let (g, done, b') =
      stored-Gives (record h { dns_resolves = modify id (λ _. d) h.dns_resolves }) i d r
        (subst (λ k. lookup k (modify id (λ _. d) h.dns_resolves) ≡ some d) (sym (same ∙ own))
          stored)
        (Bound-modify_resolve id (λ _. d) (λ _ _. same ∙ own) b) in
    (g, rw (e, on_resolving, o) done, b')
