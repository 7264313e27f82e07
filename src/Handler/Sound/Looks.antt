-- ===== src/Handler/Sound/Looks.antt =====
-- Every lookup of the application stands in a phase of its own (src/resolveonly.cpp,
-- src/handler.cpp).
use libbtcnet.Base.{
  ℕ, Bool, true, false, not, ◌&&◌, Option, none, some, ◌≡◌, refl, sym, subst, ◌∙◌, inl, inr,
  Option-cases, arith,
}
use libbtcnet.Map.{lookup, modify, emplace, erase}
use libbtcnet.Map.Laws.{
  Each-modify, Each-emplace, Each-erase, lookup-modify_self, lookup-emplace_self,
}
use libbtcnet.Connection.{CConnection}
use libbtcnet.ResolveOnly.{
  CResolveOnly, ResolveReport, resolving, resolve_failure, resolve_complete, new_resolve, resolve,
  on_resolve_failure, on_resolve_success, retry_resolve,
}
use libbtcnet.Handler.State.{Client, Handler, answer, notify, on_dns_failure}
use libbtcnet.Handler.Ops.{on_resolving, resolve_failed_up, resolve_done}
use libbtcnet.Handler.Loop.{take_index}
use libbtcnet.Handler.Run.{ResolveEvent, resolve_timer, request_ended, run_resolve}
use libbtcnet.Handler.Sound.{
  Looking, Sound, Sounds, Sound-if, Sound-resolves, Sound-same, Sound-request_again,
}

-- When the event may be reported: the timer was set, or the request is under way.
abbrev pub look_raises : ResolveEvent → CResolveOnly → Bool
look_raises resolve_timer r = r.retry_active
look_raises (request_ended answer) r = r.request

abbrev pub LookFit : CResolveOnly → ResolveReport → Type 0
LookFit d resolving = Looking d
LookFit d (resolve_failure b) = (d.connection.base.is_dns ≡ true) × (d.request ≡ false)
LookFit d (resolve_complete l) = Looking d

-- The operation fails no assertion, keeps the id, and ends as its report says.
abbrev pub LookEnds : CResolveOnly → Option (CResolveOnly × ResolveReport) → Type 0
LookEnds c none = ⊥
LookEnds c (some (d, r)) = (d.id ≡ c.id) × LookFit d r

resolve-LookEnds :
    (c : CResolveOnly)
    → c.connection.base.is_dns ≡ true
    → c.request ≡ false
    → c.retry_active ≡ false
    → LookEnds c (resolve c)
unfolding resolve on_resolve_failure
resolve-LookEnds c n r a = ground arith

-- An event that may be reported for a lookup fails no assertion of it.
pub run_resolve-LookEnds :
    (e : ResolveEvent) (c : CResolveOnly)
    → Looking c
    → look_raises e c ≡ true
    → LookEnds c (run_resolve e c)
unfolding run_resolve on_resolve_failure on_resolve_success
run_resolve-LookEnds resolve_timer c l k =
    ground (arith, resolve-LookEnds (record c { retry_active = false }))
run_resolve-LookEnds (request_ended none) c l k = ground arith
run_resolve-LookEnds (request_ended (some a)) c l k = ground arith

LookFit-Looking : (d : CResolveOnly) (r : ResolveReport) → LookFit d r → Looking d
LookFit-Looking d resolving f = f
LookFit-Looking d (resolve_failure b) f = ground arith
LookFit-Looking d (resolve_complete l) f = f

retry_resolve-Looking :
    (d : CResolveOnly)
    → d.connection.base.is_dns ≡ true
    → d.request ≡ false
    → Looking (retry_resolve d)
retry_resolve-Looking d n r = ground arith

resolve_failed_up-Sounds :
    {h : Handler} (i : Client) (id : ℕ) (d : CResolveOnly) (conn : CConnection) (again : Bool)
    → lookup id h.dns_resolves ≡ some d
    → d.connection.base.is_dns ≡ true
    → d.request ≡ false
    → Sound h
    → Sounds (resolve_failed_up i id conn again h)
unfolding resolve_failed_up
resolve_failed_up-Sounds {h} i id d conn again e n r s =
    let told = notify (on_dns_failure conn (again && not h.shutdown)) h in
    let same : Sound told = Sound-same refl refl refl refl s in
    let kept : (v : CResolveOnly) → lookup id h.dns_resolves ≡ some v → Looking (retry_resolve v) =
      λ v l.
        subst (λ x. Looking (retry_resolve x)) {x = d} {y = v} (cc (l, e))
          (retry_resolve-Looking d n r) in
    rw (e, resolve_failed_up)
      (Sound-request_again (
        Sound-if _
          (Sound-resolves (modify id retry_resolve h.dns_resolves)
            (Each-modify (λ k. Looking) id retry_resolve h.dns_resolves (λ v l _. kept v l)
              s.looking)
            same)
          (Sound-resolves (erase id h.dns_resolves)
            (Each-erase (λ k. Looking) id h.dns_resolves s.looking) same)))

stored-Sounds :
    (h : Handler) (i : Client) (c : CResolveOnly) (r : ResolveReport)
    → lookup c.id h.dns_resolves ≡ some c
    → LookFit c r
    → Sound h
    → Sounds (elim r [
      | resolving ↦ some h
      | resolve_failure b ↦ resolve_failed_up i c.id c.connection b h
      | resolve_complete l ↦ some (resolve_done c.id c.connection l h)
    ])
unfolding resolve_done
stored-Sounds h i c resolving e f s = s
stored-Sounds h i c (resolve_failure b) e f s =
    resolve_failed_up-Sounds i c.id c c.connection b e f.0 f.1 s
stored-Sounds h i c (resolve_complete l) e f s =
    Sound-resolves (erase c.id h.dns_resolves)
      (Each-erase (λ k. Looking) c.id h.dns_resolves s.looking) (Sound-same refl refl refl refl s)

pub on_resolving-Sounds :
    {h : Handler} (i : Client) (id : ℕ) (op : CResolveOnly → Option (CResolveOnly × ResolveReport))
    (c : CResolveOnly)
    → lookup id h.dns_resolves ≡ some c
    → c.id ≡ id
    → LookEnds c (op c)
    → Sound h
    → Sounds (on_resolving i id op h)
unfolding on_resolving
on_resolving-Sounds {h} i id op c e own ends s = elim (Option-cases (op c)) [
  | inl n ↦ absurd (subst (LookEnds c) n ends)
  | inr ((d, r), n) ↦
      let (same, fit) = subst (LookEnds c) n ends in
      let stored = lookup-modify_self id (λ _. d) c h.dns_resolves e in
      rw (e, on_resolving, n)
        (stored-Sounds (record h { dns_resolves = modify id (λ _. d) h.dns_resolves }) i d r
          (subst (λ k. lookup k (modify id (λ _. d) h.dns_resolves) ≡ some d) (sym (same ∙ own))
            stored)
          fit
          (Sound-resolves (modify id (λ _. d) h.dns_resolves)
            (Each-modify (λ k. Looking) id (λ _. d) h.dns_resolves
              (λ v _ _. LookFit-Looking d r fit) s.looking)
            s))
]

new_resolve-LookEnds :
    (c : CConnection) (id : ℕ)
    → c.base.is_dns ≡ true
    → LookEnds (new_resolve c id) (resolve (new_resolve c id))
unfolding new_resolve
new_resolve-LookEnds c id n = resolve-LookEnds _ n refl refl

-- A new lookup under an id that was not in use.
pub new_lookup-Sounds :
    {h : Handler} (i : Client) (c : CConnection)
    → c.base.is_dns ≡ true
    → lookup h.connection_index h.dns_resolves ≡ none
    → Sound h
    → Sounds (
        on_resolving i h.connection_index resolve (record (take_index h) {
          dns_resolves =
              emplace h.connection_index (new_resolve c h.connection_index) h.dns_resolves;
        }))
unfolding new_resolve
new_lookup-Sounds {h} i c n free s =
    let k = h.connection_index in
    let v = new_resolve c k in
    on_resolving-Sounds i k resolve v (lookup-emplace_self k v h.dns_resolves free) refl
      (new_resolve-LookEnds c k n)
      (Sound-resolves (emplace k v h.dns_resolves)
        (Each-emplace (λ j. Looking) k v h.dns_resolves (n, refl) s.looking)
        (Sound-same {g = take_index h} refl refl refl refl s))
