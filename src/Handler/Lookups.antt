-- ===== src/Handler/Lookups.antt =====
-- A lookup of the application that keeps failing (src/resolveonly.cpp, src/handler.cpp).
use libbtcnet.Base.{
  ℕ, zero, suc, Bool, true, false, not, ◌&&◌, Option, none, some, ◌≡◌, refl, sym, ap, subst, ◌∙◌,
  ◌⊎◌, inl, inr, Bool-cases, if◌then◌else◌,
}
use libbtcnet.Base.Int.{pos}
use libbtcnet.Map.{Map, lookup, modify, erase, Ascending}
use libbtcnet.Map.Laws.{Ascending-erase, Ascending-modify, lookup-erase_self, lookup-modify_self}
use libbtcnet.Connection.{CConnection}
use libbtcnet.Transport.{lookup_allowed}
use libbtcnet.Object.{take_retry}
use libbtcnet.ResolveOnly.{CResolveOnly, resolving, retry_resolve, resolve, on_resolve_failure}
use libbtcnet.Handler.State.{Client, Handler, notify, answer, request_again, on_dns_failure}
use libbtcnet.Handler.Ops.{resolve_failed_up, on_resolving}
use libbtcnet.Handler.Run.{resolve_timer, request_ended, run_resolve}

-- The lookup stands under its own id and may go on, with so many retries left.
pub record Waits (id n : ℕ) (h : Handler) : Type 0 where
  pub item : CResolveOnly
  pub here : lookup id h.dns_resolves ≡ some item
  pub own : item.id ≡ id
  pub left : item.retries ≡ pos n
  pub named : item.connection.base.is_dns ≡ true
  pub allowed : lookup_allowed item.connection ≡ true
  pub ascending : Ascending 0 h.dns_resolves

abbrev pub Gone : ℕ → Handler → Type 0
Gone id h = lookup id h.dns_resolves ≡ none

-- The evdns request fails; if the lookup is still there, its event runs, which asks again.
abbrev pub fail_once : Client → ℕ → Handler → Option Handler
fail_once i id h = elim (on_resolving i id (run_resolve (request_ended none)) h) [
  | none ↦ none
  | some g ↦ elim (lookup id g.dns_resolves) [
    | none ↦ some g
    | some _ ↦ on_resolving i id (run_resolve resolve_timer) g
  ]
]

-- So often, or until the lookup is gone.
pub fail_times : ℕ → Client → ℕ → Handler → Option Handler
fail_times zero i id h = some h
fail_times (suc k) i id h = elim (lookup id h.dns_resolves) [
  | none ↦ some h
  | some _ ↦ elim (fail_once i id h) [ none ↦ none | some g ↦ fail_times k i id g ]
]

again_same : (h : Handler) → (request_again h).dns_resolves ≡ h.dns_resolves
again_same h = elim (Bool-cases h.events) [ inl e ↦ rw e refl | inr e ↦ rw e refl ]

-- A failure leaves the lookup out, or with its event due; the latter only if it asked for a retry.
abbrev pub Fate : ℕ → CResolveOnly → Bool → Map CResolveOnly → Type 0
Fate id c again m =
    Ascending 0 m
    × ((lookup id m ≡ none) ⊎ ((again ≡ true) × (lookup id m ≡ some (retry_resolve c))))

Fate-if :
    (id : ℕ) (c : CResolveOnly) (again : Bool) (b : Bool) (g h : Handler)
    → (b ≡ true → Fate id c again g.dns_resolves)
    → Fate id c again h.dns_resolves
    → Fate id c again (request_again (if b then g else h)).dns_resolves
Fate-if id c again true g h p q = rw (again_same g) (p refl)
Fate-if id c again false g h p q = rw (again_same h) q

asked_again : (x y z : Bool) → ((x && y) && z) ≡ true → x ≡ true
asked_again true y z h = refl
asked_again false y z h = h

resolve_failed_up-Fate :
    (i : Client) (id : ℕ) (conn : CConnection) (c : CResolveOnly) (again : Bool) (h : Handler)
    → lookup id h.dns_resolves ≡ some c
    → Ascending 0 h.dns_resolves
    → (g : Handler) × (resolve_failed_up i id conn again h ≡ some g)
      × Fate id c again g.dns_resolves
unfolding resolve_failed_up
resolve_failed_up-Fate i id conn c again h e a =
    let told = notify (on_dns_failure conn (again && not h.shutdown)) h in
    rw (e, resolve_failed_up)
      (
        _,
        refl,
        Fate-if id c again ((again && not h.shutdown) && answer i told)
            (record told { dns_resolves = modify id retry_resolve told.dns_resolves })
            (record told { dns_resolves = erase id told.dns_resolves })
            (λ y. (
              Ascending-modify 0 id retry_resolve h.dns_resolves a,
              inr (
                asked_again again (not h.shutdown) (answer i told) y,
                lookup-modify_self id retry_resolve c h.dns_resolves e,
              ),
            ))
            (Ascending-erase 0 id h.dns_resolves a, inl (lookup-erase_self 0 id h.dns_resolves a)),
      )

-- The end of a request that failed.
failed-Fate :
    (i : Client) (id : ℕ) (c : CResolveOnly) (h : Handler)
    → c.id ≡ id
    → lookup id h.dns_resolves ≡ some c
    → Ascending 0 h.dns_resolves
    → (g : Handler) × (on_resolving i id (run_resolve (request_ended none)) h ≡ some g)
      × Fate id (on_resolve_failure c).0 (take_retry c.retries).1 g.dns_resolves
unfolding on_resolving run_resolve on_resolve_failure
failed-Fate i id c h own e a =
    let d = (on_resolve_failure c).0 in
    let g = record h { dns_resolves = modify id (λ _. d) h.dns_resolves } in
    let again = (take_retry c.retries).1 in
    let (f, done, fate) =
      resolve_failed_up-Fate i id c.connection d again g
        (lookup-modify_self id (λ _. d) c h.dns_resolves e)
        (Ascending-modify 0 id (λ _. d) h.dns_resolves a) in
    let up : on_resolving i id (run_resolve (request_ended none)) h
        ≡ resolve_failed_up i c.id c.connection again g =
      rw (e, on_resolving) refl in
    (f, up ∙ ap (λ k. resolve_failed_up i k c.connection again g) own ∙ done, fate)

-- The event of a lookup that waits to ask again.
asked :
    (i : Client) (id : ℕ) (c : CResolveOnly) (h : Handler)
    → lookup id h.dns_resolves ≡ some c
    → c.request ≡ false
    → c.connection.base.is_dns ≡ true
    → lookup_allowed c.connection ≡ true
    → on_resolving i id (run_resolve resolve_timer) h
      ≡ some (record h {
        dns_resolves =
            modify id (λ _. record c { request = true; retry_active = false }) h.dns_resolves;
      })
unfolding on_resolving run_resolve resolve
asked i id c h e free named allowed =
    let woken = record c { retry_active = false } in
    let asks : resolve woken ≡ some (record woken { request = true }, resolving) =
      simp (free, named, allowed) refl in
    rw (e, on_resolving, asks) refl

-- The lookup is gone, or it waits again with a retry less.
abbrev pub Less : ℕ → ℕ → Handler → Type 0
Less id zero g = Gone id g
Less id (suc n) g = Gone id g ⊎ Waits id n g

Less-Gone : (id n : ℕ) (g : Handler) → Gone id g → Less id n g
Less-Gone id zero g e = e
Less-Gone id (suc n) g e = inl e

one_less :
    (n : ℕ)
    → (take_retry (pos n)).1 ≡ true
    → (k : ℕ) × (n ≡ suc k) × ((take_retry (pos n)).0 ≡ pos k)
unfolding take_retry
one_less zero h = cc h
one_less (suc n) h = (n, refl, refl)

fail_once-Less :
    (i : Client) (id n : ℕ) (h : Handler)
    → Waits id n h
    → (g : Handler) × (fail_once i id h ≡ some g) × Less id n g
unfolding on_resolve_failure
fail_once-Less i id n h w =
    let c = w.item in
    let (g, done, (a, fate)) = failed-Fate i id c h w.own w.here w.ascending in
    elim fate [
      | inl gone ↦ rw (fail_once, done, gone) (g, refl, Less-Gone id n g gone)
      | inr (again, there) ↦
          let d = retry_resolve (on_resolve_failure c).0 in
          let (k, less, left) = one_less n (rw w.left at again) in
          let busy = record d { request = true; retry_active = false } in
          let f : Handler = record g { dns_resolves = modify id (λ _. busy) g.dns_resolves } in
          let next = asked i id d g there refl w.named w.allowed in
          rw (fail_once, done, there, next)
            (
              f,
              refl,
              subst (λ m. Less id m f) (sym less)
                  (inr (record {
                    item = busy;
                    here = lookup-modify_self id (λ _. busy) d g.dns_resolves there;
                    own = w.own;
                    left = rw w.left left;
                    named = w.named;
                    allowed = w.allowed;
                    ascending = Ascending-modify 0 id (λ _. busy) g.dns_resolves a;
                  })),
            )
    ]

fail_times-Gone_self :
    (k : ℕ) (i : Client) (id : ℕ) (h : Handler) → Gone id h → fail_times k i id h ≡ some h
unfolding fail_times
fail_times-Gone_self zero i id h e = refl
fail_times-Gone_self (suc k) i id h e = rw (e, fail_times) refl

-- A lookup of a name that stands under its own id, that its options allow, and that has n retries, a
-- number that is not negative; the keys of the lookups ascend. If all its requests fail, then
-- whatever the application answers, no assertion fails, and after n + 1 failures at most the lookup
-- is gone.
pub fail_times-Gone :
    (i : Client) (id n : ℕ) (h : Handler)
    → Waits id n h
    → (g : Handler) × (fail_times (suc n) i id h ≡ some g) × Gone id g
unfolding fail_times
fail_times-Gone i id zero h w =
    let (g, done, gone) = fail_once-Less i id zero h w in
    rw (w.here, fail_times, done) (g, refl, gone)
fail_times-Gone i id (suc n) h w =
    let (g, done, less) = fail_once-Less i id (suc n) h w in
    elim less [
      | inl gone ↦ rw (w.here, fail_times, done) (g, fail_times-Gone_self (suc n) i id g gone, gone)
      | inr again ↦ rw (w.here, fail_times, done) (fail_times-Gone i id n g again)
    ]
