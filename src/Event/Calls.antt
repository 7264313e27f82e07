-- ===== src/Event/Calls.antt =====
-- How a `CEvent` uses libevent (src/event.cpp).
use libbtcnet.Base.{
  ℕ, Bool, true, false, List, [], ◌∷◌, ◌++◌, Option, none, some, ◌≡◌, refl, ap, subst, ◌∙◌, inl,
  inr, Option-cases, if◌then◌else◌, ◌==◌, is_some, arith,
}
use libbtcnet.Event.{
  EventCall, event_new, event_free, event_del, event_active, event_add, event_priority_set, CEvent,
  EventOp, op_reset, op_free, op_del, op_active, op_add, op_priority_set, if_held, run_op, run_ops,
  no_event, free, callback,
}

-- The contract of libevent, as a reading of the calls: an event that is made is not there yet, and any
-- other call names one that was made and not freed. The list has the events that are there, and
-- `none` is a misuse.
abbrev pub is_there : ℕ → List ℕ → Bool
is_there p [] = false
is_there p (q ∷ qs) = if q == p then true else is_there p qs

abbrev pub without : ℕ → List ℕ → List ℕ
without p [] = []
without p (q ∷ qs) = if q == p then qs else q ∷ without p qs

abbrev pub allow : EventCall → List ℕ → Option (List ℕ)
allow (event_new p) l = if is_there p l then none else some (p ∷ l)
allow (event_free p) l = if is_there p l then some (without p l) else none
allow (event_del p) l = if is_there p l then some l else none
allow (event_active p) l = if is_there p l then some l else none
allow (event_add p tv) l = if is_there p l then some l else none
allow (event_priority_set p n) l = if is_there p l then some l else none

pub allow_all : List EventCall → List ℕ → Option (List ℕ)
allow_all [] l = some l
allow_all (c ∷ cs) l = elim (allow c l) [ none ↦ none | some m ↦ allow_all cs m ]

-- What a handle keeps there.
abbrev pub kept : Option ℕ → List ℕ
kept none = []
kept (some p) = p ∷ []

allow_all-append :
    (cs ds : List EventCall) (l m : List ℕ)
    → allow_all cs l ≡ some m
    → allow_all (cs ++ ds) l ≡ allow_all ds m
unfolding allow_all
allow_all-append [] ds l m e = ap (allow_all ds) (cc e)
allow_all-append (c ∷ cs) ds l m e = elim (Option-cases (allow c l)) [
  | inl n ↦ cc (rw (n, allow_all) at e)
  | inr (k, n) ↦ rw (n, allow_all) (allow_all-append cs ds k m (rw (n, allow_all) at e))
]

module _ {ℓ} {F : Type ℓ} where
  -- `event_new` gives no event that is still there.
  abbrev pub GivesNew : EventOp F → CEvent F → Type 0
  GivesNew (op_reset base made f) e = (p : ℕ) → made ≡ some p → is_there p (kept e.event) ≡ false
  GivesNew _ e = Unit

  -- A function is there as long as the event is.
  abbrev pub HasFunc : CEvent F → Type 0
  HasFunc e = is_some e.event ≡ true → is_some e.func ≡ true

  abbrev Uses : CEvent F → Option (CEvent F × List EventCall) → Type 0
  Uses e none = Unit
  Uses e (some (d, calls)) = (allow_all calls (kept e.event) ≡ some (kept d.event)) × HasFunc d

  run_op-Uses : (o : EventOp F) (e : CEvent F) → GivesNew o e → HasFunc e → Uses e (run_op o e)
  unfolding run_op allow_all
  run_op-Uses (op_reset false made f) e g h = tt
  run_op-Uses (op_reset true none f) e g h = tt
  run_op-Uses (op_reset true (some p) f) e g h = (ground (arith, g p refl), λ x. refl)
  run_op-Uses op_free e g h = (ground arith, λ x. cc x)
  run_op-Uses op_del e g h = (ground arith, h)
  run_op-Uses op_active e g h = (ground arith, h)
  run_op-Uses (op_add tv) e g h = (ground arith, h)
  run_op-Uses (op_priority_set n) e g h = (ground arith, h)

  -- What holds of the event behind an operation, if it fails no assertion.
  abbrev pub After : (CEvent F → Type ℓ) → Option (CEvent F × List EventCall) → Type ℓ
  After P none = Unit
  After P (some (d, calls)) = P d

  -- `event_new` gives a new event in each `reset`.
  abbrev pub AllGiveNew : List (EventOp F) → CEvent F → Type ℓ
  AllGiveNew [] e = Unit
  AllGiveNew (o ∷ os) e = GivesNew o e × After (λ d. AllGiveNew os d) (run_op o e)

  run_ops-Uses :
      (os : List (EventOp F)) (e : CEvent F) → AllGiveNew os e → HasFunc e → Uses e (run_ops os e)
  unfolding run_ops allow_all
  run_ops-Uses [] e g h = (refl, h)
  run_ops-Uses (o ∷ os) e g h = elim (Option-cases (run_op o e)) [
    | inl n ↦ rw (n, run_ops) tt
    | inr ((d, calls), n) ↦
        let (used, has) = subst (Uses e) n (run_op-Uses o e g.0 h) in
        elim (Option-cases (run_ops os d)) [
          | inl k ↦ rw (n, run_ops, k) tt
          | inr ((x, more), k) ↦
              let (used', has') =
                subst (Uses d) k
                  (run_ops-Uses os d (subst (After (λ x. AllGiveNew os x)) n g.1) has) in
              rw (n, run_ops, k)
                (allow_all-append calls more (kept e.event) (kept d.event) used ∙ used', has')
        ]
  ]

  -- However a program uses a `CEvent`, if `event_new` gives no event that is still there: every call of
  -- libevent is allowed, that is, it names an event that was made and not freed. What is left there
  -- at the end is what the object still holds, so that after the destructor nothing is left, and
  -- while it holds an event there is a function to run.
  pub run_ops-allow_all :
      (os : List (EventOp F)) (e : CEvent F) (calls : List EventCall)
      → AllGiveNew os no_event
      → run_ops os no_event ≡ some (e, calls)
      → (allow_all calls [] ≡ some (kept e.event))
        × (allow_all (calls ++ (free e).1) [] ≡ some [])
        × (is_some e.event ≡ true → is_some (callback e) ≡ true)
  unfolding free callback allow_all
  run_ops-allow_all os e calls g r =
      let (used, has) = subst (Uses no_event) r (run_ops-Uses os no_event g (λ x. cc x)) in
      (
        used,
        allow_all-append calls (if_held event_free e.event) [] (kept e.event) used ∙ ground arith,
        has,
      )
