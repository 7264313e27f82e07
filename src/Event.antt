-- ===== src/Event.antt =====
-- `CEvent` (src/event.cpp): an event of libevent with the function that it runs. A pointer is
-- a number; the calls of libevent are recorded in order. `none` is a failed assertion.
pub mod Calls
pub mod Tests
use libbtcnet.Base.{
  ℕ, Bool, true, false, List, [], ◌∷◌, ◌++◌, Option, none, some, if◌then◌else◌, ◌==◌,
}
use libbtcnet.Base.Int.{ℤ}

pub data EventCall : Type 0 where
  event_new event_free event_del event_active : ℕ → EventCall
  event_add : ℕ → Option ℤ → EventCall
  event_priority_set : ℕ → ℤ → EventCall

-- `m_func`, which is empty before the first `reset`, and what `m_event` holds.
pub record CEvent {ℓ} (F : Type ℓ) : Type ℓ where
  pub func : Option F
  pub event : Option ℕ

-- `CEvent()`.
abbrev pub no_event {ℓ} : {F : Type ℓ} → CEvent F
no_event = record { func = none; event = none }

-- The operations of an event; `reset` says whether there is an event base, and what `event_new` gives.
pub data EventOp {ℓ} (F : Type ℓ) : Type ℓ where
  op_reset : Bool → Option ℕ → F → EventOp F
  op_free op_del op_active : EventOp F
  op_add : Option ℤ → EventOp F
  op_priority_set : ℤ → EventOp F

-- A call for the event, if there is one.
abbrev pub if_held : (ℕ → EventCall) → Option ℕ → List EventCall
if_held call none = []
if_held call (some p) = call p ∷ []

module _ {ℓ} {F : Type ℓ} where
  -- `operator bool`.
  abbrev pub has_event : CEvent F → Bool
  has_event e = elim e.event [ none ↦ false | some _ ↦ true ]

  -- `free`, which is also the destructor.
  unfoldable pub free : CEvent F → CEvent F × List EventCall
  free e = (record e { event = none }, if_held event_free e.event)

  -- `reset`, which is also the other constructor: the new event is made before the old one is freed.
  unfoldable pub reset : Bool → Option ℕ → F → CEvent F → Option (CEvent F × List EventCall)
  reset base made f e =
      if base
      then elim made [
        | none ↦ none
        | some p ↦
            some
              (record { func = some f; event = some p }, event_new p ∷ if_held event_free e.event)
      ]
      else none

  -- `del`, `active`, `add` and `priority_set`.
  unfoldable pub del : CEvent F → List EventCall
  del e = if_held event_del e.event

  unfoldable pub active : CEvent F → List EventCall
  active e = if_held event_active e.event

  unfoldable pub add : Option ℤ → CEvent F → List EventCall
  add tv e = if_held (λ p. event_add p tv) e.event

  unfoldable pub priority_set : ℤ → CEvent F → List EventCall
  priority_set n e = if_held (λ p. event_priority_set p n) e.event

  -- `callback`: the function that is run; `none` is an empty one.
  unfoldable pub callback : CEvent F → Option F
  callback e = e.func

  unfoldable pub run_op : EventOp F → CEvent F → Option (CEvent F × List EventCall)
  unfolding free reset del active add priority_set
  run_op (op_reset base made f) e = reset base made f e
  run_op op_free e = some (free e)
  run_op op_del e = some (e, del e)
  run_op op_active e = some (e, active e)
  run_op (op_add tv) e = some (e, add tv e)
  run_op (op_priority_set n) e = some (e, priority_set n e)

  abbrev pub and_then :
      Option (CEvent F × List EventCall)
      → (CEvent F → Option (CEvent F × List EventCall))
      → Option (CEvent F × List EventCall)
  and_then none next = none
  and_then (some (e, calls)) next = elim (next e) [
    | none ↦ none
    | some (d, more) ↦ some (d, calls ++ more)
  ]

  -- One after the other, as long as no assertion fails, with all the calls.
  pub run_ops : List (EventOp F) → CEvent F → Option (CEvent F × List EventCall)
  run_ops [] e = some (e, [])
  run_ops (o ∷ os) e = and_then (run_op o e) (λ d. run_ops os d)
