-- ===== src/Handle.antt =====
-- `event_type` (src/eventtypes.h): the owner of an object of libevent. A pointer is the number of
-- the object; `none` is the null pointer. `obj_free` is recorded. `none` of an operation is a
-- failed assertion, or a handle that does not exist.
pub mod Ownership
pub mod Tests
use libbtcnet.Base.{
  ℕ, zero, suc, ◌+◌, Bool, true, false, List, [], ◌∷◌, Option, none, some, ◌==◌, if◌then◌else◌,
}

-- The handles of the program with what each holds, the objects that were handed to one, and those
-- that were freed, or let go by a `reset`, which leaves them to libevent.
pub record Store : Type 0 where
  pub slots : List (Option ℕ)
  pub given : List ℕ
  pub freed : List ℕ
  pub released : List ℕ

abbrev pub get_slot : ℕ → List (Option ℕ) → Option (Option ℕ)
get_slot j [] = none
get_slot zero (x ∷ xs) = some x
get_slot (suc j) (x ∷ xs) = get_slot j xs

abbrev pub set_slot : ℕ → Option ℕ → List (Option ℕ) → List (Option ℕ)
set_slot j v [] = []
set_slot zero v (x ∷ xs) = v ∷ xs
set_slot (suc j) v (x ∷ xs) = x ∷ set_slot j v xs

-- `m_obj = v`.
abbrev pub put : ℕ → Option ℕ → Store → Store
put j v s = record s { slots = set_slot j v s.slots }

-- The object of a call of libevent, which may be the null pointer.
abbrev pub give : Option ℕ → Store → Store
give none s = s
give (some p) s = record s { given = p ∷ s.given }

-- An operation on a handle that exists.
abbrev pub at_slot : ℕ → (Option ℕ → Store → Option Store) → Store → Option Store
at_slot j op s = elim (get_slot j s.slots) [ none ↦ none | some v ↦ op v s ]

-- `obj_free`, unless the handle is empty.
abbrev pub freed_by : Option ℕ → Store → Store
freed_by none s = s
freed_by (some p) s = record s { freed = p ∷ s.freed }

-- `free`, which is also the destructor and the assignment of `nullptr`.
unfoldable pub free : ℕ → Store → Option Store
free j s = at_slot j (λ v s. some (put j none (freed_by v s))) s

-- What the handle held is let go.
abbrev pub let_go : Option ℕ → Store → Store
let_go none s = s
let_go (some p) s = record s { released = p ∷ s.released }

-- `reset`, which does not free what the handle holds.
unfoldable pub reset : ℕ → Option ℕ → Store → Option Store
reset j p s = at_slot j (λ v s. some (put j p (give p (let_go v s)))) s

-- `operator=(T*)`.
unfoldable pub assign : ℕ → Option ℕ → Store → Option Store
unfolding free
assign j none s = none
assign j (some p) s = elim (free j s) [
  | none ↦ none
  | some r ↦ some (put j (some p) (give (some p) r))
]

-- `event_type(T*)`, a new handle in front.
unfoldable pub construct : Option ℕ → Store → Option Store
construct none s = none
construct (some p) s = some (record (give (some p) s) { slots = some p ∷ s.slots })

-- `event_type()` and `event_type(nullptr)`.
unfoldable pub construct_empty : Store → Option Store
construct_empty s = some (record s { slots = none ∷ s.slots })

-- `event_type(event_type&&)`, a new handle in front that takes over from another.
unfoldable pub construct_from : ℕ → Store → Option Store
construct_from j s = at_slot j (λ v s. some (record s { slots = v ∷ set_slot j none s.slots })) s

-- `operator=(event_type&&)`: the right side is read after the left one is freed.
unfoldable pub move : ℕ → ℕ → Store → Option Store
unfolding free
move j k s = elim (free j s) [
  | none ↦ none
  | some r ↦ at_slot k (λ v r. some (put k none (put j v r))) r
]

-- `swap`.
unfoldable pub swap : ℕ → ℕ → Store → Option Store
swap j k s = at_slot j (λ v s. at_slot k (λ w s. some (put k v (put j w s))) s) s

pub data HandleOp : Type 0 where
  op_free : ℕ → HandleOp
  op_reset op_assign : ℕ → Option ℕ → HandleOp
  op_construct : Option ℕ → HandleOp
  op_construct_empty : HandleOp
  op_construct_from : ℕ → HandleOp
  op_move op_swap : ℕ → ℕ → HandleOp

unfoldable pub run_op : HandleOp → Store → Option Store
unfolding free reset assign construct construct_empty construct_from move swap
run_op (op_free j) s = free j s
run_op (op_reset j p) s = reset j p s
run_op (op_assign j p) s = assign j p s
run_op (op_construct p) s = construct p s
run_op op_construct_empty s = construct_empty s
run_op (op_construct_from j) s = construct_from j s
run_op (op_move j k) s = move j k s
run_op (op_swap j k) s = swap j k s

-- One after the other, as long as no assertion fails.
unfoldable pub run_ops : List HandleOp → Store → Option Store
run_ops [] s = some s
run_ops (o ∷ os) s = elim (run_op o s) [ none ↦ none | some r ↦ run_ops os r ]

-- A program before its first handle.
abbrev pub no_handles : Store
no_handles = record { slots = []; given = []; freed = []; released = [] }
