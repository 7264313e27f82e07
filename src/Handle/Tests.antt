-- ===== src/Handle/Tests.antt =====
-- Two handles that pass an object on.
use libbtcnet.Base.{◌+◌, List, [], ◌∷◌, none, some, ◌≡◌, refl}
use libbtcnet.Handle.{
  Store, HandleOp, op_construct, op_construct_empty, op_move, op_free, run_op, run_ops, no_handles,
  free, construct, construct_empty, move,
}
use libbtcnet.Handle.Ownership.{held, times, run_ops-owns}

-- A handle with object 7, one to which it is moved, and the destructor of the latter.
abbrev passing : List HandleOp
passing = op_construct (some 7) ∷ op_construct_empty ∷ op_move 0 1 ∷ op_free 0 ∷ []

abbrev passed : Store
passed = record { slots = none ∷ none ∷ []; given = 7 ∷ []; freed = 7 ∷ []; released = [] }

run_ops-passing : run_ops passing no_handles ≡ some passed
unfolding run_ops run_op free construct construct_empty move
run_ops-passing = refl

run_ops-owns_example : held 7 passed.slots + times 7 passed.freed + times 7 passed.released ≡ 1
run_ops-owns_example = run_ops-owns passing passed 7 run_ops-passing refl
