-- ===== src/Event/Tests.antt =====
-- An event that is set, added, set again and freed.
use libbtcnet.Base.{ℕ, true, none, [], ◌∷◌, ◌++◌, List, some, ◌≡◌, refl, is_some, arith}
use libbtcnet.Event.{
  EventCall, event_new, event_free, event_del, event_add, EventOp, op_reset, op_del, op_add, CEvent,
  no_event, run_op, run_ops, free, callback,
}
use libbtcnet.Event.Calls.{allow_all, kept, AllGiveNew, run_ops-allow_all}

-- An event that is made, added, made again, and deleted.
abbrev steps : List (EventOp ℕ)
steps = op_reset true (some 1) 7 ∷ op_add none ∷ op_reset true (some 2) 8 ∷ op_del ∷ []

abbrev last_event : CEvent ℕ
last_event = record { func = some 8; event = some 2 }

abbrev all_calls : List EventCall
all_calls = event_new 1 ∷ event_add 1 none ∷ event_new 2 ∷ event_free 1 ∷ event_del 2 ∷ []

steps-AllGiveNew : AllGiveNew steps no_event
unfolding run_op
steps-AllGiveNew = (λ p e. refl, (tt, (λ p e. ground arith, (tt, tt))))

run_ops-allow_all_example :
    (allow_all all_calls [] ≡ some (kept last_event.event))
    × (allow_all (all_calls ++ (free last_event).1) [] ≡ some [])
    × (is_some last_event.event ≡ true → is_some (callback last_event) ≡ true)
unfolding run_ops run_op
run_ops-allow_all_example = run_ops-allow_all steps last_event all_calls steps-AllGiveNew refl
