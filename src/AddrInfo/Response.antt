-- ===== src/AddrInfo/Response.antt =====
-- `CDNSResponse` (src/resolve.cpp) as the owner of an answer: its constructors, `clear` and its
-- moves. The answers are in the store of Handle, which records what is freed.
use libbtcnet.Base.{
  ℕ, Bool, List, [], ◌∷◌, Option, none, some, ◌≡◌, refl, ap, sym, subst, ◌∙◌, ◌+◌, inl, inr,
  Option-cases, map, arith,
}
use libbtcnet.Handle.{
  Store, get_slot, set_slot, put, give, at_slot, freed_by, free, move, construct, construct_empty,
  construct_from, no_handles, HandleOp, op_free, op_construct, op_construct_empty,
  op_construct_from, op_move, run_op, run_ops,
}
use libbtcnet.Handle.Ownership.{held, times, run_ops-owns}

-- `CDNSResponse()` and `CDNSResponse(evutil_addrinfo*)`, a new response in front, which may be null.
unfoldable pub new_response : Option ℕ → Store → Option Store
new_response p s = some (record (give p s) { slots = p ∷ s.slots })

-- `clear`, which is also the destructor.
unfoldable pub clear : ℕ → Store → Option Store
clear j s = at_slot j (λ v s. some (put j none (freed_by v s))) s

-- `empty`.
abbrev pub is_empty_response : ℕ → Store → Option Bool
is_empty_response j s = elim (get_slot j s.slots) [
  | none ↦ none
  | some none ↦ some Bool.true
  | some (some p) ↦ some Bool.false
]

-- `CDNSResponse(CDNSResponse&&)`.
unfoldable pub take_response : ℕ → Store → Option Store
take_response j s = at_slot j (λ v s. some (record s { slots = v ∷ set_slot j none s.slots })) s

-- `operator=(CDNSResponse&&)`.
unfoldable pub move_response : ℕ → ℕ → Store → Option Store
unfolding clear
move_response j k s = elim (clear j s) [
  | none ↦ none
  | some r ↦ at_slot k (λ v r. some (put k none (put j v r))) r
]

pub data ResponseOp : Type 0 where
  op_new : Option ℕ → ResponseOp
  op_clear op_take : ℕ → ResponseOp
  op_assign : ℕ → ℕ → ResponseOp

unfoldable pub run_response : ResponseOp → Store → Option Store
unfolding new_response clear take_response move_response
run_response (op_new p) s = new_response p s
run_response (op_clear j) s = clear j s
run_response (op_take j) s = take_response j s
run_response (op_assign j k) s = move_response j k s

unfoldable pub run_responses : List ResponseOp → Store → Option Store
unfolding run_response
run_responses [] s = some s
run_responses (o ∷ os) s = elim (run_response o s) [ none ↦ none | some r ↦ run_responses os r ]

-- The operation of `event_type` that does the same.
abbrev pub as_handle_op : ResponseOp → HandleOp
as_handle_op (op_new none) = op_construct_empty
as_handle_op (op_new (some p)) = op_construct (some p)
as_handle_op (op_clear j) = op_free j
as_handle_op (op_take j) = op_construct_from j
as_handle_op (op_assign j k) = op_move j k

run_response-run_op : (o : ResponseOp) (s : Store) → run_response o s ≡ run_op (as_handle_op o) s
unfolding run_response run_op free move construct construct_empty construct_from
run_response-run_op (op_new none) s = refl
run_response-run_op (op_new (some p)) s = refl
run_response-run_op (op_clear j) s = refl
run_response-run_op (op_take j) s = refl
run_response-run_op (op_assign j k) s = refl

-- Any use of responses does to its answers what the same use of `event_type` does to its objects.
pub run_responses-run_ops :
    (os : List ResponseOp) (s : Store) → run_responses os s ≡ run_ops (map as_handle_op os) s
unfolding run_responses run_ops
run_responses-run_ops [] s = refl
run_responses-run_ops (o ∷ os) s = elim (Option-cases (run_op (as_handle_op o) s)) [
  | inl e ↦ rw (run_response-run_op o s, e, run_responses, run_ops) refl
  | inr (r, e) ↦
      rw (run_response-run_op o s, e, run_responses, run_ops) (run_responses-run_ops os r)
]

abbrev Lets : Store → Option Store → Type 0
Lets s none = Unit
Lets s (some r) = r.released ≡ s.released

freed_by-Lets : (j : ℕ) (v : Option ℕ) (s : Store) → (freed_by v s).released ≡ s.released
freed_by-Lets j none s = refl
freed_by-Lets j (some p) s = refl

give_released : (p : Option ℕ) (s : Store) → (give p s).released ≡ s.released
give_released none s = refl
give_released (some p) s = refl

clear-Lets : (j : ℕ) (s : Store) → Lets s (clear j s)
unfolding clear
clear-Lets j s = elim (Option-cases (get_slot j s.slots)) [
  | inl e ↦ rw (clear, at_slot, e) tt
  | inr (v, e) ↦ rw (clear, at_slot, e) (freed_by-Lets j v s)
]

take_over-Lets : (j k : ℕ) (r : Store) → Lets r (at_slot k (λ v r. some (put k none (put j v r))) r)
take_over-Lets j k r = elim (Option-cases (get_slot k r.slots)) [
  | inl e ↦ rw (at_slot, e) tt
  | inr (v, e) ↦ rw (at_slot, e) refl
]

Lets-trans : (s r : Store) (o : Option Store) → r.released ≡ s.released → Lets r o → Lets s o
Lets-trans s r none e l = tt
Lets-trans s r (some x) e l = l ∙ e

run_response-Lets : (o : ResponseOp) (s : Store) → Lets s (run_response o s)
unfolding run_response new_response take_response move_response
run_response-Lets (op_new p) s = give_released p s
run_response-Lets (op_clear j) s = clear-Lets j s
run_response-Lets (op_take j) s = elim (Option-cases (get_slot j s.slots)) [
  | inl e ↦ rw (at_slot, e) tt
  | inr (v, e) ↦ rw (at_slot, e) refl
]
run_response-Lets (op_assign j k) s = elim (Option-cases (clear j s)) [
  | inl e ↦ rw (move_response, e) tt
  | inr (r, e) ↦
      rw (move_response, e)
        (Lets-trans s r _ (subst (Lets s) e (clear-Lets j s)) (take_over-Lets j k r))
]

run_responses-Lets : (os : List ResponseOp) (s : Store) → Lets s (run_responses os s)
unfolding run_responses
run_responses-Lets [] s = refl
run_responses-Lets (o ∷ os) s = elim (Option-cases (run_response o s)) [
  | inl e ↦ rw (e, run_responses) tt
  | inr (r, e) ↦
      rw (e, run_responses)
        (Lets-trans s r (run_responses os r) (subst (Lets s) e (run_response-Lets o s))
          (run_responses-Lets os r))
]

-- However a program uses responses, an answer that evdns gave once is either held by one response
-- or was freed once, and never both: no answer is lost, and none is freed twice.
pub run_responses-owns :
    (os : List ResponseOp) (s : Store) (p : ℕ)
    → run_responses os no_handles ≡ some s
    → times p s.given ≡ 1
    → held p s.slots + times p s.freed ≡ 1
run_responses-owns os s p run once =
    let whole =
      run_ops-owns (map as_handle_op os) s p (sym (run_responses-run_ops os no_handles) ∙ run)
        once in
    let none_left : s.released ≡ [] =
      subst (Lets no_handles) run (run_responses-Lets os no_handles) in
    omega (arith, whole, ap (times p) none_left)
