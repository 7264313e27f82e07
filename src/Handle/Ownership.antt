-- ===== src/Handle/Ownership.antt =====
-- Who owns an object of libevent (src/eventtypes.h).
use libbtcnet.Base.{
  ℕ, zero, suc, ◌+◌, List, [], ◌∷◌, Option, none, some, ◌≡◌, refl, subst, ap, ◌∙◌, ◌⊎◌, inl, inr,
  Option-cases, ◌==◌, if◌then◌else◌, arith,
}
use libbtcnet.Handle.{
  Store, get_slot, set_slot, put, give, at_slot, freed_by, let_go, free, reset, assign, construct,
  construct_empty, construct_from, move, swap, HandleOp, op_free, op_reset, op_assign, op_construct,
  op_construct_empty, op_construct_from, op_move, op_swap, run_op, run_ops, no_handles,
}

abbrev pub occurs : ℕ → Option ℕ → ℕ
occurs p none = 0
occurs p (some q) = if q == p then 1 else 0

-- The handles that hold the object.
abbrev pub held : ℕ → List (Option ℕ) → ℕ
held p [] = 0
held p (x ∷ xs) = occurs p x + held p xs

abbrev pub times : ℕ → List ℕ → ℕ
times p [] = 0
times p (q ∷ qs) = (if q == p then 1 else 0) + times p qs

-- Of every object, as many as were handed over are held, freed or let go.
abbrev pub Balanced : Store → Type 0
Balanced s = (p : ℕ) → held p s.slots + times p s.freed + times p s.released ≡ times p s.given

held-set_slot :
    (p j : ℕ) (v w : Option ℕ) (xs : List (Option ℕ))
    → get_slot j xs ≡ some v
    → held p (set_slot j w xs) + occurs p v ≡ held p xs + occurs p w
held-set_slot p j v w [] e = cc e
held-set_slot p zero v w (x ∷ xs) e = let same : x ≡ v = cc e in omega (arith, ap (occurs p) same)
held-set_slot p (suc j) v w (x ∷ xs) e = omega (arith, held-set_slot p j v w xs e)

-- A value that is written somewhere is still where it was.
get_slot-set_slot :
    (j k : ℕ) (v : Option ℕ) (xs : List (Option ℕ))
    → get_slot k xs ≡ some v
    → get_slot k (set_slot j v xs) ≡ some v
get_slot-set_slot j k v [] e = e
get_slot-set_slot zero zero v (x ∷ xs) e = refl
get_slot-set_slot zero (suc k) v (x ∷ xs) e = e
get_slot-set_slot (suc j) zero v (x ∷ xs) e = e
get_slot-set_slot (suc j) (suc k) v (x ∷ xs) e = get_slot-set_slot j k v xs e

get_slot-set_slot_self :
    (j : ℕ) (v w : Option ℕ) (xs : List (Option ℕ))
    → get_slot j xs ≡ some v
    → get_slot j (set_slot j w xs) ≡ some w
get_slot-set_slot_self j v w [] e = cc e
get_slot-set_slot_self zero v w (x ∷ xs) e = refl
get_slot-set_slot_self (suc j) v w (x ∷ xs) e = get_slot-set_slot_self j v w xs e

abbrev pub StaysBalanced : Option Store → Type 0
StaysBalanced none = Unit
StaysBalanced (some s) = Balanced s

at_slot-StaysBalanced :
    (j : ℕ) (op : Option ℕ → Store → Option Store) (s : Store)
    → ((v : Option ℕ) → get_slot j s.slots ≡ some v → StaysBalanced (op v s))
    → StaysBalanced (at_slot j op s)
at_slot-StaysBalanced j op s go = elim (Option-cases (get_slot j s.slots)) [
  | inl e ↦ rw (at_slot, e) tt
  | inr (v, e) ↦ rw (at_slot, e) (go v e)
]

freed_by-Balanced :
    (j : ℕ) (v : Option ℕ) (s : Store)
    → get_slot j s.slots ≡ some v
    → Balanced s
    → Balanced (put j none (freed_by v s))
freed_by-Balanced j none s e b p = omega (arith, held-set_slot p j none none s.slots e, b p)
freed_by-Balanced j (some q) s e b p = omega (arith, held-set_slot p j (some q) none s.slots e, b p)

reset-Balanced :
    (j : ℕ) (v w : Option ℕ) (s : Store)
    → get_slot j s.slots ≡ some v
    → Balanced s
    → Balanced (put j w (give w (let_go v s)))
reset-Balanced j none none s e b p = omega (arith, held-set_slot p j none none s.slots e, b p)
reset-Balanced j none (some r) s e b p =
    omega (arith, held-set_slot p j none (some r) s.slots e, b p)
reset-Balanced j (some q) none s e b p =
    omega (arith, held-set_slot p j (some q) none s.slots e, b p)
reset-Balanced j (some q) (some r) s e b p =
    omega (arith, held-set_slot p j (some q) (some r) s.slots e, b p)

get_slot-freed_by :
    (j : ℕ) (v : Option ℕ) (s : Store)
    → get_slot j s.slots ≡ some v
    → get_slot j (put j none (freed_by v s)).slots ≡ some none
get_slot-freed_by j none s e = get_slot-set_slot_self j none none s.slots e
get_slot-freed_by j (some q) s e = get_slot-set_slot_self j (some q) none s.slots e

-- After a `free` the handle is empty.
free-Balanced :
    (j : ℕ) (s : Store)
    → Balanced s
    → (free j s ≡ none)
      ⊎ ((r : Store) × (free j s ≡ some r) × (get_slot j r.slots ≡ some none) × Balanced r)
unfolding free
free-Balanced j s b = elim (Option-cases (get_slot j s.slots)) [
  | inl e ↦ inl (rw (free, at_slot, e) refl)
  | inr (v, e) ↦ inr (
    put j none (freed_by v s),
    rw (free, at_slot, e) refl,
    get_slot-freed_by j v s e,
    freed_by-Balanced j v s e b,
  )
]

-- An empty handle is filled.
fill-Balanced :
    (j q : ℕ) (s : Store)
    → get_slot j s.slots ≡ some none
    → Balanced s
    → Balanced (put j (some q) (give (some q) s))
fill-Balanced j q s e b p = omega (arith, held-set_slot p j none (some q) s.slots e, b p)

-- An empty handle takes over from another one.
take_over-Balanced :
    (j k : ℕ) (v : Option ℕ) (s : Store)
    → get_slot j s.slots ≡ some none
    → get_slot k s.slots ≡ some v
    → Balanced s
    → Balanced (put k none (put j v s))
take_over-Balanced j k v s e f b p = omega (
  arith,
  held-set_slot p j none v s.slots e,
  held-set_slot p k v none (set_slot j v s.slots) (get_slot-set_slot j k v s.slots f),
  b p,
)

swap-Balanced :
    (j k : ℕ) (v w : Option ℕ) (s : Store)
    → get_slot j s.slots ≡ some v
    → get_slot k s.slots ≡ some w
    → Balanced s
    → Balanced (put k v (put j w s))
swap-Balanced j k v w s e f b p = omega (
  arith,
  held-set_slot p j v w s.slots e,
  held-set_slot p k w v (set_slot j w s.slots) (get_slot-set_slot j k w s.slots f),
  b p,
)

construct_from-Balanced :
    (j : ℕ) (v : Option ℕ) (s : Store)
    → get_slot j s.slots ≡ some v
    → Balanced s
    → Balanced (record s { slots = v ∷ set_slot j none s.slots })
construct_from-Balanced j v s e b p = omega (arith, held-set_slot p j v none s.slots e, b p)

run_op-Balanced : (o : HandleOp) (s : Store) → Balanced s → StaysBalanced (run_op o s)
unfolding run_op free reset assign construct construct_empty construct_from move swap
run_op-Balanced (op_free j) s b =
    at_slot-StaysBalanced j (λ v s. some (put j none (freed_by v s))) s
      (λ v e. freed_by-Balanced j v s e b)
run_op-Balanced (op_reset j w) s b =
    at_slot-StaysBalanced j (λ v s. some (put j w (give w (let_go v s)))) s
      (λ v e. reset-Balanced j v w s e b)
run_op-Balanced (op_assign j none) s b = tt
run_op-Balanced (op_assign j (some q)) s b = elim (free-Balanced j s b) [
  | inl e ↦ rw (assign, e) tt
  | inr (r, e, empty, b') ↦ rw (assign, e) (fill-Balanced j q r empty b')
]
run_op-Balanced (op_construct none) s b = tt
run_op-Balanced (op_construct (some q)) s b = λ p. omega (arith, b p)
run_op-Balanced op_construct_empty s b = λ p. omega (arith, b p)
run_op-Balanced (op_construct_from j) s b =
    at_slot-StaysBalanced j (λ v s. some (record s { slots = v ∷ set_slot j none s.slots })) s
      (λ v e. construct_from-Balanced j v s e b)
run_op-Balanced (op_move j k) s b = elim (free-Balanced j s b) [
  | inl e ↦ rw (move, e) tt
  | inr (r, e, empty, b') ↦
      rw (move, e)
        (at_slot-StaysBalanced k (λ v r. some (put k none (put j v r))) r
          (λ v f. take_over-Balanced j k v r empty f b'))
]
run_op-Balanced (op_swap j k) s b =
    at_slot-StaysBalanced j (λ v s. at_slot k (λ w s. some (put k v (put j w s))) s) s
      (λ v e.
        at_slot-StaysBalanced k (λ w s. some (put k v (put j w s))) s
          (λ w f. swap-Balanced j k v w s e f b))

run_ops-StaysBalanced : (os : List HandleOp) (s : Store) → Balanced s → StaysBalanced (run_ops os s)
unfolding run_ops
run_ops-StaysBalanced [] s b = b
run_ops-StaysBalanced (o ∷ os) s b = elim (Option-cases (run_op o s)) [
  | inl e ↦ rw (run_ops, e) tt
  | inr (r, e) ↦
      rw (run_ops, e) (run_ops-StaysBalanced os r (subst StaysBalanced e (run_op-Balanced o s b)))
]

-- However a program uses handles, of each object that libevent gave it once, at most one handle
-- holds it, it is freed at most once, and not while a handle holds it. It is lost only if a `reset`
-- let it go.
pub run_ops-owns :
    (os : List HandleOp) (s : Store) (p : ℕ)
    → run_ops os no_handles ≡ some s
    → times p s.given ≡ 1
    → held p s.slots + times p s.freed + times p s.released ≡ 1
run_ops-owns os s p run once =
    subst StaysBalanced run (run_ops-StaysBalanced os no_handles (λ p. refl)) p ∙ once
