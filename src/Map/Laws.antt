-- ===== src/Map/Laws.antt =====
-- The laws of the maps.
use mathlib.Core.Path.{subst₂}
use libbtcnet.Base.{
  ℕ, suc, ◌+◌, ◌≤◌, ◌<◌, Bool, not, ◌&&◌, ◌||◌, is_some, [], ◌∷◌, none, some, ◌≡◌, ◌≢◌, refl, sym,
  ap, subst, inl, inr, Bool-cases, ==_iff, ltb, ◌==◌, if◌then◌else◌, length, arith,
}
use libbtcnet.Map.{Map, lookup, erase, emplace, modify, count, Ascending, Each, KeysBelow}

module _ {ℓ} {V : Type ℓ} where
  pub Ascending-mono : {lo lo' : ℕ} (m : Map V) → lo' ≤ lo → Ascending lo m → Ascending lo' m
  Ascending-mono [] h a = tt
  Ascending-mono ((k, v) ∷ m) h a = (omega arith, a.1)

  pub Ascending-emplace :
      (lo k : ℕ) (v : V) (m : Map V) → lo ≤ k → Ascending lo m → Ascending lo (emplace k v m)
  unfolding emplace
  Ascending-emplace lo k v [] h a = (h, tt)
  Ascending-emplace lo k v ((j, w) ∷ m) h a = ground (arith, Ascending-emplace (suc j) k v m)

  pub Ascending-erase : (lo k : ℕ) (m : Map V) → Ascending lo m → Ascending lo (erase k m)
  unfolding erase
  Ascending-erase lo k [] a = tt
  Ascending-erase lo k ((j, v) ∷ m) a = ground (
    arith,
    Ascending-erase (suc j) k m a.1,
    Ascending-mono {lo = suc j} {lo' = lo} m (omega arith) a.1,
  )

  pub Ascending-modify :
      (lo k : ℕ) (f : V → V) (m : Map V) → Ascending lo m → Ascending lo (modify k f m)
  unfolding modify
  Ascending-modify lo k f [] a = tt
  Ascending-modify lo k f ((j, v) ∷ m) a = ground (arith, Ascending-modify (suc j) k f m a.1)

  pub lookup_below : (lo k : ℕ) (m : Map V) → Ascending lo m → k < lo → lookup k m ≡ none
  unfolding lookup
  lookup_below lo k [] a h = refl
  lookup_below lo k ((j, v) ∷ m) a h = ground (arith, lookup_below (suc j) k m a.1 (omega arith))

  -- An erased key is gone.
  pub lookup-erase_self : (lo k : ℕ) (m : Map V) → Ascending lo m → lookup k (erase k m) ≡ none
  unfolding lookup erase
  lookup-erase_self lo k [] a = refl
  lookup-erase_self lo k ((j, v) ∷ m) a =
      ground (arith, lookup-erase_self (suc j) k m a.1, lookup_below (suc j) k m a.1)

  pub lookup-erase_ne : (k j : ℕ) (m : Map V) → k ≢ j → lookup j (erase k m) ≡ lookup j m
  unfolding lookup erase
  lookup-erase_ne k j [] h = refl
  lookup-erase_ne k j ((i, v) ∷ m) h = ground (arith, lookup-erase_ne k j m h)

  pub lookup_fresh : (n k : ℕ) (m : Map V) → KeysBelow n m → n ≤ k → lookup k m ≡ none
  unfolding lookup
  lookup_fresh n k [] b h = refl
  lookup_fresh n k ((j, v) ∷ m) b h = ground (arith, lookup_fresh n k m b.1 h)

  pub lookup-emplace_self :
      (k : ℕ) (v : V) (m : Map V) → lookup k m ≡ none → lookup k (emplace k v m) ≡ some v
  unfolding lookup emplace
  lookup-emplace_self k v [] h = ground arith
  lookup-emplace_self k v ((j, w) ∷ m) h = ground (arith, lookup-emplace_self k v m)

  pub lookup-emplace_ne :
      (k j : ℕ) (v : V) (m : Map V) → k ≢ j → lookup j (emplace k v m) ≡ lookup j m
  unfolding lookup emplace
  lookup-emplace_ne k j v [] h = ground arith
  lookup-emplace_ne k j v ((i, w) ∷ m) h = ground (arith, lookup-emplace_ne k j v m h)

  pub lookup-modify_ne :
      (k j : ℕ) (f : V → V) (m : Map V) → k ≢ j → lookup j (modify k f m) ≡ lookup j m
  unfolding lookup modify
  lookup-modify_ne k j f [] h = refl
  lookup-modify_ne k j f ((i, w) ∷ m) h = ground (arith, lookup-modify_ne k j f m h)

  pub lookup-modify_self :
      (k : ℕ) (f : V → V) (v : V) (m : Map V)
      → lookup k m ≡ some v
      → lookup k (modify k f m) ≡ some (f v)
  unfolding lookup modify
  lookup-modify_self k f v [] h = cc
  lookup-modify_self k f v ((i, w) ∷ m) h = ground (arith, lookup-modify_self k f v m)

  pub erase-modify : (k : ℕ) (f : V → V) (m : Map V) → erase k (modify k f m) ≡ erase k m
  unfolding erase modify
  erase-modify k f [] = refl
  erase-modify k f ((j, w) ∷ m) = ground (arith, erase-modify k f m)

  pub length-emplace :
      (k : ℕ) (v : V) (m : Map V) → lookup k m ≡ none → length (emplace k v m) ≡ length m + 1
  unfolding lookup emplace
  length-emplace k v [] h = refl
  length-emplace k v ((j, w) ∷ m) h = ground (arith, length-emplace k v m)

  pub length-erase :
      (k : ℕ) (v : V) (m : Map V) → lookup k m ≡ some v → length (erase k m) + 1 ≡ length m
  unfolding lookup erase
  length-erase k v [] h = cc
  length-erase k v ((j, w) ∷ m) h = ground (arith, length-erase k v m)

  pub length-modify : (k : ℕ) (f : V → V) (m : Map V) → length (modify k f m) ≡ length m
  unfolding modify
  length-modify k f [] = refl
  length-modify k f ((j, w) ∷ m) = ground (arith, length-modify k f m)

  pub count-emplace :
      (p : V → Bool) (k : ℕ) (v : V) (m : Map V)
      → lookup k m ≡ none
      → count p (emplace k v m) ≡ count p m + (if p v then 1 else 0)
  unfolding lookup emplace count
  count-emplace p k v [] h = ground arith
  count-emplace p k v ((j, w) ∷ m) h = ground (arith, count-emplace p k v m)

  pub count-modify :
      (p : V → Bool) (k : ℕ) (v w : V) (m : Map V)
      → lookup k m ≡ some v
      → p w ≡ p v
      → count p (modify k (λ _. w) m) ≡ count p m
  unfolding lookup modify count
  count-modify p k v w [] h e = cc
  count-modify p k v w ((j, x) ∷ m) h e = elim (Bool-cases (j == k)) [
    | inl hit ↦ let same : x ≡ v = ground arith in rw (hit, same, e) refl
    | inr miss ↦
        rw miss (ap (λ n. (if p x then 1 else 0) + n) (count-modify p k v w m (rw miss at h) e))
  ]

  pub count-erase :
      (p : V → Bool) (k : ℕ) (v : V) (m : Map V)
      → lookup k m ≡ some v
      → count p (erase k m) + (if p v then 1 else 0) ≡ count p m
  unfolding lookup erase count
  count-erase p k v [] h = cc
  count-erase p k v ((j, w) ∷ m) h = ground (arith, count-erase p k v m)

  module _ {κ} (P : ℕ → V → Type κ) where
    pub Each-lookup : (k : ℕ) {v : V} (m : Map V) → Each P m → lookup k m ≡ some v → P k v
    unfolding lookup
    Each-lookup k [] e h = cc
    Each-lookup k {v} ((j, w) ∷ m) e h = elim (Bool-cases (j == k)) [
      | inl hit ↦ let same : w ≡ v = ground arith in subst₂ P ((==_iff j k).0 hit) same e.0
      | inr miss ↦ Each-lookup k m e.1 (rw miss at h)
    ]

    pub Each-erase : (k : ℕ) (m : Map V) → Each P m → Each P (erase k m)
    unfolding erase
    Each-erase k [] e = tt
    Each-erase k ((j, w) ∷ m) e = elim (Bool-cases (j == k)) [
      | inl hit ↦ rw hit e.1
      | inr miss ↦ rw miss (e.0, Each-erase k m e.1)
    ]

    pub Each-emplace : (k : ℕ) (v : V) (m : Map V) → P k v → Each P m → Each P (emplace k v m)
    unfolding emplace
    Each-emplace k v [] p e = (p, tt)
    Each-emplace k v ((j, w) ∷ m) p e = elim (Bool-cases (ltb k j)) [
      | inl first ↦ rw first (p, e)
      | inr later ↦ rw later (elim (Bool-cases (j == k)) [
        | inl hit ↦ rw hit e
        | inr miss ↦ rw miss (e.0, Each-emplace k v m p e.1)
      ])
    ]

    pub Each-modify :
        (k : ℕ) (f : V → V) (m : Map V)
        → ((v : V) → lookup k m ≡ some v → P k v → P k (f v))
        → Each P m
        → Each P (modify k f m)
    unfolding lookup modify
    Each-modify k f [] keep e = tt
    Each-modify k f ((j, w) ∷ m) keep e = elim (Bool-cases (j == k)) [
      | inl hit ↦
          let same = (==_iff j k).0 hit in
          rw hit (
            subst (λ i. P i (f w)) (sym same) (keep w (rw hit refl) (subst (λ i. P i w) same e.0)),
            e.1,
          )
      | inr miss ↦ rw miss (e.0, Each-modify k f m (λ v h. keep v (rw miss h)) e.1)
    ]

    pub Each-mono {κ'} :
        {Q : ℕ → V → Type κ'} (m : Map V) → ((k : ℕ) (v : V) → P k v → Q k v) → Each P m → Each Q m
    Each-mono [] f e = tt
    Each-mono ((j, w) ∷ m) f e = (f j w e.0, Each-mono m f e.1)

module _ {ℓ} {V : Type ℓ} where
  -- A new entry that is changed at once.
  pub modify-emplace :
      (k : ℕ) (f : V → V) (v : V) (m : Map V)
      → lookup k m ≡ none
      → modify k f (emplace k v m) ≡ emplace k (f v) m
  unfolding lookup emplace modify
  modify-emplace k f v [] h = ground arith
  modify-emplace k f v ((j, w) ∷ m) h = ground (arith, modify-emplace k f v m)

-- Whether a key is there, through the changes of a map.
abbrev pub has {ℓ} : {V : Type ℓ} → ℕ → Map V → Bool
has k m = is_some (lookup k m)

module _ {ℓ} {V : Type ℓ} where
  pub has-erase :
      (lo k j : ℕ) (m : Map V) → Ascending lo m → has k (erase j m) ≡ (has k m && not (j == k))
  unfolding lookup erase
  has-erase lo k j [] a = refl
  has-erase lo k j ((i, v) ∷ m) a =
      ground (arith, has-erase (suc i) k j m a.1, lookup_below (suc i) k m a.1)

  pub has-emplace : (k j : ℕ) (v : V) (m : Map V) → has k (emplace j v m) ≡ (j == k || has k m)
  unfolding lookup emplace
  has-emplace k j v [] = ground arith
  has-emplace k j v ((i, w) ∷ m) = ground (arith, has-emplace k j v m)

  pub has-modify : (k j : ℕ) (f : V → V) (m : Map V) → has k (modify j f m) ≡ has k m
  unfolding lookup modify
  has-modify k j f [] = refl
  has-modify k j f ((i, w) ∷ m) = ground (arith, has-modify k j f m)
