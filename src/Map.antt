-- ===== src/Map.antt =====
-- `std::map` from a connection's id, as src/handler.h keeps its four maps: the entries in ascending
-- order of the keys.
pub mod Laws
use libbtcnet.Base.{
  ℕ, suc, ◌+◌, ◌≤◌, ◌<◌, Bool, List, [], ◌∷◌, Option, none, some, ltb, ◌==◌, if◌then◌else◌, All,
}

abbrev pub Map {ℓ} : Type ℓ → Type ℓ
Map V = List (ℕ × V)

module _ {ℓ} {V : Type ℓ} where
  -- `find`; `none` is `end()`.
  unfoldable pub lookup : ℕ → Map V → Option V
  lookup k [] = none
  lookup k ((j, v) ∷ m) = if j == k then some v else lookup k m

  unfoldable pub erase : ℕ → Map V → Map V
  erase k [] = []
  erase k ((j, v) ∷ m) = if j == k then m else (j, v) ∷ erase k m

  -- An entry that is there stays as it is.
  unfoldable pub emplace : ℕ → V → Map V → Map V
  emplace k v [] = (k, v) ∷ []
  emplace k v ((j, w) ∷ m) =
      if ltb k j then (k, v) ∷ (j, w) ∷ m else if j == k then (j, w) ∷ m else (j, w) ∷ emplace k v m

  -- A change of the value behind an iterator.
  unfoldable pub modify : ℕ → (V → V) → Map V → Map V
  modify k f [] = []
  modify k f ((j, v) ∷ m) = if j == k then (j, f v) ∷ m else (j, v) ∷ modify k f m

  -- The number of entries that pass a test.
  unfoldable pub count : (V → Bool) → Map V → ℕ
  count p [] = 0
  count p ((j, v) ∷ m) = (if p v then 1 else 0) + count p m

  -- The keys ascend, from `lo` on.
  abbrev pub Ascending : ℕ → Map V → Type 0
  Ascending lo [] = Unit
  Ascending lo ((k, v) ∷ m) = (lo ≤ k) × Ascending (suc k) m

  -- Every entry satisfies a predicate.
  abbrev pub Each {κ} : (ℕ → V → Type κ) → Map V → Type κ
  Each P [] = Unit
  Each P ((k, v) ∷ m) = P k v × Each P m

  abbrev pub KeysBelow : ℕ → Map V → Type 0
  KeysBelow n = Each (λ k v. k < n)
