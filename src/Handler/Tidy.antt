-- ===== src/Handler/Tidy.antt =====
-- The invariant of the handler's maps and counters (src/handler.h), and the moves that keep it.
use libbtcnet.Base.{
  ℕ, ◌+◌, ◌≤◌, ◌<◌, Bool, true, false, not, none, some, is_some, ◌≡◌, refl, sym, ap, ◌∙◌, ◌⊎◌, inl,
  inr, ◌==◌, ==_iff, Bool-cases, if◌then◌else◌, arith,
}
use libbtcnet.Base.Int.{ℤ, pos, ◌+ℤ◌, ◌-ℤ◌}
use libbtcnet.Map.{Map, lookup, erase, emplace, modify, count, Ascending, Each}
use libbtcnet.Map.Laws.{
  Ascending-emplace, Ascending-erase, Ascending-modify, lookup_fresh, lookup-erase_self,
  lookup-erase_ne, lookup-emplace_ne, lookup-modify_ne, count-emplace, count-erase, count-modify,
  Each-lookup, Each-erase, Each-emplace, Each-modify, Each-mono,
}
use libbtcnet.Object.{ConnectionBase, is_outgoing}
use libbtcnet.Handler.State.{Handler}

abbrev pub is_incoming : ConnectionBase → Bool
is_incoming c = not (is_outgoing c)

-- The key of an entry is the object's own id, and is below the index of the next connection.
abbrev pub Named : ℕ → ℕ → ConnectionBase → Type 0
Named index k c = (k < index) × (c.id ≡ k)

abbrev pub Standing : ℕ → ConnectionBase → Type 0
Standing k c = is_some c.bev ≡ true

-- No id stands in both maps.
abbrev pub Disjoint : Map ConnectionBase → Map ConnectionBase → Type 0
Disjoint connected connecting = (k : ℕ) → (lookup k connecting ≡ none) ⊎ (lookup k connected ≡ none)

pub record Tidy (connected connecting : Map ConnectionBase) (index : ℕ) (outgoing incoming : ℤ)
    : Type 0 where
  pub connected_keys : Ascending 0 connected
  pub connecting_keys : Ascending 0 connecting
  pub connected_named : Each (Named index) connected
  pub connecting_named : Each (Named index) connecting
  -- What is connected has its `bufferevent`.
  pub standing : Each Standing connected
  pub disjoint : Disjoint connected connecting
  pub outgoing_counted : outgoing ≡ pos (count is_outgoing connected)
  pub incoming_counted : incoming ≡ pos (count is_incoming connected)

abbrev pub IsTidy : Handler → Type 0
IsTidy h =
    Tidy h.connected h.connecting h.connection_index h.outgoing_conn_count h.incoming_conn_count

-- A key that is not below the index is in neither map.
pub fresh :
    (index k : ℕ) (m : Map ConnectionBase) → Each (Named index) m → index ≤ k → lookup k m ≡ none
fresh index k m e h = lookup_fresh index k m (Each-mono (Named index) m (λ j c n. n.0) e) h

Named-mono :
    {index index' : ℕ} (m : Map ConnectionBase)
    → index ≤ index'
    → Each (Named index) m
    → Each (Named index') m
Named-mono {index} m h = Each-mono (Named index) m (λ k c n. (omega arith, n.1))

-- A counter that follows the number of entries.
count_down :
    (b : Bool) (x : ℤ) (n m : ℕ)
    → x ≡ pos n
    → m + (if b then 1 else 0) ≡ n
    → (if b then x -ℤ pos 1 else x) ≡ pos m
unfolding ◌-ℤ◌
count_down b x n m h e = rw h (ground arith)

count_up :
    (b : Bool) (x : ℤ) (n m : ℕ)
    → x ≡ pos n
    → m ≡ n + (if b then 1 else 0)
    → (if b then x +ℤ pos 1 else x) ≡ pos m
unfolding ◌+ℤ◌
count_up b x n m h e = rw h (ground arith)

if_not {ℓ} : {A : Type ℓ} (b : Bool) (x y : A) → (if b then x else y) ≡ (if not b then y else x)
if_not true x y = refl
if_not false x y = refl

module _ {connected connecting : Map ConnectionBase} {index : ℕ} {out inc : ℤ}
    (t : Tidy connected connecting index out inc) where
  -- A later index.
  pub Tidy-index : (index' : ℕ) → index ≤ index' → Tidy connected connecting index' out inc
  Tidy-index index' h = record {
    connected_keys = t.connected_keys;
    connecting_keys = t.connecting_keys;
    connected_named = Named-mono connected h t.connected_named;
    connecting_named = Named-mono connecting h t.connecting_named;
    standing = t.standing;
    disjoint = t.disjoint;
    outgoing_counted = t.outgoing_counted;
    incoming_counted = t.incoming_counted;
  }

  pub Tidy-erase_connecting : (k : ℕ) → Tidy connected (erase k connecting) index out inc
  Tidy-erase_connecting k = record {
    connected_keys = t.connected_keys;
    connecting_keys = Ascending-erase 0 k connecting t.connecting_keys;
    connected_named = t.connected_named;
    connecting_named = Each-erase (Named index) k connecting t.connecting_named;
    standing = t.standing;
    disjoint = λ j. elim (Bool-cases (k == j)) [
      | inl e ↦
          let same = (==_iff k j).0 e in
          inl (rw (← same) (lookup-erase_self 0 k connecting t.connecting_keys))
      | inr e ↦ rw (lookup-erase_ne k j connecting (λ x. ground arith)) (t.disjoint j)
    ];
    outgoing_counted = t.outgoing_counted;
    incoming_counted = t.incoming_counted;
  }

  pub Tidy-emplace_connecting :
      (k : ℕ) (c : ConnectionBase)
      → Named index k c
      → lookup k connected ≡ none
      → Tidy connected (emplace k c connecting) index out inc
  Tidy-emplace_connecting k c n h = record {
    connected_keys = t.connected_keys;
    connecting_keys = Ascending-emplace 0 k c connecting (omega arith) t.connecting_keys;
    connected_named = t.connected_named;
    connecting_named = Each-emplace (Named index) k c connecting n t.connecting_named;
    standing = t.standing;
    disjoint = λ j. elim (Bool-cases (k == j)) [
      | inl e ↦ let same = (==_iff k j).0 e in inr (rw same at h)
      | inr e ↦ rw (lookup-emplace_ne k j c connecting (λ x. ground arith)) (t.disjoint j)
    ];
    outgoing_counted = t.outgoing_counted;
    incoming_counted = t.incoming_counted;
  }

  -- What is connecting is not connected.
  pub not_connected :
      (k : ℕ) (c : ConnectionBase) → lookup k connecting ≡ some c → lookup k connected ≡ none
  not_connected k c h = elim (t.disjoint k) [ inl e ↦ cc | inr e ↦ e ]

  pub Tidy-modify_connecting :
      (k : ℕ) (c d : ConnectionBase)
      → lookup k connecting ≡ some c
      → d.id ≡ c.id
      → Tidy connected (modify k (λ _. d) connecting) index out inc
  Tidy-modify_connecting k c d h e =
      let n = Each-lookup (Named index) k connecting t.connecting_named h in
      record {
        connected_keys = t.connected_keys;
        connecting_keys = Ascending-modify 0 k (λ _. d) connecting t.connecting_keys;
        connected_named = t.connected_named;
        connecting_named =
            Each-modify (Named index) k (λ _. d) connecting (λ v _ _. (n.0, e ∙ n.1))
              t.connecting_named;
        standing = t.standing;
        disjoint = λ j. elim (Bool-cases (k == j)) [
          | inl x ↦ let same = (==_iff k j).0 x in inr (rw (← same) (not_connected k c h))
          | inr x ↦ rw (lookup-modify_ne k j (λ _. d) connecting (λ y. ground arith)) (t.disjoint j)
        ];
        outgoing_counted = t.outgoing_counted;
        incoming_counted = t.incoming_counted;
      }

  pub Tidy-erase_connected :
      (k : ℕ) (c : ConnectionBase)
      → lookup k connected ≡ some c
      → Tidy
          (erase k connected)
          connecting
          index
          (if is_outgoing c then out -ℤ pos 1 else out)
          (if is_outgoing c then inc else inc -ℤ pos 1)
  Tidy-erase_connected k c h = record {
    connected_keys = Ascending-erase 0 k connected t.connected_keys;
    connecting_keys = t.connecting_keys;
    connected_named = Each-erase (Named index) k connected t.connected_named;
    connecting_named = t.connecting_named;
    standing = Each-erase Standing k connected t.standing;
    disjoint = λ j. elim (Bool-cases (k == j)) [
      | inl e ↦
          let same = (==_iff k j).0 e in
          inr (rw (← same) (lookup-erase_self 0 k connected t.connected_keys))
      | inr e ↦ rw (lookup-erase_ne k j connected (λ x. ground arith)) (t.disjoint j)
    ];
    outgoing_counted =
        count_down (is_outgoing c) out _ _ t.outgoing_counted
          (count-erase is_outgoing k c connected h);
    incoming_counted =
        if_not (is_outgoing c) inc (inc -ℤ pos 1)
        ∙ count_down (is_incoming c) inc _ _ t.incoming_counted
            (count-erase is_incoming k c connected h);
  }

  pub Tidy-emplace_connected :
      (k : ℕ) (c : ConnectionBase)
      → Named index k c
      → is_some c.bev ≡ true
      → lookup k connected ≡ none
      → lookup k connecting ≡ none
      → Tidy
          (emplace k c connected)
          connecting
          index
          (if is_outgoing c then out +ℤ pos 1 else out)
          (if is_outgoing c then inc else inc +ℤ pos 1)
  Tidy-emplace_connected k c n up h g = record {
    connected_keys = Ascending-emplace 0 k c connected (omega arith) t.connected_keys;
    connecting_keys = t.connecting_keys;
    connected_named = Each-emplace (Named index) k c connected n t.connected_named;
    connecting_named = t.connecting_named;
    standing = Each-emplace Standing k c connected up t.standing;
    disjoint = λ j. elim (Bool-cases (k == j)) [
      | inl e ↦ let same = (==_iff k j).0 e in inl (rw same at g)
      | inr e ↦ rw (lookup-emplace_ne k j c connected (λ x. ground arith)) (t.disjoint j)
    ];
    outgoing_counted =
        count_up (is_outgoing c) out _ _ t.outgoing_counted
          (count-emplace is_outgoing k c connected h);
    incoming_counted =
        if_not (is_outgoing c) inc (inc +ℤ pos 1)
        ∙ count_up (is_incoming c) inc _ _ t.incoming_counted
            (count-emplace is_incoming k c connected h);
  }

  -- A connection that stands has changed.
  pub Tidy-modify_connected :
      (k : ℕ) (c d : ConnectionBase)
      → lookup k connected ≡ some c
      → d.id ≡ c.id
      → is_outgoing d ≡ is_outgoing c
      → is_some d.bev ≡ true
      → Tidy (modify k (λ _. d) connected) connecting index out inc
  Tidy-modify_connected k c d h e o up =
      let n = Each-lookup (Named index) k connected t.connected_named h in
      record {
        connected_keys = Ascending-modify 0 k (λ _. d) connected t.connected_keys;
        connecting_keys = t.connecting_keys;
        connected_named =
            Each-modify (Named index) k (λ _. d) connected (λ v _ _. (n.0, e ∙ n.1))
              t.connected_named;
        connecting_named = t.connecting_named;
        standing = Each-modify Standing k (λ _. d) connected (λ v _ _. up) t.standing;
        disjoint = λ j. elim (Bool-cases (k == j)) [
          | inl x ↦ elim (t.disjoint k) [
            | inl free ↦ let same = (==_iff k j).0 x in inl (rw (← same) free)
            | inr free ↦ cc (h, free)
          ]
          | inr x ↦ rw (lookup-modify_ne k j (λ _. d) connected (λ y. ground arith)) (t.disjoint j)
        ];
        outgoing_counted =
            t.outgoing_counted ∙ ap pos (sym (count-modify is_outgoing k c d connected h o));
        incoming_counted =
            t.incoming_counted
            ∙ ap pos (sym (count-modify is_incoming k c d connected h (ap not o)));
      }
