-- ===== src/Handler/Outgoing.antt =====
-- `RequestOutgoingInt` (src/handler.cpp).
use libbtcnet.Base.{
  ℕ, zero, suc, ◌+◌, ◌-◌, ◌≤◌, List, [], ◌∷◌, some, ◌≡◌, refl, sym, ap, subst, if◌then◌else◌,
  length, take, ltb, ◌==◌, ◌^◌, ◌<◌, ◌∙◌, min, Option, arith,
}
use libbtcnet.Base.Int.{pos, negsuc, ◌-ℤ◌}
use libbtcnet.Map.{count}
use libbtcnet.Connection.{CConnection}
use libbtcnet.Object.{is_outgoing}
use libbtcnet.Handler.State.{Client, Handler, notify, max_index, on_need_outgoing_connections}
use libbtcnet.Handler.Loop.{start_connections, needed, chosen, min_ℤ, is_zero, request_outgoing}
use libbtcnet.Handler.Tidy.{IsTidy}
use libbtcnet.Handler.Bound.{load, Bound, Gives, Gives-if, Bound-mono, Bound-notify}
use libbtcnet.Handler.Starts.{start_connections-Gives}

need_fits :
    (l o c : ℕ)
    → o + c ≤ l
    → (k : ℕ) × (min_ℤ (pos 8) (pos l -ℤ pos o -ℤ pos c) ≡ pos k) × (k ≤ 8) × (o + c + k ≤ l)
unfolding ◌-ℤ◌
need_fits l o c h =
    (if ltb (l - o - c) 8 then l - o - c else 8, ground arith, ground arith, ground arith)

need_negative : (l o c : ℕ) → min_ℤ (pos 8) (negsuc l -ℤ pos o -ℤ pos c) ≡ negsuc (l + (o + c))
unfolding ◌-ℤ◌
need_negative l o c = ground arith

take-min {ℓ} : {A : Type ℓ} (k : ℕ) (xs : List A) → take (min (length xs) k) xs ≡ take k xs
take-min zero xs = let e : min (length xs) 0 ≡ 0 = omega arith in rw e refl
take-min (suc k) [] = let e : min 0 (suc k) ≡ 0 = omega arith in rw e refl
take-min (suc k) (x ∷ xs) =
    let e : min (suc (length xs)) (suc k) ≡ suc (min (length xs) k) = omega arith in
    rw e (ap (◌∷◌ x) (take-min k xs))

take_whole {ℓ} : {A : Type ℓ} (xs : List A) → take (length xs) xs ≡ xs
take_whole [] = refl
take_whole (x ∷ xs) = ap (◌∷◌ x) (take_whole xs)

length-take_le {ℓ} : {A : Type ℓ} (k : ℕ) (xs : List A) → length (take k xs) ≤ k
length-take_le zero xs = omega arith
length-take_le (suc k) [] = omega arith
length-take_le (suc k) (x ∷ xs) = ground (arith, length-take_le k xs)

-- A request whose need is not negative.
abbrev start_needed : Client → ℕ → Handler → Option Handler
start_needed i k h =
    let g = notify (on_need_outgoing_connections (pos k)) h in
    if k == 0 then some h else start_connections i (take k (i.candidates g.calls (pos k))) g

start_pos :
    (i : Client) (k : ℕ) (h : Handler)
    → let need = pos k in
      let g = notify (on_need_outgoing_connections need) h in
      (if is_zero need
        then some h
        else start_connections i (chosen need (i.candidates g.calls need)) g)
      ≡ start_needed i k h
start_pos i k h =
    let g = notify (on_need_outgoing_connections (pos k)) h in
    ap (λ cs. if k == 0 then some h else start_connections i cs g)
      (take-min k (i.candidates g.calls (pos k)))

request_outgoing-needed :
    (i : Client) (k : ℕ) (h : Handler)
    → needed h ≡ pos k
    → request_outgoing i h ≡ start_needed i k h
unfolding request_outgoing
request_outgoing-needed i k h e =
    ap
      (λ need.
        let g = notify (on_need_outgoing_connections need) h in
        if is_zero need
        then some h
        else start_connections i (chosen need (i.candidates g.calls need)) g)
      e
    ∙ start_pos i k h

start_needed-Gives :
    {l m : ℕ} {h : Handler} (i : Client) (k : ℕ)
    → k ≤ 8
    → load h + k ≤ l
    → m + 16 ≤ max_index
    → Bound (load h) m h
    → Gives l (m + 16) (start_needed i k h)
start_needed-Gives {l} {m} {h} i k small fits lt b =
    let g = notify (on_need_outgoing_connections (pos k)) h in
    let cs = take k (i.candidates g.calls (pos k)) in
    let few = length-take_le k (i.candidates g.calls (pos k)) in
    Gives-if (k == 0) (λ _. (h, refl, Bound-mono (omega arith) (omega arith) b))
      (λ _.
        let (f, done, b') =
          start_connections-Gives {n = load h} {m = m} i cs (omega arith) (Bound-notify _ b) in
        (f, done, Bound-mono (omega arith) (omega arith) b'))

-- From a handler that satisfies the invariant, with 16 ids left and a limit that is not below the
-- load, a request never takes the load above the limit: the connections that stand, those under
-- way and the new ones, retries included, stay within it. No assertion fails, the invariant is
-- kept, and at most 16 ids are taken.
pub request_outgoing-limit :
    {m : ℕ} {h : Handler} (i : Client) (l : ℕ)
    → h.outgoing_conn_limit ≡ pos l
    → m + 16 ≤ max_index
    → Bound l m h
    → Gives l (m + 16) (request_outgoing i h)
request_outgoing-limit {m} {h} i l lim lt b =
    let (k, need, small, fits) =
      need_fits l (count is_outgoing h.connected) (length h.connecting) b.load_le in
    let needs : needed h ≡ pos k = rw (lim, b.tidy.outgoing_counted) need in
    subst (Gives l (m + 16)) (sym (request_outgoing-needed i k h needs)) (
      start_needed-Gives i k small fits lt (record {
        tidy = b.tidy;
        resolves_named = b.resolves_named;
        listeners = b.listeners;
        load_le = omega arith;
        index_le = b.index_le;
      }))

all_chosen : (k : ℕ) (cs : List CConnection) → k + length cs < 2 ^ 64 → chosen (negsuc k) cs ≡ cs
all_chosen k cs h =
    let most : min (length cs) (2 ^ 64 - suc k) ≡ length cs = omega arith in
    ap (λ n. take n cs) most ∙ take_whole cs

-- With a negative limit and tidy maps the need is negative. If the limit's amount, the load and the
-- candidates that the application offers are fewer than 2 ^ 64 together, the cast to `size_t` makes
-- the need at least as large as their number: every one of them is started, whatever the load is.
pub request_outgoing_negative :
    (i : Client) (l : ℕ) (h : Handler)
    → h.outgoing_conn_limit ≡ negsuc l
    → IsTidy h
    → l
        + load h
        + length (
            i.candidates
              (notify (on_need_outgoing_connections (negsuc (l + load h))) h).calls
              (negsuc (l + load h)))
      < 2 ^ 64
    → let k = l + load h in
      let g = notify (on_need_outgoing_connections (negsuc k)) h in
      (needed h ≡ negsuc k)
      × (request_outgoing i h ≡ start_connections i (i.candidates g.calls (negsuc k)) g)
unfolding request_outgoing
request_outgoing_negative i l h lim t few =
    let k = l + load h in
    let needs : needed h ≡ negsuc k =
      rw (lim, t.outgoing_counted)
        (need_negative l (count is_outgoing h.connected) (length h.connecting)) in
    let g = notify (on_need_outgoing_connections (negsuc k)) h in
    (
      needs,
      ap
            (λ need.
              let g = notify (on_need_outgoing_connections need) h in
              if is_zero need
              then some h
              else start_connections i (chosen need (i.candidates g.calls need)) g)
            needs
          ∙ ap (λ cs. start_connections i cs g)
              (all_chosen k (i.candidates g.calls (negsuc k)) few),
    )
