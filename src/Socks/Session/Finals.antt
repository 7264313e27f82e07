-- ===== src/Socks/Session/Finals.antt =====
-- The last reply of the proxy, which `read_final` takes off the input however it is cut into pieces
-- (src/bareproxy.cpp).
use libbtcnet.Base.{
  ℕ, ◌+◌, ◌≤◌, ◌<◌, List, [], ◌∷◌, ◌++◌, some, ◌≡◌, sym, ap, subst, ◌∙◌, ltb, ltb→lt, Bytes, length,
  take, drop, flatten, append-nil, append_assoc, Bool, Bool-cases, inl, inr, take-append_length,
  take-append_le, drop-append_le, arith,
}
use libbtcnet.Connection.{SockAddr, CConnection}
use libbtcnet.Socks.{
  address_reply, domain_reply, goes_on, proxy_success, read_final, on_read_final, port_bytes,
}
use libbtcnet.Socks.Replies.{
  on_read_final-domain, on_read_final-reply, answered, family_type, family_size, family_addr,
}
use libbtcnet.Socks.Session.{talking, succeeded, run_session, call_read_cb, react, reacted}
use libbtcnet.Socks.Session.Waits.{reads_all, run_waits, run_calls, run_left}
use libbtcnet.Socks.Session.Reply.{
  FinalReply, with_address, with_name, reply_bytes, reply_size, Fits, reported,
}

-- What `read_final` makes of a part of a reply of `need` bytes, and of the whole with more behind it.
abbrev Part : (CConnection → ℕ) → (c reported : CConnection) → (need : ℕ) → (input : Bytes) → Type 0
Part port c d need input =
    ((8 ≤ length input)
      → length input < need
      → on_read_final port c input ≡ some (goes_on read_final need [] input))
    × (need ≤ length input → on_read_final port c input ≡ some (proxy_success (drop need input) d))

abbrev pub Waits :
    (CConnection → ℕ) → (c reported : CConnection) → (need : ℕ) → (all : Bytes) → Type 0
Waits port c d need all = (pre more : Bytes) → pre ++ more ≡ all → Part port c d need pre

module _ (host : CConnection → Bytes) (port : CConnection → ℕ) (c d : CConnection) where
  pub run_final :
      (low need : ℕ) (written pre all : Bytes) (bs : List Bytes)
      → Waits port c d need all
      → 8 ≤ low
      → low ≤ need
      → need ≤ length all
      → pre ++ flatten bs ≡ all
      → length pre < low
      → run_session host port c (reads_all bs) (talking read_final low written pre)
        ≡ some (succeeded written (drop need all) d)
  unfolding react call_read_cb
  run_final low need written pre all [] w eight le enough whole short =
      let same = sym (append-nil pre) ∙ whole in absurd (omega (arith, ap length same, short))
  run_final low need written pre all (b ∷ bs) w eight le enough whole short =
      let now = pre ++ b in
      let same : now ++ flatten bs ≡ all = append_assoc pre b (flatten bs) ∙ whole in
      elim (Bool-cases (ltb (length now) low)) [
        | inl t ↦
            let less = ltb→lt (length now) low t in
            run_waits host port c read_final low written pre b bs less
            ∙ run_final low need written now all bs w eight le enough same less
        | inr f ↦
            let called : low ≤ length now = ground (arith, f) in
            elim (Bool-cases (ltb (length now) need)) [
              | inl t ↦
                  let less = ltb→lt (length now) need t in
                  run_calls host port c read_final low written pre b bs
                    (talking read_final need written now) called
                    (ap (reacted written) ((w now (flatten bs) same).0 (omega arith) less)
                      ∙ ap (λ v. some (talking read_final need v now)) (append-nil written))
                  ∙ run_final need need written now all bs w (omega arith) (omega arith) enough same
                      less
              | inr g ↦
                  let there : need ≤ length now = ground (arith, g) in
                  run_calls host port c read_final low written pre b bs
                    (succeeded written (drop need now) d) called
                    (ap (reacted written) ((w now (flatten bs) same).1 there))
                  ∙ run_left host port c written (drop need now) d bs
                  ∙ ap (λ r. some (succeeded written r d))
                      (sym (drop-append_le need now (flatten bs) there) ∙ ap (drop need) same)
            ]
      ]

head_of :
    (pre more : Bytes) (rsv t : ℕ) (all : Bytes)
    → pre ++ more ≡ 5 ∷ 0 ∷ rsv ∷ t ∷ all
    → 5 ≤ length pre
    → (x : ℕ) × (tail : Bytes) × (pre ≡ 5 ∷ 0 ∷ rsv ∷ t ∷ x ∷ tail) × (x ∷ (tail ++ more) ≡ all)
head_of (u ∷ v ∷ r ∷ t ∷ x ∷ tail) more rsv y all e h =
    (x, tail, ap (λ l. take 4 l ++ x ∷ tail) e, ap (drop 4) e)
head_of _ more rsv t all e h = absurd (omega arith)

module _ (port : CConnection → ℕ) (c : CConnection) where
  address_reply_waits :
      (make : Bytes → SockAddr) (n : ℕ) (input : Bytes)
      → length input < 6 + n
      → address_reply c make n input ≡ goes_on read_final (6 + n) [] input
  address_reply_waits make n input h = ground arith

  address_reply_ends :
      (make : Bytes → SockAddr) (n : ℕ) (input : Bytes)
      → 6 + n ≤ length input
      → address_reply c make n input
        ≡ proxy_success (drop (6 + n) input) (answered c (make (take n (drop 4 input))))
  address_reply_ends make n input h = ground arith

  -- The part of the address that is there once the reply is.
  address_part :
      (x : ℕ) (tail more a rest : Bytes) (n : ℕ)
      → length a ≡ n
      → n ≤ length (x ∷ tail)
      → x ∷ (tail ++ more) ≡ a ++ rest
      → take n (x ∷ tail) ≡ a
  address_part x tail more a rest n l h e =
      sym (take-append_le n (x ∷ tail) more h)
      ∙ ap (take n) e
      ∙ rw (sym l) (take-append_length a rest)

  Waits-head :
      (d : CConnection) (need rsv t : ℕ) (all : Bytes)
      → 8 ≤ need
      → ((x : ℕ) (tail more : Bytes)
          → x ∷ (tail ++ more) ≡ all
          → Part port c d need (5 ∷ 0 ∷ rsv ∷ t ∷ x ∷ tail))
      → Waits port c d need (5 ∷ 0 ∷ rsv ∷ t ∷ all)
  Waits-head d need rsv t all h at pre more e = elim (Bool-cases (ltb (length pre) 5)) [
    | inl s ↦
        let short = ltb→lt (length pre) 5 s in
        (λ eight less. absurd (omega arith), λ there. absurd (omega arith))
    | inr l ↦
        let (x, tail, p, q) = head_of pre more rsv t all e (ground (arith, l)) in
        subst (Part port c d need) (sym p) (at x tail more q)
  ]

  address_Waits :
      (v6 : Bool) (a : Bytes) (rsv hi lo : ℕ) (rest : Bytes)
      → length a ≡ family_size v6
      → Waits port c
          (reported port c (with_address v6 a))
          (6 + family_size v6)
          (reply_bytes (with_address v6 a) rsv hi lo rest)
  address_Waits v6 a rsv hi lo rest l =
      let n = family_size v6 in
      let make : Bytes → SockAddr = λ b. family_addr v6 b (port_bytes (port c)) in
      Waits-head (answered c (make a)) (6 + n) rsv (family_type v6) (a ++ hi ∷ lo ∷ rest)
        (ground arith)
        (λ x tail more e.
          let input : Bytes = 5 ∷ 0 ∷ rsv ∷ family_type v6 ∷ x ∷ tail in
          (
            λ eight less.
                on_read_final-reply port c rsv x tail v6 (omega (arith, eight))
                ∙ ap some (address_reply_waits make n input less),
            λ there.
                on_read_final-reply port c rsv x tail v6 (ground (arith, there))
                ∙ ap some (address_reply_ends make n input there)
                ∙ ap (λ b. some (proxy_success (drop (6 + n) input) (answered c (make b))))
                    (address_part x tail more a (hi ∷ lo ∷ rest) n l (omega (arith, there)) e),
          ))

  domain_reply_waits :
      (n : ℕ) (input : Bytes)
      → n < 128
      → length input < 7 + n
      → domain_reply c n input ≡ goes_on read_final (7 + n) [] input
  domain_reply_waits n input h less = ground arith

  domain_reply_ends :
      (n : ℕ) (input : Bytes)
      → n < 128
      → 7 + n ≤ length input
      → domain_reply c n input ≡ proxy_success (drop (7 + n) input) c
  domain_reply_ends n input h less = ground arith

  domain_Waits :
      (name : Bytes) (rsv hi lo : ℕ) (rest : Bytes)
      → 1 ≤ length name
      → length name < 128
      → Waits port c c (7 + length name) (reply_bytes (with_name name) rsv hi lo rest)
  domain_Waits name rsv hi lo rest one small =
      let n = length name in
      Waits-head c (7 + n) rsv 3 (n ∷ (name ++ hi ∷ lo ∷ rest)) (omega arith) (λ x tail more e.
        let same : n ≡ x = sym (ap (λ l. elim l [ [] ↦ 0 | y ∷ ys ↦ y ]) e) in
        subst (λ y. Part port c c (7 + n) (5 ∷ 0 ∷ rsv ∷ 3 ∷ y ∷ tail)) same
          (let input : Bytes = 5 ∷ 0 ∷ rsv ∷ 3 ∷ n ∷ tail in
            (
              λ eight less.
                  on_read_final-domain port c rsv n tail (omega (arith, eight))
                  ∙ ap some (domain_reply_waits n input small less),
              λ there.
                  on_read_final-domain port c rsv n tail (omega (arith, there, one))
                  ∙ ap some (domain_reply_ends n input small there),
            )))

  pub reply_bytes-Waits :
      (r : FinalReply) (rsv hi lo : ℕ) (rest : Bytes)
      → Fits r
      → Waits port c (reported port c r) (reply_size r) (reply_bytes r rsv hi lo rest)
  reply_bytes-Waits (with_address v6 a) rsv hi lo rest f = address_Waits v6 a rsv hi lo rest f
  reply_bytes-Waits (with_name n) rsv hi lo rest f = domain_Waits n rsv hi lo rest f.0 f.1
