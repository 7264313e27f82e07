-- ===== src/Socks/Session/Waits.antt =====
-- How a negotiation waits for the bytes of one reply that come in several pieces (src/bareproxy.cpp).
use libbtcnet.Base.{
  ℕ, ◌≤◌, ◌<◌, List, [], ◌∷◌, ◌++◌, some, ◌≡◌, refl, sym, ap, ◌∙◌, ltb, Bytes, length,
  length-append, append-nil, append_assoc, flatten, Bool-cases, Option-cases, ltb→lt, inl, inr,
  arith,
}
use libbtcnet.Connection.{CConnection}
use libbtcnet.Socks.{ReadCb, goes_on}
use libbtcnet.Socks.Session.{
  Session, talking, succeeded, ProxyEvent, reads, receive, step_session, run_session, call_read_cb,
  react, reacted,
}

abbrev pub reads_all : List Bytes → List ProxyEvent
reads_all [] = []
reads_all (b ∷ bs) = reads b ∷ reads_all bs

whole_or_more : (xs ys zs : Bytes) → xs ++ ys ≡ zs → length zs ≤ length xs → (ys ≡ []) × (xs ≡ zs)
whole_or_more xs [] zs e h = (refl, sym (append-nil xs) ∙ e)
whole_or_more xs (y ∷ ys) zs e h = absurd (omega (arith, length-append xs (y ∷ ys), ap length e, h))

module _ (host : CConnection → Bytes) (port : CConnection → ℕ) (c : CConnection) where
  pub run_session-append :
      (es fs : List ProxyEvent) (s t : Session)
      → run_session host port c es s ≡ some t
      → run_session host port c (es ++ fs) s ≡ run_session host port c fs t
  unfolding run_session
  run_session-append [] fs s t e = ap (run_session host port c fs) (cc e)
  run_session-append (e ∷ es) fs s t h = elim (Option-cases (step_session host port c e s)) [
    | inl n ↦ cc (rw (n, run_session) at h)
    | inr (d, n) ↦ rw (n, run_session) (run_session-append es fs d t (rw (n, run_session) at h))
  ]

  pub run_waits :
      (cb : ReadCb) (low : ℕ) (written pre b : Bytes) (bs : List Bytes)
      → length (pre ++ b) < low
      → run_session host port c (reads_all (b ∷ bs)) (talking cb low written pre)
        ≡ run_session host port c (reads_all bs) (talking cb low written (pre ++ b))
  unfolding run_session step_session receive
  run_waits cb low written pre b bs h = ground arith

  pub run_calls :
      (cb : ReadCb) (low : ℕ) (written pre b : Bytes) (bs : List Bytes) (s : Session)
      → low ≤ length (pre ++ b)
      → reacted written (call_read_cb host port c cb (pre ++ b)) ≡ some s
      → run_session host port c (reads_all (b ∷ bs)) (talking cb low written pre)
        ≡ run_session host port c (reads_all bs) s
  unfolding run_session step_session receive
  run_calls cb low written pre b bs s h e = ground arith

  -- With nothing more to come, a session that waits stays where it is.
  pub run_nothing :
      (cb : ReadCb) (low : ℕ) (written pre : Bytes) (bs : List Bytes)
      → flatten bs ≡ []
      → length pre < low
      → run_session host port c (reads_all bs) (talking cb low written pre)
        ≡ some (talking cb low written pre)
  unfolding run_session
  run_nothing cb low written pre [] e h = refl
  run_nothing cb low written pre ([] ∷ bs) e h =
      run_waits cb low written pre [] bs (rw (append-nil pre) h)
      ∙ rw (append-nil pre) (run_nothing cb low written pre bs e h)
  run_nothing cb low written pre ((x ∷ b) ∷ bs) e h = absurd (cc e)

  -- A reply of the length of the watermark runs the callback once, with exactly its bytes, however it
  -- is cut into pieces.
  pub run_reply :
      (cb next : ReadCb) (low need : ℕ) (written pre more reply : Bytes) (bs : List Bytes)
      → pre ++ flatten bs ≡ reply
      → length pre < low
      → length reply ≡ low
      → 1 ≤ need
      → call_read_cb host port c cb reply ≡ some (goes_on next need more [])
      → run_session host port c (reads_all bs) (talking cb low written pre)
        ≡ some (talking next need (written ++ more) [])
  unfolding react
  run_reply cb next low need written pre more reply [] whole short l n e =
      let same = sym (append-nil pre) ∙ whole in absurd (omega (arith, ap length same, short, l))
  run_reply cb next low need written pre more reply (b ∷ bs) whole short l n e =
      let all : (pre ++ b) ++ flatten bs ≡ reply = append_assoc pre b (flatten bs) ∙ whole in
      elim (Bool-cases (ltb (length (pre ++ b)) low)) [
        | inl t ↦
            let less = ltb→lt (length (pre ++ b)) low t in
            run_waits cb low written pre b bs less
            ∙ run_reply cb next low need written (pre ++ b) more reply bs all less l n e
        | inr f ↦
            let enough : low ≤ length (pre ++ b) = ground (arith, f) in
            let (rest, now) =
              whole_or_more (pre ++ b) (flatten bs) reply all (omega (arith, l, enough)) in
            let called = ap (reacted written) (ap (call_read_cb host port c cb) now ∙ e) in
            run_calls cb low written pre b bs (talking next need (written ++ more) []) enough called
            ∙ run_nothing next need (written ++ more) [] bs rest n
      ]

  -- What comes behind the success is left in the input, in order.
  pub run_left :
      (written rest : Bytes) (d : CConnection) (bs : List Bytes)
      → run_session host port c (reads_all bs) (succeeded written rest d)
        ≡ some (succeeded written (rest ++ flatten bs) d)
  unfolding run_session step_session receive
  run_left written rest d [] = ap (λ r. some (succeeded written r d)) (sym (append-nil rest))
  run_left written rest d (b ∷ bs) =
      run_left written (rest ++ b) d bs
      ∙ ap (λ r. some (succeeded written r d)) (append_assoc rest b (flatten bs))
