-- ===== src/Socks/Session/Alive.antt =====
-- The assertion of `read_final` on the length of the input (src/bareproxy.cpp).
use libbtcnet.Base.{
  ℕ, ◌≤◌, List, [], ◌∷◌, ◌++◌, Option, none, some, ◌≡◌, refl, ◌∙◌, ltb, if◌then◌else◌, not, ◌&&◌,
  ◌||◌, ◌==◌, Bytes, length, Bool, true, false, Bool-cases, inl, inr, arith,
}
use libbtcnet.Connection.{CConnection}
use libbtcnet.Socks.{
  ReadCb, receive_init, check_auth_response, read_final, Reaction, goes_on, proxy_failure,
  proxy_success, on_receive_init, on_check_auth_response, on_read_final, writeproto, write_auth,
  send_request, send_auth, final_reply,
}
use libbtcnet.Socks.Session.Waits.{run_session-append}
use libbtcnet.Socks.Session.{
  raised, negotiate, negotiate-run_session, Session, talking, failed, succeeded, ProxyFlags,
  ProxyEvent, reads, raises, on_event_cb, receive, greeted, step_session, run_session, call_read_cb,
  react,
}

-- `read_final` waits for at least eight bytes.
abbrev Enough : ReadCb → ℕ → Type 0
Enough read_final low = 8 ≤ low
Enough _ low = Unit

abbrev Asks : Reaction → Type 0
Asks (goes_on next low written rest) = Enough next low
Asks _ = Unit

abbrev pub IsAlive : Session → Type 0
IsAlive (talking cb low written input) = Enough cb low
IsAlive _ = Unit

-- It failed or succeeded.
abbrev pub IsOver : Session → Type 0
IsOver (talking cb low written input) = ⊥
IsOver _ = Unit

if-Asks : (b : Bool) (x y : Reaction) → Asks x → Asks y → Asks (if b then x else y)
if-Asks true x y h k = h
if-Asks false x y h k = k

send_request-Asks : (o : Option Bytes) (rest : Bytes) → Asks (send_request o rest)
send_request-Asks none rest = tt
send_request-Asks (some r) rest = omega arith

send_auth-Asks : (o : Option Bytes) (rest : Bytes) → Asks (send_auth o rest)
send_auth-Asks none rest = tt
send_auth-Asks (some r) rest = tt

waits-Asks :
    (need : ℕ) (input rest : Bytes) (d : CConnection)
    → 8 ≤ length input
    → Asks
        (if ltb (length input) need then goes_on read_final need [] input else proxy_success rest d)
waits-Asks need input rest d h = elim (Bool-cases (ltb (length input) need)) [
  | inl t ↦ rw t (ground (arith, t, h))
  | inr f ↦ rw f tt
]

final_reply-Asks :
    (port : CConnection → ℕ) (c : CConnection) (v r t n : ℕ) (input : Bytes)
    → 8 ≤ length input
    → Asks (final_reply port c v r t n input)
final_reply-Asks port c v r t n input h = if-Asks (not (v == 5) || not (r == 0)) _ _ tt (
    if-Asks (t == 1) _ _ (waits-Asks _ input _ _ h) (
      if-Asks (t == 4) _ _ (waits-Asks _ input _ _ h)
        (if-Asks (t == 3) _ _ (waits-Asks _ input _ _ h) tt)))

-- The result of a callback is there and keeps the watermark.
abbrev Runs : Option Reaction → Type 0
Runs o = (r : Reaction) × (o ≡ some r) × Asks r

module _ (host : CConnection → Bytes) (port : CConnection → ℕ) (c : CConnection) where
  on_receive_init-Asks : (input : Bytes) → Asks (on_receive_init host port c input)
  unfolding on_receive_init
  on_receive_init-Asks (v ∷ m ∷ rest) = if-Asks (not (v == 5)) _ _ tt (
      if-Asks (m == 2) _ _ (send_auth-Asks (write_auth c.proxy.auth) rest)
        (send_request-Asks (writeproto host port c) rest))
  on_receive_init-Asks (v ∷ []) = tt
  on_receive_init-Asks [] = tt

  on_check_auth_response-Asks : (input : Bytes) → Asks (on_check_auth_response host port c input)
  unfolding on_check_auth_response
  on_check_auth_response-Asks (v ∷ s ∷ rest) =
      if-Asks (not (v == 1) && not (s == 0)) _ _ tt
        (send_request-Asks (writeproto host port c) rest)
  on_check_auth_response-Asks (v ∷ []) = tt
  on_check_auth_response-Asks [] = tt

  on_read_final-Runs : (input : Bytes) → 8 ≤ length input → Runs (on_read_final port c input)
  unfolding on_read_final
  on_read_final-Runs (v ∷ r ∷ s ∷ t ∷ n ∷ a ∷ b ∷ d ∷ rest) h =
      let input : Bytes = v ∷ r ∷ s ∷ t ∷ n ∷ a ∷ b ∷ d ∷ rest in
      (final_reply port c v r t n input, ground arith, final_reply-Asks port c v r t n input h)
  on_read_final-Runs _ h = absurd (omega arith)

  call_read_cb-Runs :
      (cb : ReadCb) (low : ℕ) (input : Bytes)
      → Enough cb low
      → low ≤ length input
      → Runs (call_read_cb host port c cb input)
  unfolding call_read_cb
  call_read_cb-Runs receive_init low input e h =
      (on_receive_init host port c input, refl, on_receive_init-Asks input)
  call_read_cb-Runs check_auth_response low input e h =
      (on_check_auth_response host port c input, refl, on_check_auth_response-Asks input)
  call_read_cb-Runs read_final low input e h = on_read_final-Runs input (omega arith)

  react-IsAlive : (w : Bytes) (r : Reaction) → Asks r → IsAlive (react w r)
  unfolding react
  react-IsAlive w (goes_on next low more rest) h = h
  react-IsAlive w proxy_failure h = tt
  react-IsAlive w (proxy_success rest d) h = tt

  step_session-IsAlive :
      (e : ProxyEvent) (s : Session)
      → IsAlive s
      → (t : Session) × (step_session host port c e s ≡ some t) × IsAlive t
  unfolding step_session receive on_event_cb
  step_session-IsAlive (reads b) (talking cb low w input) h =
      elim (Bool-cases (ltb (length (input ++ b)) low)) [
        | inl t ↦ (talking cb low w (input ++ b), ground (arith, t), h)
        | inr f ↦
            let (r, e, a) = call_read_cb-Runs cb low (input ++ b) h (ground (arith, f)) in
            (react w r, rw (f, e) refl, react-IsAlive w r a)
      ]
  step_session-IsAlive (raises f) (talking cb low w input) h =
      elim (Bool-cases (f.error || f.eof || f.timeout || f.connected)) [
        | inl t ↦ (failed w, rw t refl, tt)
        | inr g ↦ (talking cb low w input, rw g refl, h)
      ]
  step_session-IsAlive (reads b) (failed w) h = (failed w, refl, tt)
  step_session-IsAlive (raises f) (failed w) h = (failed w, refl, tt)
  step_session-IsAlive (reads b) (succeeded w r d) h = (succeeded w (r ++ b) d, refl, tt)
  step_session-IsAlive (raises f) (succeeded w r d) h = (succeeded w r d, refl, tt)

  run_session-IsAlive :
      (es : List ProxyEvent) (s : Session)
      → IsAlive s
      → (t : Session) × (run_session host port c es s ≡ some t) × IsAlive t
  unfolding run_session
  run_session-IsAlive [] s h = (s, refl, h)
  run_session-IsAlive (e ∷ es) s h =
      let (d, n, k) = step_session-IsAlive e s h in
      let (t, m, l) = run_session-IsAlive es d k in (t, rw (n, run_session) m, l)

  step_session-IsOver :
      (e : ProxyEvent) (s : Session)
      → IsOver s
      → (t : Session) × (step_session host port c e s ≡ some t) × IsOver t
  unfolding step_session receive on_event_cb
  step_session-IsOver e (talking cb low w input) h = absurd h
  step_session-IsOver (reads b) (failed w) h = (failed w, refl, tt)
  step_session-IsOver (raises f) (failed w) h = (failed w, refl, tt)
  step_session-IsOver (reads b) (succeeded w r d) h = (succeeded w (r ++ b) d, refl, tt)
  step_session-IsOver (raises f) (succeeded w r d) h = (succeeded w r d, refl, tt)

  run_session-IsOver :
      (es : List ProxyEvent) (s : Session)
      → IsOver s
      → (t : Session) × (run_session host port c es s ≡ some t) × IsOver t
  unfolding run_session
  run_session-IsOver [] s h = (s, refl, h)
  run_session-IsOver (e ∷ es) s h =
      let (d, n, k) = step_session-IsOver e s h in
      let (t, m, l) = run_session-IsOver es d k in (t, rw (n, run_session) m, l)

  on_event_cb-IsOver : (f : ProxyFlags) (s : Session) → raised f ≡ true → IsOver (on_event_cb f s)
  unfolding on_event_cb
  on_event_cb-IsOver f (talking cb low w input) h = rw h tt
  on_event_cb-IsOver f (failed w) h = tt
  on_event_cb-IsOver f (succeeded w r d) h = tt

  run_raises :
      (f : ProxyFlags) (fs : List ProxyEvent) (s : Session)
      → run_session host port c (raises f ∷ fs) s ≡ run_session host port c fs (on_event_cb f s)
  unfolding run_session step_session
  run_raises f fs s = refl

  -- With a proxy that is set: whatever comes from it, cut and ordered in any way, no assertion of the callbacks fails:
  -- `read_final` runs only on an input of eight bytes or more. Once an event has the error, the end,
  -- the timeout or the connection among its flags, the negotiation is over, and it stays over.
  pub run_raised :
      (es fs : List ProxyEvent) (f : ProxyFlags)
      → c.proxy.base.is_set ≡ true
      → raised f ≡ true
      → (t : Session) × (negotiate host port c (es ++ raises f ∷ fs) ≡ some t) × IsOver t
  run_raised es fs f set h =
      let (s, e, k) = run_session-IsAlive es (greeted c) tt in
      let (t, n, over) = run_session-IsOver fs (on_event_cb f s) (on_event_cb-IsOver f s h) in
      (
        t,
        negotiate-run_session host port c (es ++ raises f ∷ fs) set
            ∙ run_session-append host port c es (raises f ∷ fs) (greeted c) s e
            ∙ run_raises f fs s
            ∙ n,
        over,
      )
