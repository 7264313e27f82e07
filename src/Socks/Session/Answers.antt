-- ===== src/Socks/Session/Answers.antt =====
-- A whole negotiation with a proxy that follows the standard (src/bareproxy.cpp).
use libbtcnet.Base.{
  ℕ, List, [], ◌∷◌, ◌++◌, Option, some, ◌≡◌, refl, sym, ap, ◌∙◌, if◌then◌else◌, Bytes, flatten,
  append-nil, Bool, true, false, arith,
}
use libbtcnet.Connection.{CConnection}
use libbtcnet.Socks.{
  receive_init, check_auth_response, read_final, init_proxy, write_auth, writeproto,
  on_receive_init, on_check_auth_response,
}
use libbtcnet.Socks.Session.{
  talking, succeeded, greeted, run_session, call_read_cb, negotiate, negotiate-run_session,
}
use libbtcnet.Socks.Session.Waits.{reads_all, run_session-append, run_nothing, run_reply}
use libbtcnet.Socks.Session.Reply.{
  FinalReply, reply_bytes, reply_size, Fits, reported, reply_bytes_rest,
}
use libbtcnet.Socks.Session.Finals.{reply_bytes-Waits, run_final}

-- The method that the proxy chooses, with a name and a password or without.
abbrev pub method_reply : Bool → Bytes
method_reply with_auth = 5 ∷ (if with_auth then 2 else 0) ∷ []

-- It accepts the name and the password.
abbrev pub auth_reply : Bool → Bytes
auth_reply with_auth = if with_auth then 1 ∷ 0 ∷ [] else []

-- What is sent to authenticate.
abbrev pub auth_request : CConnection → Bool → Option Bytes
auth_request c true = write_auth c.proxy.auth
auth_request c false = some []

module _ (host : CConnection → Bytes) (port : CConnection → ℕ) (c : CConnection) where
  chooses :
      (methods : List Bytes) (auths : List Bytes) (with_auth : Bool) (out req : Bytes)
      → flatten methods ≡ method_reply with_auth
      → flatten auths ≡ auth_reply with_auth
      → auth_request c with_auth ≡ some out
      → writeproto host port c ≡ some req
      → run_session host port c (reads_all methods ++ reads_all auths) (greeted c)
        ≡ some (talking read_final 8 (init_proxy c ++ out ++ req) [])
  unfolding call_read_cb on_receive_init on_check_auth_response
  chooses methods auths true out req m a o w =
      run_session-append host port c (reads_all methods) (reads_all auths) (greeted c)
        (talking check_auth_response 2 (init_proxy c ++ out) [])
        (run_reply host port c receive_init check_auth_response 2 2 (init_proxy c) [] out
          (method_reply true) methods m (omega arith) refl (omega arith) (rw o refl))
      ∙ run_reply host port c check_auth_response read_final 2 8 (init_proxy c ++ out) [] req
          (auth_reply true) auths a (omega arith) refl (omega arith) (rw w refl)
  chooses methods auths false out req m a o w =
      let written = init_proxy c ++ req in
      run_session-append host port c (reads_all methods) (reads_all auths) (greeted c)
        (talking read_final 8 written [])
        (run_reply host port c receive_init read_final 2 8 (init_proxy c) [] req
          (method_reply false) methods m (omega arith) refl (omega arith) (rw w refl))
      ∙ run_nothing host port c read_final 8 written [] auths a (omega arith)
      ∙ ap (λ v. some (talking read_final 8 (v ++ req) []))
          (sym (append-nil (init_proxy c)) ∙ ap (◌++◌ (init_proxy c)) (cc o))

  -- With a proxy that is set and follows the standard, with or without authentication, a negotiation
  -- whose requests can be written ends in success however the replies are cut into pieces: it wrote
  -- the greeting, the authentication and the request, the input has exactly what came behind the last
  -- reply, and a lookup is answered with the address of that reply. The last reply has an address of
  -- the size of its family or a name of 1 to 127 bytes.
  pub run_standard :
      (with_auth : Bool) (methods auths answers : List Bytes) (out req : Bytes) (r : FinalReply)
      → (rsv hi lo : ℕ) (rest : Bytes) → c.proxy.base.is_set ≡ true
      → flatten methods ≡ method_reply with_auth
      → flatten auths ≡ auth_reply with_auth
      → flatten answers ≡ reply_bytes r rsv hi lo rest
      → auth_request c with_auth ≡ some out
      → writeproto host port c ≡ some req
      → Fits r
      → negotiate host port c ((reads_all methods ++ reads_all auths) ++ reads_all answers)
        ≡ some (succeeded (init_proxy c ++ out ++ req) rest (reported port c r))
  run_standard with_auth methods auths answers out req r rsv hi lo rest set m a f o w fits =
      let written = init_proxy c ++ out ++ req in
      let (whole, eight, behind) = reply_bytes_rest r rsv hi lo rest fits in
      negotiate-run_session host port c
        ((reads_all methods ++ reads_all auths) ++ reads_all answers) set
      ∙ run_session-append host port c (reads_all methods ++ reads_all auths) (reads_all answers)
          (greeted c) (talking read_final 8 written [])
          (chooses methods auths with_auth out req m a o w)
      ∙ run_final host port c (reported port c r) 8 (reply_size r) written []
          (reply_bytes r rsv hi lo rest) answers (reply_bytes-Waits port c r rsv hi lo rest fits)
          (omega arith) eight whole f (omega arith)
      ∙ ap (λ b. some (succeeded written b (reported port c r))) behind
