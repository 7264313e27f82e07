-- ===== src/Socks/Session.antt =====
-- A negotiation with a proxy from `InitProxy` to its end (src/bareproxy.cpp), as libevent drives it:
-- what comes is added to the input, and the read callback runs if the input then is as long as the
-- read watermark. `none` is a failed assertion.
pub mod Alive
pub mod Waits
pub mod Reply
pub mod Finals
pub mod Answers
pub mod Tests
use libbtcnet.Base.{
  ℕ, Bool, List, [], ◌∷◌, ◌++◌, Option, none, some, ltb, ◌||◌, true, ◌≡◌, refl, if◌then◌else◌,
  Bytes, length,
}
use libbtcnet.Connection.{CConnection}
use libbtcnet.Socks.{
  ReadCb, receive_init, check_auth_response, read_final, Reaction, goes_on, proxy_failure,
  proxy_success, init_proxy, on_receive_init, on_check_auth_response, on_read_final,
}

-- The flags of an event that is not about reading.
pub record ProxyFlags : Type 0 where
  pub error : Bool
  pub eof : Bool
  pub timeout : Bool
  pub connected : Bool

-- What comes from the proxy's socket.
pub data ProxyEvent : Type 0 where
  reads : Bytes → ProxyEvent
  raises : ProxyFlags → ProxyEvent

-- Where a negotiation is, with all that it wrote: it has the bufferevent with its read callback, its
-- watermark and its input, or it freed the bufferevent and reported the failure, or it gave the
-- bufferevent with the input away with its success.
pub data Session : Type 0 where
  talking : (cb : ReadCb) (low : ℕ) (written input : Bytes) → Session
  failed : (written : Bytes) → Session
  succeeded : (written rest : Bytes) (resolved : CConnection) → Session

-- The session behind `InitProxy`, which asserts that there is a proxy.
abbrev pub greeted : CConnection → Session
greeted c = talking receive_init 2 (init_proxy c) []

-- `InitProxy`.
unfoldable pub init_session : CConnection → Option Session
init_session c = if c.proxy.base.is_set then some (greeted c) else none

-- What a reaction makes of the session; `ProxyFailure` frees the bufferevent.
unfoldable pub react : Bytes → Reaction → Session
react written (goes_on next low more rest) = talking next low (written ++ more) rest
react written proxy_failure = failed written
react written (proxy_success rest c) = succeeded written rest c

-- The test of `event_cb`.
abbrev pub raised : ProxyFlags → Bool
raised f = f.error || f.eof || f.timeout || f.connected

-- `event_cb`.
unfoldable pub on_event_cb : ProxyFlags → Session → Session
on_event_cb f (talking cb low written input) =
    if raised f then failed written else talking cb low written input
on_event_cb f s = s

-- The session with the result of a read callback.
abbrev pub reacted : Bytes → Option Reaction → Option Session
reacted written none = none
reacted written (some r) = some (react written r)

module _ (host : CConnection → Bytes) (port : CConnection → ℕ) (c : CConnection) where
  unfoldable pub call_read_cb : ReadCb → Bytes → Option Reaction
  unfolding on_receive_init on_check_auth_response on_read_final
  call_read_cb receive_init input = some (on_receive_init host port c input)
  call_read_cb check_auth_response input = some (on_check_auth_response host port c input)
  call_read_cb read_final input = on_read_final port c input

  -- More input. With the bufferevent given away it is left to the new owner.
  unfoldable pub receive : Bytes → Session → Option Session
  unfolding react call_read_cb
  receive chunk (talking cb low written input) =
      if ltb (length (input ++ chunk)) low
      then some (talking cb low written (input ++ chunk))
      else reacted written (call_read_cb cb (input ++ chunk))
  receive chunk (failed written) = some (failed written)
  receive chunk (succeeded written rest d) = some (succeeded written (rest ++ chunk) d)

  unfoldable pub step_session : ProxyEvent → Session → Option Session
  unfolding receive on_event_cb
  step_session (reads chunk) s = receive chunk s
  step_session (raises f) s = some (on_event_cb f s)

  unfoldable pub run_session : List ProxyEvent → Session → Option Session
  unfolding step_session
  run_session [] s = some s
  run_session (e ∷ es) s = elim (step_session e s) [ none ↦ none | some t ↦ run_session es t ]

  -- `InitProxy` and what comes then.
  abbrev pub negotiate : List ProxyEvent → Option Session
  negotiate es = elim (init_session c) [ none ↦ none | some s ↦ run_session es s ]

  pub negotiate-run_session :
      (es : List ProxyEvent)
      → c.proxy.base.is_set ≡ true
      → negotiate es ≡ run_session es (greeted c)
  unfolding init_session
  negotiate-run_session es h = rw h refl
