-- ===== src/Handler/Requests.antt =====
-- The handler's invariant through the calls of the application by id (src/handler.cpp,
-- src/interface.cpp).
use libbtcnet.Base.{
  ℕ, zero, suc, Bool, true, false, some, Option, ◌≡◌, ◌≢◌, refl, ap, subst, inl, inr, Option-cases,
  is_some, if◌then◌else◌, Bytes,
}
use libbtcnet.Base.Int.{ℤ, pos, negsuc}
use libbtcnet.Map.{lookup}
use libbtcnet.Map.Laws.{lookup-modify_ne}
use libbtcnet.Object.{ConnectionBase}
use libbtcnet.Channel.{Channel, CRateLimit}
use libbtcnet.Peer
use libbtcnet.Peer.{Turn, on_some}
use libbtcnet.Handler.State.{Handler}
use libbtcnet.Handler.Calls.{
  find_connected, set_connected, by_id, Request, ask_close, ask_pause, ask_unpause, ask_ping,
  ask_limit, ask_send, run_request, close_connection, pause_recv, unpause_recv, reset_ping_timeout,
  set_rate_limit, send,
}
use libbtcnet.Handler.Bound.{Bound}
use libbtcnet.Handler.Lives.{Continues, Bound-modify_connected, stands}

-- A call that the connections that stand never refuse.
abbrev pub Accepts : (ConnectionBase → Option ConnectionBase) → Type 0
Accepts op =
    (c : ConnectionBase)
    → is_some c.bev ≡ true
    → (d : ConnectionBase) × (op c ≡ some d) × Continues c d

-- The invariant, and every other connection as it was.
abbrev pub Touches : ℤ → Handler → Handler → Type 0
Touches id h g = (k : ℕ) → id ≢ pos k → lookup k g.connected ≡ lookup k h.connected

set_connected-Touches :
    (id : ℤ) (d : ConnectionBase) (h : Handler) → Touches id h (set_connected id d h)
set_connected-Touches (pos j) d h k ne =
    lookup-modify_ne j k (λ _. d) h.connected (λ e. ne (ap pos e))
set_connected-Touches (negsuc j) d h k ne = refl

set_connected-Bound :
    {n m : ℕ} {h : Handler} (id : ℤ) (c d : ConnectionBase)
    → find_connected id h ≡ some c
    → Continues c d
    → Bound n m h
    → Bound n m (set_connected id d h)
set_connected-Bound (pos k) c d e keeps b = Bound-modify_connected k c d e keeps b
set_connected-Bound (negsuc k) c d e keeps b = b

found_stands :
    {n m : ℕ} {h : Handler} (id : ℤ) (c : ConnectionBase)
    → find_connected id h ≡ some c
    → Bound n m h
    → is_some c.bev ≡ true
found_stands (pos k) c e b = stands k c e b
found_stands (negsuc k) c e b = cc e

by_id-Bound :
    {n m : ℕ} {h : Handler} (id : ℤ) (op : ConnectionBase → Option ConnectionBase)
    → Accepts op
    → Bound n m h
    → (g : Handler) × (by_id id op h ≡ some g) × Bound n m g × Touches id h g
by_id-Bound {h = h} id op accepts b = elim (Option-cases (find_connected id h)) [
  | inl e ↦ rw (e, by_id) (h, refl, b, λ k ne. refl)
  | inr (c, e) ↦
      let (d, done, keeps) = accepts c (found_stands id c e b) in
      rw (e, by_id, done)
        (_, refl, set_connected-Bound id c d e keeps b, set_connected-Touches id d h)
]

close-Accepts :
    (immediately : Bool)
    → Accepts
        (λ c. some (if immediately then Peer.disconnect c else Peer.disconnect_when_finished c))
close-Accepts true c up = (_, refl, (refl, refl, up))
close-Accepts false c up = (_, refl, (refl, refl, up))

-- An operation on the `bufferevent`.
with_bev-Accepts :
    (f : Channel → Channel) → Accepts (λ c. Peer.with_bev c (λ b. record c { bev = some (f b) }))
with_bev-Accepts f c up = elim (Option-cases c.bev) [
  | inl e ↦ cc (rw e at up)
  | inr (b, e) ↦ rw e (record c { bev = some (f b) }, refl, (refl, refl, refl))
]

reset_ping_timeout-Accepts : (s : ℤ) → Accepts (λ c. some (Peer.reset_ping_timeout s c))
reset_ping_timeout-Accepts (pos zero) c up = (_, refl, (refl, refl, up))
reset_ping_timeout-Accepts (pos (suc n)) c up = (_, refl, (refl, refl, up))
reset_ping_timeout-Accepts (negsuc n) c up = (_, refl, (refl, refl, up))

write-Accepts :
    (accepted : Bool) (bytes : Bytes) (c : ConnectionBase)
    → is_some c.bev ≡ true
    → (d : ConnectionBase) × (Peer.write accepted bytes c ≡ some (d, accepted)) × Continues c d
unfolding Peer.write
write-Accepts true bytes c up = elim (Option-cases c.bev) [
  | inl e ↦ cc (rw e at up)
  | inr (b, e) ↦ rw (e, Peer.write) (_, refl, (refl, refl, refl))
]
write-Accepts false bytes c up = elim (Option-cases c.bev) [
  | inl e ↦ cc (rw e at up)
  | inr (b, e) ↦ rw (e, Peer.write) (c, refl, (refl, refl, up))
]

-- What a call by id comes to.
abbrev pub Answers : ℕ → ℕ → ℤ → Handler → Option (Handler × Bool) → Type 0
Answers n m id h o =
    (g : Handler) × (said : Bool) × (o ≡ some (g, said))
    × Bound n m g
    × Touches id h g
    × (said ≡ true → is_some (find_connected id h) ≡ true)

quiet-Answers :
    {n m : ℕ} {h : Handler} (id : ℤ) (op : ConnectionBase → Option ConnectionBase)
    → Accepts op
    → Bound n m h
    → Answers n m id h (on_some (λ g. (g, false)) (by_id id op h))
quiet-Answers {h = h} id op accepts b =
    let (g, done, b', others) = by_id-Bound id op accepts b in
    rw done (g, false, refl, b', others, λ e. cc e)

send-Answers :
    {n m : ℕ} {h : Handler} (id : ℤ) (accepted : Bool) (bytes : Bytes)
    → Bound n m h
    → Answers n m id h (send id accepted bytes h)
unfolding send
send-Answers {h = h} id accepted bytes b = elim (Option-cases (find_connected id h)) [
  | inl e ↦ rw (e, send) (h, false, refl, b, λ k ne. refl, λ x. cc x)
  | inr (c, e) ↦
      let (d, done, keeps) = write-Accepts accepted bytes c (found_stands id c e b) in
      rw (e, send, done)
        (
          _,
          accepted,
          refl,
          set_connected-Bound id c d e keeps b,
          set_connected-Touches id d h,
          λ x. refl,
        )
]

-- libevent accepts the limits of a rate limit: it wants rates of at least 1 that are not above their
-- bursts.
abbrev pub Accepted : Request → Type 0
Accepted (ask_limit accepted l) = accepted ≡ true
Accepted _ = Unit

-- The calls by id never fail an assertion on a handler that satisfies its invariant, whatever the id,
-- if libevent accepts the limits that a call sets: they keep the invariant, leave every other
-- connection as it was, and answer `true` only if a connection of that id stands.
pub run_request-Answers :
    {n m : ℕ} {h : Handler} (id : ℤ) (r : Request)
    → Accepted r
    → Bound n m h
    → Answers n m id h (run_request id r h)
unfolding run_request close_connection pause_recv unpause_recv reset_ping_timeout set_rate_limit
run_request-Answers id (ask_close immediately) a b =
    quiet-Answers id _ (close-Accepts immediately) b
run_request-Answers id ask_pause a b =
    quiet-Answers id Peer.pause_recv (with_bev-Accepts (λ x. record x { read_enabled = false })) b
run_request-Answers id ask_unpause a b =
    quiet-Answers id Peer.unpause_recv (with_bev-Accepts (λ x. record x { read_enabled = true })) b
run_request-Answers id (ask_ping seconds) a b =
    quiet-Answers id _ (reset_ping_timeout-Accepts seconds) b
run_request-Answers id (ask_limit true l) a b =
    quiet-Answers id (Peer.set_rate_limit true l)
      (with_bev-Accepts (λ x. record x { rate_limit = some l })) b
run_request-Answers id (ask_limit false l) a b = absurd (cc a)
run_request-Answers id (ask_send accepted bytes) a b = send-Answers id accepted bytes b

-- A call that is answered kept the invariant, whether it had to be accepted or not.
refused-Bound :
    {n m : ℕ} {h g : Handler} (id : ℤ) (l : CRateLimit) (said : Bool)
    → run_request id (ask_limit false l) h ≡ some (g, said)
    → Bound n m h
    → Bound n m g
unfolding run_request set_rate_limit
refused-Bound {n} {m} {h} {g} id l said e b = elim (Option-cases (find_connected id h)) [
  | inl x ↦ subst (Bound n m) (cc (rw (x, by_id) at e)) b
  | inr (c, x) ↦ cc (rw (x, by_id) at e)
]

answered-Bound :
    {n m : ℕ} {h g : Handler} (id : ℤ) (r : Request) (said : Bool)
    → Accepted r
    → run_request id r h ≡ some (g, said)
    → Bound n m h
    → Bound n m g
answered-Bound {n} {m} {h} {g} id r said a e b =
    let (f, answer, done, b', _, _) = run_request-Answers id r a b in
    let same : f ≡ g = cc in subst (Bound n m) same b'

pub run_request-Bound :
    {n m : ℕ} {h g : Handler} (id : ℤ) (r : Request) (said : Bool)
    → run_request id r h ≡ some (g, said)
    → Bound n m h
    → Bound n m g
run_request-Bound id (ask_limit true l) said e b =
    answered-Bound id (ask_limit true l) said refl e b
run_request-Bound id (ask_limit false l) said e b = refused-Bound id l said e b
run_request-Bound id (ask_close x) said e b = answered-Bound id (ask_close x) said tt e b
run_request-Bound id ask_pause said e b = answered-Bound id ask_pause said tt e b
run_request-Bound id ask_unpause said e b = answered-Bound id ask_unpause said tt e b
run_request-Bound id (ask_ping x) said e b = answered-Bound id (ask_ping x) said tt e b
run_request-Bound id (ask_send x y) said e b = answered-Bound id (ask_send x y) said tt e b
