-- ===== src/Live/Flow.antt =====
-- Flow control: `CheckWriteBufferInt` and `write_cb` (src/connectionbase.cpp) over a whole run.
use libbtcnet.Base.{
  zero, suc, Bool, true, false, ◌&&◌, List, [], ◌∷◌, ◌++◌, Option, none, some, ◌≡◌, refl, sym,
  subst, inl, inr, Option-cases, Bool-cases, if◌then◌else◌, arith,
}
use libbtcnet.Base.Int.{pos, negsuc}
use libbtcnet.Message
use libbtcnet.Message.{Outcome, ReadResult, out_of_fuel, abort, finished}
use libbtcnet.Channel.{
  Channel, ReadCb, no_callback, read_cb_chunk, read_cb_message, WriteCb, no_write_callback,
  close_on_finished_writecb,
}
use libbtcnet.Object.{ConnectionBase}
use libbtcnet.Transport.{read_data, wrote_data}
use libbtcnet.Peer.{
  LiveCall, write_buffer_full, write_buffer_ready, Turn, disconnect_int,
  disconnect_when_finished_int, check_write_buffer_int, run_write_cb, run_read_cb, after_read,
  read_cb_at, write_cb_at, live_calls, disconnects, write,
}
use libbtcnet.Live.{
  LiveEvent, disconnect_event, disconnect_wait_event, check_write_buffer_event, ping_timeout_event,
  first_data_event, broken, received, read_ready, wrote, write_ready, run_live, LiveAct, event,
  send, pause, unpause, limit, close, ping, act, then_run, run_acts,
}

-- The call leaves the application told that the buffer is full, or not.
abbrev pub told_full : Bool → LiveCall → Bool
told_full w (write_buffer_full n) = true
told_full w (write_buffer_ready n) = false
told_full w call = w

-- The buffer is reported as ready only to an application that was told that it is full.
abbrev pub call_ok : Bool → LiveCall → Bool
call_ok w (write_buffer_ready n) = w
call_ok w call = true

abbrev pub flow_end : Bool → List LiveCall → Bool
flow_end w [] = w
flow_end w (k ∷ ks) = flow_end (told_full w k) ks

abbrev pub flow_ok : Bool → List LiveCall → Bool
flow_ok w [] = true
flow_ok w (k ∷ ks) = call_ok w k && flow_ok (told_full w k) ks

abbrev pub is_watch : WriteCb → Bool
is_watch WriteCb.write_cb = true
is_watch no_write_callback = false
is_watch close_on_finished_writecb = false

-- `write_cb` is set.
abbrev pub watching : ConnectionBase → Bool
watching c = elim c.bev [ none ↦ false | some b ↦ is_watch b.write_cb ]

-- While `write_cb` is set, the application was told that the buffer is full.
abbrev pub Knows : Bool → ConnectionBase → Type 0
Knows w c = (if watching c then w else true) ≡ true

abbrev pub FlowOk : Bool → Option Turn → Type 0
FlowOk w none = Unit
FlowOk w (some t) = (flow_ok w t.calls ≡ true) × Knows (flow_end w t.calls) t.object

live_calls-flow :
    (w : Bool) (ks : List Message.Call)
    → (flow_ok w (live_calls ks) ≡ true) × (flow_end w (live_calls ks) ≡ w)
live_calls-flow w [] = (refl, refl)
live_calls-flow w (Message.receive_messages ms n ∷ ks) = live_calls-flow w ks
live_calls-flow w (Message.malformed_message ∷ ks) = live_calls-flow w ks
live_calls-flow w (Message.disconnect ∷ ks) = live_calls-flow w ks

module _ (c : ConnectionBase) (b : Channel) (w : Bool)
    (k : (if is_watch b.write_cb then w else true) ≡ true) where
  abbrev up : ConnectionBase
  up = record c { bev = some b }

  after_read-FlowOk : (o : Outcome ReadResult) → FlowOk w (after_read b up o)
  unfolding disconnect_int
  after_read-FlowOk out_of_fuel = tt
  after_read-FlowOk abort = tt
  after_read-FlowOk (finished r) =
      let (ok, same) = live_calls-flow w r.calls in
      elim (Bool-cases (disconnects r.calls)) [
        | inl e ↦ rw e (ok, refl)
        | inr e ↦ rw e (ok, rw same k)
      ]

  read_cb_at-FlowOk : (r : ReadCb) → FlowOk w (read_cb_at r b up)
  read_cb_at-FlowOk no_callback = tt
  read_cb_at-FlowOk read_cb_chunk =
      after_read-FlowOk (Message.read_cb_chunk c.connection.net_config b.input)
  read_cb_at-FlowOk read_cb_message =
      after_read-FlowOk (Message.read_cb_message c.connection.net_config b.input)

  write_cb_at-FlowOk : (x : WriteCb) → b.write_cb ≡ x → FlowOk w (write_cb_at x b up)
  unfolding disconnect_int
  write_cb_at-FlowOk no_write_callback e = tt
  write_cb_at-FlowOk WriteCb.write_cb e = (ground arith, refl)
  write_cb_at-FlowOk close_on_finished_writecb e = (refl, refl)

  run_live-FlowOk-up : (e : LiveEvent) → FlowOk w (run_live e up)
  unfolding run_live disconnect_int disconnect_when_finished_int check_write_buffer_int run_write_cb
      run_read_cb read_data wrote_data
  run_live-FlowOk-up disconnect_event = (refl, refl)
  run_live-FlowOk-up disconnect_wait_event = ground arith
  run_live-FlowOk-up check_write_buffer_event = ground arith
  run_live-FlowOk-up ping_timeout_event = (refl, k)
  run_live-FlowOk-up first_data_event = (refl, k)
  run_live-FlowOk-up broken = (refl, refl)
  run_live-FlowOk-up (received l) = ground arith
  run_live-FlowOk-up read_ready = read_cb_at-FlowOk b.read_cb
  run_live-FlowOk-up (wrote n) = ground arith
  run_live-FlowOk-up write_ready = write_cb_at-FlowOk b.write_cb refl

  act-FlowOk-up : (a : LiveAct) → FlowOk w (act a up)
  unfolding act write
  act-FlowOk-up (event e) = run_live-FlowOk-up e
  act-FlowOk-up (send accepted bytes) = ground arith
  act-FlowOk-up pause = (refl, k)
  act-FlowOk-up unpause = (refl, k)
  act-FlowOk-up (limit accepted l) = ground arith
  act-FlowOk-up (close immediately) = ground arith
  act-FlowOk-up (ping (pos zero)) = (refl, k)
  act-FlowOk-up (ping (pos (suc n))) = (refl, k)
  act-FlowOk-up (ping (negsuc n)) = (refl, k)

-- Without a `bufferevent` nothing is said about the buffer.
module _ (c : ConnectionBase) (w : Bool) where
  abbrev down : ConnectionBase
  down = record c { bev = none }

  run_live-FlowOk-down : (e : LiveEvent) → FlowOk w (run_live e down)
  unfolding run_live disconnect_int disconnect_when_finished_int check_write_buffer_int run_write_cb
      run_read_cb
  run_live-FlowOk-down ping_timeout_event = (refl, refl)
  run_live-FlowOk-down disconnect_event = tt
  run_live-FlowOk-down disconnect_wait_event = tt
  run_live-FlowOk-down check_write_buffer_event = tt
  run_live-FlowOk-down first_data_event = tt
  run_live-FlowOk-down broken = tt
  run_live-FlowOk-down (received l) = tt
  run_live-FlowOk-down read_ready = tt
  run_live-FlowOk-down (wrote n) = tt
  run_live-FlowOk-down write_ready = tt

  act-FlowOk-down : (a : LiveAct) → FlowOk w (act a down)
  unfolding act write
  act-FlowOk-down (event e) = run_live-FlowOk-down e
  act-FlowOk-down (send accepted bytes) = tt
  act-FlowOk-down pause = tt
  act-FlowOk-down unpause = tt
  act-FlowOk-down (limit accepted l) = ground arith
  act-FlowOk-down (close immediately) = ground arith
  act-FlowOk-down (ping (pos zero)) = (refl, refl)
  act-FlowOk-down (ping (pos (suc n))) = (refl, refl)
  act-FlowOk-down (ping (negsuc n)) = (refl, refl)

act-FlowOk : (w : Bool) (a : LiveAct) (c : ConnectionBase) → Knows w c → FlowOk w (act a c)
act-FlowOk w a c k = elim (Option-cases c.bev) [
  | inl e ↦
      subst (λ x. FlowOk w (act a x)) (λ i. record c { bev = sym e i }) (act-FlowOk-down c w a)
  | inr (b, e) ↦
      let same : record c { bev = some b } ≡ c = λ i. record c { bev = sym e i } in
      subst (λ x. FlowOk w (act a x)) same (act-FlowOk-up c b w (subst (Knows w) (sym same) k) a)
]

flow_end-append :
    (w : Bool) (ks ls : List LiveCall) → flow_end w (ks ++ ls) ≡ flow_end (flow_end w ks) ls
flow_end-append w [] ls = refl
flow_end-append w (k ∷ ks) ls = flow_end-append (told_full w k) ks ls

and_both : (a b : Bool) → (a && b) ≡ true → (a ≡ true) × (b ≡ true)
and_both true true h = (refl, refl)
and_both true false h = cc h
and_both false b h = cc h

flow_ok-append :
    (w : Bool) (ks ls : List LiveCall)
    → flow_ok w ks ≡ true
    → flow_ok (flow_end w ks) ls ≡ true
    → flow_ok w (ks ++ ls) ≡ true
flow_ok-append w [] ls p q = q
flow_ok-append w (k ∷ ks) ls p q =
    let (here, later) = and_both (call_ok w k) (flow_ok (told_full w k) ks) p in
    rw here (flow_ok-append (told_full w k) ks ls later q)

abbrev pub RunFlow : Bool → Option (ConnectionBase × List LiveCall) → Type 0
RunFlow w none = Unit
RunFlow w (some r) = flow_ok w r.1 ≡ true

-- What follows a turn is told to an application that knows what the turn told it.
then_run-flow :
    (w : Bool) (o : Option Turn) (next : ConnectionBase → Option (ConnectionBase × List LiveCall))
    → FlowOk w o
    → ((v : Bool) (d : ConnectionBase) → Knows v d → RunFlow v (next d))
    → RunFlow w (then_run o next)
then_run-flow w none next flow go = tt
then_run-flow w (some t) next (ok, knows) go = elim (Bool-cases t.closed) [
  | inl e ↦ rw e ok
  | inr e ↦ elim (Option-cases (next t.object)) [
    | inl n ↦ rw (e, n) tt
    | inr ((d, later), n) ↦
        rw (e, n)
          (flow_ok-append w t.calls later ok
            (subst (RunFlow (flow_end w t.calls)) n (go (flow_end w t.calls) t.object knows)))
  ]
]

run_acts-flow :
    (w : Bool) (acts : List LiveAct) (c : ConnectionBase) → Knows w c → RunFlow w (run_acts acts c)
unfolding run_acts
run_acts-flow w [] c k = refl
run_acts-flow w (a ∷ rest) c k =
    then_run-flow w (act a c) (λ d. run_acts rest d) (act-FlowOk w a c k)
      (λ v d. run_acts-flow v rest d)

-- However events and calls of the application follow one another on a connection that is up, as
-- long as no assertion fails, the application is told that the write buffer is ready only if it was
-- told that the buffer is full and not yet that it is ready again, provided that `write_cb` is not
-- set at first.
pub run_acts-alternates :
    (acts : List LiveAct) (c d : ConnectionBase) (calls : List LiveCall)
    → watching c ≡ false
    → run_acts acts c ≡ some (d, calls)
    → flow_ok false calls ≡ true
run_acts-alternates acts c d calls off run =
    subst (RunFlow false) run (run_acts-flow false acts c (rw off refl))
