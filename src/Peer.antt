-- ===== src/Peer.antt =====
-- A connection that is up (src/connectionbase.cpp): the calls of the application at the object, and
-- the callbacks that libevent calls. `none` is a failed assertion.
use libbtcnet.Base.{
  ℕ, zero, Bool, true, false, List, [], ◌∷◌, ◌++◌, Option, none, some, if◌then◌else◌, Bytes, length,
  is_empty,
}
use libbtcnet.Base.Int.{ℤ, pos}
use libbtcnet.Message
use libbtcnet.Message.{Outcome, ReadResult, out_of_fuel, abort, finished}
use libbtcnet.Channel.{
  ReadCb, no_callback, read_cb_chunk, read_cb_message, WriteCb, no_write_callback,
  close_on_finished_writecb, CRateLimit, Channel, shut, finish, is_full, watch_output,
  unwatch_output,
}
use libbtcnet.Object.{ConnectionBase}

-- What the object calls in the handler.
pub data LiveCall : Type 0 where
  receive_messages : List Bytes → ℕ → LiveCall
  malformed_message : LiveCall
  write_buffer_full : ℕ → LiveCall
  write_buffer_ready : ℕ → LiveCall
  bytes_read : ℕ → Option ℕ → LiveCall
  bytes_written : ℕ → Option ℕ → LiveCall
  ping_timeout : LiveCall

-- The object after an event, the calls that it made in order, and whether `DisconnectInt` ended it.
pub record Turn : Type 0 where
  pub object : ConnectionBase
  pub calls : List LiveCall
  pub closed : Bool

abbrev pub on_some {ℓ κ} : {A : Type ℓ} {B : Type κ} → (A → B) → Option A → Option B
on_some f none = none
on_some f (some a) = some (f a)

-- An operation on `m_bev`, which has to be there.
abbrev pub with_bev : ConnectionBase → (Channel → ConnectionBase) → Option ConnectionBase
with_bev c f = on_some f c.bev

-- `PauseRecv`, `UnpauseRecv`, `SetRateLimit`. `accepted` tells whether libevent takes the limits: the
-- wrapper of its answer asserts that it does.
abbrev pub pause_recv : ConnectionBase → Option ConnectionBase
pause_recv c = with_bev c (λ b. record c { bev = some (record b { read_enabled = false }) })

abbrev pub unpause_recv : ConnectionBase → Option ConnectionBase
unpause_recv c = with_bev c (λ b. record c { bev = some (record b { read_enabled = true }) })

abbrev pub set_rate_limit : Bool → CRateLimit → ConnectionBase → Option ConnectionBase
set_rate_limit accepted l c =
    if accepted
    then with_bev c (λ b. record c { bev = some (record b { rate_limit = some l }) })
    else none

-- `Disconnect` and `DisconnectWhenFinished`.
abbrev pub disconnect : ConnectionBase → ConnectionBase
disconnect c = record c { disconnect_active = true }

abbrev pub disconnect_when_finished : ConnectionBase → ConnectionBase
disconnect_when_finished c = record c { disconnect_wait_active = true }

-- `ResetPingTimeout`.
abbrev pub reset_ping_timeout : ℤ → ConnectionBase → ConnectionBase
reset_ping_timeout (pos zero) c = record c { ping_timeout = none }
reset_ping_timeout seconds c = record c { ping_timeout = some seconds }

-- `Write`. `accepted` tells whether `bufferevent_write` takes the bytes.
unfoldable pub write : Bool → Bytes → ConnectionBase → Option (ConnectionBase × Bool)
write accepted bytes c = elim c.bev [
  | none ↦ none
  | some b ↦ some (
      if accepted
      then (
        record c {
          bev = some (record b { output = b.output ++ bytes });
          check_write_buffer_active = true;
        },
        true,
      )
      else (c, false))
]

-- `DisconnectInt` up to the call of the handler.
unfoldable pub disconnect_int : ConnectionBase → Option ConnectionBase
disconnect_int c = elim c.bev [
  | none ↦ none
  | some b ↦ some (record c {
    bev = some (shut b);
    reconnect = none;
    disconnect_active = false;
    disconnect_wait_active = false;
    check_write_buffer_active = false;
    ping_timeout = none;
    first_data = elim c.first_data [ none ↦ none | some _ ↦ some false ];
  })
]

abbrev pub closing : List LiveCall → ConnectionBase → Option Turn
closing calls c =
    on_some (λ d. record { object = d; calls = calls; closed = true }) (disconnect_int c)

abbrev pub quiet : ConnectionBase → Turn
quiet c = record { object = c; calls = []; closed = false }

-- `DisconnectWhenFinishedInt`.
unfoldable pub disconnect_when_finished_int : ConnectionBase → Option Turn
unfolding disconnect_int
disconnect_when_finished_int c = elim c.bev [
  | none ↦ none
  | some b ↦
      if is_empty b.output
      then closing [] (record c { bev = some (shut b) })
      else some (quiet (record c { bev = some (finish b) }))
]

-- `CheckWriteBufferInt`.
unfoldable pub check_write_buffer_int : ConnectionBase → Option Turn
check_write_buffer_int c = elim c.bev [
  | none ↦ none
  | some b ↦ some (
      if is_full c.connection.opts b
      then record {
        object = record c { bev = some (watch_output c.read_cb_ptr b) };
        calls = write_buffer_full (length b.output) ∷ [];
        closed = false;
      }
      else quiet c)
]

-- `write_cb` and `close_on_finished_writecb`.
abbrev pub write_cb_at : WriteCb → Channel → ConnectionBase → Option Turn
write_cb_at no_write_callback b c = none
write_cb_at WriteCb.write_cb b c = some (record {
  object = record c { bev = some (unwatch_output c.read_cb_ptr b) };
  calls = write_buffer_ready (length b.output) ∷ [];
  closed = false;
})
write_cb_at close_on_finished_writecb b c = closing [] c

unfoldable pub run_write_cb : ConnectionBase → Option Turn
unfolding disconnect_int
run_write_cb c = elim c.bev [ none ↦ none | some b ↦ write_cb_at b.write_cb b c ]

-- The calls of a read callback of Message; `disconnect` is the call of `DisconnectInt`.
abbrev pub live_calls : List Message.Call → List LiveCall
live_calls [] = []
live_calls (Message.receive_messages ms n ∷ cs) = receive_messages ms n ∷ live_calls cs
live_calls (Message.malformed_message ∷ cs) = malformed_message ∷ live_calls cs
live_calls (Message.disconnect ∷ cs) = live_calls cs

abbrev pub disconnects : List Message.Call → Bool
disconnects [] = false
disconnects (Message.disconnect ∷ cs) = true
disconnects (Message.receive_messages ms n ∷ cs) = disconnects cs
disconnects (Message.malformed_message ∷ cs) = disconnects cs

-- The `bufferevent` behind a read callback.
abbrev pub with_rest : ReadResult → Channel → Channel
with_rest r b = record b {
  input = r.rest;
  read_low = elim r.watermark [ none ↦ b.read_low | some (low, high) ↦ low ];
  read_high = elim r.watermark [ none ↦ b.read_high | some (low, high) ↦ high ];
}

abbrev pub after_read : Channel → ConnectionBase → Outcome ReadResult → Option Turn
after_read b c out_of_fuel = none
after_read b c abort = none
after_read b c (finished r) =
    let d = record c { bev = some (with_rest r b) } in
    if disconnects r.calls
    then closing (live_calls r.calls) d
    else some (record { object = d; calls = live_calls r.calls; closed = false })

-- `read_cb_chunk` and `read_cb_message`, called by libevent.
abbrev pub read_cb_at : ReadCb → Channel → ConnectionBase → Option Turn
read_cb_at no_callback b c = none
read_cb_at read_cb_chunk b c =
    after_read b c (Message.read_cb_chunk c.connection.net_config b.input)
read_cb_at read_cb_message b c =
    after_read b c (Message.read_cb_message c.connection.net_config b.input)

unfoldable pub run_read_cb : ConnectionBase → Option Turn
unfolding disconnect_int
run_read_cb c = elim c.bev [ none ↦ none | some b ↦ read_cb_at b.read_cb b c ]
