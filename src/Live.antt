-- ===== src/Live.antt =====
-- The events of a connection that is up, and its runs: src/connectionbase.cpp. `none` is a failed
-- assertion.
pub mod Keeps
pub mod Healthy
pub mod Rest
pub mod Flow
pub mod Closing
pub mod Tests
use libbtcnet.Base.{
  ℕ, zero, suc, ◌+◌, ◌≤◌, Bool, true, false, ◌&&◌, List, [], ◌∷◌, ◌++◌, Option, none, some, ◌==◌,
  if◌then◌else◌, Bytes, length, drop, is_empty, is_some, leb,
}
use libbtcnet.Base.Int.{ℤ, pos}
use libbtcnet.Message
use libbtcnet.Message.{Outcome, ReadResult, out_of_fuel, abort, finished}
use libbtcnet.Channel.{
  ReadCb, no_callback, read_cb_chunk, read_cb_message, WriteCb, no_write_callback,
  close_on_finished_writecb, CRateLimit, Channel, set_timeouts, shut, finish, is_full, watch_output,
  unwatch_output,
}
use libbtcnet.Object.{ConnectionBase}
use libbtcnet.Transport.{read_data, wrote_data}
use libbtcnet.Peer.{
  LiveCall, Turn, after_read, bytes_read, bytes_written, check_write_buffer_int, closing,
  disconnect, disconnect_int, disconnect_when_finished, disconnect_when_finished_int, disconnects,
  live_calls, malformed_message, on_some, pause_recv, ping_timeout, quiet, read_cb_at,
  receive_messages, reset_ping_timeout, run_read_cb, run_write_cb, set_rate_limit, unpause_recv,
  with_bev, with_rest, write, write_buffer_full, write_buffer_ready, write_cb_at,
}

-- What libevent reports about a connection that is up: an event of the object is due, the connection
-- broke, bytes came or were written, or a watermark is reached.
pub data LiveEvent : Type 0 where
  disconnect_event disconnect_wait_event check_write_buffer_event ping_timeout_event : LiveEvent
  first_data_event broken : LiveEvent
  received : Bytes → LiveEvent
  read_ready : LiveEvent
  wrote : ℕ → LiveEvent
  write_ready : LiveEvent

abbrev pub is_added : Option Bool → Bool
is_added o = elim o [ none ↦ false | some b ↦ b ]

abbrev pub reads : ReadCb → Bool
reads r = elim r [ no_callback ↦ false | _ ↦ true ]

abbrev pub writes : WriteCb → Bool
writes w = elim w [ no_write_callback ↦ false | _ ↦ true ]

abbrev pub channel_raises : LiveEvent → Channel → Bool
channel_raises broken b = b.event_cb
channel_raises (received bytes) b = b.read_enabled
channel_raises read_ready b = b.read_enabled && reads b.read_cb && leb b.read_low (length b.input)
channel_raises (wrote n) b = b.write_enabled && leb n (length b.output)
channel_raises write_ready b =
    b.write_enabled && writes b.write_cb && leb (length b.output) b.write_low
channel_raises _ b = true

-- When libevent may report the event: its callback is set and what it reads is enabled, and the
-- buffer has reached its watermark; a timer was added, an event made active.
abbrev pub raises : LiveEvent → ConnectionBase → Bool
raises disconnect_event c = c.disconnect_active
raises disconnect_wait_event c = c.disconnect_wait_active
raises check_write_buffer_event c = c.check_write_buffer_active
raises ping_timeout_event c = is_some c.ping_timeout
raises first_data_event c = is_added c.first_data
raises e c = elim c.bev [ none ↦ false | some b ↦ channel_raises e b ]

-- `read_data` and `wrote_data`.
abbrev pub counted : (ℕ → Option ℕ → LiveCall) → ConnectionBase × List (ℕ × Option ℕ) → Turn
counted call p = record {
  object = p.0;
  calls = elim p.1 [ [] ↦ [] | (n, total) ∷ _ ↦ call n total ∷ [] ];
  closed = false;
}

-- The callback of an event. An event that is due is no longer active when its callback runs.
unfoldable pub run_live : LiveEvent → ConnectionBase → Option Turn
unfolding disconnect_int disconnect_when_finished_int check_write_buffer_int run_write_cb
    run_read_cb
run_live disconnect_event c = closing [] (record c { disconnect_active = false })
run_live disconnect_wait_event c =
    disconnect_when_finished_int (record c { disconnect_wait_active = false })
run_live check_write_buffer_event c =
    check_write_buffer_int (record c { check_write_buffer_active = false })
run_live ping_timeout_event c = some (record {
  object = record c { ping_timeout = none };
  calls = ping_timeout ∷ [];
  closed = false;
})
run_live first_data_event c =
    on_some (λ d. quiet d)
      (with_bev c
        (λ b. record c { bev = some (set_timeouts c.connection.opts b); first_data = some false }))
run_live broken c = closing [] c
run_live (received bytes) c =
    on_some (λ d. counted bytes_read (read_data (length bytes) d))
      (with_bev c (λ b. record c { bev = some (record b { input = b.input ++ bytes }) }))
run_live read_ready c = run_read_cb c
run_live (wrote n) c =
    on_some (λ d. counted bytes_written (wrote_data n d))
      (with_bev c (λ b. record c { bev = some (record b { output = drop n b.output }) }))
run_live write_ready c = run_write_cb c

-- What happens to a connection that is up: an event, or a call of the application.
pub data LiveAct : Type 0 where
  event : LiveEvent → LiveAct
  send : Bool → Bytes → LiveAct
  pause unpause : LiveAct
  limit : Bool → CRateLimit → LiveAct
  close : Bool → LiveAct
  ping : ℤ → LiveAct

unfoldable pub act : LiveAct → ConnectionBase → Option Turn
unfolding run_live write
act (event e) c = run_live e c
act (send accepted bytes) c = on_some (λ r. quiet r.0) (write accepted bytes c)
act pause c = on_some (λ d. quiet d) (pause_recv c)
act unpause c = on_some (λ d. quiet d) (unpause_recv c)
act (limit accepted l) c = on_some (λ d. quiet d) (set_rate_limit accepted l c)
act (close immediately) c =
    some (quiet (if immediately then disconnect c else disconnect_when_finished c))
act (ping seconds) c = some (quiet (reset_ping_timeout seconds c))

-- What comes behind a turn, unless the connection was closed.
abbrev pub then_run :
    Option Turn
    → (ConnectionBase → Option (ConnectionBase × List LiveCall))
    → Option (ConnectionBase × List LiveCall)
then_run none next = none
then_run (some t) next =
    if t.closed
    then some (t.object, t.calls)
    else on_some (λ r. (r.0, t.calls ++ r.1)) (next t.object)

-- One after the other, until the connection is closed: the object and all its calls.
pub run_acts : List LiveAct → ConnectionBase → Option (ConnectionBase × List LiveCall)
run_acts [] c = some (c, [])
run_acts (a ∷ rest) c = then_run (act a c) (λ d. run_acts rest d)
