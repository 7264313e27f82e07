-- ===== src/Live/Tests.antt =====
-- A connection that is up, and the theorems about it.
use libbtcnet.Base.{true, false, [], ◌∷◌, some, none, ◌≡◌, refl, inr, List, Bytes, arith}
use libbtcnet.Base.Int.{pos}
use libbtcnet.Connection.Samples.{options, direct_conn}
use libbtcnet.Connection.{CConnection}
use libbtcnet.Channel.{
  Channel, outgoing_rate_limit, init_channel, enable_channel, no_write_callback, finish,
  read_cb_message,
}
use libbtcnet.Object.{ConnectionBase, new_connection, direct}
use libbtcnet.Transport.{wrote_data, add_bytes}
use libbtcnet.Peer.{
  LiveCall, bytes_written, check_write_buffer_int, run_write_cb, write_buffer_full,
  write_buffer_ready, write,
}
use libbtcnet.Live.{
  raises, LiveAct, event, send, check_write_buffer_event, received, wrote, write_ready, run_live,
  run_acts, act,
}
use libbtcnet.Live.Healthy.{Runs, run_live-Healthy}
use libbtcnet.Live.Flow.{flow_ok, run_acts-alternates}
use libbtcnet.Live.Closing.{writes_all, check_write_buffer_int-forgets}

-- Two bytes fill the write buffer.
abbrev small_conn : CConnection
small_conn = record direct_conn { opts = record options { max_send_buffer = pos 2 } }

abbrev channel : Channel
channel = enable_channel outgoing_rate_limit (init_channel small_conn [])

abbrev live : ConnectionBase
live = record (new_connection direct small_conn 0 none) {
  bev = some channel;
  read_cb_ptr = read_cb_message;
  first_data = some true;
}

abbrev bytes : Bytes
bytes = 1 ∷ 2 ∷ 3 ∷ []

-- With something to write, and then on the way out.
abbrev busy : ConnectionBase
busy = record live { bev = some (record channel { output = bytes }) }

abbrev leaving : Channel
leaving = finish (record channel { output = bytes })

-- Something was sent, so that the buffer is to be checked.
abbrev sending : ConnectionBase
sending = record live { bev = some leaving; check_write_buffer_active = true }

check_write_buffer_int-forgets_example :
    (d : ConnectionBase) × (calls : List LiveCall) × (run_acts
        (event check_write_buffer_event ∷ writes_all (2 ∷ 1 ∷ []))
        sending
      ≡ some (d, calls))
    × (raises write_ready d ≡ true)
    × (e : ConnectionBase) × (y : Channel) × (run_acts (event write_ready ∷ []) d
        ≡ some (e, write_buffer_ready 0 ∷ []))
    × (e.bev ≡ some y)
    × (y.output ≡ [])
    × (y.write_cb ≡ no_write_callback)
    × (y.write_enabled ≡ true)
unfolding init_channel new_connection
check_write_buffer_int-forgets_example =
    check_write_buffer_int-forgets (2 ∷ 1 ∷ []) sending leaving refl refl refl refl refl refl refl

-- The application fills the buffer, and libevent writes it.
abbrev filled : List LiveAct
filled = send true bytes ∷ event check_write_buffer_event ∷ event (wrote 2) ∷ event write_ready ∷ []

run_acts-filled :
    run_acts filled live
    ≡ some (
      record live {
        bev = some (record channel { output = 3 ∷ []; read_cb = read_cb_message; event_cb = true });
        check_write_buffer_active = false;
      },
      write_buffer_full 3 ∷ bytes_written 2 none ∷ write_buffer_ready 1 ∷ [],
    )
unfolding run_acts act write run_live check_write_buffer_int run_write_cb wrote_data new_connection
    init_channel add_bytes
run_acts-filled = refl

run_acts-alternates_example :
    flow_ok false (write_buffer_full 3 ∷ bytes_written 2 none ∷ write_buffer_ready 1 ∷ []) ≡ true
unfolding init_channel new_connection
run_acts-alternates_example = run_acts-alternates filled live _ _ refl run_acts-filled

run_live-Healthy_example : Runs (received (249 ∷ [])) live
unfolding init_channel new_connection
run_live-Healthy_example =
    run_live-Healthy (received (249 ∷ [])) live channel
      (record {
        here = refl;
        suits = record {
          size_is_four = refl;
          start_fits = omega arith;
          header_covers = omega arith;
          header_int = omega arith;
        };
        callback = inr refl;
        bytes = tt;
      })
      (omega arith, tt) refl
