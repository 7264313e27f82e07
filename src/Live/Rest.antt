-- ===== src/Live/Rest.antt =====
-- What an event of a connection that is up leaves alone of the way on which it came up.
use libbtcnet.Base.{Option, none, some, sym, subst, Option-cases, inl, inr, arith}
use libbtcnet.Message
use libbtcnet.Message.{Outcome, ReadResult, out_of_fuel, abort, finished}
use libbtcnet.Channel.{Channel, ReadCb, no_callback, read_cb_chunk, read_cb_message}
use libbtcnet.Object.{ConnectionBase}
use libbtcnet.Transport.{read_data, wrote_data}
use libbtcnet.Transport.Phases.{AtRest}
use libbtcnet.Peer.{
  Turn, disconnect_int, disconnect_when_finished_int, check_write_buffer_int, run_write_cb,
  run_read_cb, after_read, read_cb_at,
}
use libbtcnet.Live.{
  LiveEvent, disconnect_event, disconnect_wait_event, check_write_buffer_event, ping_timeout_event,
  first_data_event, broken, received, read_ready, wrote, write_ready, run_live,
}
use libbtcnet.Live.Keeps.{run_read_cb-bev}

abbrev pub Rests : Option Turn → Type 0
Rests none = Unit
Rests (some t) = AtRest t.object

after_read-Rests :
    (b : Channel) (c : ConnectionBase) (o : Outcome ReadResult)
    → AtRest c
    → Rests (after_read b c o)
unfolding disconnect_int
after_read-Rests b c out_of_fuel r = tt
after_read-Rests b c abort r = tt
after_read-Rests b c (finished o) r = ground arith

read_cb_at-Rests :
    (k : ReadCb) (b : Channel) (c : ConnectionBase) → AtRest c → Rests (read_cb_at k b c)
read_cb_at-Rests no_callback b c r = tt
read_cb_at-Rests read_cb_chunk b c r =
    after_read-Rests b c (Message.read_cb_chunk c.connection.net_config b.input) r
read_cb_at-Rests read_cb_message b c r =
    after_read-Rests b c (Message.read_cb_message c.connection.net_config b.input) r

run_read_cb-Rests : (c : ConnectionBase) → AtRest c → Rests (run_read_cb c)
unfolding run_read_cb
run_read_cb-Rests c r = elim (Option-cases c.bev) [
  | inl e ↦ rw (e, run_read_cb) tt
  | inr (b, e) ↦ subst Rests (sym (run_read_cb-bev c b e)) (read_cb_at-Rests b.read_cb b c r)
]

-- Every event of a connection that is up leaves it at rest, as far as its class is concerned.
pub run_live-Rests : (e : LiveEvent) (c : ConnectionBase) → AtRest c → Rests (run_live e c)
unfolding run_live disconnect_int disconnect_when_finished_int check_write_buffer_int run_write_cb
    read_data wrote_data
run_live-Rests disconnect_event c r = ground arith
run_live-Rests disconnect_wait_event c r = ground arith
run_live-Rests check_write_buffer_event c r = ground arith
run_live-Rests ping_timeout_event c r = r
run_live-Rests first_data_event c r = ground arith
run_live-Rests broken c r = ground arith
run_live-Rests (received l) c r = ground arith
run_live-Rests read_ready c r = run_read_cb-Rests c r
run_live-Rests (wrote n) c r = ground arith
run_live-Rests write_ready c r = ground arith
