-- ===== src/Live/Keeps.antt =====
-- What an event of a connection that is up leaves alone.
use libbtcnet.Base.{
  true, Option, none, some, ◌≡◌, sym, ap, subst, Option-cases, inl, inr, is_some, arith,
}
use libbtcnet.Message
use libbtcnet.Message.{Outcome, ReadResult, out_of_fuel, abort, finished}
use libbtcnet.Channel.{Channel, ReadCb, no_callback, read_cb_chunk, read_cb_message}
use libbtcnet.Object.{ConnectionBase}
use libbtcnet.Transport.{read_data, wrote_data}
use libbtcnet.Peer.{
  Turn, disconnect_int, disconnect_when_finished_int, check_write_buffer_int, run_write_cb,
  run_read_cb, after_read, read_cb_at,
}
use libbtcnet.Live.{
  LiveEvent, disconnect_event, disconnect_wait_event, check_write_buffer_event, ping_timeout_event,
  first_data_event, broken, received, read_ready, wrote, write_ready, run_live,
}

-- The object is the same one, and it still has a `bufferevent`.
abbrev pub Same : ConnectionBase → ConnectionBase → Type 0
Same c d =
    (d.id ≡ c.id)
    × (d.kind ≡ c.kind)
    × (d.connection ≡ c.connection)
    × (d.read_cb_ptr ≡ c.read_cb_ptr)
    × (is_some d.bev ≡ true)

abbrev pub Stays : ConnectionBase → Option Turn → Type 0
Stays c none = Unit
Stays c (some t) = Same c t.object

after_read-Stays :
    (b : Channel) (c : ConnectionBase) (o : Outcome ReadResult) → Stays c (after_read b c o)
unfolding disconnect_int
after_read-Stays b c out_of_fuel = tt
after_read-Stays b c abort = tt
after_read-Stays b c (finished r) = ground arith

read_cb_at-Stays : (r : ReadCb) (b : Channel) (c : ConnectionBase) → Stays c (read_cb_at r b c)
read_cb_at-Stays no_callback b c = tt
read_cb_at-Stays read_cb_chunk b c =
    after_read-Stays b c (Message.read_cb_chunk c.connection.net_config b.input)
read_cb_at-Stays read_cb_message b c =
    after_read-Stays b c (Message.read_cb_message c.connection.net_config b.input)

pub run_read_cb-bev :
    (c : ConnectionBase) (b : Channel) → c.bev ≡ some b → run_read_cb c ≡ read_cb_at b.read_cb b c
unfolding run_read_cb
run_read_cb-bev c b e = ap (λ o. elim o [ none ↦ none | some x ↦ read_cb_at x.read_cb x c ]) e

run_read_cb-Stays : (c : ConnectionBase) → Stays c (run_read_cb c)
unfolding run_read_cb
run_read_cb-Stays c = elim (Option-cases c.bev) [
  | inl e ↦ rw (e, run_read_cb) tt
  | inr (b, e) ↦ subst (Stays c) (sym (run_read_cb-bev c b e)) (read_cb_at-Stays b.read_cb b c)
]

-- Every event keeps the object's id, class, request and `read_cb_ptr`, and its `bufferevent`.
pub run_live-Stays :
    (e : LiveEvent) (c : ConnectionBase) → is_some c.bev ≡ true → Stays c (run_live e c)
unfolding run_live disconnect_int disconnect_when_finished_int check_write_buffer_int run_write_cb
    read_data wrote_data
run_live-Stays disconnect_event c h = ground arith
run_live-Stays disconnect_wait_event c h = ground arith
run_live-Stays check_write_buffer_event c h = ground arith
run_live-Stays ping_timeout_event c h = ground arith
run_live-Stays first_data_event c h = ground arith
run_live-Stays broken c h = ground arith
run_live-Stays (received l) c h = ground arith
run_live-Stays read_ready c h = run_read_cb-Stays c
run_live-Stays (wrote n) c h = ground arith
run_live-Stays write_ready c h = ground arith
