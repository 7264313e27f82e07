-- ===== src/Channel.antt =====
-- The `bufferevent` of a connection that is up, as src/connectionbase.cpp sets it up and changes
-- it: its two buffers, which callbacks are set, what is enabled, the watermarks and the timeouts.
-- libevent moves the bytes and calls the callbacks.
use libbtcnet.Base.{
  ℕ, suc, ◌-◌, ◌%◌, ◌^◌, Bool, true, false, Option, none, some, [], ltb, if◌then◌else◌, Bytes,
  length,
}
use libbtcnet.Base.Int.{ℤ, pos, negsuc, ltb_ℤ}
use libbtcnet.Message.{NetworkConfig, size_needed}
use libbtcnet.Connection.{CConnection, CConnectionOptions}

-- The callback that `read_cb_ptr` points to.
pub data ReadCb : Type 0 where
  no_callback read_cb_chunk read_cb_message : ReadCb

pub data WriteCb : Type 0 where
  no_write_callback write_cb close_on_finished_writecb : WriteCb

-- `CRateLimit`.
pub record CRateLimit : Type 0 where
  pub max_burst_read : ℕ
  pub max_read_rate : ℕ
  pub max_burst_write : ℕ
  pub max_write_rate : ℕ

-- The largest `ssize_t` of 64 bits, which is what libevent calls `EV_SSIZE_MAX` and
-- `EV_RATE_LIMIT_MAX`.
abbrev pub max_ssize : ℕ
max_ssize = 2 ^ 63 - 1

-- `CRateLimit()`, and the limits that `Start` sets for the two groups.
abbrev pub unlimited_rate : CRateLimit
unlimited_rate = record {
  max_burst_read = max_ssize;
  max_read_rate = max_ssize;
  max_burst_write = max_ssize;
  max_write_rate = max_ssize;
}

pub data RateGroup : Type 0 where
  incoming_rate_limit outgoing_rate_limit : RateGroup

pub record Channel : Type 0 where
  pub input : Bytes
  pub output : Bytes
  pub read_enabled : Bool
  pub write_enabled : Bool
  pub read_cb : ReadCb
  pub write_cb : WriteCb
  -- `event_cb` is set.
  pub event_cb : Bool
  pub read_low : ℕ
  pub read_high : ℕ
  pub write_low : ℕ
  -- The seconds of the read and of the write timeout.
  pub read_timeout : ℤ
  pub write_timeout : ℤ
  pub rate_limit : Option CRateLimit
  pub group : Option RateGroup

-- An `int` that is passed as a `size_t`.
abbrev pub size_of : ℤ → ℕ
size_of (pos n) = n
size_of (negsuc n) = 2 ^ 64 - suc n

-- The callback and the read watermarks that `InitConnection` chooses.
abbrev pub choose_read_cb : NetworkConfig → ReadCb × ℕ × ℕ
choose_read_cb n =
    if ltb 0 n.chunk_size
    then (read_cb_chunk, n.chunk_size, 0)
    else if ltb 0 n.header_size
    then (read_cb_message, size_needed n, n.message_max_size)
    else (no_callback, 0, 0)

-- What `InitConnection` makes of a `bufferevent` with nothing left to write; `input` is what has come
-- behind the answer of a proxy.
unfoldable pub init_channel : CConnection → Bytes → Channel
init_channel c input = record {
  input = input;
  output = [];
  read_enabled = false;
  write_enabled = false;
  read_cb = (choose_read_cb c.net_config).0;
  write_cb = no_write_callback;
  event_cb = true;
  read_low = (choose_read_cb c.net_config).1;
  read_high = (choose_read_cb c.net_config).2;
  write_low = size_of c.opts.max_send_buffer;
  read_timeout = c.opts.initial_timeout;
  write_timeout = c.opts.initial_timeout;
  rate_limit = none;
  group = none;
}

-- `Enable`, without its timer, and `SetRateLimitGroup`.
abbrev pub enable_channel : RateGroup → Channel → Channel
enable_channel g b = record b { read_enabled = true; write_enabled = true; group = some g }

-- `FirstDataInt`.
abbrev pub set_timeouts : CConnectionOptions → Channel → Channel
set_timeouts o b = record b { read_timeout = o.recv_timeout; write_timeout = o.send_timeout }

-- The `bufferevent` as `DisconnectInt` leaves it.
abbrev pub shut : Channel → Channel
shut b = record b {
  read_enabled = false;
  write_enabled = false;
  read_cb = no_callback;
  write_cb = no_write_callback;
  event_cb = false;
}

-- `DisconnectWhenFinishedInt` while there is something to write.
abbrev pub finish : Channel → Channel
finish b = record b {
  read_enabled = false;
  write_low = 0;
  read_cb = no_callback;
  write_cb = close_on_finished_writecb;
  event_cb = true;
}

-- A `size_t` that is cast to an `int` of 32 bits.
abbrev pub int_of : ℕ → ℤ
int_of n = let m = n % 2 ^ 32 in if ltb m (2 ^ 31) then pos m else negsuc (2 ^ 32 - 1 - m)

-- `static_cast<int>(buflen) >= maxsend`.
abbrev pub is_full : CConnectionOptions → Channel → Bool
is_full o b = if ltb_ℤ (int_of (length b.output)) o.max_send_buffer then false else true

-- `CheckWriteBufferInt` when the buffer is full; `read_cb_ptr` is set again as well.
abbrev pub watch_output : ReadCb → Channel → Channel
watch_output ptr b = record b { read_cb = ptr; write_cb = WriteCb.write_cb; event_cb = true }

-- `write_cb`.
abbrev pub unwatch_output : ReadCb → Channel → Channel
unwatch_output ptr b = record b { read_cb = ptr; write_cb = no_write_callback; event_cb = true }
