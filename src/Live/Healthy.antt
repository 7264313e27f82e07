-- ===== src/Live/Healthy.antt =====
-- A connection that is up never fails an assertion, whatever libevent reports.
use libbtcnet.Base.{
  ◌<◌, Bool, true, false, ◌&&◌, [], ◌∷◌, ◌++◌, Option, some, ◌≡◌, refl, sym, subst, ◌⊎◌, inl, inr,
  Bool-cases, Bytes, flatten, is_empty,
}
use libbtcnet.Message.{NetworkConfig, ReadResult, finished}
use libbtcnet.Message.Framing.{IsBytes, IsUsable}
use libbtcnet.Message.Stream.{delivered, IsBytes-right, read_cb_message-splits}
use libbtcnet.Message.Chunks.{read_cb_chunk-splits}
use libbtcnet.Channel.{
  Channel, ReadCb, no_callback, read_cb_chunk, read_cb_message, WriteCb, no_write_callback,
  close_on_finished_writecb, is_full,
}
use libbtcnet.Object.{ConnectionBase}
use libbtcnet.Transport.{read_data, wrote_data}
use libbtcnet.Peer.{
  Turn, disconnect_int, disconnect_when_finished_int, check_write_buffer_int, run_write_cb,
  run_read_cb, after_read, read_cb_at, write_cb_at, disconnects,
}
use libbtcnet.Live.{
  LiveEvent, disconnect_event, disconnect_wait_event, check_write_buffer_event, ping_timeout_event,
  first_data_event, broken, received, read_ready, wrote, write_ready, run_live, raises, reads,
  writes,
}

-- The configuration suits the callback that `InitConnection` chooses for it.
abbrev pub Suits : ReadCb → NetworkConfig → Type 0
Suits no_callback n = Unit
Suits read_cb_chunk n = 0 < n.chunk_size
Suits read_cb_message n = IsUsable n

-- The callbacks are those that `InitConnection` chose, or none, and what came in are bytes.
pub record Healthy (c : ConnectionBase) (b : Channel) : Type 0 where
  pub here : c.bev ≡ some b
  pub suits : Suits c.read_cb_ptr c.connection.net_config
  pub callback : (b.read_cb ≡ no_callback) ⊎ (b.read_cb ≡ c.read_cb_ptr)
  pub bytes : IsBytes b.input

abbrev pub Runs : LiveEvent → ConnectionBase → Type 0
Runs e c = (t : Turn) × (b : Channel) × (run_live e c ≡ some t) × Healthy t.object b

-- The bytes of an event.
abbrev pub EventBytes : LiveEvent → Type 0
EventBytes (received l) = IsBytes l
EventBytes e = Unit

abbrev pub AfterRead : Channel → ConnectionBase → Option Turn → Type 0
AfterRead b c o = (t : Turn) × (d : Channel) × (o ≡ some t) × Healthy t.object d

second_of_three : (x y z : Bool) → (x && y && z) ≡ true → y ≡ true
second_of_three true true z h = refl
second_of_three true false z h = h
second_of_three false y z h = cc h

IsBytes-append : (xs ys : Bytes) → IsBytes xs → IsBytes ys → IsBytes (xs ++ ys)
IsBytes-append [] ys h k = k
IsBytes-append (x ∷ xs) ys h k = (h.0, IsBytes-append xs ys h.1 k)

module _ (c : ConnectionBase) (b : Channel) (s : Suits c.read_cb_ptr c.connection.net_config)
    (cb : (b.read_cb ≡ no_callback) ⊎ (b.read_cb ≡ c.read_cb_ptr)) where
  abbrev up : ConnectionBase
  up = record c { bev = some b }

  after_read-Healthy :
      (r : ReadResult) → IsBytes r.rest → AfterRead b up (after_read b up (finished r))
  unfolding disconnect_int
  after_read-Healthy r h = elim (Bool-cases (disconnects r.calls)) [
    | inl e ↦ rw e (_, _, refl, record { here = refl; suits = s; callback = inl refl; bytes = h })
    | inr e ↦ rw e (_, _, refl, record { here = refl; suits = s; callback = cb; bytes = h })
  ]

  read_cb_at-Healthy :
      (r : ReadCb)
      → Suits r c.connection.net_config
      → IsBytes b.input
      → reads r ≡ true
      → AfterRead b up (read_cb_at r b up)
  read_cb_at-Healthy no_callback u h k = cc k
  read_cb_at-Healthy read_cb_chunk u h k =
      let (r, e, _, split, _) = read_cb_chunk-splits c.connection.net_config b.input u in
      rw e (
        after_read-Healthy r
          (IsBytes-right (flatten (delivered r.calls)) r.rest (subst IsBytes (sym split) h)))
  read_cb_at-Healthy read_cb_message u h k =
      let (r, skipped, e, _, split, _) =
        read_cb_message-splits c.connection.net_config u b.input h in
      rw e (
        after_read-Healthy r (
          IsBytes-right skipped r.rest (
            IsBytes-right (flatten (delivered r.calls)) (skipped ++ r.rest)
              (subst IsBytes (sym split) h))))

  callback-Suits :
      (r : ReadCb) → (r ≡ no_callback) ⊎ (r ≡ c.read_cb_ptr) → Suits r c.connection.net_config
  callback-Suits r (inl e) = subst (λ x. Suits x c.connection.net_config) (sym e) tt
  callback-Suits r (inr e) = subst (λ x. Suits x c.connection.net_config) (sym e) s

  write_cb_at-Healthy :
      (w : WriteCb) → IsBytes b.input → writes w ≡ true → AfterRead b up (write_cb_at w b up)
  unfolding disconnect_int
  write_cb_at-Healthy no_write_callback h k = cc k
  write_cb_at-Healthy WriteCb.write_cb h k =
      (_, _, refl, record { here = refl; suits = s; callback = inr refl; bytes = h })
  write_cb_at-Healthy close_on_finished_writecb h k =
      (_, _, refl, record { here = refl; suits = s; callback = inl refl; bytes = h })

  run_read_cb-Healthy : IsBytes b.input → reads b.read_cb ≡ true → AfterRead b up (run_read_cb up)
  unfolding run_read_cb
  run_read_cb-Healthy h k = read_cb_at-Healthy b.read_cb (callback-Suits b.read_cb cb) h k

  run-Healthy : (e : LiveEvent) → IsBytes b.input → EventBytes e → raises e up ≡ true → Runs e up
  unfolding run_live disconnect_int disconnect_when_finished_int check_write_buffer_int run_write_cb
      read_data wrote_data
  run-Healthy disconnect_event h l k =
      (_, _, refl, record { here = refl; suits = s; callback = inl refl; bytes = h })
  run-Healthy disconnect_wait_event h l k = elim (Bool-cases (is_empty b.output)) [
    | inl e ↦ rw e (_, _, refl, record { here = refl; suits = s; callback = inl refl; bytes = h })
    | inr e ↦ rw e (_, _, refl, record { here = refl; suits = s; callback = inl refl; bytes = h })
  ]
  run-Healthy check_write_buffer_event h l k = elim (Bool-cases (is_full c.connection.opts b)) [
    | inl e ↦ rw e (_, _, refl, record { here = refl; suits = s; callback = inr refl; bytes = h })
    | inr e ↦ rw e (_, _, refl, record { here = refl; suits = s; callback = cb; bytes = h })
  ]
  run-Healthy ping_timeout_event h l k =
      (_, _, refl, record { here = refl; suits = s; callback = cb; bytes = h })
  run-Healthy first_data_event h l k =
      (_, _, refl, record { here = refl; suits = s; callback = cb; bytes = h })
  run-Healthy broken h l k =
      (_, _, refl, record { here = refl; suits = s; callback = inl refl; bytes = h })
  run-Healthy (received bytes) h l k = (
    _,
    _,
    refl,
    record { here = refl; suits = s; callback = cb; bytes = IsBytes-append b.input bytes h l },
  )
  run-Healthy read_ready h l k =
      run_read_cb-Healthy h (second_of_three b.read_enabled (reads b.read_cb) _ k)
  run-Healthy (wrote n) h l k =
      (_, _, refl, record { here = refl; suits = s; callback = cb; bytes = h })
  run-Healthy write_ready h l k =
      write_cb_at-Healthy b.write_cb h (second_of_three b.write_enabled (writes b.write_cb) _ k)

-- A connection is healthy if its read callback is the one that `InitConnection` chose, or none, if
-- the configuration suits that choice, and if what came in are bytes. An event that libevent may
-- raise for a healthy connection, with bytes if it brings any, runs without a failed assertion, and
-- leaves the connection healthy.
pub run_live-Healthy :
    (e : LiveEvent) (c : ConnectionBase) (b : Channel)
    → Healthy c b
    → EventBytes e
    → raises e c ≡ true
    → Runs e c
run_live-Healthy e c b h l k =
    let same : record c { bev = some b } ≡ c = λ i. record c { bev = sym h.here i } in
    subst (Runs e) same
      (run-Healthy c b h.suits h.callback e h.bytes l (subst (λ x. raises e x ≡ true) (sym same) k))
