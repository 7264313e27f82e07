-- ===== src/Live/Closing.antt =====
-- `DisconnectWhenFinishedInt` and what undoes it (src/connectionbase.cpp).
use libbtcnet.Base.{
  ℕ, zero, suc, ◌+◌, ◌≤◌, true, false, List, [], ◌∷◌, ◌++◌, Option, some, ◌≡◌, refl, ap, ◌∙◌, Bytes,
  length, length-drop, drop, ◌==◌, arith,
}
use libbtcnet.Channel.{
  Channel, WriteCb, shut, is_full, watch_output, unwatch_output, no_write_callback,
  close_on_finished_writecb,
}
use libbtcnet.Object.{ConnectionBase}
use libbtcnet.Transport.{wrote_data, add_bytes}
use libbtcnet.Peer.{
  LiveCall, write_buffer_full, write_buffer_ready, Turn, check_write_buffer_int, run_write_cb,
}
use libbtcnet.Live.{
  check_write_buffer_event, wrote, write_ready, run_live, LiveAct, event, act, run_acts, then_run,
  raises, writes,
}

-- Closed by `DisconnectInt`, with everything written.
abbrev pub Drained : Option (ConnectionBase × List LiveCall) → Type 0
Drained o =
    (d : ConnectionBase) × (calls : List LiveCall) × (x : Channel) × (o ≡ some (d, calls))
    × (d.bev ≡ some (shut x))
    × (x.output ≡ [])

abbrev pub sum : List ℕ → ℕ
sum [] = 0
sum (n ∷ ns) = n + sum ns

-- libevent writes so many bytes each time.
abbrev pub writes_all : List ℕ → List LiveAct
writes_all [] = []
writes_all (n ∷ ns) = event (wrote n) ∷ writes_all ns

-- What the writes leave of a connection: it stands, and but for the bytes that were written its
-- `bufferevent` is as it was.
abbrev pub Wrote : ℕ → Channel → Option (ConnectionBase × List LiveCall) → Type 0
Wrote n b o =
    (d : ConnectionBase) × (calls : List LiveCall) × (o ≡ some (d, calls))
    × (d.bev ≡ some (record b { output = drop n b.output }))

no_bytes : (l : Bytes) → length l ≡ 0 → l ≡ []
no_bytes [] h = refl
no_bytes (x ∷ xs) h = cc h

drop_nil : (n : ℕ) → drop {A = ℕ} n [] ≡ []
drop_nil zero = refl
drop_nil (suc n) = refl

drop-drop : (m n : ℕ) (l : Bytes) → drop n (drop m l) ≡ drop (m + n) l
drop-drop zero n l = let e : 0 + n ≡ n = omega arith in rw e refl
drop-drop (suc m) n [] = let e : suc m + n ≡ suc (m + n) = omega arith in rw e (drop_nil n)
drop-drop (suc m) n (x ∷ l) =
    let e : suc m + n ≡ suc (m + n) = omega arith in rw e (drop-drop m n l)

then_run-Wrote :
    (n : ℕ) (b : Channel) (t : Turn)
    (next : ConnectionBase → Option (ConnectionBase × List LiveCall))
    → t.closed ≡ false
    → Wrote n b (next t.object)
    → Wrote n b (then_run (some t) next)
then_run-Wrote n b t next up (d, calls, e, f) = rw (up, e) (d, t.calls ++ calls, refl, f)

writes-Wrote :
    (ns : List ℕ) (c : ConnectionBase) (b : Channel)
    → Wrote (sum ns) b (run_acts (writes_all ns) (record c { bev = some b }))
unfolding run_acts act run_live wrote_data
writes-Wrote [] c b = (record c { bev = some b }, [], refl, refl)
writes-Wrote (m ∷ ns) c b =
    let x = record b { output = drop m b.output } in
    let d = record c { bev = some x; bytes_written = (add_bytes m c.bytes_written).0 } in
    let (e, calls, done, left) = writes-Wrote ns d x in
    then_run-Wrote (m + sum ns) b _ (λ d. run_acts (writes_all ns) d) refl
      (
        e,
        calls,
        done,
        left ∙ ap (λ o. some (record b { output = o })) (drop-drop m (sum ns) b.output),
      )

-- With a watermark of 0, the write callback is due when nothing is left, and not before.
ready_at_end :
    (n : ℕ) (d : ConnectionBase) (b : Channel)
    → d.bev ≡ some (record b { output = drop n b.output })
    → b.write_enabled ≡ true
    → writes b.write_cb ≡ true
    → b.write_low ≡ 0
    → n ≤ length b.output
    → raises write_ready d ≡ (n == length b.output)
ready_at_end n d b e on w low le = rw (e, on, w, low) (ground (arith, length-drop n b.output))

all_dropped : (l : Bytes) (n : ℕ) → n ≡ length l → drop n l ≡ []
all_dropped l n e = no_bytes (drop n l) (omega (arith, length-drop n l))

module _ (d : ConnectionBase) (b : Channel) (e : d.bev ≡ some b) where
  ready_forgets :
      b.write_cb ≡ WriteCb.write_cb
      → b.output ≡ []
      → (x : ConnectionBase) × (y : Channel) × (run_acts (event write_ready ∷ []) d
          ≡ some (x, write_buffer_ready 0 ∷ []))
        × (x.bev ≡ some y)
        × (y.output ≡ [])
        × (y.write_cb ≡ no_write_callback)
        × (y.write_enabled ≡ b.write_enabled)
  unfolding run_acts act run_live run_write_cb
  ready_forgets w n =
      rw (e, w)
        (
          record d { bev = some (unwatch_output d.read_cb_ptr b) },
          unwatch_output d.read_cb_ptr b,
          rw n refl,
          refl,
          n,
          refl,
          refl,
        )

-- A connection that waits for its last bytes, with so many that the buffer counts as full: its write
-- callback would close it once they are written. If the check of the write buffer, as it is due after
-- each `Send`, runs now, then the write callback is still due once all are written, but it does not
-- close the connection: it reports the empty buffer as ready and leaves no write callback at all.
pub check_write_buffer_int-forgets :
    (ns : List ℕ) (c : ConnectionBase) (b : Channel)
    → c.bev ≡ some b
    → b.write_cb ≡ close_on_finished_writecb
    → b.write_low ≡ 0
    → b.write_enabled ≡ true
    → raises check_write_buffer_event c ≡ true
    → is_full c.connection.opts b ≡ true
    → sum ns ≡ length b.output
    → (d : ConnectionBase) × (calls : List LiveCall) × (run_acts
          (event check_write_buffer_event ∷ writes_all ns)
          c
        ≡ some (d, calls))
      × (raises write_ready d ≡ true)
      × (e : ConnectionBase) × (y : Channel) × (run_acts (event write_ready ∷ []) d
          ≡ some (e, write_buffer_ready 0 ∷ []))
      × (e.bev ≡ some y)
      × (y.output ≡ [])
      × (y.write_cb ≡ no_write_callback)
      × (y.write_enabled ≡ true)
unfolding run_acts act run_live check_write_buffer_int
check_write_buffer_int-forgets ns c b h w low on due full all =
    let checked = record c { check_write_buffer_active = false } in
    let f = watch_output c.read_cb_ptr b in
    let x = record f { output = drop (sum ns) b.output } in
    let t : Turn = record {
      object = record checked { bev = some f };
      calls = write_buffer_full (length b.output) ∷ [];
      closed = false;
    } in
    let first : Wrote (sum ns) f (run_acts (event check_write_buffer_event ∷ writes_all ns) c) =
      rw (h, full)
        (then_run-Wrote (sum ns) f t (λ d. run_acts (writes_all ns) d) refl
          (writes-Wrote ns checked f)) in
    let (d, calls, done, left) = first in
    let ready = ready_at_end (sum ns) d f left on refl low (omega (arith, all)) in
    let (e, y, ran, bev, out, cb, still) =
      ready_forgets d x left refl (all_dropped b.output (sum ns) all) in
    (d, calls, done, ready ∙ ground (arith, all), e, y, ran, bev, out, cb, still ∙ on)
