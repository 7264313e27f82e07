-- ===== src/Handler/Told.antt =====
-- What the application is told of each connection, in which order (include/libbtcnet/handler.h,
-- src/handler.cpp).
pub mod Reports
pub mod Steps
pub mod Starts
pub mod Runs
use libbtcnet.Base.{
  ℕ, suc, ◌+◌, ◌≤◌, ◌<◌, Bool, true, false, not, ◌&&◌, ◌||◌, List, [], ◌∷◌, ◌++◌, Option, none,
  some, ◌≡◌, refl, ap, subst, sym, ◌∙◌, ◌==◌, arith,
}
use libbtcnet.Connection.{CConnection}
use libbtcnet.Map.{Map}
use libbtcnet.Map.Laws.{has}
use libbtcnet.Handler.State.{
  Call, Handler, notify, on_need_outgoing_connections, on_bind_failure, on_dns_response,
  on_dns_failure, on_connection_failure, on_proxy_failure, on_outgoing_connection,
  on_incoming_connection, on_disconnected, on_ready_for_first_send, on_shutdown, on_startup,
  on_receive_messages, on_malformed_message, on_write_buffer_full, on_write_buffer_ready,
  on_bytes_read, on_bytes_written, on_ping_timeout,
}

-- The connections that are open, as the application can tell from its calls: an incoming one is
-- announced by `OnIncomingConnection`, an outgoing one is ready for its first send, and both end with
-- `OnDisconnected`.
abbrev pub Open : Type 0
Open = ℕ → Bool

abbrev pub none_open : Open
none_open k = false

abbrev pub opened : ℕ → Open → Open
opened id s k = id == k || s k

abbrev pub after : Call → Open → Open
after (on_incoming_connection id c r) s = opened id s
after (on_ready_for_first_send id) s = opened id s
after (on_disconnected id again) s = λ k. s k && not (id == k)
after c s = s

-- A connection is opened while it is not open; any other call about it comes while it is.
abbrev pub fits : Call → Open → Bool
fits (on_incoming_connection id c r) s = not (s id)
fits (on_ready_for_first_send id) s = not (s id)
fits (on_disconnected id again) s = s id
fits (on_receive_messages id messages size) s = s id
fits (on_malformed_message id) s = s id
fits (on_write_buffer_full id size) s = s id
fits (on_write_buffer_ready id size) s = s id
fits (on_bytes_read id n total) s = s id
fits (on_bytes_written id n total) s = s id
fits (on_ping_timeout id) s = s id
fits c s = true

unfoldable pub view : Open → List Call → Open
view s [] = s
view s (c ∷ cs) = view (after c s) cs

unfoldable pub fits_all : Open → List Call → Bool
fits_all s [] = true
fits_all s (c ∷ cs) = fits c s && fits_all (after c s) cs

abbrev pub open_in : Handler → Open
open_in h = view none_open h.calls

pub record Told (h : Handler) : Type 0 where
  pub proper : fits_all none_open h.calls ≡ true
  pub shown : (k : ℕ) → has k h.connected ≡ true → open_in h k ≡ true
  pub hidden : (k : ℕ) → has k h.connecting ≡ true → open_in h k ≡ false
  pub later : (k : ℕ) → h.connection_index ≤ k → open_in h k ≡ false

pub view-append : (s : Open) (cs ds : List Call) → view s (cs ++ ds) ≡ view (view s cs) ds
unfolding view
view-append s [] ds = refl
view-append s (c ∷ cs) ds = view-append (after c s) cs ds

and_true : (a b : Bool) → (a && b) ≡ true → (a ≡ true) × (b ≡ true)
and_true true b h = (refl, h)
and_true false b h = cc h

pub fits_all-append :
    (s : Open) (cs ds : List Call)
    → fits_all s cs ≡ true
    → fits_all (view s cs) ds ≡ true
    → fits_all s (cs ++ ds) ≡ true
unfolding fits_all view
fits_all-append s [] ds p q = q
fits_all-append s (c ∷ cs) ds p q =
    let (first, rest) = and_true (fits c s) _ p in
    rw (first, fits_all-append (after c s) cs ds rest q)

-- What is open behind one call more.
pub view_call :
    (c : Call) (calls : List Call) (k : ℕ)
    → view none_open (calls ++ c ∷ []) k ≡ after c (view none_open calls) k
unfolding view
view_call c calls k = ap (λ s. s k) (view-append none_open calls (c ∷ []))

-- One call more, with what the maps are behind it.
pub Told-call :
    {h : Handler} (g : Handler) (c : Call)
    → g.calls ≡ h.calls ++ c ∷ []
    → fits c (open_in h) ≡ true
    → ((k : ℕ) → has k g.connected ≡ true → after c (open_in h) k ≡ true)
    → ((k : ℕ) → has k g.connecting ≡ true → after c (open_in h) k ≡ false)
    → ((k : ℕ) → g.connection_index ≤ k → after c (open_in h) k ≡ false)
    → Told h
    → Told g
unfolding view fits_all
Told-call {h} g c e fit shown hidden later t =
    let now : (k : ℕ) → open_in g k ≡ after c (open_in h) k =
      λ k. ap (λ l. view none_open l k) e ∙ view_call c h.calls k in
    record {
      proper = rw e (fits_all-append none_open h.calls (c ∷ []) t.proper (rw fit refl));
      shown = λ k x. now k ∙ shown k x;
      hidden = λ k x. now k ∙ hidden k x;
      later = λ k x. now k ∙ later k x;
    }

-- A call that neither opens nor closes.
pub Told-plain :
    {h : Handler} (c : Call)
    → fits c (open_in h) ≡ true
    → ((k : ℕ) → after c (open_in h) k ≡ open_in h k)
    → Told h
    → Told (notify c h)
Told-plain {h} c fit same t =
    Told-call (notify c h) c refl fit (λ k x. same k ∙ t.shown k x) (λ k x. same k ∙ t.hidden k x)
      (λ k x. same k ∙ t.later k x) t

-- No call, and no more objects than there were; those that are new are under way under a new id.
pub Told-maps :
    {h : Handler} (g : Handler)
    → g.calls ≡ h.calls
    → ((k : ℕ) → has k g.connected ≡ true → has k h.connected ≡ true)
    → ((k : ℕ)
        → has k g.connecting ≡ true
        → (has k h.connecting || (h.connection_index == k)) ≡ true)
    → h.connection_index ≤ g.connection_index
    → Told h
    → Told g
Told-maps {h} g e up way le t = record {
  proper = rw e t.proper;
  shown = λ k x. rw e (t.shown k (up k x));
  hidden = λ k x. rw e (ground (arith, way k x, t.hidden k, t.later k));
  later = λ k x. rw e (t.later k (omega arith));
}
