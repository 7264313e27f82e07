-- ===== src/Handler/Sound.antt =====
-- What holds of every object that the handler keeps (src/handler.cpp).
pub mod Reports
pub mod Stands
pub mod Starts
pub mod Looks
use libbtcnet.Base.{
  ℕ, Bool, true, false, not, ◌&&◌, ◌||◌, Option, none, some, ◌≡◌, refl, sym, subst, inl, inr,
  Bool-cases, Option-cases, if◌then◌else◌, arith,
}
use libbtcnet.Message.{NetworkConfig}
use libbtcnet.Map.{Map, lookup, modify, emplace, erase, Each, KeysBelow}
use libbtcnet.Map.Laws.{
  Each-lookup, Each-erase, Each-emplace, Each-modify, lookup-modify_self, lookup_fresh,
  modify-emplace,
}
use libbtcnet.Connection.{CConnection}
use libbtcnet.Channel.{
  Channel, RateGroup, incoming_rate_limit, outgoing_rate_limit, choose_read_cb, enable_channel,
}
use libbtcnet.Listener.{CConnListener}
use libbtcnet.ResolveOnly.{CResolveOnly}
use libbtcnet.Object.{
  ConnectionBase, ConnectionFailureType, Report, pending, connection_failure, incoming_connected,
  outgoing_connected, retry, go_live,
}
use libbtcnet.Transport.Phases.{Phase, AtRest, Opened, Fit, retry-Phase}
use libbtcnet.Live.Healthy.{Suits, Healthy}
use libbtcnet.Handler.State.{Client, Handler, notify, answer, request_again}
use libbtcnet.Handler.Ops.{
  requeue, requeue_or_request, connection_failed, disconnected, incoming_up, outgoing_up,
  take_report,
}

-- The configuration suits the callback that `InitConnection` chooses for it.
abbrev pub Usable : NetworkConfig → Type 0
Usable n = Suits (choose_read_cb n).0 n

abbrev pub UnderWay : ConnectionBase → Type 0
UnderWay c = Phase c × Usable c.connection.net_config

abbrev pub Working : ConnectionBase → Type 0
Working c = AtRest c × Usable c.connection.net_config × (b : Channel) × Healthy c b

abbrev pub Listening : CConnListener → Type 0
Listening l = Usable l.connection.net_config

-- A lookup that is to be repeated is not under way.
abbrev pub Looking : CResolveOnly → Type 0
Looking r =
    (r.connection.base.is_dns ≡ true) × ((if r.retry_active then not r.request else true) ≡ true)

pub record Sound (h : Handler) : Type 0 where
  pub up : Each (λ k. Working) h.connected
  pub under_way : Each (λ k. UnderWay) h.connecting
  pub listening : Each (λ k. Listening) h.binds
  pub looking : Each (λ k. Looking) h.dns_resolves

-- What an operation leaves, if it fails no assertion.
abbrev pub Sounds : Option Handler → Type 0
Sounds none = Unit
Sounds (some g) = Sound g

pub Sound-if : (b : Bool) {g h : Handler} → Sound g → Sound h → Sound (if b then g else h)
Sound-if true p q = p
Sound-if false p q = q

pub Sounds-if :
    (b : Bool) (x y : Option Handler)
    → (b ≡ true → Sounds x)
    → (b ≡ false → Sounds y)
    → Sounds (if b then x else y)
Sounds-if true x y p q = p refl
Sounds-if false x y p q = q refl

pub Sound-connecting :
    {h : Handler} (m : Map ConnectionBase)
    → Each (λ k. UnderWay) m
    → Sound h
    → Sound (record h { connecting = m })
Sound-connecting m e s = record {
  up = s.up;
  under_way = e;
  listening = s.listening;
  looking = s.looking;
}

pub Sound-connected :
    {h : Handler} (m : Map ConnectionBase)
    → Each (λ k. Working) m
    → Sound h
    → Sound (record h { connected = m })
Sound-connected m e s = record {
  up = e;
  under_way = s.under_way;
  listening = s.listening;
  looking = s.looking;
}

pub Sound-resolves :
    {h : Handler} (m : Map CResolveOnly)
    → Each (λ k. Looking) m
    → Sound h
    → Sound (record h { dns_resolves = m })
Sound-resolves m e s = record {
  up = s.up;
  under_way = s.under_way;
  listening = s.listening;
  looking = e;
}

-- The rest of the handler does not matter.
pub Sound-same :
    {h g : Handler}
    → g.connected ≡ h.connected
    → g.connecting ≡ h.connecting
    → g.binds ≡ h.binds
    → g.dns_resolves ≡ h.dns_resolves
    → Sound h
    → Sound g
Sound-same p q r t s = record {
  up = rw p s.up;
  under_way = rw q s.under_way;
  listening = rw r s.listening;
  looking = rw t s.looking;
}

pub Sound-request_again : {h : Handler} → Sound h → Sound (request_again h)
Sound-request_again {h} s = Sound-if h.events (Sound-same refl refl refl refl s) s
