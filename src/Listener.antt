-- ===== src/Listener.antt =====
-- `CConnListener` (src/listener.cpp): a socket that listens. Whether libevent could bind the
-- address, and whether it enables or disables the socket, are inputs. `none` is a failed assertion.
use libbtcnet.Base.{ℕ, Bool, false, ◌||◌, not, ◌&&◌, Option, none, some, if◌then◌else◌}
use libbtcnet.Connection.{CConnection}

pub record CConnListener : Type 0 where
  pub id : ℕ
  pub connection : CConnection
  -- `m_listener` holds a listener, and libevent accepts connections for it.
  pub listening : Bool
  pub enabled : Bool

-- The constructor.
unfoldable pub new_listener : ℕ → CConnection → CConnListener
new_listener id conn = record { id = id; connection = conn; listening = false; enabled = false }

-- `Bind` up to the call of the handler; `base` tells whether there is an event base, and `bound`
-- whether libevent could bind the address. A new listener of libevent is enabled.
unfoldable pub bind_listener : (base bound : Bool) → CConnListener → Option (CConnListener × Bool)
bind_listener base bound l =
    if l.listening || not base
    then none
    else some (record l { listening = bound; enabled = bound }, bound)

-- `Enable` and `Disable`.
unfoldable pub enable_listener : Bool → CConnListener → Option (CConnListener × Bool)
enable_listener done l =
    if l.listening then some (record l { enabled = l.enabled || done }, done) else none

unfoldable pub disable_listener : Bool → CConnListener → Option (CConnListener × Bool)
disable_listener done l =
    if l.listening then some (record l { enabled = l.enabled && not done }, done) else none

-- `Unbind`, which is also the destructor.
unfoldable pub unbind_listener : CConnListener → CConnListener
unbind_listener l = record l { listening = false; enabled = false }
