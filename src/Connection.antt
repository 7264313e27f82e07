-- ===== src/Connection.antt =====
-- include/libbtcnet/connection.h and src/connection.cpp: what a connection is asked to be. A text is
-- the list of its bytes. A `sockaddr` is its family with the address and the port as they stand in
-- memory, in network order; every one that occurs here fits a `sockaddr_storage`.
pub mod Host
pub mod Family
pub mod Address
pub mod Samples
pub mod Tests
use Prim.Native.Nat.{bit_and}
use libbtcnet.Base.{
  ℕ, zero, suc, ◌+◌, ◌-◌, ◌*◌, Bool, true, false, not, ◌&&◌, ◌||◌, List, [], ◌∷◌, ◌++◌, Option,
  none, some, ltb, leb, ◌==◌, if◌then◌else◌, Bytes, length, take, drop, bytes_eq,
}
use libbtcnet.Base.Int.{ℤ, pos, negsuc}
use libbtcnet.Message.{NetworkConfig}
use libbtcnet.Base32.{decode_base32}

-- `AF_INET`, `AF_INET6`, `AF_UNIX` and any other family.
pub data SockAddr : Type 0 where
  inet : (sin_addr sin_port : Bytes) → SockAddr
  inet6 : (sin6_addr sin6_port : Bytes) → SockAddr
  unix : (path : Bytes) → SockAddr
  other_family : SockAddr

-- `CConnectionBase`; `addr` is `none` for an empty vector.
pub record CConnectionBase : Type 0 where
  pub host : Bytes
  pub port : ℕ
  pub is_dns : Bool
  pub is_onion : Bool
  pub is_set : Bool
  pub addr : Option SockAddr
  pub connection_string : Bytes

-- `CConnectionBase()`.
abbrev pub unset_base : CConnectionBase
unset_base = record {
  host = [];
  port = 0;
  is_dns = false;
  is_onion = false;
  is_set = false;
  addr = none;
  connection_string = [];
}

-- `CConnectionBase(const sockaddr*, int)`.
abbrev pub addr_base : SockAddr → CConnectionBase
addr_base a = record unset_base { is_set = true; addr = some a }

pub record CProxyAuth : Type 0 where
  pub username : Bytes
  pub password : Bytes
  pub is_set : Bool

-- `CProxyAuth(username, password)`.
abbrev pub proxy_auth : Bytes → Bytes → CProxyAuth
proxy_auth user pass = record { username = user; password = pass; is_set = true }

pub data ProxyType : Type 0 where
  socks5 socks5_force_domain_type : ProxyType

pub record CProxy : Type 0 where
  pub base : CConnectionBase
  pub auth : CProxyAuth
  pub type : ProxyType

-- `CProxy()`.
abbrev pub unset_proxy : CProxy
unset_proxy = record {
  base = unset_base;
  auth = record { username = []; password = []; is_set = false };
  type = socks5;
}

pub data Resolve : Type 0 where
  no_resolve resolve_only resolve_connect : Resolve

-- `CConnectionOptions`. The family is a set of bits.
pub record CConnectionOptions : Type 0 where
  pub whitelisted : Bool
  pub one_shot : Bool
  pub persistent : Bool
  pub do_resolve : Resolve
  pub retries : ℤ
  pub conn_timeout : ℤ
  pub recv_timeout : ℤ
  pub send_timeout : ℤ
  pub initial_timeout : ℤ
  pub max_send_buffer : ℤ
  pub retry_interval : ℤ
  pub max_lookup_results : ℤ
  pub family : ℕ

-- `CConnectionOptions()`.
abbrev pub default_options : CConnectionOptions
default_options = record {
  whitelisted = false;
  one_shot = false;
  persistent = false;
  do_resolve = no_resolve;
  retries = pos 0;
  conn_timeout = pos 5;
  recv_timeout = pos (60 * 20);
  send_timeout = pos (60 * 20);
  initial_timeout = pos 60;
  max_send_buffer = pos 5000000;
  retry_interval = pos 1;
  max_lookup_results = pos 0;
  family = 1;
}

abbrev pub ipv4_bit : ℕ
ipv4_bit = 2

abbrev pub ipv6_bit : ℕ
ipv6_bit = 4

abbrev pub unix_bit : ℕ
unix_bit = 8

abbrev pub onion_proxy_bit : ℕ
onion_proxy_bit = 16

-- `IPV4 | IPV6`.
abbrev pub ip_bits : ℕ
ip_bits = 6

-- `(family & bits) == bits`.
abbrev pub has_bits : ℕ → ℕ → Bool
has_bits family bits = bit_and family bits == bits

abbrev pub is_no_resolve : Resolve → Bool
is_no_resolve r = elim r [ no_resolve ↦ true | _ ↦ false ]

abbrev pub is_resolve_only : Resolve → Bool
is_resolve_only r = elim r [ resolve_only ↦ true | _ ↦ false ]

abbrev pub is_resolve_connect : Resolve → Bool
is_resolve_connect r = elim r [ resolve_connect ↦ true | _ ↦ false ]

-- `CConnection` inherits from `CConnectionBase`.
pub record CConnection : Type 0 where
  pub base : CConnectionBase
  pub proxy : CProxy
  pub opts : CConnectionOptions
  pub net_config : NetworkConfig

-- `CConnection(opts, netconfig, sockaddr, socklen)`: an address with no proxy.
abbrev pub resolved_connection : CConnectionOptions → NetworkConfig → SockAddr → CConnection
resolved_connection o n a = record {
  base = addr_base a;
  proxy = unset_proxy;
  opts = o;
  net_config = n;
}

-- The static `CanConnectDirect`, on a POSIX system.
unfoldable pub can_connect_family : SockAddr → ℕ → Bool
can_connect_family (unix path) family = has_bits family unix_bit
can_connect_family (inet a p) family = has_bits family ipv4_bit
can_connect_family (inet6 a p) family = has_bits family ipv6_bit
can_connect_family other_family family = false

-- The part of `CanConnectDirect` and `CanConnectProxy` that starts at `GetSockAddr`.
abbrev pub addr_allowed : Option SockAddr → ℕ → Bool
addr_allowed none family = false
addr_allowed (some a) family = can_connect_family a family

unfoldable pub can_connect_direct : CConnection → Bool
unfolding can_connect_family
can_connect_direct c =
    if not c.base.is_set
    then false
    else if c.base.is_dns
    then false
    else if c.base.is_onion
    then false
    else addr_allowed c.base.addr c.opts.family

unfoldable pub can_connect_proxy : CConnection → Bool
unfolding can_connect_family
can_connect_proxy c =
    if not c.base.is_set
    then false
    else if not c.proxy.base.is_set
    then false
    else if c.base.is_dns
    then is_resolve_connect c.opts.do_resolve
    else if c.base.is_onion
    then has_bits c.opts.family onion_proxy_bit
    else addr_allowed c.base.addr c.opts.family

unfoldable pub can_resolve : CConnection → Bool
can_resolve c =
    if not c.base.is_set
    then false
    else if not c.base.is_dns
    then false
    else if is_no_resolve c.opts.do_resolve
    then false
    else has_bits c.opts.family ipv4_bit || has_bits c.opts.family ipv6_bit

-- `ai_family` of the hint that `SetResolveFamily` (src/resolve.cpp) fills in.
pub data ResolveFamily : Type 0 where
  af_unspec af_inet af_inet6 : ResolveFamily

unfoldable pub set_resolve_family : ℕ → Option ResolveFamily
set_resolve_family family =
    if has_bits family ip_bits
    then some af_unspec
    else if has_bits family ipv4_bit
    then some af_inet
    else if has_bits family ipv6_bit
    then some af_inet6
    else none
