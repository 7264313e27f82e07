-- ===== src/Connection/Address.antt =====
-- What a `CConnectionBase` tells of itself: `GetSockAddr`, `GetHost`, `GetPort` and `ToString` of
-- src/connection.cpp. `getnameinfo` is a parameter.
pub mod Print
use libbtcnet.Base.{
  ℕ, zero, suc, ◌+◌, ◌-◌, ◌*◌, ◌%◌, ◌^◌, ◌<◌, ◌≤◌, Bool, true, false, ◌||◌, List, [], ◌∷◌, ◌++◌,
  Option, none, some, ◌≡◌, leb, ◌==◌, if◌then◌else◌, Bytes,
}
use libbtcnet.Message.{NetworkConfig}
use libbtcnet.Connection.{
  SockAddr, inet, inet6, unix, other_family, CConnectionBase, addr_base, CProxyAuth, ProxyType,
  CProxy, CConnectionOptions, CConnection,
}
use libbtcnet.Connection.Host.{is_digit, skip_space, read_digits, name_to_string, host_base}

-- `getnameinfo` for numeric names, asked for the host, for the service, or for both; `none` is an
-- error.
pub record NameInfo : Type 0 where
  pub host : SockAddr → Option Bytes
  pub service : SockAddr → Option Bytes
  pub both : SockAddr → Option (Bytes × Bytes)

-- The size of a `sockaddr` in the vector `addr`.
abbrev pub AddrSize : Type 0
AddrSize = SockAddr → ℕ

-- `GetSockAddr` for a buffer of `addrlen` bytes: what is copied, and the new length.
unfoldable pub get_sock_addr : AddrSize → Option ℕ → CConnectionBase → Option (SockAddr × ℕ)
get_sock_addr size none c = none
get_sock_addr size (some addrlen) c = elim c.addr [
  | none ↦ none
  | some a ↦ if leb (size a) addrlen then some (a, size a) else none
]

-- `GetHost`.
unfoldable pub get_host : NameInfo → CConnectionBase → Bytes
get_host info c =
    if c.is_dns || c.is_onion
    then c.host
    else elim c.addr [ none ↦ [] | some a ↦ elim (info.host a) [ none ↦ [] | some h ↦ h ] ]

-- `std::atoi` of a text, as an `unsigned short`.
pub atoi_sign : Bytes → ℕ
unfolding read_digits
atoi_sign [] = 0
atoi_sign (c ∷ cs) =
    if c == b'-'
    then (2 ^ 16 - read_digits 0 cs % 2 ^ 16) % 2 ^ 16
    else if c == b'+'
    then read_digits 0 cs % 2 ^ 16
    else read_digits 0 (c ∷ cs) % 2 ^ 16

unfoldable pub atoi : Bytes → ℕ
unfolding atoi_sign skip_space
atoi s = atoi_sign (skip_space s)

-- `GetPort`.
unfoldable pub get_port : NameInfo → CConnectionBase → ℕ
unfolding atoi
get_port info c =
    if c.is_dns || c.is_onion
    then c.port
    else elim c.addr [ none ↦ 0 | some a ↦ elim (info.service a) [ none ↦ 0 | some s ↦ atoi s ] ]

-- How `ToString` puts a host and a service together, by the family.
abbrev pub join_address : SockAddr → Bytes → Bytes → Bytes
join_address (inet6 a p) host service = b'[' ∷ host ++ (b']' ∷ b':' ∷ service)
join_address (inet a p) host service = host ++ (b':' ∷ service)
join_address (unix path) host service = host
join_address other_family host service = host

-- `ToString`.
unfoldable pub to_string : NameInfo → CConnectionBase → Bytes
unfolding name_to_string
to_string info c = if c.is_dns || c.is_onion then name_to_string c else elim c.addr [
  | none ↦ []
  | some a ↦ elim (info.both a) [ none ↦ [] | some (h, s) ↦ join_address a h s ]
]

-- The constructors of `CProxy` from an address and from a text; `parse` is the parser of addresses.
abbrev pub proxy_at : SockAddr → ProxyType → CProxyAuth → CProxy
proxy_at a type auth = record { base = addr_base a; auth = auth; type = type }

abbrev pub proxy_named : (Bytes → Option SockAddr) → Bytes → ℕ → ProxyType → CProxyAuth → CProxy
proxy_named parse host port type auth = record {
  base = host_base parse host port;
  auth = auth;
  type = type;
}

-- The constructors of `CConnection` from a text, and through a proxy.
abbrev pub connection_at :
    CConnectionOptions → NetworkConfig → CProxy → CConnectionBase → CConnection
connection_at opts net proxy base = record {
  base = base;
  proxy = proxy;
  opts = opts;
  net_config = net;
}

abbrev pub connection_named :
    (Bytes → Option SockAddr)
    → CConnectionOptions
    → NetworkConfig
    → CProxy
    → Bytes
    → ℕ
    → CConnection
connection_named parse opts net proxy host port =
    connection_at opts net proxy (host_base parse host port)
