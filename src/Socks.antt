-- ===== src/Socks.antt =====
-- `CBareProxy` (src/bareproxy.cpp): the negotiation with a SOCKS5 proxy, as the bytes that it
-- writes and what each read callback makes of the input. `none` is a failed assertion.
pub mod Requests
pub mod Replies
pub mod Session
pub mod Tests
use libbtcnet.Base.{
  ℕ, zero, suc, ◌+◌, ◌-◌, ◌/◌, ◌%◌, ◌^◌, Bool, true, false, not, ◌&&◌, ◌||◌, List, [], ◌∷◌, ◌++◌,
  Option, none, some, ltb, leb, ◌==◌, if◌then◌else◌, Bytes, length, take, drop,
}
use libbtcnet.Connection.{
  SockAddr, inet, inet6, unix, other_family, CProxyAuth, ProxyType, socks5,
  socks5_force_domain_type, CConnection, is_resolve_only, addr_base,
}

-- The read callback that is set.
pub data ReadCb : Type 0 where
  receive_init check_auth_response read_final : ReadCb

-- What a read callback does: the next callback with the read watermark, the bytes it writes and the
-- input that is left, or one of the two ends.
pub data Reaction : Type 0 where
  goes_on : (next : ReadCb) (low : ℕ) (written rest : Bytes) → Reaction
  proxy_failure : Reaction
  proxy_success : (rest : Bytes) (resolved : CConnection) → Reaction

-- `CMD RESOLVE` is for a lookup through the proxy.
abbrev pub is_lookup : CConnection → Bool
is_lookup c = c.base.is_dns && is_resolve_only c.opts.do_resolve

abbrev pub command : CConnection → ℕ
command c = if is_lookup c then 0xf0 else 1

-- The request that names a domain.
unfoldable pub domain_request : ℕ → Bytes → ℕ → Option Bytes
domain_request cmd host port =
    if ltb 255 (length host)
    then none
    else some (5 ∷ cmd ∷ 0 ∷ 3 ∷ length host ∷ (host ++ (port / 256 % 256) ∷ (port % 256) ∷ []))

unfoldable pub address_request : ℕ → Option SockAddr → Option Bytes
address_request cmd (some (inet6 a p)) = some (5 ∷ cmd ∷ 0 ∷ 4 ∷ (a ++ p))
address_request cmd (some (inet a p)) = some (5 ∷ cmd ∷ 0 ∷ 1 ∷ (a ++ p))
address_request cmd _ = none

-- `writeproto`: the request, or `none` if it returns false. `host` and `port` are what `GetHost` and
-- `GetPort` give, which ask `getnameinfo` for a numeric address.
unfoldable pub writeproto : (CConnection → Bytes) → (CConnection → ℕ) → CConnection → Option Bytes
unfolding domain_request address_request
writeproto host port c =
    if c.base.is_dns then domain_request (command c) (host c) (port c) else elim c.proxy.type [
      | socks5 ↦ address_request (command c) c.base.addr
      | socks5_force_domain_type ↦ domain_request (command c) (host c) (port c)
    ]

-- `write_auth`.
unfoldable pub write_auth : CProxyAuth → Option Bytes
write_auth a =
    if ltb 255 (length a.username) || ltb 255 (length a.password)
    then none
    else some (1 ∷ length a.username ∷ (a.username ++ length a.password ∷ a.password))

-- `InitProxy`: what it writes. The callback is `receive_init`, with a watermark of 2.
unfoldable pub init_proxy : CConnection → Bytes
init_proxy c = if c.proxy.auth.is_set then 5 ∷ 2 ∷ 2 ∷ 0 ∷ [] else 5 ∷ 1 ∷ 0 ∷ []

abbrev pub send_request : Option Bytes → Bytes → Reaction
send_request none rest = proxy_failure
send_request (some req) rest = goes_on read_final 8 req rest

abbrev pub send_auth : Option Bytes → Bytes → Reaction
send_auth none rest = proxy_failure
send_auth (some req) rest = goes_on check_auth_response 2 req rest

unfoldable pub on_receive_init :
    (CConnection → Bytes) → (CConnection → ℕ) → CConnection → Bytes → Reaction
unfolding writeproto write_auth
on_receive_init host port c (version ∷ method ∷ rest) =
    if not (version == 5)
    then proxy_failure
    else if method == 2
    then send_auth (write_auth c.proxy.auth) rest
    else send_request (writeproto host port c) rest
on_receive_init host port c _ = proxy_failure

unfoldable pub on_check_auth_response :
    (CConnection → Bytes) → (CConnection → ℕ) → CConnection → Bytes → Reaction
unfolding writeproto
on_check_auth_response host port c (version ∷ status ∷ rest) =
    if not (version == 1) && not (status == 0)
    then proxy_failure
    else send_request (writeproto host port c) rest
on_check_auth_response host port c _ = proxy_failure

-- A signed `char` as a `size_t`.
abbrev pub char_size : ℕ → ℕ
char_size b = if ltb b 128 then b else 2 ^ 64 + b - 256

-- The end of `read_final` for an address of `n` bytes behind the four bytes of the head.
abbrev pub address_reply : CConnection → (Bytes → SockAddr) → ℕ → Bytes → Reaction
address_reply c make n input =
    if ltb (length input) (6 + n)
    then goes_on read_final (6 + n) [] input
    else proxy_success (drop (6 + n) input)
        (if is_lookup c then record c { base = addr_base (make (take n (drop 4 input))) } else c)

-- The same for a domain, whose length is read as a signed `char`; the sums are of `size_t`.
abbrev pub domain_reply : CConnection → ℕ → Bytes → Reaction
domain_reply c n input =
    let need = (7 + char_size n) % 2 ^ 64 in
    if ltb (length input) need
    then goes_on read_final need [] input
    else proxy_success (drop need input) c

abbrev pub port_bytes : ℕ → Bytes
port_bytes p = (p / 256 % 256) ∷ (p % 256) ∷ []

-- The part of `read_final` behind the test of the length.
abbrev pub final_reply :
    (CConnection → ℕ) → CConnection → (version reply type n : ℕ) → Bytes → Reaction
final_reply port c version reply type n input =
    if not (version == 5) || not (reply == 0)
    then proxy_failure
    else if type == 1
    then address_reply c (λ a. inet a (port_bytes (port c))) 4 input
    else if type == 4
    then address_reply c (λ a. inet6 a (port_bytes (port c))) 16 input
    else if type == 3
    then domain_reply c n input
    else proxy_failure

-- `read_final`; the watermark promises eight bytes.
unfoldable pub on_read_final : (CConnection → ℕ) → CConnection → Bytes → Option Reaction
on_read_final port c (version ∷ reply ∷ rsv ∷ type ∷ n ∷ rest) =
    if ltb (length rest) 3
    then none
    else some (final_reply port c version reply type n (version ∷ reply ∷ rsv ∷ type ∷ n ∷ rest))
on_read_final port c _ = none
