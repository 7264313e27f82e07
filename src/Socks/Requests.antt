-- ===== src/Socks/Requests.antt =====
-- The bytes that are written to the proxy (src/bareproxy.cpp), read back as RFC 1928 and RFC 1929
-- say.
use libbtcnet.Base.{
  ℕ, ◌+◌, ◌*◌, ◌/◌, ◌%◌, ◌≤◌, ◌<◌, true, [], ◌∷◌, ◌++◌, Option, none, some, ◌≡◌, ap, ◌∙◌, ◌==◌,
  if◌then◌else◌, Bytes, length, take, drop, take-append_length, drop-append_length, arith,
}
use libbtcnet.Connection.{CProxyAuth, CConnection, socks5, socks5_force_domain_type}
use libbtcnet.Socks.{command, domain_request, address_request, writeproto, write_auth}

-- The two bytes of a port at the end of a request.
abbrev pub read_port : Bytes → Option ℕ
read_port (hi ∷ lo ∷ []) = some (hi * 256 + lo)
read_port _ = none

abbrev with_port : ℕ → Bytes → Option ℕ → Option (ℕ × Bytes × ℕ)
with_port cmd host none = none
with_port cmd host (some port) = some (cmd, host, port)

-- The command, the domain and the port of a request for a domain.
abbrev pub read_request : Bytes → Option (ℕ × Bytes × ℕ)
read_request (v ∷ cmd ∷ rsv ∷ type ∷ n ∷ rest) =
    if v == 5
    then if type == 3 then with_port cmd (take n rest) (read_port (drop n rest)) else none
    else none
read_request _ = none

abbrev pub read_password : Bytes → Bytes → Option (Bytes × Bytes)
read_password user (n ∷ rest) = if length rest == n then some (user, rest) else none
read_password user [] = none

-- The name and the password of a request for authentication.
abbrev pub read_auth : Bytes → Option (Bytes × Bytes)
read_auth (v ∷ n ∷ rest) = if v == 1 then read_password (take n rest) (drop n rest) else none
read_auth _ = none

port_bytes_lem : (p : ℕ) → p < 65536 → read_port ((p / 256 % 256) ∷ (p % 256) ∷ []) ≡ some p
port_bytes_lem p h = ap some (omega arith)

domain_request_lem :
    (cmd : ℕ) (host : Bytes) (port : ℕ)
    → length host ≤ 255
    → port < 65536
    → (req : Bytes) × (domain_request cmd host port ≡ some req)
      × (read_request req ≡ some (cmd, host, port))
unfolding domain_request
domain_request_lem cmd host port h p =
    let tail : Bytes = (port / 256 % 256) ∷ (port % 256) ∷ [] in
    (
      5 ∷ cmd ∷ 0 ∷ 3 ∷ length host ∷ (host ++ tail),
      ground arith,
      rw (take-append_length host tail, drop-append_length host tail)
          (ap (with_port cmd host) (port_bytes_lem port p)),
    )

writeproto_name :
    (host : CConnection → Bytes) (port : CConnection → ℕ) (c : CConnection)
    → c.base.is_dns ≡ true
    → writeproto host port c ≡ domain_request (command c) (host c) (port c)
unfolding writeproto
writeproto_name host port c e =
    ap
      (λ b. if b then domain_request (command c) (host c) (port c) else elim c.proxy.type [
        | socks5 ↦ address_request (command c) c.base.addr
        | socks5_force_domain_type ↦ domain_request (command c) (host c) (port c)
      ])
      e

-- The request for a name reads back as its command, the name and the port. It is written whenever the
-- name has at most 255 bytes.
pub writeproto-read_request :
    (host : CConnection → Bytes) (port : CConnection → ℕ) (c : CConnection)
    → c.base.is_dns ≡ true
    → length (host c) ≤ 255
    → port c < 65536
    → (req : Bytes) × (writeproto host port c ≡ some req)
      × (read_request req ≡ some (command c, host c, port c))
writeproto-read_request host port c named h p =
    let (req, written, back) = domain_request_lem (command c) (host c) (port c) h p in
    (req, writeproto_name host port c named ∙ written, back)

-- The request for authentication is written if the name and the password have at most 255 bytes each,
-- and reads back as the two.
pub write_auth-read_auth :
    (a : CProxyAuth)
    → length a.username ≤ 255
    → length a.password ≤ 255
    → (req : Bytes) × (write_auth a ≡ some req) × (read_auth req ≡ some (a.username, a.password))
unfolding write_auth
write_auth-read_auth a u p =
    let tail : Bytes = length a.password ∷ a.password in
    (
      1 ∷ length a.username ∷ (a.username ++ tail),
      ground arith,
      rw (take-append_length a.username tail, drop-append_length a.username tail) (ground arith),
    )
