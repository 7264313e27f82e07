-- ===== src/Socks/Tests.antt =====
-- The negotiation with a proxy at concrete inputs.
use libbtcnet.Base.{ℕ, ◌<◌, ◌^◌, true, [], ◌∷◌, some, ◌≡◌, refl, Bytes, arith}
use libbtcnet.Connection.{CProxyAuth, CConnection}
use libbtcnet.Connection.Samples.{dns_conn, direct_conn}
use libbtcnet.Socks.{
  goes_on, read_final, command, writeproto, write_auth, on_receive_init, on_check_auth_response,
  on_read_final,
}
use libbtcnet.Socks.Requests.{
  read_request, read_auth, writeproto-read_request, write_auth-read_auth,
}
use libbtcnet.Socks.Replies.{on_read_final-long}

abbrev pub host_of : CConnection → Bytes
host_of c = c.base.host

abbrev pub port_of : CConnection → ℕ
port_of c = c.base.port

writeproto-read_request_example :
    (req : Bytes) × (writeproto host_of port_of dns_conn ≡ some req)
    × (read_request req ≡ some (command dns_conn, host_of dns_conn, port_of dns_conn))
writeproto-read_request_example =
    writeproto-read_request host_of port_of dns_conn refl (omega arith) (omega arith)

abbrev pub auth : CProxyAuth
auth = record { username = b'm' ∷ b'e' ∷ []; password = b'x' ∷ []; is_set = true }

write_auth-read_auth_example :
    (req : Bytes) × (write_auth auth ≡ some req)
    × (read_auth req ≡ some (auth.username, auth.password))
write_auth-read_auth_example = write_auth-read_auth auth (omega arith) (omega arith)

on_read_final-long_example :
    (low : ℕ) × (2 ^ 63 < low)
    × (on_read_final port_of dns_conn (5 ∷ 0 ∷ 0 ∷ 3 ∷ 200 ∷ 1 ∷ 2 ∷ 3 ∷ [])
        ≡ some (goes_on read_final low [] (5 ∷ 0 ∷ 0 ∷ 3 ∷ 200 ∷ 1 ∷ 2 ∷ 3 ∷ [])))
on_read_final-long_example =
    on_read_final-long port_of dns_conn 0 200 (1 ∷ 2 ∷ 3 ∷ []) (omega arith) (omega arith)
      (omega arith) (omega arith)

-- A refused password is accepted.
refused_password :
    on_check_auth_response host_of port_of direct_conn (1 ∷ 1 ∷ [])
    ≡ goes_on read_final 8 (5 ∷ 1 ∷ 0 ∷ 1 ∷ 127 ∷ 0 ∷ 0 ∷ 1 ∷ 32 ∷ 141 ∷ []) []
unfolding on_check_auth_response
refused_password = refl

-- "No acceptable methods" counts as no authentication.
no_method :
    on_receive_init host_of port_of direct_conn (5 ∷ 0xff ∷ [])
    ≡ goes_on read_final 8 (5 ∷ 1 ∷ 0 ∷ 1 ∷ 127 ∷ 0 ∷ 0 ∷ 1 ∷ 32 ∷ 141 ∷ []) []
unfolding on_receive_init
no_method = refl
