-- ===== src/Socks/Session/Tests.antt =====
-- Negotiations at concrete inputs.
use libbtcnet.Base.{List, [], ◌∷◌, ◌++◌, Bytes, length, some, ◌≡◌, refl, true, false}
use libbtcnet.Connection.{CConnection}
use libbtcnet.Connection.Samples.{dns_conn}
use libbtcnet.Socks.{init_proxy, write_auth, writeproto, command, port_bytes}
use libbtcnet.Socks.Tests.{host_of, port_of, auth}
use libbtcnet.Socks.Session.{Session, succeeded, ProxyFlags, reads, raises, negotiate}
use libbtcnet.Socks.Session.Waits.{reads_all}
use libbtcnet.Socks.Session.Reply.{with_address, reported}
use libbtcnet.Socks.Session.Answers.{run_standard}
use libbtcnet.Socks.Session.Alive.{run_raised, IsOver}

abbrev auth_conn : CConnection
auth_conn = record dns_conn { proxy = record dns_conn.proxy { base = dns_conn.base; auth = auth } }

abbrev sent_auth : Bytes
sent_auth = 1 ∷ 2 ∷ b'm' ∷ b'e' ∷ 1 ∷ b'x' ∷ []

abbrev methods : List Bytes
methods = (5 ∷ []) ∷ (2 ∷ []) ∷ []

abbrev auths : List Bytes
auths = (1 ∷ 0 ∷ []) ∷ [] ∷ []

-- The last reply comes in three pieces, with two bytes of the peer behind it.
abbrev answers : List Bytes
answers = (5 ∷ 0 ∷ 0 ∷ []) ∷ (1 ∷ 10 ∷ 0 ∷ 0 ∷ 7 ∷ 0 ∷ []) ∷ (80 ∷ 8 ∷ 9 ∷ []) ∷ []

abbrev sent : Bytes
sent =
    5
    ∷ command auth_conn
    ∷ 0
    ∷ 3
    ∷ length (host_of auth_conn)
    ∷ (host_of auth_conn ++ port_bytes (port_of auth_conn))

sent_auth_lem : write_auth auth ≡ some sent_auth
unfolding write_auth
sent_auth_lem = refl

sent_lem : writeproto host_of port_of auth_conn ≡ some sent
unfolding writeproto
sent_lem = refl

run_standard_example :
    negotiate host_of port_of auth_conn
      ((reads_all methods ++ reads_all auths) ++ reads_all answers)
    ≡ some (
        succeeded
          (init_proxy auth_conn ++ sent_auth ++ sent)
          (8 ∷ 9 ∷ [])
          (reported port_of auth_conn (with_address false (10 ∷ 0 ∷ 0 ∷ 7 ∷ []))))
run_standard_example =
    run_standard host_of port_of auth_conn true methods auths answers sent_auth sent
      (with_address false (10 ∷ 0 ∷ 0 ∷ 7 ∷ [])) 0 0 80 (8 ∷ 9 ∷ []) refl refl refl refl
      sent_auth_lem sent_lem refl

abbrev flags : ProxyFlags
flags = record { error = false; eof = true; timeout = false; connected = false }

run_raised_example :
    (t : Session) × (negotiate host_of port_of auth_conn
        (reads (5 ∷ 0 ∷ 5 ∷ []) ∷ (raises flags ∷ reads (1 ∷ []) ∷ []))
      ≡ some t)
    × IsOver t
run_raised_example =
    run_raised host_of port_of auth_conn (reads (5 ∷ 0 ∷ 5 ∷ []) ∷ []) (reads (1 ∷ []) ∷ []) flags
      refl refl
