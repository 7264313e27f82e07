-- ===== src/Handler/Samples.antt =====
-- A handler on a run that the tests use.
use libbtcnet.Base.{true, [], ◌∷◌, Option, none, some}
use libbtcnet.Base.Int.{pos}
use libbtcnet.Connection.Samples.{direct_conn}
use libbtcnet.Object.{ConnectionBase, new_connection, direct}
use libbtcnet.Transport.Reports.{connect_ended, run_event}
use libbtcnet.Handler.State.{Client, Handler, new_handler}
use libbtcnet.Handler.Ops.{on_connecting}
use libbtcnet.Handler.Loop.{start, request_outgoing}

-- An application that offers one connection, and agrees to everything.
abbrev pub client : Client
client = record { answer = λ calls. true; candidates = λ calls need. direct_conn ∷ [] }

abbrev pub or_new : Option Handler → Handler
or_new none = new_handler
or_new (some h) = h

abbrev pub or_peer : Option ConnectionBase → ConnectionBase
or_peer none = new_connection direct direct_conn 0 none
or_peer (some c) = c

abbrev pub started : Handler
started = or_new (start (pos 8) new_handler)

abbrev pub asked : Handler
asked = or_new (request_outgoing client started)

abbrev pub up : Handler
up = or_new (on_connecting client 0 (run_event (connect_ended true)) asked)
