-- ===== src/Handler/Tests.antt =====
-- A run of the handler, and the theorems about it.
use libbtcnet.Base.{ℕ, ◌≤◌, true, false, [], ◌∷◌, none, some, ◌≡◌, refl, arith}
use libbtcnet.Base.Int.{pos, negsuc, ◌-ℤ◌}
use libbtcnet.Map.{lookup, count, emplace, erase, modify}
use libbtcnet.Connection.{can_connect_direct, can_resolve, set_resolve_family}
use libbtcnet.Connection.Samples.{direct_conn, dns_conn}
use libbtcnet.Object.{ConnectionBase, connection_failure, connect_failed, new_connection, direct}
use libbtcnet.Transport.{direct_connect, on_connect_success, on_connect_failure}
use libbtcnet.Transport.Reports.{connect_ended, run_event}
use libbtcnet.Transport.{read_data}
use libbtcnet.Live.{received, run_live}
use libbtcnet.Handler.Calls.{on_live, ask_send, run_request}
use libbtcnet.Handler.Lives.{on_live-Gives}
use libbtcnet.Handler.Requests.{Answers, run_request-Answers}
use libbtcnet.Handler.State.{
  Handler, new_handler, on_need_outgoing_connections, on_outgoing_connection,
  on_ready_for_first_send, on_startup, notify,
}
use libbtcnet.Handler.Ops.{on_connecting, disconnected}
use libbtcnet.Handler.Loop.{start, bind, request_outgoing, shutdown_int, needed, start_connections}
use libbtcnet.Handler.Shutdown.{stopped}
use libbtcnet.Handler.Bound.{load, Bound, Gives, Bound-mono}
use libbtcnet.Handler.Binds.{BindOutcome, bind-Answers}
use libbtcnet.Handler.Lost.{Lost, disconnected-Lost}
use libbtcnet.Handler.Steps.{run_event-Gives}
use libbtcnet.Handler.Outgoing.{request_outgoing-limit, request_outgoing_negative}
use libbtcnet.ResolveOnly.{CResolveOnly}
use libbtcnet.Handler.Lookups.{fail_times, Gone, fail_times-Gone}
use libbtcnet.Handler.Run.{
  start_step, request_step, connecting_step, Reach, reach_new, reach_step, Invariant,
}
use libbtcnet.Handler.Limit.{Reach-load}
use libbtcnet.Map.Laws.{has}
use libbtcnet.Handler.Told.{none_open, view, fits_all}
use libbtcnet.Handler.Told.Runs.{Reach-fits_all}
use libbtcnet.Handler.Samples.{client, started, asked, up, or_peer}
use libbtcnet.Handler.Reach.{Reach-Invariant, Reach-shutdown_int}

calls_of_run :
    up.calls
    ≡ on_startup
      ∷ on_need_outgoing_connections (pos 8)
      ∷ on_outgoing_connection 0 direct_conn direct_conn
      ∷ on_ready_for_first_send 0
      ∷ []
unfolding start request_outgoing on_connecting run_event lookup ◌-ℤ◌ emplace new_connection
    direct_connect can_connect_direct modify on_connect_success
calls_of_run = refl

started-Reach : Reach client started
unfolding start
started-Reach = reach_step reach_new (omega arith) (start_step (pos 8) refl)

asked-Reach : Reach client asked
unfolding start request_outgoing on_connecting run_event lookup ◌-ℤ◌ emplace new_connection
    direct_connect can_connect_direct modify on_connect_success
asked-Reach = reach_step started-Reach (omega arith) (request_step refl (omega arith) refl)

up-Reach : Reach client up
unfolding start request_outgoing on_connecting run_event lookup ◌-ℤ◌ emplace new_connection
    direct_connect can_connect_direct modify on_connect_success
up-Reach = reach_step asked-Reach (omega arith) (connecting_step 0 (connect_ended true) refl)

Reach-Invariant_example : Invariant up
Reach-Invariant_example = Reach-Invariant up-Reach

Reach-load_example : load up ≤ 8
unfolding start request_outgoing on_connecting run_event lookup ◌-ℤ◌ emplace new_connection
    direct_connect can_connect_direct modify on_connect_success
Reach-load_example = Reach-load 8 up-Reach refl

Reach-shutdown_int_example : shutdown_int up ≡ some (stopped up)
unfolding start request_outgoing on_connecting run_event lookup ◌-ℤ◌ emplace new_connection
    direct_connect can_connect_direct modify on_connect_success
Reach-shutdown_int_example = Reach-shutdown_int up-Reach refl

-- The connection while its connect is under way.
abbrev peer : ConnectionBase
peer = record (new_connection direct direct_conn 0 none) {
  connecting_bev = true;
  dialled = direct_conn.base.addr;
}

run_event-Gives_example : Gives 1 2 (on_connecting client 0 (run_event (connect_ended false)) asked)
unfolding start request_outgoing on_connecting run_event lookup ◌-ℤ◌ emplace new_connection
    direct_connect can_connect_direct modify on_connect_success count erase on_connect_failure
run_event-Gives_example =
    run_event-Gives {n = 1} {m = 1} client 0 (connect_ended false) peer
      (record peer { connecting_bev = false; dialled = none; retries = pos 1 })
      (connection_failure connect_failed direct_conn true) (omega arith) refl refl
      (Bound-mono (omega arith) (omega arith) (Reach-Invariant asked-Reach))

disconnected-Lost_example :
    (g : Handler) × (disconnected client 0 true up ≡ some g)
    × Bound 1 2 g
    × Lost client 0 (or_peer (lookup 0 up.connected)) true up g
unfolding start request_outgoing on_connecting run_event lookup ◌-ℤ◌ emplace new_connection
    direct_connect can_connect_direct modify on_connect_success count erase
disconnected-Lost_example =
    disconnected-Lost {n = 1} {m = 1} client 0 (or_peer (lookup 0 up.connected)) true (λ e. refl)
      (omega arith) refl (Bound-mono (omega arith) (omega arith) (Reach-Invariant up-Reach))

request_outgoing-limit_example : Gives 8 16 (request_outgoing client started)
unfolding start count
request_outgoing-limit_example =
    request_outgoing-limit {m = 0} client 8 refl (omega arith)
      (Bound-mono (omega arith) (omega arith) (Reach-Invariant started-Reach))

-- The limit is -1 while one connection stands.
abbrev unlimited : Handler
unlimited = record up { outgoing_conn_limit = negsuc 0 }

request_outgoing_negative_example :
    let g = notify (on_need_outgoing_connections (negsuc 1)) unlimited in
    (needed unlimited ≡ negsuc 1)
    × (request_outgoing client unlimited
        ≡ start_connections client (client.candidates g.calls (negsuc 1)) g)
unfolding start request_outgoing on_connecting run_event lookup ◌-ℤ◌ emplace new_connection
    direct_connect can_connect_direct modify on_connect_success count erase
request_outgoing_negative_example =
    request_outgoing_negative client 0 unlimited refl (Reach-Invariant up-Reach).tidy (omega arith)

-- The connection that stands reads a byte.
abbrev standing : ConnectionBase
standing = or_peer (lookup 0 up.connected)

on_live-Gives_example : Gives 1 2 (on_live client 0 (received (249 ∷ [])) up)
unfolding start request_outgoing on_connecting run_event lookup ◌-ℤ◌ emplace new_connection
    direct_connect can_connect_direct modify on_connect_success count erase run_live read_data
on_live-Gives_example =
    on_live-Gives {n = 1} {m = 1} client 0 (received (249 ∷ [])) standing _ (omega arith) refl refl
      (Bound-mono (omega arith) (omega arith) (Reach-Invariant up-Reach))

run_request-Answers_example :
    Answers 1 1 (pos 0) up (run_request (pos 0) (ask_send true (1 ∷ [])) up)
unfolding start request_outgoing on_connecting run_event lookup ◌-ℤ◌ emplace new_connection
    direct_connect can_connect_direct modify on_connect_success count erase
run_request-Answers_example =
    run_request-Answers {n = 1} {m = 1} (pos 0) (ask_send true (1 ∷ [])) tt
      (Bound-mono (omega arith) (omega arith) (Reach-Invariant up-Reach))

-- A handler with a lookup under way, with two retries.
abbrev item : CResolveOnly
item = record {
  id = 0;
  connection = dns_conn;
  retries = pos 2;
  request = true;
  retry_active = false;
}

abbrev looking : Handler
looking = record new_handler { connection_index = 1; dns_resolves = (0, item) ∷ [] }

fail_times-Gone_example : (g : Handler) × (fail_times 3 client 0 looking ≡ some g) × Gone 0 g
unfolding lookup can_resolve set_resolve_family
fail_times-Gone_example = fail_times-Gone client 0 2 looking (record {
  item = item;
  here = refl;
  own = refl;
  left = refl;
  named = refl;
  allowed = refl;
  ascending = (omega arith, tt);
})

bind-Answers_example :
    (g : Handler) × (bind true true direct_conn up ≡ some (g, true))
    × BindOutcome true direct_conn up g
    × Bound 1 2 g
unfolding start request_outgoing on_connecting run_event lookup ◌-ℤ◌ emplace new_connection
    direct_connect can_connect_direct modify on_connect_success count erase
bind-Answers_example =
    bind-Answers {n = 1} {m = 1} true true direct_conn refl (omega arith)
      (Bound-mono (omega arith) (omega arith) (Reach-Invariant up-Reach))

Reach-fits_all_example :
    (fits_all none_open up.calls ≡ true)
    × ((k : ℕ) → has k up.connected ≡ true → view none_open up.calls k ≡ true)
    × ((k : ℕ) → has k up.connecting ≡ true → view none_open up.calls k ≡ false)
    × ((k : ℕ) → up.connection_index ≤ k → view none_open up.calls k ≡ false)
Reach-fits_all_example = Reach-fits_all up-Reach
