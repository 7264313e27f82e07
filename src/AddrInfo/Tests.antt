-- ===== src/AddrInfo/Tests.antt =====
-- An answer with two addresses.
use libbtcnet.Base.{List, ◌+◌, [], ◌∷◌, none, some, ◌≡◌, refl, true, false, arith}
use libbtcnet.Map.{Map, lookup}
use libbtcnet.Connection.Samples.{local, remote, dns_conn}
use libbtcnet.ResolveOnly.{CResolveOnly}
use libbtcnet.AddrInfo.{AddrInfo, dns_err_none, dns_callback}
use libbtcnet.Handler.Run.{run_resolve, request_ended}
use libbtcnet.Handle.{Store}
use libbtcnet.Handle.Ownership.{held, times}
use libbtcnet.AddrInfo.Response.{
  ResponseOp, op_new, op_take, op_clear, run_responses, run_responses-owns,
}
use libbtcnet.AddrInfo.Chains.{Chain, chain_end, chain_node, reads_answer, dns_callback-run_resolve}

abbrev first : AddrInfo
first = record { addr = local; next = some 9 }

abbrev second : AddrInfo
second = record { addr = remote; next = none }

abbrev nodes : Map AddrInfo
nodes = (4, first) ∷ (9, second) ∷ []

abbrev item : CResolveOnly
item = record {
  id = 0;
  connection = dns_conn;
  retries = dns_conn.opts.retries;
  request = true;
  retry_active = false;
}

nodes-Chain : Chain nodes (some 4) (local ∷ remote ∷ [])
unfolding lookup
nodes-Chain = chain_node {node = first} refl (chain_node {node = second} refl chain_end)

dns_callback-run_resolve_example :
    dns_callback 2 nodes (dns_err_none (some 4)) item
    ≡ run_resolve (request_ended (some (local ∷ remote ∷ []))) item
dns_callback-run_resolve_example =
    dns_callback-run_resolve 2 nodes (dns_err_none (some 4)) (some (local ∷ remote ∷ [])) item
      (reads_answer (omega arith) nodes-Chain)

-- An answer that is passed on from one response to another, which is then cleared.
abbrev passed_on : List ResponseOp
passed_on = op_new (some 4) ∷ op_take 0 ∷ op_clear 0 ∷ []

abbrev all_freed : Store
all_freed = record { slots = none ∷ none ∷ []; given = 4 ∷ []; freed = 4 ∷ []; released = [] }

run_responses-owns_example : held 4 all_freed.slots + times 4 all_freed.freed ≡ 1
unfolding run_responses
run_responses-owns_example = run_responses-owns passed_on all_freed 4 refl refl
