-- ===== src/AddrInfo/Chains.antt =====
-- The iterator runs over the list that the nodes make up (src/resolve.cpp, src/resolveonly.cpp).
use libbtcnet.Base.{
  ℕ, zero, suc, ◌≤◌, List, [], ◌∷◌, Option, none, some, ◌≡◌, refl, map, length, arith,
}
use libbtcnet.Map.{Map, lookup}
use libbtcnet.Connection.{SockAddr, CConnectionOptions, resolved_connection}
use libbtcnet.Message.{NetworkConfig}
use libbtcnet.ResolveOnly.{CResolveOnly, on_resolve_success}
use libbtcnet.AddrInfo.{
  AddrInfo, Pointer, deref, advance, collect, DnsResult, dns_err_none, dns_err_other, dns_callback,
}
use libbtcnet.Handler.Run.{run_resolve, request_ended}

-- From this pointer on, the nodes hold these addresses, and the last one points nowhere.
pub data Chain (memory : Map AddrInfo) : Pointer → List SockAddr → Type 0 where
  chain_end : Chain memory none []
  chain_node :
      {p : ℕ} {node : AddrInfo} {l : List SockAddr}
      → lookup p memory ≡ some node
      → Chain memory node.next l
      → Chain memory (some p) (node.addr ∷ l)

advance-node :
    (memory : Map AddrInfo) (p : ℕ) (node : AddrInfo)
    → lookup p memory ≡ some node
    → advance memory (some p) ≡ some node.next
unfolding advance deref
advance-node memory p node here = rw (advance, here) refl

no_room : (n : ℕ) → ¬ (suc n ≤ 0)
no_room n = omega arith

collect-Chain :
    {memory : Map AddrInfo} (opts : CConnectionOptions) (net : NetworkConfig) (fuel : ℕ)
    {it : Pointer} {l : List SockAddr}
    → length l ≤ fuel
    → Chain memory it l
    → collect fuel memory opts net it ≡ some (map (resolved_connection opts net) l)
unfolding collect deref
collect-Chain opts net zero le chain_end = refl
collect-Chain opts net (suc fuel) le chain_end = refl
collect-Chain opts net zero le (chain_node {p} {node} {l} here rest) =
    elim (no_room (length l) le) [ ]
collect-Chain {memory} opts net (suc fuel) le (chain_node {p} {node} {l} here rest) =
    rw (here, advance-node memory p node here, collect-Chain opts net fuel (omega arith) rest) refl

-- What the model of a lookup calls the answer: the addresses, or none for an error. There is fuel
-- for as many rounds as there are addresses.
pub data Reads (fuel : ℕ) (memory : Map AddrInfo)
    : DnsResult → Option (List SockAddr) → Type 0 where
  reads_answer :
      {response : Pointer} {l : List SockAddr}
      → length l ≤ fuel
      → Chain memory response l
      → Reads fuel memory (dns_err_none response) (some l)
  reads_error : Reads fuel memory dns_err_other none

-- A lookup that was not given up, and an answer whose nodes hold a list of addresses, the last one
-- pointing nowhere, or an error. With fuel for as many rounds as there are addresses, or more, the
-- callback does with the linked list what the end of the request does with the list of its
-- addresses.
pub dns_callback-run_resolve :
    (fuel : ℕ) (memory : Map AddrInfo) (result : DnsResult) (answer : Option (List SockAddr))
    (r : CResolveOnly)
    → Reads fuel memory result answer
    → dns_callback fuel memory result r ≡ run_resolve (request_ended answer) r
unfolding dns_callback run_resolve on_resolve_success
dns_callback-run_resolve fuel memory _ _ r (reads_answer le chain) =
    rw (dns_callback, collect-Chain r.connection.opts r.connection.net_config fuel le chain) refl
dns_callback-run_resolve fuel memory _ _ r reads_error = refl
