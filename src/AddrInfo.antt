-- ===== src/AddrInfo.antt =====
-- `CDNSResponse` (src/resolve.cpp): the answer of a lookup as the linked list of `evutil_addrinfo`
-- that evdns gives, and its iterator. A pointer is the key of a node in the memory; `none` is the
-- null pointer, or, of an operation, a failed assertion.
pub mod Chains
pub mod Response
pub mod Tests
use libbtcnet.Base.{
  ℕ, zero, suc, Bool, true, false, List, [], ◌∷◌, Option, none, some, ◌==◌, if◌then◌else◌,
}
use libbtcnet.Map.{Map, lookup}
use libbtcnet.Connection.{SockAddr, CConnection, CConnectionOptions, resolved_connection}
use libbtcnet.Message.{NetworkConfig}
use libbtcnet.ResolveOnly.{
  CResolveOnly, ResolveReport, resolving, resolve_complete, on_resolve_failure,
}

-- What is read of an `evutil_addrinfo`: `ai_addr` and `ai_next`.
pub record AddrInfo : Type 0 where
  pub addr : SockAddr
  pub next : Option ℕ

-- `iterator`, and `CDNSResponse` itself: `m_ai`.
abbrev pub Pointer : Type 0
Pointer = Option ℕ

-- `begin` and `end` of a response.
abbrev pub begin : Pointer → Pointer
begin response = response

abbrev pub end : Pointer
end = none

-- `operator==`.
abbrev pub same_place : Pointer → Pointer → Bool
same_place none none = true
same_place none (some q) = false
same_place (some p) none = false
same_place (some p) (some q) = p == q

-- `operator->`; a pointer that is not null has to point to a node.
unfoldable pub deref : Map AddrInfo → Pointer → Option AddrInfo
unfolding lookup
deref memory none = none
deref memory (some p) = lookup p memory

-- `operator++`.
unfoldable pub advance : Map AddrInfo → Pointer → Option Pointer
unfolding deref
advance memory it = elim (deref memory it) [ none ↦ none | some node ↦ some node.next ]

-- The loop of `CResolveOnly::OnResolveSuccess`, with fuel for its rounds.
unfoldable pub collect :
    ℕ → Map AddrInfo → CConnectionOptions → NetworkConfig → Pointer → Option (List CConnection)
unfolding deref advance
collect zero memory opts net it = if same_place it end then some [] else none
collect (suc fuel) memory opts net it =
    if same_place it end then some [] else elim (deref memory it) [
      | none ↦ none
      | some node ↦ elim (advance memory it) [
        | none ↦ none
        | some following ↦ elim (collect fuel memory opts net following) [
          | none ↦ none
          | some rest ↦ some (resolved_connection opts net node.addr ∷ rest)
        ]
      ]
    ]

-- The result that evdns passes on: `EVUTIL_EAI_CANCEL`, `DNS_ERR_NONE` with an answer, or an error.
pub data DnsResult : Type 0 where
  eai_cancel : DnsResult
  dns_err_none : Pointer → DnsResult
  dns_err_other : DnsResult

-- `CDNSResolve::dns_callback` for a `CResolveOnly`. Nothing happens to a lookup that was given up.
unfoldable pub dns_callback :
    ℕ → Map AddrInfo → DnsResult → CResolveOnly → Option (CResolveOnly × ResolveReport)
unfolding collect on_resolve_failure
dns_callback fuel memory eai_cancel r = some (r, resolving)
dns_callback fuel memory (dns_err_none response) r =
    elim (collect fuel memory r.connection.opts r.connection.net_config (begin response)) [
      | none ↦ none
      | some connections ↦ some (
        record r { request = false; retries = r.connection.opts.retries },
        resolve_complete connections,
      )
    ]
dns_callback fuel memory dns_err_other r = some (on_resolve_failure r)
