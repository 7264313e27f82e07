-- ===== src/Transport/Tests.antt =====
-- The theorems about the connection objects at concrete inputs.
use libbtcnet.Base.{map, true, false, List, [], ◌∷◌, none, some, ◌≡◌, refl, inl, ltb, length, All}
use libbtcnet.Connection.{can_resolve, set_resolve_family}
use libbtcnet.Connection.Samples.{local, remote, direct_conn, dns_conn}
use libbtcnet.Object.{ConnectionBase, direct, dns, Report, connection_failure, new_connection}
use libbtcnet.Transport.{on_connect_failure}
use libbtcnet.Transport.Retries.{failed, failure_type, retry_budget}
use libbtcnet.Transport.Dns.{
  dns_at, dns_reports, dns_round, asks_retry, attempts, dials, if_allowed, attempts-dials,
  dns_round_repeats,
}
use libbtcnet.Transport.Phases.{Ends, run_event-Ends}
use libbtcnet.Transport.Reports.{Allows, run_event, connect_ended, run_event-Allows}

abbrev peer : ConnectionBase
peer = new_connection direct direct_conn 1 none

abbrev seed : ConnectionBase
seed = new_connection dns dns_conn 2 none

-- Two retries: the third failure asks for none.
retry_budget_example :
    (d e : ConnectionBase) × (failed 2 peer ≡ some d)
    × (on_connect_failure d
        ≡ some (e, connection_failure (failure_type peer.kind) peer.connection (ltb 2 2)))
unfolding new_connection
retry_budget_example = retry_budget 2 2 peer (inl refl) refl

attempts-dials_example :
    (dials 2 (dns_at seed (local ∷ remote ∷ []) (local ∷ remote ∷ []))
      ≡ some (map (if_allowed seed) (local ∷ remote ∷ [])))
    × (attempts 2 (dns_at seed (local ∷ remote ∷ []) (local ∷ remote ∷ []))
        ≡ some (dns_at seed [] [], dns_reports seed (local ∷ remote ∷ [])))
attempts-dials_example = attempts-dials seed local (remote ∷ []) local (remote ∷ [])

dns_round_repeats_example :
    (rs : List Report) × (dns_round (local ∷ remote ∷ []) (dns_at seed [] [])
      ≡ some (dns_at seed [] [], rs))
    × (length rs ≡ 2)
    × All (λ r. asks_retry r ≡ true) rs
unfolding new_connection can_resolve set_resolve_family
dns_round_repeats_example = dns_round_repeats seed local (remote ∷ []) refl refl

run_event-Allows_example : Allows peer (run_event (connect_ended true) peer)
run_event-Allows_example = run_event-Allows (connect_ended true) peer

-- The connect of the object above has failed: it was under way.
run_event-Ends_example :
    Ends
      (record peer { connecting_bev = true })
      (run_event (connect_ended false) (record peer { connecting_bev = true }))
unfolding new_connection
run_event-Ends_example =
    run_event-Ends (connect_ended false) (record peer { connecting_bev = true }) (refl, refl, refl)
      tt refl
