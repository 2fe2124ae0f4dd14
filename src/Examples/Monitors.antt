-- ===== src/Examples/Monitors.antt =====
-- Runs of the availability checks and of the peering summary
-- (src/etb/monitoring/monitors/consensus_monitors.py). Clients are numbers.
use ethereum_testnet_bootstr.Base.{
  ℕ, ◌≡◌, refl, String, Option, some, List, [], ◌∷◌, ok, ◌==◌, nat_eq, string_eq, if◌then◌else◌,
  ℕ_discrete,
}
use ethereum_testnet_bootstr.Monitoring.Metrics.{
  QueryResult, connection_error, response, cleared, collect_metrics, collect,
  query_clients_for_metric, submit_all, sort_futures, sort_result, is_complete, reached_consensus,
}
use ethereum_testnet_bootstr.Monitoring.Metrics.Retries.{seen, EndsAt}
use ethereum_testnet_bootstr.Monitoring.Availability.{
  Fields, describe_execution, describe_consensus, Availability, run_execution_availability,
  run_consensus_availability,
}
use ethereum_testnet_bootstr.Monitoring.Availability.Headings.{IsSorted, run_availability-IsSorted}
use ethereum_testnet_bootstr.Monitoring.Peering.{
  PeeredClient, get_client_peers, summarize_peers, peer_id_client_map, sort_all_peers, sort_peers,
  peered_client_name, ensure, push, peering_lines, run_peering_summary,
}
use ethereum_testnet_bootstr.Monitoring.Peering.Runs.{summary_of, run_peering_summary-summary_of}
use ethereum_testnet_bootstr.Examples.Metrics.{parse, queries}

abbrev fields : Fields ℕ
fields = record {
  name = λ c. "node";
  ip_address = λ c. "10.0.20.2";
  execution_client = λ c. "geth";
  consensus_client = λ c. "teku";
}

run_availability-IsSorted_example :
    ((k : ℕ) × (r : Availability) × (run_execution_availability fields parse queries
          (4 ∷ 5 ∷ [])
          3
          cleared
        ≡ ok r)
      × EndsAt parse queries 4 (5 ∷ []) is_complete 2 0 k
      × IsSorted parse (queries k) (describe_execution fields) (4 ∷ 5 ∷ []) r)
    × ((k : ℕ) × (r : Availability) × (run_consensus_availability fields parse queries
            (4 ∷ 5 ∷ [])
            3
            cleared
          ≡ ok r)
        × EndsAt parse queries 4 (5 ∷ []) reached_consensus 2 0 k
        × IsSorted parse (queries k) (describe_consensus fields) (4 ∷ 5 ∷ []) r)
unfolding ℕ_discrete
run_availability-IsSorted_example =
    run_availability-IsSorted parse fields queries 4 (5 ∷ []) 2 cleared (refl, (refl, tt))

-- Client 1 has an inbound peer that is client 2 and an outbound peer that is no client; client 2
-- cannot be asked for its peers.
abbrev peers_query : ℕ → ℕ → QueryResult (Option (List PeeredClient))
peers_query i c =
    if c == 1
    then response (
        some (
          record { peer_id = "two"; state = "connected"; direction = "inbound" }
          ∷ record { peer_id = "else"; state = "connected"; direction = "outbound" }
          ∷ []))
    else connection_error

abbrev identity_query : ℕ → ℕ → QueryResult String
identity_query i c = response (if c == 1 then "one" else "two")

abbrev name : ℕ → String
name c = if c == 1 then "besu-teku" else "geth-prysm"

two_lines :
    run_peering_summary name (λ i. some i) peers_query identity_query 3 (1 ∷ 2 ∷ [])
    ≡ ok (
        record { client_name = "besu-teku"; inbound = "geth-prysm" ∷ []; outbound = "else" ∷ [] }
        ∷ [])
unfolding run_peering_summary collect_metrics collect query_clients_for_metric submit_all
    sort_futures sort_result is_complete get_client_peers summarize_peers peer_id_client_map
    sort_all_peers sort_peers peered_client_name ensure push peering_lines string_eq ℕ_discrete
two_lines = refl

run_peering_summary-summary_of_example :
    (k : ℕ) × (k' : ℕ) × (run_peering_summary name
        (λ i. some i)
        peers_query
        identity_query
        3
        (1 ∷ 2 ∷ [])
      ≡ ok (
          summary_of name
            (seen get_client_peers peers_query 1 (2 ∷ []) k).results
            (seen (λ i. some i) identity_query 1 (2 ∷ []) k').results
            (1 ∷ 2 ∷ [])))
    × EndsAt get_client_peers peers_query 1 (2 ∷ []) is_complete 2 0 k
    × EndsAt (λ i. some i) identity_query 1 (2 ∷ []) is_complete 2 0 k'
run_peering_summary-summary_of_example =
    run_peering_summary-summary_of name (λ i. some i) peers_query identity_query 1 (2 ∷ []) 2
