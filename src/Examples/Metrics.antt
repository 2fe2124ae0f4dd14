-- ===== src/Examples/Metrics.antt =====
-- Runs of the metric monitors (src/etb/monitoring/monitors/consensus_monitors.py). Clients are
-- numbers, responses are numbers, and 0 is a response that the parser refuses.
use ethereum_testnet_bootstr.Base.{
  ℕ, zero, suc, ◌≡◌, refl, Option, none, some, [], ◌∷◌, ok, ◌==◌, nat_eq, if◌then◌else◌, ℕ_discrete,
}
use ethereum_testnet_bootstr.Monitoring.Metrics.{
  QueryResult, read_timeout, connection_error, response, Monitor, cleared, collect,
  reached_consensus, order_results_by_consensus, group_results, add_to_group,
}
use ethereum_testnet_bootstr.Monitoring.Metrics.Groups.{answered}
use ethereum_testnet_bootstr.Monitoring.Metrics.Retries.{seen}
use ethereum_testnet_bootstr.Monitoring.Metrics.Unanimity.{collect-unanimous}

abbrev pub parse : ℕ → Option ℕ
parse zero = none
parse (suc n) = some (suc n)

-- Client 1 times out, 2 is refused, 3 gives no answer that can be parsed, the others answer.
abbrev query : ℕ → QueryResult ℕ
query c =
    if c == 1
    then read_timeout
    else if c == 2
    then connection_error
    else if c == 3
    then response 0
    else response 7

-- In the first attempt all clients are refused.
abbrev pub queries : ℕ → ℕ → QueryResult ℕ
queries i c = if i == 0 then connection_error else response 7

answered_four : answered parse query (4 ∷ 1 ∷ 3 ∷ []) ≡ (4, 7) ∷ []
unfolding answered ℕ_discrete
answered_four = refl

abbrev split_monitor : Monitor ℕ ℕ
split_monitor = record {
  results = (4, 7) ∷ (5, 8) ∷ (6, 7) ∷ [];
  timeout_clients = [];
  unreachable_clients_connection_error = [];
  unreachable_clients_unknown_reason = [];
  invalid_response_clients = [];
}

split_groups : order_results_by_consensus split_monitor ≡ (7, 4 ∷ 6 ∷ []) ∷ (8, 5 ∷ []) ∷ []
unfolding order_results_by_consensus group_results add_to_group ℕ_discrete
split_groups = refl

-- Every client answers with the number of the attempt.
abbrev rising : ℕ → ℕ → QueryResult ℕ
rising i c = response (suc i)

collect-unanimous_example :
    collect parse reached_consensus rising (4 ∷ 5 ∷ 6 ∷ []) 3 0 cleared
    ≡ ok (seen parse rising 4 (5 ∷ 6 ∷ []) 2)
unfolding ℕ_discrete
collect-unanimous_example =
    collect-unanimous parse rising 4 5 (6 ∷ []) (refl, (refl, (refl, tt))) suc
      (λ i c. (suc i, refl, refl)) 2 cleared
