-- ===== src/Monitoring/Metrics.antt =====
-- `ClientMetricMonitor` and `ConsensusMetricMonitor` of
-- src/etb/monitoring/monitors/consensus_monitors.py. A client's query and the parser of its
-- response are the monitor's two callables; what a query gives on each attempt is the network's.
pub mod Groups
pub mod Retries
pub mod Agreement
pub mod Unanimity
use ethereum_testnet_bootstr.Base.{
  ℕ, zero, suc, ◌+◌, ◌≤◌, Bool, true, false, ◌&&◌, Option, none, some, List, [], ◌∷◌, ◌++◌, length,
  Result, ok, err, Error, ◌>>=◌, Eq, ◌==◌, nat_eq, if◌then◌else◌,
}
use ethereum_testnet_bootstr.Base.Dict.{Dict, lookup, insert}

-- What `client_query` returns, by the first `isinstance` test that it passes.
pub data QueryResult (R : Type 0) : Type 0 where
  read_timeout : QueryResult R
  connection_error : QueryResult R
  other_exception : QueryResult R
  response : R → QueryResult R

-- The fields that a run fills.
pub record Monitor (C A : Type 0) : Type 0 where
  pub results : Dict C A
  pub timeout_clients : List C
  pub unreachable_clients_connection_error : List C
  pub unreachable_clients_unknown_reason : List C
  pub invalid_response_clients : List C

-- `len(xs) == 0`
abbrev pub is_empty {ℓ} : {A : Type ℓ} → List A → Bool
is_empty [] = true
is_empty (_ ∷ _) = false

module _ {C A : Type 0} where
  -- `_clear_results`
  abbrev pub cleared : Monitor C A
  cleared = record {
    results = [];
    timeout_clients = [];
    unreachable_clients_connection_error = [];
    unreachable_clients_unknown_reason = [];
    invalid_response_clients = [];
  }

  -- The test after each attempt of `ClientMetricMonitor.collect_metrics`.
  unfoldable pub is_complete : Monitor C A → Bool
  is_complete m =
      is_empty m.unreachable_clients_connection_error && is_empty m.invalid_response_clients

  -- `ConsensusMetricMonitor._reached_consensus`
  unfoldable pub reached_consensus : Monitor C A → Bool
  reached_consensus m =
      length m.results == 1
      && is_empty m.unreachable_clients_connection_error
      && is_empty m.invalid_response_clients

module _ {C R A : Type 0} ⦃ec : Eq C⦄ (parse : R → Option A) where
  -- The body of the loop over the futures.
  unfoldable pub sort_result : C → QueryResult R → Monitor C A → Monitor C A
  sort_result client read_timeout m = record m {
    timeout_clients = m.timeout_clients ++ (client ∷ []);
  }
  sort_result client connection_error m = record m {
    unreachable_clients_connection_error = m.unreachable_clients_connection_error ++ (client ∷ []);
  }
  sort_result client other_exception m = record m {
    unreachable_clients_unknown_reason = m.unreachable_clients_unknown_reason ++ (client ∷ []);
  }
  sort_result client (response r) m = elim (parse r) [
    | none ↦ record m { invalid_response_clients = m.invalid_response_clients ++ (client ∷ []) }
    | some parsed ↦ record m { results = insert client parsed m.results }
  ]

  -- `client_futures[client] = executor.submit(client_query, client)`
  unfoldable pub submit_all :
      (C → QueryResult R) → List C → Dict C (QueryResult R) → Dict C (QueryResult R)
  submit_all query [] futures = futures
  submit_all query (client ∷ clients) futures =
      submit_all query clients (insert client (query client) futures)

  unfoldable pub sort_futures : Dict C (QueryResult R) → Monitor C A → Monitor C A
  sort_futures [] m = m
  sort_futures ((client, result) ∷ futures) m = sort_futures futures (sort_result client result m)

  -- `query_clients_for_metric`. An executor with no workers is refused.
  unfoldable pub query_clients_for_metric :
      (C → QueryResult R) → List C → Monitor C A → Result (Monitor C A)
  query_clients_for_metric query [] m = err (Error.value_error "max_workers")
  query_clients_for_metric query (client ∷ clients) m =
      ok (sort_futures (submit_all query (client ∷ clients) []) m)

  -- One attempt: the fields are cleared and filled.
  abbrev pub attempt : (C → QueryResult R) → List C → Result (Monitor C A)
  attempt query clients = query_clients_for_metric query clients cleared

  -- The loop of both `collect_metrics`, which differ in the test that ends it: the attempts left,
  -- the number of the next, and the fields as they are.
  unfoldable pub collect :
      (Monitor C A → Bool)
      → (ℕ → C → QueryResult R)
      → List C
      → ℕ
      → ℕ
      → Monitor C A
      → Result (Monitor C A)
  collect stop query clients zero i m = ok m
  collect stop query clients (suc left) i m = elim (attempt (query i) clients) [
    | err e ↦ err e
    | ok m' ↦
        let again = collect stop query clients left (i + 1) m' in if stop m' then ok m' else again
  ]

  -- `ClientMetricMonitor.collect_metrics`
  unfoldable pub collect_metrics :
      (ℕ → C → QueryResult R) → List C → ℕ → Monitor C A → Result (Monitor C A)
  collect_metrics query clients max_retries m = collect is_complete query clients max_retries 0 m

module _ {C A : Type 0} ⦃ec : Eq C⦄ ⦃ea : Eq A⦄ where
  -- The body of the loop of `order_results_by_consensus`.
  unfoldable pub add_to_group : C → A → Dict A (List C) → Dict A (List C)
  add_to_group client result groups = elim (lookup result groups) [
    | none ↦ insert result (client ∷ []) groups
    | some clients ↦ insert result (clients ++ (client ∷ [])) groups
  ]

  -- The values are hashable, as numbers, texts and tuples of them are.
  unfoldable pub group_results : Dict C A → Dict A (List C) → Dict A (List C)
  group_results [] groups = groups
  group_results ((client, result) ∷ results) groups =
      group_results results (add_to_group client result groups)

  -- `order_results_by_consensus`
  unfoldable pub order_results_by_consensus : Monitor C A → Dict A (List C)
  order_results_by_consensus m = group_results m.results []

  -- `ConsensusMetricMonitor.collect_metrics`: the fields, and the results grouped.
  unfoldable pub collect_consensus :
      {R : Type 0}
      → (R → Option A)
      → (ℕ → C → QueryResult R)
      → List C
      → ℕ
      → Monitor C A
      → Result (Monitor C A × Dict A (List C))
  collect_consensus parse query clients max_retries_for_consensus m =
      collect parse reached_consensus query clients max_retries_for_consensus 0 m >>= λ m'.
      ok (m', order_results_by_consensus m')
