-- ===== src/Monitoring/Reports.antt =====
-- The reports of the heads, the blobs and the checkpoints in
-- src/etb/monitoring/monitors/consensus_monitors.py, and their runs.
pub mod Grouped
pub mod Finalization
use ethereum_testnet_bootstr.Base.{
  ℕ, String, Option, List, [], ◌∷◌, ◌++◌, map, length, Eq, string_eq, Result, ok, ◌>>=◌,
}
use ethereum_testnet_bootstr.Base.Int.{ℤ, pos, ◌-ℤ◌}
use ethereum_testnet_bootstr.Base.Dict.{Dict}
use ethereum_testnet_bootstr.Requests.Bodies.{ResponseItems, Answer}
use ethereum_testnet_bootstr.Monitoring.Metrics.{
  QueryResult, Monitor, collect_metrics, collect_consensus,
}
use ethereum_testnet_bootstr.Monitoring.Availability.{Fields, described}
use ethereum_testnet_bootstr.Monitoring.Parsers.{Checkpoints, get_checkpoints}

-- The lines of a report in text.
pub data ReportLine (K A : Type 0) : Type 0 where
  num_forks : ℤ → ReportLine K A
  num_blob_forks : ℤ → ReportLine K A
  measured : K → A → ReportLine K A
  unreachable_clients : List String → ReportLine K A
  invalid_response_clients : List String → ReportLine K A

-- `if len(clients) > 0: out += ...`
abbrev pub line_of :
    {K A C : Type 0}
    → (List String → ReportLine K A)
    → (C → String)
    → List C
    → List (ReportLine K A)
line_of line name [] = []
line_of line name (c ∷ cs) = line (map name (c ∷ cs)) ∷ []

module _ {C A : Type 0} (name : C → String) where
  -- What both `report_metric` end with.
  abbrev pub failures : {K B : Type 0} → Monitor C A → List (ReportLine K B)
  failures m =
      line_of unreachable_clients name m.unreachable_clients_connection_error
      ++ line_of invalid_response_clients name m.invalid_response_clients

  -- `ClientMetricMonitor.report_metric`
  unfoldable pub report_clients : Monitor C A → List (ReportLine C A)
  report_clients m = map (λ (client, result). measured client result) m.results ++ failures m

  -- `ConsensusMetricMonitor.report_metric`
  unfoldable pub report_metric : Monitor C A → Dict A (List C) → List (ReportLine A (List String))
  report_metric m consensus_results =
      map (λ (result, clients). measured result (map name clients)) consensus_results ++ failures m

  -- `HeadsMonitor.report_metric`
  unfoldable pub report_heads : Monitor C A → Dict A (List C) → List (ReportLine A (List String))
  report_heads m consensus_results =
      num_forks (pos (length consensus_results) -ℤ pos 1) ∷ report_metric m consensus_results

  -- `BlobMonitor.report_metric`
  unfoldable pub report_blobs : Monitor C A → Dict A (List C) → List (ReportLine A (List String))
  report_blobs m consensus_results =
      num_blob_forks (pos (length consensus_results) -ℤ pos 1) ∷ report_metric m consensus_results

-- The dict of a client that failed.
pub data FailedClient : Type 0 where
  container : (name ip : String) → FailedClient
  consensus_container : (name ip consensus : String) → FailedClient

-- The checkpoints stand under "finalized", "current_justified" and "previous_justified".
pub record FinalizationData : Type 0 where
  pub checkpoints : Checkpoints
  pub clients : List String

pub record CheckpointsReport : Type 0 where
  pub finalization_data : List FinalizationData
  pub unreachable_connection_error : List FailedClient
  pub invalid_response : List FailedClient
  pub unreachable_unknown_reason : List FailedClient
  pub timeout : List FailedClient

module _ {C : Type 0} (fields : Fields C) where
  abbrev pub failed_client : C → FailedClient
  failed_client c = container (fields.name c) (fields.ip_address c)

  abbrev pub failed_consensus_client : C → FailedClient
  failed_consensus_client c =
      consensus_container (fields.name c) (fields.ip_address c) (fields.consensus_client c)

  -- The list of "finalization_data", with `json.loads`.
  unfoldable pub finalization_data_of :
      (String → Result Checkpoints) → Dict String (List C) → Result (List FinalizationData)
  finalization_data_of loads [] = ok []
  finalization_data_of loads ((result, clients) ∷ items) = loads result >>= λ cps.
      finalization_data_of loads items >>= λ rest.
      ok (record { checkpoints = cps; clients = map fields.name clients } ∷ rest)

  -- `CheckpointsMonitor.report_metric`, as the value that `json.dumps` is given.
  unfoldable pub report_checkpoints :
      (String → Result Checkpoints)
      → Monitor C String
      → Dict String (List C)
      → Result CheckpointsReport
  report_checkpoints loads m consensus_results =
      finalization_data_of loads consensus_results >>= λ finalization. ok (record {
        finalization_data = finalization;
        unreachable_connection_error =
            described failed_client m.unreachable_clients_connection_error;
        invalid_response = described failed_client m.invalid_response_clients;
        unreachable_unknown_reason =
            described failed_consensus_client m.unreachable_clients_unknown_reason;
        timeout = described failed_consensus_client m.timeout_clients;
      })

module _ {C R A : Type 0} ⦃ec : Eq C⦄ ⦃ea : Eq A⦄ (name : C → String) (parse : R → Option A)
    (query : ℕ → C → QueryResult R) (clients_to_monitor : List C) where
  -- `ClientMetricMonitor.run`
  unfoldable pub run_clients : ℕ → Monitor C A → Result (List (ReportLine C A))
  run_clients max_retries m = collect_metrics parse query clients_to_monitor max_retries m >>= λ m'.
      ok (report_clients name m')

  -- `ConsensusMetricMonitor.run` of a `HeadsMonitor`
  unfoldable pub run_heads : ℕ → Monitor C A → Result (List (ReportLine A (List String)))
  run_heads max_retries_for_consensus m =
      collect_consensus parse query clients_to_monitor max_retries_for_consensus m
      >>= λ (m', groups). ok (report_heads name m' groups)

  -- `ConsensusMetricMonitor.run` of a `BlobMonitor`
  unfoldable pub run_blobs : ℕ → Monitor C A → Result (List (ReportLine A (List String)))
  run_blobs max_retries_for_consensus m =
      collect_consensus parse query clients_to_monitor max_retries_for_consensus m
      >>= λ (m', groups). ok (report_blobs name m' groups)

module _ {C : Type 0} ⦃ec : Eq C⦄ (slice_items : ResponseItems → String)
    (dumps : Checkpoints → String) (loads : String → Result Checkpoints) (fields : Fields C)
    (query : ℕ → C → QueryResult Answer) (clients_to_monitor : List C) where
  -- `ConsensusMetricMonitor.run` of a `CheckpointsMonitor`
  unfoldable pub run_checkpoints : ℕ → Monitor C String → Result CheckpointsReport
  run_checkpoints max_retries_for_consensus m =
      collect_consensus (get_checkpoints slice_items dumps) query clients_to_monitor
        max_retries_for_consensus m
      >>= λ (m', groups). report_checkpoints fields loads m' groups
