-- ===== src/Monitoring/Availability.antt =====
-- `HeadsMonitorExecutionAvailabilityCheck` and `HeadsMonitorConsensusAvailabilityCheck` of
-- src/etb/monitoring/monitors/consensus_monitors.py: their reports, as the value that `json.dumps`
-- is given, and their runs.
pub mod Headings
use ethereum_testnet_bootstr.Base.{
  ℕ, String, Bool, Option, List, [], ◌∷◌, map, Result, ok, Eq, ◌>>=◌, if◌then◌else◌,
}
use ethereum_testnet_bootstr.Base.Dict.{keys}
use ethereum_testnet_bootstr.Monitoring.Metrics.{
  QueryResult, Monitor, is_empty, collect_metrics, collect_consensus,
}

-- What the reports read of a `ClientInstance`: its name and address, and the clients of its
-- collection's execution and consensus configs.
pub record Fields (C : Type 0) : Type 0 where
  pub name : C → String
  pub ip_address : C → String
  pub execution_client : C → String
  pub consensus_client : C → String

-- The dict of one client. The last value is under the key "execution" or "consensus".
pub data Described : Type 0 where
  execution : (container ip client : String) → Described
  consensus : (container ip client : String) → Described

abbrev pub describe_execution : {C : Type 0} → Fields C → C → Described
describe_execution f c = execution (f.name c) (f.ip_address c) (f.execution_client c)

abbrev pub describe_consensus : {C : Type 0} → Fields C → C → Described
describe_consensus f c = consensus (f.name c) (f.ip_address c) (f.consensus_client c)

-- The dict under "execution_availability" or "consensus_availability".
pub record Availability : Type 0 where
  pub available : List Described
  pub unreachable_connection_error : List Described
  pub invalid_response : List Described
  pub unreachable_unknown_reason : List Described
  pub timeout : List Described

-- A list of the report, which is empty at first: `if len(clients) > 0` it is replaced.
unfoldable pub described : {C D : Type 0} → (C → D) → List C → List D
described describe clients = if is_empty clients then [] else map describe clients

-- What the two classes' `report_metric` write alike.
unfoldable pub report_availability : {C A : Type 0} → (C → Described) → Monitor C A → Availability
report_availability describe m = record {
  available = described describe (keys m.results);
  unreachable_connection_error = described describe m.unreachable_clients_connection_error;
  invalid_response = described describe m.invalid_response_clients;
  unreachable_unknown_reason = described describe m.unreachable_clients_unknown_reason;
  timeout = described describe m.timeout_clients;
}

-- `HeadsMonitorExecutionAvailabilityCheck.report_metric`
abbrev pub report_execution : {C A : Type 0} → Fields C → Monitor C A → Availability
report_execution fields = report_availability (describe_execution fields)

-- `HeadsMonitorConsensusAvailabilityCheck.report_metric`
abbrev pub report_consensus : {C A : Type 0} → Fields C → Monitor C A → Availability
report_consensus fields = report_availability (describe_consensus fields)

module _ {C R A : Type 0} ⦃ec : Eq C⦄ ⦃ea : Eq A⦄ (fields : Fields C) (parse : R → Option A)
    (query : ℕ → C → QueryResult R) (clients_to_monitor : List C) where
  -- `HeadsMonitorExecutionAvailabilityCheck.run`
  unfoldable pub run_execution_availability : ℕ → Monitor C A → Result Availability
  run_execution_availability max_retries m =
      collect_metrics parse query clients_to_monitor max_retries m >>= λ m'.
      ok (report_execution fields m')

  -- `HeadsMonitorConsensusAvailabilityCheck.run`
  unfoldable pub run_consensus_availability : ℕ → Monitor C A → Result Availability
  run_consensus_availability max_retries_for_consensus m =
      collect_consensus parse query clients_to_monitor max_retries_for_consensus m >>= λ (m', _).
      ok (report_consensus fields m')
