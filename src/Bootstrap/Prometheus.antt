-- ===== src/Bootstrap/Prometheus.antt =====
-- `make_prometheus_config` of src/testnet_bootstrapper.py.
pub mod Jobs
use ethereum_testnet_bootstr.Base.{
  ℕ, String, ◌<>◌, Option, List, [], ◌∷◌, ◌++◌, Result, ok, Error, ◌>>=◌, or_raise, string_eq,
}
use ethereum_testnet_bootstr.Base.Dict.{Dict, lookup, insert}
use ethereum_testnet_bootstr.Base.Text.{str}
use ethereum_testnet_bootstr.Monitoring.Metrics.{add_to_group}

-- A consensus or execution config, as its client and its path of metrics.
abbrev pub MetricsConfig : Type 0
MetricsConfig = String × String

-- The loop over the values of one dict of configs.
unfoldable pub add_metrics_paths : List MetricsConfig → Dict String String → Dict String String
add_metrics_paths [] metrics_paths = metrics_paths
add_metrics_paths ((client, path) ∷ configs) metrics_paths =
    add_metrics_paths configs (insert client path metrics_paths)

-- What is read of an instance. `name` is `f"{k}-{instance.ndx}"`, its collection's name and number.
pub record Target : Type 0 where
  pub name : String
  pub consensus_client : String
  pub beacon_metric_port : ℕ
  pub validator_metric_port : ℕ
  pub execution_client : String
  pub execution_metric_port : ℕ

abbrev pub metrics_address : String → ℕ → String
metrics_address name port = name <> (":" <> str port)

-- `targets[client].append(line)`, where a missing key is an empty list: as a group that grows.
abbrev pub append_target : String → String → Dict String (List String) → Dict String (List String)
append_target client line targets = add_to_group line client targets

unfoldable pub add_targets : List Target → Dict String (List String) → Dict String (List String)
add_targets [] targets = targets
add_targets (i ∷ is) targets = add_targets is (
    append_target i.execution_client (metrics_address i.name i.execution_metric_port) (
      append_target i.consensus_client (metrics_address i.name i.validator_metric_port)
        (append_target i.consensus_client (metrics_address i.name i.beacon_metric_port) targets)))

pub record Job : Type 0 where
  pub job_name : String
  pub targets : List String
  pub metrics_path : String

-- The list of jobs, of which each reads `metrics_paths[k]`.
unfoldable pub jobs_of : Dict String String → Dict String (List String) → Result (List Job)
jobs_of metrics_paths [] = ok []
jobs_of metrics_paths ((k, v) ∷ targets) =
    or_raise (lookup k metrics_paths) (Error.key_error k) >>= λ path.
    jobs_of metrics_paths targets >>= λ jobs.
    ok (record { job_name = k; targets = v; metrics_path = path } ∷ jobs)

abbrev pub prometheus_job : Job
prometheus_job = record {
  job_name = "prometheus";
  targets = "localhost:9090" ∷ [];
  metrics_path = "/metrics";
}

pub record PrometheusConfig : Type 0 where
  pub scrape_interval : String
  pub evaluation_interval : String
  pub scrape_configs : List Job

unfoldable pub make_prometheus_config :
    List MetricsConfig
    → List MetricsConfig
    → List Target
    → (seconds_per_slot : ℕ) → Result PrometheusConfig
make_prometheus_config consensus_configs execution_configs instances seconds_per_slot =
    let metrics_paths =
      add_metrics_paths execution_configs (add_metrics_paths consensus_configs []) in
    jobs_of metrics_paths (add_targets instances []) >>= λ jobs. ok (record {
      scrape_interval = str seconds_per_slot <> "s";
      evaluation_interval = str seconds_per_slot <> "s";
      scrape_configs = jobs ++ (prometheus_job ∷ []);
    })
