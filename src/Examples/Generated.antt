-- ===== src/Examples/Generated.antt =====
-- Runs of the configs that src/testnet_bootstrapper.py writes for Assertoor and for Prometheus.
use ethereum_testnet_bootstr.Base.{
  ℕ, ◌≡◌, refl, String, ◌<>◌, ◌==◌, ◌||◌, true, false, none, List, [], ◌∷◌, ◌++◌, All, ok, nat_eq,
  string_eq, ℕ_discrete, ◌≤◌, arith,
}
use ethereum_testnet_bootstr.Base.Text.{str, digits_onto, digit_char, split_dots}
use ethereum_testnet_bootstr.Config.Instances.{ClientInstance}
use ethereum_testnet_bootstr.Config.Validators.{ConsensusInstanceConfig}
use ethereum_testnet_bootstr.Bootstrap.Keystores.{
  KeystoreRange, min_ndx, max_ndx, write_validator_keystores,
}
use ethereum_testnet_bootstr.Bootstrap.Keystores.Owners.{keystores_of}
use ethereum_testnet_bootstr.Bootstrap.Assertoor.{
  Ports, generate_assertor_config, add_names, add_name, inventory_key, test_name, split_slashes,
  without_0x, Data, scalar, null, items, fields, no_items, item, no_fields, field, convert,
}
use ethereum_testnet_bootstr.Bootstrap.Assertoor.Inventory.{
  IsListed, generate_assertor_config-IsListed,
}
use ethereum_testnet_bootstr.Monitoring.Metrics.{add_to_group}
use ethereum_testnet_bootstr.Base.Runs.{returned}
use ethereum_testnet_bootstr.Bootstrap.Init.{
  touched, Setup, Disk, trusted_setup_json, trusted_setup_txt, init_testnet,
}
use ethereum_testnet_bootstr.Bootstrap.Init.Once.{
  disk_after, refused, CanPopulate, expected_actions, init_testnet-disk_after,
  init_testnet-expected_actions,
}
use ethereum_testnet_bootstr.Bootstrap.Prometheus.{
  MetricsConfig, Target, Job, prometheus_job, PrometheusConfig, make_prometheus_config,
  add_metrics_paths, add_targets, jobs_of,
}
use ethereum_testnet_bootstr.Bootstrap.Prometheus.Jobs.{
  HasPaths, jobs_named, job_for, some_targets, targets_of, metrics_path_of,
  make_prometheus_config-job_for,
}

abbrev lighthouse : ConsensusInstanceConfig
lighthouse = record { client = "lighthouse"; num_validators = 2 }

abbrev node : String → String → ℕ → ℕ → ClientInstance
node collection name ndx offset = record {
  instance_base = record {
    collection_name = collection;
    ndx = ndx;
    name = name;
    ip_address = "10.0.20.2";
  };
  consensus_config = lighthouse;
  validator_offset_start = offset;
  validator_password = none;
}

abbrev nodes : List ClientInstance
nodes = node "a" "a-0" 0 0 ∷ node "a" "a-1" 1 0 ∷ node "b" "b-0" 0 4 ∷ []

abbrev ranges : List KeystoreRange
ranges = ("a-0", 0, 2) ∷ ("a-1", 2, 4) ∷ ("b-0", 4, 6) ∷ []

writes : write_validator_keystores nodes ≡ ok ranges
unfolding write_validator_keystores min_ndx max_ndx string_eq
writes = refl

once : (v : ℕ) → keystores_of v ranges ≤ 1
unfolding keystores_of
once v = ground arith

abbrev ports : ClientInstance → Ports
ports i = record { beacon_api_port = 5052; http_port = 8545 }

generate_assertor_config-IsListed_example :
    All (IsListed (generate_assertor_config ports nodes "0xabc").inventory) ranges
generate_assertor_config-IsListed_example =
    generate_assertor_config-IsListed ports nodes "0xabc" writes
      (omega arith, (omega arith, (omega arith, tt))) once

listed :
    (generate_assertor_config ports nodes "0xabc").inventory
    ≡ ("0-1", "a-0") ∷ ("2-3", "a-1") ∷ ("4-5", "b-0") ∷ []
unfolding generate_assertor_config add_names add_name inventory_key str digits_onto digit_char
    string_eq ℕ_discrete
listed = refl

names : test_name "/source/configs/assertoor/workload-tx.yaml" ≡ "workload-tx"
unfolding test_name split_slashes split_dots ℕ_discrete
names = refl

strips : without_0x "0xab0xc" ≡ "abc"
unfolding without_0x ℕ_discrete
strips = refl

-- A data class with a `None`, and one below a list.
abbrev config : Data
config =
    fields (
      field "debug" null (field "tests" (items (item null (item (scalar "a") no_items))) no_fields))

converts : convert config ≡ fields (field "tests" (items (item (scalar "a") no_items)) no_fields)
unfolding convert
converts = refl

abbrev consensus_configs : List MetricsConfig
consensus_configs = ("lighthouse", "/metrics") ∷ ("teku", "/metrics") ∷ []

abbrev execution_configs : List MetricsConfig
execution_configs = ("geth", "/debug/metrics/prometheus") ∷ []

abbrev target : String → String → Target
target name client = record {
  name = name;
  consensus_client = client;
  beacon_metric_port = 8000;
  validator_metric_port = 8001;
  execution_client = "geth";
  execution_metric_port = 8002;
}

abbrev instances : List Target
instances = target "a-0" "lighthouse" ∷ target "b-0" "teku" ∷ target "a-1" "lighthouse" ∷ []

have_paths : All (HasPaths consensus_configs execution_configs) instances
unfolding string_eq
have_paths = (
  (("/metrics", refl), ("/debug/metrics/prometheus", refl)),
  (
    (("/metrics", refl), ("/debug/metrics/prometheus", refl)),
    ((("/metrics", refl), ("/debug/metrics/prometheus", refl)), tt),
  ),
)

make_prometheus_config-job_for_example :
    (c : PrometheusConfig) × (make_prometheus_config consensus_configs execution_configs instances
        12
      ≡ ok c)
    × (jobs : List Job) × (c.scrape_configs ≡ jobs ++ (prometheus_job ∷ []))
    × ((k : String)
        → jobs_named k jobs
          ≡ job_for k
              (some_targets (targets_of k instances))
              (metrics_path_of consensus_configs execution_configs k))
make_prometheus_config-job_for_example =
    make_prometheus_config-job_for consensus_configs execution_configs instances 12 have_paths

made :
    make_prometheus_config consensus_configs execution_configs (target "a-0" "lighthouse" ∷ []) 12
    ≡ ok (record {
      scrape_interval = "12s";
      evaluation_interval = "12s";
      scrape_configs =
          record {
            job_name = "lighthouse";
            targets = "a-0:8000" ∷ "a-0:8001" ∷ [];
            metrics_path = "/metrics";
          }
          ∷ record {
            job_name = "geth";
            targets = "a-0:8002" ∷ [];
            metrics_path = "/debug/metrics/prometheus";
          }
          ∷ record {
            job_name = "prometheus";
            targets = "localhost:9090" ∷ [];
            metrics_path = "/metrics";
          }
          ∷ [];
    })
unfolding make_prometheus_config add_metrics_paths add_targets jobs_of add_to_group str digits_onto
    digit_char string_eq ℕ_discrete
made = refl

abbrev prometheus : PrometheusConfig
prometheus = record { scrape_interval = "12s"; evaluation_interval = "12s"; scrape_configs = [] }

abbrev setup : Setup
setup = record {
  init_file = "/data/init_file";
  local_testnet_dir = "/data/local-testnet";
  local_logs_dir = "/data/logs";
  etb_config_path = "/data/etb-config.yaml";
  etb_config_checkpoint_file = "/data/testnet-ready.txt";
  docker_compose_file = "/source/docker-compose.yaml";
  prometheus_conf_dir = "/data/prometheus/conf";
  trusted_setup_txt_file = "/data/trusted-setup.txt";
  trusted_setup_json_file = "/data/trusted-setup.json";
  is_deneb = true;
  client_instances = nodes;
  el_dir = λ i. i.instance_base.name <> "/geth";
  jwt_secret_file = λ i. i.instance_base.name <> "/jwt_secret";
  assertor_config = ok (generate_assertor_config ports nodes "0xabc");
  services = ok [];
  prometheus_config = ok prometheus;
}

-- Only the files of the trusted setup are there.
abbrev disk : Disk
disk path = path == trusted_setup_json || path == trusted_setup_txt

can_populate :
    CanPopulate setup disk (generate_assertor_config ports nodes "0xabc") ranges [] prometheus
unfolding CanPopulate string_eq
can_populate = (refl, refl, refl, writes, λ d. (refl, refl), refl, refl)

missing : disk setup.init_file ≡ false
unfolding string_eq
missing = refl

init_testnet-expected_actions_example : init_testnet setup disk ≡ (
  touched "/data/init_file"
      ∷ expected_actions setup disk (generate_assertor_config ports nodes "0xabc") ranges [],
  returned tt,
)
init_testnet-expected_actions_example =
    init_testnet-expected_actions setup disk (generate_assertor_config ports nodes "0xabc") ranges
      [] prometheus missing can_populate

init_testnet-disk_after_example :
    init_testnet setup (disk_after disk (init_testnet setup disk).0) ≡ refused
init_testnet-disk_after_example = init_testnet-disk_after setup disk
