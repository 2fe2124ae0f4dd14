-- ===== src/Bootstrap/Prometheus/Jobs.antt =====
-- The jobs of the config that src/testnet_bootstrapper.py writes for Prometheus.
use ethereum_testnet_bootstr.Base.{
  inl, inr, Bool-cases, ℕ, ◌≡◌, refl, sym, ap, ◌∙◌, String, ◌<>◌, Option, none, some, List, [], ◌∷◌,
  ◌++◌, All, ok, ◌==◌, string_eq, if◌then◌else◌, arith,
}
use ethereum_testnet_bootstr.Base.Dict.{Dict, NodupKeys, lookup, insert, lookup-insert}
use ethereum_testnet_bootstr.Base.Text.{str}
use ethereum_testnet_bootstr.Monitoring.Metrics.{group_results}
use ethereum_testnet_bootstr.Monitoring.Metrics.Agreement.{clients_with, group_results_lem}
use ethereum_testnet_bootstr.Bootstrap.Prometheus.{
  MetricsConfig, add_metrics_paths, Target, metrics_address, add_targets, Job, jobs_of,
  prometheus_job, PrometheusConfig, make_prometheus_config,
}

-- The lines of the instances, each with its client.
lines_of : List Target → Dict String String
lines_of [] = []
lines_of (i ∷ is) =
    (metrics_address i.name i.beacon_metric_port, i.consensus_client)
    ∷ (metrics_address i.name i.validator_metric_port, i.consensus_client)
    ∷ (metrics_address i.name i.execution_metric_port, i.execution_client)
    ∷ lines_of is

add_targets-group_results :
    (is : List Target) (targets : Dict String (List String))
    → add_targets is targets ≡ group_results (lines_of is) targets
unfolding add_targets lines_of group_results
add_targets-group_results [] targets = refl
add_targets-group_results (i ∷ is) targets = add_targets-group_results is _

-- The path of the last config of a client, execution configs behind consensus configs.
abbrev pub path_of : String → List MetricsConfig → Option String → Option String
path_of client [] before = before
path_of client ((c, path) ∷ configs) before =
    path_of client configs (if client == c then some path else before)

lookup-add_metrics_paths :
    (client : String) (configs : List MetricsConfig) (paths : Dict String String)
    → lookup client (add_metrics_paths configs paths) ≡ path_of client configs (lookup client paths)
unfolding add_metrics_paths
lookup-add_metrics_paths client [] paths = refl
lookup-add_metrics_paths client ((c, path) ∷ configs) paths =
    lookup-add_metrics_paths client configs (insert c path paths)
    ∙ ap (path_of client configs) (lookup-insert client c path paths)

-- The targets of a client, in the order of the instances: for each instance of its, the beacon node
-- and the validator of a consensus client, or the execution client.
abbrev pub targets_of : String → List Target → List String
targets_of client [] = []
targets_of client (i ∷ is) =
    let rest = targets_of client is in
    let rest' =
      if client == i.execution_client
      then metrics_address i.name i.execution_metric_port ∷ rest
      else rest in
    if client == i.consensus_client
    then metrics_address i.name i.beacon_metric_port
      ∷ metrics_address i.name i.validator_metric_port
      ∷ rest'
    else rest'

targets_of-clients_with :
    (client : String) (is : List Target) → clients_with client (lines_of is) ≡ targets_of client is
unfolding clients_with lines_of
targets_of-clients_with client [] = refl
targets_of-clients_with client (i ∷ is) = ground (arith, targets_of-clients_with client is)

-- A client with no targets has no entry.
abbrev pub some_targets : List String → Option (List String)
some_targets [] = none
some_targets (l ∷ ls) = some (l ∷ ls)

-- All the jobs with a name.
abbrev pub jobs_named : String → List Job → List Job
jobs_named k [] = []
jobs_named k (j ∷ jobs) = if k == j.job_name then j ∷ jobs_named k jobs else jobs_named k jobs

-- The job for the targets of a client, with its path; none where there are no targets.
abbrev pub job_for : String → Option (List String) → Option String → List Job
job_for k (some targets) (some path) =
    record { job_name = k; targets = targets; metrics_path = path } ∷ []
job_for k _ _ = []

jobs_of-jobs_named :
    (paths : Dict String String) (targets : Dict String (List String))
    → NodupKeys targets
    → ((k : String) (v : List String)
        → lookup k targets ≡ some v
        → (p : String) × (lookup k paths ≡ some p))
    → (jobs : List Job) × (jobs_of paths targets ≡ ok jobs)
      × ((k : String) → jobs_named k jobs ≡ job_for k (lookup k targets) (lookup k paths))
unfolding jobs_of
jobs_of-jobs_named paths [] u h = ([], refl, λ k. refl)
jobs_of-jobs_named paths ((c, v) ∷ targets) (fresh, u) h =
    let (p, found) = h c v (ground arith) in
    let later = λ (k : String) (w : List String) (e : lookup k targets ≡ some w).
      elim (Bool-cases (k == c)) as (λ _. (q : String) × (lookup k paths ≡ some q)) [
        | inl same ↦ (p, ground (arith, same, found))
        | inr differ ↦ h k w (ground (arith, differ, e))
      ] in
    let (jobs, same, named) = jobs_of-jobs_named paths targets u later in
    (
      record { job_name = c; targets = v; metrics_path = p } ∷ jobs,
      ground (arith, found, same),
      λ k. ground (arith, found, fresh, named k),
    )

module _ (consensus_configs execution_configs : List MetricsConfig) where
  abbrev pub metrics_path_of : String → Option String
  metrics_path_of client = path_of client execution_configs (path_of client consensus_configs none)

  -- Each client of an instance has a config.
  abbrev pub HasPaths : Target → Type 0
  HasPaths i =
      ((p : String) × (metrics_path_of i.consensus_client ≡ some p))
      × ((p : String) × (metrics_path_of i.execution_client ≡ some p))

  -- A client that has targets has a config.
  target-path :
      (k : String) (is : List Target) (l : String) (ls : List String)
      → All HasPaths is
      → targets_of k is ≡ l ∷ ls
      → (p : String) × (metrics_path_of k ≡ some p)
  target-path k [] l ls h e = absurd (ground (arith, e))
  target-path k (i ∷ is) l ls (((p, hp), (q, hq)), hs) e =
      elim (Bool-cases (k == i.consensus_client)) [
        | inl same ↦ let it : k ≡ i.consensus_client = ground (arith, same) in (p, rw it hp)
        | inr differ ↦ elim (Bool-cases (k == i.execution_client)) [
          | inl same ↦ let it : k ≡ i.execution_client = ground (arith, same) in (q, rw it hq)
          | inr differ' ↦ target-path k is l ls hs (ground (arith, differ, differ', e))
        ]
      ]

  found-path :
      (k : String) (is : List Target) (ls v : List String)
      → All HasPaths is
      → targets_of k is ≡ ls
      → some_targets ls ≡ some v
      → (p : String) × (metrics_path_of k ≡ some p)
  found-path k is [] v h e f = absurd (ground (arith, f))
  found-path k is (l ∷ ls) v h e f = target-path k is l ls h e

  -- Where each instance's clients have a config, the config of Prometheus is made. Its last job is that
  -- of Prometheus itself. Before it stands exactly one job for each client that has targets, with these
  -- in the order of the instances and the path of the client's last config, those of the execution
  -- clients behind those of the consensus clients, and no job of another name.
  pub make_prometheus_config-job_for :
      (instances : List Target) (seconds_per_slot : ℕ)
      → All HasPaths instances
      → (c : PrometheusConfig) × (make_prometheus_config consensus_configs execution_configs
            instances seconds_per_slot
          ≡ ok c)
        × (jobs : List Job) × (c.scrape_configs ≡ jobs ++ (prometheus_job ∷ []))
        × ((k : String)
            → jobs_named k jobs
              ≡ job_for k (some_targets (targets_of k instances)) (metrics_path_of k))
  unfolding make_prometheus_config
  make_prometheus_config-job_for instances seconds_per_slot h =
      let paths = add_metrics_paths execution_configs (add_metrics_paths consensus_configs []) in
      let targets = add_targets instances [] in
      let path : (k : String) → lookup k paths ≡ metrics_path_of k = λ k.
        lookup-add_metrics_paths k execution_configs _
        ∙ ap (path_of k execution_configs) (lookup-add_metrics_paths k consensus_configs []) in
      let found : (k : String) → lookup k targets ≡ (some_targets (targets_of k instances)) = λ k.
        ap (lookup k) (add_targets-group_results instances [])
        ∙ (group_results_lem (lines_of instances)).0 k
        ∙ ap some_targets (targets_of-clients_with k instances) in
      let have : (k : String) (v : List String)
          → lookup k targets ≡ some v
          → (p : String) × (lookup k paths ≡ some p) =
        λ k v e.
          let (p, q) =
            found-path k instances (targets_of k instances) v h refl (sym (found k) ∙ e) in
          (p, path k ∙ q) in
      let distinct : NodupKeys targets =
        rw (add_targets-group_results instances []) ((group_results_lem (lines_of instances)).1) in
      let (jobs, same, named) = jobs_of-jobs_named paths targets distinct have in
      (
        record {
          scrape_interval = str seconds_per_slot <> "s";
          evaluation_interval = str seconds_per_slot <> "s";
          scrape_configs = jobs ++ (prometheus_job ∷ []);
        },
        rw same refl,
        jobs,
        refl,
        λ k. named k ∙ ap (λ o. job_for k o (lookup k paths)) (found k) ∙ ap (job_for k _) (path k),
      )
