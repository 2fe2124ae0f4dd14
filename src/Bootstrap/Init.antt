-- ===== src/Bootstrap/Init.antt =====
-- `init_testnet` of src/testnet_bootstrapper.py, as the actions that it takes on the disk. The config of
-- the docker-compose file and that of Prometheus are made by the functions that make them, which are
-- passed in as what they come to.
pub mod Once
use ethereum_testnet_bootstr.Base.{
  String, ◌<>◌, Bool, true, false, not, ◌||◌, List, [], ◌∷◌, Result, ok, err, Error, contains,
  raise_if, ◌==◌, string_eq, if◌then◌else◌,
}
use ethereum_testnet_bootstr.Base.Runs.{Run, raised, ◌>>=◌, ◌>>◌, act, return, call}
use ethereum_testnet_bootstr.Config.Instances.{ClientInstance}
use ethereum_testnet_bootstr.Config.Environment.Services.{Service}
use ethereum_testnet_bootstr.Bootstrap.Keystores.{
  supported_clients, KeystoreRange, min_ndx, max_ndx,
}
use ethereum_testnet_bootstr.Bootstrap.Assertoor.{AssertorConfig}
use ethereum_testnet_bootstr.Bootstrap.Prometheus.{PrometheusConfig}

pub data InitAction : Type 0 where
  touched : String → InitAction
  made_dir : String → InitAction
  wrote_assertor : AssertorConfig → InitAction
  wrote_jwt_secret : String → InitAction
  generated : KeystoreRange → InitAction
  wrote_config : String → InitAction
  copied : (source destination : String) → InitAction
  opened : String → InitAction
  wrote_services : List Service → InitAction

-- What is there.
abbrev pub Disk : Type 0
Disk = String → Bool

-- The paths and what the config comes to. The text of a random secret is not modelled.
pub record Setup : Type 0 where
  pub init_file : String
  pub local_testnet_dir : String
  pub local_logs_dir : String
  pub etb_config_path : String
  pub etb_config_checkpoint_file : String
  pub docker_compose_file : String
  pub prometheus_conf_dir : String
  pub trusted_setup_txt_file : String
  pub trusted_setup_json_file : String
  pub is_deneb : Bool
  pub client_instances : List ClientInstance
  pub el_dir : ClientInstance → String
  pub jwt_secret_file : ClientInstance → String
  pub assertor_config : Result AssertorConfig
  pub services : Result (List Service)
  pub prometheus_config : Result PrometheusConfig

abbrev pub trusted_setup_json : String
trusted_setup_json = "/source/deps/misc/trusted_setup.json"

abbrev pub trusted_setup_txt : String
trusted_setup_txt = "/source/deps/misc/trusted_setup.txt"

-- The loop over the instances' directories and secrets.
unfoldable pub populate_directories : Setup → List ClientInstance → Run InitAction (Unit {0})
populate_directories s [] = return tt
populate_directories s (i ∷ is) =
    act (made_dir (s.el_dir i))
    >> (act (wrote_jwt_secret (s.jwt_secret_file i)) >> populate_directories s is)

-- `_write_validator_keystores`, one instance after the other.
unfoldable pub write_keystores : List ClientInstance → Run InitAction (Unit {0})
write_keystores [] = return tt
write_keystores (i ∷ is) =
    call (
      raise_if (not (contains supported_clients i.consensus_config.client))
        (Error.not_supported i.consensus_config.client))
    >> (act (generated (i.instance_base.name, min_ndx i, max_ndx i)) >> write_keystores is)

unfoldable pub move_trusted_setup_files : Setup → Disk → Run InitAction (Unit {0})
move_trusted_setup_files s disk = do
  call (raise_if (not (disk trusted_setup_json)) (Error.value_error "trusted setup json file"))
  call (raise_if (not (disk trusted_setup_txt)) (Error.value_error "trusted setup txt file"))
  act (copied trusted_setup_txt s.trusted_setup_txt_file)
  act (copied trusted_setup_json s.trusted_setup_json_file)

-- What comes behind the init file. The config of Prometheus is made, and its file is opened, but the line
-- that writes it is a comment.
unfoldable pub populate_testnet : Setup → Disk → Run InitAction (Unit {0})
populate_testnet s disk = do
  call (raise_if (disk s.local_testnet_dir) (Error.value_error "FileExistsError"))
  act (made_dir s.local_testnet_dir)
  act (made_dir s.local_logs_dir)
  assertor ← call s.assertor_config
  act (wrote_assertor assertor)
  populate_directories s s.client_instances
  write_keystores s.client_instances
  call (
      raise_if (disk s.etb_config_checkpoint_file)
        (Error.value_error "etb_config checkpoint file exists"))
  act (wrote_config s.etb_config_path)
  (if s.is_deneb then move_trusted_setup_files s disk else return tt)
  act (opened s.docker_compose_file)
  services ← call s.services
  act (wrote_services services)
  prometheus ← call s.prometheus_config
  act (made_dir s.prometheus_conf_dir)
  act (opened (s.prometheus_conf_dir <> "/prometheus.yml"))

unfoldable pub init_testnet : Setup → Disk → Run InitAction (Unit {0})
init_testnet s disk =
    let populated = act (touched s.init_file) >> populate_testnet s disk in
    if disk s.init_file then ([], raised (Error.value_error "init_file exists")) else populated
