-- ===== src/Config/Environment.antt =====
-- The environment of the instances in the docker-compose file (src/etb/config/etb_config.py):
-- `get_env_vars` of the configs and instances, and `get_docker_compose_repr`.
pub mod Layers
pub mod Services
use Prim.Native.Char.{Char, code}
use Prim.Native.String
use Prim.Native.String.{char_at}
use ethereum_testnet_bootstr.Base.{
  ℕ, ◌-◌, String, ◌<>◌, Bool, true, false, ◌&&◌, Option, none, some, List, [], ◌∷◌, Result, ok,
  Error, ◌>>=◌, or_raise, leb, ◌==◌, nat_eq, string_eq, if◌then◌else◌,
}
use ethereum_testnet_bootstr.Base.Dict.{Dict, lookup, insert}
use ethereum_testnet_bootstr.Base.Text.{str}
use ethereum_testnet_bootstr.Config.Instances.{Instance}

-- What a variable is set to.
pub data EnvValue : Type 0 where
  text : String → EnvValue
  number : ℕ → EnvValue
  flag : Bool → EnvValue

abbrev pub EnvVars : Type 0
EnvVars = Dict String EnvValue

-- `d.update(e)`, and a loop of `d[key] = value`.
unfoldable pub update : EnvVars → EnvVars → EnvVars
update d [] = d
update d ((key, value) ∷ e) = update (insert key value d) e

-- `",".join(apis)`
abbrev pub join_apis : List String → String
join_apis [] = ""
join_apis (api ∷ []) = api
join_apis (api ∷ next ∷ apis) = api <> ("," <> join_apis (next ∷ apis))

pub record ExecutionInstanceConfig : Type 0 where
  pub client : String
  pub launcher : String
  pub log_level : String
  pub p2p_port : ℕ
  pub http_apis : List String
  pub http_port : ℕ
  pub ws_apis : List String
  pub ws_port : ℕ
  pub engine_http_port : ℕ
  pub engine_ws_port : ℕ
  pub metric_port : ℕ
  pub json_rpc_snooper_proxy_port : Option ℕ

-- `ExecutionInstanceConfig.get_env_vars`
unfoldable pub execution_env_vars : ExecutionInstanceConfig → EnvVars
execution_env_vars c =
    ("EXECUTION_CLIENT", text c.client)
    ∷ ("EXECUTION_LAUNCHER", text c.launcher)
    ∷ ("EXECUTION_LOG_LEVEL", text c.log_level)
    ∷ ("EXECUTION_P2P_PORT", number c.p2p_port)
    ∷ ("EXECUTION_HTTP_APIS", text (join_apis c.http_apis))
    ∷ ("EXECUTION_HTTP_PORT", number c.http_port)
    ∷ ("EXECUTION_WS_APIS", text (join_apis c.ws_apis))
    ∷ ("EXECUTION_WS_PORT", number c.ws_port)
    ∷ ("EXECUTION_ENGINE_HTTP_PORT", number c.engine_http_port)
    ∷ ("EXECUTION_ENGINE_WS_PORT", number c.engine_ws_port)
    ∷ ("EXECUTION_METRIC_PORT", number c.metric_port)
    ∷ (
      "RUN_JSON_RPC_SNOOPER",
      flag (elim c.json_rpc_snooper_proxy_port [ none ↦ false | some _ ↦ true ]),
    )
    ∷ (
      "CL_EXECUTION_ENGINE_HTTP_PORT",
      number (elim c.json_rpc_snooper_proxy_port [ none ↦ c.engine_http_port | some port ↦ port ]),
    )
    ∷ []

-- The fields of `ConsensusInstanceConfig` that are launchers' arguments.
pub record ConsensusLaunchConfig : Type 0 where
  pub client : String
  pub launcher : String
  pub log_level : String
  pub log_level_file : String
  pub p2p_port : ℕ
  pub beacon_api_port : ℕ
  pub beacon_rpc_port : ℕ
  pub beacon_metric_port : ℕ
  pub validator_rpc_port : ℕ
  pub validator_metric_port : ℕ
  pub num_validators : ℕ

-- `ConsensusInstanceConfig.get_env_vars`
unfoldable pub consensus_env_vars : ConsensusLaunchConfig → EnvVars
consensus_env_vars c =
    ("CONSENSUS_CLIENT", text c.client)
    ∷ ("CONSENSUS_LAUNCHER", text c.launcher)
    ∷ ("CONSENSUS_LOG_LEVEL", text c.log_level)
    ∷ ("CONSENSUS_LOG_LEVEL_FILE", text c.log_level_file)
    ∷ ("CONSENSUS_P2P_PORT", number c.p2p_port)
    ∷ ("CONSENSUS_BEACON_API_PORT", number c.beacon_api_port)
    ∷ ("CONSENSUS_BEACON_RPC_PORT", number c.beacon_rpc_port)
    ∷ ("CONSENSUS_BEACON_METRIC_PORT", number c.beacon_metric_port)
    ∷ ("CONSENSUS_VALIDATOR_RPC_PORT", number c.validator_rpc_port)
    ∷ ("CONSENSUS_VALIDATOR_METRIC_PORT", number c.validator_metric_port)
    ∷ []

abbrev pub capitals : String
capitals = "ABCDEFGHIJKLMNOPQRSTUVWXYZ"

unfoldable pub to_env_char : Char → Char
to_env_char c =
    if code c == b'-'
    then char_at "_" 0
    else if leb b'a' (code c) && leb (code c) b'z'
    then char_at capitals (code c - b'a')
    else c

-- `key.replace("-", "_").upper()`, for keys of ASCII.
unfoldable pub to_env_key : String → String
unfolding to_env_char
to_env_key String.[] = ""
to_env_key (String.◌∷◌ c s) = String.◌∷◌ (to_env_char c) (to_env_key s)

-- `InstanceCollectionConfig.get_env_vars`: the additional variables under their keys.
unfoldable pub additional_env_vars : Dict String String → EnvVars
additional_env_vars [] = []
additional_env_vars ((key, value) ∷ env) = (to_env_key key, text value) ∷ additional_env_vars env

pub record EnvCollection : Type 0 where
  pub mock_builder : String
  pub additional_env : Dict String String

unfoldable pub collection_env_vars : EnvCollection → EnvVars
collection_env_vars k =
    update (("MOCK_BUILDER", text k.mock_builder) ∷ []) (additional_env_vars k.additional_env)

-- `ClientInstanceCollectionConfig.get_env_vars`
unfoldable pub client_collection_env_vars :
    EnvCollection → ConsensusLaunchConfig → ExecutionInstanceConfig → EnvVars
client_collection_env_vars k consensus_config execution_config =
    update (update (collection_env_vars k) (consensus_env_vars consensus_config))
      (execution_env_vars execution_config)

-- `Instance.get_env_vars`, given the variables of its collection.
unfoldable pub instance_env_vars : Instance → EnvVars → EnvVars
instance_env_vars i collection_vars =
    update (("IP_ADDRESS", text i.ip_address) ∷ ("CONTAINER_NAME", text i.name) ∷ [])
      collection_vars

-- `entry["environment"]` of `Instance.get_docker_compose_repr`
unfoldable pub instance_environment : EnvVars → Instance → EnvVars → EnvVars
instance_environment global_env_vars i collection_vars =
    update global_env_vars (instance_env_vars i collection_vars)

-- The paths of a client instance; `testnet_dir` is `local_testnet_dir`.
abbrev pub collection_dir : String → Instance → String
collection_dir testnet_dir i = testnet_dir <> ("/" <> i.collection_name)

abbrev pub node_dir : String → Instance → String
node_dir testnet_dir i = collection_dir testnet_dir i <> ("/node_" <> str i.ndx)

-- The variables that `ClientInstance.get_docker_compose_repr` adds.
unfoldable pub client_env_vars :
    String → Instance → ConsensusLaunchConfig → ExecutionInstanceConfig → EnvVars
client_env_vars testnet_dir i consensus_config execution_config =
    ("JWT_SECRET_FILE", text (node_dir testnet_dir i <> "/jwt_secret"))
    ∷ ("CONSENSUS_NODE_DIR", text (node_dir testnet_dir i))
    ∷ ("COLLECTION_DIR", text (collection_dir testnet_dir i))
    ∷ ("CONSENSUS_CONFIG_FILE", text (collection_dir testnet_dir i <> "/config.yaml"))
    ∷ ("CONSENSUS_GENESIS_FILE", text (collection_dir testnet_dir i <> "/genesis.ssz"))
    ∷ ("EXECUTION_NODE_DIR", text (node_dir testnet_dir i <> ("/" <> execution_config.client)))
    ∷ ("CONSENSUS_GRAFFITI", text i.name)
    ∷ ("NUM_VALIDATORS", number consensus_config.num_validators)
    ∷ []

pub record EnvClient : Type 0 where
  pub base : Instance
  pub collection : EnvCollection
  pub consensus_config : ConsensusLaunchConfig
  pub execution_config : ExecutionInstanceConfig

-- The environment of a client, before `ETBConfig.get_docker_compose_repr` adds the genesis file.
unfoldable pub client_environment : String → EnvVars → EnvClient → EnvVars
unfolding instance_environment
client_environment testnet_dir global_env_vars i =
    update
      (instance_environment global_env_vars i.base
        (client_collection_env_vars i.collection i.consensus_config i.execution_config))
      (client_env_vars testnet_dir i.base i.consensus_config i.execution_config)

-- `ci_docker_repr["environment"]["EXECUTION_GENESIS_FILE"] = ...`
abbrev pub with_genesis_file : String → EnvVars → EnvVars
with_genesis_file genesis_file environment =
    insert "EXECUTION_GENESIS_FILE" (text genesis_file) environment
