-- ===== src/Config/Defaults.antt =====
-- The defaults of the execution and consensus configs: src/etb/config/defaults.py, and
-- `_populate_execution_configs` and `_populate_consensus_configs` of src/etb/config/etb_config.py.
-- `deep_update` is pydantic's and is passed in.
pub mod Filled
use ethereum_testnet_bootstr.Base.{
  ℕ, String, Bool, ◌&&◌, Option, none, some, List, [], ◌∷◌, Result, ok, err, Error, ◌>>=◌, ◌==◌,
  string_eq, if◌then◌else◌,
}
use ethereum_testnet_bootstr.Base.Dict.{Dict, lookup, has_key, insert}

pub data Value : Type 0 where
  text : String → Value
  number : ℕ → Value

-- A dict whose keys are pairs of a client and a field.
abbrev pub SpecificValues : Type 0
SpecificValues = List (String × String × Value)

abbrev pub default_execution_config_fields : List String
default_execution_config_fields =
    "launcher" ∷ "log-level" ∷ "log-level-file" ∷ "p2p-port" ∷ "http-apis" ∷ "http-port" ∷ "ws-apis"
    ∷ "ws-port" ∷ "engine-http-port" ∷ "engine-ws-port" ∷ "metric-port" ∷ "metrics-path" ∷ []

unfoldable pub default_execution_client_specific_values_map : SpecificValues
default_execution_client_specific_values_map =
    ("geth", "launcher", text "/source/deps/launchers/el/launch-geth.sh")
    ∷ ("geth", "log-level", text "4")
    ∷ ("geth", "log-level-file", text "4")
    ∷ ("geth", "ws-apis", text "admin,net,eth,web3,engine")
    ∷ ("geth", "http-apis", text "admin,net,eth,web3,engine")
    ∷ ("besu", "launcher", text "/source/deps/launchers/el/launch-besu.sh")
    ∷ ("besu", "log-level", text "info")
    ∷ ("besu", "log-level-file", text "info")
    ∷ ("besu", "ws-apis", text "ADMIN,ETH,NET,TXPOOL,WEB3,ENGINE")
    ∷ ("besu", "http-apis", text "ADMIN,ETH,NET,TXPOOL,WEB3,ENGINE")
    ∷ ("reth", "launcher", text "/source/deps/launchers/el/launch-reth.sh")
    ∷ ("reth", "log-level", text "vvvv")
    ∷ ("reth", "log-level-file", text "vvvv")
    ∷ ("reth", "ws-apis", text "eth,net,admin,web3")
    ∷ ("reth", "http-apis", text "eth,net,admin,web3")
    ∷ ("nethermind", "launcher", text "/source/deps/launchers/el/launch-nethermind.sh")
    ∷ ("nethermind", "log-level", text "INFO")
    ∷ ("nethermind", "log-level-file", text "INFO")
    ∷ ("nethermind", "ws-apis", text "net,eth,consensus,subscribe,web3,admin")
    ∷ ("nethermind", "http-apis", text "net,eth,consensus,subscribe,web3,admin")
    ∷ ("nethermind", "engine-ws-port", number 8552)
    ∷ []

unfoldable pub default_execution_values_map : Dict String Value
default_execution_values_map =
    ("engine-http-port", number 8551)
    ∷ ("engine-ws-port", number 8551)
    ∷ ("p2p-port", number 30303)
    ∷ ("http-port", number 8645)
    ∷ ("ws-port", number 8646)
    ∷ ("metric-port", number 6060)
    ∷ ("metrics-path", text "/metrics")
    ∷ []

abbrev pub default_consensus_config_fields : List String
default_consensus_config_fields =
    "launcher" ∷ "num-validators" ∷ "log-level" ∷ "log-level-file" ∷ "p2p-port" ∷ "beacon-api-port"
    ∷ "beacon-rpc-port" ∷ "beacon-metric-port" ∷ "validator-rpc-port" ∷ "validator-metric-port"
    ∷ "metrics-path" ∷ []

unfoldable pub default_consensus_client_specific_values_map : SpecificValues
default_consensus_client_specific_values_map =
    ("prysm", "log-level", text "info")
    ∷ ("prysm", "log-level-file", text "info")
    ∷ ("grandine", "log-level", text "info")
    ∷ ("grandine", "log-level-file", text "info")
    ∷ ("teku", "log-level", text "INFO")
    ∷ ("teku", "log-level-file", text "INFO")
    ∷ ("lodestar", "log-level", text "info")
    ∷ ("lodestar", "log-level-file", text "info")
    ∷ ("nimbus", "log-level", text "info")
    ∷ ("nimbus", "log-level-file", text "info")
    ∷ ("lighthouse", "log-level", text "info")
    ∷ ("lighthouse", "log-level-file", text "info")
    ∷ ("prysm", "launcher", text "/source/deps/launchers/cl/launch-prysm.sh")
    ∷ ("grandine", "launcher", text "/source/deps/launchers/cl/launch-grandine.sh")
    ∷ ("teku", "launcher", text "/source/deps/launchers/cl/launch-teku.sh")
    ∷ ("lodestar", "launcher", text "/source/deps/launchers/cl/launch-lodestar.sh")
    ∷ ("nimbus", "launcher", text "/source/deps/launchers/cl/launch-nimbus.sh")
    ∷ ("lighthouse", "launcher", text "/source/deps/launchers/cl/launch-lighthouse.sh")
    ∷ []

unfoldable pub default_consensus_values_map : Dict String Value
default_consensus_values_map =
    ("p2p-port", number 9000)
    ∷ ("beacon-api-port", number 5052)
    ∷ ("beacon-rpc-port", number 3500)
    ∷ ("beacon-metric-port", number 8080)
    ∷ ("validator-rpc-port", number 7000)
    ∷ ("validator-metric-port", number 8081)
    ∷ ("num-validators", number 4)
    ∷ ("metrics-path", text "/metrics")
    ∷ []

abbrev pub lookup_specific : String → String → SpecificValues → Option Value
lookup_specific client entry [] = none
lookup_specific client entry ((c, e, v) ∷ d) =
    if (client == c) && (entry == e) then some v else lookup_specific client entry d

-- The two functions below without the tables.
unfoldable pub default_value :
    SpecificValues → Dict String Value → (section : String) → String → String → Result Value
default_value specific values section client entry = elim (lookup_specific client entry specific) [
  | some v ↦ ok v
  | none ↦ elim (lookup entry values) [
    | some v ↦ ok v
    | none ↦ err (Error.missing_field entry section)
  ]
]

unfoldable pub get_default_execution_config_value : String → String → Result Value
get_default_execution_config_value =
    default_value default_execution_client_specific_values_map default_execution_values_map
      "execution-configs"

unfoldable pub get_default_consensus_config_value : String → String → Result Value
get_default_consensus_config_value =
    default_value default_consensus_client_specific_values_map default_consensus_values_map
      "consensus-configs"

-- A config: its client, where the file gives one, and its other fields.
pub record Config : Type 0 where
  pub client : Option String
  pub fields : Dict String Value

abbrev pub Configs : Type 0
Configs = Dict String Config

module _ (default : String → String → Result Value) where
  -- The loop over the fields that need a value.
  unfoldable pub fill_fields : String → List String → Dict String Value → Result (Dict String Value)
  fill_fields client [] config = ok config
  fill_fields client (field ∷ fields) config =
      let filled =
        default client field >>= λ v. fill_fields client fields (insert field v config) in
      let kept = fill_fields client fields config in if has_key field config then kept else filled

  -- The body of the loop over the configs.
  unfoldable pub fill_config : List String → String → Config → Result Config
  fill_config fields name config = elim config.client [
    | none ↦ err (Error.missing_field "client" name)
    | some client ↦ fill_fields client fields config.fields >>= λ filled.
        ok (record { client = some client; fields = filled })
  ]

  unfoldable pub fill_configs : List String → Configs → Result Configs
  fill_configs fields [] = ok []
  fill_configs fields ((name, config) ∷ configs) = do
    filled ← fill_config fields name config
    rest ← fill_configs fields configs
    ok ((name, filled) ∷ rest)

abbrev pub only_client : String → Config
only_client client = record { client = some client; fields = [] }

unfoldable pub default_execution_config : Configs
default_execution_config =
    ("geth-execution-config", only_client "geth")
    ∷ ("reth-execution-config", only_client "reth")
    ∷ ("besu-execution-config", only_client "besu")
    ∷ ("nethermind-execution-config", only_client "nethermind")
    ∷ []

-- A default consensus config. They differ in their clients only.
abbrev pub with_ports : String → Config
with_ports client = record {
  client = some client;
  fields =
      ("num-validators", number 4)
      ∷ ("p2p-port", number 9000)
      ∷ ("beacon-api-port", number 5052)
      ∷ ("beacon-rpc-port", number 3500)
      ∷ ("beacon-metric-port", number 8080)
      ∷ ("validator-rpc-port", number 7000)
      ∷ ("validator-metric-port", number 8081)
      ∷ ("metrics-path", text "/metrics")
      ∷ [];
}

unfoldable pub default_consensus_config : Configs
default_consensus_config =
    ("prysm-consensus-client", with_ports "prysm")
    ∷ ("grandine-consensus-client", with_ports "grandine")
    ∷ ("lighthouse-consensus-client", with_ports "lighthouse")
    ∷ ("lodestar-consensus-client", with_ports "lodestar")
    ∷ ("nimbus-consensus-client", with_ports "nimbus")
    ∷ ("teku-consensus-client", with_ports "teku")
    ∷ []

-- The defaults with what the file has, if it has the section.
abbrev pub updated : (Configs → Configs → Configs) → Configs → Option Configs → Configs
updated deep_update configs none = configs
updated deep_update configs (some given) = deep_update configs given

-- `_populate_execution_configs`
unfoldable pub populate_execution_configs :
    (deep_update : Configs → Configs → Configs) → Option Configs → Result Configs
populate_execution_configs deep_update given =
    fill_configs get_default_execution_config_value default_execution_config_fields
      (updated deep_update default_execution_config given)

-- `_populate_consensus_configs`
unfoldable pub populate_consensus_configs :
    (deep_update : Configs → Configs → Configs) → Option Configs → Result Configs
populate_consensus_configs deep_update given =
    fill_configs get_default_consensus_config_value default_consensus_config_fields
      (updated deep_update default_consensus_config given)
