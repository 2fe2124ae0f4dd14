-- ===== src/Examples/Environment.antt =====
-- The environment of a client's service (src/etb/config/etb_config.py).
use ethereum_testnet_bootstr.Base.{◌≡◌, refl, none, some, [], ◌∷◌, string_eq, ℕ_discrete}
use ethereum_testnet_bootstr.Base.Dict.{lookup}
use ethereum_testnet_bootstr.Config.Environment.{
  text, number, EnvVars, EnvClient, client_environment, with_genesis_file, update, to_env_key,
  client_env_vars, execution_env_vars, consensus_env_vars, additional_env_vars, collection_env_vars,
  client_collection_env_vars, instance_env_vars, instance_environment,
}
use ethereum_testnet_bootstr.Config.Environment.Layers.{
  or_else, value_in, layers, client_environment-value_in,
}

abbrev client : EnvClient
client = record {
  base = record {
    collection_name = "geth-teku";
    ndx = 1;
    name = "geth-teku-1";
    ip_address = "10.0.20.3";
  };
  collection = record {
    mock_builder = "0";
    additional_env = ("mock-builder", "1") ∷ ("consensus-client", "other") ∷ [];
  };
  consensus_config = record {
    client = "teku";
    launcher = "teku.sh";
    log_level = "info";
    log_level_file = "debug";
    p2p_port = 4000;
    beacon_api_port = 5000;
    beacon_rpc_port = 5001;
    beacon_metric_port = 8000;
    validator_rpc_port = 5002;
    validator_metric_port = 8001;
    num_validators = 5;
  };
  execution_config = record {
    client = "geth";
    launcher = "geth.sh";
    log_level = "info";
    p2p_port = 666;
    http_apis = "admin" ∷ "eth" ∷ [];
    http_port = 8545;
    ws_apis = "eth" ∷ [];
    ws_port = 8546;
    engine_http_port = 8551;
    engine_ws_port = 8551;
    metric_port = 8010;
    json_rpc_snooper_proxy_port = none;
  };
}

abbrev global : EnvVars
global = ("CHAIN_ID", number 1337) ∷ ("MOCK_BUILDER", text "2") ∷ []

-- An additional variable replaces the builder's, and does not replace the consensus config's.
replaced :
    lookup "MOCK_BUILDER" (client_environment "/data/local-testnet" global client) ≡ some (text "1")
unfolding client_environment update to_env_key client_env_vars execution_env_vars consensus_env_vars
    additional_env_vars collection_env_vars client_collection_env_vars instance_env_vars
    instance_environment string_eq ℕ_discrete
replaced = refl

client_environment-value_in_example :
    lookup "EXECUTION_GENESIS_FILE" (
      with_genesis_file "/data/geth-genesis.json"
        (client_environment "/data/local-testnet" global client))
    ≡ or_else
        (value_in "EXECUTION_GENESIS_FILE" (
          (("EXECUTION_GENESIS_FILE", text "/data/geth-genesis.json") ∷ [])
          ∷ layers "/data/local-testnet" client))
        (lookup "EXECUTION_GENESIS_FILE" global)
client_environment-value_in_example =
    client_environment-value_in "EXECUTION_GENESIS_FILE" "/data/geth-genesis.json"
      "/data/local-testnet" global client
