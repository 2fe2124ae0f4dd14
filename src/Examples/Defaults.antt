-- ===== src/Examples/Defaults.antt =====
-- The defaults of a file with one execution config and no consensus config
-- (src/etb/config/etb_config.py).
use ethereum_testnet_bootstr.Base.{◌≡◌, refl, some, none, [], ◌∷◌, ◌++◌, ok, string_eq}
use ethereum_testnet_bootstr.Config.Defaults.{
  number, text, Configs, default_execution_config, default_consensus_config,
  default_execution_config_fields, default_consensus_config_fields,
  get_default_execution_config_value, get_default_consensus_config_value, default_value,
  default_execution_client_specific_values_map, default_execution_values_map, updated,
  populate_execution_configs, populate_consensus_configs, fill_config, fill_fields,
}
use ethereum_testnet_bootstr.Config.Defaults.Filled.{
  HaveClients, AreFilled, execution_clients, consensus_clients, populate_configs-AreFilled,
}

abbrev given : Configs
given = ("our-geth", record { client = some "geth"; fields = ("p2p-port", number 30304) ∷ [] }) ∷ []

abbrev put_behind : Configs → Configs → Configs
put_behind defaults configs = defaults ++ configs

geth_config :
    fill_config get_default_execution_config_value
      ("p2p-port" ∷ "log-level" ∷ "ws-port" ∷ [])
      "our-geth"
      (record { client = some "geth"; fields = ("p2p-port", number 30304) ∷ [] })
    ≡ ok (record {
      client = some "geth";
      fields = ("p2p-port", number 30304) ∷ ("log-level", text "4") ∷ ("ws-port", number 8646) ∷ [];
    })
unfolding fill_config fill_fields get_default_execution_config_value default_value string_eq
    default_execution_client_specific_values_map default_execution_values_map
geth_config = refl

given-HaveClients :
    HaveClients execution_clients (updated put_behind default_execution_config (some given))
unfolding default_execution_config string_eq
given-HaveClients = (
  "geth",
  refl,
  refl,
  ("reth", refl, refl, ("besu", refl, refl, ("nethermind", refl, refl, ("geth", refl, refl, tt)))),
)

consensus-HaveClients :
    HaveClients consensus_clients (updated put_behind default_consensus_config none)
unfolding default_consensus_config string_eq
consensus-HaveClients = (
  "prysm",
  refl,
  refl,
  (
    "grandine",
    refl,
    refl,
    (
      "lighthouse",
      refl,
      refl,
      ("lodestar", refl, refl, ("nimbus", refl, refl, ("teku", refl, refl, tt))),
    ),
  ),
)

populate_configs-AreFilled_example :
    ((r : Configs) × (populate_execution_configs put_behind (some given) ≡ ok r)
      × AreFilled get_default_execution_config_value default_execution_config_fields
          (updated put_behind default_execution_config (some given))
          r)
    × ((r : Configs) × (populate_consensus_configs put_behind none ≡ ok r)
        × AreFilled get_default_consensus_config_value default_consensus_config_fields
            (updated put_behind default_consensus_config none)
            r)
populate_configs-AreFilled_example =
    populate_configs-AreFilled put_behind (some given) none given-HaveClients consensus-HaveClients
