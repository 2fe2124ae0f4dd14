-- ===== src/Examples/Bootstrap.antt =====
-- Runs of the bootstrapper (src/testnet_bootstrapper.py).
use ethereum_testnet_bootstr.Base.{List, [], ◌∷◌, ok, err, Error, false, ◌≡◌, ltb, if◌then◌else◌}
use ethereum_testnet_bootstr.Base.Runs.History.{Occurs, Tracks}
use ethereum_testnet_bootstr.Config.Times.{set_genesis_time}
use ethereum_testnet_bootstr.Bootstrap.Phases.{
  opened, consensus_checkpoint_file, Collection, Outside, bootstrap_with, bootstrap_testnet,
}
use ethereum_testnet_bootstr.Bootstrap.Phases.Order.{IsReady, bootstrap_with-IsReady}
use ethereum_testnet_bootstr.Base.Runs.{Keeps}
use ethereum_testnet_bootstr.Bootstrap.Phases.Halting.{IsQuiet, Never, bootstrap_testnet-IsQuiet}
use ethereum_testnet_bootstr.Genesis.Consensus.Settings.{consensus_config_text}
use ethereum_testnet_bootstr.Examples.Configs.{config}
use ethereum_testnet_bootstr.Examples.Genesis.{accounts}

abbrev collections : List Collection
collections =
    record { collection_dir = "/data/local-testnet/geth-nimbus"; client = "nimbus" }
    ∷ record { collection_dir = "/data/local-testnet/besu-teku"; client = "teku" }
    ∷ []

-- The third attempt to pair the clients succeeds.
abbrev outside : Outside
outside = record {
  pair_execution_clients = λ i. if ltb i 2 then err (Error.value_error "refused") else ok tt;
  deployment_block = ok ("0x12", 0);
  get_genesis_ssz = λ call fork args. ok "ssz";
  etb_config_checkpoint_exists = false;
}

bootstrap_with-IsReady_example :
    Tracks
      (IsReady (set_genesis_time config 1700000500) accounts collections)
      []
      (λ past _. Occurs (opened consensus_checkpoint_file) past)
      (bootstrap_with
        (λ c. ok "PRESET_BASE: 'minimal'")
        config
        1700000500
        accounts
        collections
        outside)
bootstrap_with-IsReady_example =
    bootstrap_with-IsReady (λ c. ok "PRESET_BASE: 'minimal'") config 1700000500 accounts collections
      outside

bootstrap_testnet-IsQuiet_example :
    (consensus_config_text accounts.deposit_contract_address (set_genesis_time config 1700000500)
      ≡ err (Error.attribute_error "electra_fork"))
    × Keeps IsQuiet Never (bootstrap_testnet config 1700000500 accounts collections outside)
bootstrap_testnet-IsQuiet_example =
    bootstrap_testnet-IsQuiet config 1700000500 accounts collections outside
