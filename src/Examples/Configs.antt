-- ===== src/Examples/Configs.antt =====
-- Runs of the reading of a consensus layer, of the times and of the addresses
-- (src/etb/config/etb_config.py).
use ethereum_testnet_bootstr.Base.{
  ◌<◌, ◌≡◌, ◌≢◌, refl, false, some, [], ◌∷◌, All, ok, string_eq, ℕ_discrete, arith,
}
use ethereum_testnet_bootstr.Base.Text.Decimal.{NoDot, none_left, next}
use ethereum_testnet_bootstr.Config.Presets.{minimal, preset_of}
use ethereum_testnet_bootstr.Config.Forks.{
  phase0, altair, bellatrix, capella, deneb, sharding, fork_value, far_future, ConsensusFork,
  LayerEntries, has_field, number_at, text_at, require_fields, check_required, required_fork,
  optional_version, optional_epoch, optional_fork, append_required, append_optional,
  get_forks_from_config, Forks, unpack_forks, read_forks, get_genesis_fork, ConsensusLayer,
  read_preset_base, overridden, consensus_layer,
}
use ethereum_testnet_bootstr.Config.Forks.Genesis.{fork_list}
use ethereum_testnet_bootstr.Config.Forks.Reading.{get_genesis_fork-consensus_layer}
use ethereum_testnet_bootstr.Config.Times.{EtbConfig}

abbrev entries : LayerEntries
entries = record {
  numbers =
      ("min-genesis-active-validator-count", 64)
      ∷ ("phase0-fork-epoch", 0)
      ∷ ("phase0-fork-version", 10)
      ∷ ("altair-fork-epoch", 0)
      ∷ ("altair-fork-version", 11)
      ∷ ("bellatrix-fork-epoch", 0)
      ∷ ("bellatrix-fork-version", 12)
      ∷ ("capella-fork-epoch", 3)
      ∷ ("capella-fork-version", 13)
      ∷ [];
  texts =
      ("preset-base", "minimal")
      ∷ ("config-name", "testnet")
      ∷ ("validator-mnemonic", "words")
      ∷ [];
  flags = [];
}

abbrev pub forks : Forks
forks = record {
  phase0_fork = record { name = phase0; version = 10; epoch = 0 };
  altair_fork = record { name = altair; version = 11; epoch = 0 };
  bellatrix_fork = record { name = bellatrix; version = 12; epoch = 0 };
  capella_fork = record { name = capella; version = 13; epoch = 3 };
  deneb_fork = record { name = deneb; version = 14; epoch = far_future };
  sharding_fork = record { name = sharding; version = 15; epoch = far_future };
}

reads_forks : read_forks entries ≡ ok forks
unfolding read_forks get_forks_from_config check_required append_required append_optional
    required_fork optional_fork optional_version optional_epoch has_field number_at unpack_forks
    string_eq
reads_forks = refl

abbrev pub layer : ConsensusLayer
layer = record {
  preset_base = minimal;
  config_name = "testnet";
  min_genesis_active_validator_count = 64;
  validator_mnemonic = "words";
  disable_peer_scoring = false;
  min_validator_withdrawability_delay = 256;
  shard_committee_period = 64;
  min_epochs_for_block_requests = 272;
  forks = forks;
}

reads_layer : consensus_layer entries ≡ ok layer
unfolding consensus_layer require_fields read_preset_base overridden has_field number_at text_at
    read_forks get_forks_from_config check_required append_required append_optional required_fork
    optional_fork optional_version optional_epoch unpack_forks preset_of string_eq
reads_layer = refl

abbrev pub genesis : ConsensusFork
genesis = record { name = bellatrix; version = 12; epoch = 0 }

pub at_genesis : get_genesis_fork forks ≡ ok genesis
unfolding get_genesis_fork ℕ_discrete
at_genesis = refl

get_genesis_fork-consensus_layer_example :
    (genesis.epoch ≡ 0)
    × All
        (λ (g : ConsensusFork). (fork_value genesis.name < fork_value g.name) → g.epoch ≢ 0)
        (fork_list forks)
get_genesis_fork-consensus_layer_example =
    get_genesis_fork-consensus_layer entries reads_layer at_genesis

abbrev pub config : EtbConfig
config = record {
  consensus_layer = layer;
  seconds_per_eth1_block = 12;
  chain_id = 32382;
  network_id = 32382;
  genesis_time = some 1700000000;
  dynamic_entries = [];
}

ten : NoDot "10"
ten = next (λ p. omega (arith, p)) (next (λ p. omega (arith, p)) none_left)

nought : NoDot "0"
nought = next (λ p. omega (arith, p)) none_left

twenty : NoDot "20"
twenty = next (λ p. omega (arith, p)) (next (λ p. omega (arith, p)) none_left)
