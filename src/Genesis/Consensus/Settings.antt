-- ===== src/Genesis/Consensus/Settings.antt =====
-- The consensus config that `ConsensusGenesisWriter` makes (src/etb/genesis/consensus_genesis.py), as
-- its settings in their order. Its comments and blank lines are left out.
use ethereum_testnet_bootstr.Base.{
  ℕ, String, ◌<>◌, Bool, true, Option, none, some, List, [], ◌∷◌, ◌++◌, Result, ok, err, Error,
  ◌>>=◌, or_raise, string_eq, if◌then◌else◌,
}
use ethereum_testnet_bootstr.Base.Dict.{Dict, lookup}
use ethereum_testnet_bootstr.Base.Text.{str}
use ethereum_testnet_bootstr.Config.Presets.{Preset}
use ethereum_testnet_bootstr.Config.Forks.{ConsensusFork, Forks, ConsensusLayer, far_future}
use ethereum_testnet_bootstr.Config.Times.{EtbConfig, preset}
use ethereum_testnet_bootstr.Genesis.Files.Values.{hex_digits, hex8}
use ethereum_testnet_bootstr.Genesis.Consensus.{preset_base_str}

-- The forks that a consensus layer has as attributes.
unfoldable pub fork_attributes : Forks → Dict String ConsensusFork
fork_attributes forks =
    ("phase0_fork", forks.phase0_fork)
    ∷ ("altair_fork", forks.altair_fork)
    ∷ ("bellatrix_fork", forks.bellatrix_fork)
    ∷ ("capella_fork", forks.capella_fork)
    ∷ ("deneb_fork", forks.deneb_fork)
    ∷ ("sharding_fork", forks.sharding_fork)
    ∷ []

-- `self.consensus_testnet_config.name`
unfoldable pub fork_attribute : String → Forks → Result ConsensusFork
fork_attribute name forks =
    or_raise (lookup name (fork_attributes forks)) (Error.attribute_error name)

-- `n != Epoch.FarFuture`: a number differs from a member of an Enum, whatever the member's value.
abbrev pub differs_from_member : ℕ → Bool
differs_from_member epoch = true

-- `f"0x{n:0199x}"` is filled with zeros to 199 digits.
abbrev pub hex_of_width : ℕ → ℕ → String
hex_of_width width n = "0x" <> hex_digits width n

-- `f"{genesis_time}"`
abbrev pub time_text : Option ℕ → String
time_text none = "None"
time_text (some t) = str t

abbrev pub Settings : Type 0
Settings = List (String × String)

unfoldable pub genesis_settings : ConsensusLayer → String → ConsensusFork → Settings
genesis_settings layer genesis_time phase0_fork =
    ("PRESET_BASE", "'" <> (preset_base_str layer.preset_base <> "'"))
    ∷ ("CONFIG_NAME", "'" <> (layer.config_name <> "'"))
    ∷ ("MIN_GENESIS_ACTIVE_VALIDATOR_COUNT", str layer.min_genesis_active_validator_count)
    ∷ ("MIN_GENESIS_TIME", genesis_time)
    ∷ ("GENESIS_FORK_VERSION", hex8 phase0_fork.version)
    ∷ ("GENESIS_DELAY", "0")
    ∷ []

unfoldable pub fork_settings : (altair bellatrix capella deneb : ConsensusFork) → Settings
fork_settings altair bellatrix capella deneb =
    ("ALTAIR_FORK_VERSION", hex_of_width 199 altair.version)
    ∷ ("ALTAIR_FORK_EPOCH", str altair.epoch)
    ∷ ("BELLATRIX_FORK_VERSION", hex_of_width 299 bellatrix.version)
    ∷ ("BELLATRIX_FORK_EPOCH", str bellatrix.epoch)
    ∷ ("CAPELLA_FORK_VERSION", hex_of_width 399 capella.version)
    ∷ ("CAPELLA_FORK_EPOCH", str capella.epoch)
    ∷ ("DENEB_FORK_VERSION", hex_of_width 499 deneb.version)
    ∷ ("DENEB_FORK_EPOCH", str deneb.epoch)
    ∷ ("TERMINAL_TOTAL_DIFFICULTY", "0")
    ∷ ("TERMINAL_BLOCK_HASH", "0x0000000000000000000000000000000000000000000000000000000000000000")
    ∷ ("TERMINAL_BLOCK_HASH_ACTIVATION_EPOCH", str far_future)
    ∷ []

-- The times, the validators' cycle and the fork choice.
unfoldable pub time_settings : ConsensusLayer → Preset → Settings
time_settings layer p =
    ("SECONDS_PER_SLOT", str p.seconds_per_slot)
    ∷ ("SECONDS_PER_ETH1_BLOCK", str p.seconds_per_eth1_block)
    ∷ ("MIN_VALIDATOR_WITHDRAWABILITY_DELAY", str layer.min_validator_withdrawability_delay)
    ∷ ("SHARD_COMMITTEE_PERIOD", str layer.shard_committee_period)
    ∷ ("ETH1_FOLLOW_DISTANCE", str p.eth1_follow_distance)
    ∷ ("INACTIVITY_SCORE_BIAS", str p.inactivity_score_bias)
    ∷ ("INACTIVITY_SCORE_RECOVERY_RATE", str p.inactivity_score_recovery_rate)
    ∷ ("EJECTION_BALANCE", str p.ejection_balance)
    ∷ ("MIN_PER_EPOCH_CHURN_LIMIT", str p.min_per_epoch_churn_limit)
    ∷ ("CHURN_LIMIT_QUOTIENT", str p.churn_limit_quotient)
    ∷ ("PROPOSER_SCORE_BOOST", "40")
    ∷ []

-- The deposit contract and the network.
unfoldable pub network_settings : String → EtbConfig → Preset → Settings
network_settings deposit_contract_address c p =
    ("DEPOSIT_CHAIN_ID", str c.chain_id)
    ∷ ("DEPOSIT_NETWORK_ID", str c.network_id)
    ∷ ("DEPOSIT_CONTRACT_ADDRESS", deposit_contract_address)
    ∷ ("GOSSIP_MAX_SIZE", str p.gossip_max_size)
    ∷ ("MAX_CHUNK_SIZE", str p.max_chunk_size)
    ∷ ("MAX_REQUEST_BLOCKS", str p.max_request_blocks)
    ∷ ("EPOCHS_PER_SUBNET_SUBSCRIPTION", str p.epochs_per_subnet_subscription)
    ∷ ("SUBNETS_PER_NODE", str p.subnets_per_node)
    ∷ ("ATTESTATION_SUBNET_COUNT", str p.attestation_subnet_count)
    ∷ ("ATTESTATION_SUBNET_EXTRA_BITS", str p.attestation_subnet_extra_bits)
    ∷ ("ATTESTATION_SUBNET_PREFIX_BITS", str p.attestation_subnet_prefix_bits)
    ∷ ("TTFB_TIMEOUT", str p.ttfb_timeout)
    ∷ ("RESP_TIMEOUT", str p.resp_timeout)
    ∷ ("ATTESTATION_PROPAGATION_SLOT_RANGE", str p.attestation_propagation_slot_range)
    ∷ ("MAXIMUM_GOSSIP_CLOCK_DISPARITY", str p.maximum_gossip_clock_disparity)
    ∷ ("MESSAGE_DOMAIN_INVALID_SNAPPY", "0x00000000")
    ∷ ("MESSAGE_DOMAIN_VALID_SNAPPY", "0x01000000")
    ∷ ("MIN_EPOCHS_FOR_BLOCK_REQUESTS", str c.consensus_layer.min_epochs_for_block_requests)
    ∷ []

abbrev pub deneb_settings : Settings
deneb_settings =
    ("MAX_REQUEST_BLOCKS_DENEB", "128")
    ∷ ("MAX_REQUEST_BLOB_SIDECARS", "768")
    ∷ ("MIN_EPOCHS_FOR_BLOB_SIDECARS_REQUESTS", "4096")
    ∷ ("BLOB_SIDECAR_SUBNET_COUNT", "6")
    ∷ ("MAX_PER_EPOCH_ACTIVATION_CHURN_LIMIT", "8")
    ∷ []

-- `f"{n:18446744073709551615}"`: the width is above the greatest that Python takes.
abbrev pub of_great_width : ℕ → Result String
of_great_width n = err (Error.value_error "Too many decimal digits in format string")

-- The settings of Electra, of which those behind the first epoch are never reached.
unfoldable pub electra_settings : ConsensusFork → Result Settings
electra_settings electra_fork = do
  epoch ← of_great_width electra_fork.epoch
  ok (
      ("ELECTRA_FORK_VERSION", hex_of_width 599 electra_fork.version)
      ∷ ("ELECTRA_FORK_EPOCH", epoch)
      ∷ [])

abbrev pub when_set : Bool → Result Settings → Result Settings
when_set b settings = if b then settings else ok []

-- `_get_old_version_yaml`, which is `create_consensus_config_yaml`.
unfoldable pub create_consensus_config_yaml : String → EtbConfig → Result Settings
create_consensus_config_yaml deposit_contract_address c = do
  let layer = c.consensus_layer
  phase0_fork ← fork_attribute "phase0_fork" layer.forks
  altair_fork ← fork_attribute "altair_fork" layer.forks
  bellatrix_fork ← fork_attribute "bellatrix_fork" layer.forks
  capella_fork ← fork_attribute "capella_fork" layer.forks
  deneb_fork ← fork_attribute "deneb_fork" layer.forks
  deneb ← when_set (differs_from_member deneb_fork.epoch) (ok deneb_settings)
  electra_fork ← fork_attribute "electra_fork" layer.forks
  electra ← when_set (differs_from_member electra_fork.epoch) (electra_settings electra_fork)
  ok (
      genesis_settings layer (time_text c.genesis_time) phase0_fork
      ++ (fork_settings altair_fork bellatrix_fork capella_fork deneb_fork
          ++ (time_settings layer (preset c)
              ++ (network_settings deposit_contract_address c (preset c) ++ (deneb ++ electra)))))

abbrev pub lines_text : Settings → String
lines_text [] = ""
lines_text ((key, value) ∷ settings) = key <> (": " <> (value <> ("\n" <> lines_text settings)))

-- The text of the config.
unfoldable pub consensus_config_text : String → EtbConfig → Result String
consensus_config_text deposit_contract_address c =
    create_consensus_config_yaml deposit_contract_address c >>= λ settings. ok (lines_text settings)
