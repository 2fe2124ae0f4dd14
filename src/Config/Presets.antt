-- ===== src/Config/Presets.antt =====
-- The preset values of src/etb/common/consensus.py. The lines of the source that only annotate a name,
-- `MAX_BLOBS_PER_BLOCK: 6`, give an Enum no member, so they are no fields here.
use ethereum_testnet_bootstr.Base.{ℕ, Option, none, some}

pub record Preset : Type 0 where
  pub slots_per_epoch : ℕ
  pub epochs_per_eth1_voting_period : ℕ
  pub seconds_per_slot : ℕ
  pub seconds_per_eth1_block : ℕ
  pub min_validator_withdrawability_delay : ℕ
  pub shard_committee_period : ℕ
  pub eth1_follow_distance : ℕ
  pub inactivity_score_bias : ℕ
  pub inactivity_score_recovery_rate : ℕ
  pub ejection_balance : ℕ
  pub min_per_epoch_churn_limit : ℕ
  pub churn_limit_quotient : ℕ
  pub proposer_score_boost : ℕ
  pub gossip_max_size : ℕ
  pub max_request_blocks : ℕ
  pub epochs_per_subnet_subscription : ℕ
  pub min_epochs_for_block_requests : ℕ
  pub max_chunk_size : ℕ
  pub ttfb_timeout : ℕ
  pub resp_timeout : ℕ
  pub attestation_propagation_slot_range : ℕ
  pub maximum_gossip_clock_disparity : ℕ
  pub message_domain_invalid_snappy : ℕ
  pub message_domain_valid_snappy : ℕ
  pub subnets_per_node : ℕ
  pub attestation_subnet_count : ℕ
  pub attestation_subnet_extra_bits : ℕ
  pub attestation_subnet_prefix_bits : ℕ
  pub sync_committee_size : Option ℕ

-- `MinimalPreset`
abbrev pub minimal_preset : Preset
minimal_preset = record {
  slots_per_epoch = 8;
  epochs_per_eth1_voting_period = 4;
  seconds_per_slot = 6;
  seconds_per_eth1_block = 14;
  min_validator_withdrawability_delay = 256;
  shard_committee_period = 64;
  eth1_follow_distance = 16;
  inactivity_score_bias = 4;
  inactivity_score_recovery_rate = 16;
  ejection_balance = 16000000000;
  min_per_epoch_churn_limit = 4;
  churn_limit_quotient = 32;
  proposer_score_boost = 40;
  gossip_max_size = 10485760;
  max_request_blocks = 1024;
  epochs_per_subnet_subscription = 256;
  min_epochs_for_block_requests = 272;
  max_chunk_size = 10485760;
  ttfb_timeout = 5;
  resp_timeout = 10;
  attestation_propagation_slot_range = 32;
  maximum_gossip_clock_disparity = 500;
  message_domain_invalid_snappy = 0x00000000;
  message_domain_valid_snappy = 0x01000000;
  subnets_per_node = 2;
  attestation_subnet_count = 64;
  attestation_subnet_extra_bits = 0;
  attestation_subnet_prefix_bits = 6;
  sync_committee_size = none;
}

-- `MainnetPreset`
abbrev pub mainnet_preset : Preset
mainnet_preset = record {
  slots_per_epoch = 32;
  epochs_per_eth1_voting_period = 64;
  seconds_per_slot = 12;
  seconds_per_eth1_block = 1;
  min_validator_withdrawability_delay = 256;
  shard_committee_period = 256;
  eth1_follow_distance = 2048;
  inactivity_score_bias = 4;
  inactivity_score_recovery_rate = 16;
  ejection_balance = 16000000000;
  min_per_epoch_churn_limit = 4;
  churn_limit_quotient = 65536;
  proposer_score_boost = 40;
  gossip_max_size = 10485760;
  max_request_blocks = 1024;
  epochs_per_subnet_subscription = 256;
  min_epochs_for_block_requests = 33024;
  max_chunk_size = 10485760;
  ttfb_timeout = 5;
  resp_timeout = 10;
  attestation_propagation_slot_range = 32;
  maximum_gossip_clock_disparity = 500;
  message_domain_invalid_snappy = 0x00000000;
  message_domain_valid_snappy = 0x01000000;
  subnets_per_node = 2;
  attestation_subnet_count = 64;
  attestation_subnet_extra_bits = 0;
  attestation_subnet_prefix_bits = 6;
  sync_committee_size = none;
}

-- `MainnetCustomPreset`
abbrev pub mainnet_custom_preset : Preset
mainnet_custom_preset = record {
  slots_per_epoch = 32;
  epochs_per_eth1_voting_period = 64;
  seconds_per_slot = 4;
  seconds_per_eth1_block = 1;
  min_validator_withdrawability_delay = 256;
  shard_committee_period = 256;
  eth1_follow_distance = 2048;
  inactivity_score_bias = 4;
  inactivity_score_recovery_rate = 16;
  ejection_balance = 16000000000;
  min_per_epoch_churn_limit = 4;
  churn_limit_quotient = 65536;
  proposer_score_boost = 40;
  gossip_max_size = 10485760;
  max_request_blocks = 1024;
  epochs_per_subnet_subscription = 256;
  min_epochs_for_block_requests = 33024;
  max_chunk_size = 10485760;
  ttfb_timeout = 5;
  resp_timeout = 10;
  attestation_propagation_slot_range = 32;
  maximum_gossip_clock_disparity = 500;
  message_domain_invalid_snappy = 0x00000000;
  message_domain_valid_snappy = 0x01000000;
  subnets_per_node = 2;
  attestation_subnet_count = 64;
  attestation_subnet_extra_bits = 0;
  attestation_subnet_prefix_bits = 6;
  sync_committee_size = some 8;
}

-- The three preset classes, as a config names them.
pub data PresetBase : Type 0 where
  minimal mainnet mainnet_custom : PresetBase

-- The members of the class.
unfoldable pub preset_of : PresetBase → Preset
preset_of minimal = minimal_preset
preset_of mainnet = mainnet_preset
preset_of mainnet_custom = mainnet_custom_preset
