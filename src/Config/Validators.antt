-- ===== src/Config/Validators.antt =====
-- The validators that each collection of clients runs (src/etb/config/etb_config.py):
-- `_get_user_defined_validator_indexes`, the part of `_populate_client_instances` that gives out
-- `validator-offset-start`, and the genesis count of `_populate_testnet_config`.
pub mod Defined
use ethereum_testnet_bootstr.Base.{
  ℕ, zero, suc, ◌+◌, ◌*◌, String, Bool, true, false, Option, none, some, List, [], ◌∷◌, Result, ok,
  err, Error, ◌>>=◌, or_raise, ◌==◌, nat_eq, string_eq, ltb, if◌then◌else◌,
}
use ethereum_testnet_bootstr.Base.Dict.{Dict, keys, lookup, insert}
use ethereum_testnet_bootstr.Config.Ips.{InstanceEntry, Instances, num_nodes_of}

-- What is kept of a `ConsensusInstanceConfig`.
pub record ConsensusInstanceConfig : Type 0 where
  pub client : String
  pub num_validators : ℕ

-- The `consensus-configs` by their names.
abbrev pub ConsensusConfigs : Type 0
ConsensusConfigs = Dict String ConsensusInstanceConfig

-- The validators in use, each with the instance that took it.
abbrev pub UsedValidators : Type 0
UsedValidators = Dict ℕ String

-- `for _ in range(num_validators)`: the indexes taken, and `curr_offset` behind them.
unfoldable pub use_node : ℕ → String → ℕ → UsedValidators → UsedValidators × ℕ
use_node zero name curr_offset used = (used, curr_offset)
use_node (suc rounds) name curr_offset used =
    use_node rounds name (curr_offset + 1) (insert curr_offset name used)

-- `for _ in range(num_nodes)`
unfoldable pub use_nodes : ℕ → ℕ → String → ℕ → UsedValidators → UsedValidators
use_nodes zero num_validators name curr_offset used = used
use_nodes (suc rounds) num_validators name curr_offset used =
    let (used', curr_offset') = use_node num_validators name curr_offset used in
    use_nodes rounds num_validators name curr_offset' used'

unfoldable pub use_collection :
    ConsensusConfigs → String → InstanceEntry → UsedValidators → Result UsedValidators
use_collection configs name e used = elim e.validator_offset_start [
  | none ↦ ok used
  | some curr_offset ↦
      or_raise (lookup e.consensus_config configs) (Error.key_error e.consensus_config)
      >>= λ consensus_config. or_raise e.num_nodes (Error.key_error "num-nodes") >>= λ num_nodes.
          ok (use_nodes num_nodes consensus_config.num_validators name curr_offset used)
]

unfoldable pub use_collections :
    ConsensusConfigs → Instances → UsedValidators → Result UsedValidators
use_collections configs [] used = ok used
use_collections configs ((name, e) ∷ es) used =
    use_collection configs name e used >>= λ used'. use_collections configs es used'

-- `_get_user_defined_validator_indexes`
unfoldable pub get_user_defined_validator_indexes :
    ConsensusConfigs → Instances → Result UsedValidators
get_user_defined_validator_indexes configs es = use_collections configs es []

-- `max`, of a first item and the others.
abbrev pub max_of : ℕ → List ℕ → ℕ
max_of n [] = n
max_of n (k ∷ ks) = max_of (if ltb n k then k else n) ks

-- `curr_validator_ndx` before the clients are populated.
unfoldable pub first_validator_ndx : UsedValidators → ℕ
first_validator_ndx used = elim (keys used) [ [] ↦ 0 | k ∷ ks ↦ max_of k ks ]

-- The `num-nodes` and `validator-offset-start` of one client instance, and `curr_validator_ndx`.
unfoldable pub populate_offset : ConsensusConfigs → InstanceEntry → ℕ → Result (InstanceEntry × ℕ)
populate_offset configs e curr_validator_ndx =
    or_raise (lookup e.consensus_config configs) (Error.key_error e.consensus_config)
    >>= λ consensus_config. elim e.validator_offset_start [
      | some _ ↦ ok (record e { num_nodes = some (num_nodes_of e) }, curr_validator_ndx)
      | none ↦ ok (
        record e {
          num_nodes = some (num_nodes_of e);
          validator_offset_start = some curr_validator_ndx;
        },
        curr_validator_ndx + num_nodes_of e * consensus_config.num_validators,
      )
    ]

unfoldable pub populate_offsets : ConsensusConfigs → Instances → ℕ → Result (Instances × ℕ)
populate_offsets configs [] curr_validator_ndx = ok ([], curr_validator_ndx)
populate_offsets configs ((name, e) ∷ es) curr_validator_ndx =
    populate_offset configs e curr_validator_ndx >>= λ (e', next).
    populate_offsets configs es next >>= λ (es', end). ok ((name, e') ∷ es', end)

-- The part of `_populate_config_with_defaults` about validators: the client instances, and
-- `min-genesis-active-validator-count` where the file does not give it.
unfoldable pub populate_validators :
    ConsensusConfigs → Instances → Option ℕ → Result (Instances × ℕ)
populate_validators configs es min_genesis_count =
    get_user_defined_validator_indexes configs es >>= λ used.
    populate_offsets configs es (first_validator_ndx used) >>= λ (es', end).
    ok (es', (elim min_genesis_count [ none ↦ end | some count ↦ count ]))
