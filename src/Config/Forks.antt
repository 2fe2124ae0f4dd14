-- ===== src/Config/Forks.antt =====
-- The consensus forks: `ForkVersionName` and `ConsensusFork` of src/etb/common/consensus.py, and
-- the part of `ConsensusLayerTestnetConfig` in src/etb/config/etb_config.py that reads a layer's
-- entries. A layer is a YAML mapping whose values are numbers, texts or Booleans; the entries of
-- each sort are one dict.
pub mod Genesis
pub mod Reading
use ethereum_testnet_bootstr.Base.{
  ℕ, zero, suc, ◌+◌, ◌-◌, ◌^◌, String, ◌<>◌, Bool, true, false, ◌&&◌, ◌||◌, not, Option, none, some,
  List, [], ◌∷◌, ◌++◌, map, Result, ok, err, Error, ◌>>=◌, ◌>>◌, raise_if, or_raise, ◌==◌,
  string_eq, nat_eq, if◌then◌else◌,
}
use ethereum_testnet_bootstr.Base.Dict.{Dict, lookup, has_key}
use ethereum_testnet_bootstr.Config.Presets.{
  Preset, PresetBase, minimal, mainnet, mainnet_custom, preset_of,
}

pub data ForkVersionName : Type 0 where
  phase0 altair bellatrix capella deneb sharding : ForkVersionName

-- `ForkVersionName` is an `int`, so its members are compared by these values.
abbrev pub fork_value : ForkVersionName → ℕ
fork_value phase0 = 0
fork_value altair = 1
fork_value bellatrix = 2
fork_value capella = 3
fork_value deneb = 4
fork_value sharding = 5

-- The member's name.
abbrev pub fork_text : ForkVersionName → String
fork_text phase0 = "phase0"
fork_text altair = "altair"
fork_text bellatrix = "bellatrix"
fork_text capella = "capella"
fork_text deneb = "deneb"
fork_text sharding = "sharding"

-- `Epoch.FarFuture.value`
abbrev pub far_future : ℕ
far_future = 18446744073709551615

pub record ConsensusFork : Type 0 where
  pub name : ForkVersionName
  pub version : ℕ
  pub epoch : ℕ

pub record LayerEntries : Type 0 where
  pub numbers : Dict String ℕ
  pub texts : Dict String String
  pub flags : Dict String Bool

-- `k in config`
unfoldable pub has_field : String → LayerEntries → Bool
has_field k c = has_key k c.numbers || has_key k c.texts || has_key k c.flags

-- `config[k]`, for an entry that the code uses as a number, or as a text.
unfoldable pub number_at : String → LayerEntries → Result ℕ
number_at k c = or_raise (lookup k c.numbers) (Error.key_error k)

unfoldable pub text_at : String → LayerEntries → Result String
text_at k c = or_raise (lookup k c.texts) (Error.key_error k)

-- The loop over `required_fields`.
unfoldable pub require_fields : List String → String → LayerEntries → Result (Unit {0})
require_fields [] owner c = ok tt
require_fields (k ∷ ks) owner c =
    let rest = require_fields ks owner c in
    if has_field k c then rest else err (Error.missing_field k owner)

abbrev pub version_key : ForkVersionName → String
version_key f = fork_text f <> "-fork-version"

abbrev pub epoch_key : ForkVersionName → String
epoch_key f = fork_text f <> "-fork-epoch"

-- The first loop over `required_forks`, which raises where both fields of a fork are missing.
unfoldable pub check_required : List ForkVersionName → LayerEntries → Result (Unit {0})
check_required [] c = ok tt
check_required (f ∷ fs) c =
    let rest = check_required fs c in
    if not (has_field (epoch_key f) c) && not (has_field (version_key f) c)
    then err (Error.missing_field (fork_text f) "consensus-testnet-config")
    else rest

-- The body of the second loop over `required_forks`.
unfoldable pub required_fork : LayerEntries → ForkVersionName → Result ConsensusFork
required_fork c f = do
  version ← number_at (version_key f) c
  epoch ← number_at (epoch_key f) c
  ok (record { name = f; version = version; epoch = epoch })

-- `forks[-1]`
abbrev pub last_fork : List ConsensusFork → Result ConsensusFork
last_fork [] = err Error.index_error
last_fork (f ∷ []) = ok f
last_fork (f ∷ g ∷ fs) = last_fork (g ∷ fs)

-- In the loop over `optional_forks`, a missing version is that of the fork before plus one, and a
-- missing epoch is never reached.
unfoldable pub optional_version : LayerEntries → List ConsensusFork → ForkVersionName → Result ℕ
optional_version c forks f =
    if has_field (version_key f) c
    then number_at (version_key f) c
    else last_fork forks >>= λ (g : ConsensusFork). ok (g.version + 1)

unfoldable pub optional_epoch : LayerEntries → ForkVersionName → Result ℕ
optional_epoch c f = if has_field (epoch_key f) c then number_at (epoch_key f) c else ok far_future

unfoldable pub optional_fork :
    LayerEntries → List ConsensusFork → ForkVersionName → Result ConsensusFork
optional_fork c forks f = do
  version ← optional_version c forks f
  epoch ← optional_epoch c f
  ok (record { name = f; version = version; epoch = epoch })

-- The two loops that append to `forks`.
unfoldable pub append_required :
    LayerEntries → List ForkVersionName → List ConsensusFork → Result (List ConsensusFork)
append_required c [] forks = ok forks
append_required c (f ∷ fs) forks =
    required_fork c f >>= λ g. append_required c fs (forks ++ (g ∷ []))

unfoldable pub append_optional :
    LayerEntries → List ForkVersionName → List ConsensusFork → Result (List ConsensusFork)
append_optional c [] forks = ok forks
append_optional c (f ∷ fs) forks =
    optional_fork c forks f >>= λ g. append_optional c fs (forks ++ (g ∷ []))

abbrev pub required_forks : List ForkVersionName
required_forks = phase0 ∷ altair ∷ bellatrix ∷ capella ∷ []

abbrev pub optional_forks : List ForkVersionName
optional_forks = deneb ∷ sharding ∷ []

-- `_get_forks_from_config`
unfoldable pub get_forks_from_config : LayerEntries → Result (List ConsensusFork)
get_forks_from_config c = do
  check_required required_forks c
  forks ← append_required c required_forks []
  append_optional c optional_forks forks

-- The six attributes that the tuple is unpacked into.
pub record Forks : Type 0 where
  pub phase0_fork : ConsensusFork
  pub altair_fork : ConsensusFork
  pub bellatrix_fork : ConsensusFork
  pub capella_fork : ConsensusFork
  pub deneb_fork : ConsensusFork
  pub sharding_fork : ConsensusFork

unfoldable pub unpack_forks : List ConsensusFork → Result Forks
unpack_forks (a ∷ b ∷ c ∷ d ∷ e ∷ f ∷ []) = ok (record {
  phase0_fork = a;
  altair_fork = b;
  bellatrix_fork = c;
  capella_fork = d;
  deneb_fork = e;
  sharding_fork = f;
})
unpack_forks _ = err (Error.value_error "unpack")

-- The assignment of the tuple in `__init__`.
unfoldable pub read_forks : LayerEntries → Result Forks
read_forks c = get_forks_from_config c >>= unpack_forks

-- `get_genesis_fork`
unfoldable pub get_genesis_fork : Forks → Result ConsensusFork
get_genesis_fork t =
    if t.sharding_fork.epoch == 0
    then ok t.sharding_fork
    else if t.deneb_fork.epoch == 0
    then ok t.deneb_fork
    else if t.capella_fork.epoch == 0
    then ok t.capella_fork
    else if t.bellatrix_fork.epoch == 0
    then ok t.bellatrix_fork
    else if t.altair_fork.epoch == 0
    then ok t.altair_fork
    else if t.phase0_fork.epoch == 0
    then ok t.phase0_fork
    else err Error.no_genesis_fork

-- `ConsensusLayerTestnetConfig`
pub record ConsensusLayer : Type 0 where
  pub preset_base : PresetBase
  pub config_name : String
  pub min_genesis_active_validator_count : ℕ
  pub validator_mnemonic : String
  pub disable_peer_scoring : Bool
  pub min_validator_withdrawability_delay : ℕ
  pub shard_committee_period : ℕ
  pub min_epochs_for_block_requests : ℕ
  pub forks : Forks

-- The `if`s over `config["preset-base"]`.
unfoldable pub read_preset_base : String → Result PresetBase
read_preset_base s =
    if s == "minimal"
    then ok minimal
    else if s == "mainnet"
    then ok mainnet
    else if s == "mainnet-custom"
    then ok mainnet_custom
    else err (Error.unknown "preset-base" s)

-- An attribute that the entry overrides where it is given.
unfoldable pub overridden : String → ℕ → LayerEntries → Result ℕ
overridden k default c = if has_field k c then number_at k c else ok default

abbrev pub layer_fields : List String
layer_fields =
    "preset-base" ∷ "config-name" ∷ "min-genesis-active-validator-count" ∷ "validator-mnemonic"
    ∷ "phase0-fork-epoch" ∷ "phase0-fork-version" ∷ "altair-fork-epoch" ∷ "altair-fork-version"
    ∷ "bellatrix-fork-epoch" ∷ "bellatrix-fork-version" ∷ []

-- `ConsensusLayerTestnetConfig.__init__`
unfoldable pub consensus_layer : LayerEntries → Result ConsensusLayer
consensus_layer c = do
  require_fields layer_fields "consensus-testnet-config" c
  base ← read_preset_base (← text_at "preset-base" c)
  name ← text_at "config-name" c
  count ← number_at "min-genesis-active-validator-count" c
  mnemonic ← text_at "validator-mnemonic" c
  scoring ←
      (if has_field "disable-peer-scoring" c
        then or_raise (lookup "disable-peer-scoring" c.flags)
            (Error.key_error "disable-peer-scoring")
        else ok false)
  let preset = preset_of base
  delay ←
      overridden "min-validator-withdrawability-delay" preset.min_validator_withdrawability_delay c
  period ← overridden "shard-committee-period" preset.shard_committee_period c
  requests ← overridden "min-epochs-for-block-requests" preset.min_epochs_for_block_requests c
  forks ← read_forks c
  ok (record {
    preset_base = base;
    config_name = name;
    min_genesis_active_validator_count = count;
    validator_mnemonic = mnemonic;
    disable_peer_scoring = scoring;
    min_validator_withdrawability_delay = delay;
    shard_committee_period = period;
    min_epochs_for_block_requests = requests;
    forks = forks;
  })
