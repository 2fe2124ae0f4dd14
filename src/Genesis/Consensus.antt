-- ===== src/Genesis/Consensus.antt =====
-- `ConsensusGenesisWriter` of src/etb/genesis/consensus_genesis.py. The tool eth2-testnet-genesis,
-- which makes the state, is passed in; its arguments are made here.
pub mod Settings
use ethereum_testnet_bootstr.Base.{
  ℕ, String, none, some, List, [], ◌∷◌, ◌++◌, Result, ok, err, Error, ◌>>=◌, leb, if◌then◌else◌,
}
use ethereum_testnet_bootstr.Config.Presets.{PresetBase, minimal, mainnet, mainnet_custom}
use ethereum_testnet_bootstr.Config.Forks.{
  ForkVersionName, phase0, altair, bellatrix, capella, fork_value, fork_text, ConsensusFork,
  get_genesis_fork,
}
use ethereum_testnet_bootstr.Config.Times.{EtbConfig}

-- `ConsensusGenesisWriter.__init__`
unfoldable pub consensus_genesis_writer : EtbConfig → Result (Unit {0})
consensus_genesis_writer c = elim c.genesis_time [
  | none ↦ err (Error.value_error "Genesis time must be set.")
  | some _ ↦ ok tt
]

-- The name of a preset for the tool; the custom preset extends that of the mainnet.
unfoldable pub preset_base_str : PresetBase → String
preset_base_str minimal = "minimal"
preset_base_str mainnet = "mainnet"
preset_base_str mainnet_custom = "mainnet"

-- The arguments that a genesis at a fork or a later one adds.
abbrev pub args_from : ForkVersionName → ConsensusFork → List String → List String
args_from f genesis_fork args =
    if leb (fork_value f) (fork_value genesis_fork.name) then args else []

unfoldable pub preset_args : String → String → ConsensusFork → List String
preset_args geth_genesis_file base genesis_fork =
    args_from phase0 genesis_fork ("--preset-phase0" ∷ base ∷ [])
    ++ (args_from altair genesis_fork ("--preset-altair" ∷ base ∷ [])
        ++ (args_from bellatrix genesis_fork
              ("--preset-bellatrix" ∷ base ∷ "--eth1-config" ∷ geth_genesis_file ∷ [])
            ++ args_from capella genesis_fork ("--preset-capella" ∷ base ∷ [])))

-- `create_consensus_genesis_ssz`; the tool is given the fork and the arguments.
unfoldable pub create_consensus_genesis_ssz :
    (String → List String → Result String) → EtbConfig → Result String
create_consensus_genesis_ssz get_genesis_ssz c = do
  genesis_fork ← get_genesis_fork c.consensus_layer.forks
  let base = preset_base_str c.consensus_layer.preset_base
  get_genesis_ssz (fork_text genesis_fork.name)
      (preset_args "/data/geth-genesis.json" base genesis_fork)

-- The genesis that `bootstrap_testnet` writes: it is made twice, and the second is written.
unfoldable pub written_genesis_ssz :
    (ℕ → String → List String → Result String) → EtbConfig → Result String
written_genesis_ssz get_genesis_ssz c = create_consensus_genesis_ssz (get_genesis_ssz 0) c >>= λ _.
    create_consensus_genesis_ssz (get_genesis_ssz 1) c
