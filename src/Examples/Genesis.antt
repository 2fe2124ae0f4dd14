-- ===== src/Examples/Genesis.antt =====
-- Runs of the genesis writer (src/etb/genesis/execution_genesis.py).
use ethereum_testnet_bootstr.Base.{
  ℕ, ◌≤◌, ◌≡◌, ◌↔◌, refl, none, some, [], All, ok, string_eq, ℕ_discrete, if◌then◌else◌, arith,
}
use ethereum_testnet_bootstr.Config.Presets.{preset_of}
use ethereum_testnet_bootstr.Config.Forks.{fork_value, capella, deneb, get_genesis_fork}
use ethereum_testnet_bootstr.Config.Forks.Genesis.{IsNamed}
use ethereum_testnet_bootstr.Config.Times.{is_deneb, get_consensus_fork_delay_seconds}
use ethereum_testnet_bootstr.Genesis.Execution.{
  ExecutionGenesisWriter, execution_genesis_writer, fork_time, fork_block, block_at,
}
use ethereum_testnet_bootstr.Genesis.Execution.Schedule.{
  execution_genesis_writer-ordered, execution_genesis_writer-at_genesis,
}
use ethereum_testnet_bootstr.Genesis.Files.Values.{number, text, no_items, hex8}
use ethereum_testnet_bootstr.Genesis.Files.{
  Accounts, get_allocs, add_private_keys, besu_file, nethermind_file, create_geth_genesis,
  create_besu_genesis, create_nethermind_genesis,
}
use ethereum_testnet_bootstr.Genesis.Files.Agreement.{
  entry, shanghai_names, cancun_names, genesis_files-agree,
}
use ethereum_testnet_bootstr.Examples.Configs.{config, forks, genesis, at_genesis}

abbrev writer : ExecutionGenesisWriter
writer = record {
  merge_fork_time = 1700000000;
  merge_fork_block = 0;
  shanghai_fork_time = 1700000144;
  shanghai_fork_block = 141666678;
  cancun_fork_time = 885443715539758477520;
  cancun_fork_block = 73786976294979873126;
}

makes : execution_genesis_writer config ≡ ok writer
unfolding execution_genesis_writer get_genesis_fork fork_time get_consensus_fork_delay_seconds
    fork_block block_at preset_of string_eq ℕ_discrete
makes = refl

named : IsNamed forks
named = record {
  phase0_named = refl;
  altair_named = refl;
  bellatrix_named = refl;
  capella_named = refl;
  deneb_named = refl;
  sharding_named = refl;
}

execution_genesis_writer-ordered_example :
    (g : ℕ) × (config.genesis_time ≡ some g)
    × (g ≤ writer.merge_fork_time)
    × (writer.merge_fork_time ≤ writer.shanghai_fork_time)
    × (writer.shanghai_fork_time ≤ writer.cancun_fork_time)
execution_genesis_writer-ordered_example =
    execution_genesis_writer-ordered config makes (omega arith) (omega arith)

execution_genesis_writer-at_genesis_example :
    ((writer.shanghai_fork_time ≡ 1700000000) ↔ (fork_value capella ≤ fork_value genesis.name))
    × ((writer.cancun_fork_time ≡ 1700000000) ↔ (fork_value deneb ≤ fork_value genesis.name))
    × (writer.shanghai_fork_time ≡ 1700000000 → writer.shanghai_fork_block ≡ 0)
    × (writer.cancun_fork_time ≡ 1700000000 → writer.cancun_fork_block ≡ 0)
execution_genesis_writer-at_genesis_example =
    execution_genesis_writer-at_genesis config makes named at_genesis refl (omega arith)
      (omega arith)

abbrev pub accounts : Accounts
accounts = record {
  address = λ path. path;
  private_key = λ path. "key";
  premines = [];
  deposit_contract_address = "0x4242";
  deposit_contract_json = no_items;
  eip4788_contract_address = "0x4788";
  eip4788_contract_json = no_items;
}

makes_besu :
    create_besu_genesis config writer accounts ≡ ok (besu_file config writer (get_allocs accounts))
unfolding create_besu_genesis add_private_keys
makes_besu = refl

makes_nethermind :
    create_nethermind_genesis config writer accounts
    ≡ ok (nethermind_file config writer (get_allocs accounts) 1700000000)
unfolding create_nethermind_genesis
makes_nethermind = refl

genesis_files-agree_example :
    (entry "config" "shanghaiTime" (create_geth_genesis config writer accounts)
      ≡ some (number writer.shanghai_fork_time))
    × (entry "config" "cancunTime" (create_geth_genesis config writer accounts)
        ≡ (if is_deneb config then some (number writer.cancun_fork_time) else none))
    × (entry "config" "shanghaiTime" (besu_file config writer (get_allocs accounts))
        ≡ entry "config" "shanghaiTime" (create_geth_genesis config writer accounts))
    × (entry "config" "cancunTime" (besu_file config writer (get_allocs accounts))
        ≡ entry "config" "cancunTime" (create_geth_genesis config writer accounts))
    × All
        (λ name.
          entry "params" name (nethermind_file config writer (get_allocs accounts) 1700000000)
          ≡ some (text (hex8 writer.shanghai_fork_time)))
        shanghai_names
    × All
        (λ name.
          entry "params" name (nethermind_file config writer (get_allocs accounts) 1700000000)
          ≡ some (text (hex8 writer.cancun_fork_time)))
        cancun_names
genesis_files-agree_example = genesis_files-agree config writer accounts makes_besu makes_nethermind
