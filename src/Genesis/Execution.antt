-- ===== src/Genesis/Execution.antt =====
-- `ExecutionGenesisWriter.__init__` (src/etb/genesis/execution_genesis.py): when the execution
-- layer forks.
pub mod Schedule
use ethereum_testnet_bootstr.Base.{
  ℕ, ◌+◌, ◌/◌, String, Bool, Option, none, some, Result, ok, err, Error, ◌>>=◌, ◌>>◌, raise_if, leb,
  ltb, ◌==◌, nat_eq, if◌then◌else◌,
}
use ethereum_testnet_bootstr.Config.Forks.{
  ForkVersionName, bellatrix, capella, deneb, fork_value, ConsensusFork, get_genesis_fork,
}
use ethereum_testnet_bootstr.Config.Times.{
  EtbConfig, is_deneb, plus_number, get_consensus_fork_delay_seconds,
}

pub record ExecutionGenesisWriter : Type 0 where
  pub merge_fork_time : ℕ
  pub merge_fork_block : ℕ
  pub shanghai_fork_time : ℕ
  pub shanghai_fork_block : ℕ
  pub cancun_fork_time : ℕ
  pub cancun_fork_block : ℕ

-- `get_consensus_fork_delay_seconds(name) + genesis_time`
unfoldable pub fork_time : EtbConfig → String → Result ℕ
fork_time c name = get_consensus_fork_delay_seconds c name >>= plus_number c.genesis_time

-- `int(time // seconds_per_eth1_block)`, which raises for 0 seconds.
unfoldable pub block_at : EtbConfig → ℕ → Result ℕ
block_at c time =
    if c.seconds_per_eth1_block == 0
    then err (Error.value_error "division by zero")
    else ok (time / c.seconds_per_eth1_block)

-- The block of a fork that is active at genesis is 0.
unfoldable pub fork_block : EtbConfig → ConsensusFork → ForkVersionName → ℕ → Result ℕ
fork_block c genesis_fork f time =
    if leb (fork_value f) (fork_value genesis_fork.name) then ok 0 else block_at c time

unfoldable pub execution_genesis_writer : EtbConfig → Result ExecutionGenesisWriter
execution_genesis_writer c = do
  genesis_fork ← get_genesis_fork c.consensus_layer.forks
  raise_if (ltb (fork_value genesis_fork.name) (fork_value bellatrix)) Error.pre_merge_fork
  merge ← fork_time c "bellatrix"
  shanghai ← fork_time c "capella"
  shanghai_block ← fork_block c genesis_fork capella shanghai
  cancun ← fork_time c "deneb"
  cancun_block ← fork_block c genesis_fork deneb cancun
  ok (record {
    merge_fork_time = merge;
    merge_fork_block = 0;
    shanghai_fork_time = shanghai;
    shanghai_fork_block = shanghai_block;
    cancun_fork_time = cancun;
    cancun_fork_block = cancun_block;
  })
