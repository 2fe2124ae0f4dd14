-- ===== src/Bootstrap/Phases.antt =====
-- `bootstrap_testnet` of src/testnet_bootstrapper.py, as the actions that it takes: files that are
-- opened, written and copied, the pairing of clients and the sleeps.
pub mod Order
pub mod Halting
use ethereum_testnet_bootstr.Base.{
  ℕ, zero, suc, ◌+◌, ◌*◌, ◌^◌, String, ◌<>◌, Bool, raise_if, Error, List, [], ◌∷◌, Result, ok, err,
  ◌==◌, nat_eq, string_eq, if◌then◌else◌,
}
use ethereum_testnet_bootstr.Base.Text.{str}
use ethereum_testnet_bootstr.Base.Runs.{Run, raised, ◌>>=◌, ◌>>◌, act, return, call}
use ethereum_testnet_bootstr.Config.Times.{EtbConfig, set_genesis_time, preset}
use ethereum_testnet_bootstr.Genesis.Execution.{execution_genesis_writer}
use ethereum_testnet_bootstr.Genesis.Consensus.{consensus_genesis_writer, written_genesis_ssz}
use ethereum_testnet_bootstr.Genesis.Consensus.Settings.{consensus_config_text}
use ethereum_testnet_bootstr.Genesis.Files.{
  Accounts, create_geth_genesis, create_besu_genesis, create_nethermind_genesis,
}
use ethereum_testnet_bootstr.Genesis.Files.Values.{Json}

pub data File : Type 0 where
  etb_config_file : File
  etb_config_checkpoint_file : File
  consensus_bootnode_checkpoint_file : File
  geth_genesis_file : File
  besu_genesis_file : File
  nether_mind_genesis_file : File
  execution_checkpoint_file : File
  block_hash_file : File
  block_number_file : File
  consensus_config_file : File
  consensus_genesis_file : File
  consensus_checkpoint_file : File

pub data Contents : Type 0 where
  empty : Contents
  config : EtbConfig → Contents
  json : Json → Contents
  text : String → Contents

pub data Action : Type 0 where
  opened : File → Action
  wrote : File → Contents → Action
  paired : ℕ → Action
  failed_to_pair : ℕ → Action
  slept : ℕ → Action
  copied : File → (destination : String) → Action

pub record Collection : Type 0 where
  pub collection_dir : String
  pub client : String

-- What is asked of the clients, of external tools and of the disk: the pairing at each attempt, the
-- block of the deposit contract, the genesis state at each call, and whether the checkpoint of the
-- config is there before the run.
pub record Outside : Type 0 where
  pub pair_execution_clients : ℕ → Result (Unit {0})
  pub deployment_block : Result (String × ℕ)
  pub get_genesis_ssz : ℕ → String → List String → Result String
  pub etb_config_checkpoint_exists : Bool

-- `with open(file, "w") as f: f.write(...)`. The file is opened before its contents are made.
abbrev pub write_file : File → Result Contents → Run Action (Unit {0})
write_file file made = do act (opened file); contents ← call made; act (wrote file contents)

abbrev pub with_json : Result Json → Result Contents
with_json (ok j) = ok (json j)
with_json (err x) = err x

abbrev pub with_text : Result String → Result Contents
with_text (ok s) = ok (text s)
with_text (err x) = err x

-- The loop `for attempt in range(pair_el_clients_attempts)`: the attempts left, and the number of the
-- next.
unfoldable pub pair_with_retries : (ℕ → Result (Unit {0})) → ℕ → ℕ → ℕ → Run Action (Unit {0})
pair_with_retries pair attempts zero attempt = return tt
pair_with_retries pair attempts (suc left) attempt =
    let again =
      act (slept (2 ^ (attempt + 1))) >> pair_with_retries pair attempts left (attempt + 1) in
    elim (pair attempt) [
      | ok _ ↦ act (paired attempt)
      | err x ↦
          (act (failed_to_pair attempt)
            >> (if attempt + 1 == attempts then ([], raised x) else again))
    ]

-- The files that a collection's client wants beside the config and the genesis.
abbrev pub copy_deployment : Collection → Run Action (Unit {0}) → Run Action (Unit {0})
copy_deployment c next =
    let numbered =
      act (copied block_number_file (c.collection_dir <> "/deploy_block.txt")) >> next in
    let both =
      act (copied block_hash_file (c.collection_dir <> "/deposit_contract_block_hash.txt"))
      >> (act (copied block_number_file (c.collection_dir <> "/deposit_contract_block.txt"))
          >> next) in
    if c.client == "lighthouse" then numbered else if c.client == "nimbus" then both else next

-- The loop over `client_collections`.
unfoldable pub copy_files : List Collection → Run Action (Unit {0})
copy_files [] = return tt
copy_files (c ∷ cs) =
    act (copied consensus_config_file c.collection_dir)
    >> (act (copied consensus_genesis_file c.collection_dir) >> copy_deployment c (copy_files cs))

-- Phase 1 and 2: the config with the genesis time, which `write_config` writes only where its checkpoint
-- is not there, and the signal to the bootnodes.
unfoldable pub prepare : EtbConfig → Outside → Run Action (Unit {0})
prepare c outside = do
  call (
      raise_if outside.etb_config_checkpoint_exists
        (Error.value_error "etb_config checkpoint file exists"))
  act (opened etb_config_file)
  act (wrote etb_config_file (config c))
  write_file etb_config_checkpoint_file (ok empty)
  write_file consensus_bootnode_checkpoint_file (ok empty)

-- Phase 3: the genesis of the execution clients and the signal to them.
unfoldable pub start_execution : EtbConfig → Accounts → Run Action (Unit {0})
start_execution c accounts = do
  egw ← call (execution_genesis_writer c)
  write_file geth_genesis_file (ok (json (create_geth_genesis c egw accounts)))
  write_file besu_genesis_file (with_json (create_besu_genesis c egw accounts))
  write_file nether_mind_genesis_file (with_json (create_nethermind_genesis c egw accounts))
  write_file execution_checkpoint_file (ok empty)

-- Phase 4: the files of the consensus clients, the signal to them, and five slots' sleep.
unfoldable pub start_consensus :
    (EtbConfig → Result String) → EtbConfig → List Collection → Outside → Run Action (Unit {0})
start_consensus config_yaml c collections outside = do
  (block_hash, block_number) ← call outside.deployment_block
  write_file block_hash_file (ok (text block_hash))
  write_file block_number_file (ok (text (str block_number)))
  call (consensus_genesis_writer c)
  write_file consensus_config_file (with_text (config_yaml c))
  write_file consensus_genesis_file (with_text (written_genesis_ssz outside.get_genesis_ssz c))
  copy_files collections
  write_file consensus_checkpoint_file (ok empty)
  act (slept ((preset c).seconds_per_slot * 5))

abbrev pub pair_el_clients_attempts : ℕ
pair_el_clients_attempts = 10

-- The phases, with the consensus config that a writer makes.
unfoldable pub bootstrap_with :
    (EtbConfig → Result String)
    → EtbConfig
    → ℕ
    → Accounts
    → List Collection
    → Outside
    → Run Action (Unit {0})
bootstrap_with config_yaml etb_config now accounts collections outside =
    let c = set_genesis_time etb_config now in
    prepare c outside
    >> (start_execution c accounts
        >> (pair_with_retries outside.pair_execution_clients pair_el_clients_attempts
              pair_el_clients_attempts 0
            >> start_consensus config_yaml c collections outside))

-- `bootstrap_testnet`, called at a time.
unfoldable pub bootstrap_testnet :
    EtbConfig → ℕ → Accounts → List Collection → Outside → Run Action (Unit {0})
unfolding bootstrap_with
bootstrap_testnet etb_config now accounts collections outside =
    bootstrap_with (consensus_config_text accounts.deposit_contract_address) etb_config now accounts
      collections outside
