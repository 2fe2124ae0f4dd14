-- ===== src/Bootstrap/Phases/Halting.antt =====
-- How `bootstrap_testnet` ends with the writer that it has (src/testnet_bootstrapper.py,
-- src/etb/genesis/consensus_genesis.py).
use ethereum_testnet_bootstr.Base.{
  ℕ, zero, suc, ◌+◌, ◌^◌, ◌≡◌, refl, Bool, true, false, ap, String, string_eq, List, [], Result, ok,
  err, Error, ◌==◌, nat_eq, if◌then◌else◌,
}
use ethereum_testnet_bootstr.Base.Runs.{
  Run, raised, ◌>>◌, act, Keeps, Keeps-bind, Keeps-act, Keeps-last, Keeps-call, Keeps-raise,
  Keeps-return,
}
use ethereum_testnet_bootstr.Base.Text.{str}
use ethereum_testnet_bootstr.Config.Times.{EtbConfig, set_genesis_time}
use ethereum_testnet_bootstr.Genesis.Consensus.{consensus_genesis_writer}
use ethereum_testnet_bootstr.Genesis.Consensus.Settings.{
  fork_attributes, fork_attribute, create_consensus_config_yaml, consensus_config_text,
}
use ethereum_testnet_bootstr.Genesis.Execution.{execution_genesis_writer}
use ethereum_testnet_bootstr.Genesis.Files.{
  Accounts, create_geth_genesis, create_besu_genesis, create_nethermind_genesis,
}
use ethereum_testnet_bootstr.Bootstrap.Phases.{
  File, etb_config_checkpoint_file, consensus_bootnode_checkpoint_file, geth_genesis_file,
  besu_genesis_file, nether_mind_genesis_file, execution_checkpoint_file, block_hash_file,
  block_number_file, consensus_config_file, consensus_checkpoint_file, Contents, empty, json, text,
  Action, opened, wrote, paired, failed_to_pair, slept, Collection, Outside, write_file, with_json,
  with_text, pair_with_retries, prepare, start_execution, start_consensus, bootstrap_testnet,
}

-- The signal to the consensus clients.
abbrev pub is_consensus_signal : Action → Bool
is_consensus_signal (opened consensus_checkpoint_file) = true
is_consensus_signal _ = false

abbrev pub IsQuiet : Action → Type 0
IsQuiet action = is_consensus_signal action ≡ false

abbrev Any : Unit {0} → Type 0
Any _ = Unit

Keeps-write :
    (file : File) (made : Result Contents)
    → IsQuiet (opened file)
    → Keeps IsQuiet Any (write_file file made)
Keeps-write file made q =
    Keeps-act IsQuiet Any (opened file) _ q
      (Keeps-call IsQuiet Any made _ (λ v. Keeps-last IsQuiet Any (wrote file v) refl tt))

Keeps-before :
    (first next : Run Action (Unit {0})) (S : Unit {0} → Type 0)
    → Keeps IsQuiet Any first
    → Keeps IsQuiet S next
    → Keeps IsQuiet S (first >> next)
Keeps-before first next S a b = Keeps-bind IsQuiet Any S first (λ _. next) a (λ _ _. b)

prepare-IsQuiet : (c : EtbConfig) (outside : Outside) → Keeps IsQuiet Any (prepare c outside)
unfolding prepare
prepare-IsQuiet c outside = Keeps-call IsQuiet Any _ _ (λ _. Keeps-act IsQuiet Any _ _ refl (
    Keeps-act IsQuiet Any _ _ refl (
      Keeps-before _ _ Any (Keeps-write etb_config_checkpoint_file (ok empty) refl)
        (Keeps-write consensus_bootnode_checkpoint_file (ok empty) refl))))

start_execution-IsQuiet :
    (c : EtbConfig) (accounts : Accounts) → Keeps IsQuiet Any (start_execution c accounts)
unfolding start_execution
start_execution-IsQuiet c accounts = Keeps-call IsQuiet Any (execution_genesis_writer c) _ (λ egw.
    Keeps-before _ _ Any
      (Keeps-write geth_genesis_file (ok (json (create_geth_genesis c egw accounts))) refl)
      (Keeps-before _ _ Any
        (Keeps-write besu_genesis_file (with_json (create_besu_genesis c egw accounts)) refl)
        (Keeps-before _ _ Any
          (Keeps-write nether_mind_genesis_file
            (with_json (create_nethermind_genesis c egw accounts)) refl)
          (Keeps-write execution_checkpoint_file (ok empty) refl))))

pair_step :
    (result : Result (Unit {0})) (last : Bool) (attempt : ℕ) (again : Run Action (Unit {0}))
    → Keeps IsQuiet Any again
    → Keeps IsQuiet Any (elim result [
      | ok _ ↦ act (paired attempt)
      | err x ↦ (act (failed_to_pair attempt) >> (if last then ([], raised x) else again))
    ])
pair_step (ok _) last attempt again k = Keeps-last IsQuiet Any (paired attempt) refl tt
pair_step (err x) true attempt again k = Keeps-act IsQuiet Any (failed_to_pair attempt) _ refl tt
pair_step (err x) false attempt again k = Keeps-act IsQuiet Any (failed_to_pair attempt) _ refl k

pair_with_retries-IsQuiet :
    (pair : ℕ → Result (Unit {0})) (attempts left attempt : ℕ)
    → Keeps IsQuiet Any (pair_with_retries pair attempts left attempt)
unfolding pair_with_retries
pair_with_retries-IsQuiet pair attempts zero attempt = Keeps-return IsQuiet Any tt tt
pair_with_retries-IsQuiet pair attempts (suc left) attempt =
    pair_step (pair attempt) (attempt + 1 == attempts) attempt _ (
      Keeps-act IsQuiet Any (slept (2 ^ (attempt + 1))) _ refl
        (pair_with_retries-IsQuiet pair attempts left (attempt + 1)))

abbrev pub Never : Unit {0} → Type 0
Never _ = ⊥

-- None of the forks that a layer has is Electra's.
consensus_config_text-raises :
    (address : String) (c : EtbConfig)
    → consensus_config_text address c ≡ err (Error.attribute_error "electra_fork")
unfolding consensus_config_text create_consensus_config_yaml fork_attribute fork_attributes
    string_eq
consensus_config_text-raises address c = refl

start_consensus-IsQuiet :
    (address : String) (c : EtbConfig) (collections : List Collection) (outside : Outside)
    → Keeps IsQuiet Never (start_consensus (consensus_config_text address) c collections outside)
unfolding start_consensus
start_consensus-IsQuiet address c collections outside =
    Keeps-call IsQuiet Never outside.deployment_block _ (λ block.
      Keeps-before _ _ Never (Keeps-write block_hash_file (ok (text block.0)) refl) (
        Keeps-before _ _ Never (Keeps-write block_number_file (ok (text (str block.1))) refl) (
          Keeps-call IsQuiet Never (consensus_genesis_writer c) _ (λ _.
            Keeps-bind IsQuiet Never Never (write_file consensus_config_file _) _
              (Keeps-act IsQuiet Never (opened consensus_config_file) _ refl (
                Keeps-raise IsQuiet Never (with_text (consensus_config_text address c)) _
                  (ap with_text (consensus_config_text-raises address c))))
              (λ _ never. absurd never)))))

-- Whatever the config, the clients and the tools, the making of the consensus config's text raises an
-- `AttributeError` for `electra_fork`, and `bootstrap_testnet` never returns and never gives the signal
-- to the consensus clients.
pub bootstrap_testnet-IsQuiet :
    (etb_config : EtbConfig) (now : ℕ) (accounts : Accounts) (collections : List Collection)
    (outside : Outside)
    → (consensus_config_text accounts.deposit_contract_address (set_genesis_time etb_config now)
        ≡ err (Error.attribute_error "electra_fork"))
      × Keeps IsQuiet Never (bootstrap_testnet etb_config now accounts collections outside)
unfolding bootstrap_testnet
bootstrap_testnet-IsQuiet etb_config now accounts collections outside =
    let c = set_genesis_time etb_config now in
    (
      consensus_config_text-raises accounts.deposit_contract_address c,
      Keeps-before _ _ Never (prepare-IsQuiet c outside) (
          Keeps-before _ _ Never (start_execution-IsQuiet c accounts) (
            Keeps-before _ _ Never
              (pair_with_retries-IsQuiet outside.pair_execution_clients 10 10 0)
              (start_consensus-IsQuiet accounts.deposit_contract_address c collections outside))),
    )
