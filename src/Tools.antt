-- ===== src/Tools.antt =====
-- The wrappers of external programs (src/etb/interfaces/external) and the commands with which
-- src/testnet_bootstrapper.py has the keystores generated. What a program does is passed in, as what a
-- run of a command comes to.
pub mod Keystores
use ethereum_testnet_bootstr.Base.{
  ℕ, zero, suc, ◌+◌, ◌-◌, String, ◌<>◌, Bool, true, false, Option, none, some, List, [], ◌∷◌, ◌++◌,
  Result, ok, err, Error, ◌>>=◌, or_raise, ◌==◌, nat_eq, string_eq, if◌then◌else◌,
}
use ethereum_testnet_bootstr.Base.Text.{str}
use ethereum_testnet_bootstr.Config.Instances.{ClientInstance}
use ethereum_testnet_bootstr.Bootstrap.Keystores.{min_ndx, max_ndx}

-- What `subprocess.run` returns.
pub record CompletedProcess : Type 0 where
  pub returncode : ℕ
  pub stdout : String
  pub stderr : String

-- `Union[str, Exception]`
pub data Output : Type 0 where
  output : String → Output
  exception : String → Output

-- A run with `check=True`: a failure raises, and its `stderr` is returned as an exception, as is any
-- `stderr` of a run that did not fail.
unfoldable pub checked_output : CompletedProcess → Output
checked_output out =
    if out.returncode == 0
    then (if out.stderr == "" then output out.stdout else exception out.stderr)
    else exception out.stderr

abbrev pub ToolRun : Type 0
ToolRun = List String → CompletedProcess

-- `Eth2ValTools.generate_deposit_data`
unfoldable pub deposit_data_cmd : ℕ → ℕ → String → String → List String
deposit_data_cmd ndx amount fork_version mnemonic =
    "eth2-val-tools"
    ∷ "deposit-data"
    ∷ "--amount"
    ∷ str amount
    ∷ "--fork-version"
    ∷ fork_version
    ∷ "--source-min"
    ∷ str ndx
    ∷ "--source-max"
    ∷ str (ndx + 1)
    ∷ "--validators-mnemonic"
    ∷ mnemonic
    ∷ "--withdrawals-mnemonic"
    ∷ mnemonic
    ∷ []

unfoldable pub generate_deposit_data : ToolRun → ℕ → ℕ → String → String → Output
generate_deposit_data run ndx amount fork_version mnemonic =
    checked_output (run (deposit_data_cmd ndx amount fork_version mnemonic))

-- `Eth2ValTools.generate_keystores`; a password is given for prysm only.
unfoldable pub keystores_cmd : String → ℕ → ℕ → String → Option String → List String
keystores_cmd out_path min_ndx max_ndx mnemonic prysm_password =
    "eth2-val-tools"
    ∷ "keystores"
    ∷ "--source-min"
    ∷ str min_ndx
    ∷ "--source-max"
    ∷ str max_ndx
    ∷ "--source-mnemonic"
    ∷ mnemonic
    ∷ "--out-loc"
    ∷ out_path
    ∷ (elim prysm_password [ none ↦ [] | some password ↦ "--prysm-pass" ∷ password ∷ [] ])

unfoldable pub generate_keystores : ToolRun → String → ℕ → ℕ → String → Option String → Output
generate_keystores run out_path min_ndx max_ndx mnemonic prysm_password =
    checked_output (run (keystores_cmd out_path min_ndx max_ndx mnemonic prysm_password))

-- `LiveFuzzer.start_fuzzer`: the command, and whether the run raises.
unfoldable pub fuzzer_cmd : String → String → String → String → Bool → ℕ → List String
fuzzer_cmd binary_path rpc_path fuzz_mode private_key no_al tx_count =
    binary_path
    ∷ fuzz_mode
    ∷ "--rpc"
    ∷ rpc_path
    ∷ "--sk"
    ∷ private_key
    ∷ "--txcount"
    ∷ str tx_count
    ∷ (if no_al then "--no-al" ∷ [] else [])

unfoldable pub start_fuzzer :
    ToolRun → String → String → String → String → Bool → ℕ → Result (Unit {0})
start_fuzzer run binary_path rpc_path fuzz_mode private_key no_al tx_count =
    let out = run (fuzzer_cmd binary_path rpc_path fuzz_mode private_key no_al tx_count) in
    if out.returncode == 0 then ok tt else err (Error.value_error "CalledProcessError")

-- `Eth2TestnetGenesis.get_genesis_ssz`: the run is not checked, and the file is read behind it.
unfoldable pub genesis_cmd : String → String → String → List String → List String
genesis_cmd genesis_fork_name config_in genesis_ssz_out preset_args =
    "eth2-testnet-genesis" ∷ genesis_fork_name ∷ "--mnemonics" ∷ "/tmp/validators.yaml" ∷ "--config"
    ∷ config_in ∷ "--state-output" ∷ genesis_ssz_out ∷ "--tranches-dir" ∷ "/data" ∷ preset_args

unfoldable pub get_genesis_ssz :
    ToolRun → (String → Result String) → String → String → String → List String → Result Output
get_genesis_ssz run read_file genesis_fork_name config_in genesis_ssz_out preset_args =
    let out = run (genesis_cmd genesis_fork_name config_in genesis_ssz_out preset_args) in
    let contents = read_file genesis_ssz_out >>= λ d. ok (output d) in
    if out.stderr == "" then contents else ok (exception out.stderr)

-- The commands of `Ethdo.epoch_summary`. Where an epoch is given, no comma stands between the first two
-- options.
abbrev pub current_summary_cmd : String → List String
current_summary_cmd client =
    "ethdo" ∷ "--allow-insecure-connections" ∷ "--connection" ∷ client ∷ "epoch" ∷ "summary" ∷ []

unfoldable pub last_summary_cmd : String → ℕ → List String
last_summary_cmd client last_epoch = current_summary_cmd client ++ ("--epoch" ∷ str last_epoch ∷ [])

unfoldable pub given_summary_cmd : String → ℕ → List String
given_summary_cmd client epoch =
    "ethdo"
    ∷ "--allow-insecure-connections--connection"
    ∷ client
    ∷ "epoch"
    ∷ "summary"
    ∷ "--epoch"
    ∷ str epoch
    ∷ []

-- `last_epoch`, which is 0 at epoch 0.
abbrev pub last_epoch_of : ℕ → ℕ
last_epoch_of zero = 0
last_epoch_of (suc current_epoch) = current_epoch

-- `Ethdo.epoch_summary`. The first run is not checked; `current_epoch_in` is the search of its output for
-- the epoch, which may raise.
unfoldable pub epoch_summary : ToolRun → (String → Result ℕ) → String → Option ℕ → Result Output
epoch_summary run current_epoch_in client (some epoch) =
    ok (checked_output (run (given_summary_cmd client epoch)))
epoch_summary run current_epoch_in client none =
    let out = run (current_summary_cmd client) in
    let summary = current_epoch_in out.stdout >>= λ current_epoch.
    ok (checked_output (run (last_summary_cmd client (last_epoch_of current_epoch)))) in
    if out.stderr == "" then summary else ok (exception out.stderr)

-- The password of a call of `generate_keystores`: a command cannot hold a `None`.
unfoldable pub prysm_password_of : ClientInstance → Result (Option String)
prysm_password_of i =
    if i.consensus_config.client == "prysm"
    then (or_raise i.validator_password (Error.type_error "expected str, not NoneType")
        >>= λ password. ok (some password))
    else ok none

-- The commands of `_write_validator_keystores`, for clients that are supported; `keystore_dir` is the
-- path of an instance's keystores.
unfoldable pub keystore_cmds :
    String → (ClientInstance → String) → List ClientInstance → Result (List (List String))
keystore_cmds mnemonic keystore_dir [] = ok []
keystore_cmds mnemonic keystore_dir (i ∷ is) = prysm_password_of i >>= λ prysm_password.
    keystore_cmds mnemonic keystore_dir is >>= λ cmds.
    ok (keystores_cmd (keystore_dir i) (min_ndx i) (max_ndx i) mnemonic prysm_password ∷ cmds)
