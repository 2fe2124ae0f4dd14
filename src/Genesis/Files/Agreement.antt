-- ===== src/Genesis/Files/Agreement.antt =====
-- When the execution layer forks by the genesis files of src/etb/genesis/execution_genesis.py.
use ethereum_testnet_bootstr.Base.{
  ◌≡◌, refl, ap, sym, ◌∙◌, err, Error, String, Bool, true, false, Option, none, some, List, [], ◌∷◌,
  ok, >>=-eq-ok, Bool-cases, inl, inr, All, string_eq, if◌then◌else◌, or_raise,
}
use mathlib.Core.Path.{subst}
use ethereum_testnet_bootstr.Config.Times.{EtbConfig, is_deneb}
use ethereum_testnet_bootstr.Genesis.Execution.{ExecutionGenesisWriter}
use ethereum_testnet_bootstr.Genesis.Files.Values.{Json, number, text, object, members, field, hex8}
use ethereum_testnet_bootstr.Genesis.Files.{
  Accounts, geth_config, besu_config, nethermind_params, with_eip4844, create_geth_genesis,
  create_besu_genesis, create_nethermind_genesis, besu_file, get_allocs, add_private_keys,
}

-- What a file has under a section and a name.
abbrev pub entry : String → String → Json → Option Json
entry section name file = elim (field section file) [ none ↦ none | some part ↦ field name part ]

-- The names of the transitions that Nethermind makes at Shanghai, and at Cancun.
abbrev pub shanghai_names : List String
shanghai_names =
    "eip4895TransitionTimestamp" ∷ "eip3855TransitionTimestamp" ∷ "eip3651TransitionTimestamp"
    ∷ "eip3860TransitionTimestamp" ∷ []

abbrev pub cancun_names : List String
cancun_names =
    "eip4844TransitionTimestamp" ∷ "eip4788TransitionTimestamp" ∷ "eip1153TransitionTimestamp"
    ∷ "eip5656TransitionTimestamp" ∷ "eip6780TransitionTimestamp" ∷ []

geth_times :
    (c : EtbConfig) (w : ExecutionGenesisWriter) (a : Accounts)
    → (entry "config" "shanghaiTime" (create_geth_genesis c w a)
        ≡ some (number w.shanghai_fork_time))
      × (entry "config" "cancunTime" (create_geth_genesis c w a)
          ≡ (if is_deneb c then some (number w.cancun_fork_time) else none))
unfolding create_geth_genesis geth_config string_eq
geth_times c w a = elim (Bool-cases (is_deneb c)) [
  | inl p ↦ (rw p refl, rw p refl)
  | inr p ↦ (rw p refl, rw p refl)
]

besu_times :
    (c : EtbConfig) (w : ExecutionGenesisWriter) (a : Accounts) {file : Json}
    → create_besu_genesis c w a ≡ ok file
    → (entry "config" "shanghaiTime" file ≡ some (number w.shanghai_fork_time))
      × (entry "config" "cancunTime" file
          ≡ (if is_deneb c then some (number w.cancun_fork_time) else none))
unfolding create_besu_genesis besu_config string_eq
besu_times c w a {file} h =
    let (allocs, _, made) = >>=-eq-ok (add_private_keys a a.premines (get_allocs a)) _ h in
    let same : (section : String) (name : String)
        → entry section name file ≡ entry section name (besu_file c w allocs) =
      λ section name. ap (λ f. elim f [ ok j ↦ entry section name j | err _ ↦ none ]) (sym made) in
    elim (Bool-cases (is_deneb c)) [
      | inl p ↦ (same "config" "shanghaiTime" ∙ rw p refl, same "config" "cancunTime" ∙ rw p refl)
      | inr p ↦ (same "config" "shanghaiTime" ∙ rw p refl, same "config" "cancunTime" ∙ rw p refl)
    ]

abbrev pub HasTransitions : ExecutionGenesisWriter → Json → Type 0
HasTransitions w file =
    All (λ name. entry "params" name file ≡ some (text (hex8 w.shanghai_fork_time))) shanghai_names
    × All (λ name. entry "params" name file ≡ some (text (hex8 w.cancun_fork_time))) cancun_names

nethermind_params-at :
    (c : EtbConfig) (w : ExecutionGenesisWriter) (deneb : Bool)
    → HasTransitions w
        (object (members (("params", object (with_eip4844 deneb w (nethermind_params c w))) ∷ [])))
unfolding nethermind_params string_eq
nethermind_params-at c w true =
    ((refl, (refl, (refl, (refl, tt)))), (refl, (refl, (refl, (refl, (refl, tt))))))
nethermind_params-at c w false =
    ((refl, (refl, (refl, (refl, tt)))), (refl, (refl, (refl, (refl, (refl, tt))))))

nethermind_times :
    (c : EtbConfig) (w : ExecutionGenesisWriter) (a : Accounts) {file : Json}
    → create_nethermind_genesis c w a ≡ ok file
    → HasTransitions w file
unfolding create_nethermind_genesis string_eq
nethermind_times c w a {file} h =
    let (genesis_time, _, made) =
      >>=-eq-ok (or_raise c.genesis_time (Error.value_error "hex of None")) _ h in
    subst (λ r. elim r [ ok j ↦ HasTransitions w j | err _ ↦ Unit ]) made
      (nethermind_params-at c w (is_deneb c))

-- The three genesis files agree on when the execution layer forks. Geth's and Besu's have the
-- writer's Shanghai time, and its Cancun time exactly where the experiment goes to Deneb. Each
-- transition that Nethermind's file has for one of the two forks is the same time in hexadecimal;
-- those for Cancun are there in every experiment.
pub genesis_files-agree :
    (c : EtbConfig) (w : ExecutionGenesisWriter) (a : Accounts) {besu nethermind : Json}
    → create_besu_genesis c w a ≡ ok besu
    → create_nethermind_genesis c w a ≡ ok nethermind
    → (entry "config" "shanghaiTime" (create_geth_genesis c w a)
        ≡ some (number w.shanghai_fork_time))
      × (entry "config" "cancunTime" (create_geth_genesis c w a)
          ≡ (if is_deneb c then some (number w.cancun_fork_time) else none))
      × (entry "config" "shanghaiTime" besu
          ≡ entry "config" "shanghaiTime" (create_geth_genesis c w a))
      × (entry "config" "cancunTime" besu ≡ entry "config" "cancunTime" (create_geth_genesis c w a))
      × All
          (λ name. entry "params" name nethermind ≡ some (text (hex8 w.shanghai_fork_time)))
          shanghai_names
      × All
          (λ name. entry "params" name nethermind ≡ some (text (hex8 w.cancun_fork_time)))
          cancun_names
genesis_files-agree c w a h g =
    let (shanghai, cancun) = geth_times c w a in
    let (shanghai', cancun') = besu_times c w a h in
    let (first, second) = nethermind_times c w a g in
    (shanghai, cancun, shanghai' ∙ sym shanghai, cancun' ∙ sym cancun, first, second)
