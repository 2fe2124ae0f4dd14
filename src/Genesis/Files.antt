-- ===== src/Genesis/Files.antt =====
-- The genesis files of the execution clients (src/etb/genesis/execution_genesis.py): `get_allocs`,
-- `create_geth_genesis`, `create_besu_genesis` and `create_nethermind_genesis`. The accounts of a
-- mnemonic are web3's, and the JSON of the two contracts that genesis has is data: both are passed in.
pub mod Values
pub mod Agreement
use ethereum_testnet_bootstr.Base.{
  ℕ, zero, suc, ◌+◌, String, ◌<>◌, Bool, true, false, Option, none, some, List, [], ◌∷◌, Result, ok,
  err, Error, ◌>>=◌, or_raise, range_from, string_eq, if◌then◌else◌,
}
use ethereum_testnet_bootstr.Base.Dict.{Dict}
use ethereum_testnet_bootstr.Base.Text.{str}
use ethereum_testnet_bootstr.Config.Times.{EtbConfig, is_deneb}
use ethereum_testnet_bootstr.Genesis.Execution.{ExecutionGenesisWriter}
use ethereum_testnet_bootstr.Genesis.Files.Values.{
  Json, number, text, flag, no_items, object, Members, no_members, members, put, put_in, hex, hex8,
  hex_digits,
}

-- What the genesis files take from web3 and from the contracts' data: the address and the private key
-- of an account path, and the addresses and the JSON of the deposit contract and of EIP-4788.
pub record Accounts : Type 0 where
  pub address : String → String
  pub private_key : String → String
  pub premines : Dict String ℕ
  pub deposit_contract_address : String
  pub deposit_contract_json : Json
  pub eip4788_contract_address : String
  pub eip4788_contract_json : Json

abbrev pub eighteen_zeros : String
eighteen_zeros = "000000000000000000"

abbrev pub zero_address : String
zero_address = "0x0000000000000000000000000000000000000000"

abbrev pub zero_hash : String
zero_hash = "0x0000000000000000000000000000000000000000000000000000000000000000"

abbrev pub balance : String → Json
balance amount = object (members (("balance", text amount) ∷ []))

-- `for x in range(256)`
unfoldable pub alloc_low : List ℕ → Members → Members
alloc_low [] allocs = allocs
alloc_low (x ∷ xs) allocs = alloc_low xs (put ("0x" <> hex_digits 40 x) (balance "1") allocs)

-- `for acc in premines`
unfoldable pub alloc_premines : Accounts → Dict String ℕ → Members → Members
alloc_premines a [] allocs = allocs
alloc_premines a ((acc, amount) ∷ premines) allocs =
    alloc_premines a premines (put (a.address acc) (balance (str amount <> eighteen_zeros)) allocs)

unfoldable pub get_allocs : Accounts → Members
get_allocs a = put a.eip4788_contract_address a.eip4788_contract_json (
    put a.deposit_contract_address a.deposit_contract_json (
      put "0x0B799C86a49DEeb90402691F1041aa3AF2d3C875" (balance ("100" <> eighteen_zeros))
        (alloc_premines a a.premines (alloc_low (range_from 0 256) no_members))))

-- `str(genesis_time)`
abbrev pub time_text : Option ℕ → String
time_text none = "None"
time_text (some t) = str t

-- `config["cancunTime"] = ...`, for an experiment that goes to Deneb.
abbrev pub with_cancun : Bool → ExecutionGenesisWriter → Members → Members
with_cancun deneb w ms = if deneb then put "cancunTime" (number w.cancun_fork_time) ms else ms

unfoldable pub geth_config : EtbConfig → ExecutionGenesisWriter → Members
geth_config c w = members (
    ("chainId", number c.chain_id)
    ∷ ("homesteadBlock", number 0)
    ∷ ("eip150Block", number 0)
    ∷ ("eip155Block", number 0)
    ∷ ("eip158Block", number 0)
    ∷ ("byzantiumBlock", number 0)
    ∷ ("constantinopleBlock", number 0)
    ∷ ("petersburgBlock", number 0)
    ∷ ("istanbulBlock", number 0)
    ∷ ("berlinBlock", number 0)
    ∷ ("londonBlock", number 0)
    ∷ ("mergeForkBlock", number w.merge_fork_block)
    ∷ ("terminalTotalDifficulty", number 0)
    ∷ ("terminalTotalDifficultyPassed", flag true)
    ∷ ("shanghaiTime", number w.shanghai_fork_time)
    ∷ [])

unfoldable pub create_geth_genesis : EtbConfig → ExecutionGenesisWriter → Accounts → Json
create_geth_genesis c w a = object (
    members (
      ("alloc", object (get_allocs a))
      ∷ ("coinbase", text zero_address)
      ∷ ("difficulty", text "0x01")
      ∷ ("extraData", text "")
      ∷ ("gasLimit", text "0x17D7840")
      ∷ ("nonce", text "0x1234")
      ∷ ("mixhash", text zero_hash)
      ∷ ("parentHash", text zero_hash)
      ∷ ("timestamp", text (time_text c.genesis_time))
      ∷ ("config", object (with_cancun (is_deneb c) w (geth_config c w)))
      ∷ []))

-- The display lists `shanghaiTime` twice, with the same value.
unfoldable pub besu_config : EtbConfig → ExecutionGenesisWriter → Members
besu_config c w = members (
    ("chainId", number c.chain_id)
    ∷ ("homesteadBlock", number 0)
    ∷ ("eip150Block", number 0)
    ∷ ("eip155Block", number 0)
    ∷ ("eip158Block", number 0)
    ∷ ("byzantiumBlock", number 0)
    ∷ ("constantinopleBlock", number 0)
    ∷ ("petersburgBlock", number 0)
    ∷ ("istanbulBlock", number 0)
    ∷ ("berlinBlock", number 0)
    ∷ ("londonBlock", number 0)
    ∷ ("preMergeForkBlock", number w.merge_fork_block)
    ∷ ("terminalTotalDifficulty", number 0)
    ∷ ("shanghaiTime", number w.shanghai_fork_time)
    ∷ ("ethash", object no_members)
    ∷ [])

-- `self.genesis["alloc"][acct.address]["privateKey"] = ...`, which raises where the address is no
-- account of the allocs.
unfoldable pub add_private_keys : Accounts → Dict String ℕ → Members → Result Members
add_private_keys a [] allocs = ok allocs
add_private_keys a ((acc, _) ∷ premines) allocs =
    or_raise (put_in (a.address acc) "privateKey" (text (a.private_key acc)) allocs)
      (Error.key_error (a.address acc))
    >>= λ allocs'. add_private_keys a premines allocs'

abbrev pub besu_file : EtbConfig → ExecutionGenesisWriter → Members → Json
besu_file c w allocs = object (
    members (
      ("alloc", object allocs)
      ∷ ("coinbase", text zero_address)
      ∷ ("baseFeePerGas", text "0x3B9ACA00")
      ∷ ("difficulty", text "0x01")
      ∷ ("extraData", text "")
      ∷ ("gasLimit", text "0x17D7840")
      ∷ ("nonce", text "0x1234")
      ∷ ("mixhash", text zero_hash)
      ∷ ("parentHash", text zero_hash)
      ∷ ("timestamp", text (time_text c.genesis_time))
      ∷ ("config", object (with_cancun (is_deneb c) w (besu_config c w)))
      ∷ []))

unfoldable pub create_besu_genesis : EtbConfig → ExecutionGenesisWriter → Accounts → Result Json
create_besu_genesis c w a =
    add_private_keys a a.premines (get_allocs a) >>= λ allocs. ok (besu_file c w allocs)

unfoldable pub nethermind_params : EtbConfig → ExecutionGenesisWriter → Members
nethermind_params c w = members (
    ("gasLimitBoundDivisor", text "0x400")
    ∷ ("registrar", text zero_address)
    ∷ ("accountStartNonce", text "0x0")
    ∷ ("maximumExtraDataSize", text "0xffff")
    ∷ ("minGasLimit", text "0x1388")
    ∷ ("networkID", text (hex c.chain_id))
    ∷ ("MergeForkIdTransition", text "0x0")
    ∷ ("maxCodeSize", text "0x6000")
    ∷ ("maxCodeSizeTransition", text "0x0")
    ∷ ("eip150Transition", text "0x0")
    ∷ ("eip158Transition", text "0x0")
    ∷ ("eip160Transition", text "0x0")
    ∷ ("eip161abcTransition", text "0x0")
    ∷ ("eip161dTransition", text "0x0")
    ∷ ("eip155Transition", text "0x0")
    ∷ ("eip140Transition", text "0x0")
    ∷ ("eip211Transition", text "0x0")
    ∷ ("eip214Transition", text "0x0")
    ∷ ("eip658Transition", text "0x0")
    ∷ ("eip145Transition", text "0x0")
    ∷ ("eip1014Transition", text "0x0")
    ∷ ("eip1052Transition", text "0x0")
    ∷ ("eip1283Transition", text "0x0")
    ∷ ("eip1283DisableTransition", text "0x0")
    ∷ ("eip152Transition", text "0x0")
    ∷ ("eip1108Transition", text "0x0")
    ∷ ("eip1344Transition", text "0x0")
    ∷ ("eip1884Transition", text "0x0")
    ∷ ("eip2028Transition", text "0x0")
    ∷ ("eip2200Transition", text "0x0")
    ∷ ("eip2565Transition", text "0x0")
    ∷ ("eip2929Transition", text "0x0")
    ∷ ("eip2930Transition", text "0x0")
    ∷ ("eip1559Transition", text "0x0")
    ∷ ("eip3198Transition", text "0x0")
    ∷ ("eip3529Transition", text "0x0")
    ∷ ("eip3541Transition", text "0x0")
    ∷ ("eip4895TransitionTimestamp", text (hex8 w.shanghai_fork_time))
    ∷ ("eip3855TransitionTimestamp", text (hex8 w.shanghai_fork_time))
    ∷ ("eip3651TransitionTimestamp", text (hex8 w.shanghai_fork_time))
    ∷ ("eip3860TransitionTimestamp", text (hex8 w.shanghai_fork_time))
    ∷ ("eip4844TransitionTimestamp", text (hex8 w.cancun_fork_time))
    ∷ ("eip4788TransitionTimestamp", text (hex8 w.cancun_fork_time))
    ∷ ("eip1153TransitionTimestamp", text (hex8 w.cancun_fork_time))
    ∷ ("eip5656TransitionTimestamp", text (hex8 w.cancun_fork_time))
    ∷ ("eip6780TransitionTimestamp", text (hex8 w.cancun_fork_time))
    ∷ ("terminalTotalDifficulty", text (hex8 0))
    ∷ [])

-- `self.genesis["params"]["eip4844TransitionTimestamp"] = ...`
abbrev pub with_eip4844 : Bool → ExecutionGenesisWriter → Members → Members
with_eip4844 deneb w ms =
    if deneb then put "eip4844TransitionTimestamp" (text (hex8 w.cancun_fork_time)) ms else ms

abbrev pub nethermind_genesis : ℕ → Json
nethermind_genesis genesis_time = object (
    members (
      (
        "seal",
        object (
            members (
              (
                "ethereum",
                object (members (("nonce", text "0x1234") ∷ ("mixHash", text zero_hash) ∷ [])),
              )
              ∷ [])),
      )
      ∷ ("difficulty", text "0x01")
      ∷ ("author", text zero_address)
      ∷ ("timestamp", text (hex genesis_time))
      ∷ ("parentHash", text zero_hash)
      ∷ ("extraData", text "")
      ∷ ("gasLimit", text "0x17D7840")
      ∷ []))

abbrev pub nethermind_file : EtbConfig → ExecutionGenesisWriter → Members → ℕ → Json
nethermind_file c w allocs genesis_time = object (
    members (
      ("name", text "Local-ETB-Testnet")
      ∷ ("engine", object (members (("Ethash", object no_members) ∷ [])))
      ∷ ("params", object (with_eip4844 (is_deneb c) w (nethermind_params c w)))
      ∷ ("genesis", nethermind_genesis genesis_time)
      ∷ ("accounts", object allocs)
      ∷ ("nodes", no_items)
      ∷ []))

-- `hex(None)` raises.
unfoldable pub create_nethermind_genesis :
    EtbConfig → ExecutionGenesisWriter → Accounts → Result Json
create_nethermind_genesis c w a =
    or_raise c.genesis_time (Error.value_error "hex of None") >>= λ genesis_time.
    ok (nethermind_file c w (get_allocs a) genesis_time)
