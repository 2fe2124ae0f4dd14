-- ===== src/Bootstrap/Assertoor.antt =====
-- `generate_assertor_config` of src/testnet_bootstrapper.py and `serialize_to_yaml` of
-- src/etb/config/assertor.py.
pub mod Inventory
pub mod Serialized
use Prim.Native.Char.{Char, code}
use Prim.Native.String
use ethereum_testnet_bootstr.Base.{
  ℕ, zero, suc, ◌+◌, ◌-◌, ◌*◌, String, ◌<>◌, Bool, true, Option, none, some, List, [], ◌∷◌, map,
  ◌==◌, nat_eq, string_eq, if◌then◌else◌,
}
use ethereum_testnet_bootstr.Base.Dict.{Dict, insert}
use ethereum_testnet_bootstr.Base.Text.{str, onto_head, last_part, split_dots}
use ethereum_testnet_bootstr.Config.Instances.{ClientInstance}

-- The ports of an instance's two clients.
pub record Ports : Type 0 where
  pub beacon_api_port : ℕ
  pub http_port : ℕ

pub record ClientConfig : Type 0 where
  pub name : String
  pub consensus_url : String
  pub execution_url : String

-- A test's file; its `config` is `{}`, and the rest is `None`.
pub record ExternalTest : Type 0 where
  pub name : String
  pub file : String

-- The web server; `debug` of the frontend is `None`.
pub record WebConfig : Type 0 where
  pub port : String
  pub host : String
  pub frontend_enabled : Bool
  pub api_enabled : Bool

pub record AssertorConfig : Type 0 where
  pub endpoints : List ClientConfig
  pub web : WebConfig
  pub inventory : Dict String String
  pub pair_names : List String
  pub external_tests : List ExternalTest
  pub wallet_privkey : String

-- `str(n - 1)`
abbrev pub str_before : ℕ → String
str_before zero = "-1"
str_before (suc n) = str n

-- `f"{start}-{end}"`, where `end` is the number before `validators_num`.
unfoldable pub inventory_key : ℕ → ℕ → String
inventory_key start validators_num = str start <> ("-" <> str_before validators_num)

-- `names[f"{start}-{end}"] = f"{client_name}-{instance.ndx}"`, which is the instance's name.
unfoldable pub add_name : ClientInstance → Dict String String → Dict String String
add_name i names =
    let start =
      i.validator_offset_start + i.consensus_config.num_validators * i.instance_base.ndx in
    insert (inventory_key start (start + i.consensus_config.num_validators)) i.instance_base.name
      names

unfoldable pub add_names : List ClientInstance → Dict String String → Dict String String
add_names [] names = names
add_names (i ∷ is) names = add_names is (add_name i names)

abbrev pub endpoint : (ClientInstance → Ports) → ClientInstance → ClientConfig
endpoint ports i = record {
  name = i.instance_base.name;
  consensus_url = "http://" <> (i.instance_base.name <> (":" <> str (ports i).beacon_api_port));
  execution_url = "http://" <> (i.instance_base.name <> (":" <> str (ports i).http_port));
}

-- `s.split("/")`
unfoldable pub split_slashes : String → List String
split_slashes String.[] = "" ∷ []
split_slashes (String.◌∷◌ c s) =
    if code c == b'/' then "" ∷ split_slashes s else onto_head c (split_slashes s)

abbrev pub first_part : List String → String
first_part [] = ""
first_part (w ∷ _) = w

-- `file.split("/")[-1].split(".")[0]`
unfoldable pub test_name : String → String
test_name file = first_part (split_dots (last_part (split_slashes file)))

unfoldable pub test_files : List String
test_files =
    "/source/configs/assertoor/block-proposal-check.yaml"
    ∷ "/source/configs/assertoor/check-consensus-finality.yaml"
    ∷ "/source/configs/assertoor/workload-blob.yaml" ∷ "/source/configs/assertoor/workload-tx.yaml"
    ∷ "/source/configs/assertoor/workload-mix.yaml"
    ∷ "/source/configs/assertoor/all-opcodes-transaction-test.yaml"
    ∷ "/source/configs/assertoor/blob-transactions-test.yaml"
    ∷ "/source/configs/assertoor/big-calldata-tx-test.yaml"
    ∷ "/source/configs/assertoor/dencun-opcodes-test.yaml"
    ∷ "/source/configs/assertoor/stability-check.yaml" ∷ []

abbrev pub external_test : String → ExternalTest
external_test file = record { name = test_name file; file = file }

-- `key.replace("0x", "")`
unfoldable pub without_0x : String → String
without_0x String.[] = ""
without_0x (String.◌∷◌ c String.[]) = String.◌∷◌ c ""
without_0x (String.◌∷◌ c (String.◌∷◌ d s)) =
    let removed = without_0x s in
    let kept = String.◌∷◌ c (without_0x (String.◌∷◌ d s)) in
    if code c == b'0' then (if code d == b'x' then removed else kept) else kept

-- `generate_assertor_config`, with the private key that is chosen.
unfoldable pub generate_assertor_config :
    (ClientInstance → Ports) → List ClientInstance → (private_key : String) → AssertorConfig
generate_assertor_config ports clients private_key = record {
  endpoints = map (endpoint ports) clients;
  web = record { port = "8080"; host = "0.0.0.0"; frontend_enabled = true; api_enabled = true };
  inventory = add_names clients [];
  pair_names = map (λ i. i.instance_base.name) clients;
  external_tests = map external_test test_files;
  wallet_privkey = without_0x private_key;
}

-- What is serialized: a scalar, `None`, a list, and a dict or a data class with its fields.
mutual
  pub data Data : Type 0 where
    scalar : String → Data
    null : Data
    items : DataItems → Data
    fields : DataFields → Data

  pub data DataItems : Type 0 where
    no_items : DataItems
    item : Data → DataItems → DataItems

  pub data DataFields : Type 0 where
    no_fields : DataFields
    field : String → Data → DataFields → DataFields

-- `convert_to_serializable`
unfoldable mutual
  pub convert : Data → Data
  convert (scalar s) = scalar s
  convert null = null
  convert (items xs) = items (convert_items xs)
  convert (fields fs) = fields (convert_fields fs)

  pub convert_items : DataItems → DataItems
  convert_items no_items = no_items
  convert_items (item null xs) = convert_items xs
  convert_items (item x xs) = item (convert x) (convert_items xs)

  pub convert_fields : DataFields → DataFields
  convert_fields no_fields = no_fields
  convert_fields (field k null fs) = convert_fields fs
  convert_fields (field k v fs) = field k (convert v) (convert_fields fs)
