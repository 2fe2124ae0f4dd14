-- ===== src/Requests/Payloads.antt =====
-- What the requests of src/etb/interfaces/client_request.py ask.
pub mod Peers
use Prim.Native.String
use ethereum_testnet_bootstr.Base.{
  ℕ, String, ◌<>◌, Bool, true, false, Option, none, some, List, [], ◌∷◌, ◌||◌, if◌then◌else◌,
}

pub data Param : Type 0 where
  text : String → Param
  flag : Bool → Param

-- The payload of a JSON-RPC request; "jsonrpc" is always "2.0".
pub record RpcPayload : Type 0 where
  pub method : String
  pub params : List Param
  pub id : ℕ

abbrev pub eth_get_block_by_number : (block : String) → ℕ → RpcPayload
eth_get_block_by_number block id = record {
  method = "eth_getBlockByNumber";
  params = text block ∷ flag true ∷ [];
  id = id;
}

abbrev pub eth_send_raw_transaction : (raw_tx : String) → ℕ → RpcPayload
eth_send_raw_transaction raw_tx id = record {
  method = "eth_sendRawTransaction";
  params = text raw_tx ∷ [];
  id = id;
}

abbrev pub eth_get_transaction_receipt : (tx_hash : String) → ℕ → RpcPayload
eth_get_transaction_receipt tx_hash id = record {
  method = "eth_getTransactionReceipt";
  params = text tx_hash ∷ [];
  id = id;
}

abbrev pub eth_get_code : (address version : String) → ℕ → RpcPayload
eth_get_code address version id = record {
  method = "eth_getCode";
  params = text address ∷ text version ∷ [];
  id = id;
}

abbrev pub admin_node_info : ℕ → RpcPayload
admin_node_info id = record { method = "admin_nodeInfo"; params = []; id = id }

abbrev pub admin_add_peer : (enode : String) → ℕ → RpcPayload
admin_add_peer enode id = record { method = "admin_addPeer"; params = text enode ∷ []; id = id }

-- The paths of the beacon API.
abbrev pub block_v2_path : (block : String) → String
block_v2_path block = "/eth/v2/beacon/blocks/" <> block

abbrev pub block_v1_path : (block : String) → String
block_v1_path block = "/eth/v1/beacon/blocks/" <> block

abbrev pub validators_path : (state : String) → String
validators_path state = "/eth/v1/beacon/states/" <> (state <> "/validators")

abbrev pub genesis_path : String
genesis_path = "/eth/v1/beacon/genesis"

abbrev pub finality_checkpoints_path : (state_id : String) → String
finality_checkpoints_path state_id =
    "/eth/v1/beacon/states/" <> (state_id <> "/finality_checkpoints")

abbrev pub identity_path : String
identity_path = "/eth/v1/node/identity"

abbrev pub blob_path : (block : String) → String
blob_path block = "/eth/v1/beacon/blob_sidecars/" <> block

-- `for x in xs: s += f"{key}{x}&"`
unfoldable pub parameters : String → List String → String
parameters key [] = ""
parameters key (x ∷ xs) = key <> (x <> ("&" <> parameters key xs))

-- `s[:-1]`
unfoldable pub without_last : String → String
without_last String.[] = ""
without_last (String.◌∷◌ c String.[]) = ""
without_last (String.◌∷◌ c (String.◌∷◌ d s)) = String.◌∷◌ c (without_last (String.◌∷◌ d s))

-- A parameter that may be `None`, and whether it is there.
abbrev pub optional_parameters : String → Option (List String) → String
optional_parameters key none = ""
optional_parameters key (some xs) = parameters key xs

abbrev pub is_given : {A : Type 0} → Option A → Bool
is_given none = false
is_given (some _) = true

-- The path of `BeaconAPIgetPeers`.
unfoldable pub peers_path : Option (List String) → Option (List String) → String
peers_path directions states =
    let state_str = optional_parameters "state=" states in
    let direction_str = optional_parameters "direction=" directions in
    without_last (
      if is_given states || is_given directions
      then "/eth/v1/node/peers" <> ("?" <> (state_str <> direction_str))
      else "/eth/v1/node/peers")
