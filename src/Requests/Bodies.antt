-- ===== src/Requests/Bodies.antt =====
-- What the requests of src/etb/interfaces/client_request.py read of a response.
use ethereum_testnet_bootstr.Base.{
  ℕ, String, List, [], ◌∷◌, Result, ok, err, Error, ◌>>=◌, or_raise, Option, none, some, ◌==◌,
  string_eq, if◌then◌else◌,
}
use ethereum_testnet_bootstr.Requests.{Outcome, response, exception, nothing}

-- A value of JSON, or an exception that stands where a value is expected.
mutual
  pub data ResponseValue : Type 0 where
    str : String → ResponseValue
    number : ℕ → ResponseValue
    null : ResponseValue
    array : ResponseItems → ResponseValue
    object : ResponseFields → ResponseValue
    exception_object : ResponseValue

  pub data ResponseItems : Type 0 where
    no_values : ResponseItems
    value : ResponseValue → ResponseItems → ResponseItems

  pub data ResponseFields : Type 0 where
    no_fields : ResponseFields
    field : String → ResponseValue → ResponseFields → ResponseFields

abbrev pub field_at : String → ResponseFields → Option ResponseValue
field_at key no_fields = none
field_at key (field k v fs) = if key == k then some v else field_at key fs

-- `v[key]`: only a dict takes a text.
unfoldable pub get_item : String → ResponseValue → Result ResponseValue
get_item key (object fs) = or_raise (field_at key fs) (Error.key_error key)
get_item key _ = err (Error.type_error "not subscriptable")

-- `v[k1][k2]...`
unfoldable pub get_path : List String → ResponseValue → Result ResponseValue
get_path [] v = ok v
get_path (key ∷ keys) v = get_item key v >>= get_path keys

-- A response, as what `response.json()` gives.
abbrev pub Answer : Type 0
Answer = Outcome (Result ResponseValue) String

-- `if self.is_valid(response): return response.json()[...]`, else the exception itself. `None` is valid
-- and has no `json`.
unfoldable pub read : List String → Answer → Result ResponseValue
read keys (response body) = body >>= get_path keys
read keys (exception x) = ok exception_object
read keys nothing = err (Error.attribute_error "json")

-- `eth_getBlockByNumber.get_block`
abbrev pub get_execution_block : Answer → Result ResponseValue
get_execution_block = read ("result" ∷ [])

-- `eth_sendRawTransaction.get_hash`
abbrev pub get_hash : Answer → Result ResponseValue
get_hash = read ("result" ∷ [])

-- `eth_getTransactionReceipt.get_reciept`
abbrev pub get_receipt : Answer → Result ResponseValue
get_receipt = read ("result" ∷ [])

-- `eth_getCode.get_code`
abbrev pub get_code : Answer → Result ResponseValue
get_code = read ("result" ∷ [])

-- `admin_nodeInfo.get_enode`
abbrev pub get_enode : Answer → Result ResponseValue
get_enode = read ("result" ∷ "enode" ∷ [])

-- `BeaconAPIgetBlockV2.get_block`
abbrev pub get_block_v2 : Answer → Result ResponseValue
get_block_v2 = read ("data" ∷ "message" ∷ [])

-- `BeaconAPIgetBlockV1.get_block`
abbrev pub get_block_v1 : Answer → Result ResponseValue
get_block_v1 = read ("data" ∷ "message" ∷ [])

-- `BeaconAPIgetValidators.get_validators`
abbrev pub get_validators : Answer → Result ResponseValue
get_validators = read ("data" ∷ [])

-- A checkpoint's epoch and root, or the exception.
pub data GotCheckpoint : Type 0 where
  checkpoint : (epoch root : ResponseValue) → GotCheckpoint
  no_checkpoint : GotCheckpoint

-- The getters of the three checkpoints differ in their key.
unfoldable pub read_checkpoint : String → Answer → Result GotCheckpoint
read_checkpoint key (exception x) = ok no_checkpoint
read_checkpoint key answer = read ("data" ∷ key ∷ "epoch" ∷ []) answer >>= λ epoch.
    read ("data" ∷ key ∷ "root" ∷ []) answer >>= λ root. ok (checkpoint epoch root)

-- `BeaconAPIgetFinalityCheckpoints.get_finalized_checkpoint`
abbrev pub get_finalized_checkpoint : Answer → Result GotCheckpoint
get_finalized_checkpoint = read_checkpoint "finalized"

abbrev pub get_previous_justified_checkpoint : Answer → Result GotCheckpoint
get_previous_justified_checkpoint = read_checkpoint "previous_justified"

abbrev pub get_current_justified_checkpoint : Answer → Result GotCheckpoint
get_current_justified_checkpoint = read_checkpoint "current_justified"

-- `BeaconAPIgetIdentity.get_identity`
abbrev pub get_identity : Answer → Result ResponseValue
get_identity = read ("data" ∷ [])

-- `get_enr` and `get_peer_id` subscript what `get_identity` returns, the exception too.
unfoldable pub get_enr : Answer → Result ResponseValue
get_enr answer = get_identity answer >>= get_item "enr"

unfoldable pub get_peer_id : Answer → Result ResponseValue
get_peer_id answer = get_identity answer >>= get_item "peer_id"

-- `BeaconAPIgetPeers.get_peers`
abbrev pub get_peers : Answer → Result ResponseValue
get_peers = read ("data" ∷ [])

-- `BeaconAPIgetBlob.get_blob`
abbrev pub get_blob : Answer → Result ResponseValue
get_blob = read ("data" ∷ [])
