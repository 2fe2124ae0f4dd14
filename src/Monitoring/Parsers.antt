-- ===== src/Monitoring/Parsers.antt =====
-- The parsers of the responses in src/etb/monitoring/monitors/consensus_monitors.py.
use ethereum_testnet_bootstr.Base.{
  String, ◌<>◌, Option, none, some, [], ◌∷◌, Result, ok, err, Error, ◌>>=◌,
}
use ethereum_testnet_bootstr.Base.Text.{last_chars}
use ethereum_testnet_bootstr.Requests.{response, exception, nothing}
use ethereum_testnet_bootstr.Requests.Bodies.{
  ResponseValue, ResponseItems, null, str, array, Answer, get_item, get_path, get_block_v2,
  get_blob, get_peer_id, GotCheckpoint, checkpoint, no_checkpoint, get_finalized_checkpoint,
  get_current_justified_checkpoint, get_previous_justified_checkpoint,
}

-- `except Exception: return None`
abbrev pub caught : {A : Type 0} → Result A → Option A
caught (err e) = none
caught (ok a) = some a

-- A value of JSON that is `None` is none, which counts as an invalid response.
unfoldable pub not_none : Option ResponseValue → Option ResponseValue
not_none (some null) = none
not_none found = found

-- `HeadsMonitorExecutionAvailabilityCheck._get_client_head_from_block`
unfoldable pub get_execution_head : Answer → Option ResponseValue
get_execution_head (response body) = not_none (caught (body >>= get_path ("result" ∷ "hash" ∷ [])))
get_execution_head (exception x) = none
get_execution_head nothing = none

-- `HeadsMonitorConsensusAvailabilityCheck._get_client_head_from_block`
unfoldable pub get_head_slot : Answer → Option ResponseValue
get_head_slot answer = not_none (caught (get_block_v2 answer >>= get_item "slot"))

-- `ConsensusLayerIdentityMonitor._get_peer_id`
unfoldable pub get_identity_peer_id : Answer → Option ResponseValue
get_identity_peer_id answer = not_none (caught (get_peer_id answer))

pub record ClientHead : Type 0 where
  pub slot : ResponseValue
  pub state_root : String
  pub graffiti : String

pub record BlobSideCar : Type 0 where
  pub slot : ResponseValue
  pub block_root : String
  pub proposer : ResponseValue

pub record Checkpoint : Type 0 where
  pub epoch : ResponseValue
  pub root : String

-- The dict with the keys "fc", "cj" and "pj".
pub record Checkpoints : Type 0 where
  pub fc : Checkpoint
  pub cj : Checkpoint
  pub pj : Checkpoint

-- `slice_items` is what Python prints for the last eight values of a list.
module _ (slice_items : ResponseItems → String) where
  -- `f"0x{root[-8:]}"`
  unfoldable pub short_root : ResponseValue → Result String
  short_root (str root) = ok ("0x" <> last_chars 8 root)
  short_root (array roots) = ok ("0x" <> slice_items roots)
  short_root _ = err (Error.type_error "not subscriptable")

  -- `bytes.fromhex(graffiti[2:]).decode("utf-8").replace("\x00", "")`, which `decode` is for a text.
  abbrev pub graffiti_of : (String → Result String) → ResponseValue → Result String
  graffiti_of decode (str graffiti) = decode graffiti
  graffiti_of decode _ = err (Error.type_error "fromhex() argument must be str")

  -- `HeadsMonitor._get_client_head_from_block`
  unfoldable pub get_client_head : (String → Result String) → Answer → Option ClientHead
  get_client_head decode answer = caught (do
    block ← get_block_v2 answer
    slot ← get_item "slot" block
    root ← get_item "state_root" block
    state_root ← short_root root
    hex ← get_path ("body" ∷ "graffiti" ∷ []) block
    graffiti ← graffiti_of decode hex
    ok (record { slot = slot; state_root = state_root; graffiti = graffiti }))

  -- `BlobMonitor._get_blob_metadata`
  unfoldable pub get_blob_metadata : Answer → Option BlobSideCar
  get_blob_metadata answer = caught (do
    blob ← get_blob answer
    slot ← get_item "slot" blob
    proposer ← get_item "proposer_index" blob
    root ← get_item "block_root" blob
    block_root ← short_root root
    ok (record { slot = slot; block_root = block_root; proposer = proposer }))

  -- The epoch and the root of a checkpoint; an exception cannot be subscripted.
  abbrev pub short_checkpoint : GotCheckpoint → Result Checkpoint
  short_checkpoint (checkpoint epoch root) =
      short_root root >>= λ root'. ok (record { epoch = epoch; root = root' })
  short_checkpoint no_checkpoint = err (Error.type_error "not subscriptable")

  unfoldable pub read_checkpoints : Answer → Result Checkpoints
  read_checkpoints answer = do
    finalized_cp ← get_finalized_checkpoint answer
    fc ← short_checkpoint finalized_cp
    current_justified_cp ← get_current_justified_checkpoint answer
    cj ← short_checkpoint current_justified_cp
    previous_justified_cp ← get_previous_justified_checkpoint answer
    pj ← short_checkpoint previous_justified_cp
    ok (record { fc = fc; cj = cj; pj = pj })

  -- `CheckpointsMonitor._get_checkpoints`, with `json.dumps`.
  unfoldable pub get_checkpoints : (Checkpoints → String) → Answer → Option String
  get_checkpoints dumps answer = caught (read_checkpoints answer >>= λ cps. ok (dumps cps))
