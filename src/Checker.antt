-- ===== src/Checker.antt =====
-- The checks of the heads in src/antithesis_checker.py. A client's answer is what
-- `BeaconAPIgetBlockV2.perform_request` returns for it; the decoding of a block's graffiti is
-- Python's.
pub mod Heads
pub mod Consensus
pub mod Validators
pub mod Phases
use ethereum_testnet_bootstr.Base.{
  ℕ, zero, suc, ◌+◌, ◌^◌, String, Bool, true, false, ◌&&◌, Option, none, some, List, [], ◌∷◌, ◌++◌,
  map, length, Result, ok, err, Error, ◌>>=◌, Eq, ◌==◌, nat_eq, string_eq, ltb, if◌then◌else◌,
}
use ethereum_testnet_bootstr.Base.Dict.{Dict, lookup, insert}
use ethereum_testnet_bootstr.Requests.{
  Outcome, response, exception, nothing, perform_batched_request,
}

-- What the check reads of a block.
pub record Block : Type 0 where
  pub slot : String
  pub state_root : String
  pub graffiti : String

pub record Head : Type 0 where
  pub slot : String
  pub state_root : String
  pub graffiti : String
  pub nodes : List String

pub record HeadStatusCheck : Type 0 where
  pub unreachable_clients : List String
  pub heads : List Head

-- `d.values()`
abbrev pub values : Dict String Head → List Head
values [] = []
values ((_, head) ∷ heads) = head ∷ values heads

-- `heads[state_root]`, made where it is not there, gets the node.
unfoldable pub add_block :
    (String → Result String) → String → Block → Dict String Head → Result (Dict String Head)
add_block decode name block heads = elim (lookup block.state_root heads) [
  | some head ↦
      ok (insert block.state_root (record head { nodes = head.nodes ++ (name ∷ []) }) heads)
  | none ↦ decode block.graffiti >>= λ text. ok (
      insert block.state_root
        (record {
          slot = block.slot;
          state_root = block.state_root;
          graffiti = text;
          nodes = name ∷ [];
        })
        heads)
]

module _ {C X : Type 0} (name_of : C → String) (decode : String → Result String) where
  -- The loop over the results of the batch.
  unfoldable pub gather :
      Dict C (Outcome Block X)
      → List String
      → Dict String Head
      → Result (List String × Dict String Head)
  gather [] unreachable heads = ok (unreachable, heads)
  gather ((client, response block) ∷ results) unreachable heads =
      add_block decode (name_of client) block heads >>= λ heads'. gather results unreachable heads'
  gather ((client, exception x) ∷ results) unreachable heads =
      gather results (unreachable ++ (name_of client ∷ [])) heads
  gather ((client, nothing) ∷ results) unreachable heads = err (Error.attribute_error "json")

  -- `get_heads_status_check_slot`
  unfoldable pub get_heads_status_check_slot :
      ⦃ec : Eq C⦄ → (C → Outcome Block X) → List C → Result HeadStatusCheck
  get_heads_status_check_slot perform_request clients =
      perform_batched_request perform_request clients >>= λ results.
      gather results [] [] >>= λ (unreachable, heads).
      ok (record { unreachable_clients = unreachable; heads = values heads })

-- `len(status.unreachable_clients) == 0 and len(status.heads) == 1`
unfoldable pub found_consensus : HeadStatusCheck → Bool
found_consensus status = length status.unreachable_clients == 0 && length status.heads == 1

-- The loop of `check_for_consensus`: the attempts left and `curr_try`. It returns the seconds of its
-- sleeps with its verdict.
unfoldable pub attempt_checks : (ℕ → Result HeadStatusCheck) → ℕ → ℕ → Result (Bool × List ℕ)
attempt_checks status zero curr_try = ok (false, [])
attempt_checks status (suc left) curr_try =
    let slept = if ltb 0 curr_try then 2 ^ (curr_try + 1) ∷ [] else [] in
    let rest = attempt_checks status left (curr_try + 1) in
    status curr_try >>= λ s.
    if found_consensus s
    then ok (true, slept)
    else (rest >>= λ (found, later). ok (found, slept ++ later))

-- `check_for_consensus`, whose guard is `curr_try <= max_retries`.
unfoldable pub check_for_consensus : (ℕ → Result HeadStatusCheck) → ℕ → Result (Bool × List ℕ)
check_for_consensus status max_retries = attempt_checks status (suc max_retries) 0
