-- ===== src/Requests.antt =====
-- Requests to clients (src/etb/interfaces/client_request.py). What an attempt gives is the
-- network's: a response that passed every check of its attempt, or the exception that the attempt
-- ended with.
pub mod Attempts
pub mod Bodies
pub mod Payloads
use ethereum_testnet_bootstr.Base.{
  ℕ, zero, suc, ◌+◌, ◌-◌, Bool, true, false, List, [], ◌∷◌, Eq, Result, ok, err, Error, ltb,
  if◌then◌else◌,
}
use ethereum_testnet_bootstr.Base.Dict.{Dict, insert}

-- What `perform_request` returns, or an attempt ends with.
pub data Outcome (R X : Type 0) : Type 0 where
  response : R → Outcome R X
  exception : X → Outcome R X
  nothing : Outcome R X

-- `is_valid`: `None` is no exception.
abbrev pub is_valid : {R X : Type 0} → Outcome R X → Bool
is_valid (response _) = true
is_valid (exception _) = false
is_valid nothing = true

-- What the code reads of the body of a response to a JSON-RPC request.
pub record RpcResponse (R X : Type 0) : Type 0 where
  pub body : R
  pub error : List X

module _ {R X : Type 0} where
  -- The attempt's `if "error" in data`: an error in the body is raised.
  abbrev pub read_rpc : Outcome (RpcResponse R X) X → Outcome R X
  read_rpc nothing = nothing
  read_rpc (exception x) = exception x
  read_rpc (response r) = elim r.error [ [] ↦ response r.body | x ∷ _ ↦ exception x ]

  -- The loop `for attempt in range(self.max_retries)` of both kinds of request: the attempts left,
  -- the number of the next and the outcome behind the loop. The second component counts the sleeps.
  unfoldable pub attempts : (ℕ → Outcome R X) → Outcome R X → ℕ → ℕ → ℕ → Outcome R X × ℕ
  attempts send unknown max_retries zero attempt = (unknown, 0)
  attempts send unknown max_retries (suc left) attempt =
      let (later, sleeps) = attempts send unknown max_retries left (attempt + 1) in
      elim (send attempt) [
        | exception x ↦
            if ltb attempt (max_retries - 1) then (later, sleeps + 1) else (exception x, 0)
        | other ↦ (other, 0)
      ]

  -- `ExecutionJSONRPCRequest.perform_request`
  unfoldable pub execution_perform_request :
      X → (ℕ → Outcome (RpcResponse R X) X) → ℕ → Outcome R X × ℕ
  execution_perform_request unknown_error send max_retries =
      attempts (λ i. read_rpc (send i)) (exception unknown_error) max_retries max_retries 0

  -- `BeaconAPIRequest.perform_request`, which falls off its end behind the loop.
  unfoldable pub beacon_perform_request : (ℕ → Outcome R X) → ℕ → Outcome R X × ℕ
  beacon_perform_request send max_retries = attempts send nothing max_retries max_retries 0

module _ {C O : Type 0} ⦃ec : Eq C⦄ where
  -- `results_dict[client] = executor.submit(req.perform_request, client)`
  unfoldable pub submit_all : (C → O) → List C → Dict C O → Dict C O
  submit_all perform_request [] results_dict = results_dict
  submit_all perform_request (client ∷ clients) results_dict =
      submit_all perform_request clients (insert client (perform_request client) results_dict)

  -- `perform_batched_request`. An executor with no workers is refused.
  unfoldable pub perform_batched_request : (C → O) → List C → Result (Dict C O)
  perform_batched_request perform_request [] = err (Error.value_error "max_workers")
  perform_batched_request perform_request (client ∷ clients) =
      ok (submit_all perform_request (client ∷ clients) [])
