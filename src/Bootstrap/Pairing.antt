-- ===== src/Bootstrap/Pairing.antt =====
-- `_pair_execution_clients` of src/testnet_bootstrapper.py. The search for the admin API is Python's
-- regular expression, and a client's answers are what the two requests return for it.
pub mod Peers
use ethereum_testnet_bootstr.Base.{
  String, ◌<>◌, Bool, List, [], ◌∷◌, ◌++◌, Result, ok, err, Error, ◌>>=◌, Eq, ◌==◌, if◌then◌else◌,
}
use ethereum_testnet_bootstr.Base.Dict.{Dict, insert}
use ethereum_testnet_bootstr.Config.Environment.{join_apis}
use ethereum_testnet_bootstr.Requests.{
  Outcome, response, exception, nothing, perform_batched_request,
}

module _ {C : Type 0} ⦃ec : Eq C⦄ where
  -- The instances whose APIs the search finds.
  unfoldable pub el_clients_to_pair : (String → Bool) → (C → List String) → List C → List C
  el_clients_to_pair search http_apis [] = []
  el_clients_to_pair search http_apis (c ∷ cs) =
      let rest = el_clients_to_pair search http_apis cs in
      if search (join_apis (http_apis c)) then c ∷ rest else rest

  -- The loop over the results of `admin_nodeInfo`, which ends at the first exception.
  unfoldable pub fetch_enodes :
      Dict C (Outcome String Error) → Dict C String → Result (Dict C String)
  fetch_enodes [] enodes = ok enodes
  fetch_enodes ((c, response enode) ∷ results) enodes = fetch_enodes results (insert c enode enodes)
  fetch_enodes ((c, exception x) ∷ results) enodes = err x
  fetch_enodes ((c, nothing) ∷ results) enodes = err (Error.attribute_error "json")

  -- The requests that were made for one peer: the peer, the client that was asked to add it, and the enode
  -- that the client was given.
  unfoldable pub add_peer :
      {R : Type 0}
      → (String → C → Outcome R Error)
      → C
      → String
      → List C
      → Result (List (C × C × String))
  add_peer ask el_peer enode [] = ok []
  add_peer ask el_peer enode (c ∷ cs) =
      let rest = add_peer ask el_peer enode cs in
      if c == el_peer then rest else elim (ask enode c) [
        | exception x ↦ err x
        | other ↦ (rest >>= λ added. ok ((el_peer, c, enode) ∷ added))
      ]

  unfoldable pub add_peers :
      {R : Type 0}
      → (String → C → Outcome R Error)
      → List C
      → Dict C String
      → Result (List (C × C × String))
  add_peers ask clients [] = ok []
  add_peers ask clients ((el_peer, enode) ∷ enodes) =
      add_peer ask el_peer enode clients >>= λ added.
      add_peers ask clients enodes >>= λ later. ok (added ++ later)

  -- `_pair_execution_clients`, as the list of the pairs that were made, each with the enode.
  unfoldable pub pair_execution_clients :
      {R : Type 0}
      → (String → Bool)
      → (C → List String)
      → (C → Outcome String Error)
      → (String → C → Outcome R Error)
      → List C
      → Result (List (C × C × String))
  unfolding el_clients_to_pair
  pair_execution_clients search http_apis node_info ask instances =
      perform_batched_request node_info (el_clients_to_pair search http_apis instances)
      >>= λ results. fetch_enodes results [] >>= λ enodes.
          add_peers ask (el_clients_to_pair search http_apis instances) enodes
