-- ===== src/Examples/Pairing.antt =====
-- A run of the pairing of execution clients (src/testnet_bootstrapper.py).
use ethereum_testnet_bootstr.Base.{
  ℕ, ◌≡◌, refl, String, Bool, true, List, [], ◌∷◌, Result, ok, Error, ◌==◌, nat_eq, string_eq,
  contains, if◌then◌else◌, ℕ_discrete,
}
use ethereum_testnet_bootstr.Requests.{Outcome, response, perform_batched_request, submit_all}
use ethereum_testnet_bootstr.Bootstrap.Pairing.{
  pair_execution_clients, el_clients_to_pair, fetch_enodes, add_peers, add_peer,
}
use ethereum_testnet_bootstr.Bootstrap.Pairing.Peers.{is_added, pair_execution_clients-is_added}

-- Three clients, of which the second has no admin API.
abbrev apis_of : ℕ → List String
apis_of c = if c == 1 then "eth" ∷ [] else "admin" ∷ []

abbrev enode_of : ℕ → Outcome String Error
enode_of c = response (if c == 0 then "enode-0" else "enode-2")

abbrev peered : String → ℕ → Outcome Bool Error
peered enode c = response true

abbrev paired : Result (List (ℕ × ℕ × String))
paired = pair_execution_clients (contains ("admin" ∷ [])) apis_of enode_of peered (0 ∷ 1 ∷ 2 ∷ [])

pairs : paired ≡ ok ((0, 2, "enode-0") ∷ (2, 0, "enode-2") ∷ [])
unfolding pair_execution_clients el_clients_to_pair fetch_enodes add_peers add_peer
    perform_batched_request submit_all ℕ_discrete string_eq
pairs = refl

pair_execution_clients-is_added_example :
    is_added {C = ℕ} 2 0 "enode-2" ((0, 2, "enode-0") ∷ (2, 0, "enode-2") ∷ []) ≡ true
unfolding el_clients_to_pair ℕ_discrete string_eq
pair_execution_clients-is_added_example =
    pair_execution_clients-is_added (contains ("admin" ∷ [])) apis_of enode_of peered
      (0 ∷ 1 ∷ 2 ∷ []) 2 0 "enode-2" pairs
