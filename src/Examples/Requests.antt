-- ===== src/Examples/Requests.antt =====
-- Runs of the requests, of the checks of the heads and of the fork detector
-- (src/etb/interfaces/client_request.py, src/antithesis_checker.py, src/fork_detector.py).
use ethereum_testnet_bootstr.Base.{
  ℕ, ◌≡◌, ◌↔◌, refl, String, Bool, true, false, some, List, [], ◌∷◌, All, ok, ◌==◌, nat_eq,
  string_eq, if◌then◌else◌, ℕ_discrete,
}
use ethereum_testnet_bootstr.Base.Dict.{lookup}
use ethereum_testnet_bootstr.Base.Text.{str, digits_onto, digit_char}
use ethereum_testnet_bootstr.Requests.{
  Outcome, RpcResponse, response, exception, read_rpc, execution_perform_request,
  perform_batched_request, attempts, submit_all,
}
use ethereum_testnet_bootstr.Requests.Attempts.{EndsWith, execution_perform_request-EndsWith}
use ethereum_testnet_bootstr.Checker.{
  Block, HeadStatusCheck, get_heads_status_check_slot, gather, add_block, found_consensus,
  check_for_consensus,
}
use ethereum_testnet_bootstr.Checker.Heads.{Agrees, found_consensus-Agrees}
use ethereum_testnet_bootstr.Checker.Consensus.{
  FirstConsensus, backoff, check_for_consensus-FirstConsensus,
}
use ethereum_testnet_bootstr.ForkDetector.{
  Chain, rehash_parent_hash, rehash_chains, rehash_links, rehash,
  calculate_slots_skipped_by_all_clients,
}
use ethereum_testnet_bootstr.ForkDetector.Hashes.{AreRehashed, rehash_parent_hash-AreRehashed}
use ethereum_testnet_bootstr.ForkDetector.Slots.{
  chain_of, is_skipped, missed_in, calculate_slots_skipped-is_missed,
}

-- The first attempt has an error in its body, the second cannot connect, the third answers.
abbrev send : ℕ → Outcome (RpcResponse ℕ String) String
send i =
    if i == 0
    then response (record { body = 0; error = "not ready" ∷ [] })
    else if i == 1
    then exception "refused"
    else response (record { body = 42; error = [] })

third : execution_perform_request "unknown" send 5 ≡ (response 42, 2)
unfolding execution_perform_request attempts ℕ_discrete
third = refl

execution_perform_request-EndsWith_example :
    EndsWith (λ i. read_rpc (send i)) 0 4 (execution_perform_request "unknown" send 5)
execution_perform_request-EndsWith_example = execution_perform_request-EndsWith "unknown" send 4

abbrev block : Block
block = record { slot = "9"; state_root = "0xaa"; graffiti = "gg" }

abbrev heads_request : ℕ → Outcome Block String
heads_request c = if c == 3 then exception "timeout" else response block

abbrev status : HeadStatusCheck
status = record {
  unreachable_clients = "3" ∷ [];
  heads = record { slot = "9"; state_root = "0xaa"; graffiti = "gg"; nodes = "1" ∷ "2" ∷ [] } ∷ [];
}

checked : get_heads_status_check_slot str (λ s. ok s) heads_request (1 ∷ 3 ∷ 2 ∷ []) ≡ ok status
unfolding get_heads_status_check_slot gather add_block perform_batched_request submit_all ℕ_discrete
    string_eq str digits_onto digit_char
checked = refl

found_consensus-Agrees_example :
    (found_consensus status ≡ true)
    ↔ ((root : String) × All (λ c. Agrees root (heads_request c)) (1 ∷ 3 ∷ 2 ∷ []))
unfolding ℕ_discrete
found_consensus-Agrees_example =
    found_consensus-Agrees str (λ s. ok s) heads_request 1 (3 ∷ 2 ∷ []) (refl, (refl, (refl, tt)))
      checked

abbrev no_head : HeadStatusCheck
no_head = record { unreachable_clients = []; heads = [] }

abbrev one_head : HeadStatusCheck
one_head = record {
  unreachable_clients = [];
  heads = record { slot = "9"; state_root = "0xaa"; graffiti = "gg"; nodes = "1" ∷ [] } ∷ [];
}

abbrev statuses : ℕ → HeadStatusCheck
statuses i = if i == 2 then one_head else no_head

check_for_consensus-FirstConsensus_example :
    (k : ℕ) × (found : Bool) × (check_for_consensus (λ n. ok (statuses n)) 3
      ≡ ok (found, backoff 1 k))
    × FirstConsensus statuses 3 0 k found
check_for_consensus-FirstConsensus_example = check_for_consensus-FirstConsensus statuses 3

abbrev chains : List (Chain String)
chains =
    ("geth", ("0xa", "4") ∷ ("0xb", "2") ∷ []) ∷ ("besu", ("0xb", "3") ∷ ("0xc", "1") ∷ []) ∷ []

rehashed :
    (rehash_parent_hash chains).0
    ≡ ("geth", (1, "4") ∷ (2, "2") ∷ []) ∷ ("besu", (2, "3") ∷ (3, "1") ∷ []) ∷ []
unfolding rehash_parent_hash rehash_chains rehash_links rehash string_eq
rehashed = refl

rehash_parent_hash-AreRehashed_example :
    AreRehashed (rehash_parent_hash chains).1 chains (rehash_parent_hash chains).0
    × ((h g : String) (n : ℕ)
        → lookup h (rehash_parent_hash chains).1 ≡ some n
        → lookup g (rehash_parent_hash chains).1 ≡ some n
        → h ≡ g)
rehash_parent_hash-AreRehashed_example = rehash_parent_hash-AreRehashed chains

calculate_slots_skipped-is_missed_example :
    is_skipped (calculate_slots_skipped_by_all_clients chains 4 []) "geth" 3
    ≡ missed_in false (chain_of "geth" chains) 4 3
calculate_slots_skipped-is_missed_example = calculate_slots_skipped-is_missed chains 4 "geth" 3
