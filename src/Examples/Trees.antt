-- ===== src/Examples/Trees.antt =====
-- Runs of the tree of chains of src/fork_detector.py and of the requests' paths and getters
-- (src/etb/interfaces/client_request.py).
use ethereum_testnet_bootstr.Base.{
  ◌≡◌, refl, String, ◌&&◌, none, some, List, [], ◌∷◌, ok, err, Error, nat_eq, string_eq, ℕ_discrete,
  contains, if◌then◌else◌,
}
use ethereum_testnet_bootstr.Base.Dict.{Dict, keys, has_key}
use ethereum_testnet_bootstr.Base.Text.{text_length}
use ethereum_testnet_bootstr.ForkDetector.Tree.{
  ChainTree, leaf, branch, up_to_space, latest_parent, begins_with, is_in, is_child, put_by_length,
  sorted_by_length, find_parents, find_all_parents, unsynced_chains,
  calculate_real_forks_and_unsynced_children, single_chain, unique_chain, skipped_slots, syncing,
  recursive_print, print_chains, print_real_chains_and_unsynced_children,
}
use ethereum_testnet_bootstr.ForkDetector.Tree.Roots.{
  is_root, top_at, last_child, calculate_real_forks_and_unsynced_children-roots,
}
use ethereum_testnet_bootstr.Requests.{exception}
use ethereum_testnet_bootstr.Requests.Bodies.{
  exception_object, get_item, read, get_enode, get_peer_id,
}
use ethereum_testnet_bootstr.Requests.Payloads.{parameters, without_last, peers_path}
use ethereum_testnet_bootstr.Requests.Payloads.Peers.{expected_path, peers_path-expected_path}

-- The clients of three chains, of which each shorter one is contained in the longer ones.
abbrev groups : Dict String (List String)
groups = (" 1 ", "a" ∷ []) ∷ (" 3 2 1 ", "c" ∷ []) ∷ (" 2 1 ", "b" ∷ []) ∷ []

-- " 3 2 1 " has no child but " 2 1 ", whose child " 1 " stands below it.
abbrev tree : Dict String ChainTree
tree = (" 3 2 1 ", branch " 2 1 " (leaf " 1 ")) ∷ []

tree_of_groups : calculate_real_forks_and_unsynced_children groups ≡ tree
unfolding calculate_real_forks_and_unsynced_children sorted_by_length put_by_length text_length
    find_all_parents find_parents is_child is_in begins_with latest_parent up_to_space
    unsynced_chains string_eq ℕ_discrete
tree_of_groups = refl

prints :
    print_real_chains_and_unsynced_children groups tree (("c", 4 ∷ []) ∷ [])
    ≡ ok (
        single_chain
        ∷ unique_chain ("c" ∷ []) " 3 2 1 "
        ∷ skipped_slots (4 ∷ [])
        ∷ syncing "--------" " 2 " ("b" ∷ [])
        ∷ syncing "----------" " 1 " ("a" ∷ [])
        ∷ [])
unfolding print_real_chains_and_unsynced_children print_chains recursive_print latest_parent
    up_to_space string_eq ℕ_discrete
prints = refl

calculate_real_forks_and_unsynced_children-roots_example :
    let chains = keys groups in
    (has_key " 3 2 1 " (calculate_real_forks_and_unsynced_children groups)
      ≡ (contains chains " 3 2 1 " && is_root chains " 3 2 1 "))
    × (top_at " 3 2 1 " (calculate_real_forks_and_unsynced_children groups) ≡ (
        if contains chains " 3 2 1 " && is_root chains " 3 2 1 "
        then some
            (elim (last_child (sorted_by_length chains) " 3 2 1 " none) [ some d ↦ d | none ↦ "" ])
        else none))
calculate_real_forks_and_unsynced_children-roots_example =
    calculate_real_forks_and_unsynced_children-roots groups " 3 2 1 "

-- Of two chains below one, the tree keeps the last.
abbrev two_below : Dict String (List String)
two_below = (" 1 ", "a" ∷ []) ∷ (" 2 ", "b" ∷ []) ∷ (" 3 2 1 ", "c" ∷ []) ∷ []

one_is_kept : calculate_real_forks_and_unsynced_children two_below ≡ (" 3 2 1 ", leaf " 2 ") ∷ []
unfolding calculate_real_forks_and_unsynced_children sorted_by_length put_by_length text_length
    find_all_parents find_parents is_child is_in begins_with latest_parent up_to_space
    unsynced_chains string_eq ℕ_discrete
one_is_kept = refl

peers_path-expected_path_example :
    peers_path (some ("inbound" ∷ [])) (some ("connected" ∷ "connecting" ∷ []))
    ≡ expected_path (some ("inbound" ∷ [])) (some ("connected" ∷ "connecting" ∷ []))
peers_path-expected_path_example =
    peers_path-expected_path (some ("inbound" ∷ [])) (some ("connected" ∷ "connecting" ∷ []))

asked :
    peers_path (some ("inbound" ∷ [])) (some ("connected" ∷ "connecting" ∷ []))
    ≡ "/eth/v1/node/peers?state=connected&state=connecting&direction=inbound"
unfolding peers_path parameters without_last
asked = refl

reads_enode : get_enode (exception "refused") ≡ ok exception_object
unfolding read
reads_enode = refl

reads_peer_id : get_peer_id (exception "refused") ≡ err (Error.type_error "not subscriptable")
unfolding get_peer_id read get_item
reads_peer_id = refl
