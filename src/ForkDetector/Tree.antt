-- ===== src/ForkDetector/Tree.antt =====
-- `calculate_real_forks_and_unsynced_children` and `print_real_chains_and_unsynced_children` of
-- src/fork_detector.py. A chain is the text that `stringify_data` makes of it.
pub mod Roots
use Prim.Native.Char.{Char, code}
use Prim.Native.String
use ethereum_testnet_bootstr.Base.{
  ℕ, zero, suc, ◌+◌, String, ◌<>◌, Bool, true, false, not, ◌&&◌, ◌||◌, Option, none, some, List, [],
  ◌∷◌, ◌++◌, Result, ok, err, Error, ◌>>=◌, or_raise, ◌==◌, nat_eq, string_eq, leb, if◌then◌else◌,
}
use ethereum_testnet_bootstr.Base.Text.{text_length}
use ethereum_testnet_bootstr.Base.Dict.{Dict, keys, lookup, insert}

-- The characters up to the first space, that space included, if there is one.
unfoldable pub up_to_space : String → Option String
up_to_space String.[] = none
up_to_space (String.◌∷◌ c s) = elim (code c == b' ') [
  | true ↦ some " "
  | false ↦ elim (up_to_space s) [ none ↦ none | some w ↦ some (String.◌∷◌ c w) ]
]

-- `c1[start:end]`: what stands from the first space to the second, or the empty text where there are
-- not two.
unfoldable pub latest_parent : String → String
latest_parent String.[] = ""
latest_parent (String.◌∷◌ c s) = elim (code c == b' ') [
  | true ↦ elim (up_to_space s) [ none ↦ "" | some w ↦ " " <> w ]
  | false ↦ latest_parent s
]

-- Whether the second text begins with the first.
unfoldable pub begins_with : String → String → Bool
begins_with String.[] s = true
begins_with (String.◌∷◌ c w) String.[] = false
begins_with (String.◌∷◌ c w) (String.◌∷◌ d s) = code c == code d && begins_with w s

-- `w in s`
unfoldable pub is_in : String → String → Bool
is_in w String.[] = begins_with w ""
is_in w (String.◌∷◌ c s) = begins_with w (String.◌∷◌ c s) || is_in w s

-- `sorted(chains, key=lambda x: len(x))`: a chain comes in front of the first that is longer.
unfoldable pub put_by_length : String → List String → List String
put_by_length c [] = c ∷ []
put_by_length c (d ∷ ds) =
    let behind = put_by_length c ds in
    if leb (text_length c) (text_length d) then c ∷ d ∷ ds else d ∷ behind

unfoldable pub sorted_by_length : List String → List String
sorted_by_length [] = []
sorted_by_length (c ∷ cs) = put_by_length c (sorted_by_length cs)

-- A value of `real_forks`: a chain, or a dict with one chain and its value.
pub data ChainTree : Type 0 where
  leaf : String → ChainTree
  branch : String → ChainTree → ChainTree

-- The test of the inner loop.
unfoldable pub is_child : String → String → Bool
is_child c1 c2 =
    not (c1 == c2) && (not (c1 == "") && (not (c2 == "") && is_in (latest_parent c1) c2))

-- `{c1: real_forks[c1]}` or `c1`
abbrev pub tree_of : String → Dict String ChainTree → ChainTree
tree_of c1 real_forks = elim (lookup c1 real_forks) [
  | some below ↦ branch c1 below
  | none ↦ leaf c1
]

-- The inner loop, with the flag `c1_is_parent`.
unfoldable pub find_parents :
    String → List String → Dict String ChainTree → Bool → Dict String ChainTree × Bool
find_parents c1 [] real_forks c1_is_parent = (real_forks, c1_is_parent)
find_parents c1 (c2 ∷ chains) real_forks c1_is_parent = elim (is_child c1 c2) [
  | true ↦ find_parents c1 chains (insert c2 (tree_of c1 real_forks) real_forks) false
  | false ↦ find_parents c1 chains real_forks c1_is_parent
]

-- The outer loop over the chains that are left, with all chains for the inner.
unfoldable pub find_all_parents :
    List String
    → List String
    → Dict String ChainTree
    → List String
    → Dict String ChainTree × List String
find_all_parents all [] real_forks parents = (real_forks, parents)
find_all_parents all (c1 ∷ chains) real_forks parents =
    let (real_forks', c1_is_parent) = find_parents c1 all real_forks true in
    find_all_parents all chains real_forks' (if c1_is_parent then parents ++ (c1 ∷ []) else parents)

-- The tree of a parent, `""` where it has no children.
abbrev pub tree_below : Dict String ChainTree → String → ChainTree
tree_below real_forks p = elim (lookup p real_forks) [ some t ↦ t | none ↦ leaf "" ]

unfoldable pub unsynced_chains :
    Dict String ChainTree → List String → Dict String ChainTree → Dict String ChainTree
unsynced_chains real_forks [] tree = tree
unsynced_chains real_forks (p ∷ parents) tree =
    unsynced_chains real_forks parents (insert p (tree_below real_forks p) tree)

unfoldable pub calculate_real_forks_and_unsynced_children :
    Dict String (List String) → Dict String ChainTree
calculate_real_forks_and_unsynced_children str_parents_to_clients =
    let chains = sorted_by_length (keys str_parents_to_clients) in
    let (real_forks, parents) = find_all_parents chains chains [] [] in
    unsynced_chains real_forks parents []

-- The lines that are printed.
pub data Line : Type 0 where
  single_chain : Line
  multiple_unique_chains : Line
  unique_chain : (clients : List String) → (chain : String) → Line
  skipped_slots : List ℕ → Line
  syncing : (level : String) → (latest : String) → (clients : List String) → Line

module _ (str_parents_to_clients : Dict String (List String)) where
  -- `str_parents_to_clients[chain]`
  abbrev pub clients_of : String → Result (List String)
  clients_of chain = or_raise (lookup chain str_parents_to_clients) (Error.key_error chain)

  unfoldable pub recursive_print : ChainTree → String → Result (List Line)
  recursive_print (leaf chain) level =
      if chain == ""
      then ok []
      else (clients_of chain >>= λ clients. ok (syncing level (latest_parent chain) clients ∷ []))
  recursive_print (branch chain below) level = clients_of chain >>= λ clients.
      recursive_print below (level <> "--") >>= λ lines.
      ok (syncing level (latest_parent chain) clients ∷ lines)

  -- `clients[0]`
  abbrev pub first_of : List String → Result String
  first_of [] = err Error.index_error
  first_of (client ∷ _) = ok client

  unfoldable pub print_chains : Dict String (List ℕ) → Dict String ChainTree → Result (List Line)
  print_chains clients_to_skipped_slots [] = ok []
  print_chains clients_to_skipped_slots ((chain, below) ∷ tree) = do
    clients ← clients_of chain
    first ← first_of clients
    slots ← or_raise (lookup first clients_to_skipped_slots) (Error.key_error first)
    children ← recursive_print below "--------"
    rest ← print_chains clients_to_skipped_slots tree
    ok (unique_chain clients chain ∷ skipped_slots slots ∷ (children ++ rest))

  abbrev pub headline : Dict String ChainTree → List Line
  headline [] = []
  headline (_ ∷ []) = single_chain ∷ []
  headline (_ ∷ _ ∷ _) = multiple_unique_chains ∷ []

  unfoldable pub print_real_chains_and_unsynced_children :
      Dict String ChainTree → Dict String (List ℕ) → Result (List Line)
  print_real_chains_and_unsynced_children tree clients_to_skipped_slots =
      print_chains clients_to_skipped_slots tree >>= λ lines. ok (headline tree ++ lines)
