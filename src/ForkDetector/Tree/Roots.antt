-- ===== src/ForkDetector/Tree/Roots.antt =====
-- Which chains are the roots of the tree of src/fork_detector.py, and what stands below them.
use mathlib.Core.List.{append-nil, append_assoc}
use ethereum_testnet_bootstr.Base.{
  ◌≡◌, refl, sym, ap, ◌∙◌, String, Bool, true, false, not, ◌&&◌, ◌||◌, Option, none, some, List, [],
  ◌∷◌, ◌++◌, ◌==◌, string_eq, contains, if◌then◌else◌, arith, Bool-cases, inl, inr,
}
use ethereum_testnet_bootstr.Base.Dict.{Dict, keys, has_key, lookup, insert, lookup-insert}
use ethereum_testnet_bootstr.ForkDetector.Tree.{
  ChainTree, leaf, branch, is_child, tree_of, find_parents, find_all_parents, unsynced_chains,
  tree_below, put_by_length, sorted_by_length, calculate_real_forks_and_unsynced_children,
}

-- Whether the latest parent of the chain is in none of these chains, itself left out.
abbrev pub is_root : List String → String → Bool
is_root [] c = true
is_root (d ∷ ds) c = not (is_child c d) && is_root ds c

contains-put_by_length :
    (c : String) (ds : List String) (x : String)
    → contains (put_by_length c ds) x ≡ (x == c || contains ds x)
unfolding put_by_length
contains-put_by_length c [] x = refl
contains-put_by_length c (d ∷ ds) x = ground (arith, contains-put_by_length c ds x)

contains-sorted_by_length :
    (cs : List String) (x : String) → contains (sorted_by_length cs) x ≡ contains cs x
unfolding sorted_by_length
contains-sorted_by_length [] x = refl
contains-sorted_by_length (c ∷ cs) x =
    ground (arith, contains-sorted_by_length cs x, contains-put_by_length c (sorted_by_length cs) x)

-- The inner loop clears the flag where it finds a chain that has the latest parent.
find_parents-is_root :
    (c : String) (chains : List String) (forks : Dict String ChainTree) (flag : Bool)
    → (find_parents c chains forks flag).1 ≡ (is_root chains c && flag)
unfolding find_parents
find_parents-is_root c [] forks flag = refl
find_parents-is_root c (d ∷ chains) forks flag = elim (Bool-cases (is_child c d)) [
  | inl child ↦
      ground (arith, child, find_parents-is_root c chains (insert d (tree_of c forks) forks) false)
  | inr other ↦ ground (arith, other, find_parents-is_root c chains forks flag)
]

-- The roots among the chains, in their order.
abbrev pub roots_of : List String → List String → List String
roots_of all [] = []
roots_of all (c ∷ chains) =
    let rest = roots_of all chains in if is_root all c then c ∷ rest else rest

find_all_parents-roots_of :
    (all chains : List String) (forks : Dict String ChainTree) (parents : List String)
    → (find_all_parents all chains forks parents).1 ≡ parents ++ roots_of all chains
unfolding find_all_parents
find_all_parents-roots_of all [] forks parents = sym (append-nil parents)
find_all_parents-roots_of all (c ∷ chains) forks parents =
    let (forks', flag) = find_parents c all forks true in
    ground (
      arith,
      find_parents-is_root c all forks true,
      find_all_parents-roots_of all chains forks' parents,
      find_all_parents-roots_of all chains forks' (parents ++ (c ∷ [])),
      append_assoc parents (c ∷ []) (roots_of all chains),
    )

contains-roots_of :
    (all chains : List String) (c : String)
    → contains (roots_of all chains) c ≡ (contains chains c && is_root all c)
contains-roots_of all [] c = refl
contains-roots_of all (d ∷ chains) c = ground (arith, contains-roots_of all chains c)

lookup-unsynced_chains :
    (forks : Dict String ChainTree) (parents : List String) (tree : Dict String ChainTree)
    (c : String)
    → lookup c (unsynced_chains forks parents tree)
      ≡ (if contains parents c then some (tree_below forks c) else lookup c tree)
unfolding unsynced_chains
lookup-unsynced_chains forks [] tree c = refl
lookup-unsynced_chains forks (p ∷ parents) tree c = ground (
  arith,
  lookup-unsynced_chains forks parents (insert p (tree_below forks p) tree) c,
  lookup-insert c p (tree_below forks p) tree,
)

is_root-put_by_length :
    (c : String) (ds : List String) (x : String)
    → is_root (put_by_length c ds) x ≡ (not (is_child x c) && is_root ds x)
unfolding put_by_length
is_root-put_by_length c [] x = refl
is_root-put_by_length c (d ∷ ds) x = ground (arith, is_root-put_by_length c ds x)

is_root-sorted_by_length :
    (cs : List String) (x : String) → is_root (sorted_by_length cs) x ≡ is_root cs x
unfolding sorted_by_length
is_root-sorted_by_length [] x = refl
is_root-sorted_by_length (c ∷ cs) x =
    ground (arith, is_root-sorted_by_length cs x, is_root-put_by_length c (sorted_by_length cs) x)

-- The chain at the top of a tree.
abbrev pub top : ChainTree → String
top (leaf c) = c
top (branch c _) = c

abbrev pub top_at : String → Dict String ChainTree → Option String
top_at c forks = elim (lookup c forks) [ none ↦ none | some t ↦ some (top t) ]

-- The last of the chains whose latest parent is in `c`, or what is given where there is none.
abbrev pub last_child : List String → String → Option String → Option String
last_child [] c before = before
last_child (d ∷ ds) c before = last_child ds c (if is_child d c then some d else before)

top_at-insert :
    (x d c : String) (forks : Dict String ChainTree)
    → top_at x (insert d (tree_of c forks) forks) ≡ (if x == d then some c else top_at x forks)
top_at-insert x d c forks = ground (arith, lookup-insert x d (tree_of c forks) forks)

top_at-find_parents :
    (c : String) (chains : List String) (forks : Dict String ChainTree) (flag : Bool) (x : String)
    → top_at x (find_parents c chains forks flag).0
      ≡ (if contains chains x && is_child c x then some c else top_at x forks)
unfolding find_parents
top_at-find_parents c [] forks flag x = refl
top_at-find_parents c (d ∷ chains) forks flag x = elim (Bool-cases (is_child c d)) [
  | inl child ↦
      let forks' = insert d (tree_of c forks) forks in
      ground (arith, child, top_at-find_parents c chains forks' false x, top_at-insert x d c forks)
  | inr other ↦ ground (arith, other, top_at-find_parents c chains forks flag x)
]

top_at-find_all_parents :
    (all chains : List String) (forks : Dict String ChainTree) (parents : List String) (x : String)
    → contains all x ≡ true
    → top_at x (find_all_parents all chains forks parents).0 ≡ last_child chains x (top_at x forks)
unfolding find_all_parents
top_at-find_all_parents all [] forks parents x h = refl
top_at-find_all_parents all (c ∷ chains) forks parents x h =
    let (forks', flag) = find_parents c all forks true in
    top_at-find_all_parents all chains forks' (if flag then parents ++ (c ∷ []) else parents) x h
    ∙ ap (last_child chains x) (ground (arith, h, top_at-find_parents c all forks true x))

pub calculate_real_forks_and_unsynced_children-roots :
    (groups : Dict String (List String)) (c : String)
    → let tree = calculate_real_forks_and_unsynced_children groups in
      let chains = keys groups in
      (has_key c tree ≡ (contains chains c && is_root chains c))
      × (top_at c tree ≡ (
          if contains chains c && is_root chains c
          then some (elim (last_child (sorted_by_length chains) c none) [ some d ↦ d | none ↦ "" ])
          else none))
unfolding calculate_real_forks_and_unsynced_children
calculate_real_forks_and_unsynced_children-roots groups c =
    let chains = sorted_by_length (keys groups) in
    let (forks, parents) = find_all_parents chains chains [] [] in
    let same : contains parents c ≡ (contains (keys groups) c && is_root (keys groups) c) = ground (
      arith,
      find_all_parents-roots_of chains chains [] [],
      contains-roots_of chains chains c,
      contains-sorted_by_length (keys groups) c,
      is_root-sorted_by_length (keys groups) c,
    ) in
    let found = lookup-unsynced_chains forks parents [] c in
    (
      ground (arith, same, found),
      elim (Bool-cases (contains parents c)) [
        | inl root ↦
            let is_chain : contains chains c ≡ true =
              ground (arith, root, same, contains-sorted_by_length (keys groups) c) in
            ground
              (arith, root, same, found, top_at-find_all_parents chains chains [] [] c is_chain)
        | inr other ↦ ground (arith, other, same, found)
      ],
    )
