-- ===== src/Monitoring/Metrics/Agreement.antt =====
-- `_reached_consensus` and `order_results_by_consensus` of
-- src/etb/monitoring/monitors/consensus_monitors.py.
use mathlib.Core.List.{append_assoc, append-nil}
use ethereum_testnet_bootstr.Base.{
  ◌≡◌, refl, sym, ap, ◌∙◌, Option, none, some, List, [], ◌∷◌, ◌++◌, Eq, ◌==◌, arith, if◌then◌else◌,
}
use ethereum_testnet_bootstr.Base.Dict.{
  Dict, lookup, insert, NodupKeys, lookup-insert, insert-NodupKeys,
}
use ethereum_testnet_bootstr.Monitoring.Metrics.{
  Monitor, add_to_group, group_results, order_results_by_consensus,
}

-- A group behind the one that is there; an empty group is no entry.
abbrev joined : {C : Type 0} → Option (List C) → List C → Option (List C)
joined none [] = none
joined none (c ∷ cs) = some (c ∷ cs)
joined (some cs) ds = some (cs ++ ds)

joined-append :
    {C : Type 0} (o : Option (List C)) (xs ys : List C)
    → joined (joined o xs) ys ≡ joined o (xs ++ ys)
joined-append none [] ys = refl
joined-append none (x ∷ xs) ys = refl
joined-append (some cs) xs ys = ap some (append_assoc cs xs ys)

joined-none :
    {C : Type 0} (cs : List C) → joined none cs ≡ (elim cs [ [] ↦ none | c ∷ cs ↦ some (c ∷ cs) ])
joined-none [] = refl
joined-none (c ∷ cs) = refl

module _ {C A : Type 0} ⦃ec : Eq C⦄ ⦃ea : Eq A⦄ where
  -- The clients that gave a result, in the order of their answers.
  unfoldable pub clients_with : A → Dict C A → List C
  clients_with a [] = []
  clients_with a ((client, result) ∷ results) =
      let rest = clients_with a results in if a == result then client ∷ rest else rest

  -- The one entry that is set.
  pub add_to_group-insert :
      (client : C) (result : A) (groups : Dict A (List C)) (o : Option (List C))
      → lookup result groups ≡ o
      → (cs : List C) × (add_to_group client result groups ≡ insert result cs groups)
        × (joined o (client ∷ []) ≡ some cs)
  unfolding add_to_group
  add_to_group-insert client result groups none p = (client ∷ [], rw (add_to_group, p) refl, refl)
  add_to_group-insert client result groups (some cs) p =
      (cs ++ (client ∷ []), rw (add_to_group, p) refl, refl)

  lookup-add_to_group :
      (a : A) (client : C) (result : A) (groups : Dict A (List C))
      → lookup a (add_to_group client result groups)
        ≡ (if a == result then joined (lookup a groups) (client ∷ []) else lookup a groups)
  lookup-add_to_group a client result groups =
      let (cs, p, q) = add_to_group-insert client result groups (lookup result groups) refl in
      rw p (lookup-insert a result cs groups ∙ ground (arith, q))

  lookup-group_results :
      (a : A) (results : Dict C A) (groups : Dict A (List C))
      → lookup a (group_results results groups) ≡ joined (lookup a groups) (clients_with a results)
  unfolding group_results clients_with
  lookup-group_results a [] groups = elim (lookup a groups) as (λ o. o ≡ joined o []) [
    | none ↦ refl
    | some cs ↦ ap some (sym (append-nil cs))
  ]
  lookup-group_results a ((client, result) ∷ results) groups =
      let here = lookup-group_results a results (add_to_group client result groups) in
      let there = lookup-add_to_group a client result groups in
      let both = joined-append (lookup a groups) (client ∷ []) (clients_with a results) in
      here ∙ rw there ground (arith, both)

  add_to_group-NodupKeys :
      (client : C) (result : A) (groups : Dict A (List C))
      → NodupKeys groups
      → NodupKeys (add_to_group client result groups)
  add_to_group-NodupKeys client result groups u =
      let (cs, p, q) = add_to_group-insert client result groups (lookup result groups) refl in
      rw p (insert-NodupKeys result cs groups u)

  group_results-NodupKeys :
      (results : Dict C A) (groups : Dict A (List C))
      → NodupKeys groups
      → NodupKeys (group_results results groups)
  unfolding group_results
  group_results-NodupKeys [] groups u = u
  group_results-NodupKeys ((client, result) ∷ results) groups u =
      group_results-NodupKeys results (add_to_group client result groups)
        (add_to_group-NodupKeys client result groups u)

  pub group_results_lem :
      (results : Dict C A)
      → ((a : A)
          → lookup a (group_results results [])
            ≡ (elim (clients_with a results) [ [] ↦ none | c ∷ cs ↦ some (c ∷ cs) ]))
        × NodupKeys (group_results results [])
  group_results_lem results = (
    λ a. lookup-group_results a results [] ∙ joined-none (clients_with a results),
    group_results-NodupKeys results [] tt,
  )

  -- What `order_results_by_consensus` returns maps each value to the clients that gave it, in the
  -- order of their answers, has no entry for a value that no client gave, and lists no value twice.
  pub order_results_by_consensus_lem :
      (m : Monitor C A)
      → ((a : A)
          → lookup a (order_results_by_consensus m)
            ≡ (elim (clients_with a m.results) [ [] ↦ none | c ∷ cs ↦ some (c ∷ cs) ]))
        × NodupKeys (order_results_by_consensus m)
  unfolding order_results_by_consensus
  order_results_by_consensus_lem m = group_results_lem m.results
