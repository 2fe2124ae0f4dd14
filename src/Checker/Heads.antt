-- ===== src/Checker/Heads.antt =====
-- When `get_heads_status_check_slot` of src/antithesis_checker.py finds consensus.
use ethereum_testnet_bootstr.Base.{
  suc, ◌≤◌, ◌≡◌, ◌≢◌, ◌↔◌, inl, inr, refl, ap, sym, ◌∙◌, String, true, List, [], ◌∷◌, ◌++◌, length,
  length-append, All, Result, ok, ◌>>=◌, >>=-eq-ok, Option-cases, Eq, nat_eq, string_eq, arith,
}
use mathlib.Core.Path.{subst}
use ethereum_testnet_bootstr.Base.Dict.{Dict, lookup, insert}
use ethereum_testnet_bootstr.Base.Distinct.{AreDistinct}
use ethereum_testnet_bootstr.Requests.{
  Outcome, response, exception, nothing, perform_batched_request,
}
use ethereum_testnet_bootstr.Requests.Attempts.{asked, perform_batched_request-asked}
use ethereum_testnet_bootstr.Checker.{
  Block, Head, HeadStatusCheck, values, add_block, gather, get_heads_status_check_slot,
  found_consensus,
}

length-values : (heads : Dict String Head) → length (values heads) ≡ length heads
length-values [] = refl
length-values ((_, h) ∷ heads) = ap suc (length-values heads)

length-insert :
    (root : String) (h : Head) (heads : Dict String Head)
    → length heads ≤ length (insert root h heads)
length-insert root h [] = ground arith
length-insert root h ((r, g) ∷ heads) = ground (arith, length-insert root h heads)

-- The client answered with a block whose state root is this one.
abbrev pub Agrees : {X : Type 0} → String → Outcome Block X → Type 0
Agrees root (response block) = block.state_root ≡ root
Agrees root (exception _) = ⊥
Agrees root nothing = ⊥

add_block-insert :
    (decode : String → Result String) (name : String) (block : Block) (heads : Dict String Head)
    {heads' : Dict String Head}
    → add_block decode name block heads ≡ ok heads'
    → (h : Head) × (insert block.state_root h heads ≡ heads')
unfolding add_block
add_block-insert decode name block heads {heads'} p =
    elim (Option-cases (lookup block.state_root heads)) [
      | inr (head, q) ↦ (record head { nodes = head.nodes ++ (name ∷ []) }, ground (arith, p, q))
      | inl q ↦
          let made : String → Head = λ text. record {
            slot = block.slot;
            state_root = block.state_root;
            graffiti = text;
            nodes = name ∷ [];
          } in
          let chain : (decode block.graffiti >>= λ text.
          ok (insert block.state_root (made text) heads))
              ≡ ok heads' =
            ground (arith, p, q) in
          let (text, _, r) = >>=-eq-ok (decode block.graffiti) _ chain in
          (made text, ground (arith, r))
    ]

-- A second head is another entry, the same head is the same entry.
insert-same :
    (root new : String) (h g : Head) → new ≡ root → insert new g ((root, h) ∷ []) ≡ (root, g) ∷ []
insert-same root new h g p = ground (arith, p)

insert-other :
    (root new : String) (h g : Head)
    → new ≢ root
    → insert new g ((root, h) ∷ []) ≡ (root, h) ∷ (new, g) ∷ []
insert-other root new h g p = ground (arith, p)

found_consensus-counts :
    (un : List String) (heads : Dict String Head) {status : HeadStatusCheck}
    → ok (record { unreachable_clients = un; heads = values heads }) ≡ ok status
    → (found_consensus status ≡ true) ↔ ((length un ≡ 0) × (length heads ≡ 1))
unfolding found_consensus
found_consensus-counts un heads t =
    (λ f. ground (arith, f, t, length-values heads), λ f. ground (arith, f, t, length-values heads))

module _ {C X : Type 0} (name_of : C → String) (decode : String → Result String) where
  -- Neither list gets shorter.
  gather-grows :
      (results : Dict C (Outcome Block X)) (un : List String) (heads : Dict String Head)
      {un' : List String} {heads' : Dict String Head}
      → gather name_of decode results un heads ≡ ok (un', heads')
      → (length un ≤ length un') × (length heads ≤ length heads')
  unfolding gather
  gather-grows [] un heads p = ground arith
  gather-grows ((client, response block) ∷ results) un heads p =
      let (heads1, q, r) = >>=-eq-ok (add_block decode (name_of client) block heads) _ p in
      let (h, same) = add_block-insert decode (name_of client) block heads q in
      ground (arith, gather-grows results un heads1 r, length-insert block.state_root h heads, same)
  gather-grows ((client, exception x) ∷ results) un heads p = ground (
    arith,
    gather-grows results (un ++ (name_of client ∷ [])) heads p,
    length-append un (name_of client ∷ []),
  )
  gather-grows ((client, nothing) ∷ results) un heads p = ground arith

  gather-one :
      (results : Dict C (Outcome Block X)) (root : String) (h : Head) {un : List String}
      {heads : Dict String Head}
      → gather name_of decode results [] ((root, h) ∷ []) ≡ ok (un, heads)
      → ((length un ≡ 0) × (length heads ≡ 1)) ↔ All (λ (_, o). Agrees root o) results
  unfolding gather
  gather-one [] root h p = (λ q. tt, λ q. ground arith)
  gather-one ((client, response block) ∷ results) root h {un} {heads} p =
      let (heads1, q, r) =
        >>=-eq-ok (add_block decode (name_of client) block ((root, h) ∷ [])) _ p in
      let (g, inserted) = add_block-insert decode (name_of client) block ((root, h) ∷ []) q in
      elim (string_eq.dec block.state_root root) [
        | yes e ↦
            let one : heads1 ≡ (root, g) ∷ [] =
              sym inserted ∙ insert-same root block.state_root h g e in
            let r' : gather name_of decode results [] ((root, g) ∷ []) ≡ ok (un, heads) =
              ap (gather name_of decode results []) (sym one) ∙ r in
            let (there, back) = gather-one results root g r' in
            (λ agree. (e, there agree), λ all. back all.1)
        | no n ↦
            let two : heads1 ≡ (root, h) ∷ (block.state_root, g) ∷ [] =
              sym inserted ∙ insert-other root block.state_root h g n in
            let grows = gather-grows results [] heads1 r in
            (λ agree. ground (arith, grows, two, agree), λ all. ground (arith, all.0, n))
      ]
  gather-one ((client, exception x) ∷ results) root h p =
      let grows = gather-grows results (name_of client ∷ []) ((root, h) ∷ []) p in
      (λ q. ground (arith, grows, q), λ q. elim (q.0) [ ])
  gather-one ((client, nothing) ∷ results) root h p = (λ q. ground arith, λ q. ground arith)

  gather-first :
      (client : C) (o : Outcome Block X) (results : Dict C (Outcome Block X)) {un : List String}
      {heads : Dict String Head}
      → gather name_of decode ((client, o) ∷ results) [] [] ≡ ok (un, heads)
      → ((length un ≡ 0) × (length heads ≡ 1))
        ↔ ((root : String) × All (λ (_, o). Agrees root o) ((client, o) ∷ results))
  unfolding gather
  gather-first client (response block) results {un} {heads} p =
      let (heads1, q, r) = >>=-eq-ok (add_block decode (name_of client) block []) _ p in
      let (g, inserted) = add_block-insert decode (name_of client) block [] q in
      let r' : gather name_of decode results [] ((block.state_root, g) ∷ []) ≡ ok (un, heads) =
        ap (gather name_of decode results []) inserted ∙ r in
      let (there, back) = gather-one results block.state_root g r' in
      (
        λ agree. (block.state_root, (refl, there agree)),
        λ (root, (e, all)). back (subst (λ r. All (λ (_, o). Agrees r o) results) (sym e) all),
      )
  gather-first client (exception x) results p =
      let grows = gather-grows results (name_of client ∷ []) [] p in
      (λ q. ground (arith, grows, q), λ (_, (no_block, _)). elim no_block [ ])
  gather-first client nothing results p =
      (λ q. ground arith, λ (_, (no_block, _)). elim no_block [ ])

  All-asked :
      ⦃ec : Eq C⦄ (perform_request : C → Outcome Block X) (root : String) (cs : List C)
      → All (λ (_, o). Agrees root o) (asked perform_request cs)
        ↔ All (λ client. Agrees root (perform_request client)) cs
  All-asked perform_request root [] = (λ q. q, λ q. q)
  All-asked perform_request root (c ∷ cs) =
      let (there, back) = All-asked perform_request root cs in
      (λ (a, all). (a, there all), λ (a, all). (a, back all))

  -- With distinct clients, a check that returns finds consensus exactly when every client answered,
  -- and all with blocks of the same state root.
  pub found_consensus-Agrees :
      ⦃ec : Eq C⦄ (perform_request : C → Outcome Block X) (c : C) (cs : List C)
      {status : HeadStatusCheck}
      → AreDistinct (c ∷ cs)
      → get_heads_status_check_slot name_of decode perform_request (c ∷ cs) ≡ ok status
      → (found_consensus status ≡ true)
        ↔ ((root : String) × All (λ client. Agrees root (perform_request client)) (c ∷ cs))
  unfolding get_heads_status_check_slot found_consensus
  found_consensus-Agrees perform_request c cs distinct p =
      let (results, q, r) = >>=-eq-ok (perform_batched_request perform_request (c ∷ cs)) _ p in
      let all_asked = perform_batched_request-asked perform_request c cs distinct in
      let listed : results ≡ asked perform_request (c ∷ cs) = ground (arith, q, all_asked) in
      let ((un, heads), s, t) = >>=-eq-ok (gather name_of decode results [] []) _ r in
      let s' = ap (λ d. gather name_of decode d [] []) (sym listed) ∙ s in
      let (there, back) = gather-first c (perform_request c) (asked perform_request cs) s' in
      let (counted, counts) = found_consensus-counts un heads t in
      (
        λ f.
            let (root, all) = there (counted f) in
            (root, (All-asked perform_request root (c ∷ cs)).0 all),
        λ (root, all). counts (back (root, (All-asked perform_request root (c ∷ cs)).1 all)),
      )
