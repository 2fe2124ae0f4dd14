-- ===== src/Bootstrap/Pairing/Peers.antt =====
-- Which clients are made peers (src/testnet_bootstrapper.py).
use ethereum_testnet_bootstr.Base.{
  ◌≡◌, refl, sym, ap, ◌∙◌, arith, String, string_eq, Option, none, some, Bool, true, false, not,
  ◌&&◌, ◌||◌, List, [], ◌∷◌, ◌++◌, Result, ok, err, Error, ◌>>=◌, >>=-eq-ok, Eq, ◌==◌, contains,
  Bool-cases, inl, inr, if◌then◌else◌,
}
use ethereum_testnet_bootstr.Base.Dict.{
  Dict, insert, lookup, lookup-insert, NodupKeys, insert-NodupKeys,
}
use ethereum_testnet_bootstr.Requests.{
  Outcome, response, exception, nothing, perform_batched_request, submit_all,
}
use ethereum_testnet_bootstr.Bootstrap.Pairing.{
  el_clients_to_pair, fetch_enodes, add_peer, add_peers, pair_execution_clients,
}

if-true :
    {A : Type 0} (t : Bool) (x y : Result A) {l : A}
    → t ≡ true
    → (if t then x else y) ≡ ok l
    → x ≡ ok l
if-true true x y p h = h
if-true false x y p h = cc

if-false :
    {A : Type 0} (t : Bool) (x y : Result A) {l : A}
    → t ≡ false
    → (if t then x else y) ≡ ok l
    → y ≡ ok l
if-false true x y p h = cc
if-false false x y p h = h

-- The enode that an answer has.
abbrev pub enode_in : Outcome String Error → Option String
enode_in (response enode) = some enode
enode_in _ = none

-- The enode among answers, or else what there was before.
abbrev enode_or : Option (Outcome String Error) → Option String → Option String
enode_or none before = before
enode_or (some o) before = enode_in o

-- The enode is the one that is there.
abbrev pub is_enode : String → Option String → Bool
is_enode e none = false
is_enode e (some enode) = e == enode

module _ {C : Type 0} ⦃ec : Eq C⦄ where
  -- The client was asked to add the peer, with this enode.
  abbrev pub is_added : C → C → String → List (C × C × String) → Bool
  is_added peer client enode [] = false
  is_added peer client enode ((p, c, e) ∷ added) =
      (peer == p && client == c && enode == e) || is_added peer client enode added

  is_added-append :
      (a b : C) (e : String) (xs ys : List (C × C × String))
      → is_added a b e (xs ++ ys) ≡ (is_added a b e xs || is_added a b e ys)
  is_added-append a b e [] ys = refl
  is_added-append a b e ((p, c, e') ∷ xs) ys = ground (arith, is_added-append a b e xs ys)

  -- The answers behind a batch.
  submit_all-lookup :
      {O : Type 0} (f : C → O) (a : C) (cs : List C) (results : Dict C O)
      → lookup a (submit_all f cs results)
        ≡ (if contains cs a then some (f a) else lookup a results)
  unfolding submit_all
  submit_all-lookup f a [] results = refl
  submit_all-lookup f a (c ∷ cs) results =
      let later = submit_all-lookup f a cs (insert c (f c) results) in
      elim (Bool-cases (a == c)) [
        | inl same ↦
            let it : a ≡ c = ground (arith, same) in
            let same_answer : f a ≡ f c = ap f it in
            ground (arith, same, same_answer, later, lookup-insert a c (f c) results)
        | inr other ↦ ground (arith, other, later, lookup-insert a c (f c) results)
      ]

  submit_all-NodupKeys :
      {O : Type 0} (f : C → O) (cs : List C) (results : Dict C O)
      → NodupKeys results
      → NodupKeys (submit_all f cs results)
  unfolding submit_all
  submit_all-NodupKeys f [] results u = u
  submit_all-NodupKeys f (c ∷ cs) results u =
      submit_all-NodupKeys f cs (insert c (f c) results) (insert-NodupKeys c (f c) results u)

  batch-lookup :
      {O : Type 0} (f : C → O) (a : C) (cs : List C) {results : Dict C O}
      → perform_batched_request f cs ≡ ok results
      → (lookup a results ≡ (if contains cs a then some (f a) else none)) × NodupKeys results
  unfolding perform_batched_request
  batch-lookup f a [] h = cc
  batch-lookup f a (c ∷ cs) {results} h =
      let same : submit_all f (c ∷ cs) [] ≡ results = ground (arith, h) in
      (
        ap (lookup a) (sym same) ∙ submit_all-lookup f a (c ∷ cs) [],
        rw (sym same) (submit_all-NodupKeys f (c ∷ cs) [] tt),
      )

  fetch_enodes-lookup :
      (a : C) (results : Dict C (Outcome String Error)) (enodes : Dict C String) {d : Dict C String}
      → NodupKeys results
      → NodupKeys enodes
      → fetch_enodes results enodes ≡ ok d
      → (lookup a d ≡ enode_or (lookup a results) (lookup a enodes)) × NodupKeys d
  unfolding fetch_enodes
  fetch_enodes-lookup a [] enodes {d} u v h =
      let same : enodes ≡ d = ground (arith, h) in (ap (lookup a) (sym same), rw (sym same) v)
  fetch_enodes-lookup a ((c, response enode) ∷ results) enodes u v h =
      let (later, w) =
        fetch_enodes-lookup a results (insert c enode enodes) u.1
          (insert-NodupKeys c enode enodes v) h in
      (
        elim (Bool-cases (a == c)) [
          | inl same ↦
              let it : a ≡ c = ground (arith, same) in
              let fresh : lookup a results ≡ none = rw it u.0 in
              ground (arith, same, fresh, later, lookup-insert a c enode enodes)
          | inr other ↦ ground (arith, other, later, lookup-insert a c enode enodes)
        ],
        w,
      )
  fetch_enodes-lookup a ((c, exception x) ∷ results) enodes u v h = cc
  fetch_enodes-lookup a ((c, nothing) ∷ results) enodes u v h = cc

  module _ {R : Type 0} (ask : String → C → Outcome R Error) where
    -- One more client is given the peer's enode.
    add_one :
        (a b p c : C) (e enode : String) (o : Outcome R Error) (cs : List C)
        (rest : Result (List (C × C × String))) {l : List (C × C × String)}
        → (c == p) ≡ false
        → ((l' : List (C × C × String))
            → rest ≡ ok l'
            → is_added a b e l' ≡ (a == p && contains cs b && not (b == p) && e == enode))
        → elim o [ exception x ↦ err x | other ↦ (rest >>= λ added. ok ((p, c, enode) ∷ added)) ]
          ≡ ok l
        → is_added a b e l ≡ (a == p && contains (c ∷ cs) b && not (b == p) && e == enode)
    add_one a b p c e enode (response r) cs rest other ih h =
        let (l', made, same) = >>=-eq-ok rest _ h in ground (arith, ih l' made)
    add_one a b p c e enode (exception x) cs rest other ih h = cc
    add_one a b p c e enode nothing cs rest other ih h =
        let (l', made, same) = >>=-eq-ok rest _ h in ground (arith, ih l' made)

    add_peer-is_added :
        (a b p : C) (e enode : String) (cs : List C) {l : List (C × C × String)}
        → add_peer ask p enode cs ≡ ok l
        → is_added a b e l ≡ (a == p && contains cs b && not (b == p) && e == enode)
    unfolding add_peer
    add_peer-is_added a b p e enode [] h = ground arith
    add_peer-is_added a b p e enode (c ∷ cs) h = elim (Bool-cases (c == p)) [
      | inl same ↦
          (let old = add_peer-is_added a b p e enode cs (if-true (c == p) _ _ same h) in
            ground arith)
      | inr other ↦
          add_one a b p c e enode (ask enode c) cs (add_peer ask p enode cs) other
            (λ l' made. add_peer-is_added a b p e enode cs made) (if-false (c == p) _ _ other h)
    ]

    add_peers-is_added :
        (a b : C) (e : String) (cs : List C) (enodes : Dict C String) {l : List (C × C × String)}
        → NodupKeys enodes
        → add_peers ask cs enodes ≡ ok l
        → is_added a b e l ≡ (is_enode e (lookup a enodes) && contains cs b && not (b == a))
    unfolding add_peers
    add_peers-is_added a b e cs [] u h = ground arith
    add_peers-is_added a b e cs ((p, enode) ∷ enodes) u h =
        let (added, first, h1) = >>=-eq-ok (add_peer ask p enode cs) _ h in
        let (later, second, same) = >>=-eq-ok (add_peers ask cs enodes) _ h1 in
        let rest = add_peers-is_added a b e cs enodes u.1 second in
        let one = add_peer-is_added a b p e enode cs first in
        let both = is_added-append a b e added later in
        elim (Bool-cases (a == p)) [
          | inl it ↦
              let fresh : lookup a enodes ≡ none =
                (let q : a ≡ p = ground (arith, it) in rw q u.0) in
              ground (arith, it, fresh, one, rest, both, same)
          | inr other ↦ ground (arith, other, one, rest, both, same)
        ]

-- Where the pairing returns, a client was asked to add a peer with an enode exactly where both have the
-- admin API, they differ, and the enode is the one that the peer's own node info has.
pub pair_execution_clients-is_added :
    {C R : Type 0} ⦃ec : Eq C⦄ (search : String → Bool) (http_apis : C → List String)
    (node_info : C → Outcome String Error) (ask : String → C → Outcome R Error) (instances : List C)
    {added : List (C × C × String)} (peer client : C) (enode : String)
    → pair_execution_clients search http_apis node_info ask instances ≡ ok added
    → is_added peer client enode added ≡ (
        contains (el_clients_to_pair search http_apis instances) peer
        && contains (el_clients_to_pair search http_apis instances) client
        && not (client == peer)
        && is_enode enode (enode_in (node_info peer)))
unfolding pair_execution_clients
pair_execution_clients-is_added search http_apis node_info ask instances peer client enode h =
    let cs = el_clients_to_pair search http_apis instances in
    let (results, batch, h1) = >>=-eq-ok (perform_batched_request node_info cs) _ h in
    let (enodes, fetched, h2) = >>=-eq-ok (fetch_enodes results []) _ h1 in
    let (answer, u) = batch-lookup node_info peer cs batch in
    let (known, v) = fetch_enodes-lookup peer results [] u tt fetched in
    let pairs = add_peers-is_added ask peer client enode cs enodes v h2 in
    elim (Bool-cases (contains cs peer)) [
      | inl listed ↦ ground (arith, listed, answer, known, pairs)
      | inr missing ↦ ground (arith, missing, answer, known, pairs)
    ]
