-- ===== src/Config/Instances/Names.antt =====
-- The names of the instances of src/etb/config/etb_config.py.
use mathlib.Core.List.{append-nil, append_assoc, map-append}
use mathlib.Core.Path.{subst}
use ethereum_testnet_bootstr.Base.{
  ℕ, zero, suc, ◌+◌, ◌≡◌, ap, sym, ◌∙◌, String, false, not, List, [], ◌∷◌, ◌++◌, map, Result, ok,
  Error, or_raise, >>=-eq-ok, contains, raise_if-eq-ok, string_eq, arith,
}
use ethereum_testnet_bootstr.Base.Distinct.{AreDistinct, AreDistinct-snoc}
use ethereum_testnet_bootstr.Base.Dict.{lookup}
use ethereum_testnet_bootstr.Config.Ips.{InstanceEntry, Instances}
use ethereum_testnet_bootstr.Config.Validators.{ConsensusConfigs}
use ethereum_testnet_bootstr.Config.Instances.{
  Instance, ClientInstance, instance_collection_config, add_instances, add_generic, add_collection,
  add_clients, get_instances, instance_of, client_instance_of,
}

-- `xs` was added behind the names that were there, and all are distinct.
Added : List String → List String → List String → Type 0
Added names xs names' = (names' ≡ names ++ xs) × AreDistinct names'

Added-distinct : (names xs names' : List String) → Added names xs names' → AreDistinct names'
unfolding Added
Added-distinct names xs names' a = a.1

abbrev nothing : (I : Type 0) → List String → Result (List I × List String)
nothing I names = ok ([], names)

Added-nothing :
    {I : Type 0} (name_of : I → String) (names : List String) {is : List I} {names' : List String}
    → AreDistinct names
    → nothing I names ≡ ok (is, names')
    → Added names (map name_of is) names'
unfolding Added
Added-nothing name_of names {is} {names'} u h =
    let none_made : [] ≡ is = ground arith in
    let same : names ≡ names' = ground arith in
    (
      sym same ∙ sym (append-nil names) ∙ ap (λ xs. names ++ map name_of xs) none_made,
      ground (arith, same),
    )

module _ {I : Type 0} (make : ℕ → Result I) (name_of : I → String) where
  -- One round that returned.
  pub add_instances-suc :
      (rounds ndx : ℕ) (names : List String) {is : List I} {names' : List String}
      → add_instances make name_of (suc rounds) ndx names ≡ ok (is, names')
      → (i : I) × (rest : List I) × (make ndx ≡ ok i)
        × (contains names (name_of i) ≡ false)
        × (add_instances make name_of rounds (ndx + 1) (names ++ (name_of i ∷ []))
            ≡ ok (rest, names'))
        × (i ∷ rest ≡ is)
  unfolding add_instances
  add_instances-suc rounds ndx names h =
      let (i, made, h1) = >>=-eq-ok (make ndx) _ h in
      let (fresh, h2) = raise_if-eq-ok (contains names (name_of i)) _ _ h1 in
      let ((rest, names''), h3, h4) =
        >>=-eq-ok (add_instances make name_of rounds (ndx + 1) (names ++ (name_of i ∷ []))) _ h2 in
      (i, rest, made, fresh, h3 ∙ ground (arith, h4), ground (arith, h4))

  add_instances-Added :
      (rounds ndx : ℕ) (names : List String) {is : List I} {names' : List String}
      → AreDistinct names
      → add_instances make name_of rounds ndx names ≡ ok (is, names')
      → Added names (map name_of is) names'
  unfolding add_instances Added
  add_instances-Added zero ndx names u h = Added-nothing name_of names u h
  add_instances-Added (suc rounds) ndx names u h =
      let (i, rest, made, fresh, h', same) = add_instances-suc rounds ndx names h in
      let (all, u') =
        add_instances-Added rounds (ndx + 1) (names ++ (name_of i ∷ []))
          (AreDistinct-snoc names (name_of i) u fresh) h' in
      (
        all
            ∙ append_assoc names (name_of i ∷ []) (map name_of rest)
            ∙ ap (λ xs. names ++ map name_of xs) same,
        u',
      )

Added-join :
    {I : Type 0} (name_of : I → String) (names : List String) (is js ks : List I)
    (names' names'' : List String)
    → Added names (map name_of is) names'
    → Added names' (map name_of js) names''
    → (is ++ js ≡ ks)
    → Added names (map name_of ks) names''
unfolding Added
Added-join name_of names is js ks names' names'' (first, _) (second, u) all = (
  second
      ∙ rw first (append_assoc names (map name_of is) (map name_of js))
      ∙ ap (λ xs. names ++ xs) (sym (map-append name_of is js) ∙ ap (map name_of) all),
  u,
)

abbrev pub client_name : ClientInstance → String
client_name i = i.instance_base.name

add_generic-Added :
    (es : Instances) (names : List String) {ks : List Instance} {names'' : List String}
    → AreDistinct names
    → add_generic es names ≡ ok (ks, names'')
    → Added names (map (λ i. i.name) ks) names''
unfolding add_generic
add_generic-Added [] names u h = Added-nothing (λ i. i.name) names u h
add_generic-Added ((name, e) ∷ es) names {ks} {names''} u h =
    let (config, _, h1) = >>=-eq-ok (instance_collection_config name e) _ h in
    let ((is, names'), made, h2) =
      >>=-eq-ok (add_instances (instance_of name config) (λ i. i.name) config.num_nodes 0 names) _
        h1 in
    let ((js, names2), rest, h3) = >>=-eq-ok (add_generic es names') _ h2 in
    let first =
      add_instances-Added (instance_of name config) (λ i. i.name) config.num_nodes 0 names u made in
    let u' = Added-distinct names (map (λ i. i.name) is) names' first in
    let all : is ++ js ≡ ks = ground (arith, h3) in
    Added-join (λ i. i.name) names is js ks names' names'' first
      (add_generic-Added es names' u' (rest ∙ ground (arith, h3))) all

add_collection-Added :
    (configs : ConsensusConfigs) (executions : List String) (name : String) (e : InstanceEntry)
    (names : List String) {is : List ClientInstance} {names' : List String}
    → AreDistinct names
    → add_collection configs executions name e names ≡ ok (is, names')
    → Added names (map client_name is) names'
unfolding add_collection
add_collection-Added configs executions name e names u h =
    let (_, h1) = raise_if-eq-ok (not (contains executions e.execution_config)) _ _ h in
    let (c, _, h2) =
      >>=-eq-ok (or_raise (lookup e.consensus_config configs) (Error.key_error e.consensus_config))
        _ h1 in
    let (config, _, h3) = >>=-eq-ok (instance_collection_config name e) _ h2 in
    let (offset, _, h4) =
      >>=-eq-ok
        (or_raise e.validator_offset_start (Error.missing_field "validator-offset-start" name)) _
        h3 in
    add_instances-Added (client_instance_of name config c offset) client_name config.num_nodes 0
      names u h4

add_clients-Added :
    (configs : ConsensusConfigs) (executions : List String) (es : Instances) (names : List String)
    {ks : List ClientInstance} {names'' : List String}
    → AreDistinct names
    → add_clients configs executions es names ≡ ok (ks, names'')
    → Added names (map client_name ks) names''
unfolding add_clients
add_clients-Added configs executions [] names u h = Added-nothing client_name names u h
add_clients-Added configs executions ((name, e) ∷ es) names {ks} {names''} u h =
    let ((is, names'), made, h1) = >>=-eq-ok (add_collection configs executions name e names) _ h in
    let ((js, names2), rest, h2) = >>=-eq-ok (add_clients configs executions es names') _ h1 in
    let first = add_collection-Added configs executions name e names u made in
    let u' = Added-distinct names (map client_name is) names' first in
    let all : is ++ js ≡ ks = ground (arith, h2) in
    Added-join client_name names is js ks names' names'' first
      (add_clients-Added configs executions es names' u' (rest ∙ ground (arith, h2))) all

-- No two instances of a file that is read have the same name, generic or client.
pub get_instances-distinct :
    (configs : ConsensusConfigs) (executions : List String) (generic clients : Instances)
    {ks : List Instance} {ls : List ClientInstance}
    → get_instances configs executions generic clients ≡ ok (ks, ls)
    → AreDistinct (map (λ i. i.name) ks ++ map (λ i. i.instance_base.name) ls)
unfolding get_instances Added
get_instances-distinct configs executions generic clients {ks} {ls} h =
    let ((is, names), made, h1) = >>=-eq-ok (add_generic generic []) _ h in
    let ((cs, names'), made', h2) = >>=-eq-ok (add_clients configs executions clients names) _ h1 in
    let (first, u) = add_generic-Added generic [] tt made in
    let (second, u') = add_clients-Added configs executions clients names u made' in
    let all : is ≡ ks = ground (arith, h2) in
    let all' : cs ≡ ls = ground (arith, h2) in
    let same = second ∙ ap (λ ns. ns ++ map client_name cs) first in
    let same' =
      ap (λ xs. map (λ i. i.name) xs ++ map client_name cs) all
      ∙ ap (λ xs. map (λ i. i.name) ks ++ map client_name xs) all' in
    subst AreDistinct (same ∙ same') u'
