-- ===== src/Bootstrap/Keystores/Owners.antt =====
-- The keystores of the validators of the genesis: from the offsets that
-- src/etb/config/etb_config.py gives out to the ranges of src/testnet_bootstrapper.py.
use ethereum_testnet_bootstr.Base.{
  ℕ, zero, suc, ◌+◌, ◌*◌, ◌≤◌, ◌≡◌, refl, ap, sym, ◌∙◌, String, Bool, not, ◌&&◌, none, some, List,
  [], ◌∷◌, ◌++◌, ok, Error, >>=-eq-ok, or_raise, raise_if-eq-ok, contains, leb, ltb, Option-cases,
  inl, inr, if◌then◌else◌, string_eq, arith,
}
use ethereum_testnet_bootstr.Base.Dict.{lookup}
use ethereum_testnet_bootstr.Config.Ips.{InstanceEntry, Instances, num_nodes_of, get_ip_address}
use ethereum_testnet_bootstr.Config.Validators.{
  ConsensusInstanceConfig, ConsensusConfigs, populate_offset, populate_offsets, populate_validators,
  use_collection, use_collections, get_user_defined_validator_indexes, first_validator_ndx,
}
use ethereum_testnet_bootstr.Config.Validators.Defined.{in_range}
use ethereum_testnet_bootstr.Config.Instances.{
  Instance, ClientInstance, InstanceCollectionConfig, instance_collection_config, instance_of,
  read_password, client_instance_of, add_instances, add_collection, add_clients,
}
use ethereum_testnet_bootstr.Config.Instances.Names.{add_instances-suc, client_name}
use ethereum_testnet_bootstr.Bootstrap.Keystores.{
  supported_clients, KeystoreRange, min_ndx, max_ndx, write_validator_keystores,
}

abbrev pub count_if : Bool → ℕ
count_if b = if b then 1 else 0

-- The number of the keystores that hold the validator.
unfoldable pub keystores_of : ℕ → List KeystoreRange → ℕ
keystores_of v [] = 0
keystores_of v ((_, low, high) ∷ ranges) =
    count_if (leb low v && ltb v high) + keystores_of v ranges

-- The same, counted before they are written.
owners : ℕ → List ClientInstance → ℕ
owners v [] = 0
owners v (i ∷ is) = count_if (leb (min_ndx i) v && ltb v (max_ndx i)) + owners v is

owners-append :
    (v : ℕ) (is js : List ClientInstance) → owners v (is ++ js) ≡ owners v is + owners v js
unfolding owners
owners-append v [] js = ground arith
owners-append v (i ∷ is) js = ground (arith, owners-append v is js)

written-owners :
    (is : List ClientInstance) {ranges : List KeystoreRange}
    → write_validator_keystores is ≡ ok ranges
    → (v : ℕ) → keystores_of v ranges ≡ owners v is
unfolding write_validator_keystores keystores_of owners
written-owners [] {ranges} h v =
    let none_written : [] ≡ ranges = ground arith in ground (arith, none_written)
written-owners (i ∷ is) {ranges} h v =
    let (_, h1) =
      raise_if-eq-ok (not (contains supported_clients i.consensus_config.client))
        (Error.not_supported i.consensus_config.client) _ h in
    let (rest, h2, h3) = >>=-eq-ok (write_validator_keystores is) _ h1 in
    let all : (i.instance_base.name, min_ndx i, max_ndx i) ∷ rest ≡ ranges = ground (arith, h3) in
    ap (keystores_of v) (sym all) ∙ ground (arith, written-owners is h2 v)

module _ (name : String) (config : InstanceCollectionConfig) (c : ConsensusInstanceConfig)
    (offset : ℕ) where
  instance_of-ndx : (ndx : ℕ) {i : Instance} → instance_of name config ndx ≡ ok i → i.ndx ≡ ndx
  unfolding instance_of
  instance_of-ndx ndx h =
      let (address, _, h1) = >>=-eq-ok (get_ip_address config.start_ip_address ndx) _ h in
      ground (arith, h1)

  made_as :
      (ndx : ℕ) {i : ClientInstance}
      → client_instance_of name config c offset ndx ≡ ok i
      → (min_ndx i ≡ offset + ndx * c.num_validators)
        × (max_ndx i ≡ offset + ndx * c.num_validators + c.num_validators)
  unfolding client_instance_of min_ndx max_ndx
  made_as ndx h =
      let (base, h1, h2) = >>=-eq-ok (instance_of name config ndx) _ h in
      let (password, _, h3) = >>=-eq-ok (read_password name config c) _ h2 in
      ground (arith, h3, instance_of-ndx ndx h1)

  nodes-owners :
      (rounds ndx : ℕ) (names : List String) {is : List ClientInstance} {names' : List String}
      → add_instances (client_instance_of name config c offset) client_name rounds ndx names
        ≡ ok (is, names')
      → (v : ℕ)
      → owners v is
        ≡ count_if (in_range v (offset + ndx * c.num_validators) (rounds * c.num_validators))
  unfolding owners add_instances
  nodes-owners zero ndx names {is} h v =
      let none_made : [] ≡ is = ground arith in ap (owners v) (sym none_made) ∙ ground arith
  nodes-owners (suc rounds) ndx names h v =
      let (i, rest, made, fresh, h', same) =
        add_instances-suc (client_instance_of name config c offset) client_name rounds ndx names
          h in
      let (low, high) = made_as ndx made in
      let others = nodes-owners rounds (ndx + 1) (names ++ (client_name i ∷ [])) h' v in
      let grows : suc rounds * c.num_validators ≡ c.num_validators + rounds * c.num_validators =
        omega arith in
      let next : (ndx + 1) * c.num_validators ≡ ndx * c.num_validators + c.num_validators =
        omega arith in
      ap (owners v) (sym same) ∙ ground (arith, low, high, others, grows, next)

config-num_nodes :
    (name : String) (e : InstanceEntry) (n : ℕ) {config : InstanceCollectionConfig}
    → instance_collection_config name e ≡ ok config
    → e.num_nodes ≡ some n
    → config.num_nodes ≡ n
unfolding instance_collection_config
config-num_nodes name e n h p = elim (Option-cases e.image) [
  | inl q ↦ ground arith
  | inr (image, q) ↦ (elim (Option-cases e.tag) [
    | inl r ↦ ground arith
    | inr (tag, r) ↦ (elim (Option-cases e.start_ip_address) [
      | inl s ↦ ground arith
      | inr (address, s) ↦ ground arith
    ])
  ])
]

module _ (configs : ConsensusConfigs) where
  -- The entry's validators are the `count` ones from `start`.
  Runs : InstanceEntry → ℕ → ℕ → Type 0
  Runs e start count =
      (c : ConsensusInstanceConfig) × (n : ℕ) × (lookup e.consensus_config configs ≡ some c)
      × (e.num_nodes ≡ some n)
      × (e.validator_offset_start ≡ some start)
      × (count ≡ n * c.num_validators)

  populate_offset-Runs :
      (e : InstanceEntry) (curr : ℕ) {e' : InstanceEntry} {next : ℕ}
      → e.validator_offset_start ≡ none
      → populate_offset configs e curr ≡ ok (e', next)
      → (count : ℕ) × Runs e' curr count × (next ≡ curr + count)
  unfolding populate_offset Runs
  populate_offset-Runs e curr {e'} {next} p h =
      elim (Option-cases (lookup e.consensus_config configs)) [
        | inl q ↦ ground arith
        | inr (c, q) ↦ (
          num_nodes_of e * c.num_validators,
          (c, num_nodes_of e, ground arith, ground arith, ground arith, refl),
          ground arith,
        )
      ]

  collection-owners :
      (executions : List String) (name : String) (e : InstanceEntry) (names : List String)
      (start count : ℕ) {is : List ClientInstance} {names' : List String}
      → Runs e start count
      → add_collection configs executions name e names ≡ ok (is, names')
      → (v : ℕ) → owners v is ≡ count_if (in_range v start count)
  unfolding add_collection Runs
  collection-owners executions name e names start count (c, n, p, q, r, s) h v =
      let (_, h1) =
        raise_if-eq-ok (not (contains executions e.execution_config))
          (Error.key_error e.execution_config) _ h in
      let (c', h2, h3) =
        >>=-eq-ok
          (or_raise (lookup e.consensus_config configs) (Error.key_error e.consensus_config)) _
          h1 in
      let (config, h4, h5) = >>=-eq-ok (instance_collection_config name e) _ h3 in
      let (offset, h6, h7) =
        >>=-eq-ok
          (or_raise e.validator_offset_start (Error.missing_field "validator-offset-start" name)) _
          h5 in
      let same_config : c' ≡ c = ground (arith, h2, p) in
      let same_offset : offset ≡ start = ground (arith, h6, r) in
      ground (
        arith,
        nodes-owners name config c' offset config.num_nodes 0 names h7 v,
        config-num_nodes name e n h4 q,
        s,
        same_config,
        same_offset,
      )

  -- No entry has an offset of its own.
  abbrev pub HasNoOffset : Instances → Type 0
  HasNoOffset [] = Unit
  HasNoOffset ((_, e) ∷ es) = (e.validator_offset_start ≡ none) × HasNoOffset es

  populate_offsets-cons :
      (name : String) (e : InstanceEntry) (es : Instances) (curr : ℕ) {all : Instances} {end : ℕ}
      → populate_offsets configs ((name, e) ∷ es) curr ≡ ok (all, end)
      → (e' : InstanceEntry) × (next : ℕ) × (es' : Instances) × (populate_offset configs e curr
          ≡ ok (e', next))
        × (populate_offsets configs es next ≡ ok (es', end))
        × ((name, e') ∷ es' ≡ all)
  unfolding populate_offsets
  populate_offsets-cons name e es curr h =
      let ((e', next), h1, h2) = >>=-eq-ok (populate_offset configs e curr) _ h in
      let ((es', end'), h3, h4) = >>=-eq-ok (populate_offsets configs es next) _ h2 in
      (e', next, es', h1, h3 ∙ ground (arith, h4), ground (arith, h4))

  add_clients-cons :
      (executions : List String) (name : String) (e : InstanceEntry) (es : Instances)
      (names : List String) {all : List ClientInstance} {names' : List String}
      → add_clients configs executions ((name, e) ∷ es) names ≡ ok (all, names')
      → (first : List ClientInstance) × (taken : List String) × (rest : List ClientInstance)
        × (add_collection configs executions name e names ≡ ok (first, taken))
        × (add_clients configs executions es taken ≡ ok (rest, names'))
        × (first ++ rest ≡ all)
  unfolding add_clients
  add_clients-cons executions name e es names h =
      let ((first, taken), h1, h2) =
        >>=-eq-ok (add_collection configs executions name e names) _ h in
      let ((rest, names''), h3, h4) = >>=-eq-ok (add_clients configs executions es taken) _ h2 in
      (first, taken, rest, h1, h3 ∙ ground (arith, h4), ground (arith, h4))

  clients-owners :
      (executions : List String) (es : Instances) (curr : ℕ) (names : List String) {es' : Instances}
      {end : ℕ} {is : List ClientInstance} {names' : List String}
      → HasNoOffset es
      → populate_offsets configs es curr ≡ ok (es', end)
      → add_clients configs executions es' names ≡ ok (is, names')
      → (v : ℕ) → (curr ≤ end) × (owners v is ≡ count_if (leb curr v && ltb v end))
  unfolding populate_offsets add_clients owners
  clients-owners executions [] curr names {es'} {end} {is} {names'} u h g v =
      let no_entries : [] ≡ es' = ground arith in
      let g' : add_clients configs executions [] names ≡ ok (is, names') =
        ap (λ xs. add_clients configs executions xs names) no_entries ∙ g in
      let no_clients : [] ≡ is = ground (arith, g') in
      (ground (arith, h), ap (owners v) (sym no_clients) ∙ ground (arith, h))
  clients-owners executions ((name, e) ∷ es) curr names {es'} {end} {is} {names'} (p, u) h g v =
      let (e', next, es'', h1, h2, split) = populate_offsets-cons name e es curr h in
      let (count, runs, ends) = populate_offset-Runs e curr p h1 in
      let (first, taken, rest, g1, g2, joined) =
        add_clients-cons executions name e' es'' names
          (ap (λ xs. add_clients configs executions xs names) split ∙ g) in
      let (below, others) = clients-owners executions es next taken u h2 g2 v in
      let here = collection-owners executions name e' names curr count runs g1 v in
      (
        ground (arith, below, ends),
        ap (owners v) (sym joined)
            ∙ owners-append v first rest
            ∙ ground (arith, here, others, below, ends),
      )

  nothing_defined :
      (es : Instances) → HasNoOffset es → get_user_defined_validator_indexes configs es ≡ ok []
  unfolding get_user_defined_validator_indexes use_collections use_collection
  nothing_defined [] u = refl
  nothing_defined ((name, e) ∷ es) (p, u) = rw p (nothing_defined es u)

  populate_validators-from_zero :
      (es : Instances) {es' : Instances} {count : ℕ}
      → HasNoOffset es
      → populate_validators configs es none ≡ ok (es', count)
      → populate_offsets configs es 0 ≡ ok (es', count)
  unfolding populate_validators first_validator_ndx
  populate_validators-from_zero es {es'} {count} u h =
      let (used, h1, h2) = >>=-eq-ok (get_user_defined_validator_indexes configs es) _ h in
      let ((es'', end), h3, h4) =
        >>=-eq-ok (populate_offsets configs es (first_validator_ndx used)) _ h2 in
      let none_used : used ≡ [] = ground (arith, h1, nothing_defined es u) in
      sym (ap (λ d. populate_offsets configs es (first_validator_ndx d)) none_used)
      ∙ h3
      ∙ ground (arith, h4)

  -- Where no client instance gives an offset of its own and the file gives no count of genesis
  -- validators, each validator below the count has exactly one keystore among those that the
  -- instances of the populated file get, and no other validator has one.
  pub write_validator_keystores-one_owner :
      (executions : List String) (es : Instances) (names : List String) {es' : Instances}
      {count : ℕ} {is : List ClientInstance} {names' : List String} {ranges : List KeystoreRange}
      → HasNoOffset es
      → populate_validators configs es none ≡ ok (es', count)
      → add_clients configs executions es' names ≡ ok (is, names')
      → write_validator_keystores is ≡ ok ranges
      → (v : ℕ) → keystores_of v ranges ≡ (if ltb v count then 1 else 0)
  write_validator_keystores-one_owner executions es names u h g w v =
      written-owners _ w v
      ∙ (clients-owners executions es 0 names u (populate_validators-from_zero es u h) g v).1
      ∙ ground arith
