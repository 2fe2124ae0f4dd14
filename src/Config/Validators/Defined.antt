-- ===== src/Config/Validators/Defined.antt =====
-- `_get_user_defined_validator_indexes` of src/etb/config/etb_config.py, and where the default
-- offsets begin.
use ethereum_testnet_bootstr.Base.{
  ℕ, zero, suc, ◌+◌, ◌*◌, ◌≤◌, ◌≡◌, ◌≢◌, refl, String, Bool, true, false, ◌&&◌, ◌||◌, none, some,
  List, [], ◌∷◌, All, ok, >>=-eq-ok, Option-cases, inl, inr, ◌⊎◌, contains, nat_eq, string_eq, leb,
  ltb, if◌then◌else◌, arith,
}
use ethereum_testnet_bootstr.Base.Dict.{
  keys, lookup, has_key, insert, has_key-insert, has_key-contains,
}
use ethereum_testnet_bootstr.Config.Ips.{InstanceEntry, Instances}
use ethereum_testnet_bootstr.Config.Validators.{
  ConsensusConfigs, UsedValidators, use_node, use_nodes, use_collection, use_collections,
  get_user_defined_validator_indexes, max_of, first_validator_ndx,
}

-- Whether the index lies in the range that begins at `start`.
abbrev pub in_range : ℕ → ℕ → ℕ → Bool
in_range i start count = leb start i && ltb i (start + count)

use_node_lem :
    (i n : ℕ) (name : String) (offset : ℕ) (used : UsedValidators)
    → (has_key i (use_node n name offset used).0 ≡ (in_range i offset n || has_key i used))
      × ((use_node n name offset used).1 ≡ offset + n)
unfolding use_node
use_node_lem i zero name offset used = (ground arith, omega arith)
use_node_lem i (suc n) name offset used =
    let (here, end) = use_node_lem i n name (offset + 1) (insert offset name used) in
    (ground (arith, here, has_key-insert i offset name used), omega (arith, end))

use_nodes_lem :
    (i n v : ℕ) (name : String) (offset : ℕ) (used : UsedValidators)
    → has_key i (use_nodes n v name offset used) ≡ (in_range i offset (n * v) || has_key i used)
unfolding use_nodes
use_nodes_lem i zero v name offset used = ground arith
use_nodes_lem i (suc n) v name offset used =
    let (here, end) = use_node_lem i v name offset used in
    let (used', offset') = use_node v name offset used in
    let rest = use_nodes_lem i n v name offset' used' in
    let grows : suc n * v ≡ v + n * v = omega arith in ground (arith, here, end, rest, grows)

-- Whether an entry gives itself the validator.
abbrev pub is_defined_by : ConsensusConfigs → ℕ → InstanceEntry → Bool
is_defined_by configs i e = elim e.validator_offset_start [
  | none ↦ false
  | some start ↦ (elim (lookup e.consensus_config configs) [
    | none ↦ false
    | some config ↦ (elim e.num_nodes [
      | none ↦ false
      | some n ↦ in_range i start (n * config.num_validators)
    ])
  ])
]

abbrev pub is_defined : ConsensusConfigs → ℕ → Instances → Bool
is_defined configs i [] = false
is_defined configs i ((_, e) ∷ es) = is_defined_by configs i e || is_defined configs i es

use_collection_lem :
    (configs : ConsensusConfigs) (i : ℕ) (name : String) (e : InstanceEntry) (used : UsedValidators)
    {d : UsedValidators}
    → use_collection configs name e used ≡ ok d
    → has_key i d ≡ (is_defined_by configs i e || has_key i used)
unfolding use_collection
use_collection_lem configs i name e used h = elim (Option-cases e.validator_offset_start) [
  | inl p ↦ ground arith
  | inr (o, p) ↦ (elim (Option-cases (lookup e.consensus_config configs)) [
    | inl q ↦ ground arith
    | inr (config, q) ↦ (elim (Option-cases e.num_nodes) [
      | inl r ↦ ground arith
      | inr (n, r) ↦ ground (arith, use_nodes_lem i n config.num_validators name o used)
    ])
  ])
]

use_collections_lem :
    (configs : ConsensusConfigs) (i : ℕ) (es : Instances) (used : UsedValidators)
    {d : UsedValidators}
    → use_collections configs es used ≡ ok d
    → has_key i d ≡ (is_defined configs i es || has_key i used)
unfolding use_collections
use_collections_lem configs i [] used h = ground arith
use_collections_lem configs i ((name, e) ∷ es) used h =
    let (used', first, rest) = >>=-eq-ok (use_collection configs name e used) _ h in
    ground (
      arith,
      use_collection_lem configs i name e used first,
      use_collections_lem configs i es used' rest,
    )

-- A validator is in use after reading the file exactly when an entry with an offset of its own has
-- it among the validators of its nodes.
pub get_user_defined_validator_indexes-is_defined :
    (configs : ConsensusConfigs) (es : Instances) {d : UsedValidators}
    → get_user_defined_validator_indexes configs es ≡ ok d
    → (i : ℕ) → has_key i d ≡ is_defined configs i es
unfolding get_user_defined_validator_indexes
get_user_defined_validator_indexes-is_defined configs es h i =
    ground (arith, use_collections_lem configs i es [] h)

max_of_lem :
    (n : ℕ) (ks : List ℕ)
    → ((max_of n ks ≡ n) ⊎ (contains ks (max_of n ks) ≡ true))
      × (n ≤ max_of n ks)
      × All (λ k. k ≤ max_of n ks) ks
max_of_lem n [] = ground arith
max_of_lem n (k ∷ ks) =
    let ih = max_of_lem (if ltb n k then k else n) ks in
    (ground (arith, ih.0), ground (arith, ih.1), (ground (arith, ih.1), ih.2))

-- Where the file gives offsets, the default offsets begin with the last validator that is in use,
-- not behind it.
pub first_validator_ndx-is_used :
    (used : UsedValidators)
    → used ≢ []
    → (has_key (first_validator_ndx used) used ≡ true)
      × All (λ k. k ≤ first_validator_ndx used) (keys used)
unfolding first_validator_ndx
first_validator_ndx-is_used [] h = absurd (h refl)
first_validator_ndx-is_used ((k, name) ∷ used) h =
    let (some_key, first, all) = max_of_lem k (keys used) in
    (ground (arith, some_key, has_key-contains (max_of k (keys used)) used), (first, all))
