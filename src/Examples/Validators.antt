-- ===== src/Examples/Validators.antt =====
-- Runs of the populating of a file, of its instances and of their keystores
-- (src/etb/config/etb_config.py, src/testnet_bootstrapper.py).
use ethereum_testnet_bootstr.Base.{
  ℕ, ◌≡◌, ◌≢◌, refl, String, none, some, List, [], ◌∷◌, ◌++◌, map, ok, nat_eq, string_eq,
  if◌then◌else◌, ℕ_discrete, ltb,
}
use ethereum_testnet_bootstr.Base.Dict.{keys}
use ethereum_testnet_bootstr.Base.Distinct.{AreDistinct}
use ethereum_testnet_bootstr.Base.Text.{
  str, digits_onto, digit_char, int_of, int_from, split_dots, join_dots,
}
use ethereum_testnet_bootstr.Config.Ips.{
  InstanceEntry, Instances, Reserved, YamlInstances, IpState, num_nodes_of, ip_suffix,
  find_used_ip_addresses, get_ip_address,
}
use ethereum_testnet_bootstr.Config.Ips.Used.{wanted_sections, find_used_ip_addresses_iff}
use ethereum_testnet_bootstr.Config.Ips.Given.{give_blocks, AreApart, give_blocks-AreApart}
use ethereum_testnet_bootstr.Config.Validators.{
  ConsensusInstanceConfig, ConsensusConfigs, UsedValidators, use_node, use_nodes, use_collection,
  use_collections, get_user_defined_validator_indexes, first_validator_ndx, populate_offset,
  populate_offsets, populate_validators,
}
use ethereum_testnet_bootstr.Config.Instances.{
  Instance, ClientInstance, instance_collection_config, instance_of, read_password,
  client_instance_of, add_instances, add_generic, add_collection, add_clients, get_instances,
}
use ethereum_testnet_bootstr.Config.Instances.Names.{get_instances-distinct}
use ethereum_testnet_bootstr.Bootstrap.Keystores.{
  KeystoreRange, min_ndx, max_ndx, write_validator_keystores,
}
use ethereum_testnet_bootstr.Bootstrap.Keystores.Owners.{
  keystores_of, write_validator_keystores-one_owner,
}

abbrev lighthouse : ConsensusInstanceConfig
lighthouse = record { client = "lighthouse"; num_validators = 2 }

abbrev configs : ConsensusConfigs
configs = ("lh", lighthouse) ∷ []

abbrev entry_at : String → ℕ → InstanceEntry
entry_at address nodes = record {
  image = some "etb-all-clients";
  tag = some "minimal";
  num_nodes = some nodes;
  start_ip_address = some address;
  validator_offset_start = none;
  consensus_config = "lh";
  execution_config = "geth";
  additional_env = none;
}

abbrev with_offset : ℕ → InstanceEntry → InstanceEntry
with_offset offset e = record e { validator_offset_start = some offset }

abbrev clients : Instances
clients = ("a", entry_at "10.0.20.2" 2) ∷ ("b", entry_at "10.0.20.4" 1) ∷ []

abbrev populated : Instances
populated =
    ("a", with_offset 0 (entry_at "10.0.20.2" 2))
    ∷ ("b", with_offset 4 (entry_at "10.0.20.4" 1))
    ∷ []

populates : populate_validators configs clients none ≡ ok (populated, 6)
unfolding populate_validators get_user_defined_validator_indexes use_collections use_collection
    populate_offsets populate_offset num_nodes_of first_validator_ndx string_eq
populates = refl

abbrev node : String → ℕ → String → String → ℕ → ClientInstance
node collection ndx name address offset = record {
  instance_base = record {
    collection_name = collection;
    ndx = ndx;
    name = name;
    ip_address = address;
  };
  consensus_config = lighthouse;
  validator_offset_start = offset;
  validator_password = none;
}

abbrev nodes : List ClientInstance
nodes =
    node "a" 0 "a-0" "10.0.20.2" 0
    ∷ node "a" 1 "a-1" "10.0.20.3" 0
    ∷ node "b" 0 "b-0" "10.0.20.4" 4
    ∷ []

abbrev node_names : List String
node_names = "a-0" ∷ "a-1" ∷ "b-0" ∷ []

adds : add_clients configs ("geth" ∷ []) populated [] ≡ ok (nodes, node_names)
unfolding add_clients add_collection add_instances client_instance_of read_password instance_of
    instance_collection_config get_ip_address ip_suffix int_of int_from split_dots join_dots str
    digits_onto digit_char string_eq ℕ_discrete
adds = refl

abbrev ranges : List KeystoreRange
ranges = ("a-0", 0, 2) ∷ ("a-1", 2, 4) ∷ ("b-0", 4, 6) ∷ []

writes : write_validator_keystores nodes ≡ ok ranges
unfolding write_validator_keystores min_ndx max_ndx string_eq
writes = refl

write_validator_keystores-one_owner_example : keystores_of 3 ranges ≡ (if ltb 3 6 then 1 else 0)
write_validator_keystores-one_owner_example =
    write_validator_keystores-one_owner configs ("geth" ∷ []) clients [] (refl, (refl, tt))
      populates adds writes 3

reads : get_instances configs ("geth" ∷ []) [] populated ≡ ok ([], nodes)
unfolding get_instances add_generic add_clients add_collection add_instances client_instance_of
    read_password instance_of instance_collection_config get_ip_address ip_suffix int_of int_from
    split_dots join_dots str digits_onto digit_char string_eq ℕ_discrete
reads = refl

get_instances-distinct_example :
    AreDistinct (map {A = Instance} (λ i. i.name) [] ++ map (λ i. i.instance_base.name) nodes)
get_instances-distinct_example = get_instances-distinct configs ("geth" ∷ []) [] populated reads

abbrev defined : UsedValidators
defined = (4, "b") ∷ (5, "b") ∷ []

abbrev half_defined : Instances
half_defined = ("a", entry_at "10.0.20.2" 2) ∷ ("b", with_offset 4 (entry_at "10.0.20.4" 1)) ∷ []

defines : get_user_defined_validator_indexes configs half_defined ≡ ok defined
unfolding get_user_defined_validator_indexes use_collections use_collection use_nodes use_node
    string_eq ℕ_discrete
defines = refl

defined_not_empty : defined ≢ []
defined_not_empty = λ p. cc

abbrev file : YamlInstances
file = record { generic_instances = none; client_instances = some populated }

find_used_ip_addresses_iff_example :
    ((d : Reserved)
      → find_used_ip_addresses file ≡ ok d
      → (wanted_sections file ≡ ok (keys d)) × AreDistinct (keys d))
    × ((xs : List ℕ)
        → wanted_sections file ≡ ok xs
        → AreDistinct xs
        → (d : Reserved) × (find_used_ip_addresses file ≡ ok d))
find_used_ip_addresses_iff_example = find_used_ip_addresses_iff file

abbrev ips : IpState
ips = record { reserved_ips = (2, "geth") ∷ (3, "besu") ∷ (6, "teku") ∷ []; curr_ip = 2 }

give_blocks-AreApart_example :
    AreApart 2 ips.reserved_ips (give_blocks (("prysm", 1) ∷ ("lighthouse", 2) ∷ []) ips)
give_blocks-AreApart_example = give_blocks-AreApart (("prysm", 1) ∷ ("lighthouse", 2) ∷ []) ips
