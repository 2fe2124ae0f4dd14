-- ===== src/Config/Instances.antt =====
-- The instances that `ETBConfig.__init__` makes (src/etb/config/etb_config.py):
-- `InstanceCollectionConfig`, `Instance` and `ClientInstance`, as far as the names, the addresses
-- and the validators of the instances rest on them.
pub mod Names
use ethereum_testnet_bootstr.Base.{
  ℕ, zero, suc, ◌+◌, ◌*◌, String, ◌<>◌, Bool, true, false, not, ◌&&◌, Option, none, some, List, [],
  ◌∷◌, ◌++◌, map, Result, ok, err, Error, ◌>>=◌, ◌>>◌, or_raise, raise_if, contains, ◌==◌, nat_eq,
  string_eq, if◌then◌else◌,
}
use ethereum_testnet_bootstr.Base.Dict.{Dict, lookup, has_key}
use ethereum_testnet_bootstr.Base.Text.{str}
use ethereum_testnet_bootstr.Config.Ips.{InstanceEntry, Instances, get_ip_address}
use ethereum_testnet_bootstr.Config.Validators.{ConsensusInstanceConfig, ConsensusConfigs}

pub record InstanceCollectionConfig : Type 0 where
  pub image : String
  pub tag : String
  pub start_ip_address : String
  pub num_nodes : ℕ
  pub additional_env : Dict String String

-- `InstanceCollectionConfig.__init__`, which asks for the fields in this order.
unfoldable pub instance_collection_config : String → InstanceEntry → Result InstanceCollectionConfig
instance_collection_config name e = do
  image ← or_raise e.image (Error.missing_field "image" name)
  tag ← or_raise e.tag (Error.missing_field "tag" name)
  start_ip_address ← or_raise e.start_ip_address (Error.missing_field "start-ip-address" name)
  num_nodes ← or_raise e.num_nodes (Error.missing_field "num-nodes" name)
  ok (record {
    image = image;
    tag = tag;
    start_ip_address = start_ip_address;
    num_nodes = num_nodes;
    additional_env = elim e.additional_env [ none ↦ [] | some env ↦ env ];
  })

pub record Instance : Type 0 where
  pub collection_name : String
  pub ndx : ℕ
  pub name : String
  pub ip_address : String

-- `f"{collection_name}-{ndx}"`
abbrev pub instance_name : String → ℕ → String
instance_name collection_name ndx = collection_name <> ("-" <> str ndx)

-- `Instance.__init__`
unfoldable pub instance_of : String → InstanceCollectionConfig → ℕ → Result Instance
instance_of collection_name config ndx =
    get_ip_address config.start_ip_address ndx >>= λ ip_address. ok (record {
      collection_name = collection_name;
      ndx = ndx;
      name = instance_name collection_name ndx;
      ip_address = ip_address;
    })

pub record ClientInstance : Type 0 where
  pub instance_base : Instance
  pub consensus_config : ConsensusInstanceConfig
  pub validator_offset_start : ℕ
  pub validator_password : Option String

-- What `ClientInstance.__init__` reads as the password of a validator's wallet.
unfoldable pub read_password :
    String → InstanceCollectionConfig → ConsensusInstanceConfig → Result (Option String)
read_password name config consensus_config =
    if consensus_config.client == "prysm"
    then (or_raise (lookup "validator-password" config.additional_env)
          (Error.missing_field "validator-password" name)
        >>= λ password. ok (some password))
    else ok none

-- `ClientInstance.__init__`
unfoldable pub client_instance_of :
    String → InstanceCollectionConfig → ConsensusInstanceConfig → ℕ → ℕ → Result ClientInstance
client_instance_of name config consensus_config offset ndx = do
  base ← instance_of name config ndx
  password ← read_password name config consensus_config
  ok (record {
    instance_base = base;
    consensus_config = consensus_config;
    validator_offset_start = offset;
    validator_password = password;
  })

-- `for ndx in range(num_nodes)`: the instances, and the names that are taken behind them.
unfoldable pub add_instances :
    {I : Type 0}
    → (ℕ → Result I)
    → (I → String)
    → ℕ
    → ℕ
    → List String
    → Result (List I × List String)
add_instances make name_of zero ndx names = ok ([], names)
add_instances make name_of (suc rounds) ndx names = make ndx >>= λ i.
    raise_if (contains names (name_of i)) (Error.duplicate_name (name_of i))
    >> (add_instances make name_of rounds (ndx + 1) (names ++ (name_of i ∷ [])) >>= λ (is, names').
        ok (i ∷ is, names'))

-- The loop over `generic-instances`.
unfoldable pub add_generic : Instances → List String → Result (List Instance × List String)
add_generic [] names = ok ([], names)
add_generic ((name, e) ∷ es) names = instance_collection_config name e >>= λ config.
    add_instances (instance_of name config) (λ i. i.name) config.num_nodes 0 names
    >>= λ (is, names'). add_generic es names' >>= λ (js, names''). ok (is ++ js, names'')

-- One collection of `client-instances`.
unfoldable pub add_collection :
    ConsensusConfigs
    → List String
    → String
    → InstanceEntry
    → List String
    → Result (List ClientInstance × List String)
add_collection consensus_configs execution_configs name e names =
    raise_if (not (contains execution_configs e.execution_config))
      (Error.key_error e.execution_config)
    >> (or_raise (lookup e.consensus_config consensus_configs) (Error.key_error e.consensus_config)
        >>= λ consensus_config. instance_collection_config name e >>= λ config.
            or_raise e.validator_offset_start (Error.missing_field "validator-offset-start" name)
            >>= λ offset.
                add_instances (client_instance_of name config consensus_config offset)
                  (λ i. i.instance_base.name) config.num_nodes 0 names)

-- The loop over `client-instances`. Of the execution configs, their names are kept.
unfoldable pub add_clients :
    ConsensusConfigs
    → List String
    → Instances
    → List String
    → Result (List ClientInstance × List String)
add_clients consensus_configs execution_configs [] names = ok ([], names)
add_clients consensus_configs execution_configs ((name, e) ∷ es) names =
    add_collection consensus_configs execution_configs name e names >>= λ (is, names').
    add_clients consensus_configs execution_configs es names' >>= λ (js, names'').
    ok (is ++ js, names'')

-- The instances of an etb-config file, generic and clients.
unfoldable pub get_instances :
    ConsensusConfigs
    → List String
    → Instances
    → Instances
    → Result (List Instance × List ClientInstance)
get_instances consensus_configs execution_configs generic clients =
    add_generic generic [] >>= λ (is, names).
    add_clients consensus_configs execution_configs clients names >>= λ (cs, names'). ok (is, cs)
