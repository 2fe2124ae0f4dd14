-- ===== src/Config/Files.antt =====
-- `FilesConfig` and the global variables of the docker-compose file (src/etb/config/etb_config.py).
pub mod Overrides
pub mod Variables
use Prim.Native.Char.{Char, code}
use Prim.Native.String
use Prim.Native.String.{char_at}
use ethereum_testnet_bootstr.Base.{
  ℕ, String, ◌<>◌, Bool, true, false, not, List, [], ◌∷◌, ◌++◌, map, Result, ok, Error, ◌>>=◌,
  or_raise, ◌==◌, nat_eq, string_eq, if◌then◌else◌,
}
use ethereum_testnet_bootstr.Base.Dict.{Dict, lookup, has_key, insert}
use ethereum_testnet_bootstr.Config.Environment.{
  EnvValue, text, number, EnvVars, to_env_key, update,
}

-- `key.replace("-", "_")`
unfoldable pub underscored : String → String
underscored String.[] = ""
underscored (String.◌∷◌ c s) =
    String.◌∷◌ (if code c == b'-' then char_at "_" 0 else c) (underscored s)

-- The files: the attribute of the object, the key in its fields and the path.
unfoldable pub file_table : List (String × String × String)
file_table =
    ("geth_genesis_file", "geth-genesis-file", "/data/geth-genesis.json")
    ∷ ("besu_genesis_file", "besu-genesis-file", "/data/besu-genesis.json")
    ∷ ("nether_mind_genesis_file", "nether-mind-genesis-file", "/data/nethermind-genesis.json")
    ∷ ("consensus_config_file", "consensus-config-file", "/data/config.yaml")
    ∷ ("consensus_genesis_file", "consensus-genesis-file", "/data/genesis.ssz")
    ∷ ("consensus_bootnode_file", "consensus-bootnode-file", "/data/consensus-bootnodes.txt")
    ∷ ("etb_config_file", "etb-config-file", "/data/etb-config.yaml")
    ∷ ("testnet_root", "testnet-root", "/data/")
    ∷ ("local_testnet_dir", "local-testnet-dir", "/data/local-testnet/")
    ∷ ("local_logs_dir", "local-log-dir", "/data/logs/")
    ∷ ("docker_compose_file", "docker-compose-file", "/source/docker-compose.yaml")
    ∷ (
      "etb_config_checkpoint_file", "etb-config-checkpoint-file", "/data/etb-config-checkpoint.txt",
    )
    ∷ ("consensus_checkpoint_file", "consensus-checkpoint-file", "/data/consensus-checkpoint.txt")
    ∷ ("execution_checkpoint_file", "execution-checkpoint-file", "/data/execution-checkpoint.txt")
    ∷ (
      "consensus_bootnode_checkpoint_file", "consensus-bootnode-checkpoint-file",
      "/data/consensus-bootnode-checkpoint.txt",
    )
    ∷ (
      "deposit_contract_deployment_block_hash_file", "deposit-contract-deployment-block-hash-file",
      "/data/deposit-contract-deployment-block-hash.txt",
    )
    ∷ (
      "deposit_contract_deployment_block_number_file",
      "deposit-contract-deployment-block-number-file",
      "/data/deposit-contract-deployment-block-number.txt",
    )
    ∷ []

-- `fields`, the keys that the code knows.
unfoldable pub known_fields : Dict String String
unfolding file_table
known_fields = map (λ (_, key, path). (key, path)) file_table

pub record FilesConfig : Type 0 where
  pub fields : Dict String String
  pub attributes : Dict String String

-- What the settings of the file and of the config give.
pub record GlobalSettings : Type 0 where
  pub ip_subnet : String
  pub num_client_nodes : ℕ
  pub chain_id : ℕ
  pub network_id : ℕ
  pub is_deneb : Bool
  pub disable_peer_scoring : Bool

-- `str(int(b))`
abbrev pub str_int : Bool → String
str_int false = "0"
str_int true = "1"

-- `self.files.name`
abbrev pub attribute : String → FilesConfig → Result String
attribute name files = or_raise (lookup name files.attributes) (Error.attribute_error name)

-- The keys that are not in `FilesConfig().fields`.
unfoldable pub new_keys : Dict String String → List String
new_keys [] = []
new_keys ((key, _) ∷ fields) =
    let rest = new_keys fields in if has_key key known_fields then rest else key ∷ rest

-- `{key: self.files.fields[key] for key in ...}`
unfoldable pub fields_at : Dict String String → List String → Result (Dict String String)
fields_at fields [] = ok []
fields_at fields (key ∷ keys) = do
  value ← or_raise (lookup key fields) (Error.key_error key)
  rest ← fields_at fields keys
  ok ((key, value) ∷ rest)

-- The code makes a set of the new keys; `order` is the order in which Python goes through a set.
unfoldable pub override_files :
    (order : List String → List String) → Dict String String → Result (Dict String String)
override_files order fields = fields_at fields (order (new_keys fields))

-- A dict without a key.
unfoldable pub without : String → Dict String String → Dict String String
without key [] = []
without key ((k, value) ∷ d) =
    let rest = without key d in if key == k then rest else (k, value) ∷ rest

-- `path` is the text of `pathlib.Path(s)`.
module _ (path : String → String) where
  unfoldable pub known_attributes : (is_deneb_experiment : Bool) → Dict String String
  unfolding file_table
  known_attributes is_deneb_experiment =
      map (λ (attribute, _, p). (attribute, path p)) file_table
      ++ (if is_deneb_experiment
          then ("trusted_setup_txt_file", path "/data/trusted-setup.txt")
            ∷ ("trusted_setup_json_file", path "/data/trusted-setup.json")
            ∷ []
          else [])

  -- The loop over the overrides.
  unfoldable pub add_overrides : Dict String String → FilesConfig → FilesConfig
  add_overrides [] files = files
  add_overrides ((key, value) ∷ overrides) files =
      let kept = add_overrides overrides files in
      let added = add_overrides overrides (record {
        fields = insert key value files.fields;
        attributes = insert (underscored key) (path value) files.attributes;
      }) in
      if has_key key files.fields then kept else added

  -- `self.fields = fields` is last, so that an attribute of that name is no path.
  unfoldable pub files_config : Dict String String → Bool → FilesConfig
  files_config optional_overrides is_deneb_experiment =
      let files =
        add_overrides optional_overrides
          (record { fields = known_fields; attributes = known_attributes is_deneb_experiment }) in
      record { fields = files.fields; attributes = without "fields" files.attributes }

-- The variables of the trusted setup.
unfoldable pub deneb_vars : GlobalSettings → FilesConfig → Result EnvVars
deneb_vars s files =
    if s.is_deneb
    then (do
      trusted_setup_json_file ← attribute "trusted_setup_json_file" files
      trusted_setup_txt_file ← attribute "trusted_setup_txt_file" files
      ok (
          ("TRUSTED_SETUP_JSON_FILE", text trusted_setup_json_file)
          ∷ ("TRUSTED_SETUP_TXT_FILE", text trusted_setup_txt_file)
          ∷ []))
    else ok []

abbrev pub override_vars : Dict String String → EnvVars
override_vars = map (λ (key, value). (to_env_key key, text value))

-- The variables that every testnet has, given the paths that they name.
unfoldable pub base_vars :
    GlobalSettings
    → (etb_config consensus execution consensus_bootnode bootnode_file : String) → EnvVars
base_vars s etb_config consensus execution consensus_bootnode bootnode_file =
    ("ETB_CONFIG_CHECKPOINT_FILE", text etb_config)
    ∷ ("CONSENSUS_CHECKPOINT_FILE", text consensus)
    ∷ ("EXECUTION_CHECKPOINT_FILE", text execution)
    ∷ ("CONSENSUS_BOOTNODE_CHECKPOINT_FILE", text consensus_bootnode)
    ∷ ("CONSENSUS_BOOTNODE_FILE", text bootnode_file)
    ∷ ("IP_SUBNET", text s.ip_subnet)
    ∷ ("NUM_CLIENT_NODES", number s.num_client_nodes)
    ∷ ("CHAIN_ID", number s.chain_id)
    ∷ ("NETWORK_ID", number s.network_id)
    ∷ ("IS_DENEB", text (str_int s.is_deneb))
    ∷ ("DISABLE_PEER_SCORING", text (str_int s.disable_peer_scoring))
    ∷ []

-- `global_env_vars` of `get_docker_compose_repr`.
unfoldable pub global_env_vars :
    (order : List String → List String) → GlobalSettings → FilesConfig → Result EnvVars
global_env_vars order s files = do
  etb_config ← attribute "etb_config_checkpoint_file" files
  consensus ← attribute "consensus_checkpoint_file" files
  execution ← attribute "execution_checkpoint_file" files
  consensus_bootnode ← attribute "consensus_bootnode_checkpoint_file" files
  bootnode_file ← attribute "consensus_bootnode_file" files
  deneb ← deneb_vars s files
  let vars = base_vars s etb_config consensus execution consensus_bootnode bootnode_file
  overrides ← override_files order files.fields
  ok (update (update vars deneb) (override_vars overrides))
