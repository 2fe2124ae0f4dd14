-- ===== src/Config/Environment/Layers.antt =====
-- Which value a variable has in the environment of a client (src/etb/config/etb_config.py).
use ethereum_testnet_bootstr.Base.{
  String, ◌≡◌, ◌∙◌, refl, Option, none, some, List, [], ◌∷◌, ◌==◌, string_eq, arith, if◌then◌else◌,
}
use ethereum_testnet_bootstr.Base.Dict.{lookup, insert, lookup-insert, NodupKeys, insert-NodupKeys}
use ethereum_testnet_bootstr.Config.Environment.{
  EnvValue, text, EnvVars, update, execution_env_vars, consensus_env_vars, additional_env_vars,
  collection_env_vars, client_collection_env_vars, instance_env_vars, client_env_vars, EnvClient,
  client_environment, with_genesis_file,
}

abbrev pub or_else : Option EnvValue → Option EnvValue → Option EnvValue
or_else none v = v
or_else (some u) v = some u

-- The value of the last entry of a key.
abbrev pub latest : String → EnvVars → Option EnvValue
latest k [] = none
latest k ((j, v) ∷ e) = or_else (latest k e) (if k == j then some v else none)

-- The value in the topmost layer that sets the variable.
abbrev pub value_in : String → List EnvVars → Option EnvValue
value_in k [] = none
value_in k (layer ∷ layers) = or_else (latest k layer) (value_in k layers)

or_else_assoc : (a b c : Option EnvValue) → or_else (or_else a b) c ≡ or_else a (or_else b c)
or_else_assoc none b c = refl
or_else_assoc (some u) b c = refl

pub lookup-update :
    (k : String) (d e : EnvVars) → lookup k (update d e) ≡ or_else (latest k e) (lookup k d)
unfolding update
lookup-update k d [] = refl
lookup-update k d ((j, v) ∷ e) =
    lookup-update k (insert j v d) e ∙ ground (arith, lookup-insert k j v d)

update-NodupKeys : (d e : EnvVars) → NodupKeys d → NodupKeys (update d e)
unfolding update
update-NodupKeys d [] u = u
update-NodupKeys d ((j, v) ∷ e) u = update-NodupKeys (insert j v d) e (insert-NodupKeys j v d u)

latest-eq-lookup : (k : String) (d : EnvVars) → NodupKeys d → latest k d ≡ lookup k d
latest-eq-lookup k [] u = refl
latest-eq-lookup k ((j, v) ∷ d) u = ground (arith, latest-eq-lookup k d u.1)

-- Updating a dict in which no key is listed twice puts a layer on top of it.
latest-update :
    (k : String) (d e : EnvVars)
    → NodupKeys d
    → latest k (update d e) ≡ or_else (latest k e) (latest k d)
latest-update k d e u = ground (
  arith,
  latest-eq-lookup k (update d e) (update-NodupKeys d e u),
  lookup-update k d e,
  latest-eq-lookup k d u,
)

-- The layers of a client's environment, the topmost first.
abbrev pub layers : String → EnvClient → List EnvVars
layers testnet_dir i =
    client_env_vars testnet_dir i.base i.consensus_config i.execution_config
    ∷ execution_env_vars i.execution_config
    ∷ consensus_env_vars i.consensus_config
    ∷ additional_env_vars i.collection.additional_env
    ∷ (("MOCK_BUILDER", text i.collection.mock_builder) ∷ [])
    ∷ (("IP_ADDRESS", text i.base.ip_address) ∷ ("CONTAINER_NAME", text i.base.name) ∷ [])
    ∷ []

collection-latest :
    (k : String) (i : EnvClient)
    → latest k (client_collection_env_vars i.collection i.consensus_config i.execution_config)
      ≡ value_in k (
          execution_env_vars i.execution_config
          ∷ consensus_env_vars i.consensus_config
          ∷ additional_env_vars i.collection.additional_env
          ∷ (("MOCK_BUILDER", text i.collection.mock_builder) ∷ [])
          ∷ [])
unfolding client_collection_env_vars collection_env_vars
collection-latest k i =
    let mock : EnvVars = ("MOCK_BUILDER", text i.collection.mock_builder) ∷ [] in
    let added = additional_env_vars i.collection.additional_env in
    let c = consensus_env_vars i.consensus_config in
    let e = execution_env_vars i.execution_config in
    let u = update-NodupKeys mock added (refl, tt) in
    let u' = update-NodupKeys (update mock added) c u in
    ground (
      arith,
      latest-update k (update (update mock added) c) e u',
      latest-update k (update mock added) c u,
      latest-update k mock added (refl, tt),
    )

basics-NodupKeys :
    (ip name : String)
    → NodupKeys {K = String} (("IP_ADDRESS", text ip) ∷ ("CONTAINER_NAME", text name) ∷ [])
unfolding string_eq
basics-NodupKeys ip name = (refl, (refl, tt))

lookup-client_environment :
    (k testnet_dir : String) (global_env_vars : EnvVars) (i : EnvClient)
    → lookup k (client_environment testnet_dir global_env_vars i)
      ≡ or_else (value_in k (layers testnet_dir i)) (lookup k global_env_vars)
unfolding client_environment instance_env_vars
lookup-client_environment k testnet_dir g i =
    let own = client_env_vars testnet_dir i.base i.consensus_config i.execution_config in
    let basics : EnvVars =
      ("IP_ADDRESS", text i.base.ip_address) ∷ ("CONTAINER_NAME", text i.base.name) ∷ [] in
    let shared = client_collection_env_vars i.collection i.consensus_config i.execution_config in
    ground (
      arith,
      lookup-update k (update g (update basics shared)) own,
      lookup-update k g (update basics shared),
      latest-update k basics shared (basics-NodupKeys i.base.ip_address i.base.name),
      collection-latest k i,
    )

-- A variable of a client's service has the value of the topmost layer that sets it: the genesis file that
-- is added last, what is specific to the client, the execution config, the consensus config, the
-- additional variables (the last of those that come to one name), the builder, the instance's address and
-- name, and last the global variables.
pub client_environment-value_in :
    (k genesis_file testnet_dir : String) (global_env_vars : EnvVars) (i : EnvClient)
    → lookup k (with_genesis_file genesis_file (client_environment testnet_dir global_env_vars i))
      ≡ or_else
          (value_in k ((("EXECUTION_GENESIS_FILE", text genesis_file) ∷ []) ∷ layers testnet_dir i))
          (lookup k global_env_vars)
client_environment-value_in k genesis_file testnet_dir g i = ground (
  arith,
  lookup-insert k "EXECUTION_GENESIS_FILE" (text genesis_file) (client_environment testnet_dir g i),
  lookup-client_environment k testnet_dir g i,
)
