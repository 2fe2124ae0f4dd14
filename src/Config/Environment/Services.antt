-- ===== src/Config/Environment/Services.antt =====
-- The services of the docker-compose file: `get_docker_compose_repr` of the instances and of
-- `ETBConfig` (src/etb/config/etb_config.py).
use Prim.Native.Char.{code}
use ethereum_testnet_bootstr.Base.{
  String, ◌<>◌, ◌||◌, Option, none, some, List, [], ◌∷◌, ◌++◌, Result, ok, Error, ◌>>=◌, or_raise,
  ◌==◌, nat_eq, string_eq, if◌then◌else◌,
}
use ethereum_testnet_bootstr.Base.Dict.{Dict, lookup, insert}
use ethereum_testnet_bootstr.Base.Text.{onto_head}
use ethereum_testnet_bootstr.Config.Instances.{Instance}
use ethereum_testnet_bootstr.Config.Environment.{
  EnvVars, EnvCollection, collection_env_vars, EnvClient, instance_environment, client_environment,
  with_genesis_file,
}

pub record DockerConfig : Type 0 where
  pub network_name : String
  pub ip_subnet : String
  pub volumes : List String

-- What a collection says of its containers.
pub record Container : Type 0 where
  pub image : String
  pub tag : String
  pub additional_volumes : List String
  pub entrypoint : Option String
  pub docker_command : Option (List String)
  pub ports : Option (List String)
  pub restart : Option String

pub record Service : Type 0 where
  pub container_name : String
  pub hostname : String
  pub image : String
  pub volumes : List String
  pub network : String
  pub ipv4_address : String
  pub entrypoint : List String
  pub command : Option (List String)
  pub ports : Option (List String)
  pub restart : Option String
  pub environment : EnvVars

-- `s.split()`, for the spaces of ASCII. The flag tells whether a word has begun.
unfoldable pub words : String → List String
words String.[] = []
words (String.◌∷◌ c String.[]) =
    if code c == b' ' || code c == 9 || code c == 10 then [] else String.◌∷◌ c "" ∷ []
words (String.◌∷◌ c (String.◌∷◌ d s)) =
    let rest = words (String.◌∷◌ d s) in
    if code c == b' ' || code c == 9 || code c == 10
    then rest
    else if code d == b' ' || code d == 9 || code d == 10
    then String.◌∷◌ c "" ∷ rest
    else onto_head c rest

-- `Instance.get_docker_compose_repr`; the last argument is the instance's own command, if it has one.
unfoldable pub service_of :
    DockerConfig → EnvVars → Instance → Container → Option (List String) → Service
service_of docker environment i k own_command = record {
  container_name = i.name;
  hostname = i.name;
  image = k.image <> (":" <> k.tag);
  volumes = docker.volumes ++ k.additional_volumes;
  network = docker.network_name;
  ipv4_address = i.ip_address;
  entrypoint = elim k.entrypoint [ none ↦ "/bin/sh" ∷ "-c" ∷ [] | some path ↦ words path ];
  command = elim k.docker_command [ none ↦ own_command | some command ↦ some command ];
  ports = k.ports;
  restart = k.restart;
  environment = environment;
}

-- `docker_command` of a client instance: both launchers in one container.
abbrev pub launch_both : EnvClient → List String
launch_both i = (i.execution_config.launcher <> (" & " <> i.consensus_config.launcher)) ∷ []

-- `ClientInstance.get_docker_compose_repr`, whose own command replaces the collection's.
unfoldable pub client_service_of : String → DockerConfig → EnvVars → EnvClient → Container → Service
unfolding service_of
client_service_of testnet_dir docker global_env_vars i k =
    let entry =
      service_of docker (client_environment testnet_dir global_env_vars i) i.base k
        (some (launch_both i)) in
    record entry { command = some (launch_both i) }

-- The genesis files by execution client.
pub record GenesisFiles : Type 0 where
  pub geth_genesis_file : String
  pub besu_genesis_file : String
  pub nether_mind_genesis_file : String

abbrev pub execution_genesis_map : GenesisFiles → Dict String String
execution_genesis_map files =
    ("geth", files.geth_genesis_file)
    ∷ ("reth", files.geth_genesis_file)
    ∷ ("besu", files.besu_genesis_file)
    ∷ ("nethermind", files.nether_mind_genesis_file)
    ∷ []

-- The loop over the generic instances.
unfoldable pub add_generic_services :
    DockerConfig
    → EnvVars
    → List (Instance × EnvCollection × Container)
    → Dict String Service
    → Dict String Service
unfolding service_of
add_generic_services docker global_env_vars [] services = services
add_generic_services docker global_env_vars ((i, collection, k) ∷ is) services =
    let environment = instance_environment global_env_vars i (collection_env_vars collection) in
    add_generic_services docker global_env_vars is
      (insert i.name (service_of docker environment i k none) services)

-- The loop over the client instances. A client whose execution client has no genesis file raises.
unfoldable pub add_client_services :
    GenesisFiles
    → String
    → DockerConfig
    → EnvVars
    → List (EnvClient × Container)
    → Dict String Service
    → Result (Dict String Service)
add_client_services files testnet_dir docker global_env_vars [] services = ok services
add_client_services files testnet_dir docker global_env_vars ((i, k) ∷ is) services =
    let entry = client_service_of testnet_dir docker global_env_vars i k in
    or_raise (lookup i.execution_config.client (execution_genesis_map files))
      (Error.unknown "execution client" i.execution_config.client)
    >>= λ genesis_file.
        let environment = with_genesis_file genesis_file entry.environment in
        add_client_services files testnet_dir docker global_env_vars is
          (insert i.base.name (record entry { environment = environment }) services)

-- `ETBConfig.get_docker_compose_repr`, whose networks are the one of the docker config.
unfoldable pub get_services :
    GenesisFiles
    → String
    → DockerConfig
    → EnvVars
    → List (Instance × EnvCollection × Container)
    → List (EnvClient × Container)
    → Result (Dict String Service)
get_services files testnet_dir docker global_env_vars generic clients =
    add_client_services files testnet_dir docker global_env_vars clients
      (add_generic_services docker global_env_vars generic [])
