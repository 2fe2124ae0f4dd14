-- ===== src/Examples/Files.antt =====
-- Runs of `FilesConfig` and of the global variables (src/etb/config/etb_config.py).
use ethereum_testnet_bootstr.Base.{
  ◌≡◌, refl, String, true, false, none, some, List, [], ◌∷◌, ◌++◌, ◌||◌, ◌==◌, if◌then◌else◌,
  contains, arith, ok, ap, ◌∙◌, Bool-cases, inl, inr, string_eq, ℕ_discrete,
}
use ethereum_testnet_bootstr.Base.Dict.{Dict, lookup, has_key}
use ethereum_testnet_bootstr.Config.Environment.{text, EnvVars, to_env_key, to_env_char}
use ethereum_testnet_bootstr.Config.Files.{
  underscored, file_table, known_fields, known_attributes, files_config, add_overrides, without,
  GlobalSettings, global_env_vars,
}
use ethereum_testnet_bootstr.Config.Files.Overrides.{preferred, newest, files_config-newest}
use ethereum_testnet_bootstr.Config.Files.Variables.{IsOnly, global_env_vars-latest}

-- A key that the code knows, one that comes to an attribute of the code, and a new one.
abbrev overrides : Dict String String
overrides =
    ("geth-genesis-file", "/tmp/geth.json")
    ∷ ("besu_genesis-file", "/tmp/besu.json")
    ∷ ("my-file", "/tmp/mine")
    ∷ []

abbrev settings : GlobalSettings
settings = record {
  ip_subnet = "10.0.20.0/24";
  num_client_nodes = 4;
  chain_id = 32382;
  network_id = 32382;
  is_deneb = true;
  disable_peer_scoring = false;
}

files_config-newest_example :
    let files = files_config (λ p. p) overrides true in
    ((key : String)
      → lookup key files.fields ≡ preferred (lookup key known_fields) (lookup key overrides))
    × ((name : String)
        → lookup name files.attributes ≡ (
            if name == "fields"
            then none
            else preferred
                (newest (λ p. p) name overrides)
                (lookup name (known_attributes (λ p. p) true))))
unfolding string_eq
files_config-newest_example = files_config-newest (λ p. p) overrides true (refl, (refl, (refl, tt)))

kept :
    lookup "geth_genesis_file" (files_config (λ p. p) overrides true).attributes
    ≡ some "/data/geth-genesis.json"
unfolding files_config add_overrides without known_fields known_attributes file_table underscored
    string_eq ℕ_discrete
kept = refl

replaced :
    lookup "besu_genesis_file" (files_config (λ p. p) overrides true).attributes
    ≡ some "/tmp/besu.json"
unfolding files_config add_overrides without known_fields known_attributes file_table underscored
    string_eq ℕ_discrete
replaced = refl

-- A set is gone through in some order, here backwards.
backwards : List String → List String
backwards [] = []
backwards (k ∷ ks) = backwards ks ++ (k ∷ [])

contains-append :
    (xs ys : List String) (k : String) → contains (xs ++ ys) k ≡ (contains xs k || contains ys k)
contains-append [] ys k = refl
contains-append (x ∷ xs) ys k = ground (arith, contains-append xs ys k)

contains-backwards : (ks : List String) (k : String) → contains (backwards ks) k ≡ contains ks k
unfolding backwards
contains-backwards [] k = refl
contains-backwards (j ∷ ks) k =
    ground (arith, contains-append (backwards ks) (j ∷ []) k, contains-backwards ks k)

geth_known : has_key "geth-genesis-file" known_fields ≡ true
unfolding known_fields file_table string_eq
geth_known = refl

variables_differ : ◌==◌ {A = String} (to_env_key "my-file") (to_env_key "besu_genesis-file") ≡ false
unfolding to_env_key to_env_char string_eq ℕ_discrete
variables_differ = refl

-- The first override is known, and the second comes to another variable.
no_other :
    (k w : String)
    → lookup k overrides ≡ some w
    → has_key k known_fields ≡ false
    → to_env_key "my-file" ≡ to_env_key k
    → w ≡ "/tmp/mine"
no_other k w given new same = elim (Bool-cases (k == "geth-genesis-file")) [
  | inl p ↦
      let it : k ≡ "geth-genesis-file" = ground (arith, p) in
      let known : has_key k known_fields ≡ true = rw it geth_known in ground (arith, known, new)
  | inr n ↦ elim (Bool-cases (k == "besu_genesis-file")) [
    | inl p ↦
        let it : k ≡ "besu_genesis-file" = ground (arith, p) in
        let same' : to_env_key "my-file" ≡ to_env_key "besu_genesis-file" =
          same ∙ ap to_env_key it in
        ground (arith, same', variables_differ)
    | inr n' ↦ ground (arith, given, n, n')
  ]
]

my_file_alone : IsOnly (λ p. p) overrides "my-file" "/tmp/mine"
unfolding known_fields file_table to_env_key to_env_char string_eq ℕ_discrete
my_file_alone = (refl, refl, no_other)

global_env_vars-latest_example :
    (vars : EnvVars) × (global_env_vars backwards settings (files_config (λ p. p) overrides true)
      ≡ ok vars)
    × (lookup (to_env_key "my-file") vars ≡ some (text "/tmp/mine"))
unfolding string_eq
global_env_vars-latest_example =
    global_env_vars-latest (λ p. p) backwards contains-backwards settings overrides "my-file"
      "/tmp/mine" (refl, (refl, (refl, tt))) my_file_alone
