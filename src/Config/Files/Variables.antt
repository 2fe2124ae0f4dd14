-- ===== src/Config/Files/Variables.antt =====
-- The global variables of the docker-compose file and the files of the etb-config file
-- (src/etb/config/etb_config.py).
use ethereum_testnet_bootstr.Base.{
  ◌≡◌, refl, sym, ap, ◌∙◌, String, Bool, true, false, Option, none, some, [], ◌∷◌, ok, List, not,
  ◌&&◌, ◌||◌, ◌==◌, if◌then◌else◌, string_eq, contains, arith, Bool-cases, inl, inr,
}
use ethereum_testnet_bootstr.Base.Dict.{Dict, lookup, has_key, NodupKeys}
use ethereum_testnet_bootstr.Config.Environment.{text, EnvVars, update, to_env_key}
use ethereum_testnet_bootstr.Config.Environment.Layers.{latest, lookup-update}
use ethereum_testnet_bootstr.Config.Files.{
  file_table, known_fields, FilesConfig, known_attributes, files_config, GlobalSettings, new_keys,
  fields_at, override_files, deneb_vars, override_vars, base_vars, global_env_vars,
}
use ethereum_testnet_bootstr.Config.Files.Overrides.{preferred, newest, files_config-newest}

contains-new_keys :
    (k : String) (fields : Dict String String)
    → contains (new_keys fields) k ≡ (has_key k fields && not (has_key k known_fields))
unfolding new_keys
contains-new_keys k [] = refl
contains-new_keys k ((j, v) ∷ fields) = ground (arith, contains-new_keys k fields)

-- Some key comes to a variable.
comes_to : String → List String → Bool
comes_to variable [] = false
comes_to variable (k ∷ ks) = variable == to_env_key k || comes_to variable ks

comes_to-contains :
    (k : String) (ks : List String) → contains ks k ≡ true → comes_to (to_env_key k) ks ≡ true
unfolding comes_to
comes_to-contains k [] h = cc
comes_to-contains k (j ∷ ks) h = elim (Bool-cases (k == j)) [
  | inl same ↦
      let it : to_env_key k ≡ to_env_key j = ap to_env_key (ground (arith, same)) in
      ground (arith, it)
  | inr other ↦ ground (arith, comes_to-contains k ks (ground (arith, other)))
]

-- Fields all of which have one value where they come to the variable.
module _ (fields : Dict String String) (variable value : String) where
  IsReadable : String → Type 0
  IsReadable k = (w : String) × (lookup k fields ≡ some w) × (variable ≡ to_env_key k → w ≡ value)

  fields_at-latest :
      (ks : List String)
      → ((k : String) → contains ks k ≡ true → IsReadable k)
      → (d : Dict String String) × (fields_at fields ks ≡ ok d)
        × (latest variable (override_vars d)
            ≡ (if comes_to variable ks then some (text value) else none))
  unfolding fields_at comes_to IsReadable
  fields_at-latest [] h = ([], refl, refl)
  fields_at-latest (k ∷ ks) h =
      let (w, found, same) = h k (ground arith) in
      let (d, made, last) = fields_at-latest ks (λ j p. h j (ground (arith, p))) in
      (
        (k, w) ∷ d,
        rw (found, made) refl,
        elim (Bool-cases (variable == to_env_key k)) [
          | inl it ↦
              let value' : w ≡ value = same (ground (arith, it)) in
              ground (arith, it, last, ap text value')
          | inr other ↦ ground (arith, other, last)
        ],
      )

has-some :
    (o : Option String)
    → elim o [ none ↦ false | some _ ↦ true ] ≡ true
    → (w : String) × (o ≡ some w)
has-some none h = cc
has-some (some w) h = (w, refl)

has_key-lookup :
    (k : String) (d : Dict String String)
    → has_key k d ≡ true
    → (w : String) × (lookup k d ≡ some w)
has_key-lookup k d h = has-some (lookup k d) h

-- What is there stays there behind something preferred.
preferred-some : (o : Option String) (v : String) → (w : String) × (preferred o (some v) ≡ some w)
preferred-some none v = (v, refl)
preferred-some (some w) v = (w, refl)

-- The attributes that the variables read.
module _ (s : GlobalSettings) (files : FilesConfig) where
  abbrev Has : String → Type 0
  Has name = (p : String) × (lookup name files.attributes ≡ some p)

  deneb_vars-ok :
      (b : Bool)
      → s.is_deneb ≡ b
      → (b ≡ true → Has "trusted_setup_json_file" × Has "trusted_setup_txt_file")
      → (vars : EnvVars) × (deneb_vars s files ≡ ok vars)
  unfolding deneb_vars
  deneb_vars-ok false e h = ([], ground (arith, e))
  deneb_vars-ok true e h =
      let ((json, j), (txt, t)) = h refl in
      (
        ("TRUSTED_SETUP_JSON_FILE", text json) ∷ ("TRUSTED_SETUP_TXT_FILE", text txt) ∷ [],
        rw (e, j, t) refl,
      )

  global_env_vars-update :
      (order : List String → List String) (vars : EnvVars) {d : Dict String String}
      → override_files order files.fields ≡ ok d
      → deneb_vars s files ≡ ok vars
      → Has "etb_config_checkpoint_file"
      → Has "consensus_checkpoint_file"
      → Has "execution_checkpoint_file"
      → Has "consensus_bootnode_checkpoint_file"
      → Has "consensus_bootnode_file"
      → (before : EnvVars) × (global_env_vars order s files ≡ ok (update before (override_vars d)))
  unfolding global_env_vars
  global_env_vars-update order vars made d (a, p) (b, q) (c, r) (e, u) (f, v) =
      (update (base_vars s a b c e f) vars, rw (p, q, r, u, v, d, made) refl)

module _ (path : String → String) where
  IsAt : String → String → Bool → Type 0
  IsAt name p is_deneb = lookup name (known_attributes path is_deneb) ≡ some (path p)

  checkpoint_paths :
      (b : Bool)
      → IsAt "etb_config_checkpoint_file" "/data/etb-config-checkpoint.txt" b
        × IsAt "consensus_checkpoint_file" "/data/consensus-checkpoint.txt" b
        × IsAt "execution_checkpoint_file" "/data/execution-checkpoint.txt" b
        × IsAt "consensus_bootnode_checkpoint_file" "/data/consensus-bootnode-checkpoint.txt" b
        × IsAt "consensus_bootnode_file" "/data/consensus-bootnodes.txt" b
  unfolding IsAt known_attributes file_table string_eq
  checkpoint_paths b = (refl, refl, refl, refl, refl)

  checkpoints_differ :
      (◌==◌ {A = String} "etb_config_checkpoint_file" "fields" ≡ false)
      × (◌==◌ {A = String} "consensus_checkpoint_file" "fields" ≡ false)
      × (◌==◌ {A = String} "execution_checkpoint_file" "fields" ≡ false)
      × (◌==◌ {A = String} "consensus_bootnode_checkpoint_file" "fields" ≡ false)
      × (◌==◌ {A = String} "consensus_bootnode_file" "fields" ≡ false)
  unfolding string_eq
  checkpoints_differ = (refl, refl, refl, refl, refl)

  differs :
      (◌==◌ {A = String} "trusted_setup_json_file" "fields" ≡ false)
      × (◌==◌ {A = String} "trusted_setup_txt_file" "fields" ≡ false)
  unfolding string_eq
  differs = (refl, refl)

  trusted_setup_paths :
      IsAt "trusted_setup_json_file" "/data/trusted-setup.json" true
      × IsAt "trusted_setup_txt_file" "/data/trusted-setup.txt" true
  unfolding IsAt known_attributes file_table string_eq
  trusted_setup_paths = (refl, refl)

  -- An attribute that the code sets is there, whatever the overrides.
  files_config-attribute :
      (s : GlobalSettings) (overrides : Dict String String) (name p : String)
      → NodupKeys overrides
      → (name == "fields") ≡ false
      → IsAt name p s.is_deneb
      → Has s (files_config path overrides s.is_deneb) name
  unfolding IsAt
  files_config-attribute s overrides name p u differs e =
      let (w, same) = preferred-some (newest path name overrides) (path p) in
      (w, (files_config-newest path overrides s.is_deneb u).1 name ∙ rw (differs, e) refl ∙ same)

  -- A key that the code does not know is read from the overrides.
  files_config-new :
      (overrides : Dict String String) (is_deneb : Bool) (k : String)
      → NodupKeys overrides
      → has_key k known_fields ≡ false
      → lookup k (files_config path overrides is_deneb).fields ≡ lookup k overrides
  files_config-new overrides is_deneb k u h =
      ground (arith, h, (files_config-newest path overrides is_deneb u).0 k)

  -- An override whose key the code does not know, and no other of which comes to its variable with
  -- another value.
  abbrev pub IsOnly : Dict String String → String → String → Type 0
  IsOnly overrides key value =
      (lookup key overrides ≡ some value)
      × (has_key key known_fields ≡ false)
      × ((k w : String)
          → lookup k overrides ≡ some w
          → has_key k known_fields ≡ false
          → to_env_key key ≡ to_env_key k
          → w ≡ value)

  pub global_env_vars-latest :
      (order : List String → List String)
      → ((ks : List String) (k : String) → contains (order ks) k ≡ contains ks k)
      → (s : GlobalSettings) (overrides : Dict String String) (key value : String)
      → NodupKeys overrides
      → IsOnly overrides key value
      → (vars : EnvVars) × (global_env_vars order s (files_config path overrides s.is_deneb)
          ≡ ok vars)
        × (lookup (to_env_key key) vars ≡ some (text value))
  unfolding override_files IsReadable
  global_env_vars-latest order members s overrides key value u (given, new, only) =
      let files = files_config path overrides s.is_deneb in
      let ks = order (new_keys files.fields) in
      let is_new : (k : String)
          → contains ks k ≡ (has_key k files.fields && not (has_key k known_fields)) =
        λ k. members (new_keys files.fields) k ∙ contains-new_keys k files.fields in
      let readable : (k : String)
          → contains ks k ≡ true
          → IsReadable files.fields (to_env_key key) value k =
        λ k h.
          let unknown : has_key k known_fields ≡ false = ground (arith, is_new k, h) in
          let (w, found) = has_key-lookup k files.fields (ground (arith, is_new k, h)) in
          (
            w,
            found,
            only k w (sym (files_config-new overrides s.is_deneb k u unknown) ∙ found) unknown,
          ) in
      let (d, made, last) = fields_at-latest files.fields (to_env_key key) value ks readable in
      let listed : contains ks key ≡ true =
        ground (arith, is_new key, new, files_config-new overrides s.is_deneb key u new, given) in
      let has : (name p : String)
          → (name == "fields") ≡ false
          → IsAt name p s.is_deneb
          → Has s files name =
        λ name p. files_config-attribute s overrides name p u in
      let (etb, consensus, execution, bootnode, nodes) = checkpoint_paths s.is_deneb in
      let (json, txt) = trusted_setup_paths in
      let (deneb, v) = deneb_vars-ok s files s.is_deneb refl (λ d. (
        has "trusted_setup_json_file" "/data/trusted-setup.json" (differs.0) (rw d json),
        has "trusted_setup_txt_file" "/data/trusted-setup.txt" (differs.1) (rw d txt),
      )) in
      let (a, b, c, e, f) = checkpoints_differ in
      let (before, same) =
        global_env_vars-update s files order deneb made v (has _ _ a etb) (has _ _ b consensus)
          (has _ _ c execution) (has _ _ e bootnode) (has _ _ f nodes) in
      (
        update before (override_vars d),
        same,
        lookup-update (to_env_key key) before (override_vars d)
            ∙ ground (arith, last, comes_to-contains key ks listed),
      )
