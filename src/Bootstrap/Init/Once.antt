-- ===== src/Bootstrap/Init/Once.antt =====
-- That `init_testnet` of src/testnet_bootstrapper.py initializes a testnet once, and which keystores it
-- generates.
use ethereum_testnet_bootstr.Base.{
  ◌≡◌, refl, ap, ◌∙◌, ◌<>◌, Bool, true, false, not, ◌||◌, List, [], ◌∷◌, ◌++◌, ok, Error, contains,
  map, raise_if-eq-ok, >>=-eq-ok, ◌==◌, string_eq, if◌then◌else◌, arith, Bool-cases, inl, inr,
}
use ethereum_testnet_bootstr.Base.Runs.{Run, returned, raised, ◌>>=◌, ◌>>◌, act, return, call}
use ethereum_testnet_bootstr.Config.Instances.{ClientInstance}
use ethereum_testnet_bootstr.Bootstrap.Keystores.{
  supported_clients, KeystoreRange, min_ndx, max_ndx, write_validator_keystores,
}
use ethereum_testnet_bootstr.Config.Environment.Services.{Service}
use ethereum_testnet_bootstr.Bootstrap.Assertoor.{AssertorConfig}
use ethereum_testnet_bootstr.Bootstrap.Prometheus.{PrometheusConfig}
use ethereum_testnet_bootstr.Bootstrap.Init.{
  InitAction, touched, made_dir, wrote_assertor, wrote_jwt_secret, generated, wrote_config, copied,
  opened, wrote_services, Disk, Setup, populate_directories, move_trusted_setup_files,
  trusted_setup_json, trusted_setup_txt, write_keystores, populate_testnet, init_testnet,
}

-- The disk behind actions: a file that is touched is there.
abbrev pub disk_after : Disk → List InitAction → Disk
disk_after disk [] path = disk path
disk_after disk (touched file ∷ es) path = path == file || disk_after disk es path
disk_after disk (_ ∷ es) path = disk_after disk es path

-- A run that does nothing but raise.
abbrev pub refused : Run InitAction (Unit {0})
refused = ([], raised (Error.value_error "init_file exists"))

init_testnet-refused :
    (s : Setup) (disk : Disk) → disk s.init_file ≡ true → init_testnet s disk ≡ refused
unfolding init_testnet
init_testnet-refused s disk h = rw h refl

init_testnet-touched :
    (s : Setup) (disk : Disk)
    → disk s.init_file ≡ false
    → init_testnet s disk ≡ (act (touched s.init_file) >> populate_testnet s disk)
unfolding init_testnet
init_testnet-touched s disk h = rw h refl

-- Behind any run, also one that raised, the init file is there.
disk_after-init_file :
    (s : Setup) (disk : Disk) → disk_after disk (init_testnet s disk).0 s.init_file ≡ true
unfolding ◌>>=◌ act
disk_after-init_file s disk = elim (Bool-cases (disk s.init_file)) [
  | inl there ↦ rw (init_testnet-refused s disk there) there
  | inr missing ↦ rw (init_testnet-touched s disk missing) ground arith
]

dirs_of : Setup → List ClientInstance → List InitAction
dirs_of s [] = []
dirs_of s (i ∷ is) = made_dir (s.el_dir i) ∷ wrote_jwt_secret (s.jwt_secret_file i) ∷ dirs_of s is

populate_directories-dirs_of :
    (s : Setup) (is : List ClientInstance) → populate_directories s is ≡ (dirs_of s is, returned tt)
unfolding populate_directories dirs_of ◌>>=◌ act return
populate_directories-dirs_of s [] = refl
populate_directories-dirs_of s (i ∷ is) = rw (populate_directories-dirs_of s is) refl

write_keystores-ranges :
    (is : List ClientInstance) {ranges : List KeystoreRange}
    → write_validator_keystores is ≡ ok ranges
    → write_keystores is ≡ (map generated ranges, returned tt)
unfolding write_keystores write_validator_keystores ◌>>=◌ act return call
write_keystores-ranges [] {ranges} h =
    let none_written : [] ≡ ranges = ground (arith, h) in
    ap (λ r. (map generated r, returned tt)) none_written
write_keystores-ranges (i ∷ is) {ranges} h =
    let (supported, h1) =
      raise_if-eq-ok (not (contains supported_clients i.consensus_config.client))
        (Error.not_supported i.consensus_config.client) _ h in
    let (rest, h2, h3) = >>=-eq-ok (write_validator_keystores is) _ h1 in
    let all : (i.instance_base.name, min_ndx i, max_ndx i) ∷ rest ≡ ranges = ground (arith, h3) in
    rw (supported, write_keystores-ranges is h2) (ap (λ r. (map generated r, returned tt)) all)

-- What the populating of a testnet needs, and what it comes to.
module _ (s : Setup) (disk : Disk) where
  unfoldable pub CanPopulate :
      AssertorConfig → List KeystoreRange → List Service → PrometheusConfig → Type 0
  CanPopulate assertor ranges services prometheus =
      (disk s.local_testnet_dir ≡ false)
      × (disk s.etb_config_checkpoint_file ≡ false)
      × (s.assertor_config ≡ ok assertor)
      × (write_validator_keystores s.client_instances ≡ ok ranges)
      × (s.is_deneb ≡ true → (disk trusted_setup_json ≡ true) × (disk trusted_setup_txt ≡ true))
      × (s.services ≡ ok services)
      × (s.prometheus_config ≡ ok prometheus)

  setup_copies : List InitAction
  setup_copies =
      if s.is_deneb
      then copied trusted_setup_txt s.trusted_setup_txt_file
        ∷ copied trusted_setup_json s.trusted_setup_json_file
        ∷ []
      else []

  pub expected_actions : AssertorConfig → List KeystoreRange → List Service → List InitAction
  expected_actions assertor ranges services =
      made_dir s.local_testnet_dir
      ∷ made_dir s.local_logs_dir
      ∷ wrote_assertor assertor
      ∷ (dirs_of s s.client_instances
          ++ (map generated ranges
              ++ (wrote_config s.etb_config_path
                  ∷ (setup_copies
                      ++ (opened s.docker_compose_file
                          ∷ wrote_services services
                          ∷ made_dir s.prometheus_conf_dir
                          ∷ opened (s.prometheus_conf_dir <> "/prometheus.yml")
                          ∷ [])))))

  setup-copies :
      (b : Bool)
      → s.is_deneb ≡ b
      → (b ≡ true → (disk trusted_setup_json ≡ true) × (disk trusted_setup_txt ≡ true))
      → (if s.is_deneb then move_trusted_setup_files s disk else return tt)
        ≡ (setup_copies, returned tt)
  unfolding setup_copies move_trusted_setup_files ◌>>=◌ act return call
  setup-copies false e h = rw e refl
  setup-copies true e h = let (j, t) = h refl in rw (e, j, t) refl

  -- Behind any run, also one that raised, another run raises at once and does nothing.
  pub init_testnet-disk_after : init_testnet s (disk_after disk (init_testnet s disk).0) ≡ refused
  init_testnet-disk_after = init_testnet-refused s _ (disk_after-init_file s disk)

  -- Where the init file, the directory of the testnet and the checkpoint of the config are missing, the configs can be made, the
  -- keystores can be written and, with Deneb, the setup files are there, a run returns. It touches the
  -- init file, makes the directories, writes the config of Assertoor, makes each instance's directory
  -- and writes its secret, generates the keystores in order, writes the config, copies the setup files
  -- with Deneb, and writes the docker-compose file; the file of Prometheus is opened, and nothing is
  -- written to it.
  pub init_testnet-expected_actions :
      (assertor : AssertorConfig) (ranges : List KeystoreRange) (services : List Service)
      (prometheus : PrometheusConfig)
      → disk s.init_file ≡ false
      → CanPopulate assertor ranges services prometheus
      → init_testnet s disk
        ≡ (touched s.init_file ∷ expected_actions assertor ranges services, returned tt)
  unfolding populate_testnet CanPopulate expected_actions ◌>>=◌ act call return
  init_testnet-expected_actions assertor ranges services prometheus missing
        (new, first, a, w, setup, v, p) =
      init_testnet-touched s disk missing
      ∙ rw
          (
            new,
            first,
            populate_directories-dirs_of s s.client_instances,
            write_keystores-ranges s.client_instances w,
            setup-copies s.is_deneb refl setup,
            a,
            v,
            p,
          )
          refl
