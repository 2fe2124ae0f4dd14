-- ===== src/Config/Files/Overrides.antt =====
-- What the overrides of `FilesConfig` change (src/etb/config/etb_config.py).
use ethereum_testnet_bootstr.Base.{
  ◌≡◌, refl, String, Bool, true, Option, none, some, [], ◌∷◌, ◌==◌, string_eq, arith, if◌then◌else◌,
  Bool-cases, inl, inr,
}
use ethereum_testnet_bootstr.Base.Dict.{
  Dict, lookup, has_key, insert, NodupKeys, lookup-insert, has_key-insert,
}
use ethereum_testnet_bootstr.Config.Files.{
  underscored, known_fields, FilesConfig, known_attributes, add_overrides, without, files_config,
}

-- The first of two that is there.
abbrev pub preferred : Option String → Option String → Option String
preferred none v = v
preferred (some u) v = some u

-- The keys to come are new in the fields if the code does not know them.
unfoldable pub AreNew : Dict String String → FilesConfig → Type 0
AreNew overrides files =
    (k : String) → has_key k overrides ≡ true → has_key k files.fields ≡ has_key k known_fields

module _ (k value : String) (overrides : Dict String String) (files : FilesConfig)
    (new : AreNew ((k, value) ∷ overrides) files) where
  pub AreNew-first : has_key k files.fields ≡ has_key k known_fields
  unfolding AreNew
  AreNew-first = new k (ground arith)

  pub AreNew-kept : AreNew overrides files
  unfolding AreNew
  AreNew-kept j h = new j (ground (arith, h))

  pub AreNew-added :
      (attributes : Dict String String)
      → lookup k overrides ≡ none
      → AreNew overrides (record { fields = insert k value files.fields; attributes = attributes })
  unfolding AreNew
  AreNew-added attributes fresh j h =
      ground (arith, new j (ground (arith, h)), fresh, has_key-insert j k value files.fields, h)

module _ (path : String → String) where
  -- The path of the last override with a new key that comes to an attribute.
  unfoldable pub newest : String → Dict String String → Option String
  newest name [] = none
  newest name ((key, value) ∷ overrides) =
      let later = newest name overrides in
      if has_key key known_fields
      then later
      else preferred later (if name == underscored key then some (path value) else none)

  add_overrides-fields :
      (key : String) (overrides : Dict String String) (files : FilesConfig)
      → lookup key (add_overrides path overrides files).fields
        ≡ preferred (lookup key files.fields) (lookup key overrides)
  unfolding add_overrides
  add_overrides-fields key [] files =
      elim (lookup key files.fields) as (λ o. o ≡ preferred o none) [ none ↦ refl | some v ↦ refl ]
  add_overrides-fields key ((k, value) ∷ overrides) files = ground (
    arith,
    add_overrides-fields key overrides files,
    add_overrides-fields key overrides (record {
      fields = insert k value files.fields;
      attributes = insert (underscored k) (path value) files.attributes;
    }),
    lookup-insert key k value files.fields,
  )

  add_overrides-attributes :
      (name : String) (overrides : Dict String String) (files : FilesConfig)
      → NodupKeys overrides
      → AreNew overrides files
      → lookup name (add_overrides path overrides files).attributes
        ≡ preferred (newest name overrides) (lookup name files.attributes)
  unfolding add_overrides newest
  add_overrides-attributes name [] files u new = refl
  add_overrides-attributes name ((k, value) ∷ overrides) files u new =
      let here = AreNew-first k value overrides files new in
      let later = AreNew-kept k value overrides files new in
      let attributes' = insert (underscored k) (path value) files.attributes in
      let files' : FilesConfig = record {
        fields = insert k value files.fields;
        attributes = attributes';
      } in
      let later' : AreNew overrides files' =
        AreNew-added k value overrides files new attributes' u.0 in
      elim (Bool-cases (has_key k known_fields)) [
        | inl known ↦
            ground (arith, here, known, add_overrides-attributes name overrides files u.1 later)
        | inr fresh ↦ ground (
          arith,
          here,
          fresh,
          add_overrides-attributes name overrides files' u.1 later',
          lookup-insert name (underscored k) (path value) files.attributes,
        )
      ]

  lookup-without :
      (name key : String) (d : Dict String String)
      → lookup name (without key d) ≡ (if name == key then none else lookup name d)
  unfolding without
  lookup-without name key [] = ground arith
  lookup-without name key ((k, value) ∷ d) = ground (arith, lookup-without name key d)

  -- Of overrides whose keys are distinct, a field that the code knows keeps its path, and any other key
  -- gets the path of the override. An attribute is the path of the last override whose key the code
  -- does not know and which comes to the attribute's name with underscores, or else what it was: an
  -- override of a field that the code knows changes nothing. The attribute `fields` is no path, since the
  -- fields themselves are set last.
  pub files_config-newest :
      (overrides : Dict String String) (is_deneb_experiment : Bool)
      → NodupKeys overrides
      → let files = files_config path overrides is_deneb_experiment in
        ((key : String)
          → lookup key files.fields ≡ preferred (lookup key known_fields) (lookup key overrides))
        × ((name : String)
            → lookup name files.attributes ≡ (
                if name == "fields"
                then none
                else preferred
                    (newest name overrides)
                    (lookup name (known_attributes path is_deneb_experiment))))
  unfolding files_config AreNew
  files_config-newest overrides is_deneb_experiment u =
      let files : FilesConfig = record {
        fields = known_fields;
        attributes = known_attributes path is_deneb_experiment;
      } in
      (
        λ key. add_overrides-fields key overrides files,
        λ name. ground (
          arith,
          lookup-without name "fields" (add_overrides path overrides files).attributes,
          add_overrides-attributes name overrides files u (λ k h. refl),
        ),
      )
