-- ===== src/Config/Defaults/Filled.antt =====
-- The values of a config's fields behind `_populate_execution_configs` and
-- `_populate_consensus_configs` of src/etb/config/etb_config.py.
use ethereum_testnet_bootstr.Base.{
  ◌≡◌, refl, inl, inr, String, Bool, true, false, ◌&&◌, Option, none, some, List, [], ◌∷◌, All,
  Result, ok, err, contains, ◌==◌, string_eq, if◌then◌else◌, arith, Bool-cases,
}
use ethereum_testnet_bootstr.Base.Dict.{Dict, lookup, has_key, insert, lookup-insert}
use ethereum_testnet_bootstr.Config.Defaults.{
  Value, default_execution_config_fields, default_consensus_config_fields,
  get_default_execution_config_value, get_default_consensus_config_value, default_value,
  default_execution_client_specific_values_map, default_execution_values_map,
  default_consensus_client_specific_values_map, default_consensus_values_map, Configs, fill_fields,
  fill_config, fill_configs, default_execution_config, default_consensus_config, updated,
  populate_execution_configs, populate_consensus_configs,
}

-- Each config names one of the clients.
abbrev pub HaveClients : List String → Configs → Type 0
HaveClients clients [] = Unit
HaveClients clients ((_, c) ∷ configs) =
    (client : String) × (c.client ≡ some client)
    × (contains clients client ≡ true)
    × HaveClients clients configs

abbrev given_by : Result Value → Option Value
given_by (ok v) = some v
given_by (err _) = none

module _ (default : String → String → Result Value) (fields : List String) where
  -- A field's value: its own, or the client's default where the field needs one.
  abbrev pub value_of : String → Dict String Value → String → Option Value
  value_of client config f = elim (lookup f config) [
    | some v ↦ some v
    | none ↦ if contains fields f then given_by (default client f) else none
  ]

  -- Each config keeps its name and client and has the values of its fields.
  abbrev pub AreFilled : Configs → Configs → Type 0
  AreFilled [] [] = Unit
  AreFilled ((name, c) ∷ configs) ((name', r) ∷ results) =
      (name ≡ name')
      × (client : String) × (c.client ≡ some client)
      × (r.client ≡ some client)
      × ((f : String) → lookup f r.fields ≡ value_of client c.fields f)
      × AreFilled configs results
  AreFilled _ _ = ⊥

abbrev is_ok : Result Value → Bool
is_ok (ok _) = true
is_ok (err _) = false

-- What holds for each client of a list holds for a client in it.
among :
    (P : String → Bool) (clients : List String) (client : String)
    → All (λ c. P c ≡ true) clients
    → contains clients client ≡ true
    → P client ≡ true
among P [] client h member = ground (arith, member)
among P (c ∷ clients) client h member = elim (Bool-cases (client == c)) [
  | inl same ↦ let e : client ≡ c = ground (arith, same) in rw e (h.0)
  | inr differ ↦ among P clients client h.1 (ground (arith, member, differ))
]

value_of_ok : (r : Result Value) → is_ok r ≡ true → (v : Value) × (r ≡ ok v)
value_of_ok (ok v) h = (v, refl)
value_of_ok (err x) h = ground (arith, h)

module _ (default : String → String → Result Value) where
  -- The client has a default for each of the fields.
  abbrev has_defaults : List String → String → Bool
  has_defaults [] client = true
  has_defaults (f ∷ fields) client = is_ok (default client f) && has_defaults fields client

  fill_fields-value_of :
      (client : String) (fields : List String) (config : Dict String Value)
      → has_defaults fields client ≡ true
      → (r : Dict String Value) × (fill_fields default client fields config ≡ ok r)
        × ((f : String) → lookup f r ≡ value_of default fields client config f)
  unfolding fill_fields
  fill_fields-value_of client [] config h = (config, refl, λ f. ground arith)
  fill_fields-value_of client (field ∷ fields) config h = elim (Bool-cases (has_key field config)) [
    | inl has ↦
        let (r, same, values) = fill_fields-value_of client fields config (ground (arith, h)) in
        (r, ground (arith, has, same), λ f. ground (arith, has, values f))
    | inr misses ↦
        let (v, found) = value_of_ok (default client field) (ground (arith, h)) in
        let (r, same, values) =
          fill_fields-value_of client fields (insert field v config) (ground (arith, h)) in
        (
          r,
          ground (arith, misses, found, same),
          λ f. ground (arith, misses, found, values f, lookup-insert f field v config),
        )
  ]

  fill_configs-AreFilled :
      (fields clients : List String) (configs : Configs)
      → All (λ c. has_defaults fields c ≡ true) clients
      → HaveClients clients configs
      → (r : Configs) × (fill_configs default fields configs ≡ ok r)
        × AreFilled default fields configs r
  unfolding fill_configs fill_config
  fill_configs-AreFilled fields clients [] known h = ([], refl, tt)
  fill_configs-AreFilled fields clients ((name, c) ∷ configs) known h =
      let (client, has, member, others) = h in
      let (filled, same, values) =
        fill_fields-value_of client fields c.fields
          (among (has_defaults fields) clients client known member) in
      let (rest, same', are) = fill_configs-AreFilled fields clients configs known others in
      (
        (name, record { client = some client; fields = filled }) ∷ rest,
        ground (arith, has, same, same'),
        (refl, client, has, refl, values, are),
      )

abbrev pub execution_clients : List String
execution_clients = "geth" ∷ "besu" ∷ "reth" ∷ "nethermind" ∷ []

abbrev pub consensus_clients : List String
consensus_clients = "prysm" ∷ "grandine" ∷ "teku" ∷ "lodestar" ∷ "nimbus" ∷ "lighthouse" ∷ []

execution_clients-has_defaults :
    All
      (λ c.
        has_defaults get_default_execution_config_value default_execution_config_fields c ≡ true)
      execution_clients
unfolding get_default_execution_config_value default_value string_eq
    default_execution_client_specific_values_map default_execution_values_map
execution_clients-has_defaults = (refl, (refl, (refl, (refl, tt))))

consensus_clients-has_defaults :
    All
      (λ c.
        has_defaults get_default_consensus_config_value default_consensus_config_fields c ≡ true)
      consensus_clients
unfolding get_default_consensus_config_value default_value string_eq
    default_consensus_client_specific_values_map default_consensus_values_map
consensus_clients-has_defaults = (refl, (refl, (refl, (refl, (refl, (refl, tt))))))

-- Where every config of the defaults, updated by what the file has, names one of the clients with
-- defaults, filling in the defaults returns: each config keeps its name and its client, and a field
-- has the config's own value, or else, where a config needs it, the default of the client.
pub populate_configs-AreFilled :
    (deep_update : Configs → Configs → Configs) (execution consensus : Option Configs)
    → HaveClients execution_clients (updated deep_update default_execution_config execution)
    → HaveClients consensus_clients (updated deep_update default_consensus_config consensus)
    → ((r : Configs) × (populate_execution_configs deep_update execution ≡ ok r)
        × AreFilled get_default_execution_config_value default_execution_config_fields
            (updated deep_update default_execution_config execution)
            r)
      × ((r : Configs) × (populate_consensus_configs deep_update consensus ≡ ok r)
          × AreFilled get_default_consensus_config_value default_consensus_config_fields
              (updated deep_update default_consensus_config consensus)
              r)
unfolding populate_execution_configs populate_consensus_configs
populate_configs-AreFilled deep_update execution consensus he hc = (
  fill_configs-AreFilled get_default_execution_config_value default_execution_config_fields
      execution_clients _ execution_clients-has_defaults he,
  fill_configs-AreFilled get_default_consensus_config_value default_consensus_config_fields
      consensus_clients _ consensus_clients-has_defaults hc,
)
