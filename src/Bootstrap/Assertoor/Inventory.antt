-- ===== src/Bootstrap/Assertoor/Inventory.antt =====
-- The validators' names in the config of Assertoor and the keystores of
-- src/testnet_bootstrapper.py.
use text.Mathlib.TextLemmas.{nil-append, cons-append}
use ethereum_testnet_bootstr.Base.{
  ℕ, zero, suc, ◌*◌, ◌-◌, ◌≤◌, ◌<◌, ◌≡◌, ◌≢◌, refl, sym, ap, ◌∙◌, String, ◌<>◌, not, some, List, [],
  ◌∷◌, All, ok, Error, >>=-eq-ok, raise_if-eq-ok, contains, string_eq, arith,
}
use ethereum_testnet_bootstr.Base.Dict.{Dict, lookup, insert, lookup-insert}
use ethereum_testnet_bootstr.Base.Text.{str}
use ethereum_testnet_bootstr.Base.Text.Leading.{leading, leading-str}
use ethereum_testnet_bootstr.Config.Instances.{ClientInstance}
use ethereum_testnet_bootstr.Bootstrap.Keystores.{
  supported_clients, KeystoreRange, min_ndx, max_ndx, write_validator_keystores,
}
use ethereum_testnet_bootstr.Bootstrap.Keystores.Owners.{keystores_of}
use ethereum_testnet_bootstr.Bootstrap.Assertoor.{
  str_before, inventory_key, add_name, add_names, Ports, generate_assertor_config,
}

-- The names of the ranges that have keystores.
add_ranges : List KeystoreRange → Dict String String → Dict String String
add_ranges [] names = names
add_ranges ((name, low, high) ∷ ranges) names =
    add_ranges ranges (insert (inventory_key low high) name names)

add_name-insert :
    (i : ClientInstance) (names : Dict String String)
    → add_name i names ≡ insert (inventory_key (min_ndx i) (max_ndx i)) i.instance_base.name names
unfolding add_name min_ndx max_ndx
add_name-insert i names =
    let same : i.consensus_config.num_validators * i.instance_base.ndx
        ≡ i.instance_base.ndx * i.consensus_config.num_validators =
      omega arith in
    rw same refl

add_names-add_ranges :
    (is : List ClientInstance) {ranges : List KeystoreRange} (names : Dict String String)
    → write_validator_keystores is ≡ ok ranges
    → add_names is names ≡ add_ranges ranges names
unfolding write_validator_keystores add_names add_ranges
add_names-add_ranges [] {ranges} names h =
    let none_written : [] ≡ ranges = ground arith in ap (λ r. add_ranges r names) none_written
add_names-add_ranges (i ∷ is) {ranges} names h =
    let (_, h1) =
      raise_if-eq-ok (not (contains supported_clients i.consensus_config.client))
        (Error.not_supported i.consensus_config.client) _ h in
    let (rest, h2, h3) = >>=-eq-ok (write_validator_keystores is) _ h1 in
    let all : (i.instance_base.name, min_ndx i, max_ndx i) ∷ rest ≡ ranges = ground (arith, h3) in
    ap (add_names is) (add_name-insert i names)
    ∙ add_names-add_ranges is _ h2
    ∙ ap (λ r. add_ranges r names) all

inventory_key-low : (low high : ℕ) → leading 0 (inventory_key low high) ≡ low
unfolding inventory_key
inventory_key-low low high = rw (cons-append, nil-append) (leading-str low _ (str_before high) refl)

-- A key stays where no later range begins at the same validator.
NotLow : ℕ → List KeystoreRange → Type 0
NotLow low [] = Unit
NotLow low ((_, l, _) ∷ ranges) = (low ≢ l) × NotLow low ranges

lookup-add_ranges :
    (low high : ℕ) (ranges : List KeystoreRange) (names : Dict String String)
    → NotLow low ranges
    → lookup (inventory_key low high) (add_ranges ranges names)
      ≡ lookup (inventory_key low high) names
unfolding add_ranges NotLow
lookup-add_ranges low high [] names h = refl
lookup-add_ranges low high ((name, l, m) ∷ ranges) names h =
    lookup-add_ranges low high ranges _ h.1
    ∙ ground (
      arith,
      lookup-insert (inventory_key low high) (inventory_key l m) name names,
      inventory_key-low low high,
      inventory_key-low l m,
      h.0,
    )

abbrev pub HasValidators : KeystoreRange → Type 0
HasValidators (_, low, high) = low < high

free-NotLow :
    (low : ℕ) (ranges : List KeystoreRange)
    → All HasValidators ranges
    → keystores_of low ranges ≡ 0
    → NotLow low ranges
unfolding keystores_of NotLow
free-NotLow low [] h none_held = tt
free-NotLow low ((_, l, m) ∷ ranges) h none_held = (
  λ e. absurd (ground (arith, e, h.0, none_held)),
  free-NotLow low ranges h.1 (ground (arith, none_held)),
)

-- The range's validators, as the first and the last with a dash between, are listed under the range's
-- name.
abbrev pub IsListed : Dict String String → KeystoreRange → Type 0
IsListed names (name, low, high) = lookup (str low <> ("-" <> str (high - 1))) names ≡ some name

inventory_key-last :
    (low high : ℕ) → low < high → inventory_key low high ≡ str low <> ("-" <> str (high - 1))
unfolding inventory_key
inventory_key-last low zero h = absurd (omega (arith, h))
inventory_key-last low (suc n) h =
    let same : n ≡ suc n - 1 = omega arith in ap (λ last. str low <> ("-" <> str last)) same

add_ranges-IsListed :
    (ranges : List KeystoreRange) (names : Dict String String)
    → All HasValidators ranges
    → ((v : ℕ) → keystores_of v ranges ≤ 1)
    → All (IsListed (add_ranges ranges names)) ranges
unfolding add_ranges keystores_of
add_ranges-IsListed [] names h once = tt
add_ranges-IsListed ((name, low, high) ∷ ranges) names h once =
    let names' = insert (inventory_key low high) name names in
    let free : keystores_of low ranges ≡ 0 = ground (arith, once low, h.0) in
    (
      ap (λ k. lookup k (add_ranges ranges names')) (sym (inventory_key-last low high h.0))
          ∙ lookup-add_ranges low high ranges names' (free-NotLow low ranges h.1 free)
          ∙ ground
              (arith, lookup-insert (inventory_key low high) (inventory_key low high) name names),
      add_ranges-IsListed ranges names' h.1 (λ v. ground (arith, once v)),
    )

-- Where the keystores can be written, each range of them has validators, and no validator has two
-- keystores, the config of Assertoor lists each range, by its first and its last validator, under the
-- name of the instance that has the keystores.
pub generate_assertor_config-IsListed :
    (ports : ClientInstance → Ports) (is : List ClientInstance) (private_key : String)
    {ranges : List KeystoreRange}
    → write_validator_keystores is ≡ ok ranges
    → All HasValidators ranges
    → ((v : ℕ) → keystores_of v ranges ≤ 1)
    → All (IsListed (generate_assertor_config ports is private_key).inventory) ranges
unfolding generate_assertor_config
generate_assertor_config-IsListed ports is private_key {ranges} w h once =
    rw (add_names-add_ranges is [] w) (add_ranges-IsListed ranges [] h once)
