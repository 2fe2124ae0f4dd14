-- ===== src/Tools/Keystores.antt =====
-- The ranges that the commands of `_write_validator_keystores` (src/testnet_bootstrapper.py) give to
-- eth2-val-tools.
use ethereum_testnet_bootstr.Base.{
  ℕ, ◌≡◌, refl, ap, ◌∙◌, String, not, Option, none, some, List, [], ◌∷◌, map, All, ok, Error,
  >>=-eq-ok, raise_if-eq-ok, contains, ◌==◌, string_eq, if◌then◌else◌, arith, Bool-cases, inl, inr,
}
use ethereum_testnet_bootstr.Base.Text.{str, int_of}
use ethereum_testnet_bootstr.Base.Text.Decimal.{int_of-str}
use ethereum_testnet_bootstr.Config.Instances.{ClientInstance}
use ethereum_testnet_bootstr.Bootstrap.Keystores.{
  supported_clients, KeystoreRange, min_ndx, max_ndx, write_validator_keystores,
}
use ethereum_testnet_bootstr.Tools.{keystores_cmd, prysm_password_of, keystore_cmds}

-- The value of an option, of options that each have one.
abbrev pub option : String → List String → Option String
option name (key ∷ value ∷ rest) = if name == key then some value else option name rest
option name _ = none

abbrev pub number_of : Option String → Option ℕ
number_of none = none
number_of (some s) = int_of s

-- The range of validators that the program reads of a command: its options stand behind its own name and
-- that of the subcommand.
unfoldable pub range_of : List String → Option ℕ × Option ℕ
range_of (program ∷ subcommand ∷ options) =
    (number_of (option "--source-min" options), number_of (option "--source-max" options))
range_of _ = (none, none)

keystores_cmd-range_of :
    (out_path : String) (low high : ℕ) (mnemonic : String) (password : Option String)
    → range_of (keystores_cmd out_path low high mnemonic password) ≡ (some low, some high)
unfolding range_of keystores_cmd string_eq
keystores_cmd-range_of out_path low high mnemonic password =
    ap (λ l. (l, int_of (str high))) (int_of-str low) ∙ ap (λ h. (some low, h)) (int_of-str high)

-- A prysm validator has a password.
abbrev pub HasPassword : ClientInstance → Type 0
HasPassword i = i.consensus_config.client ≡ "prysm" → (p : String) × (i.validator_password ≡ some p)

prysm_password_of-ok :
    (i : ClientInstance) → HasPassword i → (o : Option String) × (prysm_password_of i ≡ ok o)
unfolding prysm_password_of
prysm_password_of-ok i h = elim (Bool-cases (i.consensus_config.client == "prysm")) [
  | inl prysm ↦ let (p, has) = h (ground (arith, prysm)) in (some p, ground (arith, prysm, has))
  | inr other ↦ (none, ground (arith, other))
]

abbrev pub as_read : KeystoreRange → Option ℕ × Option ℕ
as_read (_, low, high) = (some low, some high)

-- Where the keystores can be written and prysm's validators have passwords, the commands are made, one for
-- each instance in order, and read back they give the ranges that are written.
pub keystore_cmds-range_of :
    (mnemonic : String) (keystore_dir : ClientInstance → String) (is : List ClientInstance)
    {ranges : List KeystoreRange}
    → All HasPassword is
    → write_validator_keystores is ≡ ok ranges
    → (cmds : List (List String)) × (keystore_cmds mnemonic keystore_dir is ≡ ok cmds)
      × (map range_of cmds ≡ map as_read ranges)
unfolding keystore_cmds write_validator_keystores
keystore_cmds-range_of mnemonic keystore_dir [] {ranges} h w =
    let none_written : [] ≡ ranges = ground (arith, w) in ([], refl, ap (map as_read) none_written)
keystore_cmds-range_of mnemonic keystore_dir (i ∷ is) {ranges} (p, h) w =
    let (_, w1) =
      raise_if-eq-ok (not (contains supported_clients i.consensus_config.client))
        (Error.not_supported i.consensus_config.client) _ w in
    let (rest, w2, w3) = >>=-eq-ok (write_validator_keystores is) _ w1 in
    let all : (i.instance_base.name, min_ndx i, max_ndx i) ∷ rest ≡ ranges = ground (arith, w3) in
    let (password, given) = prysm_password_of-ok i p in
    let (cmds, made, read) = keystore_cmds-range_of mnemonic keystore_dir is h w2 in
    let cmd = keystores_cmd (keystore_dir i) (min_ndx i) (max_ndx i) mnemonic password in
    (
      cmd ∷ cmds,
      rw (given, made) refl,
      ap (λ r. r ∷ map range_of cmds)
            (keystores_cmd-range_of (keystore_dir i) (min_ndx i) (max_ndx i) mnemonic password)
          ∙ ap (λ rs. (some (min_ndx i), some (max_ndx i)) ∷ rs) read
          ∙ ap (map as_read) all,
    )
