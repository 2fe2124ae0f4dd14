-- ===== src/Examples/Tools.antt =====
-- Runs of the wrappers of external programs (src/etb/interfaces/external).
use ethereum_testnet_bootstr.Base.{
  ℕ, ◌≡◌, refl, String, none, some, List, [], ◌∷◌, map, ok, nat_eq, string_eq, ℕ_discrete,
}
use ethereum_testnet_bootstr.Base.Text.{str, digits_onto, digit_char}
use ethereum_testnet_bootstr.Config.Instances.{ClientInstance}
use ethereum_testnet_bootstr.Bootstrap.Keystores.{
  KeystoreRange, min_ndx, max_ndx, write_validator_keystores,
}
use ethereum_testnet_bootstr.Tools.{
  CompletedProcess, output, exception, checked_output, last_summary_cmd, given_summary_cmd,
  epoch_summary, keystore_cmds,
}
use ethereum_testnet_bootstr.Tools.Keystores.{option, range_of, as_read, keystore_cmds-range_of}

abbrev node : String → String → ℕ → ClientInstance
node name client offset = record {
  instance_base = record { collection_name = "a"; ndx = 0; name = name; ip_address = "10.0.20.2" };
  consensus_config = record { client = client; num_validators = 2 };
  validator_offset_start = offset;
  validator_password = some "secret";
}

abbrev nodes : List ClientInstance
nodes = node "a-0" "prysm" 0 ∷ node "b-0" "teku" 2 ∷ []

abbrev ranges : List KeystoreRange
ranges = ("a-0", 0, 2) ∷ ("b-0", 2, 4) ∷ []

writes : write_validator_keystores nodes ≡ ok ranges
unfolding write_validator_keystores min_ndx max_ndx string_eq
writes = refl

keystore_cmds-range_of_example :
    (cmds : List (List String)) × (keystore_cmds "test test" (λ i. "/data/keystores") nodes
      ≡ ok cmds)
    × (map range_of cmds ≡ map as_read ranges)
keystore_cmds-range_of_example =
    keystore_cmds-range_of "test test" (λ i. "/data/keystores") nodes
      ((λ e. ("secret", refl)), ((λ e. ("secret", refl)), tt)) writes

-- A program that sums up the last epoch only where it is told whom to ask.
abbrev ethdo : List String → CompletedProcess
ethdo cmd = record {
  returncode = elim (option "--connection" cmd) [ none ↦ 1 | some _ ↦ 0 ];
  stdout = "Epoch 3:";
  stderr = "";
}

-- Where an epoch is given, the program is not told.
refuses : epoch_summary ethdo (λ s. ok 4) "http://a" (some 3) ≡ ok (exception "")
unfolding epoch_summary checked_output given_summary_cmd str digits_onto digit_char string_eq
    ℕ_discrete
refuses = refl

answers : epoch_summary ethdo (λ s. ok 4) "http://a" none ≡ ok (output "Epoch 3:")
unfolding epoch_summary checked_output last_summary_cmd str digits_onto digit_char string_eq
    ℕ_discrete
answers = refl
