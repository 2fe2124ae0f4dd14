-- ===== src/Bootstrap/Keystores.antt =====
-- `_write_validator_keystores` of src/testnet_bootstrapper.py: which keystores are generated. The
-- generator and the moving of its files are not modelled.
pub mod Owners
use ethereum_testnet_bootstr.Base.{
  ℕ, ◌+◌, ◌*◌, String, Bool, not, List, [], ◌∷◌, Result, ok, err, Error, ◌>>=◌, ◌>>◌, raise_if,
  contains, string_eq,
}
use ethereum_testnet_bootstr.Config.Instances.{ClientInstance}

abbrev pub supported_clients : List String
supported_clients = "prysm" ∷ "lighthouse" ∷ "teku" ∷ "nimbus" ∷ "lodestar" ∷ "grandine" ∷ []

-- `min_ndx` of an instance.
unfoldable pub min_ndx : ClientInstance → ℕ
min_ndx i = i.validator_offset_start + i.instance_base.ndx * i.consensus_config.num_validators

unfoldable pub max_ndx : ClientInstance → ℕ
unfolding min_ndx
max_ndx i = min_ndx i + i.consensus_config.num_validators

-- A call of `generate_keystores`: the instance's name and the range of validators.
abbrev pub KeystoreRange : Type 0
KeystoreRange = String × ℕ × ℕ

-- The ranges that are generated, one for each instance. An instance whose client is not supported
-- ends the loop.
unfoldable pub write_validator_keystores : List ClientInstance → Result (List KeystoreRange)
write_validator_keystores [] = ok []
write_validator_keystores (i ∷ is) =
    raise_if (not (contains supported_clients i.consensus_config.client))
      (Error.not_supported i.consensus_config.client)
    >> (write_validator_keystores is >>= λ rest.
        ok ((i.instance_base.name, min_ndx i, max_ndx i) ∷ rest))
