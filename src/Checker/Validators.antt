-- ===== src/Checker/Validators.antt =====
-- `get_validators_from_client` of src/antithesis_checker.py: the validators as the first client
-- that answers has them.
use ethereum_testnet_bootstr.Base.{
  String, Option, none, some, List, [], ◌∷◌, Result, ok, err, Error, map,
}
use ethereum_testnet_bootstr.Requests.{Outcome, response, exception, nothing}

pub record ValidatorStatus : Type 0 where
  pub validator_pubkey : String
  pub status : String

-- The dict that it returns; `client` is the name of a collection.
pub record ClientValidators : Type 0 where
  pub client : String
  pub validators : List ValidatorStatus

-- An entry of the response that is empty is an unknown validator.
abbrev pub status_of : Option ValidatorStatus → ValidatorStatus
status_of none = record { validator_pubkey = "Unknown"; status = "Unknown" }
status_of (some v) = v

module _ {C X : Type 0} (collection_name : C → String)
    (perform_request : C → Outcome (List (Option ValidatorStatus)) X) where
  -- What one client's answer makes of the dict, if the loop ends with it.
  abbrev pub read_validators :
      C
      → Outcome (List (Option ValidatorStatus)) X
      → Result ClientValidators
      → Result ClientValidators
  read_validators client (exception x) later = later
  read_validators client nothing later = err (Error.attribute_error "json")
  read_validators client (response entries) later =
      ok (record { client = collection_name client; validators = map status_of entries })

  unfoldable pub get_validators_from_client : List C → Result ClientValidators
  get_validators_from_client [] = ok (record { client = "None"; validators = [] })
  get_validators_from_client (client ∷ clients) =
      read_validators client (perform_request client) (get_validators_from_client clients)
