-- ===== src/NodeWatch/Prometheus.antt =====
-- `PrometheusAction.perform_action` of src/node_watch.py. What a request gives is the network's;
-- the batch is asked in the order of its queries.
pub mod Unpacking
use ethereum_testnet_bootstr.Base.{
  ℕ, String, Bool, not, Option, none, some, List, [], ◌∷◌, ◌++◌, Result, ok, err, Error, ◌>>=◌,
  ◌==◌, nat_eq, string_eq, if◌then◌else◌,
}
use ethereum_testnet_bootstr.Base.Dict.{Dict, lookup, insert}

-- One entry of `data["result"]`.
pub record Sample : Type 0 where
  pub instance_name : String
  pub job : String
  pub unix_time : String
  pub value : String

-- How a request ends: with an exception, a timeout or another, which the reading of the body may
-- raise too, or with a response that was read.
pub data Reply : Type 0 where
  timeout : Reply
  other_exception : Reply
  replied : (status_code : ℕ) → (status : String) → (result_type : String) → List Sample → Reply

pub record CleanedData : Type 0 where
  pub query : String
  pub result_type : String
  pub results : List Sample

abbrev pub no_data : String → CleanedData
no_data query = record { query = query; result_type = "None"; results = [] }

-- What `_one_request` returns: a pair, or where it gives up on a response, the data alone.
pub data Returned : Type 0 where
  pair : String → CleanedData → Returned
  alone : CleanedData → Returned

unfoldable pub one_request : String → String → Reply → Returned
one_request human_query query timeout = pair human_query (no_data query)
one_request human_query query other_exception = pair human_query (no_data query)
one_request human_query query (replied status_code status result_type samples) =
    if not (status_code == 200)
    then alone (no_data query)
    else if not (status == "success")
    then alone (no_data query)
    else pair human_query (record { query = query; result_type = result_type; results = samples })

-- The queries of one group, each with the group's name.
abbrev pub with_name : String → List String → List (String × String)
with_name human_query [] = []
with_name human_query (query ∷ queries) = (human_query, query) ∷ with_name human_query queries

unfoldable pub flattened_queries : Dict String (List String) → List (String × String)
flattened_queries [] = []
flattened_queries ((human_query, queries) ∷ groups) =
    with_name human_query queries ++ flattened_queries groups

-- `results_grouped[human_query].append(data)`
unfoldable pub append_to :
    String → CleanedData → Dict String (List CleanedData) → Dict String (List CleanedData)
append_to human_query found grouped = elim (lookup human_query grouped) [
  | none ↦ insert human_query (found ∷ []) grouped
  | some others ↦ insert human_query (others ++ (found ∷ [])) grouped
]

-- The loop over `results_all`. The data alone are a dict of three keys, which is not unpacked into
-- two names.
unfoldable pub group_results :
    (String → String → Reply)
    → List (String × String)
    → Dict String (List CleanedData)
    → Result (Dict String (List CleanedData))
group_results request [] grouped = ok grouped
group_results request ((human_query, query) ∷ rest) grouped =
    elim (one_request human_query query (request human_query query)) [
      | pair name found ↦ group_results request rest (append_to name found grouped)
      | alone found ↦ err (Error.value_error "too many values to unpack")
    ]

-- `perform_action`, given the reply to each query of each group, as the lines that `log_output` logs: a group's name with its data. An executor
-- with no workers is refused.
unfoldable pub perform_action :
    Dict String (List String) → (String → String → Reply) → Result (Dict String (List CleanedData))
perform_action query_groups request = elim (flattened_queries query_groups) [
  | [] ↦ err (Error.value_error "max_workers")
  | item ∷ items ↦ group_results request (item ∷ items) []
]

-- The query groups of the two actions.
abbrev pub epoch_query_groups : Dict String (List String)
epoch_query_groups =
    ("libp2p_peers", "libp2p_peers" ∷ "connected_libp2p_peers" ∷ [])
    ∷ ("beacon_head_slot", "beacon_head_slot" ∷ [])
    ∷ ("beacon_current_justified_epoch", "beacon_current_justified_epoch" ∷ [])
    ∷ ("beacon_finalized_epoch", "beacon_finalized_epoch" ∷ [])
    ∷ []

abbrev pub slot_query_groups : Dict String (List String)
slot_query_groups = ("cpu_usage", "rate(process_cpu_seconds_total[1m])" ∷ []) ∷ []
