-- ===== src/Examples/Reports.antt =====
-- Runs of the monitors of heads, blobs and checkpoints
-- (src/etb/monitoring/monitors/consensus_monitors.py).
use ethereum_testnet_bootstr.Base.{
  ℕ, ◌≡◌, refl, sym, ap, ◌∙◌, String, some, List, [], ◌∷◌, length, Result, ok, ◌==◌, nat_eq,
  string_eq, if◌then◌else◌, ℕ_discrete, arith,
}
use ethereum_testnet_bootstr.Base.Int.{pos, ◌-ℤ◌}
use ethereum_testnet_bootstr.Base.Dict.{Dict}
use ethereum_testnet_bootstr.Base.Text.{text_length, last_chars}
use ethereum_testnet_bootstr.Requests.{response as answered_by}
use ethereum_testnet_bootstr.Requests.Bodies.{
  ResponseValue, ResponseItems, str, number, object, no_fields, field, Answer, get_item, get_path,
  read, read_checkpoint,
}
use ethereum_testnet_bootstr.Monitoring.Metrics.{
  QueryResult, connection_error, response, cleared, reached_consensus, collect_consensus, collect,
  query_clients_for_metric, submit_all, sort_futures, sort_result, order_results_by_consensus,
  group_results, add_to_group,
}
use ethereum_testnet_bootstr.Monitoring.Metrics.Retries.{EndsAt}
use ethereum_testnet_bootstr.Monitoring.Availability.{Fields}
use ethereum_testnet_bootstr.Monitoring.Parsers.{
  Checkpoint, Checkpoints, short_root, read_checkpoints, get_checkpoints,
}
use ethereum_testnet_bootstr.Monitoring.Reports.{
  num_forks, num_blob_forks, measured, unreachable_clients, CheckpointsReport, run_heads, run_blobs,
  run_checkpoints, report_heads, report_metric,
}
use ethereum_testnet_bootstr.Monitoring.Reports.Grouped.{AreGroups, lines_of, run_heads-lines_of}
use ethereum_testnet_bootstr.Monitoring.Reports.Finalization.{
  CanBeLoaded, IsReport, run_checkpoints-IsReport,
}

abbrev name_of : ℕ → String
name_of c = if c == 1 then "geth" else if c == 2 then "besu" else "reth"

abbrev slots : ℕ → ℕ → QueryResult ℕ
slots i c = if c == 2 then connection_error else response (if c == 1 then 7 else 8)

run_heads-lines_of_example :
    (k : ℕ) × (groups : Dict ℕ (List ℕ)) × EndsAt
      (λ slot. some slot)
      slots
      1
      (2 ∷ 3 ∷ [])
      reached_consensus
      1
      0
      k
    × AreGroups (λ slot. some slot) (slots k) (1 ∷ 2 ∷ 3 ∷ []) groups
    × (run_heads name_of (λ slot. some slot) slots (1 ∷ 2 ∷ 3 ∷ []) 2 cleared
        ≡ ok (
            num_forks (pos (length groups) -ℤ pos 1)
            ∷ lines_of (λ slot. some slot) (slots k) name_of (1 ∷ 2 ∷ 3 ∷ []) groups))
    × (run_blobs name_of (λ slot. some slot) slots (1 ∷ 2 ∷ 3 ∷ []) 2 cleared
        ≡ ok (
            num_blob_forks (pos (length groups) -ℤ pos 1)
            ∷ lines_of (λ slot. some slot) (slots k) name_of (1 ∷ 2 ∷ 3 ∷ []) groups))
unfolding ℕ_discrete
run_heads-lines_of_example =
    run_heads-lines_of (λ slot. some slot) slots name_of 1 (2 ∷ 3 ∷ []) 1 cleared
      (refl, (refl, (refl, tt)))

two_heads :
    run_heads name_of (λ slot. some slot) slots (1 ∷ 2 ∷ 3 ∷ []) 2 cleared
    ≡ ok (
        num_forks (pos 1)
        ∷ measured 7 ("geth" ∷ [])
        ∷ measured 8 ("reth" ∷ [])
        ∷ unreachable_clients ("besu" ∷ [])
        ∷ [])
unfolding run_heads report_heads report_metric collect_consensus collect query_clients_for_metric
    submit_all sort_futures sort_result order_results_by_consensus group_results add_to_group
    reached_consensus ℕ_discrete ◌-ℤ◌
two_heads = refl

abbrev checkpoint_at : ℕ → ResponseValue
checkpoint_at epoch =
    object (field "epoch" (number epoch) (field "root" (str "0x0123456789abcdef") no_fields))

abbrev body : ResponseValue
body = object (
    field "data"
      (object (
        field "finalized" (checkpoint_at 2) (
          field "current_justified" (checkpoint_at 4)
            (field "previous_justified" (checkpoint_at 3) no_fields))))
      no_fields)

abbrev short : ℕ → Checkpoint
short epoch = record { epoch = number epoch; root = "0x89abcdef" }

abbrev checkpoints : Checkpoints
checkpoints = record { fc = short 2; cj = short 4; pj = short 3 }

abbrev no_items_text : ResponseItems → String
no_items_text vs = "[]"

reads_checkpoints : read_checkpoints no_items_text (answered_by (ok body)) ≡ ok checkpoints
unfolding read_checkpoints read_checkpoint read get_path get_item short_root last_chars text_length
    string_eq
reads_checkpoints = refl

abbrev dumps : Checkpoints → String
dumps cps = "2 4 3"

abbrev loads : String → Result Checkpoints
loads text = ok checkpoints

abbrev fields : Fields ℕ
fields = record {
  name = name_of;
  ip_address = λ c. "10.0.20.2";
  execution_client = name_of;
  consensus_client = λ c. "lighthouse";
}

abbrev answers : ℕ → ℕ → QueryResult Answer
answers i c = if c == 2 then connection_error else response (answered_by (ok body))

can_be_loaded : (i : ℕ) → CanBeLoaded no_items_text dumps loads (answers i)
can_be_loaded i c a t e h =
    let it : answered_by (ok body) ≡ a = ground (arith, e) in
    sym reads_checkpoints ∙ ap (read_checkpoints no_items_text) it ∙ h

run_checkpoints-IsReport_example :
    (k : ℕ) × (r : CheckpointsReport) × (run_checkpoints no_items_text dumps loads fields answers
        (1 ∷ 2 ∷ 3 ∷ [])
        2
        cleared
      ≡ ok r)
    × EndsAt (get_checkpoints no_items_text dumps) answers 1 (2 ∷ 3 ∷ []) reached_consensus 1 0 k
    × IsReport no_items_text dumps loads fields (answers k) (1 ∷ 2 ∷ 3 ∷ []) r
unfolding ℕ_discrete
run_checkpoints-IsReport_example =
    run_checkpoints-IsReport no_items_text dumps loads fields answers 1 (2 ∷ 3 ∷ []) 1 cleared
      (refl, (refl, (refl, tt))) can_be_loaded
