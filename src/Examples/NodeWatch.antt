-- ===== src/Examples/NodeWatch.antt =====
-- Runs of the node watch (src/node_watch.py).
use ethereum_testnet_bootstr.Base.{
  String, ◌≡◌, refl, List, [], ◌∷◌, ◌++◌, ok, err, Error, if◌then◌else◌, ◌==◌, string_eq,
  ℕ_discrete,
}
use ethereum_testnet_bootstr.Monitoring.Clock.{every_slot, every_epoch}
use ethereum_testnet_bootstr.NodeWatch.{
  heads_monitor, checkpoints_monitor, blob_monitor, build_testnet_monitor,
}
use ethereum_testnet_bootstr.NodeWatch.Flags.{
  Selection, each_slot, each_epoch, only_once, build_testnet_monitor-flag_of,
}
use ethereum_testnet_bootstr.NodeWatch.Prometheus.{
  Reply, timeout, replied, epoch_query_groups, perform_action, flattened_queries, group_results,
  append_to, one_request,
}
use ethereum_testnet_bootstr.NodeWatch.Prometheus.Unpacking.{
  any_refused, all_data, perform_action-logs,
}
use ethereum_testnet_bootstr.Examples.Clocks.{monitor}

abbrev selections : List Selection
selections =
    (heads_monitor, every_slot)
    ∷ (checkpoints_monitor, every_epoch)
    ∷ (blob_monitor, every_slot)
    ∷ []

build_testnet_monitor-flag_of_example :
    build_testnet_monitor monitor ("heads:slot" ∷ "checkpoints:epoch" ∷ "blob:slot" ∷ [])
    ≡ ok (record monitor {
      every_slot_actions = monitor.every_slot_actions ++ each_slot selections;
      every_epoch_actions = monitor.every_epoch_actions ++ each_epoch selections;
      once_actions = monitor.once_actions ++ only_once selections;
    })
build_testnet_monitor-flag_of_example = build_testnet_monitor-flag_of monitor selections

-- One query is answered with a server's error, one is not answered in time.
abbrev replies : String → String → Reply
replies group query = if query == "beacon_head_slot" then replied 503 "error" "" [] else timeout

unavailable :
    perform_action epoch_query_groups replies ≡ err (Error.value_error "too many values to unpack")
unfolding perform_action flattened_queries group_results append_to one_request string_eq ℕ_discrete
unavailable = refl

perform_action-logs_example : perform_action epoch_query_groups replies ≡ (
    if any_refused replies (flattened_queries epoch_query_groups)
    then err (Error.value_error "too many values to unpack")
    else ok (all_data replies epoch_query_groups))
unfolding string_eq
perform_action-logs_example =
    perform_action-logs replies epoch_query_groups (refl, (refl, (refl, (refl, tt)))) tt (λ e. cc)
