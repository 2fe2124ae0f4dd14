-- ===== src/NodeWatch.antt =====
-- `NodeWatch.build_testnet_monitor` of src/node_watch.py: the actions that the flags
-- `--monitor metric:interval` select. The actions' own constructors only keep their arguments.
pub mod Flags
pub mod Prometheus
use ethereum_testnet_bootstr.Base.{
  String, Option, none, some, List, [], ◌∷◌, Result, ok, err, Error, ◌>>=◌, or_raise, ◌==◌,
  string_eq,
}
use ethereum_testnet_bootstr.Base.Dict.{Dict, lookup}
use ethereum_testnet_bootstr.Base.Text.{split_colons}
use ethereum_testnet_bootstr.Monitoring.Clock.{
  TestnetMonitor, TestnetMonitorAction, TestnetMonitorActionInterval, every_slot, every_epoch, once,
  add_action,
}

-- The classes of actions.
pub data ActionClass : Type 0 where
  heads_monitor : ActionClass
  checkpoints_monitor : ActionClass
  peers_monitor : ActionClass
  blob_monitor : ActionClass
  execution_availability_check : ActionClass
  consensus_availability_check : ActionClass
  epoch_prometheus : ActionClass
  slot_prometheus : ActionClass
  epoch_performance : ActionClass

abbrev pub metrics : Dict String ActionClass
metrics =
    ("heads", heads_monitor)
    ∷ ("checkpoints", checkpoints_monitor)
    ∷ ("peers", peers_monitor)
    ∷ ("blob", blob_monitor)
    ∷ ("execution_availability", execution_availability_check)
    ∷ ("consensus_availability", consensus_availability_check)
    ∷ ("epoch_prometheus", epoch_prometheus)
    ∷ ("slot_prometheus", slot_prometheus)
    ∷ ("epoch_performance", epoch_performance)
    ∷ []

abbrev pub intervals : Dict String TestnetMonitorActionInterval
intervals = ("slot", every_slot) ∷ ("epoch", every_epoch) ∷ ("once", once) ∷ []

-- The name that a class gives to its action.
unfoldable pub action_name : ActionClass → String
action_name heads_monitor = "head_slots"
action_name checkpoints_monitor = "checkpoints"
action_name peers_monitor = "peer-monitor"
action_name blob_monitor = "blob-monitor"
action_name execution_availability_check = "head-hash-execution"
action_name consensus_availability_check = "head-slot-consensus"
action_name epoch_prometheus = "epoch_prometheus"
action_name slot_prometheus = "slot_prometheus"
action_name epoch_performance = "epoch_performance"

-- `metrics[metric](interval=...)`
abbrev pub action_of : ActionClass → TestnetMonitorActionInterval → TestnetMonitorAction
action_of c interval = record { name = action_name c; interval = interval }

-- `metric, interval = monitor.split(":")`, which raises where there are not two parts, and the two
-- lookups.
unfoldable pub read_flag : String → Result (ActionClass × TestnetMonitorActionInterval)
read_flag monitor = elim (split_colons monitor) [
  | metric ∷ interval ∷ [] ↦
      (or_raise (lookup metric metrics) (Error.unknown "metric" metric) >>= λ c.
      or_raise (lookup interval intervals) (Error.unknown "interval" interval) >>= λ i. ok (c, i))
  | _ ↦ err (Error.value_error monitor)
]

-- The loop over `cli_args.monitor`.
unfoldable pub build_testnet_monitor : TestnetMonitor → List String → Result TestnetMonitor
build_testnet_monitor m [] = ok m
build_testnet_monitor m (monitor ∷ monitors) = read_flag monitor >>= λ (c, interval).
    build_testnet_monitor (add_action m (action_of c interval)) monitors
