-- ===== src/NodeWatch/Flags.antt =====
-- Which actions the flags of src/node_watch.py select.
use mathlib.Core.List.{append-nil, append_assoc}
use ethereum_testnet_bootstr.Base.{
  String, ◌<>◌, ◌≡◌, refl, false, some, List, [], ◌∷◌, ◌++◌, map, ok, string_eq, ℕ_discrete, ◌>>=◌,
  ◌∙◌,
}
use ethereum_testnet_bootstr.Base.Dict.{lookup}
use ethereum_testnet_bootstr.Base.Text.{has_colon}
use ethereum_testnet_bootstr.Base.Text.Colons.{split_colons-append, split_colons-no_colon}
use ethereum_testnet_bootstr.Monitoring.Clock.{
  TestnetMonitor, TestnetMonitorAction, TestnetMonitorActionInterval, every_slot, every_epoch, once,
  add_action,
}
use ethereum_testnet_bootstr.NodeWatch.{
  ActionClass, heads_monitor, checkpoints_monitor, peers_monitor, blob_monitor,
  execution_availability_check, consensus_availability_check, epoch_prometheus, slot_prometheus,
  epoch_performance, metrics, intervals, action_of, read_flag, build_testnet_monitor,
}

-- How a class is called on the command line.
abbrev pub metric_of : ActionClass → String
metric_of heads_monitor = "heads"
metric_of checkpoints_monitor = "checkpoints"
metric_of peers_monitor = "peers"
metric_of blob_monitor = "blob"
metric_of execution_availability_check = "execution_availability"
metric_of consensus_availability_check = "consensus_availability"
metric_of epoch_prometheus = "epoch_prometheus"
metric_of slot_prometheus = "slot_prometheus"
metric_of epoch_performance = "epoch_performance"

abbrev pub interval_name : TestnetMonitorActionInterval → String
interval_name every_slot = "slot"
interval_name every_epoch = "epoch"
interval_name once = "once"

abbrev pub Selection : Type 0
Selection = ActionClass × TestnetMonitorActionInterval

abbrev pub flag_of : Selection → String
flag_of (c, interval) = metric_of c <> (":" <> interval_name interval)

-- The actions of one interval, in the order of the flags.
abbrev pub each_slot : List Selection → List TestnetMonitorAction
each_slot [] = []
each_slot ((c, every_slot) ∷ selections) = action_of c every_slot ∷ each_slot selections
each_slot ((c, every_epoch) ∷ selections) = each_slot selections
each_slot ((c, once) ∷ selections) = each_slot selections

abbrev pub each_epoch : List Selection → List TestnetMonitorAction
each_epoch [] = []
each_epoch ((c, every_slot) ∷ selections) = each_epoch selections
each_epoch ((c, every_epoch) ∷ selections) = action_of c every_epoch ∷ each_epoch selections
each_epoch ((c, once) ∷ selections) = each_epoch selections

abbrev pub only_once : List Selection → List TestnetMonitorAction
only_once [] = []
only_once ((c, every_slot) ∷ selections) = only_once selections
only_once ((c, every_epoch) ∷ selections) = only_once selections
only_once ((c, once) ∷ selections) = action_of c once ∷ only_once selections

lookup-metric_of : (c : ActionClass) → lookup (metric_of c) metrics ≡ some c
unfolding string_eq
lookup-metric_of heads_monitor = refl
lookup-metric_of checkpoints_monitor = refl
lookup-metric_of peers_monitor = refl
lookup-metric_of blob_monitor = refl
lookup-metric_of execution_availability_check = refl
lookup-metric_of consensus_availability_check = refl
lookup-metric_of epoch_prometheus = refl
lookup-metric_of slot_prometheus = refl
lookup-metric_of epoch_performance = refl

lookup-interval_name :
    (i : TestnetMonitorActionInterval) → lookup (interval_name i) intervals ≡ some i
unfolding string_eq
lookup-interval_name every_slot = refl
lookup-interval_name every_epoch = refl
lookup-interval_name once = refl

metric_of-no_colon : (c : ActionClass) → has_colon (metric_of c) ≡ false
unfolding has_colon ℕ_discrete
metric_of-no_colon heads_monitor = refl
metric_of-no_colon checkpoints_monitor = refl
metric_of-no_colon peers_monitor = refl
metric_of-no_colon blob_monitor = refl
metric_of-no_colon execution_availability_check = refl
metric_of-no_colon consensus_availability_check = refl
metric_of-no_colon epoch_prometheus = refl
metric_of-no_colon slot_prometheus = refl
metric_of-no_colon epoch_performance = refl

interval_name-no_colon : (i : TestnetMonitorActionInterval) → has_colon (interval_name i) ≡ false
unfolding has_colon ℕ_discrete
interval_name-no_colon every_slot = refl
interval_name-no_colon every_epoch = refl
interval_name-no_colon once = refl

read_flag-flag_of : (s : Selection) → read_flag (flag_of s) ≡ ok s
unfolding read_flag
read_flag-flag_of (c, i) =
    rw (split_colons-append (metric_of c) (interval_name i) (metric_of-no_colon c), read_flag)
      (rw (split_colons-no_colon (interval_name i) (interval_name-no_colon i))
        (rw (lookup-metric_of c, lookup-interval_name i) refl))

-- The flags `metric:interval`, for metrics and intervals that the program knows, make a monitor with
-- exactly their actions: each in the list of its interval, in the order of the flags, behind the actions
-- that are there.
pub build_testnet_monitor-flag_of :
    (m : TestnetMonitor) (selections : List Selection)
    → build_testnet_monitor m (map flag_of selections)
      ≡ ok (record m {
        every_slot_actions = m.every_slot_actions ++ each_slot selections;
        every_epoch_actions = m.every_epoch_actions ++ each_epoch selections;
        once_actions = m.once_actions ++ only_once selections;
      })
unfolding build_testnet_monitor add_action
build_testnet_monitor-flag_of m [] = simp append-nil
build_testnet_monitor-flag_of m ((c, every_slot) ∷ selections) =
    rw (read_flag-flag_of (c, every_slot), ◌>>=◌)
      (build_testnet_monitor-flag_of (add_action m (action_of c every_slot)) selections
        ∙ rw append_assoc refl)
build_testnet_monitor-flag_of m ((c, every_epoch) ∷ selections) =
    rw (read_flag-flag_of (c, every_epoch), ◌>>=◌)
      (build_testnet_monitor-flag_of (add_action m (action_of c every_epoch)) selections
        ∙ rw append_assoc refl)
build_testnet_monitor-flag_of m ((c, once) ∷ selections) =
    rw (read_flag-flag_of (c, once), ◌>>=◌)
      (build_testnet_monitor-flag_of (add_action m (action_of c once)) selections
        ∙ rw append_assoc refl)
