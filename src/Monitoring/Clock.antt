-- ===== src/Monitoring/Clock.antt =====
-- `TestnetMonitor` of src/etb/monitoring/testnet_monitor.py. `int(time.time())` is a number of
-- seconds, the clock; what it shows after a sleep or after an action is the caller's.
pub mod Slots
pub mod Waiting
pub mod Passing
pub mod Rounds
use ethereum_testnet_bootstr.Base.{
  ℕ, String, zero, suc, ◌*◌, ◌/◌, ◌%◌, min, Bool, true, false, ◌&&◌, Option, none, some, List, [],
  ◌∷◌, ◌++◌, ◌==◌, nat_eq, if◌then◌else◌,
}
use ethereum_testnet_bootstr.Base.Int.{ℤ, pos, negsuc, floor_div, ◌+ℤ◌, ◌-ℤ◌, ◌*ℤ◌, ltb_ℤ, pos_part}
use ethereum_testnet_bootstr.Monitoring.Metrics.{is_empty}

pub data TestnetMonitorActionInterval : Type 0 where
  every_slot : TestnetMonitorActionInterval
  every_epoch : TestnetMonitorActionInterval
  once : TestnetMonitorActionInterval

pub record TestnetMonitorAction : Type 0 where
  pub name : String
  pub interval : TestnetMonitorActionInterval

pub record TestnetMonitor : Type 0 where
  pub consensus_genesis_time : Option ℕ
  pub seconds_per_slot : ℕ
  pub slots_per_epoch : ℕ
  pub every_slot_actions : List TestnetMonitorAction
  pub every_epoch_actions : List TestnetMonitorAction
  pub once_actions : List TestnetMonitorAction

unfoldable pub get_slot : TestnetMonitor → ℕ → ℤ
get_slot m now = elim m.consensus_genesis_time [
  | none ↦ pos 0
  | some genesis ↦ floor_div (pos now -ℤ pos genesis) m.seconds_per_slot
]

unfoldable pub get_epoch : TestnetMonitor → ℕ → ℤ
get_epoch m now = floor_div (get_slot m now) m.slots_per_epoch

-- `epoch_to_slot`
unfoldable pub epoch_to_slot : TestnetMonitor → ℤ → ℤ
epoch_to_slot m epoch_num = epoch_num *ℤ m.slots_per_epoch

-- `t_delta`
unfoldable pub t_delta : TestnetMonitor → ℤ → ℕ → ℤ
t_delta m target_slot now = (target_slot -ℤ get_slot m now) *ℤ m.seconds_per_slot

-- What the clock shows after a sleep of so many seconds.
abbrev pub Sleep : Type 0
Sleep = ℕ → ℕ → ℕ

-- The loop of `wait_for_slot`, for at most so many sleeps.
unfoldable pub wait_for_slot : TestnetMonitor → Sleep → ℕ → ℤ → ℕ → Option ℕ
wait_for_slot m sleep zero target_slot now =
    if ltb_ℤ (pos 0) (t_delta m target_slot now) then none else some now
wait_for_slot m sleep (suc fuel) target_slot now =
    let woken = sleep now (min (pos_part (t_delta m target_slot now)) 60) in
    let rest = wait_for_slot m sleep fuel target_slot woken in
    if ltb_ℤ (pos 0) (t_delta m target_slot now) then rest else some now

unfoldable pub wait_for_next_slot : TestnetMonitor → Sleep → ℕ → ℕ → Option ℕ
wait_for_next_slot m sleep fuel now = wait_for_slot m sleep fuel (get_slot m now +ℤ pos 1) now

unfoldable pub wait_for_epoch : TestnetMonitor → Sleep → ℕ → ℤ → ℕ → Option ℕ
wait_for_epoch m sleep fuel target_epoch now =
    wait_for_slot m sleep fuel (epoch_to_slot m target_epoch) now

unfoldable pub add_action : TestnetMonitor → TestnetMonitorAction → TestnetMonitor
add_action m action = elim (action.interval) [
  | every_slot ↦ record m { every_slot_actions = m.every_slot_actions ++ (action ∷ []) }
  | every_epoch ↦ record m { every_epoch_actions = m.every_epoch_actions ++ (action ∷ []) }
  | once ↦ record m { once_actions = m.once_actions ++ (action ∷ []) }
]

-- `goal_slot % self.slots_per_epoch == 0`
unfoldable pub starts_epoch : TestnetMonitor → ℤ → Bool
starts_epoch m (pos slot) = slot % m.slots_per_epoch == 0
starts_epoch m (negsuc slot) = suc slot % m.slots_per_epoch == 0

-- An action that was performed, with the slot that its round waited for; an action that is
-- performed once has the slot in which `run` begins.
abbrev pub Performed : Type 0
Performed = ℤ × TestnetMonitorAction

abbrev pub perform_all : ℤ → List TestnetMonitorAction → List Performed
perform_all slot [] = []
perform_all slot (action ∷ actions) = (slot, action) ∷ perform_all slot actions

-- What one round performs once its slot has come.
unfoldable pub round : TestnetMonitor → ℤ → List Performed
round m goal_slot =
    perform_all goal_slot m.every_slot_actions
    ++ (if starts_epoch m goal_slot then perform_all goal_slot m.every_epoch_actions else [])

-- So many rounds of the loop of `run`: what they perform and the clock behind them. `busy` is the
-- clock after the actions of a round.
unfoldable pub rounds : TestnetMonitor → Sleep → (ℕ → ℕ) → ℕ → ℕ → ℕ → Option (List Performed × ℕ)
rounds m sleep busy fuel zero now = some ([], now)
rounds m sleep busy fuel (suc n) now =
    elim (wait_for_slot m sleep fuel (get_slot m now +ℤ pos 1) now) [
      | none ↦ none
      | some woken ↦ (elim (rounds m sleep busy fuel n (busy woken)) [
        | none ↦ none
        | some (performed, after) ↦ some (round m (get_slot m now +ℤ pos 1) ++ performed, after)
      ])
    ]

-- `run`, whose loop is left after so many rounds; it has none where nothing is periodic.
unfoldable pub run : TestnetMonitor → Sleep → (ℕ → ℕ) → ℕ → ℕ → ℕ → Option (List Performed × ℕ)
run m sleep busy fuel n now =
    let performed = perform_all (get_slot m now) m.once_actions in
    let periodic = rounds m sleep busy fuel n now in
    if is_empty m.every_slot_actions && is_empty m.every_epoch_actions
    then some (performed, now)
    else elim periodic [ none ↦ none | some (later, after) ↦ some (performed ++ later, after) ]
