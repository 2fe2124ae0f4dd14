-- ===== src/Examples/Clocks.antt =====
-- Runs of `TestnetMonitor` (src/etb/monitoring/testnet_monitor.py).
use ethereum_testnet_bootstr.Base.{ℕ, ◌+◌, ◌≤◌, ◌≡◌, ◌↔◌, refl, none, some, [], ◌∷◌, arith}
use ethereum_testnet_bootstr.Base.Int.{pos, negsuc, ◌≤ℤ◌, ◌+ℤ◌, ◌-ℤ◌, ◌*ℤ◌}
use ethereum_testnet_bootstr.Monitoring.Clock.{
  TestnetMonitor, TestnetMonitorAction, every_slot, every_epoch, get_slot, wait_for_slot, rounds,
  t_delta,
}
use ethereum_testnet_bootstr.Monitoring.Clock.Slots.{HasBegun, get_slot_iff}
use ethereum_testnet_bootstr.Monitoring.Clock.Waiting.{
  seconds_to, wait_for_slot-returns, wait_for_slot-no_genesis,
}
use ethereum_testnet_bootstr.Monitoring.Clock.Rounds.{rounds_after, rounds-rounds_after}

abbrev slot_action : TestnetMonitorAction
slot_action = record { name = "heads"; interval = every_slot }

abbrev epoch_action : TestnetMonitorAction
epoch_action = record { name = "checkpoints"; interval = every_epoch }

abbrev pub monitor : TestnetMonitor
monitor = record {
  consensus_genesis_time = some 100;
  seconds_per_slot = 6;
  slots_per_epoch = 8;
  every_slot_actions = slot_action ∷ [];
  every_epoch_actions = epoch_action ∷ [];
  once_actions = [];
}

abbrev no_genesis : TestnetMonitor
no_genesis = record monitor { consensus_genesis_time = none }

before_genesis : get_slot monitor 95 ≡ negsuc 0
unfolding get_slot ◌-ℤ◌
before_genesis = refl

get_slot_iff_example : (pos 2 ≤ℤ get_slot monitor 113) ↔ HasBegun monitor 100 (pos 2) 113
get_slot_iff_example = get_slot_iff monitor 100 refl (omega arith) (pos 2) 113

enough : seconds_to monitor 100 refl (omega arith) (pos 3) 95 ≤ 60
unfolding ◌*ℤ◌ ◌-ℤ◌
enough = omega arith

wait_for_slot-returns_example :
    (woken : ℕ) × (wait_for_slot monitor (λ t n. t + n + 1) 60 (pos 3) 95 ≡ some woken)
    × (95 ≤ woken)
    × (pos 3 ≤ℤ get_slot monitor woken)
wait_for_slot-returns_example =
    wait_for_slot-returns monitor 100 refl (omega arith) (λ t n. t + n + 1) (λ t n. omega arith) 60
      (pos 3) 95 enough

waited : wait_for_slot monitor (λ t n. t + n) 9 (pos 3) 95 ≡ some 119
unfolding wait_for_slot t_delta get_slot ◌-ℤ◌ ◌*ℤ◌
waited = refl

started : get_slot monitor 95 ≤ℤ pos 3
unfolding get_slot ◌-ℤ◌
started = omega arith

wait_for_slot-no_genesis_example :
    ((time : ℕ) → get_slot no_genesis time ≡ pos 0)
    × (wait_for_slot no_genesis (λ t n. t + n) 50 (pos 4) 200 ≡ none)
wait_for_slot-no_genesis_example =
    wait_for_slot-no_genesis no_genesis (λ t n. t + n) 50 4 200 refl (omega arith) (omega arith)

rounds-rounds_after_example :
    (after : ℕ) × (rounds monitor (λ t s. t + s) (λ t. t) 6 20 101
      ≡ some (rounds_after monitor (get_slot monitor 101) 20, after))
    × (get_slot monitor after ≡ get_slot monitor 101 +ℤ pos 20)
rounds-rounds_after_example =
    rounds-rounds_after monitor 100 refl (omega arith) (λ t. t) (λ t. refl) 6 (omega arith) 20 101
