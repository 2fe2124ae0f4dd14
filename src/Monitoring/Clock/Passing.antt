-- ===== src/Monitoring/Clock/Passing.antt =====
-- What is behind a `wait_for_slot` that returned (src/etb/monitoring/testnet_monitor.py).
use ethereum_testnet_bootstr.Base.{
  ℕ, zero, suc, ◌<◌, ◌≤◌, ◌≡◌, inl, inr, min, some, arith, Bool-cases,
}
use ethereum_testnet_bootstr.Base.Int.{ℤ, pos, pos_part, ◌≤ℤ◌, ltb_ℤ, -ℤ_parts}
use ethereum_testnet_bootstr.Monitoring.Clock.{
  TestnetMonitor, get_slot, t_delta, Sleep, wait_for_slot,
}
use ethereum_testnet_bootstr.Monitoring.Clock.Slots.{get_slot_iff}
use ethereum_testnet_bootstr.Monitoring.Clock.Waiting.{stops}

module _ (m : TestnetMonitor) (genesis : ℕ) (g : m.consensus_genesis_time ≡ some genesis)
    (h : 0 < m.seconds_per_slot) where
  -- The slot has begun, whatever the sleeps.
  pub wait_for_slot-passed :
      (sleep : Sleep)
      → ((t n : ℕ) → t ≤ sleep t n)
      → (fuel : ℕ) (target : ℤ) (now woken : ℕ) → wait_for_slot m sleep fuel target now ≡ some woken
      → (now ≤ woken) × (target ≤ℤ get_slot m woken)
  unfolding wait_for_slot
  wait_for_slot-passed sleep e zero target now woken w =
      ground (arith, stops m genesis g h target now)
  wait_for_slot-passed sleep e (suc fuel) target now woken w =
      elim (Bool-cases (ltb_ℤ (pos 0) (t_delta m target now))) [
        | inl p ↦
            let n = min (pos_part (t_delta m target now)) 60 in
            let again =
              wait_for_slot-passed sleep e fuel target (sleep now n) woken (ground (arith, p)) in
            ground (arith, again, e now n)
        | inr p ↦ ground (arith, p, stops m genesis g h target now p)
      ]

  -- The slot does not fall while the clock rises.
  pub get_slot_mono : (now later : ℕ) → now ≤ later → get_slot m now ≤ℤ get_slot m later
  get_slot_mono now later e =
      let begun = (get_slot_iff m genesis g h (get_slot m now) now).0 in
      let still = (get_slot_iff m genesis g h (get_slot m now) later).1 in
      ground
        (arith, begun, still, -ℤ_parts (pos now) (pos genesis), -ℤ_parts (pos later) (pos genesis))
