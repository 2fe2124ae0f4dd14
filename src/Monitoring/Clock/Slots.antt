-- ===== src/Monitoring/Clock/Slots.antt =====
-- The slots of `TestnetMonitor` (src/etb/monitoring/testnet_monitor.py), before and after genesis.
use native.Mathlib.Nat.{le-div_iff_mul-le}
use ethereum_testnet_bootstr.Base.{ℕ, suc, ◌+◌, ◌*◌, ◌/◌, ◌<◌, ◌≤◌, ◌≡◌, ◌↔◌, some, arith}
use ethereum_testnet_bootstr.Base.Int.{
  ℤ, pos, negsuc, pos_part, neg_part, floor_div, ◌-ℤ◌, ◌*ℤ◌, ◌≤ℤ◌,
}
use ethereum_testnet_bootstr.Monitoring.Clock.{TestnetMonitor, get_slot, get_epoch, epoch_to_slot}

pub *ℤ_parts :
    (a : ℤ) (n : ℕ) → pos_part (a *ℤ n) + neg_part a * n ≡ neg_part (a *ℤ n) + pos_part a * n
unfolding ◌*ℤ◌
*ℤ_parts a n = ground arith

div-le_iff : (n a q : ℕ) → 0 < n → (q ≤ a / n) ↔ (q * n ≤ a)
div-le_iff n a q h = le-div_iff_mul-le h

-- The quotient is the largest number whose multiple is not above.
pub floor_div_iff : (q a : ℤ) (n : ℕ) → 0 < n → (q ≤ℤ floor_div a n) ↔ (q *ℤ n ≤ℤ a)
floor_div_iff (pos q) (pos a) n h =
    let (l, r) = div-le_iff n a q h in
    (λ p. ground (arith, *ℤ_parts (pos q) n, l), λ p. ground (arith, *ℤ_parts (pos q) n, r))
floor_div_iff (pos q) (negsuc a) n h =
    (λ p. ground (arith, *ℤ_parts (pos q) n), λ p. ground (arith, *ℤ_parts (pos q) n))
floor_div_iff (negsuc q) (pos a) n h =
    (λ p. ground (arith, *ℤ_parts (negsuc q) n), λ p. ground (arith, *ℤ_parts (negsuc q) n))
floor_div_iff (negsuc q) (negsuc a) n h =
    let (l, r) = div-le_iff n a (suc q) h in
    (
      λ p. ground (arith, *ℤ_parts (negsuc q) n, l, r),
      λ p. ground (arith, *ℤ_parts (negsuc q) n, l, r),
    )

module _ (m : TestnetMonitor) (genesis : ℕ) where
  -- The clock has reached the start of the slot.
  abbrev pub HasBegun : ℤ → ℕ → Type 0
  HasBegun slot now = slot *ℤ m.seconds_per_slot ≤ℤ pos now -ℤ pos genesis

  -- The slot that the monitor tells is the last that has begun, also before genesis.
  pub get_slot_iff :
      m.consensus_genesis_time ≡ some genesis
      → 0 < m.seconds_per_slot
      → (slot : ℤ) (now : ℕ) → (slot ≤ℤ get_slot m now) ↔ HasBegun slot now
  unfolding get_slot
  get_slot_iff g h slot now =
      rw g (floor_div_iff slot (pos now -ℤ pos genesis) m.seconds_per_slot h)

  -- The epoch that the monitor tells is the last whose first slot has begun.
  pub get_epoch_iff :
      m.consensus_genesis_time ≡ some genesis
      → 0 < m.seconds_per_slot
      → 0 < m.slots_per_epoch
      → (epoch : ℤ) (now : ℕ) → (epoch ≤ℤ get_epoch m now) ↔ HasBegun (epoch_to_slot m epoch) now
  unfolding get_epoch epoch_to_slot
  get_epoch_iff g h k epoch now =
      let (l, r) = get_slot_iff g h (epoch_to_slot m epoch) now in
      let (l', r') = floor_div_iff epoch (get_slot m now) m.slots_per_epoch k in
      (λ p. l (l' p), λ p. r' (r p))
