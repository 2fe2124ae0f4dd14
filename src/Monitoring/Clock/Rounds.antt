-- ===== src/Monitoring/Clock/Rounds.antt =====
-- The loop of `TestnetMonitor.run` (src/etb/monitoring/testnet_monitor.py).
use ethereum_testnet_bootstr.Base.{
  ℕ, zero, suc, ◌+◌, ◌<◌, ◌≤◌, ◌≡◌, refl, ◌∙◌, some, List, [], ◌++◌, arith,
}
use ethereum_testnet_bootstr.Base.Int.{ℤ, pos, ◌+ℤ◌, ◌-ℤ◌, ◌*ℤ◌, -ℤ_parts, +ℤ_parts, eq_of_parts}
use ethereum_testnet_bootstr.Monitoring.Clock.{
  TestnetMonitor, get_slot, wait_for_slot, Performed, round, rounds,
}
use ethereum_testnet_bootstr.Monitoring.Clock.Slots.{get_slot_iff, *ℤ_parts}
use ethereum_testnet_bootstr.Monitoring.Clock.Waiting.{
  seconds_to, times_next, wait_for_slot-returns, wait_for_slot-exact,
}

-- What the rounds of the slots behind `slot` perform, one round for each.
pub rounds_after : TestnetMonitor → ℤ → ℕ → List Performed
rounds_after m slot zero = []
rounds_after m slot (suc n) = round m (slot +ℤ pos 1) ++ rounds_after m (slot +ℤ pos 1) n

module _ (m : TestnetMonitor) (genesis : ℕ) (g : m.consensus_genesis_time ≡ some genesis)
    (h : 0 < m.seconds_per_slot) where
  -- The next slot is at most a slot's time away.
  seconds_to_next :
      (now : ℕ) → seconds_to m genesis g h (get_slot m now +ℤ pos 1) now ≤ m.seconds_per_slot
  seconds_to_next now =
      let begun = (get_slot_iff m genesis g h (get_slot m now) now).0 in
      ground (
        arith,
        begun,
        *ℤ_parts (get_slot m now) m.seconds_per_slot,
        times_next (get_slot m now) m.seconds_per_slot,
        -ℤ_parts ((get_slot m now +ℤ pos 1) *ℤ m.seconds_per_slot) (pos now -ℤ pos genesis),
        -ℤ_parts (pos now) (pos genesis),
      )

  next_slot :
      (fuel now : ℕ)
      → m.seconds_per_slot ≤ fuel
      → (woken : ℕ) × (wait_for_slot m (λ t n. t + n) fuel (get_slot m now +ℤ pos 1) now
          ≡ some woken)
        × (get_slot m woken ≡ get_slot m now +ℤ pos 1)
  next_slot fuel now f =
      let target = get_slot m now +ℤ pos 1 in
      let (woken, q, _, _) =
        wait_for_slot-returns m genesis g h (λ t n. t + n) (λ t n. omega arith) fuel target now
          (omega (arith, f, seconds_to_next now)) in
      (
        woken,
        q,
        wait_for_slot-exact m genesis g h fuel target now woken
            (ground (arith, +ℤ_parts (get_slot m now) (pos 1))) q,
      )

  -- With exact sleeps and actions that end in the slot in which they begin, the loop makes one round
  -- for each slot behind the one in which it begins, in their order, and each wait returns.
  pub rounds-rounds_after :
      (busy : ℕ → ℕ)
      → ((t : ℕ) → get_slot m (busy t) ≡ get_slot m t)
      → (fuel : ℕ) → m.seconds_per_slot ≤ fuel
      → (n now : ℕ)
      → (after : ℕ) × (rounds m (λ t s. t + s) busy fuel n now
          ≡ some (rounds_after m (get_slot m now) n, after))
        × (get_slot m after ≡ get_slot m now +ℤ pos n)
  unfolding rounds rounds_after
  rounds-rounds_after busy b fuel f zero now =
      (now, refl, eq_of_parts _ _ (ground (arith, +ℤ_parts (get_slot m now) (pos 0))))
  rounds-rounds_after busy b fuel f (suc n) now =
      let (woken, q, r) = next_slot fuel now f in
      let (after, s, t) = rounds-rounds_after busy b fuel f n (busy woken) in
      let here : get_slot m (busy woken) ≡ get_slot m now +ℤ pos 1 = b woken ∙ r in
      (
        after,
        rw (rounds, q, s, here) refl,
        t
            ∙ eq_of_parts _ _ (
                ground (
                  arith,
                  here,
                  +ℤ_parts (get_slot m (busy woken)) (pos n),
                  +ℤ_parts (get_slot m now) (pos (suc n)),
                  +ℤ_parts (get_slot m now) (pos 1),
                )),
      )
