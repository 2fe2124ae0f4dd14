-- ===== src/Monitoring/Clock/Waiting.antt =====
-- How `wait_for_slot` of src/etb/monitoring/testnet_monitor.py ends.
use ethereum_testnet_bootstr.Base.{
  ℕ, zero, suc, ◌+◌, ◌*◌, ◌<◌, ◌≤◌, ◌≡◌, refl, ap, ltb→lt, lt→ltb, ◌↔◌, inl, inr, min, true, false,
  none, some, arith, Bool-cases,
}
use ethereum_testnet_bootstr.Base.Int.{
  ℤ, pos, negsuc, pos_part, neg_part, ◌+ℤ◌, ◌-ℤ◌, ◌*ℤ◌, ◌≤ℤ◌, ◌<ℤ◌, ltb_ℤ, -ℤ_parts, +ℤ_parts,
  eq_of_parts,
}
use ethereum_testnet_bootstr.Monitoring.Clock.{
  TestnetMonitor, get_slot, t_delta, Sleep, wait_for_slot,
}
use ethereum_testnet_bootstr.Monitoring.Clock.Slots.{get_slot_iff, *ℤ_parts}

times_suc : (a n : ℕ) → suc a * n ≡ n + a * n
times_suc a n = omega arith

times-pos_iff : (d : ℤ) (n : ℕ) → 0 < n → (pos 0 <ℤ d *ℤ n) ↔ (pos 0 <ℤ d)
unfolding ◌*ℤ◌
times-pos_iff (pos zero) n h = (λ p. ground arith, λ p. ground arith)
times-pos_iff (pos (suc a)) n h = (λ p. ground arith, λ p. ground (arith, times_suc a n))
times-pos_iff (negsuc a) n h = (λ p. ground arith, λ p. ground arith)

times_distrib :
    (target slot : ℤ) (n : ℕ)
    → pos_part ((target -ℤ slot) *ℤ n) + neg_part target * n + pos_part slot * n
      ≡ neg_part ((target -ℤ slot) *ℤ n) + pos_part target * n + neg_part slot * n
times_distrib target slot n =
    omega (arith, ap (λ x. x * n) (-ℤ_parts target slot), *ℤ_parts (target -ℤ slot) n)

pub times_next :
    (slot : ℤ) (n : ℕ)
    → pos_part ((slot +ℤ pos 1) *ℤ n) + neg_part slot * n
      ≡ neg_part ((slot +ℤ pos 1) *ℤ n) + pos_part slot * n + n
times_next slot n =
    omega (arith, ap (λ x. x * n) (+ℤ_parts slot (pos 1)), *ℤ_parts (slot +ℤ pos 1) n)

module _ (m : TestnetMonitor) (genesis : ℕ) (g : m.consensus_genesis_time ≡ some genesis)
    (h : 0 < m.seconds_per_slot) where
  -- The seconds from the clock to the start of a slot that has not begun.
  abbrev pub seconds_to : ℤ → ℕ → ℕ
  seconds_to target now = pos_part (target *ℤ m.seconds_per_slot -ℤ (pos now -ℤ pos genesis))

  -- What the loop's test tells.
  waits :
      (target : ℤ) (now : ℕ)
      → ltb_ℤ (pos 0) (t_delta m target now) ≡ true
      → (get_slot m now <ℤ target) × (0 < seconds_to target now)
  unfolding t_delta
  waits target now p =
      let positive =
        (times-pos_iff (target -ℤ get_slot m now) m.seconds_per_slot h).0 (ltb→lt _ _ p) in
      let before : get_slot m now <ℤ target = ground (arith, -ℤ_parts target (get_slot m now)) in
      let not_begun = (get_slot_iff m genesis g h target now).1 in
      (
        before,
        ground (arith, -ℤ_parts (target *ℤ m.seconds_per_slot) (pos now -ℤ pos genesis), not_begun),
      )

  pub stops :
      (target : ℤ) (now : ℕ)
      → ltb_ℤ (pos 0) (t_delta m target now) ≡ false
      → target ≤ℤ get_slot m now
  unfolding t_delta
  stops target now p =
      let positive = (times-pos_iff (target -ℤ get_slot m now) m.seconds_per_slot h).1 in
      ground (arith, positive, -ℤ_parts target (get_slot m now))

  -- A sleep of at most the difference does not pass the slot.
  not_passed :
      (target : ℤ) (now n : ℕ)
      → n ≤ pos_part (t_delta m target now)
      → get_slot m now <ℤ target
      → get_slot m (now + n) ≤ℤ target
  unfolding t_delta
  not_passed target now n q p =
      let bound = (get_slot_iff m genesis g h (get_slot m now +ℤ pos 1) now).1 in
      let passed = (get_slot_iff m genesis g h (target +ℤ pos 1) (now + n)).0 in
      ground (
        arith,
        bound,
        passed,
        times_distrib target (get_slot m now) m.seconds_per_slot,
        -ℤ_parts (pos now) (pos genesis),
        -ℤ_parts (pos (now + n)) (pos genesis),
        *ℤ_parts (get_slot m now +ℤ pos 1) m.seconds_per_slot,
        *ℤ_parts (target +ℤ pos 1) m.seconds_per_slot,
        times_next (get_slot m now) m.seconds_per_slot,
        times_next target m.seconds_per_slot,
        +ℤ_parts (get_slot m now) (pos 1),
        +ℤ_parts target (pos 1),
      )

  closer :
      (target : ℤ) (now n later fuel : ℕ)
      → 0 < n
      → now + n ≤ later
      → seconds_to target now ≤ suc fuel
      → seconds_to target later ≤ fuel
  closer target now n later fuel q e f = ground (
    arith,
    -ℤ_parts (target *ℤ m.seconds_per_slot) (pos now -ℤ pos genesis),
    -ℤ_parts (target *ℤ m.seconds_per_slot) (pos later -ℤ pos genesis),
    -ℤ_parts (pos now) (pos genesis),
    -ℤ_parts (pos later) (pos genesis),
  )

  arrived :
      (target : ℤ) (now : ℕ)
      → get_slot m now ≤ℤ target
      → ltb_ℤ (pos 0) (t_delta m target now) ≡ false
      → get_slot m now ≡ target
  arrived target now b p =
      eq_of_parts (get_slot m now) target (ground (arith, b, stops target now p))

  -- With sleeps that never end early, and as many of them as there are seconds to the start of the
  -- slot, `wait_for_slot` returns, no earlier than it was called and in the slot or a later one.
  pub wait_for_slot-returns :
      (sleep : Sleep)
      → ((t n : ℕ) → t + n ≤ sleep t n)
      → (fuel : ℕ) (target : ℤ) (now : ℕ) → seconds_to target now ≤ fuel
      → (woken : ℕ) × (wait_for_slot m sleep fuel target now ≡ some woken)
        × (now ≤ woken)
        × (target ≤ℤ get_slot m woken)
  unfolding wait_for_slot
  wait_for_slot-returns sleep e zero target now f =
      elim (Bool-cases (ltb_ℤ (pos 0) (t_delta m target now))) [
        | inl p ↦ ground (arith, waits target now p)
        | inr p ↦ (now, ground (arith, p), ground arith, stops target now p)
      ]
  wait_for_slot-returns sleep e (suc fuel) target now f =
      elim (Bool-cases (ltb_ℤ (pos 0) (t_delta m target now))) [
        | inl p ↦
            let n = min (pos_part (t_delta m target now)) 60 in
            let (woken, q, later, r) =
              wait_for_slot-returns sleep e fuel target (sleep now n)
                (closer target now n (sleep now n) fuel (ground arith) (e now n) f) in
            (woken, ground (arith, p, q), omega (arith, later, e now n), r)
        | inr p ↦ (now, ground (arith, p), ground arith, stops target now p)
      ]

  -- Where each sleep takes exactly its time, a `wait_for_slot` that is called before the slot returns
  -- in the slot itself.
  pub wait_for_slot-exact :
      (fuel : ℕ) (target : ℤ) (now woken : ℕ)
      → get_slot m now ≤ℤ target
      → wait_for_slot m (λ t n. t + n) fuel target now ≡ some woken
      → get_slot m woken ≡ target
  unfolding wait_for_slot
  wait_for_slot-exact zero target now woken b w =
      elim (Bool-cases (ltb_ℤ (pos 0) (t_delta m target now))) [
        | inl p ↦ ground (arith, p)
        | inr p ↦ ground (arith, p, arrived target now b p)
      ]
  wait_for_slot-exact (suc fuel) target now woken b w =
      elim (Bool-cases (ltb_ℤ (pos 0) (t_delta m target now))) [
        | inl p ↦
            let n = min (pos_part (t_delta m target now)) 60 in
            wait_for_slot-exact fuel target (now + n) woken
              (not_passed target now n (ground arith) (waits target now p).0) (ground (arith, p))
        | inr p ↦ ground (arith, p, arrived target now b p)
      ]

no_genesis-waits :
    (m : TestnetMonitor) (target now : ℕ)
    → m.consensus_genesis_time ≡ none
    → 0 < m.seconds_per_slot
    → 0 < target
    → ltb_ℤ (pos 0) (t_delta m (pos target) now) ≡ true
unfolding t_delta get_slot
no_genesis-waits m target now g h t =
    let positive = (times-pos_iff (pos target -ℤ pos 0) m.seconds_per_slot h).1 in
    rw g (lt→ltb _ _ (positive (ground (arith, -ℤ_parts (pos target) (pos 0)))))

never_returns :
    (m : TestnetMonitor) (sleep : Sleep) (fuel target now : ℕ)
    → m.consensus_genesis_time ≡ none
    → 0 < m.seconds_per_slot
    → 0 < target
    → wait_for_slot m sleep fuel (pos target) now ≡ none
unfolding wait_for_slot
never_returns m sleep zero target now g h t = ground (arith, no_genesis-waits m target now g h t)
never_returns m sleep (suc fuel) target now g h t =
    let woken = sleep now (min (pos_part (t_delta m (pos target) now)) 60) in
    let again = never_returns m sleep fuel target woken g h t in
    ground (arith, again, no_genesis-waits m target now g h t)

-- A monitor that has no genesis time is in slot 0 at any time, and however often it sleeps, and
-- whenever it wakes, it does not return from waiting for a later slot.
pub wait_for_slot-no_genesis :
    (m : TestnetMonitor) (sleep : Sleep) (fuel target now : ℕ)
    → m.consensus_genesis_time ≡ none
    → 0 < m.seconds_per_slot
    → 0 < target
    → ((time : ℕ) → get_slot m time ≡ pos 0) × (wait_for_slot m sleep fuel (pos target) now ≡ none)
unfolding get_slot
wait_for_slot-no_genesis m sleep fuel target now g h t =
    (λ time. rw g refl, never_returns m sleep fuel target now g h t)
