-- ===== src/Checker/Phases/Safety.antt =====
-- When the actions of a finite status check come (src/antithesis_checker.py).
use ethereum_testnet_bootstr.Base.{
  ℕ, zero, suc, ◌*◌, ◌<◌, ◌≤◌, ◌≡◌, some, arith, Bool-cases, inl, inr,
}
use ethereum_testnet_bootstr.Base.Int.{ℤ, pos, ◌+ℤ◌, ◌≤ℤ◌, ltb_ℤ}
use ethereum_testnet_bootstr.Base.Runs.{
  Keeps, Keeps-bind, Keeps-act, Keeps-call, Keeps-return, Keeps-in_time,
}
use ethereum_testnet_bootstr.Checker.Phases.{
  Args, slot_or, Event, World, phase0_waited, validators, phase0, ready, start_faults, heads,
  stop_faults, phase3, workload_complete, next_heads, watch_until, come_up, inject_faults, conclude,
  perform_finite_status_check,
}
use ethereum_testnet_bootstr.Monitoring.Clock.{
  TestnetMonitor, get_slot, wait_for_slot, wait_for_next_slot,
}
use ethereum_testnet_bootstr.Monitoring.Clock.Passing.{wait_for_slot-passed, get_slot_mono}

-- The slot that an action waits for.
abbrev pub due : TestnetMonitor → Args → Event → ℤ
due m args start_faults = slot_or args.phase1_slot (2 * m.slots_per_epoch)
due m args (heads _) = slot_or args.phase1_slot (2 * m.slots_per_epoch)
due m args stop_faults = slot_or args.phase2_slot (3 * m.slots_per_epoch)
due m args (phase3 _) = slot_or args.phase3_slot (4 * m.slots_per_epoch)
due m args workload_complete = slot_or args.phase3_slot (4 * m.slots_per_epoch)
due m args phase0_waited = slot_or args.phase0_slot m.slots_per_epoch
due m args (validators _) = slot_or args.phase0_slot m.slots_per_epoch
due m args (phase0 _) = slot_or args.phase0_slot m.slots_per_epoch
due m args ready = slot_or args.phase0_slot m.slots_per_epoch

-- An action comes in the slot that it waits for or in a later one.
abbrev pub IsDue : TestnetMonitor → Args → ℕ × Event → Type 0
IsDue m args (now, e) = due m args e ≤ℤ get_slot m now

module _ (m : TestnetMonitor) (genesis : ℕ) (g : m.consensus_genesis_time ≡ some genesis)
    (h : 0 < m.seconds_per_slot) (w : World) (slept : (t n : ℕ) → t ≤ w.sleep t n)
    (passes : (t : ℕ) → t ≤ w.later t) (args : Args) where
  -- The clock is in the slot or a later one.
  abbrev Passed : ℤ → ℕ → Type 0
  Passed slot now = slot ≤ℤ get_slot m now

  later-Passed : (slot : ℤ) (now : ℕ) → Passed slot now → Passed slot (w.later now)
  later-Passed slot now p =
      ground (arith, get_slot_mono m genesis g h now (w.later now) (passes now))

  -- A wait that returns does so in the slot that it waits for or a later one.
  waited :
      (fuel : ℕ) (slot : ℤ) (now woken : ℕ)
      → wait_for_slot m w.sleep fuel slot now ≡ some woken
      → (now ≤ woken) × Passed slot woken
  waited fuel slot now woken e =
      wait_for_slot-passed m genesis g h w.sleep slept fuel slot now woken e

  next_heads-IsDue :
      (fuel now : ℕ)
      → Passed (due m args start_faults) now
      → Keeps (IsDue m args) (Passed (due m args start_faults)) (next_heads m w fuel now)
  unfolding wait_for_next_slot
  next_heads-IsDue fuel now p =
      Keeps-in_time (IsDue m args) (Passed (due m args start_faults)) _ _ (λ woken e.
        let q : Passed (due m args start_faults) woken = ground (
          arith,
          waited fuel (get_slot m now +ℤ pos 1) now woken e,
          get_slot_mono m genesis g h now woken,
        ) in
        Keeps-call (IsDue m args) (Passed (due m args start_faults)) (w.heads_at woken) _ (λ status.
          Keeps-act (IsDue m args) (Passed (due m args start_faults)) _ _ q
            (Keeps-return (IsDue m args) _ _ (later-Passed _ woken q))))

  watch_until-IsDue :
      (fuel : ℕ) (slot : ℤ) (rounds now : ℕ)
      → Passed (due m args start_faults) now
      → Keeps
          (IsDue m args)
          (λ t. Passed (due m args start_faults) t × Passed slot t)
          (watch_until m w fuel slot rounds now)
  unfolding watch_until
  watch_until-IsDue fuel slot zero now p = elim (Bool-cases (ltb_ℤ (get_slot m now) slot)) [
    | inl more ↦ rw more tt
    | inr done ↦ rw done (Keeps-return (IsDue m args) _ now (p, ground arith))
  ]
  watch_until-IsDue fuel slot (suc rounds) now p = elim (Bool-cases (ltb_ℤ (get_slot m now) slot)) [
    | inl more ↦ rw more (
        Keeps-bind (IsDue m args) (Passed (due m args start_faults)) _ _ _
          (next_heads-IsDue fuel now p) (λ woken q. watch_until-IsDue fuel slot rounds woken q))
    | inr done ↦ rw done (Keeps-return (IsDue m args) _ now (p, ground arith))
  ]

  come_up-IsDue : (fuel now : ℕ) → Keeps (IsDue m args) (λ _. Unit {0}) (come_up m w args fuel now)
  unfolding come_up
  come_up-IsDue fuel now =
      let P = IsDue m args in
      let S = λ (t : ℕ). Unit {0} in
      Keeps-in_time P S _ _ (λ t e.
        let p = (waited fuel _ now t e).1 in
        let p' = later-Passed _ t p in
        let p'' = later-Passed _ (w.later t) p' in
        Keeps-act P S _ _ p (
          Keeps-call P S (w.validators_at t) _ (λ vs. Keeps-act P S _ _ p' (
            Keeps-call P S _ _
              (λ healthy. Keeps-act P S _ _ p'' (Keeps-act P S _ _ p'' (Keeps-return P S _ tt)))))))

  inject_faults-IsDue :
      (fuel rounds now : ℕ)
      → Keeps
          (IsDue m args)
          (λ t. Passed (due m args start_faults) t × Passed (due m args workload_complete) t)
          (inject_faults m w args fuel rounds now)
  unfolding inject_faults
  inject_faults-IsDue fuel rounds now =
      let P = IsDue m args in
      let S =
        λ (t : ℕ). Passed (due m args start_faults) t × Passed (due m args workload_complete) t in
      Keeps-in_time P S _ _ (λ t e.
        let q = (waited fuel _ now t e).1 in
        Keeps-act P S _ _ q (
          Keeps-bind P _ S _ _ (watch_until-IsDue fuel _ rounds t q)
            (λ t2 q2. Keeps-act P S _ _ q2.1 (watch_until-IsDue fuel _ rounds t2 q2.0))))

  conclude-IsDue :
      (now : ℕ)
      → Passed (due m args workload_complete) now
      → Keeps (IsDue m args) (Passed (due m args workload_complete)) (conclude m w now)
  unfolding conclude
  conclude-IsDue now p =
      let r = later-Passed _ now p in
      let P = IsDue m args in
      let S = Passed (due m args workload_complete) in
      Keeps-call P S _ _
        (λ healed. Keeps-act P S _ _ r (Keeps-act P S _ _ r (Keeps-return P S _ r)))

  -- Whatever a finite status check comes to, each of its actions comes in the slot that it is due in or
  -- later: with a clock that never goes back, faults are not started before the slot of phase 1 nor
  -- stopped before that of phase 2, and the check is complete in the slot of phase 3 at the earliest.
  pub perform_finite_status_check-IsDue :
      (fuel rounds begun : ℕ)
      → Keeps
          (IsDue m args)
          (Passed (due m args workload_complete))
          (perform_finite_status_check m w args fuel rounds begun)
  unfolding perform_finite_status_check
  perform_finite_status_check-IsDue fuel rounds begun =
      let P = IsDue m args in
      let S = Passed (due m args workload_complete) in
      let Q = λ (t : ℕ). Passed (due m args start_faults) t × S t in
      Keeps-bind P Q S _ _
        (Keeps-bind P (λ _. Unit {0}) Q _ _ (come_up-IsDue fuel begun)
          (λ t _. inject_faults-IsDue fuel rounds t))
        (λ t p. conclude-IsDue t p.1)
