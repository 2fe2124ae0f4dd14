-- ===== src/Checker/Phases.antt =====
-- `TestnetStatusCheckerV2.perform_finite_status_check` of src/antithesis_checker.py: the phases of an
-- experiment, as the actions that it prints, each with the clock at which it is printed.
pub mod Safety
pub mod Completion
use ethereum_testnet_bootstr.Base.{
  ℕ, zero, suc, ◌*◌, Bool, [], Result, ok, ◌>>=◌ as ◌>>=ᵣ◌, if◌then◌else◌,
}
use ethereum_testnet_bootstr.Base.Int.{ℤ, pos, negsuc, ltb_ℤ}
use ethereum_testnet_bootstr.Base.Runs.{Run, unfinished, ◌>>=◌, ◌>>◌, act, return, call, in_time}
use ethereum_testnet_bootstr.Checker.{HeadStatusCheck, check_for_consensus}
use ethereum_testnet_bootstr.Checker.Validators.{ClientValidators}
use ethereum_testnet_bootstr.Monitoring.Clock.{
  TestnetMonitor, Sleep, get_slot, wait_for_slot, wait_for_next_slot,
}

-- The arguments of the command line; -1 is a slot that is not given.
pub record Args : Type 0 where
  pub phase0_slot : ℤ
  pub phase1_slot : ℤ
  pub phase2_slot : ℤ
  pub phase3_slot : ℤ

-- A slot as it is given, or the start of the epoch that is its default.
abbrev pub slot_or : ℤ → ℕ → ℤ
slot_or (negsuc zero) default = pos default
slot_or (negsuc (suc n)) default = negsuc (suc n)
slot_or (pos n) default = pos n

-- What is printed; `ready` is the file that is touched for the fuzzer.
pub data Event : Type 0 where
  phase0_waited : Event
  validators : ClientValidators → Event
  phase0 : Bool → Event
  ready : Event
  start_faults : Event
  heads : HeadStatusCheck → Event
  stop_faults : Event
  phase3 : Bool → Event
  workload_complete : Event

-- What the clients answer when they are asked at a clock: their validators, their heads, and their
-- heads at each attempt of a check for consensus. `later` is the clock behind what is asked.
pub record World : Type 0 where
  pub sleep : Sleep
  pub validators_at : ℕ → Result ClientValidators
  pub heads_at : ℕ → Result HeadStatusCheck
  pub attempts_at : ℕ → ℕ → Result HeadStatusCheck
  pub later : ℕ → ℕ

abbrev pub verdict_result : World → ℕ → Result Bool
verdict_result w now = check_for_consensus (w.attempts_at now) 3 >>=ᵣ λ (found, slept). ok found

module _ (m : TestnetMonitor) (w : World) where
  -- `wait_for_next_slot` and the print of the heads.
  abbrev pub next_heads : ℕ → ℕ → Run (ℕ × Event) ℕ
  next_heads fuel now = do
    woken ← in_time (wait_for_next_slot m w.sleep fuel now)
    status ← call (w.heads_at woken)
    act (woken, heads status)
    return (w.later woken)

  -- `while self.testnet_monitor.get_slot() < phase_slot`, for at most so many rounds.
  unfoldable pub watch_until : ℕ → ℤ → ℕ → ℕ → Run (ℕ × Event) ℕ
  watch_until fuel phase_slot zero now =
      if ltb_ℤ (get_slot m now) phase_slot then ([], unfinished) else return now
  watch_until fuel phase_slot (suc rounds) now =
      let watched = next_heads fuel now >>= watch_until fuel phase_slot rounds in
      if ltb_ℤ (get_slot m now) phase_slot then watched else return now

  -- What `check_for_consensus` finds when it is called at a clock.
  abbrev pub verdict : ℕ → Run (ℕ × Event) Bool
  verdict now = call (verdict_result w now)

  -- Phase 0: the network comes up and is checked.
  unfoldable pub come_up : Args → ℕ → ℕ → Run (ℕ × Event) ℕ
  come_up args fuel now = do
    t ← in_time (wait_for_slot m w.sleep fuel (slot_or args.phase0_slot m.slots_per_epoch) now)
    act (t, phase0_waited)
    vs ← call (w.validators_at t)
    act (w.later t, validators vs)
    healthy ← verdict (w.later t)
    act (w.later (w.later t), phase0 healthy)
    act (w.later (w.later t), ready)
    return (w.later (w.later t))

  -- Phases 1 and 2: faults, and the time to heal behind them.
  unfoldable pub inject_faults : Args → ℕ → ℕ → ℕ → Run (ℕ × Event) ℕ
  unfolding watch_until
  inject_faults args fuel rounds now = do
    let epoch = m.slots_per_epoch
    t1 ← in_time (wait_for_slot m w.sleep fuel (slot_or args.phase1_slot (2 * epoch)) now)
    act (t1, start_faults)
    t2 ← watch_until fuel (slot_or args.phase2_slot (3 * epoch)) rounds t1
    act (t2, stop_faults)
    watch_until fuel (slot_or args.phase3_slot (4 * epoch)) rounds t2

  -- Phase 3: the network should have healed.
  unfoldable pub conclude : ℕ → Run (ℕ × Event) ℕ
  conclude now = do
    healed ← verdict now
    act (w.later now, phase3 healed)
    act (w.later now, workload_complete)
    return (w.later now)

  unfoldable pub perform_finite_status_check : Args → ℕ → ℕ → ℕ → Run (ℕ × Event) ℕ
  unfolding come_up inject_faults conclude
  perform_finite_status_check args fuel rounds begun =
      come_up args fuel begun >>= inject_faults args fuel rounds >>= conclude
