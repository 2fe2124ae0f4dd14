-- ===== src/Checker/Phases/Completion.antt =====
-- How a finite status check ends, and what it prints (src/antithesis_checker.py).
use ethereum_testnet_bootstr.Base.{
  ℕ, zero, suc, ◌+◌, ◌*◌, ◌<◌, ◌≤◌, ◌≡◌, ◌∙◌, refl, Bool, true, false, if◌then◌else◌, ◌^◌, List, [],
  ◌∷◌, ◌++◌, All, some, arith, Bool-cases, inl, inr, Result, ok, ltb, ap, ◌>>=◌ as ◌>>=ᵣ◌,
}
use ethereum_testnet_bootstr.Base.Int.{
  ℤ, pos, pos_part, ◌+ℤ◌, ◌-ℤ◌, ◌*ℤ◌, ◌≤ℤ◌, ltb_ℤ, +ℤ_parts, -ℤ_parts,
}
use ethereum_testnet_bootstr.Base.Runs.{
  All-append, behind, returned, ◌>>=◌, act, return, bind-returned, call-bind, in_time-bind,
}
use ethereum_testnet_bootstr.Checker.{
  HeadStatusCheck, attempt_checks, check_for_consensus, found_consensus,
}
use ethereum_testnet_bootstr.Checker.Validators.{ClientValidators}
use ethereum_testnet_bootstr.Checker.Phases.{
  Args, slot_or, Event, World, phase0_waited, validators, phase0, ready, start_faults, heads,
  stop_faults, phase3, workload_complete, next_heads, watch_until, verdict_result, come_up,
  inject_faults, conclude, perform_finite_status_check,
}
use ethereum_testnet_bootstr.Monitoring.Clock.{TestnetMonitor, get_slot, wait_for_next_slot}
use ethereum_testnet_bootstr.Monitoring.Clock.Slots.{get_slot_iff, *ℤ_parts}
use ethereum_testnet_bootstr.Monitoring.Clock.Waiting.{
  seconds_to, wait_for_slot-returns, times_next,
}
use ethereum_testnet_bootstr.Monitoring.Clock.Passing.{get_slot_mono}

attempt_checks-returns :
    (status : ℕ → Result HeadStatusCheck)
    → ((i : ℕ) → (s : HeadStatusCheck) × (status i ≡ ok s))
    → (left i : ℕ) → (r : Bool × List ℕ) × (attempt_checks status left i ≡ ok r)
unfolding attempt_checks
attempt_checks-returns status known zero i = ((false, []), refl)
attempt_checks-returns status known (suc left) i =
    let (s, e) = known i in
    let ((found, later), e') = attempt_checks-returns status known left (i + 1) in
    let slept = if ltb 0 i then 2 ^ (i + 1) ∷ [] else [] in
    elim (Bool-cases (found_consensus s)) [
      | inl y ↦ ((true, slept), rw (e, ◌>>=ᵣ◌) (rw y refl))
      | inr n ↦ ((found, slept ++ later), rw (e, ◌>>=ᵣ◌) (rw (n, e') refl))
    ]

-- A print of the heads.
abbrev pub IsHeads : ℕ × Event → Type 0
IsHeads (now, e) = (s : HeadStatusCheck) × (e ≡ heads s)

-- The course of a check: the clock at the end of each phase, and what was found.
pub record Course : Type 0 where
  pub t0 : ℕ
  pub t1 : ℕ
  pub t2 : ℕ
  pub t3 : ℕ
  pub found : ClientValidators
  pub healthy : Bool
  pub healed : Bool
  pub during : List (ℕ × Event)
  pub healing : List (ℕ × Event)

-- Its actions in their order.
abbrev pub actions_of : World → Course → List (ℕ × Event)
actions_of w c =
    ((c.t0, phase0_waited)
      ∷ (w.later c.t0, validators c.found)
      ∷ (w.later (w.later c.t0), phase0 c.healthy)
      ∷ (w.later (w.later c.t0), ready)
      ∷ [])
    ++ (((c.t1, start_faults) ∷ (c.during ++ ((c.t2, stop_faults) ∷ c.healing)))
        ++ ((w.later c.t3, phase3 c.healed) ∷ (w.later c.t3, workload_complete) ∷ []))

module _ (m : TestnetMonitor) (genesis : ℕ) (g : m.consensus_genesis_time ≡ some genesis)
    (h : 0 < m.seconds_per_slot) (w : World) (slept : (t n : ℕ) → t + n ≤ w.sleep t n)
    (passes : (t : ℕ) → t ≤ w.later t)
    (heads_known : (t : ℕ) → (s : HeadStatusCheck) × (w.heads_at t ≡ ok s)) where
  next-seconds_to :
      (now : ℕ) → seconds_to m genesis g h (get_slot m now +ℤ pos 1) now ≤ m.seconds_per_slot
  next-seconds_to now =
      let begun = (get_slot_iff m genesis g h (get_slot m now) now).0 in
      ground (
        arith,
        begun,
        times_next (get_slot m now) m.seconds_per_slot,
        *ℤ_parts (get_slot m now) m.seconds_per_slot,
        -ℤ_parts ((get_slot m now +ℤ pos 1) *ℤ m.seconds_per_slot) (pos now -ℤ pos genesis),
      )

  seconds_to_anti :
      (target : ℤ) (now later : ℕ)
      → now ≤ later
      → seconds_to m genesis g h target later ≤ seconds_to m genesis g h target now
  seconds_to_anti target now later e = ground (
    arith,
    -ℤ_parts (target *ℤ m.seconds_per_slot) (pos now -ℤ pos genesis),
    -ℤ_parts (target *ℤ m.seconds_per_slot) (pos later -ℤ pos genesis),
    -ℤ_parts (pos now) (pos genesis),
    -ℤ_parts (pos later) (pos genesis),
  )

  next_heads-returns :
      (fuel now : ℕ)
      → m.seconds_per_slot ≤ fuel
      → (es : List (ℕ × Event)) × (t : ℕ) × (next_heads m w fuel now ≡ (es, returned t))
        × All IsHeads es
        × (now ≤ t)
        × (get_slot m now +ℤ pos 1 ≤ℤ get_slot m t)
  unfolding wait_for_next_slot ◌>>=◌ act return
  next_heads-returns fuel now f =
      let next = get_slot m now +ℤ pos 1 in
      let (woken, e, later, p) =
        wait_for_slot-returns m genesis g h w.sleep slept fuel next now
          (ground (arith, next-seconds_to now)) in
      let (s, known) = heads_known woken in
      (
        (woken, heads s) ∷ [],
        w.later woken,
        in_time-bind _ e ∙ call-bind _ known,
        ((s, refl), tt),
        ground (arith, passes woken),
        ground (arith, get_slot_mono m genesis g h woken (w.later woken) (passes woken)),
      )

  watch_until-returns :
      (fuel : ℕ) (slot : ℤ) (rounds now : ℕ)
      → m.seconds_per_slot ≤ fuel
      → pos_part (slot -ℤ get_slot m now) ≤ rounds
      → (es : List (ℕ × Event)) × (t : ℕ) × (watch_until m w fuel slot rounds now
          ≡ (es, returned t))
        × All IsHeads es
        × (now ≤ t)
        × (slot ≤ℤ get_slot m t)
  unfolding watch_until return
  watch_until-returns fuel slot zero now f r = (
    [],
    now,
    ground (arith, -ℤ_parts slot (get_slot m now)),
    tt,
    ground arith,
    ground (arith, -ℤ_parts slot (get_slot m now)),
  )
  watch_until-returns fuel slot (suc rounds) now f r =
      elim (Bool-cases (ltb_ℤ (get_slot m now) slot)) [
        | inl more ↦
            let (es, t, e, all, later, p) = next_heads-returns fuel now f in
            let (fs, t', e', all', later', p') = watch_until-returns fuel slot rounds t f (
              ground (
                arith,
                -ℤ_parts slot (get_slot m now),
                -ℤ_parts slot (get_slot m t),
                +ℤ_parts (get_slot m now) (pos 1),
              )) in
            (
              es ++ fs,
              t',
              rw more (bind-returned _ _ e e'),
              All-append IsHeads es fs all all',
              ground arith,
              p',
            )
        | inr done ↦ ([], now, rw done refl, tt, ground arith, ground arith)
      ]

  -- Sleeps for each wait and rounds for each loop, counted from where the check begins.
  abbrev pub EnoughFor : Args → ℕ → ℕ → ℕ → Type 0
  EnoughFor args fuel rounds begun =
      (m.seconds_per_slot ≤ fuel)
      × (seconds_to m genesis g h (slot_or args.phase0_slot m.slots_per_epoch) begun ≤ fuel)
      × (seconds_to m genesis g h (slot_or args.phase1_slot (2 * m.slots_per_epoch)) begun ≤ fuel)
      × (pos_part (slot_or args.phase2_slot (3 * m.slots_per_epoch) -ℤ get_slot m begun) ≤ rounds)
      × (pos_part (slot_or args.phase3_slot (4 * m.slots_per_epoch) -ℤ get_slot m begun) ≤ rounds)

  rounds_anti :
      (slot : ℤ) (now later rounds : ℕ)
      → now ≤ later
      → pos_part (slot -ℤ get_slot m now) ≤ rounds
      → pos_part (slot -ℤ get_slot m later) ≤ rounds
  rounds_anti slot now later rounds e r = ground (
    arith,
    get_slot_mono m genesis g h now later e,
    -ℤ_parts slot (get_slot m now),
    -ℤ_parts slot (get_slot m later),
  )

  inject_faults-returns :
      (args : Args) (fuel rounds begun now : ℕ)
      → begun ≤ now
      → EnoughFor args fuel rounds begun
      → (t1 : ℕ) × (t2 : ℕ) × (t3 : ℕ) × (es : List (ℕ × Event)) × (fs : List (ℕ × Event))
        × (inject_faults m w args fuel rounds now
            ≡ ((t1, start_faults) ∷ (es ++ ((t2, stop_faults) ∷ fs)), returned t3))
        × All IsHeads es
        × All IsHeads fs
  unfolding inject_faults ◌>>=◌ act
  inject_faults-returns args fuel rounds begun now b (f, _, f1, r2, r3) =
      let slot1 = slot_or args.phase1_slot (2 * m.slots_per_epoch) in
      let slot2 = slot_or args.phase2_slot (3 * m.slots_per_epoch) in
      let slot3 = slot_or args.phase3_slot (4 * m.slots_per_epoch) in
      let (t1, e1, l1, p1) =
        wait_for_slot-returns m genesis g h w.sleep slept fuel slot1 now
          (omega (arith, seconds_to_anti slot1 begun now b)) in
      let (es, t2, e2, all2, l2, p2) =
        watch_until-returns fuel slot2 rounds t1 f
          (rounds_anti slot2 begun t1 rounds (omega arith) r2) in
      let (fs, t3, e3, all3, l3, p3) =
        watch_until-returns fuel slot3 rounds t2 f
          (rounds_anti slot3 begun t2 rounds (omega arith) r3) in
      (
        t1,
        t2,
        t3,
        es,
        fs,
        in_time-bind _ e1
            ∙ ap (behind ((t1, start_faults) ∷ []))
                (bind-returned _ _ e2 (ap (behind ((t2, stop_faults) ∷ [])) e3)),
        all2,
        all3,
      )

  module _ (attempts_known : (t i : ℕ) → (s : HeadStatusCheck) × (w.attempts_at t i ≡ ok s)) where
    -- What a check for consensus finds.
    verdict_of : (now : ℕ) → (b : Bool) × (verdict_result w now ≡ ok b)
    unfolding check_for_consensus
    verdict_of now =
        let ((b, sleeps), e) =
          attempt_checks-returns (w.attempts_at now) (attempts_known now) 4 0 in
        (b, rw e refl)

    come_up-returns :
        (args : Args) (fuel now : ℕ)
        → ((t : ℕ) → (vs : ClientValidators) × (w.validators_at t ≡ ok vs))
        → seconds_to m genesis g h (slot_or args.phase0_slot m.slots_per_epoch) now ≤ fuel
        → (t : ℕ) × (vs : ClientValidators) × (b : Bool) × (come_up m w args fuel now ≡ (
          (t, phase0_waited)
              ∷ (w.later t, validators vs)
              ∷ (w.later (w.later t), phase0 b)
              ∷ (w.later (w.later t), ready)
              ∷ [],
          returned (w.later (w.later t)),
        ))
          × (now ≤ t)
    unfolding come_up ◌>>=◌ act return
    come_up-returns args fuel now known f =
        let slot = slot_or args.phase0_slot m.slots_per_epoch in
        let (t, e, later, p) = wait_for_slot-returns m genesis g h w.sleep slept fuel slot now f in
        let (vs, k) = known t in
        let (b, v) = verdict_of (w.later t) in
        (
          t,
          vs,
          b,
          in_time-bind _ e
              ∙ ap (behind ((t, phase0_waited) ∷ []))
                  (call-bind _ k ∙ ap (behind ((w.later t, validators vs) ∷ [])) (call-bind _ v)),
          later,
        )

    conclude-returns :
        (now : ℕ)
        → (b : Bool) × (conclude m w now ≡ (
          (w.later now, phase3 b) ∷ (w.later now, workload_complete) ∷ [],
          returned (w.later now),
        ))
    unfolding conclude ◌>>=◌ act return
    conclude-returns now = let (b, v) = verdict_of now in (b, call-bind _ v)

    -- With sleeps that do not end early, a clock that never goes back, clients of which each is asked
    -- without an exception that is not caught, and fuel for the seconds and slots to the phases, a finite
    -- status check ends: it waits for phase 0, prints the validators and whether there is consensus, gives
    -- the signal to the fuzzer, starts the faults, prints heads only until it stops them, prints heads
    -- only until it prints whether there is consensus again, and is complete.
    pub perform_finite_status_check-returns :
        (args : Args) (fuel rounds begun : ℕ)
        → ((t : ℕ) → (vs : ClientValidators) × (w.validators_at t ≡ ok vs))
        → EnoughFor args fuel rounds begun
        → (c : Course) × (perform_finite_status_check m w args fuel rounds begun
            ≡ (actions_of w c, returned (w.later c.t3)))
          × All IsHeads c.during
          × All IsHeads c.healing
    unfolding perform_finite_status_check
    perform_finite_status_check-returns args fuel rounds begun known enough =
        let (t0, vs, healthy, e0, l0) = come_up-returns args fuel begun known enough.1 in
        let checked = w.later (w.later t0) in
        let (t1, t2, t3, es, fs, e1, all1, all2) =
          inject_faults-returns args fuel rounds begun checked
            (omega (arith, passes t0, passes (w.later t0))) enough in
        let (healed, e2) = conclude-returns t3 in
        (
          record {
            t0 = t0;
            t1 = t1;
            t2 = t2;
            t3 = t3;
            found = vs;
            healthy = healthy;
            healed = healed;
            during = es;
            healing = fs;
          },
          bind-returned _ _ (bind-returned _ _ e0 e1) e2,
          all1,
          all2,
        )
