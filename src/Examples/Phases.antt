-- ===== src/Examples/Phases.antt =====
-- Runs of a finite status check (src/antithesis_checker.py).
use ethereum_testnet_bootstr.Base.{
  ℕ, String, ◌+◌, ◌≡◌, refl, none, if◌then◌else◌, [], ◌∷◌, All, ok, arith, length, ◌==◌, nat_eq,
  ℕ_discrete,
}
use ethereum_testnet_bootstr.Base.Int.{negsuc, pos, ◌≤ℤ◌, ◌+ℤ◌, ◌-ℤ◌, ◌*ℤ◌}
use ethereum_testnet_bootstr.Base.Runs.{returned, Keeps, ◌>>=◌, act, return, call, in_time}
use ethereum_testnet_bootstr.Checker.{
  HeadStatusCheck, found_consensus, attempt_checks, check_for_consensus,
}
use ethereum_testnet_bootstr.Checker.Validators.{ClientValidators, get_validators_from_client}
use ethereum_testnet_bootstr.Requests.{exception, response}
use ethereum_testnet_bootstr.Checker.Phases.{
  Args, World, workload_complete, watch_until, come_up, inject_faults, conclude,
  perform_finite_status_check,
}
use ethereum_testnet_bootstr.Checker.Phases.Safety.{due, IsDue, perform_finite_status_check-IsDue}
use ethereum_testnet_bootstr.Checker.Phases.Completion.{
  Course, actions_of, IsHeads, EnoughFor, perform_finite_status_check-returns,
}
use ethereum_testnet_bootstr.Monitoring.Clock.{get_slot, t_delta, wait_for_slot, wait_for_next_slot}
use ethereum_testnet_bootstr.Examples.Clocks.{monitor}

abbrev one_head : HeadStatusCheck
one_head = record {
  unreachable_clients = [];
  heads = record { slot = "9"; state_root = "0xaa"; graffiti = ""; nodes = [] } ∷ [];
}

abbrev no_validators : ClientValidators
no_validators = record { client = "None"; validators = [] }

-- A request takes a second, and the answers do not change.
abbrev world : World
world = record {
  sleep = λ t n. t + n;
  validators_at = λ t. ok no_validators;
  heads_at = λ t. ok one_head;
  attempts_at = λ t i. ok one_head;
  later = λ t. t + 1;
}

abbrev defaults : Args
defaults = record {
  phase0_slot = negsuc 0;
  phase1_slot = negsuc 0;
  phase2_slot = pos 18;
  phase3_slot = pos 20;
}

-- Eight actions, and the heads in slots 17, 18 and 19; the answers of slot 19 come in slot 20.
eleven : length (perform_finite_status_check monitor world defaults 20 20 95).0 ≡ 11
unfolding perform_finite_status_check come_up inject_faults conclude watch_until ◌>>=◌ act return
    call in_time wait_for_slot wait_for_next_slot t_delta get_slot ◌-ℤ◌ ◌*ℤ◌ ◌+ℤ◌
    check_for_consensus attempt_checks found_consensus ℕ_discrete
eleven = refl

-- The first client cannot be reached; the second has a validator, and an entry that is empty.
asked :
    get_validators_from_client {X = String}
      (λ (c : ℕ). "besu-teku")
      (λ c. if c == 0 then exception "refused" else response (none ∷ []))
      (0 ∷ 1 ∷ [])
    ≡ ok (record {
      client = "besu-teku";
      validators = record { validator_pubkey = "Unknown"; status = "Unknown" } ∷ [];
    })
unfolding get_validators_from_client ℕ_discrete
asked = refl

perform_finite_status_check-IsDue_example :
    Keeps
      (IsDue monitor defaults)
      (λ now. due monitor defaults workload_complete ≤ℤ get_slot monitor now)
      (perform_finite_status_check monitor world defaults 20 20 95)
perform_finite_status_check-IsDue_example =
    perform_finite_status_check-IsDue monitor 100 refl (omega arith) world (λ t n. omega arith)
      (λ t. omega arith) defaults 20 20 95

enough :
    EnoughFor monitor 100 refl
      (omega arith)
      world
      (λ t n. omega arith)
      (λ t. omega arith)
      (λ t. (one_head, refl))
      defaults
      200
      30
      95
unfolding ◌*ℤ◌ ◌-ℤ◌ get_slot
enough = omega arith

perform_finite_status_check-returns_example :
    (c : Course) × (perform_finite_status_check monitor world defaults 200 30 95
      ≡ (actions_of world c, returned (c.t3 + 1)))
    × All IsHeads c.during
    × All IsHeads c.healing
perform_finite_status_check-returns_example =
    perform_finite_status_check-returns monitor 100 refl (omega arith) world (λ t n. omega arith)
      (λ t. omega arith) (λ t. (one_head, refl)) (λ t i. (one_head, refl)) defaults 200 30 95
      (λ t. (no_validators, refl)) enough
