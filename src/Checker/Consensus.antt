-- ===== src/Checker/Consensus.antt =====
-- `check_for_consensus` of src/antithesis_checker.py.
use ethereum_testnet_bootstr.Base.{
  ℕ, zero, suc, ◌+◌, ◌^◌, ◌≤◌, ◌<◌, ◌≡◌, ◌⊎◌, inl, inr, refl, Bool, true, false, List, [], ◌∷◌, ok,
  Bool-cases, arith,
}
use ethereum_testnet_bootstr.Checker.{
  HeadStatusCheck, found_consensus, attempt_checks, check_for_consensus,
}

-- The seconds of the sleeps before the attempts from `curr_try` on.
pub backoff : ℕ → ℕ → List ℕ
backoff curr_try zero = []
backoff curr_try (suc n) = (2 ^ (curr_try + 1)) ∷ backoff (curr_try + 1) n

module _ (s : ℕ → HeadStatusCheck) where
  -- Attempt `i + k` is the first of `left + 1` that finds consensus, or there is none.
  pub FirstConsensus : ℕ → ℕ → ℕ → Bool → Type 0
  FirstConsensus left i k found =
      (k ≤ left)
      × ((j : ℕ) → j < k → found_consensus (s (i + j)) ≡ false)
      × (found_consensus (s (i + k)) ≡ found)
      × ((found ≡ true) ⊎ (k ≡ left))

  earlier_from :
      (i k : ℕ)
      → found_consensus (s i) ≡ false
      → ((j : ℕ) → j < k → found_consensus (s (i + 1 + j)) ≡ false)
      → (j : ℕ) → j < suc k
      → found_consensus (s (i + j)) ≡ false
  earlier_from i k p earlier zero h = ground (arith, p)
  earlier_from i k p earlier (suc j) h = ground (arith, earlier j (omega (arith, h)))

  check_found :
      (left i : ℕ)
      → found_consensus (s i) ≡ true
      → 0 < i
      → attempt_checks (λ n. ok (s n)) (suc left) i ≡ ok (true, (2 ^ (i + 1)) ∷ [])
  unfolding attempt_checks
  check_found left i p h = ground (arith, p, h)

  check_again :
      (left i : ℕ) (found : Bool) (later : List ℕ)
      → found_consensus (s i) ≡ false
      → 0 < i
      → attempt_checks (λ n. ok (s n)) left (i + 1) ≡ ok (found, later)
      → attempt_checks (λ n. ok (s n)) (suc left) i ≡ ok (found, (2 ^ (i + 1)) ∷ later)
  unfolding attempt_checks
  check_again left i found later p h q = ground (arith, p, h, q)

  check_none : (i : ℕ) → attempt_checks (λ n. ok (s n)) 0 i ≡ ok (false, [])
  unfolding attempt_checks
  check_none i = refl

  found_first :
      (left : ℕ)
      → found_consensus (s 0) ≡ true
      → attempt_checks (λ n. ok (s n)) (suc left) 0 ≡ ok (true, [])
  unfolding attempt_checks
  found_first left p = ground (arith, p)

  check_first :
      (left : ℕ) (found : Bool) (later : List ℕ)
      → found_consensus (s 0) ≡ false
      → attempt_checks (λ n. ok (s n)) left 1 ≡ ok (found, later)
      → attempt_checks (λ n. ok (s n)) (suc left) 0 ≡ ok (found, later)
  unfolding attempt_checks
  check_first left found later p q = ground (arith, p, q)

  attempts_from :
      (left i : ℕ)
      → 0 < i
      → (k : ℕ) × (found : Bool) × (attempt_checks (λ n. ok (s n)) (suc left) i
          ≡ ok (found, backoff i (suc k)))
        × FirstConsensus left i k found
  unfolding FirstConsensus backoff
  attempts_from zero i h = elim (Bool-cases (found_consensus (s i))) [
    | inl p ↦ (
      0,
      true,
      check_found 0 i p h,
      (ground arith, λ j h. ground arith, ground (arith, p), inl refl),
    )
    | inr p ↦ (
      0,
      false,
      check_again 0 i false [] p h (check_none (i + 1)),
      (ground arith, λ j h. ground arith, ground (arith, p), inr refl),
    )
  ]
  attempts_from (suc left) i h = elim (Bool-cases (found_consensus (s i))) [
    | inl p ↦ (
      0,
      true,
      check_found (suc left) i p h,
      (ground arith, λ j h. ground arith, ground (arith, p), inl refl),
    )
    | inr p ↦
        let (k, found, same, (below, earlier, here, end)) =
          attempts_from left (i + 1) (omega arith) in
        (
          suc k,
          found,
          check_again (suc left) i found (backoff (i + 1) (suc k)) p h same,
          (
            ground (arith, below),
            earlier_from i k p earlier,
            ground (arith, here),
            ground (arith, end),
          ),
        )
  ]

  -- Where every check of the heads returns, `check_for_consensus` makes one attempt more than
  -- `max_retries` allows retries for, stops at the first that finds consensus, and tells whether one
  -- did. The first attempt is made at once; before attempt `k` it sleeps `2 ^ (k + 1)` seconds.
  pub check_for_consensus-FirstConsensus :
      (max_retries : ℕ)
      → (k : ℕ) × (found : Bool) × (check_for_consensus (λ n. ok (s n)) max_retries
          ≡ ok (found, backoff 1 k))
        × FirstConsensus max_retries 0 k found
  unfolding check_for_consensus FirstConsensus backoff
  check_for_consensus-FirstConsensus zero = elim (Bool-cases (found_consensus (s 0))) [
    | inl p ↦
        (0, true, found_first 0 p, (ground arith, λ j h. ground arith, ground (arith, p), inl refl))
    | inr p ↦ (
      0,
      false,
      check_first 0 false [] p (check_none 1),
      (ground arith, λ j h. ground arith, ground (arith, p), inr refl),
    )
  ]
  check_for_consensus-FirstConsensus (suc left) = elim (Bool-cases (found_consensus (s 0))) [
    | inl p ↦ (
      0,
      true,
      found_first (suc left) p,
      (ground arith, λ j h. ground arith, ground (arith, p), inl refl),
    )
    | inr p ↦
        let (k, found, same, (below, earlier, here, end)) = attempts_from left 1 (ground arith) in
        (
          suc k,
          found,
          check_first (suc left) found (backoff 1 (suc k)) p same,
          (
            ground (arith, below),
            earlier_from 0 k p (λ j h. ground (arith, earlier j h)),
            ground (arith, here),
            ground (arith, end),
          ),
        )
  ]
