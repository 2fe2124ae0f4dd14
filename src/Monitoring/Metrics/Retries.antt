-- ===== src/Monitoring/Metrics/Retries.antt =====
-- The loop of `collect_metrics` of src/etb/monitoring/monitors/consensus_monitors.py.
use ethereum_testnet_bootstr.Base.{
  ℕ, zero, suc, ◌+◌, ◌≤◌, ◌<◌, ◌≡◌, refl, ◌⊎◌, inl, inr, Bool, true, false, Option, List, [], ◌∷◌,
  ok, Eq, arith, Bool-cases,
}
use ethereum_testnet_bootstr.Monitoring.Metrics.{
  QueryResult, Monitor, cleared, submit_all, sort_futures, query_clients_for_metric, collect,
}

module _ {C R A : Type 0} ⦃ec : Eq C⦄ (parse : R → Option A) where
  module _ (query : ℕ → C → QueryResult R) (c : C) (cs : List C) where
    -- The fields after attempt `i`.
    abbrev pub seen : ℕ → Monitor C A
    seen i = sort_futures parse (submit_all parse (query i) (c ∷ cs) []) cleared

    module _ (stop : Monitor C A → Bool) where
      -- `k` is the attempt that ends a loop of `left + 1` attempts from `i`.
      unfoldable pub EndsAt : ℕ → ℕ → ℕ → Type 0
      EndsAt left i k =
          (k ≤ left)
          × ((j : ℕ) → j < k → stop (seen (i + j)) ≡ false)
          × ((k ≡ left) ⊎ (stop (seen (i + k)) ≡ true))

      earlier_from :
          (i k : ℕ)
          → stop (seen i) ≡ false
          → ((j : ℕ) → j < k → stop (seen (i + 1 + j)) ≡ false)
          → (j : ℕ) → j < suc k
          → stop (seen (i + j)) ≡ false
      earlier_from i k p earlier zero h = ground (arith, p)
      earlier_from i k p earlier (suc j) h = ground (arith, earlier j (omega (arith, h)))

      -- A loop that may make at least one attempt returns the fields of one of its attempts. None
      -- before it passes the test, and it passes the test itself or is the last that is allowed.
      pub collect-EndsAt :
          (left i : ℕ) (m : Monitor C A)
          → (k : ℕ) × (collect parse stop query (c ∷ cs) (suc left) i m ≡ ok (seen (i + k)))
            × EndsAt left i k
      unfolding collect query_clients_for_metric EndsAt
      collect-EndsAt zero i m = (0, ground arith, (ground arith, λ j h. ground arith, inl refl))
      collect-EndsAt (suc left) i m = elim (Bool-cases (stop (seen i))) [
        | inl p ↦
            (0, ground (arith, p), (ground arith, λ j h. ground arith, inr (ground (arith, p))))
        | inr p ↦
            let (k, same, (below, earlier, end)) = collect-EndsAt left (i + 1) (seen i) in
            (
              suc k,
              ground (arith, p, same),
              (ground arith, earlier_from i k p earlier, ground (arith, end)),
            )
      ]

      -- The loop from attempt 0.
      pub collect-from_start :
          (left : ℕ) (m : Monitor C A)
          → (k : ℕ) × (collect parse stop query (c ∷ cs) (suc left) 0 m ≡ ok (seen k))
            × EndsAt left 0 k
      collect-from_start left m =
          let (k, same, end) = collect-EndsAt left 0 m in (k, ground (arith, same), end)
