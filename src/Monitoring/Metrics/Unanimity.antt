-- ===== src/Monitoring/Metrics/Unanimity.antt =====
-- `ConsensusMetricMonitor.collect_metrics` of src/etb/monitoring/monitors/consensus_monitors.py
-- where the clients agree.
use ethereum_testnet_bootstr.Base.{
  ℕ, suc, ◌≡◌, refl, false, Option, some, List, [], ◌∷◌, length, ok, Eq, arith,
}
use ethereum_testnet_bootstr.Base.Distinct.{AreDistinct}
use ethereum_testnet_bootstr.Monitoring.Metrics.{
  QueryResult, response, Monitor, reached_consensus, collect, query_clients_for_metric,
}
use ethereum_testnet_bootstr.Monitoring.Metrics.Groups.{answered, attempt-groups}
use ethereum_testnet_bootstr.Monitoring.Metrics.Retries.{seen, EndsAt, collect-EndsAt}

module _ {C R A : Type 0} ⦃ec : Eq C⦄ ⦃ea : Eq A⦄ (parse : R → Option A) where
  length-answered :
      (query : C → QueryResult R) (value : A)
      → ((c : C) → (r : R) × (query c ≡ response r) × (parse r ≡ some value))
      → (cs : List C) → length (answered parse query cs) ≡ length cs
  unfolding answered
  length-answered query value all [] = refl
  length-answered query value all (c ∷ cs) =
      let (r, q, p) = all c in ground (arith, q, p, length-answered query value all cs)

  module _ (query : ℕ → C → QueryResult R) (c d : C) (cs : List C)
      (distinct : AreDistinct (c ∷ d ∷ cs)) (value : ℕ → A)
      (all : (i : ℕ) (client : C)
        → (r : R) × (query i client ≡ response r) × (parse r ≡ some (value i))) where
    seen-not_reached : (i : ℕ) → reached_consensus (seen parse query c (d ∷ cs) i) ≡ false
    unfolding reached_consensus query_clients_for_metric
    seen-not_reached i =
        let grouped : ok (seen parse query c (d ∷ cs) i) ≡ ok _ =
          attempt-groups parse (query i) c (d ∷ cs) distinct in
        let many = length-answered (query i) (value i) (all i) (c ∷ d ∷ cs) in
        ground (arith, grouped, many)

    -- Two or more distinct clients that all answer with one value, whichever it is in an attempt, are
    -- asked in every attempt that is allowed: the loop returns the fields of the last.
    pub collect-unanimous :
        (left : ℕ) (m : Monitor C A)
        → collect parse reached_consensus query (c ∷ d ∷ cs) (suc left) 0 m
          ≡ ok (seen parse query c (d ∷ cs) left)
    unfolding EndsAt
    collect-unanimous left m =
        let (k, same, (below, _, end)) =
          collect-EndsAt parse query c (d ∷ cs) reached_consensus left 0 m in
        let not_yet = seen-not_reached k in ground (arith, same, end, not_yet)
