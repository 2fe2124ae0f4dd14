-- ===== src/Monitoring/Availability/Headings.antt =====
-- The headings of an availability report and the clients under them
-- (src/etb/monitoring/monitors/consensus_monitors.py).
use ethereum_testnet_bootstr.Base.{
  ℕ, suc, ◌≡◌, refl, Bool, true, false, Option, none, some, List, [], ◌∷◌, map, ok, Eq, arith,
  if◌then◌else◌,
}
use ethereum_testnet_bootstr.Base.Dict.{keys}
use ethereum_testnet_bootstr.Base.Distinct.{AreDistinct}
use ethereum_testnet_bootstr.Monitoring.Metrics.{
  QueryResult, read_timeout, connection_error, other_exception, response, Monitor,
  query_clients_for_metric, collect_metrics, collect_consensus, is_complete, reached_consensus,
}
use ethereum_testnet_bootstr.Monitoring.Metrics.Groups.{
  answered, timed_out, refused, failed, unparsed, attempt-groups,
}
use ethereum_testnet_bootstr.Monitoring.Metrics.Retries.{seen, EndsAt, collect-from_start}
use ethereum_testnet_bootstr.Monitoring.Availability.{
  Fields, Described, describe_execution, describe_consensus, Availability, described,
  report_availability, run_execution_availability, run_consensus_availability,
}

pub data Heading : Type 0 where
  is_available : Heading
  is_unreachable : Heading
  is_invalid : Heading
  is_unknown : Heading
  is_late : Heading

abbrev pub listed : Heading → Availability → List Described
listed is_available r = r.available
listed is_unreachable r = r.unreachable_connection_error
listed is_invalid r = r.invalid_response
listed is_unknown r = r.unreachable_unknown_reason
listed is_late r = r.timeout

module _ {R A : Type 0} (parse : R → Option A) where
  -- An answer that the parser takes is available, one that it refuses is invalid, and each
  -- exception has a heading of its own.
  abbrev pub has_heading : Heading → QueryResult R → Bool
  has_heading is_available (response r) = elim (parse r) [ none ↦ false | some _ ↦ true ]
  has_heading is_invalid (response r) = elim (parse r) [ none ↦ true | some _ ↦ false ]
  has_heading is_unreachable connection_error = true
  has_heading is_unknown other_exception = true
  has_heading is_late read_timeout = true
  has_heading _ _ = false

  module _ {C : Type 0} (query : C → QueryResult R) where
    -- The clients whose answers have a heading, in their order.
    unfoldable pub with_heading : Heading → List C → List C
    with_heading h [] = []
    with_heading h (c ∷ cs) =
        let rest = with_heading h cs in if has_heading h (query c) then c ∷ rest else rest

    module _ ⦃ec : Eq C⦄ where
      answered-with_heading :
          (cs : List C) → keys (answered parse query cs) ≡ with_heading is_available cs
      unfolding answered with_heading
      answered-with_heading [] = refl
      answered-with_heading (c ∷ cs) = ground (arith, answered-with_heading cs)

      pub refused-with_heading :
          (cs : List C) → refused parse query cs ≡ with_heading is_unreachable cs
      unfolding refused with_heading
      refused-with_heading [] = refl
      refused-with_heading (c ∷ cs) = ground (arith, refused-with_heading cs)

      pub unparsed-with_heading :
          (cs : List C) → unparsed parse query cs ≡ with_heading is_invalid cs
      unfolding unparsed with_heading
      unparsed-with_heading [] = refl
      unparsed-with_heading (c ∷ cs) = ground (arith, unparsed-with_heading cs)

      pub failed-with_heading : (cs : List C) → failed parse query cs ≡ with_heading is_unknown cs
      unfolding failed with_heading
      failed-with_heading [] = refl
      failed-with_heading (c ∷ cs) = ground (arith, failed-with_heading cs)

      pub timed_out-with_heading :
          (cs : List C) → timed_out parse query cs ≡ with_heading is_late cs
      unfolding timed_out with_heading
      timed_out-with_heading [] = refl
      timed_out-with_heading (c ∷ cs) = ground (arith, timed_out-with_heading cs)

pub described_lem :
    {C D : Type 0} (describe : C → D) (cs : List C) → described describe cs ≡ map describe cs
unfolding described
described_lem describe [] = refl
described_lem describe (c ∷ cs) = refl

module _ {C R A : Type 0} ⦃ec : Eq C⦄ (parse : R → Option A) (query : C → QueryResult R) where
  -- What an attempt leaves: the five groups.
  pub seen-groups :
      (c : C) (cs : List C)
      → AreDistinct (c ∷ cs)
      → seen parse (λ _. query) c cs 0 ≡ record {
        results = answered parse query (c ∷ cs);
        timeout_clients = timed_out parse query (c ∷ cs);
        unreachable_clients_connection_error = refused parse query (c ∷ cs);
        unreachable_clients_unknown_reason = failed parse query (c ∷ cs);
        invalid_response_clients = unparsed parse query (c ∷ cs);
      }
  unfolding query_clients_for_metric
  seen-groups c cs u = ground (arith, attempt-groups parse query c cs u)

module _ {C R A : Type 0} ⦃ec : Eq C⦄ (parse : R → Option A) where
  module _ (query : C → QueryResult R) (describe : C → Described) where
    -- Under each heading the report lists the clients whose answers have it.
    pub IsSorted : List C → Availability → Type 0
    IsSorted cs r = (h : Heading) → listed h r ≡ map describe (with_heading parse query h cs)

    groups-IsSorted :
        (c : C) (cs : List C)
        → AreDistinct (c ∷ cs)
        → IsSorted (c ∷ cs) (report_availability describe (seen parse (λ _. query) c cs 0))
    unfolding IsSorted report_availability
    groups-IsSorted c cs u is_available =
        rw (seen-groups parse query c cs u, described_lem, answered-with_heading) refl
    groups-IsSorted c cs u is_unreachable =
        rw (seen-groups parse query c cs u, described_lem, refused-with_heading) refl
    groups-IsSorted c cs u is_invalid =
        rw (seen-groups parse query c cs u, described_lem, unparsed-with_heading) refl
    groups-IsSorted c cs u is_unknown =
        rw (seen-groups parse query c cs u, described_lem, failed-with_heading) refl
    groups-IsSorted c cs u is_late =
        rw (seen-groups parse query c cs u, described_lem, timed_out-with_heading) refl

  -- A run of either monitor that may make at least one attempt at distinct clients reports one of its
  -- attempts: the first that passes the monitor's test, or else the last that is allowed. Under each
  -- heading it lists the clients whose answers in that attempt have the heading, in their order, an
  -- execution monitor with their execution clients and a consensus monitor with their consensus
  -- clients.
  pub run_availability-IsSorted :
      ⦃ea : Eq A⦄ (fields : Fields C) (query : ℕ → C → QueryResult R) (c : C) (cs : List C)
      (left : ℕ) (m : Monitor C A)
      → AreDistinct (c ∷ cs)
      → ((k : ℕ) × (r : Availability) × (run_execution_availability fields parse query
              (c ∷ cs)
              (suc left)
              m
            ≡ ok r)
          × EndsAt parse query c cs is_complete left 0 k
          × IsSorted (query k) (describe_execution fields) (c ∷ cs) r)
        × ((k : ℕ) × (r : Availability) × (run_consensus_availability fields parse query
                (c ∷ cs)
                (suc left)
                m
              ≡ ok r)
            × EndsAt parse query c cs reached_consensus left 0 k
            × IsSorted (query k) (describe_consensus fields) (c ∷ cs) r)
  unfolding run_execution_availability run_consensus_availability collect_metrics collect_consensus
  run_availability-IsSorted fields query c cs left m u =
      let (k, same, end) = collect-from_start parse query c cs is_complete left m in
      let (k', same', end') = collect-from_start parse query c cs reached_consensus left m in
      (
        (k, _, rw same refl, end, groups-IsSorted (query k) (describe_execution fields) c cs u),
        (k', _, rw same' refl, end', groups-IsSorted (query k') (describe_consensus fields) c cs u),
      )
