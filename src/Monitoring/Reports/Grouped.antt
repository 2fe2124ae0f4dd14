-- ===== src/Monitoring/Reports/Grouped.antt =====
-- The groups of equal answers that the reports of
-- src/etb/monitoring/monitors/consensus_monitors.py list.
use ethereum_testnet_bootstr.Base.{
  ℕ, suc, ◌≡◌, refl, ap, ◌∙◌, String, Bool, false, Option, none, some, List, [], ◌∷◌, ◌++◌, map,
  length, ok, Eq, ◌==◌, arith, if◌then◌else◌,
}
use ethereum_testnet_bootstr.Base.Int.{pos, ◌-ℤ◌}
use ethereum_testnet_bootstr.Base.Dict.{Dict, lookup, NodupKeys}
use ethereum_testnet_bootstr.Base.Distinct.{AreDistinct}
use ethereum_testnet_bootstr.Monitoring.Metrics.{
  QueryResult, read_timeout, connection_error, other_exception, response, Monitor, group_results,
  order_results_by_consensus, collect_consensus, reached_consensus,
}
use ethereum_testnet_bootstr.Monitoring.Metrics.Groups.{answered, if_answered}
use ethereum_testnet_bootstr.Monitoring.Metrics.Agreement.{clients_with, group_results_lem}
use ethereum_testnet_bootstr.Monitoring.Metrics.Retries.{seen, EndsAt, collect-from_start}
use ethereum_testnet_bootstr.Monitoring.Availability.Headings.{
  is_unreachable, is_invalid, with_heading, seen-groups, refused-with_heading,
  unparsed-with_heading,
}
use ethereum_testnet_bootstr.Monitoring.Reports.{
  ReportLine, num_forks, num_blob_forks, measured, unreachable_clients, invalid_response_clients,
  line_of, report_metric, report_heads, report_blobs, run_heads, run_blobs,
}

-- No entry for an empty list.
abbrev pub nonempty : {C : Type 0} → List C → Option (List C)
nonempty [] = none
nonempty (c ∷ cs) = some (c ∷ cs)

-- Whether the answer is read as `a`.
abbrev pub gives : {R A : Type 0} → ⦃ea : Eq A⦄ → (R → Option A) → A → QueryResult R → Bool
gives parse a (response r) = elim (parse r) [ none ↦ false | some b ↦ a == b ]
gives parse a _ = false

module _ {C R A : Type 0} ⦃ea : Eq A⦄ (parse : R → Option A) where
  -- The clients whose answers are read as `a`, in their order.
  unfoldable pub clients_giving : (C → QueryResult R) → A → List C → List C
  clients_giving query a [] = []
  clients_giving query a (c ∷ cs) =
      let rest = clients_giving query a cs in if gives parse a (query c) then c ∷ rest else rest

  -- Each value that was read is listed once, with the clients that gave it.
  abbrev pub AreGroups : (C → QueryResult R) → List C → Dict A (List C) → Type 0
  AreGroups query cs groups =
      ((a : A) → lookup a groups ≡ nonempty (clients_giving query a cs)) × NodupKeys groups

  module _ ⦃ec : Eq C⦄ (query : C → QueryResult R) where
    clients_with-step :
        (a : A) (c : C) (cs : List C) (q : QueryResult R)
        → clients_with a (answered parse query cs) ≡ clients_giving query a cs
        → clients_with a (if_answered parse query c q (answered parse query cs))
          ≡ (if gives parse a q then c ∷ clients_giving query a cs else clients_giving query a cs)
    unfolding clients_with
    clients_with-step a c cs (response r) h = ground (arith, h)
    clients_with-step a c cs read_timeout h = h
    clients_with-step a c cs connection_error h = h
    clients_with-step a c cs other_exception h = h

    clients_with-clients_giving :
        (a : A) (cs : List C) → clients_with a (answered parse query cs) ≡ clients_giving query a cs
    unfolding clients_with answered clients_giving
    clients_with-clients_giving a [] = refl
    clients_with-clients_giving a (c ∷ cs) =
        clients_with-step a c cs (query c) (clients_with-clients_giving a cs)

    pub answered-AreGroups :
        (cs : List C) → AreGroups query cs (group_results (answered parse query cs) [])
    answered-AreGroups cs =
        let (each, once) = group_results_lem (answered parse query cs) in
        (λ a. each a ∙ ap nonempty (clients_with-clients_giving a cs), once)

    module _ (name : C → String) where
      -- The report's lines: the values with the names of the clients that gave them, then the
      -- clients that could not be reached and those whose answers could not be read, if any.
      abbrev pub lines_of : List C → Dict A (List C) → List (ReportLine A (List String))
      lines_of cs groups =
          map (λ (a, clients). measured a (map name clients)) groups
          ++ (line_of unreachable_clients name (with_heading parse query is_unreachable cs)
              ++ line_of invalid_response_clients name (with_heading parse query is_invalid cs))

      -- A report of the attempt, behind its first line.
      report_metric-lines_of :
          (c : C) (cs : List C)
          → AreDistinct (c ∷ cs)
          → report_metric name
              (seen parse (λ _. query) c cs 0)
              (group_results (answered parse query (c ∷ cs)) [])
            ≡ lines_of (c ∷ cs) (group_results (answered parse query (c ∷ cs)) [])
      unfolding report_metric
      report_metric-lines_of c cs u =
          rw (seen-groups parse query c cs u, refused-with_heading, unparsed-with_heading) refl

  module _ ⦃ec : Eq C⦄ where
    -- Where the clients are distinct and an attempt is allowed, a run of the monitor of heads or of blobs
    -- reports one of its attempts, which passes the test or is the last. The report begins with the
    -- number of the values that were read, less one. Then come these values, each once, with the names of
    -- the clients that gave it in their order, then the clients that refused the connection and those
    -- whose answer cannot be read.
    pub run_heads-lines_of :
        (query : ℕ → C → QueryResult R) (name : C → String) (c : C) (cs : List C) (left : ℕ)
        (m : Monitor C A)
        → AreDistinct (c ∷ cs)
        → (k : ℕ) × (groups : Dict A (List C)) × EndsAt parse query c cs reached_consensus left 0 k
          × AreGroups (query k) (c ∷ cs) groups
          × (run_heads name parse query (c ∷ cs) (suc left) m
              ≡ ok (
                  num_forks (pos (length groups) -ℤ pos 1)
                  ∷ lines_of (query k) name (c ∷ cs) groups))
          × (run_blobs name parse query (c ∷ cs) (suc left) m
              ≡ ok (
                  num_blob_forks (pos (length groups) -ℤ pos 1)
                  ∷ lines_of (query k) name (c ∷ cs) groups))
    unfolding run_heads run_blobs collect_consensus report_heads report_blobs
        order_results_by_consensus
    run_heads-lines_of query name c cs left m u =
        let (k, same, end) = collect-from_start parse query c cs reached_consensus left m in
        let groups = group_results (answered parse (query k) (c ∷ cs)) [] in
        let same_groups : group_results (seen parse query c cs k).results [] ≡ groups =
          ap (λ m'. group_results m'.results []) (seen-groups parse (query k) c cs u) in
        let lines = report_metric-lines_of (query k) name c cs u in
        let report = λ (g : Dict A (List C)). report_metric name (seen parse query c cs k) g in
        (
          k,
          groups,
          end,
          answered-AreGroups (query k) (c ∷ cs),
          rw same (
              ap (λ g. ok (num_forks (pos (length g) -ℤ pos 1) ∷ report g)) same_groups
              ∙ ap (λ ls. ok (num_forks (pos (length groups) -ℤ pos 1) ∷ ls)) lines),
          rw same (
              ap (λ g. ok (num_blob_forks (pos (length g) -ℤ pos 1) ∷ report g)) same_groups
              ∙ ap (λ ls. ok (num_blob_forks (pos (length groups) -ℤ pos 1) ∷ ls)) lines),
        )
