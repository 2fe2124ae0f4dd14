-- ===== src/Monitoring/Reports/Finalization.antt =====
-- What the report of the checkpoints lists
-- (src/etb/monitoring/monitors/consensus_monitors.py).
use ethereum_testnet_bootstr.Base.{
  ℕ, suc, ◌≡◌, refl, sym, ap, ◌∙◌, String, Option, none, some, List, [], ◌∷◌, map, All, Result, ok,
  err, ◌>>=◌, Eq, ◌==◌, string_eq, arith, Bool-cases, inl, inr,
}
use ethereum_testnet_bootstr.Base.Dict.{Dict, keys, lookup, insert}
use ethereum_testnet_bootstr.Base.Distinct.{AreDistinct}
use ethereum_testnet_bootstr.Requests.Bodies.{ResponseItems, Answer}
use ethereum_testnet_bootstr.Monitoring.Metrics.{
  QueryResult, read_timeout, connection_error, other_exception, response, Monitor, add_to_group,
  group_results, order_results_by_consensus, collect_consensus, reached_consensus,
}
use ethereum_testnet_bootstr.Monitoring.Metrics.Groups.{
  answered, if_answered, timed_out, refused, failed, unparsed,
}
use ethereum_testnet_bootstr.Monitoring.Metrics.Agreement.{add_to_group-insert}
use ethereum_testnet_bootstr.Monitoring.Metrics.Retries.{seen, EndsAt, collect-from_start}
use ethereum_testnet_bootstr.Monitoring.Availability.{Fields, described}
use ethereum_testnet_bootstr.Monitoring.Availability.Headings.{
  is_unreachable, is_invalid, is_unknown, is_late, with_heading, seen-groups, described_lem,
  refused-with_heading, unparsed-with_heading, failed-with_heading, timed_out-with_heading,
}
use ethereum_testnet_bootstr.Monitoring.Parsers.{
  Checkpoints, caught, read_checkpoints, get_checkpoints,
}
use ethereum_testnet_bootstr.Monitoring.Reports.{
  FinalizationData, CheckpointsReport, failed_client, failed_consensus_client, finalization_data_of,
  report_checkpoints, run_checkpoints,
}
use ethereum_testnet_bootstr.Monitoring.Reports.Grouped.{AreGroups, answered-AreGroups}

-- What holds of each value of the answers holds of each group's.
insert-All :
    {V : Type 0} (P : String → Type 0) (k : String) (v : V) (d : Dict String V)
    → P k
    → All P (keys d)
    → All P (keys (insert k v d))
insert-All P k v [] p h = (p, tt)
insert-All P k v ((j, w) ∷ d) p (q, h) = elim (Bool-cases (k == j)) [
  | inl same ↦ ground (arith, same, q, h)
  | inr differ ↦ ground (arith, differ, q, insert-All P k v d p h)
]

module _ {C : Type 0} ⦃ec : Eq C⦄ where
  AllValues : (String → Type 0) → Dict C String → Type 0
  AllValues P [] = Unit
  AllValues P ((_, v) ∷ d) = P v × AllValues P d

  add_to_group-All :
      (P : String → Type 0) (c : C) (text : String) (groups : Dict String (List C))
      → P text
      → All P (keys groups)
      → All P (keys (add_to_group c text groups))
  add_to_group-All P c text groups p h =
      let (cs, same, _) = add_to_group-insert c text groups (lookup text groups) refl in
      rw same (insert-All P text cs groups p h)

  group_results-All :
      (P : String → Type 0) (results : Dict C String) (groups : Dict String (List C))
      → AllValues P results
      → All P (keys groups)
      → All P (keys (group_results results groups))
  unfolding group_results AllValues
  group_results-All P [] groups h k = k
  group_results-All P ((c, text) ∷ results) groups (p, h) k =
      group_results-All P results (add_to_group c text groups) h
        (add_to_group-All P c text groups p k)

module _ (dumps : Checkpoints → String) (loads : String → Result Checkpoints) where
  -- A text of checkpoints that can be read again.
  IsRead : String → Type 0
  IsRead text = (t : Checkpoints) × (dumps t ≡ text) × (loads text ≡ ok t)

module _ {C : Type 0} (dumps : Checkpoints → String) (fields : Fields C) where
  -- One entry for each group, with the checkpoints that its text is of and its clients' names.
  unfoldable pub AreListed : Dict String (List C) → List FinalizationData → Type 0
  AreListed [] [] = Unit
  AreListed ((text, clients) ∷ groups) (d ∷ ds) =
      (dumps d.checkpoints ≡ text) × (d.clients ≡ map fields.name clients) × AreListed groups ds
  AreListed _ _ = ⊥

  module _ (loads : String → Result Checkpoints) where
    finalization_data_of-AreListed :
        (groups : Dict String (List C))
        → All (IsRead dumps loads) (keys groups)
        → (ds : List FinalizationData) × (finalization_data_of fields loads groups ≡ ok ds)
          × AreListed groups ds
    unfolding finalization_data_of AreListed IsRead
    finalization_data_of-AreListed [] h = ([], refl, tt)
    finalization_data_of-AreListed ((text, clients) ∷ groups) ((t, dumped, loaded), h) =
        let (ds, same, listed) = finalization_data_of-AreListed groups h in
        (
          record { checkpoints = t; clients = map fields.name clients } ∷ ds,
          ground (arith, loaded, same),
          (dumped, refl, listed),
        )

module _ (slice_items : ResponseItems → String) (dumps : Checkpoints → String)
    (loads : String → Result Checkpoints) where
  parsed-IsRead :
      (a : Answer) (text : String)
      → ((t : Checkpoints) → read_checkpoints slice_items a ≡ ok t → loads (dumps t) ≡ ok t)
      → get_checkpoints slice_items dumps a ≡ some text
      → IsRead dumps loads text
  unfolding get_checkpoints IsRead
  parsed-IsRead a text loaded e = read_as (read_checkpoints slice_items a) refl e
    where
      read_as :
          (o : Result Checkpoints)
          → read_checkpoints slice_items a ≡ o
          → caught (o >>= λ cps. ok (dumps cps)) ≡ some text
          → (t : Checkpoints) × (dumps t ≡ text) × (loads text ≡ ok t)
      read_as (err x) same h = absurd (ground (arith, h))
      read_as (ok t) same h =
          let dumped : dumps t ≡ text = ground (arith, h) in
          (t, dumped, ap loads (sym dumped) ∙ loaded t same)

module _ {C : Type 0} ⦃ec : Eq C⦄ (slice_items : ResponseItems → String)
    (dumps : Checkpoints → String) (loads : String → Result Checkpoints) where
  -- The checkpoints of every answer can be read again.
  abbrev pub CanBeLoaded : (C → QueryResult Answer) → Type 0
  CanBeLoaded query =
      (c : C) (a : Answer) (t : Checkpoints)
      → query c ≡ response a
      → read_checkpoints slice_items a ≡ ok t
      → loads (dumps t) ≡ ok t

  answered-AllValues :
      (query : C → QueryResult Answer)
      → CanBeLoaded query
      → (cs : List C)
      → AllValues (IsRead dumps loads) (answered (get_checkpoints slice_items dumps) query cs)
  unfolding answered AllValues
  answered-AllValues query loaded [] = tt
  answered-AllValues query loaded (c ∷ cs) =
      added (query c) refl (answered-AllValues query loaded cs)
    where
      Added : QueryResult Answer → Type 0
      Added q = AllValues (IsRead dumps loads) (
          if_answered (get_checkpoints slice_items dumps) query c q
            (answered (get_checkpoints slice_items dumps) query cs))

      AddedValue : Option String → Type 0
      AddedValue o = AllValues (IsRead dumps loads) (elim o as (λ _. Dict C String) [
        | none ↦ answered (get_checkpoints slice_items dumps) query cs
        | some text ↦ (c, text) ∷ answered (get_checkpoints slice_items dumps) query cs
      ])

      parsed :
          (a : Answer) (o : Option String)
          → get_checkpoints slice_items dumps a ≡ o
          → ((t : Checkpoints) → read_checkpoints slice_items a ≡ ok t → loads (dumps t) ≡ ok t)
          → AllValues (IsRead dumps loads) (answered (get_checkpoints slice_items dumps) query cs)
          → AddedValue o
      parsed a none e loads_it h = h
      parsed a (some text) e loads_it h =
          (parsed-IsRead slice_items dumps loads a text loads_it e, h)

      added :
          (q : QueryResult Answer)
          → query c ≡ q
          → AllValues (IsRead dumps loads) (answered (get_checkpoints slice_items dumps) query cs)
          → Added q
      added (response a) e h =
          parsed a (get_checkpoints slice_items dumps a) refl (λ t. loaded c a t e) h
      added read_timeout e h = h
      added connection_error e h = h
      added other_exception e h = h

module _ {C : Type 0} ⦃ec : Eq C⦄ (slice_items : ResponseItems → String)
    (dumps : Checkpoints → String) (loads : String → Result Checkpoints) (fields : Fields C) where
  -- The report of an attempt, of groups that are listed.
  abbrev pub IsReport : (C → QueryResult Answer) → List C → CheckpointsReport → Type 0
  IsReport query cs r =
      let parse = get_checkpoints slice_items dumps in
      ((groups : Dict String (List C)) × AreGroups parse query cs groups
        × AreListed dumps fields groups r.finalization_data)
      × (r.unreachable_connection_error
          ≡ map (failed_client fields) (with_heading parse query is_unreachable cs))
      × (r.invalid_response ≡ map (failed_client fields) (with_heading parse query is_invalid cs))
      × (r.unreachable_unknown_reason
          ≡ map (failed_consensus_client fields) (with_heading parse query is_unknown cs))
      × (r.timeout ≡ map (failed_consensus_client fields) (with_heading parse query is_late cs))

  -- A list of the report, as a list of the five groups of the attempt.
  described-seen :
      {D : Type 0} (describe : C → D) (group : Monitor C String → List C)
      (query : C → QueryResult Answer) (c : C) (cs : List C)
      → AreDistinct (c ∷ cs)
      → let parse = get_checkpoints slice_items dumps in
        described describe (group (seen parse (λ _. query) c cs 0))
        ≡ map describe (
            group (record {
              results = answered parse query (c ∷ cs);
              timeout_clients = timed_out parse query (c ∷ cs);
              unreachable_clients_connection_error = refused parse query (c ∷ cs);
              unreachable_clients_unknown_reason = failed parse query (c ∷ cs);
              invalid_response_clients = unparsed parse query (c ∷ cs);
            }))
  described-seen describe group query c cs u =
      ap (λ m. described describe (group m))
        (seen-groups (get_checkpoints slice_items dumps) query c cs u)
      ∙ described_lem describe _

  -- Where the clients are distinct, an attempt is allowed and the checkpoints of every answer can be
  -- loaded as they were dumped, a run of the monitor of checkpoints returns the report of one of its
  -- attempts, which passes the test or is the last. The report lists each value of the three
  -- checkpoints that was read once, with the names of the clients that gave it in their order, and the
  -- clients of each kind of failure in their order.
  pub run_checkpoints-IsReport :
      (query : ℕ → C → QueryResult Answer) (c : C) (cs : List C) (left : ℕ) (m : Monitor C String)
      → AreDistinct (c ∷ cs)
      → ((i : ℕ) → CanBeLoaded slice_items dumps loads (query i))
      → (k : ℕ) × (r : CheckpointsReport) × (run_checkpoints slice_items dumps loads fields query
            (c ∷ cs)
            (suc left)
            m
          ≡ ok r)
        × EndsAt (get_checkpoints slice_items dumps) query c cs reached_consensus left 0 k
        × IsReport (query k) (c ∷ cs) r
  unfolding run_checkpoints collect_consensus report_checkpoints order_results_by_consensus
  run_checkpoints-IsReport query c cs left m u loaded =
      let parse = get_checkpoints slice_items dumps in
      let (k, same, end) = collect-from_start parse query c cs reached_consensus left m in
      let groups = group_results (answered parse (query k) (c ∷ cs)) [] in
      let same_groups : group_results (seen parse query c cs k).results [] ≡ groups =
        ap (λ m'. group_results m'.results []) (seen-groups parse (query k) c cs u) in
      let (ds, made, listed) = finalization_data_of-AreListed dumps fields loads groups (
        group_results-All (IsRead dumps loads) (answered parse (query k) (c ∷ cs)) []
          (answered-AllValues slice_items dumps loads (query k) (loaded k) (c ∷ cs)) tt) in
      let m' = seen parse query c cs k in
      let groups_made : finalization_data_of fields loads (group_results m'.results []) ≡ ok ds =
        ap (finalization_data_of fields loads) same_groups ∙ made in
      (
        k,
        record {
          finalization_data = ds;
          unreachable_connection_error =
              described (failed_client fields) m'.unreachable_clients_connection_error;
          invalid_response = described (failed_client fields) m'.invalid_response_clients;
          unreachable_unknown_reason =
              described (failed_consensus_client fields) m'.unreachable_clients_unknown_reason;
          timeout = described (failed_consensus_client fields) m'.timeout_clients;
        },
        rw (same, groups_made) refl,
        end,
        (
          (groups, answered-AreGroups parse (query k) (c ∷ cs), listed),
          described-seen (failed_client fields) (λ m. m.unreachable_clients_connection_error)
                (query k) c cs u
              ∙ ap (map (failed_client fields)) (refused-with_heading parse (query k) (c ∷ cs)),
          described-seen (failed_client fields) (λ m. m.invalid_response_clients) (query k) c cs u
              ∙ ap (map (failed_client fields)) (unparsed-with_heading parse (query k) (c ∷ cs)),
          described-seen (failed_consensus_client fields)
                (λ m. m.unreachable_clients_unknown_reason) (query k) c cs u
              ∙ ap (map (failed_consensus_client fields))
                  (failed-with_heading parse (query k) (c ∷ cs)),
          described-seen (failed_consensus_client fields) (λ m. m.timeout_clients) (query k) c cs u
              ∙ ap (map (failed_consensus_client fields))
                  (timed_out-with_heading parse (query k) (c ∷ cs)),
        ),
      )
