-- ===== src/Monitoring/Metrics/Groups.antt =====
-- The five groups of an attempt (src/etb/monitoring/monitors/consensus_monitors.py).
use mathlib.Core.List.{append-nil, append_assoc}
use ethereum_testnet_bootstr.Base.{
  ◌≡◌, refl, ap, ◌∙◌, Option, none, some, List, [], ◌∷◌, ◌++◌, ok, Eq, arith,
}
use ethereum_testnet_bootstr.Base.Dict.{Dict, keys}
use ethereum_testnet_bootstr.Base.Distinct.{
  AreDistinct, AreDistinct-without, AreDistinct-middle, insert-absent, keys-append,
}
use ethereum_testnet_bootstr.Monitoring.Metrics.{
  QueryResult, read_timeout, connection_error, other_exception, response, Monitor, cleared,
  sort_result, submit_all, sort_futures, query_clients_for_metric, attempt,
}

module _ {C R A : Type 0} ⦃ec : Eq C⦄ (parse : R → Option A) (query : C → QueryResult R) where
  -- The five groups, each described by itself: a client comes in front of its group.
  abbrev pub if_answered : C → QueryResult R → Dict C A → Dict C A
  if_answered c (response r) rest = elim (parse r) [ none ↦ rest | some a ↦ (c, a) ∷ rest ]
  if_answered c _ rest = rest

  abbrev if_unparsed : C → QueryResult R → List C → List C
  if_unparsed c (response r) rest = elim (parse r) [ none ↦ c ∷ rest | some a ↦ rest ]
  if_unparsed c _ rest = rest

  unfoldable pub answered : List C → Dict C A
  answered [] = []
  answered (c ∷ cs) = if_answered c (query c) (answered cs)

  unfoldable pub timed_out : List C → List C
  timed_out [] = []
  timed_out (c ∷ cs) =
      let rest = timed_out cs in elim (query c) [ read_timeout ↦ c ∷ rest | _ ↦ rest ]

  unfoldable pub refused : List C → List C
  refused [] = []
  refused (c ∷ cs) =
      let rest = refused cs in elim (query c) [ connection_error ↦ c ∷ rest | _ ↦ rest ]

  unfoldable pub failed : List C → List C
  failed [] = []
  failed (c ∷ cs) = let rest = failed cs in elim (query c) [ other_exception ↦ c ∷ rest | _ ↦ rest ]

  unfoldable pub unparsed : List C → List C
  unparsed [] = []
  unparsed (c ∷ cs) = if_unparsed c (query c) (unparsed cs)

  -- The monitor in which the five groups come behind what was there.
  abbrev grown : List C → Monitor C A → Monitor C A
  grown cs m = record {
    results = m.results ++ answered cs;
    timeout_clients = m.timeout_clients ++ timed_out cs;
    unreachable_clients_connection_error = m.unreachable_clients_connection_error ++ refused cs;
    unreachable_clients_unknown_reason = m.unreachable_clients_unknown_reason ++ failed cs;
    invalid_response_clients = m.invalid_response_clients ++ unparsed cs;
  }

  abbrev futures_of : List C → Dict C (QueryResult R)
  futures_of [] = []
  futures_of (c ∷ cs) = (c, query c) ∷ futures_of cs

  submit_all-futures_of :
      (cs : List C) (futures : Dict C (QueryResult R))
      → AreDistinct (keys futures ++ cs)
      → submit_all parse query cs futures ≡ futures ++ futures_of cs
  unfolding submit_all
  submit_all-futures_of [] futures h = ground (arith, append-nil futures)
  submit_all-futures_of (c ∷ cs) futures h =
      let absent = AreDistinct-middle (keys futures) c cs h in
      rw (insert-absent c (query c) futures absent) (
        submit_all-futures_of cs (futures ++ ((c, query c) ∷ [])) (rw (keys-append, append_assoc) h)
        ∙ append_assoc futures ((c, query c) ∷ []) (futures_of cs))

  module _ (c : C) (cs : List C) (m : Monitor C A) where
    -- One future moves its client from the rest into its group.
    Moved : QueryResult R → Type 0
    Moved q =
        (grown cs (sort_result parse c q m) ≡ record {
          results = m.results ++ if_answered c q (answered cs);
          timeout_clients =
              m.timeout_clients ++ (elim q [ read_timeout ↦ c ∷ timed_out cs | _ ↦ timed_out cs ]);
          unreachable_clients_connection_error =
              m.unreachable_clients_connection_error
              ++ (elim q [ connection_error ↦ c ∷ refused cs | _ ↦ refused cs ]);
          unreachable_clients_unknown_reason =
              m.unreachable_clients_unknown_reason
              ++ (elim q [ other_exception ↦ c ∷ failed cs | _ ↦ failed cs ]);
          invalid_response_clients = m.invalid_response_clients ++ if_unparsed c q (unparsed cs);
        })
        × AreDistinct (keys (sort_result parse c q m).results ++ cs)

    Moved-response :
        (r : R) (o : Option A)
        → parse r ≡ o
        → AreDistinct (keys m.results ++ (c ∷ cs))
        → Moved (response r)
    unfolding Moved sort_result
    Moved-response r none e h = (
      ground (arith, append_assoc m.invalid_response_clients (c ∷ []) (unparsed cs)),
      ground (arith, AreDistinct-without (keys m.results) c cs h),
    )
    Moved-response r (some a) e h =
        let absent = AreDistinct-middle (keys m.results) c cs h in
        (
          ground (
            arith,
            insert-absent c a m.results absent,
            append_assoc m.results ((c, a) ∷ []) (answered cs),
          ),
          ground (
            arith,
            insert-absent c a m.results absent,
            keys-append m.results ((c, a) ∷ []),
            append_assoc (keys m.results) (c ∷ []) cs,
            h,
          ),
        )

    moved : (q : QueryResult R) → AreDistinct (keys m.results ++ (c ∷ cs)) → Moved q
    unfolding Moved sort_result
    moved read_timeout h = (simp append_assoc, AreDistinct-without (keys m.results) c cs h)
    moved connection_error h = (simp append_assoc, AreDistinct-without (keys m.results) c cs h)
    moved other_exception h = (simp append_assoc, AreDistinct-without (keys m.results) c cs h)
    moved (response r) h = Moved-response r (parse r) refl h

  sort_futures-grown :
      (cs : List C) (m : Monitor C A)
      → AreDistinct (keys m.results ++ cs)
      → sort_futures parse (futures_of cs) m ≡ grown cs m
  unfolding sort_futures answered timed_out refused failed unparsed Moved
  sort_futures-grown [] m h = simp append-nil
  sort_futures-grown (c ∷ cs) m h =
      let (same, still) = moved c cs m (query c) h in
      sort_futures-grown cs (sort_result parse c (query c) m) still ∙ same

  -- With distinct clients, an attempt puts each client into the group that its own query decides,
  -- in the clients' order.
  pub attempt-groups :
      (c : C) (cs : List C)
      → AreDistinct (c ∷ cs)
      → attempt parse query (c ∷ cs)
        ≡ ok (record {
          results = answered (c ∷ cs);
          timeout_clients = timed_out (c ∷ cs);
          unreachable_clients_connection_error = refused (c ∷ cs);
          unreachable_clients_unknown_reason = failed (c ∷ cs);
          invalid_response_clients = unparsed (c ∷ cs);
        })
  unfolding query_clients_for_metric
  attempt-groups c cs h =
      rw (submit_all-futures_of (c ∷ cs) [] h) (ap ok (sort_futures-grown (c ∷ cs) cleared h))
