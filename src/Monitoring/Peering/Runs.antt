-- ===== src/Monitoring/Peering/Runs.antt =====
-- What a run of `ConsensusLayerPeeringSummary` of
-- src/etb/monitoring/monitors/consensus_monitors.py reports.
use mathlib.Core.Path.{subst}
use ethereum_testnet_bootstr.Base.{
  ℕ, suc, ◌≡◌, refl, sym, ap, String, Option, none, some, List, [], ◌∷◌, ok, Eq, arith,
}
use ethereum_testnet_bootstr.Base.Dict.{Dict, lookup, insert, NodupKeys, insert-NodupKeys}
use ethereum_testnet_bootstr.Monitoring.Metrics.{
  QueryResult, read_timeout, connection_error, other_exception, response, Monitor, cleared,
  sort_result, sort_futures, collect_metrics, is_complete,
}
use ethereum_testnet_bootstr.Monitoring.Metrics.Retries.{seen, EndsAt, collect-from_start}
use ethereum_testnet_bootstr.Monitoring.Peering.{
  PeeredClient, PeerSummary, get_client_peers, PeeringLines, peer_id_client_map, sort_all_peers,
  peering_lines, run_peering_summary,
}
use ethereum_testnet_bootstr.Monitoring.Peering.Summary.{towards, sort_all_peers-left_by}

module _ {C R A : Type 0} ⦃ec : Eq C⦄ (parse : R → Option A) where
  results_with : C → Option A → Dict C A → Dict C A
  results_with c none results = results
  results_with c (some a) results = insert c a results

  sort_response-results :
      (c : C) (r : R) (o : Option A) (m : Monitor C A)
      → parse r ≡ o
      → (sort_result parse c (response r) m).results ≡ results_with c o m.results
  unfolding sort_result results_with
  sort_response-results c r none m e = ground (arith, e)
  sort_response-results c r (some a) m e = ground (arith, e)

  results_with-NodupKeys :
      (c : C) (o : Option A) (results : Dict C A)
      → NodupKeys results
      → NodupKeys (results_with c o results)
  unfolding results_with
  results_with-NodupKeys c none results u = u
  results_with-NodupKeys c (some a) results u = insert-NodupKeys c a results u

  sort_result-NodupKeys :
      (c : C) (q : QueryResult R) (m : Monitor C A)
      → NodupKeys m.results
      → NodupKeys (sort_result parse c q m).results
  unfolding sort_result
  sort_result-NodupKeys c read_timeout m u = u
  sort_result-NodupKeys c connection_error m u = u
  sort_result-NodupKeys c other_exception m u = u
  sort_result-NodupKeys c (response r) m u =
      subst NodupKeys (sym (sort_response-results c r (parse r) m refl))
        (results_with-NodupKeys c (parse r) m.results u)

  sort_futures-NodupKeys :
      (futures : Dict C (QueryResult R)) (m : Monitor C A)
      → NodupKeys m.results
      → NodupKeys (sort_futures parse futures m).results
  unfolding sort_futures
  sort_futures-NodupKeys [] m u = u
  sort_futures-NodupKeys ((c, q) ∷ futures) m u =
      sort_futures-NodupKeys futures (sort_result parse c q m) (sort_result-NodupKeys c q m u)

module _ {C : Type 0} ⦃ec : Eq C⦄ (name : C → String) where
  -- The lines of each client whose peers are known: the peers of both directions, in order.
  abbrev pub summary_of : Dict C PeerSummary → Dict C String → List C → List PeeringLines
  summary_of peers ids [] = []
  summary_of peers ids (c ∷ cs) =
      let rest = summary_of peers ids cs in
      elim (lookup c peers) [
        | none ↦ rest
        | some ps ↦
            record {
              client_name = name c;
              inbound = towards name "inbound" ids ps;
              outbound = towards name "outbound" ids ps;
            }
            ∷ rest
      ]

  peering_lines-summary_of :
      (peers : Dict C PeerSummary) (ids : Dict C String) (clients : List C)
      → NodupKeys peers
      → peering_lines name clients
          (sort_all_peers name (peer_id_client_map name ids []) peers ([], []))
        ≡ summary_of peers ids clients
  unfolding peering_lines
  peering_lines-summary_of peers ids [] u = refl
  peering_lines-summary_of peers ids (c ∷ cs) u =
      let (ins, outs) = sort_all_peers-left_by name ids peers [] [] u (λ k ps h. (refl, refl)) c in
      ground (arith, ins, outs, peering_lines-summary_of peers ids cs u)

  module _ {R : Type 0} (get_peer_id : R → Option String)
      (peers_query : ℕ → C → QueryResult (Option (List PeeredClient)))
      (identity_query : ℕ → C → QueryResult R) (c : C) (cs : List C) where
    -- A run that may make at least one attempt takes the peers of one attempt of the first monitor
    -- and the identities of one of the second. Each is the first attempt in which no client refuses the
    -- connection and every response can be parsed, or else the last that is allowed; timeouts and other
    -- failures do not count. For each client whose peers are known, in the order of the clients, it lists the inbound and the outbound peers,
    -- each by the name of the last client that has the peer's identity, or else by its id.
    pub run_peering_summary-summary_of :
        (left : ℕ)
        → (k : ℕ) × (k' : ℕ) × (run_peering_summary name get_peer_id peers_query identity_query
              (suc left)
              (c ∷ cs)
            ≡ ok (
                summary_of
                  (seen get_client_peers peers_query c cs k).results
                  (seen get_peer_id identity_query c cs k').results
                  (c ∷ cs)))
          × EndsAt get_client_peers peers_query c cs is_complete left 0 k
          × EndsAt get_peer_id identity_query c cs is_complete left 0 k'
    unfolding run_peering_summary collect_metrics
    run_peering_summary-summary_of left =
        let (k, same, end) =
          collect-from_start get_client_peers peers_query c cs is_complete left cleared in
        let (k', same', end') =
          collect-from_start get_peer_id identity_query c cs is_complete left cleared in
        let peers = (seen get_client_peers peers_query c cs k).results in
        let ids = (seen get_peer_id identity_query c cs k').results in
        let distinct = sort_futures-NodupKeys get_client_peers _ cleared tt in
        (
          k,
          k',
          rw (same, same') (ap ok (peering_lines-summary_of peers ids (c ∷ cs) distinct)),
          end,
          end',
        )
