-- ===== src/Monitoring/Peering.antt =====
-- `ConsensusLayerPeersMonitor`, `ConsensusLayerIdentityMonitor` and `ConsensusLayerPeeringSummary` of
-- src/etb/monitoring/monitors/consensus_monitors.py.
pub mod Summary
pub mod Runs
use ethereum_testnet_bootstr.Base.{
  ℕ, String, Bool, ◌&&◌, Option, none, some, List, [], ◌∷◌, ◌++◌, Result, ok, Eq, ◌>>=◌, ◌==◌,
  string_eq, if◌then◌else◌,
}
use ethereum_testnet_bootstr.Base.Dict.{Dict, lookup, has_key, insert}
use ethereum_testnet_bootstr.Monitoring.Metrics.{QueryResult, cleared, collect_metrics}

pub record PeeredClient : Type 0 where
  pub peer_id : String
  pub state : String
  pub direction : String

abbrev pub PeerSummary : Type 0
PeerSummary = Dict String PeeredClient

-- The loop over the peers of a response.
unfoldable pub summarize_peers : List PeeredClient → PeerSummary → PeerSummary
summarize_peers [] peers_summary = peers_summary
summarize_peers (peer ∷ peers) peers_summary =
    summarize_peers peers (insert peer.peer_id peer peers_summary)

-- `_get_client_peers`, of the peers that are read from the response, if they can be.
unfoldable pub get_client_peers : Option (List PeeredClient) → Option PeerSummary
get_client_peers none = none
get_client_peers (some peers) = some (summarize_peers peers [])

-- The three lines of a client.
pub record PeeringLines : Type 0 where
  pub client_name : String
  pub inbound : List String
  pub outbound : List String

module _ {C : Type 0} ⦃ec : Eq C⦄ (name : C → String) where
  -- `peer_id_client_map`. The map in the other direction is never read.
  unfoldable pub peer_id_client_map : Dict C String → Dict String C → Dict String C
  peer_id_client_map [] known = known
  peer_id_client_map ((client, identity) ∷ results) known =
      peer_id_client_map results (insert identity client known)

  unfoldable pub peered_client_name : Dict String C → String → String
  peered_client_name known peer_id = elim (lookup peer_id known) [
    | some client ↦ name client
    | none ↦ peer_id
  ]

  -- `if client not in peer_map: peer_map[client] = []`
  unfoldable pub ensure : C → Dict C (List String) → Dict C (List String)
  ensure client peer_map = if has_key client peer_map then peer_map else insert client [] peer_map

  -- `peer_map[client].append(x)`, of a client that the map has.
  unfoldable pub push : C → String → Dict C (List String) → Dict C (List String)
  push client x [] = []
  push client x ((c, xs) ∷ peer_map) =
      let rest = push client x peer_map in
      if client == c then (c, xs ++ (x ∷ [])) ∷ peer_map else (c, xs) ∷ rest

  abbrev pub PeerMaps : Type 0
  PeerMaps = Dict C (List String) × Dict C (List String)

  -- The loop over the peers of a client, with the inbound and the outbound map.
  unfoldable pub sort_peers : Dict String C → C → PeerSummary → PeerMaps → PeerMaps
  sort_peers known client [] maps = maps
  sort_peers known client ((_, peer) ∷ peers) (inbound, outbound) =
      let x = peered_client_name known peer.peer_id in
      sort_peers known client peers (
        if peer.direction == "inbound"
        then (push client x inbound, outbound)
        else if peer.direction == "outbound"
        then (inbound, push client x outbound)
        else (inbound, outbound))

  -- The loop over the results of the peers' monitor.
  unfoldable pub sort_all_peers : Dict String C → Dict C PeerSummary → PeerMaps → PeerMaps
  sort_all_peers known [] maps = maps
  sort_all_peers known ((client, peers) ∷ results) (inbound, outbound) =
      sort_all_peers known results
        (sort_peers known client peers (ensure client inbound, ensure client outbound))

  -- The loop that writes the summary.
  unfoldable pub peering_lines : List C → PeerMaps → List PeeringLines
  peering_lines [] maps = []
  peering_lines (client ∷ clients) (inbound, outbound) =
      let rest = peering_lines clients (inbound, outbound) in
      elim (lookup client inbound) [
        | none ↦ rest
        | some ins ↦ elim (lookup client outbound) [
          | none ↦ rest
          | some outs ↦ record { client_name = name client; inbound = ins; outbound = outs } ∷ rest
        ]
      ]

  -- `run`, with what the peers and the identity of a client are asked, and what the identity's
  -- parser takes.
  unfoldable pub run_peering_summary :
      {R : Type 0}
      → (R → Option String)
      → (ℕ → C → QueryResult (Option (List PeeredClient)))
      → (ℕ → C → QueryResult R)
      → ℕ
      → List C
      → Result (List PeeringLines)
  run_peering_summary get_peer_id peers_query identity_query max_retries clients_to_monitor = do
    peers ← collect_metrics get_client_peers peers_query clients_to_monitor max_retries cleared
    identities ← collect_metrics get_peer_id identity_query clients_to_monitor max_retries cleared
    let known = peer_id_client_map identities.results []
    ok (peering_lines clients_to_monitor (sort_all_peers known peers.results ([], [])))
