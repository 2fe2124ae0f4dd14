-- ===== src/Monitoring/Peering/Summary.antt =====
-- The maps of peers that `ConsensusLayerPeeringSummary.run` of
-- src/etb/monitoring/monitors/consensus_monitors.py fills.
use mathlib.Core.List.{append-nil, append_assoc}
use ethereum_testnet_bootstr.Base.{
  inl, inr, Bool-cases, ◌≡◌, refl, String, true, false, Option, none, some, List, [], ◌∷◌, ◌++◌, Eq,
  ◌==◌, string_eq, if◌then◌else◌, arith,
}
use ethereum_testnet_bootstr.Base.Dict.{Dict, lookup, insert, lookup-insert, NodupKeys}
use ethereum_testnet_bootstr.Monitoring.Peering.{
  PeerSummary, peer_id_client_map, peered_client_name, ensure, push, sort_peers, sort_all_peers,
}

module _ {C : Type 0} ⦃ec : Eq C⦄ (name : C → String) where
  -- The last client with an identity.
  abbrev pub owner : String → Dict C String → Option C
  owner id [] = none
  owner id ((c, i) ∷ ids) = elim (owner id ids) [
    | some c' ↦ some c'
    | none ↦ if id == i then some c else none
  ]

  abbrev pub or_else : {A : Type 0} → Option A → Option A → Option A
  or_else none y = y
  or_else (some x) y = some x

  owner-peer_id_client_map :
      (id : String) (ids : Dict C String) (known : Dict String C)
      → lookup id (peer_id_client_map name ids known) ≡ or_else (owner id ids) (lookup id known)
  unfolding peer_id_client_map
  owner-peer_id_client_map id [] known = refl
  owner-peer_id_client_map id ((c, i) ∷ ids) known =
      ground (arith, owner-peer_id_client_map id ids (insert i c known), lookup-insert id i c known)

  -- A peer goes by the name of the last client that has its identity, or by its id.
  abbrev pub shown : Dict C String → String → String
  shown ids peer_id = elim (owner peer_id ids) [ some c ↦ name c | none ↦ peer_id ]

  shown-peered_client_name :
      (ids : Dict C String) (peer_id : String)
      → peered_client_name name (peer_id_client_map name ids []) peer_id ≡ shown ids peer_id
  unfolding peered_client_name
  shown-peered_client_name ids peer_id = ground (arith, owner-peer_id_client_map peer_id ids [])

  -- The peers of one direction, in order.
  abbrev pub towards : String → Dict C String → PeerSummary → List String
  towards d ids [] = []
  towards d ids ((_, peer) ∷ peers) =
      let rest = towards d ids peers in
      if peer.direction == d then shown ids peer.peer_id ∷ rest else rest

  lookup-push :
      (j k : C) (x : String) (d : Dict C (List String))
      → lookup j (push name k x d) ≡ (
          if j == k
          then elim (lookup j d) [ none ↦ none | some xs ↦ some (xs ++ (x ∷ [])) ]
          else lookup j d)
  unfolding push
  lookup-push j k x [] = ground arith
  lookup-push j k x ((c, xs) ∷ d) = ground (arith, lookup-push j k x d)

  module _ (ids : Dict C String) where
    abbrev known : Dict String C
    known = peer_id_client_map name ids []

    -- A map in which a client's list has grown.
    abbrev grown : C → C → List String → Dict C (List String) → Option (List String)
    grown j client xs d = if j == client then some xs else lookup j d

    not_both : (d : String) → d == "inbound" ≡ true → d == "outbound" ≡ false
    unfolding string_eq
    not_both d h = let e : d ≡ "inbound" = ground arith in rw e refl

    sort_peers-grown :
        (client : C) (peers : PeerSummary) (i o : Dict C (List String)) (ins outs : List String)
        → lookup client i ≡ some ins
        → lookup client o ≡ some outs
        → (j : C)
        → (lookup j (sort_peers name known client peers (i, o)).0
            ≡ grown j client (ins ++ towards "inbound" ids peers) i)
          × (lookup j (sort_peers name known client peers (i, o)).1
              ≡ grown j client (outs ++ towards "outbound" ids peers) o)
    unfolding sort_peers
    sort_peers-grown client [] i o ins outs p q j =
        (ground (arith, append-nil ins, p), ground (arith, append-nil outs, q))
    sort_peers-grown client ((_, peer) ∷ peers) i o ins outs p q j =
        let x = peered_client_name name known peer.peer_id in
        let same : x ≡ shown ids peer.peer_id = shown-peered_client_name ids peer.peer_id in
        elim (Bool-cases (peer.direction == "inbound")) [
          | inl is_in ↦
              let more =
                sort_peers-grown client peers (push name client x i) o (ins ++ (x ∷ [])) outs
                  (ground (arith, lookup-push client client x i, p)) q j in
              ground (
                arith,
                is_in,
                not_both peer.direction is_in,
                more,
                same,
                lookup-push j client x i,
                append_assoc ins (x ∷ []) (towards "inbound" ids peers),
              )
          | inr not_in ↦ elim (Bool-cases (peer.direction == "outbound")) [
            | inl is_out ↦
                let more =
                  sort_peers-grown client peers i (push name client x o) ins (outs ++ (x ∷ [])) p
                    (ground (arith, lookup-push client client x o, q)) j in
                ground (
                  arith,
                  not_in,
                  is_out,
                  more,
                  same,
                  lookup-push j client x o,
                  append_assoc outs (x ∷ []) (towards "outbound" ids peers),
                )
            | inr not_out ↦
                let more = sort_peers-grown client peers i o ins outs p q j in
                ground (arith, not_in, not_out, more)
          ]
        ]

    -- What the loops leave in both maps for the results of a client.
    abbrev pub left_by : String → Option PeerSummary → Option (List String) → Option (List String)
    left_by d none before = before
    left_by d (some peers) before = some (towards d ids peers)

    lookup-ensure :
        (j c : C) (d : Dict C (List String))
        → lookup c d ≡ none
        → lookup j (ensure name c d) ≡ (if j == c then some [] else lookup j d)
    unfolding ensure
    lookup-ensure j c d h = ground (arith, h, lookup-insert j c [] d)

    pub sort_all_peers-left_by :
        (results : Dict C PeerSummary) (i o : Dict C (List String))
        → NodupKeys results
        → ((j : C) (peers : PeerSummary)
            → lookup j results ≡ some peers
            → (lookup j i ≡ none) × (lookup j o ≡ none))
        → (j : C)
        → (lookup j (sort_all_peers name known results (i, o)).0
            ≡ left_by "inbound" (lookup j results) (lookup j i))
          × (lookup j (sort_all_peers name known results (i, o)).1
              ≡ left_by "outbound" (lookup j results) (lookup j o))
    unfolding sort_all_peers
    sort_all_peers-left_by [] i o u fresh j = (refl, refl)
    sort_all_peers-left_by ((client, peers) ∷ results) i o u fresh j =
        let (no_i, no_o) = fresh client peers (ground arith) in
        let i' = ensure name client i in
        let o' = ensure name client o in
        let sorted =
          sort_peers-grown client peers i' o' [] []
            (ground (arith, lookup-ensure client client i no_i))
            (ground (arith, lookup-ensure client client o no_o)) in
        let after = sort_peers name known client peers (i', o') in
        let more =
          sort_all_peers-left_by results after.0 after.1 u.1
            (λ k ps h.
              let (before_i, before_o) = fresh k ps (ground (arith, u.0, h)) in
              (
                ground (arith, u.0, h, sorted k, lookup-ensure k client i no_i, before_i),
                ground (arith, u.0, h, sorted k, lookup-ensure k client o no_o, before_o),
              ))
            j in
        (
          ground (arith, u.0, more.0, sorted j, lookup-ensure j client i no_i),
          ground (arith, u.0, more.1, sorted j, lookup-ensure j client o no_o),
        )
