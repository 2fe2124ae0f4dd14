-- ===== src/ForkDetector/Hashes.antt =====
-- The numbers that `rehash_parent_hash` of src/fork_detector.py gives to hashes.
use ethereum_testnet_bootstr.Base.{
  ℕ, ◌+◌, ◌<◌, ◌≡◌, refl, String, none, some, List, [], ◌∷◌, Option-cases, inl, inr, string_eq,
  arith,
}
use ethereum_testnet_bootstr.Base.Dict.{Dict, lookup, insert, lookup-insert}
use ethereum_testnet_bootstr.ForkDetector.{
  Chain, Rehash, rehash, rehash_links, rehash_chains, rehash_parent_hash,
}

-- The numbers given so far are below the count, and no two hashes have the same.
pub record IsRehash (s : Rehash) : Type 0 where
  pub below : (h : String) (n : ℕ) → lookup h s.new_hash ≡ some n → n < s.count
  pub distinct :
      (h g : String) (n : ℕ) → lookup h s.new_hash ≡ some n → lookup g s.new_hash ≡ some n → h ≡ g

-- Hashes that have a number keep it.
Keeps : Rehash → Rehash → Type 0
Keeps s s' = (h : String) (n : ℕ) → lookup h s.new_hash ≡ some n → lookup h s'.new_hash ≡ some n

rehash-new :
    (parent : String) (s : Rehash)
    → IsRehash s
    → lookup parent s.new_hash ≡ none
    → IsRehash (record { count = s.count + 1; new_hash = insert parent s.count s.new_hash })
rehash-new parent s i p = record {
  below = λ h n q. ground (arith, lookup-insert h parent s.count s.new_hash, i.below h n, q);
  distinct = λ h g n q r. ground (
    arith,
    lookup-insert h parent s.count s.new_hash,
    lookup-insert g parent s.count s.new_hash,
    i.below h n,
    i.below g n,
    i.distinct h g n,
    q,
    r,
  );
}

rehash_lem :
    (parent : String) (s : Rehash)
    → IsRehash s
    → IsRehash (rehash parent s).1
      × Keeps s (rehash parent s).1
      × (lookup parent (rehash parent s).1.new_hash ≡ some (rehash parent s).0)
unfolding rehash Keeps
rehash_lem parent s i = elim (Option-cases (lookup parent s.new_hash)) [
  | inr (n, p) ↦ (rw (rehash, p) i, λ h m q. rw (rehash, p) q, rw (rehash, p) p)
  | inl p ↦ (
    rw (rehash, p) (rehash-new parent s i p),
    λ h m q. rw (rehash, p) (ground (arith, lookup-insert h parent s.count s.new_hash, p, q)),
    rw (rehash, p) (ground (arith, lookup-insert parent parent s.count s.new_hash)),
  )
]

-- Each parent is replaced by its number in the map, and nothing else is changed.
pub AreRenamed : Dict String ℕ → List (String × String) → List (ℕ × String) → Type 0
AreRenamed d [] [] = Unit
AreRenamed d ((parent, slot) ∷ links) ((n, slot') ∷ links') =
    (lookup parent d ≡ some n) × (slot ≡ slot') × AreRenamed d links links'
AreRenamed d _ _ = ⊥

pub AreRehashed : Dict String ℕ → List (Chain String) → List (Chain ℕ) → Type 0
AreRehashed d [] [] = Unit
AreRehashed d ((client, links) ∷ chains) ((client', links') ∷ chains') =
    (client ≡ client') × AreRenamed d links links' × AreRehashed d chains chains'
AreRehashed d _ _ = ⊥

AreRenamed-Keeps :
    (s s' : Rehash) (links : List (String × String)) (links' : List (ℕ × String))
    → Keeps s s'
    → AreRenamed s.new_hash links links'
    → AreRenamed s'.new_hash links links'
unfolding AreRenamed Keeps
AreRenamed-Keeps s s' [] [] k r = tt
AreRenamed-Keeps s s' ((parent, slot) ∷ links) ((n, slot') ∷ links') k (p, q, r) =
    (k parent n p, q, AreRenamed-Keeps s s' links links' k r)
AreRenamed-Keeps s s' [] (_ ∷ _) k r = r
AreRenamed-Keeps s s' (_ ∷ _) [] k r = r

AreRehashed-Keeps :
    (s s' : Rehash) (chains : List (Chain String)) (chains' : List (Chain ℕ))
    → Keeps s s'
    → AreRehashed s.new_hash chains chains'
    → AreRehashed s'.new_hash chains chains'
unfolding AreRehashed
AreRehashed-Keeps s s' [] [] k r = tt
AreRehashed-Keeps s s' ((c, links) ∷ chains) ((c', links') ∷ chains') k (p, q, r) =
    (p, AreRenamed-Keeps s s' links links' k q, AreRehashed-Keeps s s' chains chains' k r)
AreRehashed-Keeps s s' [] (_ ∷ _) k r = r
AreRehashed-Keeps s s' (_ ∷ _) [] k r = r

rehash_links_lem :
    (links : List (String × String)) (s : Rehash)
    → IsRehash s
    → IsRehash (rehash_links links s).1
      × Keeps s (rehash_links links s).1
      × AreRenamed (rehash_links links s).1.new_hash links (rehash_links links s).0
unfolding rehash_links Keeps AreRenamed
rehash_links_lem [] s i = (i, λ h n p. p, tt)
rehash_links_lem ((parent, slot) ∷ links) s i =
    let (j, keeps, here) = rehash_lem parent s i in
    let (k, keeps', rest) = rehash_links_lem links (rehash parent s).1 j in
    (k, λ h n p. keeps' h n (keeps h n p), (keeps' parent _ here, refl, rest))

rehash_chains_lem :
    (chains : List (Chain String)) (s : Rehash)
    → IsRehash s
    → IsRehash (rehash_chains chains s).1
      × Keeps s (rehash_chains chains s).1
      × AreRehashed (rehash_chains chains s).1.new_hash chains (rehash_chains chains s).0
unfolding rehash_chains Keeps AreRehashed
rehash_chains_lem [] s i = (i, λ h n p. p, tt)
rehash_chains_lem ((client, links) ∷ chains) s i =
    let (j, keeps, here) = rehash_links_lem links s i in
    let (k, keeps', rest) = rehash_chains_lem chains (rehash_links links s).1 j in
    (
      k,
      λ h n p. keeps' h n (keeps h n p),
      (
        refl,
        AreRenamed-Keeps (rehash_links links s).1 (rehash_chains chains (rehash_links links s).1).1
            links _ keeps' here,
        rest,
      ),
    )

-- `rehash_parent_hash` keeps the clients, the slots and the orders, replaces each parent's hash by its
-- number in the map that it returns, and gives no two hashes the same number.
pub rehash_parent_hash-AreRehashed :
    (chains : List (Chain String))
    → AreRehashed (rehash_parent_hash chains).1 chains (rehash_parent_hash chains).0
      × ((h g : String) (n : ℕ)
          → lookup h (rehash_parent_hash chains).1 ≡ some n
          → lookup g (rehash_parent_hash chains).1 ≡ some n
          → h ≡ g)
unfolding rehash_parent_hash
rehash_parent_hash-AreRehashed chains =
    let start : IsRehash (record { count = 1; new_hash = [] }) = record {
      below = λ h n p. ground arith;
      distinct = λ h g n p q. ground arith;
    } in
    let (i, _, all) = rehash_chains_lem chains (record { count = 1; new_hash = [] }) start in
    (all, i.distinct)
