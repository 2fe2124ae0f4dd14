-- ===== src/ForkDetector/Slots.antt =====
-- The slots of the chains in src/fork_detector.py.
use ethereum_testnet_bootstr.Base.{
  ℕ, zero, suc, ◌+◌, ◌-◌, ◌≡◌, refl, String, Bool, false, not, ◌&&◌, Option, none, some, List, [],
  ◌∷◌, range_from, contains, ◌==◌, nat_eq, string_eq, leb, ltb, if◌then◌else◌, arith, Bool-cases,
  ◌∙◌,
}
use ethereum_testnet_bootstr.Base.Dict.{Dict, lookup, insert, lookup-insert}
use ethereum_testnet_bootstr.Base.Text.{str}
use ethereum_testnet_bootstr.ForkDetector.{
  Chain, slots_of, skipped, calculate_slots_skipped_by_all_clients,
}

contains-range_from :
    (n start count : ℕ)
    → contains (range_from start count) n ≡ (leb start n && ltb n (start + count))
contains-range_from n start zero = ground arith
contains-range_from n start (suc count) = ground (arith, contains-range_from n (start + 1) count)

contains-skipped :
    (slots : List String) (nums : List ℕ) (n : ℕ)
    → contains (skipped slots nums) n ≡ (contains nums n && not (contains slots (str n)))
unfolding skipped
contains-skipped slots [] n = refl
contains-skipped slots (num ∷ nums) n =
    ground (arith, contains-skipped slots nums n, Bool-cases (contains slots (str num)))

abbrev or_else : {A : Type 0} → Option A → Option A → Option A
or_else none o = o
or_else (some a) o = some a

-- The chain of a client, the last where the client stands twice.
pub chain_of : {P : Type 0} → String → List (Chain P) → Option (List (P × String))
chain_of client [] = none
chain_of client ((other, links) ∷ chains) =
    or_else (chain_of client chains) (if client == other then some links else none)

-- Whether the client is said to have skipped the slot.
abbrev pub is_skipped : Dict String (List ℕ) → String → ℕ → Bool
is_skipped result client n = elim (lookup client result) [
  | none ↦ false
  | some nums ↦ contains nums n
]

-- The slot lies below the highest and the chain has no block for it.
abbrev pub is_missed : {P : Type 0} → List (P × String) → ℕ → ℕ → Bool
is_missed links highest n = (leb 1 n && ltb n highest) && not (contains (slots_of links) (str n))

-- The same for a client that may have no chain.
abbrev pub missed_in : {P : Type 0} → Bool → Option (List (P × String)) → ℕ → ℕ → Bool
missed_in otherwise none highest n = otherwise
missed_in otherwise (some links) highest n = is_missed links highest n

missed-skipped :
    {P : Type 0} (links : List (P × String)) (highest n : ℕ)
    → contains (skipped (slots_of links) (range_from 1 (highest - 1))) n ≡ is_missed links highest n
missed-skipped links highest n = ground (
  arith,
  contains-skipped (slots_of links) (range_from 1 (highest - 1)) n,
  contains-range_from n 1 (highest - 1),
)

-- The entry that one chain sets.
skipped-insert :
    {P : Type 0} (links : List (P × String)) (highest : ℕ) (result : Dict String (List ℕ))
    (other client : String) (n : ℕ)
    → is_skipped
        (insert other (skipped (slots_of links) (range_from 1 (highest - 1))) result)
        client
        n
      ≡ (if client == other then is_missed links highest n else is_skipped result client n)
skipped-insert links highest result other client n =
    let nums = skipped (slots_of links) (range_from 1 (highest - 1)) in
    ground (arith, lookup-insert client other nums result, missed-skipped links highest n)

later_counts :
    {P : Type 0} (links : List (P × String)) (highest : ℕ) (result : Dict String (List ℕ))
    (other client : String) (n : ℕ) (o : Option (List (P × String)))
    → missed_in
        (is_skipped
          (insert other (skipped (slots_of links) (range_from 1 (highest - 1))) result)
          client
          n)
        o
        highest
        n
      ≡ missed_in
          (is_skipped result client n)
          (or_else o (if client == other then some links else none))
          highest
          n
later_counts links highest result other client n none =
    skipped-insert links highest result other client n ∙ ground arith
later_counts links highest result other client n (some later) = refl

skipped_onto :
    {P : Type 0} (chains : List (Chain P)) (highest : ℕ) (result : Dict String (List ℕ))
    (client : String) (n : ℕ)
    → is_skipped (calculate_slots_skipped_by_all_clients chains highest result) client n
      ≡ missed_in (is_skipped result client n) (chain_of client chains) highest n
unfolding calculate_slots_skipped_by_all_clients chain_of
skipped_onto [] highest result client n = refl
skipped_onto ((other, links) ∷ chains) highest result client n =
    let nums = skipped (slots_of links) (range_from 1 (highest - 1)) in
    skipped_onto chains highest (insert other nums result) client n
    ∙ later_counts links highest result other client n (chain_of client chains)

-- A slot is among those that a client is said to have skipped exactly when it is at least 1 and below
-- the highest slot, and the client's chain has no block for it; of a client that stands twice in the
-- list, the later chain counts.
pub calculate_slots_skipped-is_missed :
    {P : Type 0} (chains : List (Chain P)) (highest : ℕ) (client : String) (n : ℕ)
    → is_skipped (calculate_slots_skipped_by_all_clients chains highest []) client n
      ≡ missed_in false (chain_of client chains) highest n
calculate_slots_skipped-is_missed chains highest client n = skipped_onto chains highest [] client n
