-- ===== src/ForkDetector.antt =====
-- The chains of the clients in src/fork_detector.py: collecting them, the skipped slots, the short
-- names of the hashes and the grouping of clients. A slot and a hash are texts, as the beacon API
-- gives them.
pub mod Hashes
pub mod Slots
pub mod Tree
use ethereum_testnet_bootstr.Base.{
  ℕ, zero, suc, ◌+◌, ◌-◌, String, ◌<>◌, Bool, true, false, not, ◌||◌, ◌&&◌, Option, none, some,
  List, [], ◌∷◌, ◌++◌, map, Result, ok, err, Error, ◌>>=◌, or_raise, range_from, contains, ◌==◌,
  nat_eq, string_eq, ltb, if◌then◌else◌,
}
use ethereum_testnet_bootstr.Base.Dict.{Dict, lookup, insert}
use ethereum_testnet_bootstr.Base.Text.{str, int_of}

-- `[client, data]`
abbrev pub Chain : Type 0 → Type 0
Chain P = String × List (P × String)

abbrev pub zero_root : String
zero_root = "0x0000000000000000000000000000000000000000000000000000000000000000"

-- The loop of `get_all_slots_per_client`, whose counter is its fuel: the parent's root and the slot
-- of a block, or an exception where the block could not be read. An exception empties the chain.
-- The code also stops at a slot that is the number 0, which no text is.
unfoldable pub walk :
    (String → Option (String × String)) → ℕ → String → Option (List (String × String))
walk block_at zero p = some []
walk block_at (suc i) p = elim (block_at p) [
  | none ↦ none
  | some (parent, slot) ↦
      if parent == zero_root then some ((parent, slot) ∷ []) else (elim (walk block_at i parent) [
        | none ↦ none
        | some links ↦ some ((parent, slot) ∷ links)
      ])
]

-- `range(1, int(highest_slot))` without the slots of a chain.
unfoldable pub skipped : List String → List ℕ → List ℕ
skipped slots [] = []
skipped slots (num ∷ nums) =
    let rest = skipped slots nums in if contains slots (str num) then rest else num ∷ rest

abbrev pub slots_of : {P : Type 0} → List (P × String) → List String
slots_of [] = []
slots_of ((_, slot) ∷ data_) = slot ∷ slots_of data_

-- `calculate_slots_skipped_by_all_clients`, for a highest slot that is a number.
unfoldable pub calculate_slots_skipped_by_all_clients :
    {P : Type 0} → List (Chain P) → ℕ → Dict String (List ℕ) → Dict String (List ℕ)
calculate_slots_skipped_by_all_clients [] highest result = result
calculate_slots_skipped_by_all_clients ((client, links) ∷ chains) highest result =
    calculate_slots_skipped_by_all_clients chains highest
      (insert client (skipped (slots_of links) (range_from 1 (highest - 1))) result)

-- The inner loop of `calculate_highest_slot_across_all_chains`.
unfoldable pub highest_of : {P : Type 0} → List (P × String) → ℕ → Result ℕ
highest_of [] highest = ok highest
highest_of ((_, slot) ∷ links) highest = or_raise (int_of slot) (Error.value_error slot) >>= λ n.
    highest_of links (if ltb highest n then n else highest)

-- `calculate_highest_slot_across_all_chains`, with the number of the slot that it keeps.
unfoldable pub calculate_highest_slot_across_all_chains :
    {P : Type 0} → List (Chain P) → ℕ → Result ℕ
calculate_highest_slot_across_all_chains [] highest = ok highest
calculate_highest_slot_across_all_chains ((_, links) ∷ chains) highest =
    highest_of links highest >>= λ highest'.
    calculate_highest_slot_across_all_chains chains highest'

-- The state of `rehash_parent_hash`.
pub record Rehash : Type 0 where
  pub count : ℕ
  pub new_hash : Dict String ℕ

-- The number of a hash: a new one is numbered by the count.
unfoldable pub rehash : String → Rehash → ℕ × Rehash
rehash parent s = elim (lookup parent s.new_hash) [
  | some n ↦ (n, s)
  | none ↦ (s.count, record { count = s.count + 1; new_hash = insert parent s.count s.new_hash })
]

unfoldable pub rehash_links : List (String × String) → Rehash → List (ℕ × String) × Rehash
rehash_links [] s = ([], s)
rehash_links ((parent, slot) ∷ links) s =
    let (n, s') = rehash parent s in
    let (rest, s'') = rehash_links links s' in ((n, slot) ∷ rest, s'')

unfoldable pub rehash_chains : List (Chain String) → Rehash → List (Chain ℕ) × Rehash
rehash_chains [] s = ([], s)
rehash_chains ((client, links) ∷ chains) s =
    let (links', s') = rehash_links links s in
    let (rest, s'') = rehash_chains chains s' in ((client, links') ∷ rest, s'')

-- `rehash_parent_hash`
unfoldable pub rehash_parent_hash : List (Chain String) → List (Chain ℕ) × Dict String ℕ
rehash_parent_hash chains =
    let (chains', s) = rehash_chains chains (record { count = 1; new_hash = [] }) in
    (chains', s.new_hash)

-- The text that `stringify_data` makes of the numbers of a chain, and of its slots.
unfoldable pub parents_str : List (ℕ × String) → String
parents_str [] = " "
parents_str ((parent, _) ∷ links) = " " <> (str parent <> parents_str links)

unfoldable pub slots_str : List (ℕ × String) → String
slots_str [] = " "
slots_str ((_, slot) ∷ links) = " " <> (slot <> slots_str links)

-- `stringify_data`
unfoldable pub stringify_data : List (Chain ℕ) → List (String × String × String)
stringify_data [] = []
stringify_data ((client, links) ∷ chains) =
    (client, parents_str links, slots_str links) ∷ stringify_data chains

-- The argument `mode`.
pub data Mode : Type 0 where
  chain : Mode
  slot : Mode

-- `seen_before`
unfoldable pub seen_before : String → String → Dict String (List String) → Dict String (List String)
seen_before key client seen = elim (lookup key seen) [
  | some clients ↦ insert key (clients ++ (client ∷ [])) seen
  | none ↦ insert key (client ∷ []) seen
]

-- `group_together_clients_with_similar_slots_or_chains`
unfoldable pub group_together :
    Mode → List (String × String × String) → Dict String (List String) → Dict String (List String)
group_together mode [] seen = seen
group_together mode ((client, parents, slots) ∷ rest) seen =
    group_together mode rest
      (seen_before (elim mode [ chain ↦ parents | slot ↦ slots ]) client seen)
