-- ===== src/Config/Ips/Used.antt =====
-- The addresses that `_find_used_ip_addresses` of src/etb/config/etb_config.py collects.
use ethereum_testnet_bootstr.Base.{
  ℕ, zero, suc, ◌+◌, ◌≡◌, ◌≢◌, inl, inr, refl, ◌∙◌, String, ◌<>◌, Option, none, some, List, [], ◌∷◌,
  ◌++◌, range_from, Result, ok, err, Error, ◌>>=◌, or_raise, nat_eq, string_eq, arith, Option-cases,
  >>=-eq-ok,
}
use ethereum_testnet_bootstr.Base.Dict.{
  keys, lookup, insert, NodupKeys, insert-NodupKeys, has_key-contains,
}
use ethereum_testnet_bootstr.Base.Distinct.{
  AreDistinct, AreDistinct-prefix, AreDistinct-middle, insert-absent, keys-append,
  NodupKeys-AreDistinct, lookup-eq-none,
}
use ethereum_testnet_bootstr.Base.Text.{str}
use ethereum_testnet_bootstr.Config.Ips.{
  InstanceEntry, Instances, Reserved, num_nodes_of, ip_suffix, use_range, use_entry, use_instances,
  YamlInstances, find_used_ip_addresses,
}
use mathlib.Core.List.{append-nil, append_assoc}

-- The suffixes that an entry asks for, whatever the others do.
abbrev pub wanted_entry : InstanceEntry → Result (List ℕ)
wanted_entry e = elim e.start_ip_address [
  | none ↦ ok []
  | some address ↦ ip_suffix address >>= λ start. ok (range_from start (num_nodes_of e))
]

abbrev pub wanted : Instances → Result (List ℕ)
wanted [] = ok []
wanted ((_, e) ∷ es) = wanted_entry e >>= λ xs. wanted es >>= λ ys. ok (xs ++ ys)

keys-insert :
    (k : ℕ) (v : String) (d : Reserved)
    → lookup k d ≡ none
    → keys (insert k v d) ≡ keys d ++ (k ∷ [])
keys-insert k v d h =
    rw (insert-absent k v d (ground (arith, has_key-contains k d))) (keys-append d ((k, v) ∷ []))

-- What one range adds: all its suffixes, none of which was taken.
use_range-keys :
    (n : ℕ) (name : String) (ndx curr : ℕ) (used : Reserved) {d : Reserved}
    → NodupKeys used
    → use_range n name ndx curr used ≡ ok d
    → (keys d ≡ keys used ++ range_from curr n) × NodupKeys d
unfolding use_range
use_range-keys zero name ndx curr used u h = ground (arith, append-nil (keys used))
use_range-keys (suc n) name ndx curr used {d} u h = elim (Option-cases (lookup curr used)) [
  | inr (other, taken) ↦ ground arith
  | inl free ↦
      let d' = insert curr (name <> str ndx) used in
      let rest : use_range n name (ndx + 1) (curr + 1) d' ≡ ok d = ground arith in
      let (all, distinct) =
        use_range-keys n name (ndx + 1) (curr + 1) d'
          (insert-NodupKeys curr (name <> str ndx) used u) rest in
      (
        all
            ∙ rw (keys-insert curr (name <> str ndx) used free)
                (append_assoc (keys used) (curr ∷ []) (range_from (curr + 1) n)),
        distinct,
      )
]

-- The same for one entry, and for a mapping of entries.
use_entry-keys :
    (name : String) (e : InstanceEntry) (used : Reserved) {d : Reserved}
    → NodupKeys used
    → use_entry name e used ≡ ok d
    → (xs : List ℕ) × (wanted_entry e ≡ ok xs) × (keys d ≡ keys used ++ xs) × NodupKeys d
unfolding use_entry
use_entry-keys name e used {d} u h = elim (Option-cases e.start_ip_address) [
  | inl unplaced ↦ ([], ground arith, ground (arith, append-nil (keys used)), ground arith)
  | inr (address, placed) ↦
      let chain : (ip_suffix address >>= λ (start : ℕ).
      use_range (num_nodes_of e) name 0 start used)
          ≡ ok d =
        ground arith in
      let (start, parsed, ranged) = >>=-eq-ok (ip_suffix address) _ chain in
      let (all, distinct) = use_range-keys (num_nodes_of e) name 0 start used u ranged in
      (range_from start (num_nodes_of e), ground arith, all, distinct)
]

use_instances-keys :
    (es : Instances) (used : Reserved) {d : Reserved}
    → NodupKeys used
    → use_instances es used ≡ ok d
    → (xs : List ℕ) × (wanted es ≡ ok xs) × (keys d ≡ keys used ++ xs) × NodupKeys d
unfolding use_instances
use_instances-keys [] used u h = ([], refl, ground (arith, append-nil (keys used)), ground arith)
use_instances-keys ((name, e) ∷ es) used u h =
    let (used', first, rest) = >>=-eq-ok (use_entry name e used) _ h in
    let (xs, wants, xs_all, u') = use_entry-keys name e used u first in
    let (ys, wants', ys_all, u'') = use_instances-keys es used' u' rest in
    (xs ++ ys, rw (wants, wants'), ys_all ∙ rw xs_all (append_assoc (keys used) xs ys), u'')

-- A range that meets nothing is added.
use_range-total :
    (n : ℕ) (name : String) (ndx curr : ℕ) (used : Reserved)
    → AreDistinct (keys used ++ range_from curr n)
    → (d : Reserved) × (use_range n name ndx curr used ≡ ok d)
unfolding use_range
use_range-total zero name ndx curr used h = (used, refl)
use_range-total (suc n) name ndx curr used h =
    let free : lookup curr used ≡ none =
      lookup-eq-none curr used (AreDistinct-middle (keys used) curr (range_from (curr + 1) n) h) in
    let d' = insert curr (name <> str ndx) used in
    let (d, e) = use_range-total n name (ndx + 1) (curr + 1) d' (
      rw
        (
          keys-insert curr (name <> str ndx) used free,
          append_assoc (keys used) (curr ∷ []) (range_from (curr + 1) n),
        )
        h) in
    (d, ground arith)

use_entry-total :
    (name : String) (e : InstanceEntry) (used : Reserved) {xs : List ℕ}
    → wanted_entry e ≡ ok xs
    → AreDistinct (keys used ++ xs)
    → (d : Reserved) × (use_entry name e used ≡ ok d)
unfolding use_entry
use_entry-total name e used {xs} w h = elim (Option-cases e.start_ip_address) [
  | inl unplaced ↦ (used, ground arith)
  | inr (address, placed) ↦
      let chain : (ip_suffix address >>= λ (start : ℕ). ok (range_from start (num_nodes_of e)))
          ≡ ok xs =
        ground arith in
      let (start, parsed, ranged) = >>=-eq-ok (ip_suffix address) _ chain in
      let same : range_from start (num_nodes_of e) ≡ xs = ground arith in
      let (d, ok_range) = use_range-total (num_nodes_of e) name 0 start used (rw same h) in
      (d, ground arith)
]

use_instances-total :
    (es : Instances) (used : Reserved) {xs : List ℕ}
    → NodupKeys used
    → wanted es ≡ ok xs
    → AreDistinct (keys used ++ xs)
    → (d : Reserved) × (use_instances es used ≡ ok d)
unfolding use_instances
use_instances-total [] used u w h = (used, refl)
use_instances-total ((name, e) ∷ es) used {xs} u w h =
    let (xs1, w1, w') = >>=-eq-ok (wanted_entry e) _ w in
    let (xs2, w2, w'') = >>=-eq-ok (wanted es) _ w' in
    let joined : xs ≡ xs1 ++ xs2 = ground arith in
    let all : AreDistinct ((keys used ++ xs1) ++ xs2) =
      rw (append_assoc (keys used) xs1 xs2, ← joined) h in
    let (d', first) =
      use_entry-total name e used w1 (AreDistinct-prefix (keys used ++ xs1) xs2 all) in
    let (ys, wy, keys_d', u') = use_entry-keys name e used u first in
    let same : ys ≡ xs1 = ground arith in
    let (d, rest) = use_instances-total es d' u' w2 (rw (keys_d', same) all) in
    (d, rw (first, rest))

-- The suffixes that the two sections ask for, generic instances first.
abbrev pub wanted_sections : YamlInstances → Result (List ℕ)
wanted_sections c = do
  generic ← (elim c.generic_instances [ none ↦ ok [] | some es ↦ wanted es ])
  clients ← or_raise c.client_instances (Error.key_error "client-instances")
  client ← wanted clients
  ok (generic ++ client)

scanned :
    (g cl : Option Instances) {d : Reserved}
    → let c : YamlInstances = record { generic_instances = g; client_instances = cl } in
      find_used_ip_addresses c ≡ ok d → (wanted_sections c ≡ ok (keys d)) × AreDistinct (keys d)
unfolding find_used_ip_addresses
scanned g none h = absurd (ground arith)
scanned none (some clients) {d} h =
    let (xs, w, all, u) = use_instances-keys clients [] {d = d} tt h in
    (rw (w, all), NodupKeys-AreDistinct d u)
scanned (some es) (some clients) {d} h =
    let (used, first, rest) = >>=-eq-ok (use_instances es []) _ h in
    let (xs, w, all, u) = use_instances-keys es [] tt first in
    let (ys, w', all', u') = use_instances-keys clients used u rest in
    (rw (w, w', all', all), NodupKeys-AreDistinct d u')

scans :
    (g cl : Option Instances) {xs : List ℕ}
    → let c : YamlInstances = record { generic_instances = g; client_instances = cl } in
      wanted_sections c ≡ ok xs
      → AreDistinct xs
      → (d : Reserved) × (find_used_ip_addresses c ≡ ok d)
unfolding find_used_ip_addresses
scans none none w h = absurd (ground arith)
scans (some es) none w h = absurd (no_clients (wanted es) w)
  where
    no_clients :
        (m : Result (List ℕ)) {xs : List ℕ}
        → (m >>= λ _. err (Error.key_error "client-instances")) ≢ ok xs
    no_clients (ok a) e = cc
    no_clients (err a) e = cc
scans none (some clients) {xs} w h =
    let (ys, w', e) = >>=-eq-ok (wanted clients) _ w in
    let same : ys ≡ xs = ground arith in use_instances-total clients [] tt w' (rw same h)
scans (some es) (some clients) {xs} w h =
    let (xs1, w1, w') = >>=-eq-ok (wanted es) _ w in
    let (xs2, w2, e) = >>=-eq-ok (wanted clients) _ w' in
    let joined : xs1 ++ xs2 ≡ xs = ground arith in
    let all : AreDistinct (xs1 ++ xs2) = rw joined h in
    let (used, first) = use_instances-total es [] tt w1 (AreDistinct-prefix xs1 xs2 all) in
    let (ys, wy, keys_used, u) = use_instances-keys es [] tt first in
    let same : ys ≡ xs1 = ground arith in
    let (d, rest) = use_instances-total clients used u w2 (rw (keys_used, same) all) in
    (d, rw (first, rest))

-- The scan succeeds exactly when every address can be read and no two instances ask for the same
-- suffix, and it then holds every suffix that is asked for, once.
pub find_used_ip_addresses_iff :
    (c : YamlInstances)
    → ((d : Reserved)
        → find_used_ip_addresses c ≡ ok d
        → (wanted_sections c ≡ ok (keys d)) × AreDistinct (keys d))
      × ((xs : List ℕ)
          → wanted_sections c ≡ ok xs
          → AreDistinct xs
          → (d : Reserved) × (find_used_ip_addresses c ≡ ok d))
find_used_ip_addresses_iff c = (
  λ d h. scanned c.generic_instances c.client_instances h,
  λ xs w h. scans c.generic_instances c.client_instances w h,
)
