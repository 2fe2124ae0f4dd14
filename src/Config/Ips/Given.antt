-- ===== src/Config/Ips/Given.antt =====
-- The addresses that are given out (src/etb/config/etb_config.py).
use ethereum_testnet_bootstr.Base.{
  ℕ, zero, suc, ◌+◌, ◌≤◌, ◌<◌, ◌≡◌, ◌⊎◌, inl, inr, refl, String, Bool, true, false, some, List, [],
  ◌∷◌, length, ◌==◌, nat_eq, arith, leb, ltb, ◌&&◌, ◌||◌, if◌then◌else◌, Bool-cases,
}
use ethereum_testnet_bootstr.Base.Dict.{lookup, has_key, insert, lookup-insert}
use ethereum_testnet_bootstr.Config.Ips.{
  Reserved, IpState, next_free, get_next_available_ip_suffix, reserve_range, give_suffix,
}

-- How many entries have a suffix of at least `c`.
abbrev above : ℕ → Reserved → ℕ
above c [] = 0
above c ((k, _) ∷ d) = let rest = above c d in if leb c k then suc rest else rest

above-le-length : (c : ℕ) (d : Reserved) → above c d ≤ length d
above-le-length c [] = omega arith
above-le-length c ((k, _) ∷ d) = ground (arith, above-le-length c d)

above_mono : (c : ℕ) (d : Reserved) → above (c + 1) d ≤ above c d
above_mono c [] = omega arith
above_mono c ((k, _) ∷ d) = ground (arith, above_mono c d)

above-lt : (c : ℕ) (d : Reserved) → has_key c d ≡ true → above (c + 1) d < above c d
above-lt c [] h = cc
above-lt c ((k, _) ∷ d) h = ground (arith, above-lt c d, above_mono c d)

-- What the loop returns: the first suffix from `c` on that is not reserved.
pub record IsNextFree (c : ℕ) (d : Reserved) (r : ℕ) : Type 0 where
  pub from_here : c ≤ r
  pub free : has_key r d ≡ false
  pub first : (i : ℕ) → c ≤ i → i < r → has_key i d ≡ true

next_free-IsNextFree :
    (fuel c : ℕ) (d : Reserved) → above c d ≤ fuel → IsNextFree c d (next_free fuel c d)
unfolding next_free
next_free-IsNextFree zero c d h = elim (Bool-cases (has_key c d)) [
  | inl taken ↦ absurd (omega (arith, above-lt c d taken))
  | inr open_here ↦ record {
    from_here = omega arith;
    free = open_here;
    first = λ i p q. absurd (omega arith);
  }
]
next_free-IsNextFree (suc fuel) c d h = elim (Bool-cases (has_key c d)) [
  | inr open_here ↦
      rw open_here (record {
        from_here = omega arith;
        free = open_here;
        first = λ i p q. absurd (omega arith);
      })
  | inl taken ↦
      let ih = next_free-IsNextFree fuel (c + 1) d (omega (arith, above-lt c d taken)) in
      rw taken (record {
        from_here = omega (arith, ih.from_here);
        free = ih.free;
        first = λ i p q. elim (Bool-cases (i == c)) [
          | inl here ↦ rw (same i c here) taken
          | inr later ↦ ih.first i (ground arith) q
        ];
      })
]
  where
    same : (i c : ℕ) → (i == c) ≡ true → i ≡ c
    same i c e = ground arith

-- The suffix that is handed out is the first free one from the counter on. It is then reserved for
-- the client, all others are as before, and the counter stands behind it.
pub get_next_available_ip_suffix-IsNextFree :
    (name : String) (s : IpState)
    → let (suffix, s') = get_next_available_ip_suffix name s in
      IsNextFree s.curr_ip s.reserved_ips suffix
      × ((k : ℕ)
          → lookup k s'.reserved_ips ≡ (if k == suffix then some name else lookup k s.reserved_ips))
      × (s'.curr_ip ≡ suffix + 1)
unfolding get_next_available_ip_suffix
get_next_available_ip_suffix-IsNextFree name s = (
  next_free-IsNextFree (length s.reserved_ips) s.curr_ip s.reserved_ips
      (above-le-length s.curr_ip s.reserved_ips),
  λ k. lookup-insert k _ name s.reserved_ips,
  refl,
)

lookup-reserve_range :
    (n : ℕ) (name : String) (a j : ℕ) (d : Reserved)
    → lookup j (reserve_range n name a d)
      ≡ (if leb a j && ltb j (a + n) then some name else lookup j d)
unfolding reserve_range
lookup-reserve_range zero name a j d = ground arith
lookup-reserve_range (suc n) name a j d =
    ground
      (arith, lookup-reserve_range n name (a + 1) j (insert a name d), lookup-insert j a name d)

-- Giving a block: it begins at a free address, all of its addresses are then recorded for the
-- instance, also those that another had reserved, and every other record is as before.
pub give_suffix_lem :
    (name : String) (n : ℕ) (s : IpState)
    → let (suffix, s') = give_suffix name n s in
      IsNextFree s.curr_ip s.reserved_ips suffix
      × ((k : ℕ)
          → lookup k s'.reserved_ips ≡ (
              if k == suffix || (leb suffix k && ltb k (suffix + n))
              then some name
              else lookup k s.reserved_ips))
      × (s'.curr_ip ≡ suffix + 1)
unfolding give_suffix
give_suffix_lem name n s =
    let (suffix, s') = get_next_available_ip_suffix name s in
    let (found, changed, moved) = get_next_available_ip_suffix-IsNextFree name s in
    (
      found,
      λ k. ground (arith, lookup-reserve_range n name suffix k s'.reserved_ips, changed k),
      moved,
    )

-- The blocks that a series of instances with no address is given, as first suffix and size.
abbrev pub give_blocks : List (String × ℕ) → IpState → List (ℕ × ℕ)
give_blocks [] s = []
give_blocks ((name, n) ∷ ns) s =
    let (suffix, s') = give_suffix name n s in (suffix, n) ∷ give_blocks ns s'

-- Each block begins at an address that is not reserved, and behind the block before it.
abbrev pub AreApart : ℕ → Reserved → List (ℕ × ℕ) → Type 0
AreApart low d [] = Unit
AreApart low d ((a, n) ∷ bs) = (low ≤ a) × (has_key a d ≡ false) × AreApart (a + n) d bs

-- `d` is still reserved, and so is all that lies between the counter and `low`.
record IsAhead (low : ℕ) (d : Reserved) (s : IpState) : Type 0 where
  kept : (k : ℕ) → has_key k s.reserved_ips ≡ false → has_key k d ≡ false
  full : (k : ℕ) → s.curr_ip ≤ k → k < low → has_key k s.reserved_ips ≡ true

give_suffix-IsAhead :
    (name : String) (n low : ℕ) (d : Reserved) (s : IpState)
    → IsAhead low d s
    → let (suffix, s') = give_suffix name n s in IsAhead (suffix + n) d s'
give_suffix-IsAhead name n low d s h =
    let (suffix, s') = give_suffix name n s in
    let (found, changed, moved) = give_suffix_lem name n s in
    record {
      kept = λ k e. h.kept k (ground (arith, changed k));
      full = λ k p q. ground (arith, changed k);
    }

give_blocks-AreApart_from :
    (ns : List (String × ℕ)) (low : ℕ) (d : Reserved) (s : IpState)
    → IsAhead low d s
    → AreApart low d (give_blocks ns s)
give_blocks-AreApart_from [] low d s h = tt
give_blocks-AreApart_from ((name, n) ∷ ns) low d s h =
    let (suffix, s') = give_suffix name n s in
    let (found, _, _) = give_suffix_lem name n s in
    (
      behind (give_suffix_lem name n s).0 (Bool-cases (leb low suffix)),
      h.kept suffix found.free,
      give_blocks-AreApart_from ns (suffix + n) d s' (give_suffix-IsAhead name n low d s h),
    )
  where
    behind :
        {r : ℕ}
        → IsNextFree s.curr_ip s.reserved_ips r
        → (leb low r ≡ true) ⊎ (leb low r ≡ false)
        → low ≤ r
    behind f (inl e) = ground arith
    behind {r} f (inr e) = absurd (contradiction (h.full r f.from_here (ground arith)) f.free)
      where
        contradiction : {b : Bool} → b ≡ true → b ≡ false → ⊥
        contradiction p q = cc

-- Whatever was reserved at first, the blocks that are given out one after another do not overlap
-- each other, and none begins on an address that was reserved.
pub give_blocks-AreApart :
    (ns : List (String × ℕ)) (s : IpState) → AreApart s.curr_ip s.reserved_ips (give_blocks ns s)
give_blocks-AreApart ns s =
    give_blocks-AreApart_from ns s.curr_ip s.reserved_ips s
      (record { kept = λ k e. e; full = λ k p q. absurd (omega arith) })
