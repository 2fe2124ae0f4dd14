-- ===== src/Genesis/Files/Values.antt =====
-- JSON as the genesis files of src/etb/genesis/execution_genesis.py use it, and Python's hexadecimal
-- texts.
use Prim.Native.Char.{Char}
use ethereum_testnet_bootstr.Base.{
  ℕ, zero, suc, ◌+◌, ◌-◌, ◌/◌, ◌%◌, String, ◌<>◌, Bool, Option, none, some, [], ◌∷◌, ◌==◌, nat_eq,
  string_eq, ltb, if◌then◌else◌,
}
use ethereum_testnet_bootstr.Base.Dict.{Dict}
use ethereum_testnet_bootstr.Base.Text.{digit_char}

mutual
  pub data Json : Type 0 where
    number : ℕ → Json
    text : String → Json
    flag : Bool → Json
    no_items : Json
    object : Members → Json

  pub data Members : Type 0 where
    no_members : Members
    member : String → Json → Members → Members

-- A dict display, whose keys are distinct.
abbrev pub members : Dict String Json → Members
members [] = no_members
members ((k, v) ∷ d) = member k v (members d)

abbrev pub member_at : String → Members → Option Json
member_at k no_members = none
member_at k (member j v ms) = if k == j then some v else member_at k ms

-- `d[k] = v`
abbrev pub put : String → Json → Members → Members
put k v no_members = member k v no_members
put k v (member j w ms) = if k == j then member j v ms else member j w (put k v ms)

-- `d[k][j] = v`, of a member that is an object.
abbrev pub put_in : String → String → Json → Members → Option Members
put_in k j v ms = elim (member_at k ms) [
  | some (object inner) ↦ some (put k (object (put j v inner)) ms)
  | _ ↦ none
]

-- `d[k]`, of an object.
abbrev pub field : String → Json → Option Json
field k (object ms) = member_at k ms
field k _ = none

unfoldable pub hex_char : ℕ → Char
hex_char d =
    if ltb d 10
    then digit_char d
    else if d == 10
    then "a"
    else if d == 11
    then "b"
    else if d == 12
    then "c"
    else if d == 13
    then "d"
    else if d == 14
    then "e"
    else "f"

-- The hexadecimal digits of `n`, at least `width` of them, in front of a text.
unfoldable pub hex_onto : ℕ → ℕ → ℕ → String → String
hex_onto zero width n acc = acc
hex_onto (suc fuel) width n acc =
    let here = String.◌∷◌ (hex_char (n % 16)) acc in
    let more = hex_onto fuel (width - 1) (n / 16) here in
    if n / 16 == 0 then (if ltb 1 width then more else here) else more

-- The digits alone, of which there are at most `n + width + 1`.
unfoldable pub hex_digits : ℕ → ℕ → String
unfolding hex_onto hex_char digit_char
hex_digits width n = hex_onto (suc (n + width)) width n ""

-- `hex(n)`
abbrev pub hex : ℕ → String
hex n = "0x" <> hex_digits 1 n

-- `f"0x{n:08x}"`
abbrev pub hex8 : ℕ → String
hex8 n = "0x" <> hex_digits 8 n
