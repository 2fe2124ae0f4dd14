-- ===== src/Base/Text.antt =====
-- Text as Python handles it: `str` and `int` of a number in decimal, `split`, and `f"{n:x}"`.
pub mod Decimal
pub mod Colons
pub mod Leading
use Prim.Native.Char.{Char, code}
use Prim.Native.String
use Prim.Native.Nat.{ℕ, zero, suc, ◌+◌, ◌-◌, ◌*◌, ◌/◌, ◌%◌}
use Prim.Native.String.{String, ◌++◌ as ◌<>◌}
use mathlib.Core.Bool.{Bool, true, false, ◌&&◌, ◌||◌}
use mathlib.Core.Option.{Option, none, some}
use mathlib.Core.List.{List, [], ◌∷◌}
use ethereum_testnet_bootstr.Base.Tests.{leb, if◌then◌else◌}
use ethereum_testnet_bootstr.Base.Equality.{◌==◌, nat_eq}

unfoldable pub digit_char : ℕ → Char
digit_char d =
    if d == 0
    then "0"
    else if d == 1
    then "1"
    else if d == 2
    then "2"
    else if d == 3
    then "3"
    else if d == 4
    then "4"
    else if d == 5
    then "5"
    else if d == 6
    then "6"
    else if d == 7
    then "7"
    else if d == 8
    then "8"
    else "9"

-- The digits of `n`, put in front of a text. There are at most `n + 1` of them.
unfoldable pub digits_onto : ℕ → ℕ → String → String
digits_onto zero n acc = acc
digits_onto (suc fuel) n acc =
    let here = String.◌∷◌ (digit_char (n % 10)) acc in
    let more = digits_onto fuel (n / 10) here in if n / 10 == 0 then here else more

-- `str(n)`
unfoldable pub str : ℕ → String
unfolding digits_onto digit_char
str n = digits_onto (suc n) n ""

abbrev pub is_digit : Char → Bool
is_digit c = leb 48 (code c) && leb (code c) 57

-- The digits that are left, after those that make `acc`.
unfoldable pub int_from : ℕ → String → Option ℕ
int_from acc String.[] = some acc
int_from acc (String.◌∷◌ c s) =
    let rest = int_from (acc * 10 + (code c - 48)) s in if is_digit c then rest else none

-- `int(s)`, which raises a `ValueError` where this gives `none`. Texts with a sign, spaces or
-- underscores, which `int` takes too, are no part of an address.
unfoldable pub int_of : String → Option ℕ
unfolding int_from
int_of String.[] = none
int_of (String.◌∷◌ c s) = int_from 0 (String.◌∷◌ c s)

-- Puts a character in front of the first part.
abbrev pub onto_head : Char → List String → List String
onto_head c [] = String.◌∷◌ c "" ∷ []
onto_head c (w ∷ ws) = String.◌∷◌ c w ∷ ws

-- `s.split(".")`
unfoldable pub split_dots : String → List String
split_dots String.[] = "" ∷ []
split_dots (String.◌∷◌ c s) =
    if code c == b'.' then "" ∷ split_dots s else onto_head c (split_dots s)

-- `parts[-1]` of a list that is not empty.
abbrev pub last_part : List String → String
last_part [] = ""
last_part (w ∷ []) = w
last_part (w ∷ v ∷ ws) = last_part (v ∷ ws)

-- `".".join(parts)`
unfoldable pub join_dots : List String → String
join_dots [] = ""
join_dots (w ∷ []) = w
join_dots (w ∷ v ∷ ws) = w <> ("." <> join_dots (v ∷ ws))

-- `parts[:-1]`
abbrev pub drop_last : List String → List String
drop_last [] = []
drop_last (w ∷ []) = []
drop_last (w ∷ v ∷ ws) = w ∷ drop_last (v ∷ ws)

-- `parts[:3]`
abbrev pub first_three : List String → List String
first_three (a ∷ b ∷ c ∷ ws) = a ∷ b ∷ c ∷ []
first_three ws = ws

-- `s.split(":")`
unfoldable pub split_colons : String → List String
split_colons String.[] = "" ∷ []
split_colons (String.◌∷◌ c s) =
    if code c == b':' then "" ∷ split_colons s else onto_head c (split_colons s)

-- `":" in s`
unfoldable pub has_colon : String → Bool
has_colon String.[] = false
has_colon (String.◌∷◌ c s) = code c == b':' || has_colon s

-- `len(s)`
unfoldable pub text_length : String → ℕ
text_length String.[] = 0
text_length (String.◌∷◌ c s) = suc (text_length s)

-- `s[-n:]`, where `n` is not 0.
unfoldable pub last_chars : ℕ → String → String
last_chars n String.[] = ""
last_chars n (String.◌∷◌ c s) =
    let rest = last_chars n s in
    if leb (text_length (String.◌∷◌ c s)) n then String.◌∷◌ c s else rest
