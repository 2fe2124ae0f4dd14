-- ===== src/Base/Text/Leading.antt =====
-- The number that a text begins with, and what follows it.
use Prim.Native.Char.{Char, code}
use Prim.Native.Nat.{ℕ, zero, suc, ◌+◌, ◌-◌, ◌*◌, ◌/◌, ◌%◌, ◌<◌}
use Prim.Native.String.{String, ◌++◌ as ◌<>◌}
use mathlib.Core.Path.{◌≡◌, refl, ap, ◌∙◌}
use mathlib.Core.Logic.{inl, inr}
use mathlib.Core.Bool.{true, false, ◌&&◌}
use native.Mathlib.Omega.{arith}
use text.Mathlib.TextLemmas.{nil-append, cons-append}
use ethereum_testnet_bootstr.Base.Tests.{leb, Bool-cases, if◌then◌else◌}
use ethereum_testnet_bootstr.Base.Equality.{◌==◌, nat_eq}
use ethereum_testnet_bootstr.Base.Text.{digit_char, digits_onto, str, is_digit}
use ethereum_testnet_bootstr.Base.Text.Decimal.{code-digit_char}

unfoldable pub leading : ℕ → String → ℕ
leading acc String.[] = acc
leading acc (String.◌∷◌ c s) =
    let more = leading (acc * 10 + (code c - 48)) s in if is_digit c then more else acc

unfoldable pub behind : String → String
behind String.[] = ""
behind (String.◌∷◌ c s) = let rest = behind s in if is_digit c then rest else String.◌∷◌ c s

leading-digit :
    (a d : ℕ) (s : String)
    → d < 10
    → leading a (String.◌∷◌ (digit_char d) s) ≡ leading (a * 10 + d) s
unfolding leading
leading-digit a d s h = rw (code-digit_char d h) (
    let digit : (leb 48 (48 + d) && leb (48 + d) 57) ≡ true = ground arith in
    let value : a * 10 + (48 + d - 48) ≡ a * 10 + d = omega arith in rw (digit, value))

leading-digits_onto :
    (fuel n : ℕ) (acc : String) → n < fuel → leading 0 (digits_onto fuel n acc) ≡ leading n acc
unfolding digits_onto
leading-digits_onto zero n acc h = absurd (omega arith)
leading-digits_onto (suc fuel) n acc h =
    let step : (a : ℕ)
        → a ≡ n / 10
        → leading a (String.◌∷◌ (digit_char (n % 10)) acc) ≡ leading n acc =
      λ a e. leading-digit a (n % 10) acc (omega arith) ∙ ap (λ m. leading m acc) (omega arith) in
    elim (Bool-cases (n / 10 == 0)) [
      | inl done ↦ rw done (step 0 (ground arith))
      | inr more ↦ rw more (
          leading-digits_onto fuel (n / 10) (String.◌∷◌ (digit_char (n % 10)) acc) (ground arith)
          ∙ step (n / 10) refl)
    ]

behind-digit : (d : ℕ) (s : String) → d < 10 → behind (String.◌∷◌ (digit_char d) s) ≡ behind s
unfolding behind
behind-digit d s h =
    rw (code-digit_char d h)
      (let digit : (leb 48 (48 + d) && leb (48 + d) 57) ≡ true = ground arith in rw digit refl)

behind-digits_onto : (fuel n : ℕ) (acc : String) → behind (digits_onto fuel n acc) ≡ behind acc
unfolding digits_onto
behind-digits_onto zero n acc = refl
behind-digits_onto (suc fuel) n acc =
    let here = behind-digit (n % 10) acc (omega arith) in
    elim (Bool-cases (n / 10 == 0)) [
      | inl done ↦ rw done here
      | inr more ↦
          rw more (behind-digits_onto fuel (n / 10) (String.◌∷◌ (digit_char (n % 10)) acc) ∙ here)
    ]

digits_onto-append :
    (fuel n : ℕ) (acc s : String) → digits_onto fuel n acc <> s ≡ digits_onto fuel n (acc <> s)
unfolding digits_onto
digits_onto-append zero n acc s = refl
digits_onto-append (suc fuel) n acc s = elim (Bool-cases (n / 10 == 0)) [
  | inl done ↦ rw done (cons-append (digit_char (n % 10)) acc s)
  | inr more ↦ rw more (
      digits_onto-append fuel (n / 10) (String.◌∷◌ (digit_char (n % 10)) acc) s
      ∙ ap (digits_onto fuel (n / 10)) (cons-append (digit_char (n % 10)) acc s))
]

module _ (n : ℕ) (c : Char) (s : String) where
  -- The number and the rest of a text `str(n)` with something behind it that is no digit.
  pub leading-str : is_digit c ≡ false → leading 0 (str n <> String.◌∷◌ c s) ≡ n
  unfolding str leading
  leading-str h =
      rw (digits_onto-append, nil-append)
        (leading-digits_onto (suc n) n (String.◌∷◌ c s) (omega arith) ∙ rw h refl)

  pub behind-str : is_digit c ≡ false → behind (str n <> String.◌∷◌ c s) ≡ String.◌∷◌ c s
  unfolding str behind
  behind-str h =
      rw (digits_onto-append, nil-append)
        (behind-digits_onto (suc n) n (String.◌∷◌ c s) ∙ rw h refl)
