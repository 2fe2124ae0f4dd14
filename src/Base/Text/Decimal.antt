-- ===== src/Base/Text/Decimal.antt =====
-- Printing a number and reading it back, and the last part of a text with dots.
use Prim.Native.Char.{Char, code}
use Prim.Native.Nat.{ℕ, zero, suc, ◌+◌, ◌-◌, ◌*◌, ◌/◌, ◌%◌, ◌<◌}
use Prim.Native.String.{String, ◌++◌ as ◌<>◌}
use mathlib.Core.Path.{◌≡◌, refl, ap, ◌∙◌}
use mathlib.Core.Logic.{◌≢◌, inl, inr}
use mathlib.Core.Bool.{true, ◌&&◌}
use mathlib.Core.Option.{some}
use mathlib.Core.List.{[], ◌∷◌}
use native.Mathlib.Omega.{arith}
use native.Mathlib.Decide.{ℕ_discrete}
use text.Mathlib.TextLemmas.{nil-append, cons-append}
use ethereum_testnet_bootstr.Base.Tests.{leb, Bool-cases}
use ethereum_testnet_bootstr.Base.Equality.{◌==◌, nat_eq}
use ethereum_testnet_bootstr.Base.Text.{digit_char, digits_onto, str, int_from, int_of, split_dots}

pub code-digit_char : (d : ℕ) → d < 10 → code (digit_char d) ≡ 48 + d
unfolding digit_char ℕ_discrete
code-digit_char zero h = refl
code-digit_char (suc zero) h = refl
code-digit_char (suc (suc zero)) h = refl
code-digit_char (suc (suc (suc zero))) h = refl
code-digit_char (suc (suc (suc (suc zero)))) h = refl
code-digit_char (suc (suc (suc (suc (suc zero))))) h = refl
code-digit_char (suc (suc (suc (suc (suc (suc zero)))))) h = refl
code-digit_char (suc (suc (suc (suc (suc (suc (suc zero))))))) h = refl
code-digit_char (suc (suc (suc (suc (suc (suc (suc (suc zero)))))))) h = refl
code-digit_char (suc (suc (suc (suc (suc (suc (suc (suc (suc zero))))))))) h = refl
code-digit_char (suc (suc (suc (suc (suc (suc (suc (suc (suc (suc d)))))))))) h =
    absurd (omega arith)

-- One digit read.
int_from-digit :
    (a d : ℕ) (s : String)
    → d < 10
    → int_from a (String.◌∷◌ (digit_char d) s) ≡ int_from (a * 10 + d) s
unfolding int_from
int_from-digit a d s h = rw (code-digit_char d h) (
    let digit : (leb 48 (48 + d) && leb (48 + d) 57) ≡ true = ground arith in
    let value : a * 10 + (48 + d - 48) ≡ a * 10 + d = omega arith in rw (digit, value))

int_from-digits_onto :
    (fuel n : ℕ) (acc : String) → n < fuel → int_from 0 (digits_onto fuel n acc) ≡ int_from n acc
unfolding digits_onto
int_from-digits_onto zero n acc h = absurd (omega arith)
int_from-digits_onto (suc fuel) n acc h =
    let step : (a : ℕ)
        → a ≡ n / 10
        → int_from a (String.◌∷◌ (digit_char (n % 10)) acc) ≡ int_from n acc =
      λ a e. int_from-digit a (n % 10) acc (omega arith) ∙ ap (λ m. int_from m acc) (omega arith) in
    elim (Bool-cases (n / 10 == 0)) [
      | inl done ↦ rw done (step 0 (ground arith))
      | inr more ↦ rw more (
          int_from-digits_onto fuel (n / 10) (String.◌∷◌ (digit_char (n % 10)) acc) (ground arith)
          ∙ step (n / 10) refl)
    ]

-- What is read is never the empty text.
int_of-int_from : (s : String) → s ≢ "" → int_of s ≡ int_from 0 s
unfolding int_of
int_of-int_from String.[] h = absurd (h refl)
int_of-int_from (String.◌∷◌ c s) h = refl

digits_onto-ne-nil : (fuel n : ℕ) (acc : String) → n < fuel → digits_onto fuel n acc ≢ ""
unfolding digits_onto
digits_onto-ne-nil zero n acc h = absurd (omega arith)
digits_onto-ne-nil (suc fuel) n acc h = elim (Bool-cases (n / 10 == 0)) [
  | inl done ↦ rw done (λ e. cc)
  | inr more ↦
      rw more
        (digits_onto-ne-nil fuel (n / 10) (String.◌∷◌ (digit_char (n % 10)) acc) (ground arith))
]

-- `int(str(n))` is `n`.
pub int_of-str : (n : ℕ) → int_of (str n) ≡ some n
unfolding str
int_of-str n =
    int_of-int_from (digits_onto (suc n) n "") (digits_onto-ne-nil (suc n) n "" (omega arith))
    ∙ int_from-digits_onto (suc n) n "" (omega arith)
    ∙ unfold int_from in refl

-- A text with no dot.
pub data NoDot : String → Type 0 where
  none_left : NoDot ""
  next : {c : Char} {s : String} → code c ≢ b'.' → NoDot s → NoDot (String.◌∷◌ c s)

pub split_dots-NoDot : (s : String) → NoDot s → split_dots s ≡ s ∷ []
unfolding split_dots
split_dots-NoDot String.[] h = refl
split_dots-NoDot (String.◌∷◌ c s) (next p h) = rw (split_dots-NoDot s h) (ground arith)

digits_onto-NoDot : (fuel n : ℕ) (acc : String) → NoDot acc → NoDot (digits_onto fuel n acc)
unfolding digits_onto
digits_onto-NoDot zero n acc h = h
digits_onto-NoDot (suc fuel) n acc h =
    let here : NoDot (String.◌∷◌ (digit_char (n % 10)) acc) =
      next (λ e. absurd (omega (arith, code-digit_char (n % 10)))) h in
    elim (Bool-cases (n / 10 == 0)) [
      | inl done ↦ rw done here
      | inr more ↦ rw more (digits_onto-NoDot fuel (n / 10) _ here)
    ]

str-NoDot : (n : ℕ) → NoDot (str n)
unfolding str
str-NoDot n = digits_onto-NoDot (suc n) n "" none_left

-- A part in front, with no dot of its own, is split off.
pub split_dots-append : (w s : String) → NoDot w → split_dots (w <> ("." <> s)) ≡ w ∷ split_dots s
unfolding split_dots
split_dots-append String.[] s h =
    rw (nil-append, cons-append, nil-append) (unfold ℕ_discrete in refl)
split_dots-append (String.◌∷◌ c w) s (next p h) =
    rw (cons-append) (rw (split_dots-append w s h) (ground arith))

pub split_dots-str : (n : ℕ) → split_dots (str n) ≡ str n ∷ []
split_dots-str n = split_dots-NoDot (str n) (str-NoDot n)
