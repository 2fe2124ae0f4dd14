-- ===== src/Base/Exceptions.antt =====
-- Calls that may raise.
use Prim.Native.String.{String}
use mathlib.Core.Path.{◌≡◌, refl}
use mathlib.Core.Bool.{Bool, true, false}
use mathlib.Core.Option.{Option, none, some}

-- The exceptions that the modelled code raises.
pub data Error : Type 0 where
  missing_field : String → String → Error
  key_error : String → Error
  value_error : String → Error
  attribute_error : String → Error
  index_error : Error
  type_error : String → Error
  overlapping_ip_range : String → String → Error
  no_genesis_fork : Error
  pre_merge_fork : Error
  unknown : String → String → Error
  duplicate_name : String → Error
  not_supported : String → Error

-- What a call comes to: the exception it raises, or the value it returns.
pub data Result {ℓ} (T : Type ℓ) : Type ℓ where
  err : (raised : Error) → Result T
  ok : (returned : T) → Result T

-- A raise skips the calls behind it.
infixl 5 ◌>>=◌
abbrev pub ◌>>=◌ {ℓ ι} : {S : Type ℓ} {T : Type ι} → Result S → (S → Result T) → Result T
err x >>= rest = err x
ok value >>= rest = rest value

-- `if b: raise e`
abbrev pub raise_if : Bool → Error → Result (Unit {0})
raise_if true e = err e
raise_if false e = ok tt

-- A statement whose value is dropped.
infixl 5 ◌>>◌
abbrev pub ◌>>◌ {ℓ} : {T : Type ℓ} → Result (Unit {0}) → Result T → Result T
statement >> rest = statement >>= λ done. rest

-- `d[k]` raises where the key is missing.
abbrev pub or_raise {ℓ} : {A : Type ℓ} → Option A → Error → Result A
or_raise none e = err e
or_raise (some a) e = ok a

-- What a chain that returned went through.
pub >>=-eq-ok {ℓ ι} :
    {S : Type ℓ} {T : Type ι} (first : Result S) (rest : S → Result T) {t : T}
    → (first >>= rest) ≡ ok t
    → (s : S) × (first ≡ ok s) × (rest s ≡ ok t)
>>=-eq-ok (err x) rest returns = cc
>>=-eq-ok (ok s) rest returns = (s, refl, returns)

pub raise_if-eq-ok {ℓ} :
    {B : Type ℓ} (b : Bool) (e : Error) (m : Result B) {a : B}
    → (raise_if b e >> m) ≡ ok a
    → (b ≡ false) × (m ≡ ok a)
raise_if-eq-ok true e m h = cc
raise_if-eq-ok false e m h = (refl, h)

-- Every value that is returned has the property.
abbrev pub Ensures {ℓ κ} : {A : Type ℓ} → (A → Type κ) → Result A → Type κ
Ensures P (ok a) = P a
Ensures P (err e) = Unit
