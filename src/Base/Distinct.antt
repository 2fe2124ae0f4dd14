-- ===== src/Base/Distinct.antt =====
-- Lists with no repetition, and dicts that are filled by new keys.
use mathlib.Core.Path.{◌≡◌, refl}
use mathlib.Core.Logic.{◌≢◌}
use mathlib.Core.Bool.{false}
use mathlib.Core.Option.{none}
use mathlib.Core.List.{List, [], ◌∷◌, ◌++◌}
use native.Mathlib.Omega.{arith}
use ethereum_testnet_bootstr.Base.Equality.{Eq, contains}
use ethereum_testnet_bootstr.Base.Dict.{Dict, keys, lookup, insert, NodupKeys, has_key-contains}

module _ {A : Type 0} ⦃e : Eq A⦄ where
  abbrev pub AreDistinct : List A → Type 0
  AreDistinct [] = Unit
  AreDistinct (x ∷ xs) = (contains xs x ≡ false) × AreDistinct xs

  contains-prefix : (xs ys : List A) (x : A) → contains (xs ++ ys) x ≡ false → contains xs x ≡ false
  contains-prefix [] ys x h = refl
  contains-prefix (y ∷ xs) ys x h = ground (arith, contains-prefix xs ys x)

  pub AreDistinct-prefix : (xs ys : List A) → AreDistinct (xs ++ ys) → AreDistinct xs
  AreDistinct-prefix [] ys h = tt
  AreDistinct-prefix (x ∷ xs) ys h = (contains-prefix xs ys x h.0, AreDistinct-prefix xs ys h.1)

  contains-middle :
      (xs : List A) (x : A) (ys : List A) (y : A) → contains (xs ++ (x ∷ ys)) y ≡ false → y ≢ x
  contains-middle [] x ys y h = ground arith
  contains-middle (z ∷ xs) x ys y h = contains-middle xs x ys y (ground arith)

  pub AreDistinct-middle :
      (xs : List A) (x : A) (ys : List A) → AreDistinct (xs ++ (x ∷ ys)) → contains xs x ≡ false
  AreDistinct-middle [] x ys h = refl
  AreDistinct-middle (y ∷ xs) x ys h =
      ground (arith, AreDistinct-middle xs x ys h.1, contains-middle xs x ys y h.0)

  contains-without :
      (xs : List A) (x : A) (ys : List A) (y : A)
      → contains (xs ++ (x ∷ ys)) y ≡ false
      → contains (xs ++ ys) y ≡ false
  contains-without [] x ys y h = ground arith
  contains-without (z ∷ xs) x ys y h = ground (arith, contains-without xs x ys y)

  pub AreDistinct-without :
      (xs : List A) (x : A) (ys : List A) → AreDistinct (xs ++ (x ∷ ys)) → AreDistinct (xs ++ ys)
  AreDistinct-without [] x ys h = h.1
  AreDistinct-without (y ∷ xs) x ys h =
      (contains-without xs x ys y h.0, AreDistinct-without xs x ys h.1)

  contains-snoc :
      (xs : List A) (x y : A) → contains xs y ≡ false → y ≢ x → contains (xs ++ (x ∷ [])) y ≡ false
  contains-snoc [] x y h n = ground arith
  contains-snoc (z ∷ xs) x y h n = ground (arith, contains-snoc xs x y)

  pub AreDistinct-snoc :
      (xs : List A) (x : A) → AreDistinct xs → contains xs x ≡ false → AreDistinct (xs ++ (x ∷ []))
  AreDistinct-snoc [] x u h = (refl, tt)
  AreDistinct-snoc (y ∷ xs) x u h =
      (contains-snoc xs x y u.0 (ground arith), AreDistinct-snoc xs x u.1 (ground arith))

  module _ {V : Type 0} where
    -- A new key goes to the end.
    pub insert-absent :
        (k : A) (v : V) (d : Dict A V)
        → contains (keys d) k ≡ false
        → insert k v d ≡ d ++ ((k, v) ∷ [])
    insert-absent k v [] h = refl
    insert-absent k v ((j, w) ∷ d) h = ground (arith, insert-absent k v d)

    pub keys-append : (d d' : Dict A V) → keys (d ++ d') ≡ keys d ++ keys d'
    keys-append [] d' = refl
    keys-append ((k, _) ∷ d) d' = ground (arith, keys-append d d')

    pub NodupKeys-AreDistinct : (d : Dict A V) → NodupKeys d → AreDistinct (keys d)
    NodupKeys-AreDistinct [] u = tt
    NodupKeys-AreDistinct ((k, _) ∷ d) u =
        (ground (arith, has_key-contains k d), NodupKeys-AreDistinct d u.1)

    pub lookup-eq-none : (k : A) (d : Dict A V) → contains (keys d) k ≡ false → lookup k d ≡ none
    lookup-eq-none k d h = ground (arith, has_key-contains k d)
