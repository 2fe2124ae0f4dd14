-- ===== src/Base/Text/Colons.antt =====
-- Two texts joined by a colon, and split again.
use Prim.Native.String.{String, ◌++◌ as ◌<>◌}
use mathlib.Core.Path.{◌≡◌, refl}
use mathlib.Core.Bool.{false}
use mathlib.Core.List.{[], ◌∷◌}
use native.Mathlib.Omega.{arith}
use native.Mathlib.Decide.{ℕ_discrete}
use text.Mathlib.TextLemmas.{nil-append, cons-append}
use ethereum_testnet_bootstr.Base.Equality.{nat_eq}
use ethereum_testnet_bootstr.Base.Text.{split_colons, has_colon}

pub split_colons-no_colon : (s : String) → has_colon s ≡ false → split_colons s ≡ s ∷ []
unfolding split_colons has_colon
split_colons-no_colon String.[] h = refl
split_colons-no_colon (String.◌∷◌ c s) h =
    rw (split_colons-no_colon s (ground arith)) (ground arith)

pub split_colons-append :
    (w s : String) → has_colon w ≡ false → split_colons (w <> (":" <> s)) ≡ w ∷ split_colons s
unfolding split_colons has_colon
split_colons-append String.[] s h =
    rw (nil-append, cons-append, nil-append) (unfold ℕ_discrete in refl)
split_colons-append (String.◌∷◌ c w) s h =
    rw (cons-append) (rw (split_colons-append w s (ground arith)) (ground arith))
