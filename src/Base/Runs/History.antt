-- ===== src/Base/Runs/History.antt =====
-- Runs of which each action is allowed by the actions before it.
use mathlib.Core.Path.{◌≡◌, refl}
use mathlib.Core.Logic.{◌⊎◌, inr}
use mathlib.Core.List.{List, [], ◌∷◌, ◌++◌}
use ethereum_testnet_bootstr.Base.Exceptions.{Result, ok, err}
use ethereum_testnet_bootstr.Base.Runs.{
  Run, returned, raised, unfinished, behind, ◌>>=◌, ◌>>◌, act, return, call,
}

module _ {E : Type 0} where
  -- The action is among those of the past.
  abbrev pub Occurs : E → List E → Type 0
  Occurs e [] = ⊥
  Occurs e (p ∷ past) = (e ≡ p) ⊎ Occurs e past

  -- The past with more actions, the latest first.
  abbrev pub past_with : List E → List E → List E
  past_with [] past = past
  past_with (e ∷ es) past = past_with es (e ∷ past)

  pub Occurs-past_with : (e : E) (es past : List E) → Occurs e past → Occurs e (past_with es past)
  Occurs-past_with e [] past o = o
  Occurs-past_with e (d ∷ es) past o = Occurs-past_with e es (d ∷ past) (inr o)

  module _ (Allows : List E → E → Type 0) where
    abbrev pub AreAllowed : List E → List E → Type 0
    AreAllowed past [] = Unit
    AreAllowed past (e ∷ es) = Allows past e × AreAllowed (e ∷ past) es

    -- Each action is allowed by the past and the actions before it, and what is returned meets the
    -- predicate, given the past by then.
    abbrev pub Tracks : {A : Type 0} → List E → (List E → A → Type 0) → Run E A → Type 0
    Tracks past S (es, returned a) = AreAllowed past es × S (past_with es past) a
    Tracks past S (es, raised _) = AreAllowed past es
    Tracks past S (es, unfinished) = AreAllowed past es

    AreAllowed-append :
        (past es fs : List E)
        → AreAllowed past es
        → AreAllowed (past_with es past) fs
        → AreAllowed past (es ++ fs)
    AreAllowed-append past [] fs a b = b
    AreAllowed-append past (e ∷ es) fs a b = (a.0, AreAllowed-append (e ∷ past) es fs a.1 b)

    past_with-append :
        (past es fs : List E) → past_with (es ++ fs) past ≡ past_with fs (past_with es past)
    past_with-append past [] fs = refl
    past_with-append past (e ∷ es) fs = past_with-append (e ∷ past) es fs

    Tracks-behind :
        {A : Type 0} (past : List E) (S : List E → A → Type 0) (es : List E) (run : Run E A)
        → AreAllowed past es
        → Tracks (past_with es past) S run
        → Tracks past S (behind es run)
    Tracks-behind past S es (fs, returned a) h k =
        (AreAllowed-append past es fs h k.0, rw (past_with-append past es fs) k.1)
    Tracks-behind past S es (fs, raised x) h k = AreAllowed-append past es fs h k
    Tracks-behind past S es (fs, unfinished) h k = AreAllowed-append past es fs h k

    pub Tracks-bind :
        {A B : Type 0} (past : List E) (Q : List E → A → Type 0) (S : List E → B → Type 0)
        (run : Run E A) (next : A → Run E B)
        → Tracks past Q run
        → ((past' : List E) (a : A) → Q past' a → Tracks past' S (next a))
        → Tracks past S (run >>= next)
    unfolding ◌>>=◌
    Tracks-bind past Q S (es, returned a) next k n =
        Tracks-behind past S es (next a) k.0 (n (past_with es past) a k.1)
    Tracks-bind past Q S (es, raised x) next k n = k
    Tracks-bind past Q S (es, unfinished) next k n = k

    pub Tracks-act :
        {A : Type 0} (past : List E) (S : List E → A → Type 0) (e : E) (next : Run E A)
        → Allows past e
        → Tracks (e ∷ past) S next
        → Tracks past S (act e >> next)
    unfolding ◌>>=◌ act
    Tracks-act past S e next p k = Tracks-behind past S (e ∷ []) next (p, tt) k

    pub Tracks-last :
        (past : List E) (S : List E → Unit {0} → Type 0) (e : E)
        → Allows past e
        → S (e ∷ past) tt
        → Tracks past S (act e)
    unfolding act
    Tracks-last past S e p s = ((p, tt), s)

    pub Tracks-call :
        {A B : Type 0} (past : List E) (S : List E → B → Type 0) (result : Result A)
        (next : A → Run E B)
        → ((a : A) → result ≡ ok a → Tracks past S (next a))
        → Tracks past S (call result >>= next)
    unfolding ◌>>=◌ call
    Tracks-call past S (ok a) next n = Tracks-behind past S [] (next a) tt (n a refl)
    Tracks-call past S (err x) next n = tt

    pub Tracks-return :
        {A : Type 0} (past : List E) (S : List E → A → Type 0) (a : A)
        → S past a
        → Tracks past S (return a)
    unfolding return
    Tracks-return past S a s = (tt, s)

    -- What has occurred stays.
    pub Tracks-keeps :
        {A : Type 0} (past : List E) (e : E) (S : List E → A → Type 0) (run : Run E A)
        → Occurs e past
        → Tracks past S run
        → Tracks past (λ past' a. Occurs e past' × S past' a) run
    Tracks-keeps past e S (es, returned a) o k = (k.0, (Occurs-past_with e es past o, k.1))
    Tracks-keeps past e S (es, raised x) o k = k
    Tracks-keeps past e S (es, unfinished) o k = k

    pub Tracks-weaken :
        {A : Type 0} (past : List E) (S S' : List E → A → Type 0) (run : Run E A)
        → ((past' : List E) (a : A) → S past' a → S' past' a)
        → Tracks past S run
        → Tracks past S' run
    Tracks-weaken past S S' (es, returned a) w k = (k.0, w (past_with es past) a k.1)
    Tracks-weaken past S S' (es, raised x) w k = k
    Tracks-weaken past S S' (es, unfinished) w k = k
